-- ===== src/Btree.antt =====
-- The B-tree index: include/btnode.h, src/btnode.cpp, include/gxbtree.h, src/gxbtree.cpp.
pub mod Key
pub mod Node
pub mod State
pub mod Search
pub mod Change
pub mod Insert
pub mod Balance
pub mod Delete
pub mod Edit
mod Tests
pub mod Shape

-- ===== src/Database.antt =====
-- The database file: include/gxheader.h, include/gxdbase.h, src/gxdbase.cpp.
pub mod Format
pub mod Reclaim
pub mod Blocks
pub mod Tiles
pub mod Heap
pub mod Alloc
pub mod Delete
pub mod Chain
pub mod FreeList
pub mod BestFit
pub mod Reuse
pub mod Undo
pub mod Cycle
pub mod Session
pub mod Lock
mod Tests

-- ===== src/Btree/Search.antt =====
-- The uncached searches of src/gxbtree.cpp, called with `test_tree` 0. They change neither the file
-- nor the header; each returns the key that it loads and the node that holds it (`curr_node`). A
-- search counts the nodes that it reads in `depth`; the argument `left` is what `ReadNodeChecked`
-- still allows, `gxBtreeMaxNodeReads - depth`.
pub mod Ends
pub mod Find
pub mod Prev
pub mod Correct
pub mod First
pub mod Last
pub mod After
pub mod Next
pub mod Current

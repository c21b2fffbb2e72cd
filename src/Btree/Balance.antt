-- ===== src/Btree/Balance.antt =====
-- `InsertBalance` of src/gxbtree.cpp and the rotations and the merge that it calls (uncached). The
-- parent node is changed through a reference in the code, and returned here. A `key_location`
-- counts the entries from 0, so `GetBranch(key_location)` is branch `key_location + 1`.
use datareel.Prelude.{ℕ, suc, ◌-◌, ◌==◌, if◌then◌else◌}
use datareel.Btree.Node.{
  BtreeNode, Location, equal, greater, less, key_count, get_branch, load_key, insert_key,
  append_key, overwrite_key, merge_node, delete_key, has_many,
}
use datareel.Btree.Change.{M, ◌>>=◌, ◌>>◌, pure, present, with_header, write_node, read, remove}

module _ {K : Type 0} where
  -- A key goes from the left child to the parent, and the parent's key to the right child.
  unfoldable pub insert_right_rotation : BtreeNode K → ℕ → M K (BtreeNode K)
  unfolding get_branch load_key insert_key overwrite_key delete_key
  insert_right_rotation parent_node key_location = do
    right_child ← present (get_branch parent_node (suc key_location))
    left_child ← present (get_branch parent_node key_location)
    right_node ← read right_child
    left_node ← read left_child
    down ← present (load_key parent_node key_location)
    let right_filled = insert_key right_node (record down { right_child = right_node.left_child }) 0
    branch ← present (get_branch left_node (key_count left_node))
    up ← present (load_key left_node (key_count left_node - 1))
    let parent = overwrite_key parent_node (record up { right_child = right_child }) key_location
    write_node parent parent_node.node_address
    write_node (record right_filled { left_child = branch }) right_child
    write_node (delete_key left_node (key_count left_node - 1)) left_child
    pure parent

  -- A key goes from the right child to the parent, and the parent's key to the left child.
  unfoldable pub insert_left_rotation : BtreeNode K → ℕ → M K (BtreeNode K)
  unfolding get_branch load_key append_key overwrite_key delete_key
  insert_left_rotation parent_node key_location = do
    right_child ← present (get_branch parent_node (suc key_location))
    left_child ← present (get_branch parent_node key_location)
    right_node ← read right_child
    left_node ← read left_child
    down ← present (load_key parent_node key_location)
    let left_filled = append_key left_node (record down { right_child = right_node.left_child })
    branch ← present (get_branch right_node 1)
    up ← present (load_key right_node 0)
    let parent = overwrite_key parent_node (record up { right_child = right_child }) key_location
    write_node parent parent_node.node_address
    write_node (delete_key (record right_node { left_child = branch }) 0) right_child
    write_node left_filled left_child
    pure parent

  -- The right child and the parent's key go to the left child.
  unfoldable pub merge : BtreeNode K → ℕ → M K (BtreeNode K)
  unfolding get_branch load_key append_key merge_node delete_key
  merge parent_node key_location = do
    right_child ← present (get_branch parent_node (suc key_location))
    left_child ← present (get_branch parent_node key_location)
    right_node ← read right_child
    left_node ← read left_child
    down ← present (load_key parent_node key_location)
    let left_filled = append_key left_node (record down { right_child = right_node.left_child })
    let parent = delete_key parent_node key_location
    remove right_child
    with_header (λ hdr. record hdr { n_nodes = hdr.n_nodes - 1 })
    write_node parent parent_node.node_address
    write_node (merge_node left_filled right_node) left_child
    pure parent

  -- `InsertBalance` at a location that is not -1.
  unfoldable pub balance_after : BtreeNode K → ℕ → M K (BtreeNode K)
  unfolding get_branch has_many
  balance_after parent_node key_location = do
    left_child ← present (get_branch parent_node key_location)
    left_node ← read left_child
    if has_many left_node
        then insert_right_rotation parent_node key_location
        else if suc key_location == key_count parent_node
        then merge parent_node key_location
        else do
          right_child ← present (get_branch parent_node (suc (suc key_location)))
          right_node ← read right_child
          if has_many right_node
              then insert_left_rotation parent_node (suc key_location)
              else merge parent_node key_location

  -- Balances the child of the parent that the location of the deleted key leads to.
  unfoldable pub insert_balance : BtreeNode K → Location → M K (BtreeNode K)
  unfolding balance_after
  insert_balance parent_node less = do
    right_child ← present (get_branch parent_node 1)
    right_node ← read right_child
    if has_many right_node then insert_left_rotation parent_node 0 else merge parent_node 0
  insert_balance parent_node (equal i) = balance_after parent_node i
  insert_balance parent_node (greater i) = balance_after parent_node i

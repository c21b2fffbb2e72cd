-- ===== src/Btree/Delete.antt =====
-- `DeleteDatabaseKey` (uncached) of src/gxbtree.cpp. The stack of node addresses is a list.
pub mod Absent
use datareel.Prelude.{
  ℕ, zero, suc, ◌-◌, ◌&&◌, Bool, true, false, List, [], ◌∷◌, ◌==◌, if◌then◌else◌, not,
}
use datareel.Btree.Key.{DatabaseKeyB}
use datareel.Btree.Node.{
  BtreeNode, equal, greater, less, get_branch, load_key, delete_key, overwrite_key, has_few,
  find_key_location,
}
use datareel.Btree.State
use datareel.Btree.State.{
  badblock_error, entry_not_found, null_ptr, Result, ok, err, checked, NodeFile, GxBtreeHeader,
  GxBtree, max_node_reads, read_node,
}
use datareel.Btree.Change.{
  M, failed, done, ◌>>=◌, ◌>>◌, pure, present, lift, with_header, write_node, read, collapse_root,
}
use datareel.Btree.Balance.{insert_balance}

module _ {K : Type 0} where
  -- Down the left children: the last node with its address, the stack, and the reads left.
  unfoldable pub sibling_walk :
      GxBtreeHeader → NodeFile K → ℕ → ℕ → List ℕ → Result (BtreeNode K × ℕ × List ℕ × ℕ)
  sibling_walk hdr file zero address stack = err badblock_error
  sibling_walk hdr file (suc left) address stack = State.◌>>=◌ (read_node hdr file address) λ node.
      let rest = sibling_walk hdr file left node.left_child (address ∷ stack) in
      if node.left_child == 0 then ok (node, address, stack, left) else rest

  -- `parent_node.HasFew() && parent_node.node_address != btree_header.root`
  abbrev pub is_short : BtreeNode K → M K Bool
  is_short node t = done (has_few node && not (node.node_address == t.btree_header.root)) t

module _ {K : Type 0} ⦃order : DatabaseKeyB K⦄ where
  -- The search: the node that holds the key, the location, and the addresses of the nodes above
  -- it, with the root once more below them.
  unfoldable pub delete_walk :
      GxBtreeHeader → NodeFile K → ℕ → ℕ → List ℕ → K → Result (BtreeNode K × ℕ × List ℕ × ℕ)
  delete_walk hdr file zero address stack key =
      if address == 0 then err entry_not_found else err badblock_error
  delete_walk hdr file (suc left) address stack key =
      let rest =
        (State.◌>>=◌ (read_node hdr file address) λ node. elim (find_key_location node key) [
          | equal i ↦ ok (node, i, stack, left)
          | greater i ↦
              State.◌>>=◌ (checked (get_branch node (suc i)))
                λ branch. delete_walk hdr file left branch (address ∷ stack) key
          | less ↦ delete_walk hdr file left node.left_child (address ∷ stack) key
        ]) in
      if address == 0 then err entry_not_found else rest

  -- One round of the balancing: at the node with this address, for the key.
  unfoldable pub balance_at : ℕ → K → M K (BtreeNode K)
  balance_at address key = do
    parent_node ← read address
    insert_balance parent_node (find_key_location parent_node key)

  -- The parent, and the loop over the grandparents.
  unfoldable pub balance_up : List ℕ → K → M K (Unit {0})
  balance_up [] key = pure tt
  balance_up (address ∷ stack) key = do
    grandparent_node ← balance_at address key
    short ← is_short grandparent_node
    elim short [ true ↦ balance_up stack key | false ↦ pure tt ]

  -- The balancing that follows the deletion from a leaf: `stack` has its parent on top.
  unfoldable pub balance_leaf : BtreeNode K → List ℕ → K → M K (Unit {0})
  unfolding balance_at balance_up
  balance_leaf leaf_node [] key = pure tt
  balance_leaf leaf_node (parent_address ∷ stack) key = do
    short ← is_short leaf_node
    if short then balance_up (parent_address ∷ stack) key else pure tt

  unfoldable pub rebalance : BtreeNode K → List ℕ → K → M K (Unit {0})
  unfolding balance_leaf
  rebalance leaf_node stack key = do balance_leaf leaf_node stack key; collapse_root

  -- The key is in a leaf.
  unfoldable pub delete_from_leaf : BtreeNode K → ℕ → List ℕ → K → M K (Unit {0})
  delete_from_leaf curr_node i stack key = do
    let leaf_node = delete_key curr_node i
    write_node leaf_node curr_node.node_address
    with_header (λ hdr. record hdr { n_keys = hdr.n_keys - 1 })
    rebalance leaf_node stack key

  -- The key is in a node with children: the next key takes its place.
  unfoldable pub delete_from_parent : BtreeNode K → ℕ → ℕ → List ℕ → ℕ → M K (Unit {0})
  delete_from_parent curr_node i sibling_address stack left = do
    (sibling_node, address, path, _) ← λ t.
        lift
          (sibling_walk t.btree_header t.file left sibling_address (curr_node.node_address ∷ stack))
          t
    promoted ← present (load_key sibling_node 0)
    found ← present (load_key curr_node i)
    let leaf_node = delete_key sibling_node 0
    write_node (overwrite_key curr_node (record promoted { right_child = found.right_child }) i)
        curr_node.node_address
    write_node leaf_node address
    with_header (λ hdr. record hdr { n_keys = hdr.n_keys - 1 })
    rebalance leaf_node path promoted.db_key

  -- `DeleteDatabaseKey`
  unfoldable pub delete_database_key : K → M K (Unit {0})
  unfolding delete_walk sibling_walk rebalance delete_from_leaf delete_from_parent
  delete_database_key key t =
      let hdr = t.btree_header in
      let change = do
        (curr_node, i, stack, left) ←
            lift (delete_walk hdr t.file max_node_reads hdr.root (hdr.root ∷ []) key)
        sibling_address ← present (get_branch curr_node (suc i))
        if sibling_address == 0
            then delete_from_leaf curr_node i stack key
            else delete_from_parent curr_node i sibling_address stack left
      in if not t.connected then failed null_ptr t else change t

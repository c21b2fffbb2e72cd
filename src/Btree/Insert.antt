-- ===== src/Btree/Insert.antt =====
-- `InsertDatabaseKey` (uncached) of src/gxbtree.cpp: down to a leaf with the addresses on a stack,
-- then up the stack while nodes are split. The stack of node addresses is a list.
pub mod Split
pub mod Kept
pub mod OneNode
pub mod Halves
pub mod Above
pub mod Walk
pub mod Child
pub mod Below
pub mod Root
pub mod Sound
mod Tests
pub mod Duplicate
use datareel.Prelude.{
  ℕ, zero, suc, ◌+◌, ◌-◌, ◌/◌, Option, none, some, List, [], ◌∷◌, ltb, ◌==◌, if◌then◌else◌, not,
}
use datareel.Btree.Key.{DatabaseKeyB}
use datareel.Btree.Node.{
  Entry, BtreeNode, equal, greater, less, new_node, is_full, load_key, split_node, insert_key,
  delete_key, find_key_location, slot, get_branch,
}
use datareel.Btree.State
use datareel.Btree.State.{
  GxDatabaseError, duplicate_entry, badblock_error, insertion_error, null_ptr, Result, ok, err,
  checked, NodeFile, GxBtreeHeader, GxBtree, max_node_reads, read_node,
}
use datareel.Btree.Change.{
  Outcome, failed, M, ◌>>=◌, ◌>>◌, pure, fail, present, lift, with_header, alloc, alloc_error,
  write_node, grow_new_root,
}

abbrev pub split_point : ℕ → ℕ → ℕ
split_point node_order key_location =
    if ltb key_location (node_order / 2) then node_order / 2 - 1 else node_order / 2

module _ {K : Type 0} where
  -- The split of a full node around a new key: the two nodes, and the key that goes up.
  unfoldable pub split_insert :
      ℕ → BtreeNode K → BtreeNode K → Entry K → ℕ → Option (BtreeNode K × BtreeNode K × Entry K)
  unfolding split_node load_key insert_key delete_key
  split_insert node_order curr_node right_node key key_location =
      let split_location = split_point node_order key_location in
      let (curr, right) = split_node curr_node right_node split_location in
      if ltb split_location key_location
      then elim (load_key right 0) [
        | none ↦ none
        | some middle ↦
            some (
              curr,
              insert_key (delete_key right 0) key (key_location - split_location - 1),
              middle,
            )
      ]
      else if ltb key_location split_location
      then elim (load_key right 0) [
        | none ↦ none
        | some middle ↦ some (insert_key curr key key_location, delete_key right 0, middle)
      ]
      else some (curr, right, key)

  -- The loop body of the way up, at a node and the insertion point in it; `continue` goes on with
  -- the parent. The result is what the caller's `key` holds in the end.
  unfoldable pub insert_at_node :
      ℕ → BtreeNode K → ℕ → Entry K → (Entry K → M K (Entry K)) → M K (Entry K)
  insert_at_node curr_address curr_node key_location key continue t =
      let hdr = t.btree_header in
      let add = do
        write_node (insert_key curr_node key key_location) curr_address
        with_header (λ h. record h { n_keys = h.n_keys + 1 })
        pure key
      in let split = do
        right_address ← alloc
        (λ u. if right_address == 0 then failed (alloc_error u) u else Outcome.done tt u)
        with_header (λ h. record h { n_nodes = h.n_nodes + 1 })
        (curr, right, middle) ← present (
            split_insert hdr.node_order curr_node (new_node hdr.key_size hdr.node_order) key
              key_location)
        let up = record middle { right_child = right_address }
        write_node (record right { left_child = middle.right_child }) right_address
        write_node curr curr_address
        (λ u.
            if curr_address == u.btree_header.root
            then (do
              grow_new_root up
              with_header (λ h. record h { n_keys = h.n_keys + 1 })
              pure up)
                u
            else continue up u)
        in if is_full curr_node then split t else add t

module _ {K : Type 0} ⦃order : DatabaseKeyB K⦄ where
  -- The way down: the leaf, the insertion point in it, the stack, and the reads that are left.
  unfoldable pub insert_walk :
      GxBtreeHeader
      → NodeFile K
      → ℕ
      → ℕ
      → BtreeNode K
      → ℕ
      → List ℕ
      → K
      → Result (BtreeNode K × ℕ × List ℕ × ℕ)
  insert_walk hdr file zero address node at stack key =
      if address == 0 then ok (node, at, stack, zero) else err badblock_error
  insert_walk hdr file (suc left) address node at stack key =
      let rest =
        (State.◌>>=◌ (read_node hdr file address) λ next. elim (find_key_location next key) [
          | equal i ↦ err duplicate_entry
          | greater i ↦
              State.◌>>=◌ (checked (get_branch next (suc i)))
                λ branch. insert_walk hdr file left branch next (suc i) (address ∷ stack) key
          | less ↦ insert_walk hdr file left next.left_child next 0 (address ∷ stack) key
        ]) in
      if address == 0 then ok (node, at, stack, suc left) else rest

  -- The way up after a split: the parent is read again.
  unfoldable pub insert_up : List ℕ → ℕ → Entry K → M K (Entry K)
  insert_up [] left key = fail insertion_error
  insert_up (curr_address ∷ stack) zero key = fail badblock_error
  insert_up (curr_address ∷ stack) (suc left) key = do
    curr_node ← λ t. lift (read_node t.btree_header t.file curr_address) t
    insert_at_node curr_address curr_node (slot (find_key_location curr_node key.db_key)) key
        (insert_up stack left)

  -- `InsertDatabaseKey`
  unfoldable pub insert_database_key : K → M K (Entry K)
  unfolding insert_walk insert_up insert_at_node
  insert_database_key key t =
      let hdr = t.btree_header in
      let empty : BtreeNode K = new_node hdr.key_size hdr.node_order in
      let start : Entry K = record { right_child = 0; db_key = key } in
      let change = do
        (node, at, stack, left) ←
            lift (insert_walk hdr t.file max_node_reads hdr.root empty 0 [] key)
        elim stack [
          | [] ↦ fail insertion_error
          | address ∷ rest ↦ insert_at_node address node at start (insert_up rest left)
        ]
      in if not t.connected then failed null_ptr t else change t

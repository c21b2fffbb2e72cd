-- ===== src/Btree/Edit.antt =====
-- `FastDeleteDatabaseKey`, `ChangeKey` and `ChangeOrAddKey` of src/gxbtree.cpp, without cache. The
-- stack of node addresses is a list.
mod Tests
use datareel.Prelude.{
  ℕ, zero, suc, ◌-◌, ◌&&◌, Bool, true, false, Option, none, some, List, [], ◌∷◌, ◌==◌,
  if◌then◌else◌, not,
}
use datareel.Btree.Key.{DatabaseKeyB}
use datareel.Btree.Node.{
  Entry, BtreeNode, equal, greater, less, new_node, is_empty, load_key, delete_key, overwrite_key,
  find_key_location, slot, get_branch,
}
use datareel.Btree.State
use datareel.Btree.State.{
  entry_not_found, badblock_error, null_ptr, Result, ok, err, checked, NodeFile, GxBtreeHeader,
  GxBtree, max_node_reads, read_node,
}
use datareel.Btree.Change.{
  Outcome, done, failed, M, ◌>>=◌, ◌>>◌, pure, fail, present, lift, with_header, remove, write_node,
  collapse, collapse_root,
}
use datareel.Btree.Search.Ends.{read_node_checked}
use datareel.Btree.Search.Find.{find}
use datareel.Btree.Insert.{insert_database_key}

module _ {K : Type 0} where
  -- From a sibling down its left children: the last node, and the addresses with that of it on top.
  unfoldable pub sibling_walk :
      GxBtreeHeader → NodeFile K → ℕ → ℕ → List ℕ → Result (BtreeNode K × List ℕ × ℕ)
  sibling_walk hdr file zero address stack = err badblock_error
  sibling_walk hdr file (suc left) address stack =
      State.◌>>=◌ (read_node hdr file address) λ sibling.
        let rest = sibling_walk hdr file left sibling.left_child (address ∷ stack) in
        if sibling.left_child == 0 then ok (sibling, address ∷ stack, left) else rest

  -- `f->Remove` of an empty sibling.
  unfoldable pub remove_sibling : ℕ → M K (Unit {0})
  unfolding remove
  remove_sibling address = do
    remove address
    with_header (λ h. record h { n_nodes = h.n_nodes - 1 })

  -- The empty siblings above are removed, up to one that holds a key.
  unfoldable pub remove_siblings : ℕ → List ℕ → M K (Option (BtreeNode K × ℕ))
  unfolding remove_sibling read_node_checked
  remove_siblings left [] = pure none
  remove_siblings zero (address ∷ stack) = fail badblock_error
  remove_siblings (suc left) (address ∷ stack) = do
    sibling ← λ t. lift (read_node t.btree_header t.file address) t
    if is_empty sibling
        then (do remove_sibling address; remove_siblings left stack)
        else pure (some (sibling, address))

  -- The entry of the parent goes with its empty branch.
  unfoldable pub delete_branch : BtreeNode K → ℕ → ℕ → M K (Unit {0})
  unfolding collapse
  delete_branch parent parent_address i = do
    let without = delete_key parent i
    write_node without parent_address
    with_header (λ h. record h { n_keys = h.n_keys - 1 })
    (λ u.
        if is_empty without && (parent_address == u.btree_header.root)
        then collapse without u
        else done tt u)

  -- The first key of the sibling takes the place of the entry, with the branch of the entry.
  unfoldable pub take_first : BtreeNode K → ℕ → ℕ → BtreeNode K → ℕ → M K (Unit {0})
  unfolding write_node
  take_first parent parent_address i sibling sibling_address = do
    old ← present (load_key parent i)
    first ← present (load_key sibling 0)
    write_node (overwrite_key parent (record first { right_child = old.right_child }) i)
        parent_address
    write_node (delete_key (record sibling { left_child = first.right_child }) 0) sibling_address
    with_header (λ h. record h { n_keys = h.n_keys - 1 })

module _ {K : Type 0} ⦃order : DatabaseKeyB K⦄ where
  -- The way down to the key: its node, the location, the branch there, and the reads that are left.
  unfoldable pub fast_walk :
      GxBtreeHeader → NodeFile K → ℕ → ℕ → K → Result (BtreeNode K × ℕ × ℕ × ℕ × ℕ)
  fast_walk hdr file zero address key =
      if address == 0 then err entry_not_found else err badblock_error
  fast_walk hdr file (suc left) address key =
      let rest =
        (State.◌>>=◌ (read_node hdr file address) λ parent. elim (find_key_location parent key) [
          | equal i ↦
              State.◌>>=◌ (checked (get_branch parent (suc i)))
                λ branch. ok (parent, address, i, branch, left)
          | greater i ↦
              State.◌>>=◌ (checked (get_branch parent (suc i)))
                λ branch. fast_walk hdr file left branch key
          | less ↦ fast_walk hdr file left parent.left_child key
        ]) in
      if address == 0 then err entry_not_found else rest

  -- `FastDeleteDatabaseKey`
  unfoldable pub fast_delete_database_key : K → M K (Unit {0})
  unfolding fast_walk sibling_walk remove_siblings delete_branch take_first
  fast_delete_database_key key t =
      let hdr = t.btree_header in
      let change = do
        (parent, parent_address, i, branch, left) ←
            lift (fast_walk hdr t.file max_node_reads hdr.root key)
        let from_leaf = do
          write_node (delete_key parent i) parent_address
          with_header (λ h. record h { n_keys = h.n_keys - 1 })
          collapse_root
        let from_parent = do
          (sibling, stack, left') ← lift (sibling_walk hdr t.file left branch [])
          elim stack [
            | [] ↦ delete_branch parent parent_address i
            | sibling_address ∷ above ↦ do
              found ←
                  if is_empty sibling
                  then (do remove_sibling sibling_address; remove_siblings left' above)
                  else pure (some (sibling, sibling_address))
              elim found [
                | none ↦ delete_branch parent parent_address i
                | some (full, full_address) ↦ take_first parent parent_address i full full_address
              ]
          ]
        if branch == 0 then from_leaf else from_parent
      in if not t.connected then failed null_ptr t else change t

  -- `WriteNode` with the key overwritten, and whether it succeeded.
  unfoldable pub overwrite : BtreeNode K → K → Entry K → M K Bool
  unfolding write_node
  overwrite curr_node key new_key_vals t = elim (find_key_location curr_node key) [
    | equal i ↦
        elim (write_node (overwrite_key curr_node new_key_vals i) curr_node.node_address t) [
          | done _ u ↦ done true u
          | failed e u ↦ done false u
          | Outcome.fault ↦ Outcome.fault
        ]
    | _ ↦ done false t
  ]

  -- `ChangeKey` with a current node of its own. `Find` leaves the key that it found in `key`.
  unfoldable pub change_key : K → Entry K → M K Bool
  unfolding overwrite
  change_key key new_key_vals t =
      let hdr = t.btree_header in
      elim (find t (new_node hdr.key_size hdr.node_order) key) [
        | Result.ok (found, curr_node) ↦ overwrite curr_node found.db_key new_key_vals t
        | Result.fault ↦ Outcome.fault
        | _ ↦ done false t
      ]

  -- `ChangeOrAddKey` with a current node of its own. Where `Find` fails, it is `key` that is
  -- inserted.
  unfoldable pub change_or_add_key : K → Entry K → M K Bool
  unfolding overwrite
  change_or_add_key key new_key_vals t =
      let hdr = t.btree_header in
      let add : Outcome K Bool = elim (insert_database_key key t) [
        | done _ u ↦ done true u
        | failed e u ↦ done false u
        | Outcome.fault ↦ Outcome.fault
      ] in
      elim (find t (new_node hdr.key_size hdr.node_order) key) [
        | Result.ok (found, curr_node) ↦ overwrite curr_node found.db_key new_key_vals t
        | Result.stale ↦ done false t
        | Result.fault ↦ Outcome.fault
        | _ ↦ add
      ]

-- ===== src/Btree/Search/Prev.antt =====
-- `FindPrev` and `PartialFind` of src/gxbtree.cpp, by a walk from the root.
use datareel.Prelude.{ℕ, zero, suc, not, Option, none, some, ltb, ◌==◌, if◌then◌else◌}
use datareel.Btree.Key.{DatabaseKeyB}
use datareel.Btree.Node.{
  BtreeNode, equal, greater, less, slot, key_count, get_branch, load_key, find_key_location,
  is_empty,
}
use datareel.Btree.State.{
  entry_not_found, badblock_error, Result, ok, err, stale, ◌>>=◌, checked, NodeFile, GxBtreeHeader,
  GxBtree, max_node_reads, read_node,
}
use datareel.Btree.Search.Ends.{Hit, left_most, load_hit, prev_from, load_parent}

module _ {K : Type 0} ⦃order : DatabaseKeyB K⦄ where
  -- One round of the walk of `FindPrev`, with what follows a branch to the left and to the right.
  -- Where it branches to the right of an entry it reads the node again, as `parent_node`.
  unfoldable pub prev_step :
      GxBtreeHeader
      → NodeFile K
      → ℕ
      → ℕ
      → Option (BtreeNode K × ℕ)
      → K
      → (ℕ → Result (Hit K))
      → (ℕ → Option (BtreeNode K × ℕ) → Result (Hit K))
      → Result (Hit K)
  unfolding prev_from
  prev_step hdr file left address parent key to_left to_right = do
    node ← read_node hdr file address
    elim (find_key_location node key) [
      | equal i ↦ prev_from hdr file left node i (elim parent [
        | none ↦ err entry_not_found
        | some (parent_node, sav_location) ↦ do
          e ← checked (load_key parent_node sav_location)
          ok (e, node)
      ])
      | greater i ↦ do
        parent_node ← if left == 0 then err badblock_error else read_node hdr file address
        branch ← checked (get_branch node (suc i))
        to_right branch (some (parent_node, i))
      | less ↦ to_left node.left_child
    ]

  unfoldable pub prev_walk :
      GxBtreeHeader → NodeFile K → ℕ → ℕ → Option (BtreeNode K × ℕ) → K → Result (Hit K)
  unfolding prev_step
  prev_walk hdr file zero address parent key =
      if address == 0 then err entry_not_found else err badblock_error
  prev_walk hdr file (suc zero) address parent key =
      let rest =
        prev_step hdr file zero address parent key
          (λ branch. prev_walk hdr file zero branch parent key)
          (λ branch again. err badblock_error) in
      if address == 0 then err entry_not_found else rest
  prev_walk hdr file (suc (suc left)) address parent key =
      let rest =
        prev_step hdr file (suc left) address parent key
          (λ branch. prev_walk hdr file (suc left) branch parent key)
          (λ branch again. prev_walk hdr file left branch again key) in
      if address == 0 then err entry_not_found else rest

  unfoldable pub find_prev : GxBtree K → BtreeNode K → K → Result (Hit K)
  unfolding prev_from
  find_prev t curr_node key =
      let hdr = t.btree_header in
      let walk = prev_walk hdr t.file max_node_reads hdr.root none key in
      if not t.connected
      then stale
      else if ltb 0 (key_count curr_node)
      then elim (find_key_location curr_node key) [
        | equal i ↦ prev_from hdr t.file max_node_reads curr_node i walk
        | _ ↦ walk
      ]
      else walk

  -- `PartialFind` after its walk: at `curr_node`, with `key_location + 1`.
  unfoldable pub partial_end :
      GxBtreeHeader → NodeFile K → ℕ → BtreeNode K → ℕ → Option (ℕ × ℕ) → Result (Hit K)
  unfolding left_most load_hit load_parent
  partial_end hdr file left node at parent = do
    branch ← checked (get_branch node at)
    let below = do
      (leaf, _) ← left_most hdr file left branch
      if is_empty leaf then err entry_not_found else load_hit leaf 0
    if branch == 0
        then (if ltb at (key_count node)
            then load_hit node at
            else load_parent hdr file left node parent)
        else below

  unfoldable pub partial_walk :
      GxBtreeHeader → NodeFile K → ℕ → ℕ → BtreeNode K → ℕ → Option (ℕ × ℕ) → K → Result (Hit K)
  unfolding partial_end
  partial_walk hdr file zero address node at parent key =
      if address == 0 then partial_end hdr file zero node at parent else err badblock_error
  partial_walk hdr file (suc left) address node at parent key =
      let rest = do
        next ← read_node hdr file address
        let place = find_key_location next key
        let saved = if ltb (slot place) (key_count next) then some (address, slot place) else parent
        elim place [
          | equal i ↦ load_hit next i
          | greater i ↦ do
            branch ← checked (get_branch next (suc i))
            partial_walk hdr file left branch next (suc i) saved key
          | less ↦ partial_walk hdr file left next.left_child next 0 saved key
        ]
      in if address == 0 then partial_end hdr file (suc left) node at parent else rest

  -- `PartialFind` from the root, with the location 0.
  unfoldable pub partial_find : GxBtree K → BtreeNode K → K → Result (Hit K)
  unfolding load_hit
  partial_find t curr_node key =
      if not t.connected
      then stale
      else partial_walk t.btree_header t.file max_node_reads t.btree_header.root curr_node 1 none
          key

-- ===== src/Btree/Search/Find.antt =====
-- `Find` and `FindNext` of src/gxbtree.cpp, by a walk from the root.
use datareel.Prelude.{ℕ, zero, suc, not, Option, none, some, ltb, ◌==◌, if◌then◌else◌}
use datareel.Btree.Key.{DatabaseKeyB}
use datareel.Btree.Node.{
  BtreeNode, equal, greater, less, slot, key_count, get_branch, find_key_location,
}
use datareel.Btree.State.{
  entry_not_found, badblock_error, Result, err, stale, ◌>>=◌, checked, NodeFile, GxBtreeHeader,
  GxBtree, max_node_reads, read_node,
}
use datareel.Btree.Search.Ends.{Hit, load_hit, next_from, load_parent}

module _ {K : Type 0} ⦃order : DatabaseKeyB K⦄ where
  -- The walk of `Find` from an address.
  unfoldable pub find_walk : GxBtreeHeader → NodeFile K → ℕ → ℕ → K → Result (Hit K)
  unfolding load_hit
  find_walk hdr file zero address key =
      if address == 0 then err entry_not_found else err badblock_error
  find_walk hdr file (suc left) address key =
      let rest = do
        node ← read_node hdr file address
        elim (find_key_location node key) [
          | equal i ↦ load_hit node i
          | greater i ↦ do
            branch ← checked (get_branch node (suc i))
            find_walk hdr file left branch key
          | less ↦ find_walk hdr file left node.left_child key
        ]
      in if address == 0 then err entry_not_found else rest

  -- `Find`. The child link that the code takes from `curr_node` is overwritten by the root before
  -- it is used, so only a hit in `curr_node` itself shortens the search.
  unfoldable pub find : GxBtree K → BtreeNode K → K → Result (Hit K)
  unfolding load_hit
  find t curr_node key =
      let walk = find_walk t.btree_header t.file max_node_reads t.btree_header.root key in
      if not t.connected
      then stale
      else if ltb 0 (key_count curr_node)
      then elim (find_key_location curr_node key) [ equal i ↦ load_hit curr_node i | _ ↦ walk ]
      else walk

  -- `parent` is `parent_address` with `sav_location + 1`, once it is set.
  unfoldable pub next_walk :
      GxBtreeHeader → NodeFile K → ℕ → ℕ → Option (ℕ × ℕ) → K → Result (Hit K)
  unfolding next_from load_parent
  next_walk hdr file zero address parent key =
      if address == 0 then err entry_not_found else err badblock_error
  next_walk hdr file (suc left) address parent key =
      let rest = do
        node ← read_node hdr file address
        let at = find_key_location node key
        let saved = if ltb (slot at) (key_count node) then some (address, slot at) else parent
        elim at [
          | equal i ↦ next_from hdr file left node i (load_parent hdr file left node parent)
          | greater i ↦ do
            branch ← checked (get_branch node (suc i))
            next_walk hdr file left branch saved key
          | less ↦ next_walk hdr file left node.left_child saved key
        ]
      in if address == 0 then err entry_not_found else rest

  unfoldable pub find_next : GxBtree K → BtreeNode K → K → Result (Hit K)
  unfolding next_from
  find_next t curr_node key =
      let hdr = t.btree_header in
      let walk = next_walk hdr t.file max_node_reads hdr.root none key in
      if not t.connected
      then stale
      else if ltb 0 (key_count curr_node)
      then elim (find_key_location curr_node key) [
        | equal i ↦ next_from hdr t.file max_node_reads curr_node i walk
        | _ ↦ walk
      ]
      else walk

-- ===== src/Btree/Search/Ends.antt =====
-- The ends of the uncached searches of src/gxbtree.cpp: `FindFirst` and `FindLast`, and the last
-- steps of `FindNext`, `FindPrev` and `PartialFind`.
use datareel.Prelude.{
  ◌||◌, leb, ℕ, zero, suc, ◌-◌, not, Option, none, some, ltb, ◌==◌, if◌then◌else◌,
}
use datareel.Btree.Node.{Entry, BtreeNode, key_count, get_branch, load_key, is_empty}
use datareel.Btree.State.{
  entry_not_found, badblock_error, Result, ok, err, unset, stale, ◌>>=◌, checked, NodeFile,
  GxBtreeHeader, GxBtree, max_node_reads, read_node,
}

abbrev pub Hit : Type 0 → Type 0
Hit K = Entry K × BtreeNode K

module _ {K : Type 0} where
  unfoldable pub read_node_checked : GxBtreeHeader → NodeFile K → ℕ → ℕ → Result (BtreeNode K × ℕ)
  read_node_checked hdr file zero node_address = err badblock_error
  read_node_checked hdr file (suc left) node_address = do
    node ← read_node hdr file node_address
    ok (node, left)

  -- From a node down its left children, to the node that has none.
  unfoldable pub left_most : GxBtreeHeader → NodeFile K → ℕ → ℕ → Result (BtreeNode K × ℕ)
  left_most hdr file zero address = err badblock_error
  left_most hdr file (suc left) address = do
    node ← read_node hdr file address
    let rest = left_most hdr file left node.left_child
    if node.left_child == 0 then ok (node, left) else rest

  -- From a node down its last branches.
  unfoldable pub right_most : GxBtreeHeader → NodeFile K → ℕ → ℕ → Result (BtreeNode K × ℕ)
  right_most hdr file zero address = err badblock_error
  right_most hdr file (suc left) address = do
    node ← read_node hdr file address
    branch ← checked (get_branch node (key_count node))
    let rest = right_most hdr file left branch
    if branch == 0 then ok (node, left) else rest

  unfoldable pub load_hit : BtreeNode K → ℕ → Result (Hit K)
  load_hit node i = do e ← checked (load_key node i); ok (e, node)

  unfoldable pub find_first : GxBtree K → Result (Hit K)
  unfolding left_most load_hit
  find_first t = if not t.connected then stale else if t.btree_header.n_keys == 0 then unset else do
    (node, _) ← left_most t.btree_header t.file max_node_reads t.btree_header.root
    if is_empty node then err entry_not_found else load_hit node 0

  unfoldable pub find_last : GxBtree K → Result (Hit K)
  unfolding right_most load_hit
  find_last t = if t.btree_header.n_keys == 0 then unset else do
    (node, _) ← right_most t.btree_header t.file max_node_reads t.btree_header.root
    if is_empty node then unset else load_hit node (key_count node - 1)

  -- The end of `FindNext` at a node that holds the key: the first key below its right branch, or
  -- the next entry.
  unfoldable pub next_from :
      GxBtreeHeader → NodeFile K → ℕ → BtreeNode K → ℕ → Result (Hit K) → Result (Hit K)
  unfolding left_most load_hit
  next_from hdr file left node i otherwise = do
    branch ← checked (get_branch node (suc i))
    let below = do
      (leaf, _) ← left_most hdr file left branch
      if is_empty leaf then err entry_not_found else load_hit leaf 0
    if branch == 0
        then (if ltb (suc i) (key_count node) then load_hit node (suc i) else otherwise)
        else below

  -- The end of `FindPrev`: the last key below the branch before the entry, or the entry before.
  unfoldable pub prev_from :
      GxBtreeHeader → NodeFile K → ℕ → BtreeNode K → ℕ → Result (Hit K) → Result (Hit K)
  unfolding right_most load_hit
  prev_from hdr file left node i otherwise = do
    branch ← checked (get_branch node i)
    let below = do (leaf, _) ← right_most hdr file left branch; load_hit leaf (key_count leaf - 1)
    if branch == 0 then (if i == 0 then otherwise else load_hit node (i - 1)) else below

  -- Back to the parent node that was saved, for the key at a location; `curr_node` stays.
  unfoldable pub load_parent :
      GxBtreeHeader → NodeFile K → ℕ → BtreeNode K → Option (ℕ × ℕ) → Result (Hit K)
  unfolding read_node_checked
  load_parent hdr file left node none = unset
  load_parent hdr file left node (some (parent_address, sav_location)) = do
    (parent_node, _) ← read_node_checked hdr file left parent_address
    if is_empty parent_node || leb (key_count parent_node) sav_location
        then err entry_not_found
        else do e ← checked (load_key parent_node sav_location); ok (e, node)

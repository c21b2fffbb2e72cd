-- ===== src/Btree/Search/Correct.antt =====
-- `Find` on a stored tree: it ends within the reads that it is allowed, and finds the key exactly if
-- the tree holds one of its rank.
use mathlib.Core.Path.{subst}
use datareel.Prelude.{
  sym, ℕ, zero, suc, ◌≡◌, ◌≤◌, refl, Bool, true, false, ltb, arith, some, length, IsAscending, has,
  if◌then◌else◌, ◌-◌, ne→==,
}
use datareel.Btree.Key.{DatabaseKeyB}
use datareel.Btree.Node.{
  BtreeNode, Location, equal, greater, less, key_count, get_branch, find_from, find_key_location,
  load_key,
}
use datareel.Btree.State.{
  StoredNode, NodeFile, GxBtreeHeader, GxBtree, Result, ok, err, entry_not_found, ◌>>=◌, checked,
  read_node, max_node_reads,
}
use datareel.Btree.Search.Ends.{Hit, load_hit}
use datareel.Btree.Search.Find.{find_walk, find}
use datareel.Btree.Shape.{
  Tree, Branches, leaf, node, address_of, entries_of, child_at, stored_node, Stored, ranks,
}
use datareel.Btree.Shape.Lookup.{
  answer, find_from-answer, IsAt, find_from-IsAt, get_branch-child_at, child_at-Stored,
  child_at-IsAscending,
}

-- The keys that a node of this header holds at most.
abbrev pub capacity : GxBtreeHeader → ℕ
capacity hdr = (if ltb hdr.node_order 5 then 5 else hdr.node_order) - 1

module _ {K : Type 0} where
  abbrev pub node_of : GxBtreeHeader → ℕ → StoredNode K → BtreeNode K
  node_of hdr a stored = record {
    node_order = capacity hdr;
    key_size = hdr.key_size;
    node_address = a;
    left_child = stored.left_child;
    key_entries = stored.key_entries;
  }

  pub read_node_stored :
      (hdr : GxBtreeHeader) (file : NodeFile K) (a : ℕ) (s : StoredNode K)
      → file.nodes a ≡ some s
      → length s.key_entries ≤ capacity hdr
      → read_node hdr file a ≡ ok (node_of hdr a s)
  unfolding read_node
  read_node_stored hdr file a s e h = ground arith

module _ {K : Type 0} ⦃order : DatabaseKeyB K⦄ where
  -- The right answer of a search for a key that is there, or is not.
  abbrev pub Finds : K → Bool → Result (Hit K) → Type 0
  Finds k true r = (hit : Hit K) × (r ≡ ok hit) × (order.rank hit.0.db_key ≡ order.rank k)
  Finds k false r = r ≡ err entry_not_found

  -- One node of the walk, at the location that was found in it.
  find_step :
      (hdr : GxBtreeHeader) (file : NodeFile K) (left a : ℕ) (l : Tree K) (bs : Branches K) (k : K)
      → (at : Location) → IsAt k (entries_of bs) at
      → ((s : ℕ)
          → s ≤ length (entries_of bs)
          → Finds k
              (has (order.rank k) (ranks (child_at l bs s)))
              (find_walk hdr file left (address_of (child_at l bs s)) k))
      → Finds k (answer (order.rank k) l bs at) (elim at [
        | equal i ↦ load_hit (node_of hdr a (stored_node l bs)) i
        | greater i ↦ checked (get_branch (node_of hdr a (stored_node l bs)) (suc i)) >>= λ branch.
            find_walk hdr file left branch k
        | less ↦ find_walk hdr file left (address_of l) k
      ])
  unfolding load_hit load_key
  find_step hdr file left a l bs k less at ih = ih 0 (omega arith)
  find_step hdr file left a l bs k (equal i) at ih =
      ((at.0, node_of hdr a (stored_node l bs)), rw at.1, at.2)
  find_step hdr file left a l bs k (greater i) at ih =
      rw (get_branch-child_at (node_of hdr a (stored_node l bs)) l bs (suc i) refl refl at)
        (ih (suc i) at)

  pub find_walk-Finds :
      (hdr : GxBtreeHeader) (file : NodeFile K) (left height : ℕ) (t : Tree K) (k : K)
      → height ≤ left
      → Stored file.nodes (capacity hdr) height t
      → IsAscending (ranks t)
      → Finds k (has (order.rank k) (ranks t)) (find_walk hdr file left (address_of t) k)
  unfolding find_walk find_key_location
  find_walk-Finds hdr file zero height leaf k h st asc = refl
  find_walk-Finds hdr file (suc left) height leaf k h st asc = refl
  find_walk-Finds hdr file zero zero (node a l bs) k h st asc = elim st [ ]
  find_walk-Finds hdr file zero (suc height) (node a l bs) k h st asc = absurd (omega arith)
  find_walk-Finds hdr file (suc left) zero (node a l bs) k h st asc = elim st [ ]
  find_walk-Finds hdr file (suc left) (suc height) (node a l bs) k h st asc =
      rw
        (
          ne→== a 0 st.0,
          read_node_stored hdr file a (stored_node l bs) st.1 st.2,
          find_from-answer k l bs asc,
        )
        (find_step hdr file left a l bs k (find_from k (entries_of bs))
          (find_from-IsAt k (entries_of bs))
          (λ s hs.
            find_walk-Finds hdr file left height (child_at l bs s) k (omega arith)
              (child_at-Stored file.nodes (capacity hdr) height l bs s hs st.3 st.4)
              (child_at-IsAscending l bs s asc)))

  -- What `Find` promises of an open tree.
  pub record IsTree (t : GxBtree K) (height : ℕ) (shape : Tree K) : Type 0 where
    pub open_file : t.connected ≡ true
    pub at_root : t.btree_header.root ≡ address_of shape
    pub bounded : height ≤ max_node_reads
    pub stored : Stored t.file.nodes (capacity t.btree_header) height shape
    pub ordered : IsAscending (ranks shape)
    pub counted : t.btree_header.n_keys ≡ length (ranks shape)

  -- On an open file that stores a B-tree of ordered keys, of a height that is not above the reads
  -- allowed, `Find` with a current node that has no keys ends. It loads a key of the rank of the
  -- given key if the tree holds one, and otherwise reports that there is no such entry.
  pub find-Finds :
      (t : GxBtree K) (height : ℕ) (shape : Tree K) (curr_node : BtreeNode K) (k : K)
      → IsTree t height shape
      → key_count curr_node ≡ 0
      → Finds k (has (order.rank k) (ranks shape)) (find t curr_node k)
  unfolding find
  find-Finds t height shape curr_node k is empty =
      let walk = find_walk t.btree_header t.file max_node_reads in
      rw (is.open_file, empty)
        (subst (λ a. Finds k (has (order.rank k) (ranks shape)) (walk a k)) (sym is.at_root)
          (find_walk-Finds t.btree_header t.file max_node_reads height shape k is.bounded is.stored
            is.ordered))

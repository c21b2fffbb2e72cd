-- ===== src/Btree/Delete/Absent.antt =====
-- `DeleteDatabaseKey` of a key that the tree does not hold, and the search that it starts with.
use mathlib.Core.Path.{subst}
use datareel.Prelude.{
  sym, ℕ, zero, suc, ◌≡◌, ◌≤◌, refl, Bool, true, false, arith, some, length, List, [], ◌∷◌,
  IsAscending, has, ne→==,
}
use datareel.Btree.Key.{DatabaseKeyB}
use datareel.Btree.Node.{
  BtreeNode, Location, equal, greater, less, get_branch, find_from, find_key_location,
}
use datareel.Btree.State
use datareel.Btree.State.{
  NodeFile, GxBtreeHeader, GxBtree, Result, ok, err, entry_not_found, checked, read_node,
  max_node_reads,
}
use datareel.Btree.Change.{failed}
use datareel.Prelude.{get_elem?}
use datareel.Btree.Node.{Entry}
use datareel.Btree.Delete.{delete_walk, delete_database_key}
use datareel.Btree.Search.Correct.{capacity, node_of, read_node_stored, IsTree}
use datareel.Btree.Shape.{
  Tree, Branches, leaf, node, address_of, entries_of, child_at, stored_node, Stored, ranks,
}
use datareel.Btree.Shape.Lookup.{
  answer, find_from-answer, IsAt, find_from-IsAt, get_branch-child_at, child_at-Stored,
  child_at-IsAscending,
}

module _ {K : Type 0} ⦃order : DatabaseKeyB K⦄ where
  -- The search ends at an entry of the key's rank, or says that there is none.
  abbrev Reaches : K → Bool → Result (BtreeNode K × ℕ × List ℕ × ℕ) → Type 0
  Reaches k true r =
      (n : BtreeNode K) × (i : ℕ) × (stack : List ℕ) × (left : ℕ) × (e : Entry K) × (r
        ≡ ok (n, i, stack, left))
      × (get_elem? n.key_entries i ≡ some e)
      × (order.rank e.db_key ≡ order.rank k)
  Reaches k false r = r ≡ err entry_not_found

  reach_step :
      (hdr : GxBtreeHeader) (file : NodeFile K) (left a : ℕ) (l : Tree K) (bs : Branches K) (k : K)
      → (stack : List ℕ) (at : Location) → IsAt k (entries_of bs) at
      → ((s : ℕ)
          → s ≤ length (entries_of bs)
          → Reaches k
              (has (order.rank k) (ranks (child_at l bs s)))
              (delete_walk hdr file left (address_of (child_at l bs s)) (a ∷ stack) k))
      → Reaches k (answer (order.rank k) l bs at) (elim at [
        | equal i ↦ ok (node_of hdr a (stored_node l bs), i, stack, left)
        | greater i ↦
            State.◌>>=◌
              (checked (get_branch (node_of hdr a (stored_node l bs)) (suc i)))
              λ branch. delete_walk hdr file left branch (a ∷ stack) k
        | less ↦ delete_walk hdr file left (address_of l) (a ∷ stack) k
      ])
  reach_step hdr file left a l bs k stack less at ih = ih 0 (omega arith)
  reach_step hdr file left a l bs k stack (equal i) at ih =
      (node_of hdr a (stored_node l bs), i, stack, left, at.0, refl, at.1, at.2)
  reach_step hdr file left a l bs k stack (greater i) at ih =
      rw (get_branch-child_at (node_of hdr a (stored_node l bs)) l bs (suc i) refl refl at)
        (ih (suc i) at)

  pub delete_walk-Reaches :
      (hdr : GxBtreeHeader) (file : NodeFile K) (left height : ℕ) (t : Tree K) (stack : List ℕ)
      (k : K)
      → height ≤ left
      → Stored file.nodes (capacity hdr) height t
      → IsAscending (ranks t)
      → Reaches k (has (order.rank k) (ranks t)) (delete_walk hdr file left (address_of t) stack k)
  unfolding delete_walk find_key_location
  delete_walk-Reaches hdr file zero height leaf stack k h st asc = refl
  delete_walk-Reaches hdr file (suc left) height leaf stack k h st asc = refl
  delete_walk-Reaches hdr file zero zero (node a l bs) stack k h st asc = elim st [ ]
  delete_walk-Reaches hdr file zero (suc height) (node a l bs) stack k h st asc =
      absurd (omega arith)
  delete_walk-Reaches hdr file (suc left) zero (node a l bs) stack k h st asc = elim st [ ]
  delete_walk-Reaches hdr file (suc left) (suc height) (node a l bs) stack k h st asc =
      rw
        (
          ne→== a 0 st.0,
          read_node_stored hdr file a (stored_node l bs) st.1 st.2,
          find_from-answer k l bs asc,
        )
        (reach_step hdr file left a l bs k stack (find_from k (entries_of bs))
          (find_from-IsAt k (entries_of bs))
          (λ s hs.
            delete_walk-Reaches hdr file left height (child_at l bs s) (a ∷ stack) k (omega arith)
              (child_at-Stored file.nodes (capacity hdr) height l bs s hs st.3 st.4)
              (child_at-IsAscending l bs s asc)))

  -- On an open file that stores a B-tree of ordered keys, `DeleteDatabaseKey` of a key whose rank
  -- the tree does not hold fails as not found, and leaves the tree and its file as they were.
  pub delete_database_key-absent :
      (t : GxBtree K) (height : ℕ) (shape : Tree K) (k : K)
      → IsTree t height shape
      → has (order.rank k) (ranks shape) ≡ false
      → delete_database_key k t ≡ failed entry_not_found t
  unfolding delete_database_key
  delete_database_key-absent t height shape k is absent =
      let hdr = t.btree_header in
      let walk : delete_walk hdr t.file max_node_reads hdr.root (hdr.root ∷ []) k
          ≡ err entry_not_found =
        subst (λ b. Reaches k b (delete_walk hdr t.file max_node_reads hdr.root (hdr.root ∷ []) k))
          absent
          (subst
            (λ a.
              Reaches k (has (order.rank k) (ranks shape))
                (delete_walk hdr t.file max_node_reads a (hdr.root ∷ []) k))
            (sym is.at_root)
            (delete_walk-Reaches hdr t.file max_node_reads height shape (hdr.root ∷ []) k is.bounded
              is.stored is.ordered)) in
      simp (is.open_file, walk) refl

-- ===== src/Btree/Insert/Duplicate.antt =====
-- `InsertDatabaseKey` of a key that the tree holds.
use mathlib.Core.Path.{subst}
use datareel.Prelude.{
  sym, ℕ, zero, suc, ◌≡◌, ◌≤◌, refl, Bool, true, false, arith, length, List, [], ◌∷◌, IsAscending,
  has, ne→==,
}
use datareel.Btree.Key.{DatabaseKeyB}
use datareel.Btree.Node.{
  BtreeNode, Location, equal, greater, less, get_branch, find_from, find_key_location, new_node,
}
use datareel.Btree.State
use datareel.Btree.State.{
  NodeFile, GxBtreeHeader, GxBtree, Result, ok, err, duplicate_entry, checked, read_node,
  max_node_reads,
}
use datareel.Btree.Change.{failed}
use datareel.Btree.Insert.{insert_walk, insert_database_key}
use datareel.Btree.Search.Correct.{capacity, node_of, read_node_stored, IsTree}
use datareel.Btree.Shape.{
  Tree, Branches, leaf, node, address_of, entries_of, child_at, stored_node, Stored, ranks,
}
use datareel.Btree.Shape.Lookup.{
  answer, find_from-answer, IsAt, find_from-IsAt, get_branch-child_at, child_at-Stored,
  child_at-IsAscending,
}

module _ {K : Type 0} ⦃order : DatabaseKeyB K⦄ where
  -- The way down refuses a key that is there, and otherwise ends in a leaf.
  abbrev Descends : Bool → Result (BtreeNode K × ℕ × List ℕ × ℕ) → Type 0
  Descends true r = r ≡ err duplicate_entry
  Descends false r = (leaf : BtreeNode K × ℕ × List ℕ × ℕ) × (r ≡ ok leaf)

  descend_step :
      (hdr : GxBtreeHeader) (file : NodeFile K) (left a : ℕ) (l : Tree K) (bs : Branches K) (k : K)
      → (stack : List ℕ) (at : Location) → IsAt k (entries_of bs) at
      → ((s : ℕ) (from : BtreeNode K) (slot : ℕ)
          → s ≤ length (entries_of bs)
          → Descends
              (has (order.rank k) (ranks (child_at l bs s)))
              (insert_walk hdr file left (address_of (child_at l bs s)) from slot (a ∷ stack) k))
      → Descends (answer (order.rank k) l bs at) (elim at [
        | equal i ↦ err duplicate_entry
        | greater i ↦
            State.◌>>=◌ (checked (get_branch (node_of hdr a (stored_node l bs)) (suc i))) λ branch.
              insert_walk hdr file left branch
                (node_of hdr a (stored_node l bs))
                (suc i)
                (a ∷ stack)
                k
        | less ↦
            insert_walk hdr file left
              (address_of l)
              (node_of hdr a (stored_node l bs))
              0
              (a ∷ stack)
              k
      ])
  descend_step hdr file left a l bs k stack less at ih = ih 0 _ _ (omega arith)
  descend_step hdr file left a l bs k stack (equal i) at ih = refl
  descend_step hdr file left a l bs k stack (greater i) at ih =
      rw (get_branch-child_at (node_of hdr a (stored_node l bs)) l bs (suc i) refl refl at)
        (ih (suc i) _ _ at)

  insert_walk-Descends :
      (hdr : GxBtreeHeader) (file : NodeFile K) (left height : ℕ) (t : Tree K) (from : BtreeNode K)
      (slot : ℕ) (stack : List ℕ) (k : K)
      → height ≤ left
      → Stored file.nodes (capacity hdr) height t
      → IsAscending (ranks t)
      → Descends
          (has (order.rank k) (ranks t))
          (insert_walk hdr file left (address_of t) from slot stack k)
  unfolding insert_walk find_key_location
  insert_walk-Descends hdr file zero height leaf from slot stack k h st asc = (_, refl)
  insert_walk-Descends hdr file (suc left) height leaf from slot stack k h st asc = (_, refl)
  insert_walk-Descends hdr file zero zero (node a l bs) from slot stack k h st asc = elim st [ ]
  insert_walk-Descends hdr file zero (suc height) (node a l bs) from slot stack k h st asc =
      absurd (omega arith)
  insert_walk-Descends hdr file (suc left) zero (node a l bs) from slot stack k h st asc =
      elim st [ ]
  insert_walk-Descends hdr file (suc left) (suc height) (node a l bs) from slot stack k h st asc =
      rw
        (
          ne→== a 0 st.0,
          read_node_stored hdr file a (stored_node l bs) st.1 st.2,
          find_from-answer k l bs asc,
        )
        (descend_step hdr file left a l bs k stack (find_from k (entries_of bs))
          (find_from-IsAt k (entries_of bs))
          (λ s from' slot' hs.
            insert_walk-Descends hdr file left height (child_at l bs s) from' slot' (a ∷ stack) k
              (omega arith) (child_at-Stored file.nodes (capacity hdr) height l bs s hs st.3 st.4)
              (child_at-IsAscending l bs s asc)))

  -- On an open file that stores a B-tree of ordered keys, `InsertDatabaseKey` of a key whose rank
  -- the tree holds fails as a duplicate, and leaves the tree and its file as they were.
  pub insert_database_key-duplicate :
      (t : GxBtree K) (height : ℕ) (shape : Tree K) (k : K)
      → IsTree t height shape
      → has (order.rank k) (ranks shape) ≡ true
      → insert_database_key k t ≡ failed duplicate_entry t
  unfolding insert_database_key
  insert_database_key-duplicate t height shape k is there =
      let hdr = t.btree_header in
      let empty : BtreeNode K = new_node hdr.key_size hdr.node_order in
      let walk : insert_walk hdr t.file max_node_reads hdr.root empty 0 [] k ≡ err duplicate_entry =
        subst (λ b. Descends b (insert_walk hdr t.file max_node_reads hdr.root empty 0 [] k)) there
          (subst
            (λ a.
              Descends (has (order.rank k) (ranks shape))
                (insert_walk hdr t.file max_node_reads a empty 0 [] k))
            (sym is.at_root)
            (insert_walk-Descends hdr t.file max_node_reads height shape empty 0 [] k is.bounded
              is.stored is.ordered)) in
      simp (is.open_file, walk) refl

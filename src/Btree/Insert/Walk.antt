-- ===== src/Btree/Insert/Walk.antt =====
-- The steps of `InsertDatabaseKey` at one node of a stored tree, on the way down and on the way up.
use datareel.Prelude.{
  ℕ, zero, suc, ◌≤◌, ◌≡◌, refl, sym, ◌∙◌, false, some, List, [], ◌∷◌, length, ne→==, IsAscending,
  has,
}
use datareel.Btree.Key.{DatabaseKeyB}
use datareel.Btree.Node.{
  Entry, BtreeNode, Location, equal, greater, less, slot, get_branch, find_from, find_key_location,
}
use datareel.Btree.State
use datareel.Btree.State.{
  NodeFile, GxBtreeHeader, GxBtree, Result, ok, err, duplicate_entry, insertion_error, checked,
  read_node,
}
use datareel.Btree.Change.{M, and_then, fail, lift}
use datareel.Btree.Insert.{insert_walk, insert_up, insert_at_node}
use datareel.Btree.Search.Correct.{capacity, node_of, read_node_stored}
use datareel.Btree.Shape.{
  Tree, Branches, node, address_of, entries_of, child_at, stored_node, Stored, ranks,
}
use datareel.Btree.Shape.Lookup.{
  answer, find_from-answer, IsAt, find_from-IsAt, get_branch-child_at,
}
use datareel.Btree.Shape.Place.{IsBetween}
use datareel.Btree.Shape.Between.{slot-find_from}

module _ {K : Type 0} ⦃order : DatabaseKeyB K⦄ where
  -- From the end of the way down: the leaf takes the key.
  abbrev pub at_leaf : K → BtreeNode K × ℕ × List ℕ × ℕ → M K (Entry K)
  at_leaf k (bottom, at, stack, left) = elim stack [
    | [] ↦ fail insertion_error
    | address ∷ rest ↦
        insert_at_node address bottom at (record { right_child = 0; db_key = k })
          (insert_up rest left)
  ]

  abbrev pub run_from : ℕ → ℕ → BtreeNode K → ℕ → List ℕ → K → M K (Entry K)
  run_from left address from at stack k u =
      and_then (lift (insert_walk u.btree_header u.file left address from at stack k) u) (at_leaf k)

  step_at :
      (hdr : GxBtreeHeader) (file : NodeFile K) (left a : ℕ) (l : Tree K) (bs : Branches K) (k : K)
      (stack : List ℕ) (at : Location)
      → IsAt k (entries_of bs) at
      → answer (order.rank k) l bs at ≡ false
      → let n = node_of hdr a (stored_node l bs) in
        (elim at [
          | equal i ↦ err duplicate_entry
          | greater i ↦
              State.◌>>=◌
                (checked (get_branch n (suc i)))
                λ branch. insert_walk hdr file left branch n (suc i) (a ∷ stack) k
          | less ↦ insert_walk hdr file left (address_of l) n 0 (a ∷ stack) k
        ])
        ≡ insert_walk hdr file left (address_of (child_at l bs (slot at))) n (slot at) (a ∷ stack) k
  step_at hdr file left a l bs k stack less at absent = refl
  step_at hdr file left a l bs k stack (equal i) at absent = cc
  step_at hdr file left a l bs k stack (greater i) at absent =
      rw (get_branch-child_at (node_of hdr a (stored_node l bs)) l bs (suc i) refl refl at) refl

  pub walk_step :
      (hdr : GxBtreeHeader) (file : NodeFile K) (left height a : ℕ) (l : Tree K) (bs : Branches K)
      (k : K) (from : BtreeNode K) (at : ℕ) (stack : List ℕ)
      → Stored file.nodes (capacity hdr) (suc height) (node a l bs)
      → IsAscending (ranks (node a l bs))
      → has (order.rank k) (ranks (node a l bs)) ≡ false
      → let s = slot (find_from k (entries_of bs)) in
        insert_walk hdr file (suc left) a from at stack k
        ≡ insert_walk hdr file left
            (address_of (child_at l bs s))
            (node_of hdr a (stored_node l bs))
            s
            (a ∷ stack)
            k
  unfolding insert_walk find_key_location
  walk_step hdr file left height a l bs k from at stack st asc absent =
      rw (ne→== a 0 st.0, read_node_stored hdr file a (stored_node l bs) st.1 st.2)
        (step_at hdr file left a l bs k stack (find_from k (entries_of bs))
          (find_from-IsAt k (entries_of bs)) (sym (find_from-answer k l bs asc) ∙ absent))

  -- The way up reads the node again, and finds the place that the key came from.
  pub up_step :
      (v : GxBtree K) (left height a : ℕ) (l : Tree K) (bs : Branches K) (s : ℕ) (stack : List ℕ)
      (up : Entry K)
      → v.file.nodes a ≡ some (stored_node l bs)
      → length (entries_of bs) ≤ capacity v.btree_header
      → IsBetween (order.rank up.db_key) l bs s
      → insert_up (a ∷ stack) (suc left) up v
        ≡ insert_at_node a
            (node_of v.btree_header a (stored_node l bs))
            s
            up
            (insert_up stack left)
            v
  unfolding insert_up find_key_location
  up_step v left height a l bs s stack up at fits between =
      rw
        (
          read_node_stored v.btree_header v.file a (stored_node l bs) at fits,
          slot-find_from up.db_key l bs s between,
        )
        refl

  pub walk_leaf :
      (hdr : GxBtreeHeader) (file : NodeFile K) (left : ℕ) (from : BtreeNode K) (at : ℕ)
      (stack : List ℕ) (k : K)
      → insert_walk hdr file left 0 from at stack k ≡ ok (from, at, stack, left)
  unfolding insert_walk
  walk_leaf hdr file zero from at stack k = refl
  walk_leaf hdr file (suc left) from at stack k = refl

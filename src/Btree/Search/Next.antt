-- ===== src/Btree/Search/Next.antt =====
-- `FindNext` on a stored tree that has no node without keys.
use mathlib.Core.Path.{subst}
use datareel.Prelude.{
  ℕ, zero, suc, ◌≤◌, ◌≡◌, refl, sym, ap, ◌∙◌, true, arith, Option, none, some, ◌∷◌, ◌++◌, length,
  get_elem?, ltb, if◌then◌else◌, ne→==, append_assoc, Bool-cases, inl, inr, has, IsAscending,
  ltb→lt, ltb→le,
}
use datareel.Btree.Key.{DatabaseKeyB}
use datareel.Btree.Node.{
  Entry, Location, equal, greater, less, slot, key_count, get_branch, find_from, find_key_location,
}
use datareel.Btree.State.{NodeFile, GxBtreeHeader, GxBtree, Result, ◌>>=◌, checked, max_node_reads}
use datareel.Btree.Search.Ends.{Hit, next_from, load_parent}
use datareel.Btree.Search.Find.{next_walk}
use datareel.Btree.Shape.{
  Tree, Branches, leaf, node, address_of, entries_of, child_at, stored_node, Stored, ranks,
}
use datareel.Btree.Shape.Lookup.{
  answer, find_from-answer, IsAt, find_from-IsAt, get_branch-child_at, child_at-Stored,
  child_at-IsAscending,
}
use datareel.Btree.Shape.Place.{before_at, after_at, ranks_in, ranks_in-child_at}
use datareel.Btree.Search.Correct.{capacity, node_of, read_node_stored, IsTree}
use datareel.Btree.Shape.Filled.{Filled, child_at-Filled}
use datareel.Btree.Search.After.{
  get_elem?-lt, some_injective, first_or, first_or-append, Answers, Next, Waits,
  load_parent-Answers, after_at-entry, after_at-end, next_from-Answers,
}

module _ {K : Type 0} ⦃order : DatabaseKeyB K⦄ where
  -- What waits above a subtree is the rank after it in its node, or what waited above the node.
  saved-Waits :
      (hdr : GxBtreeHeader) (file : NodeFile K) (height a : ℕ) (l : Tree K) (bs : Branches K)
      (s : ℕ) (parent : Option (ℕ × ℕ)) (d : Option ℕ)
      → Stored file.nodes (capacity hdr) (suc height) (node a l bs)
      → Waits hdr file parent d
      → Waits hdr file
          (if ltb s (length (entries_of bs)) then some (a, s) else parent)
          (first_or (after_at bs s) d)
  saved-Waits hdr file height a l bs s parent d st w =
      elim (Bool-cases (ltb s (length (entries_of bs)))) [
        | inl more ↦
            let (e, has_e, after) = after_at-entry l bs s (ltb→lt _ _ more) in
            rw more (stored_node l bs, e, st.1, st.2, has_e, ap (λ x. first_or x d) after)
        | inr last ↦ rw last (
            subst (λ x. Waits hdr file parent (first_or x d))
              (sym (after_at-end bs s (ltb→le _ _ last))) w)
      ]

  from_child :
      (l : Tree K) (bs : Branches K) (s r : ℕ) (d : Option ℕ) (res : Result (Hit K))
      → Next r (ranks (child_at l bs s)) (first_or (after_at bs s) d) res
      → Next r (ranks_in (l, bs)) d res
  from_child l bs s r d res (before, after, split, ans) = (
    before_at l bs s ++ before,
    after ++ after_at bs s,
    ranks_in-child_at l bs s
        ∙ ap (λ z. before_at l bs s ++ (z ++ after_at bs s)) split
        ∙ ap (λ z. before_at l bs s ++ z) (append_assoc before (r ∷ after) (after_at bs s))
        ∙ sym (append_assoc (before_at l bs s) before (r ∷ (after ++ after_at bs s))),
    subst (λ x. Answers x res) (sym (first_or-append after (after_at bs s) d)) ans,
  )

  -- The ranks of a node around the one of an entry.
  pub ranks_in-entry :
      (l : Tree K) (bs : Branches K) (i r : ℕ) (e : Entry K)
      → get_elem? (entries_of bs) i ≡ some e
      → order.rank e.db_key ≡ r
      → ranks_in (l, bs)
        ≡ (before_at l bs i ++ ranks (child_at l bs i))
          ++ (r ∷ (ranks (child_at l bs (suc i)) ++ after_at bs (suc i)))
  ranks_in-entry l bs i r e has_e same =
      let (e', has_e', after) = after_at-entry l bs i (get_elem?-lt _ i e has_e) in
      let same_entry : order.rank e'.db_key ≡ r =
        ap (λ (x : Entry K). order.rank x.db_key) (some_injective (sym has_e' ∙ has_e)) ∙ same in
      let rest = ranks (child_at l bs (suc i)) ++ after_at bs (suc i) in
      ranks_in-child_at l bs i
      ∙ ap (λ z. before_at l bs i ++ (ranks (child_at l bs i) ++ z))
          (after ∙ ap (λ x. x ∷ rest) same_entry)
      ∙ sym (append_assoc (before_at l bs i) (ranks (child_at l bs i)) (r ∷ rest))

  -- One node of the walk, at the location that was found in it.
  Next-step :
      (hdr : GxBtreeHeader) (file : NodeFile K) (left height a : ℕ) (l : Tree K) (bs : Branches K)
      (k : K) (parent : Option (ℕ × ℕ)) (d : Option ℕ) (at : Location)
      → Stored file.nodes (capacity hdr) (suc height) (node a l bs)
      → Filled (node a l bs)
      → suc height ≤ left
      → Waits hdr file parent d
      → IsAt k (entries_of bs) at
      → answer (order.rank k) l bs at ≡ true
      → ((s : ℕ) (parent' : Option (ℕ × ℕ)) (d' : Option ℕ)
          → s ≤ length (entries_of bs)
          → Waits hdr file parent' d'
          → has (order.rank k) (ranks (child_at l bs s)) ≡ true
          → Next
              (order.rank k)
              (ranks (child_at l bs s))
              d'
              (next_walk hdr file left (address_of (child_at l bs s)) parent' k))
      → let n = node_of hdr a (stored_node l bs) in
        let saved = if ltb (slot at) (key_count n) then some (a, slot at) else parent in
        Next (order.rank k) (ranks (node a l bs)) d (elim at [
          | equal i ↦ next_from hdr file left n i (load_parent hdr file left n parent)
          | greater i ↦
              checked (get_branch n (suc i)) >>= λ branch. next_walk hdr file left branch saved k
          | less ↦ next_walk hdr file left n.left_child saved k
        ])
  Next-step hdr file left height a l bs k parent d less st filled h w at there ih =
      from_child l bs 0 (order.rank k) d _
        (ih 0 _ _ (omega arith) (saved-Waits hdr file height a l bs 0 parent d st w) there)
  Next-step hdr file left height a l bs k parent d (equal i) st filled h w (e, has_e, same) there
        ih =
      (
        before_at l bs i ++ ranks (child_at l bs i),
        ranks (child_at l bs (suc i)) ++ after_at bs (suc i),
        ranks_in-entry l bs i (order.rank k) e has_e same,
        next_from-Answers hdr file left height a l bs i (child_at l bs (suc i)) d _
            (get_elem?-lt _ i e has_e) refl (omega arith)
            (child_at-Stored file.nodes (capacity hdr) height l bs (suc i)
              (omega (arith, get_elem?-lt (entries_of bs) i e has_e)) st.3 st.4)
            (child_at-Filled l bs (suc i) filled.1 filled.2)
            (λ _.
              load_parent-Answers hdr file left (node_of hdr a (stored_node l bs)) parent d
                (omega arith) w),
      )
  Next-step hdr file left height a l bs k parent d (greater i) st filled h w at there ih =
      rw (get_branch-child_at (node_of hdr a (stored_node l bs)) l bs (suc i) refl refl at) (
        from_child l bs (suc i) (order.rank k) d _
          (ih (suc i) _ _ at (saved-Waits hdr file height a l bs (suc i) parent d st w) there))

  next_walk-Next :
      (hdr : GxBtreeHeader) (file : NodeFile K) (left height : ℕ) (t : Tree K) (k : K)
      (parent : Option (ℕ × ℕ)) (d : Option ℕ)
      → suc height ≤ left
      → Stored file.nodes (capacity hdr) height t
      → Filled t
      → IsAscending (ranks t)
      → Waits hdr file parent d
      → has (order.rank k) (ranks t) ≡ true
      → Next (order.rank k) (ranks t) d (next_walk hdr file left (address_of t) parent k)
  unfolding next_walk find_key_location
  next_walk-Next hdr file left height leaf k parent d h st filled asc w there = cc
  next_walk-Next hdr file zero height (node a l bs) k parent d h st filled asc w there =
      absurd (omega arith)
  next_walk-Next hdr file (suc left) zero (node a l bs) k parent d h st filled asc w there =
      elim st [ ]
  next_walk-Next hdr file (suc left) (suc height) (node a l bs) k parent d h st filled asc w there =
      rw (ne→== a 0 st.0, read_node_stored hdr file a (stored_node l bs) st.1 st.2)
        (Next-step hdr file left height a l bs k parent d (find_from k (entries_of bs)) st filled
          (omega arith) w (find_from-IsAt k (entries_of bs))
          (sym (find_from-answer k l bs asc) ∙ there)
          (λ s parent' d' hs w' there'.
            next_walk-Next hdr file left height (child_at l bs s) k parent' d' (omega arith)
              (child_at-Stored file.nodes (capacity hdr) height l bs s hs st.3 st.4)
              (child_at-Filled l bs s filled.1 filled.2) (child_at-IsAscending l bs s asc) w'
              there'))

  -- The walk from the root.
  pub root_walk-Next :
      (t : GxBtree K) (height : ℕ) (shape : Tree K) (k : K)
      → IsTree t height shape
      → Filled shape
      → suc height ≤ max_node_reads
      → has (order.rank k) (ranks shape) ≡ true
      → Next
          (order.rank k)
          (ranks shape)
          none
          (next_walk t.btree_header t.file max_node_reads t.btree_header.root none k)
  root_walk-Next t height shape k is filled reads there =
      subst
        (λ a.
          Next (order.rank k) (ranks shape) none
            (next_walk t.btree_header t.file max_node_reads a none k))
        (sym is.at_root)
        (next_walk-Next t.btree_header t.file max_node_reads height shape k none none reads
          is.stored filled is.ordered refl there)

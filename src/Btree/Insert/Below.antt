-- ===== src/Btree/Insert/Below.antt =====
-- `InsertDatabaseKey` from a node of a stored tree down to a leaf and back up to that node, for a key
-- that the tree does not hold.
use mathlib.Core.Path.{subst}
use datareel.Prelude.{
  ℕ, zero, suc, ◌+◌, ◌-◌, ltb, ◌*◌, ◌≤◌, ◌≡◌, ◌≢◌, refl, sym, ap, ◌∙◌, false, some, List, [], ◌∷◌,
  ◌++◌, length, arith, if◌then◌else◌, ◌⊎◌, inl, inr, ne→==, IsAscending, has,
}
use datareel.Btree.Key.{DatabaseKeyB}
use datareel.Btree.Node.{Entry, BtreeNode, slot, find_from}
use datareel.Btree.State.{GxBtree}
use datareel.Btree.Change.{Outcome, M}
use datareel.Btree.Insert.{insert_up, insert_at_node}
use datareel.Btree.Insert.Kept.{Kept, IsAbsorbed, IsDivided}
use datareel.Btree.Insert.OneNode.{go_on}
use datareel.Btree.Insert.Above.{IsRoomy, Outcomes, not_below, above-IsAbsorbed, above-Outcomes}
use datareel.Btree.Search.Correct.{capacity, node_of}
use datareel.Btree.Shape.{
  Tree, Branches, leaf, node, address_of, entries_of, child_at, stored_node, Stored, ranks,
}
use datareel.Btree.Shape.Lookup.{child_at-IsAscending}
use datareel.Btree.Shape.Filled.{Filled}
use datareel.Btree.Shape.Frame.{uses, uses_in, uses_in-child_at}
use datareel.Btree.Shape.Place.{
  before_at, after_at, ranks_in, ranks_in-child_at, IsBetween, Inserts,
}
use datareel.Btree.Shape.Between.{find_from-IsBetween}
use datareel.Btree.Insert.Walk.{run_from, walk_step, up_step, walk_leaf}
use datareel.Btree.Insert.Child.{
  up-IsBetween, Inserts-above, child-Stored, child_room, child_absent,
}

module _ {K : Type 0} ⦃order : DatabaseKeyB K⦄ where
  -- The part with the key, and what is left of the reads where the run goes on.
  abbrev pub Below : Outcome K (Entry K) → GxBtree K → ℕ → Tree K → K → List ℕ → ℕ → Type 0
  Below run u height t k stack left =
      (rs : List ℕ) × Inserts (order.rank k) (ranks t) rs
      × (IsAbsorbed run u height (address_of t) (λ b. uses b t) height rs (Filled t)
          ⊎ ((left' : ℕ) × (suc left ≤ left' + 2 * height)
              × IsDivided run (go_on (address_of t) (insert_up stack left')) u height (address_of t)
                  (λ b. uses b t) height rs (Filled t)))

  -- What follows an outcome of the node itself.
  from_Outcomes :
      (u : GxBtree K) (height a : ℕ) (l : Tree K) (bs : Branches K) (s : ℕ)
      (inside : s ≤ length (entries_of bs)) (room : IsRoomy u height a l bs) (k : K)
      (stack : List ℕ) (left left' : ℕ) (run : Outcome K (Entry K)) (rs : List ℕ)
      → Inserts (order.rank k) (ranks (node a l bs)) rs
      → suc left ≤ left' + 2 * suc height
      → Outcomes u height a l bs s room inside run (insert_up stack left') rs
      → Below run u (suc height) (node a l bs) k stack left
  from_Outcomes u height a l bs s inside room k stack left left' run rs ins le (inl ab) =
      (rs, ins, inl ab)
  from_Outcomes u height a l bs s inside room k stack left left' run rs ins le (inr dv) =
      (rs, ins, inr (left', le, dv))

  -- A leaf below the node: the node takes the key itself.
  Below-leaf :
      (u : GxBtree K) (left height a : ℕ) (l : Tree K) (bs : Branches K) (s : ℕ) (k : K)
      (stack : List ℕ)
      → IsRoomy u height a l bs
      → IsBetween (order.rank k) l bs s
      → child_at l bs s ≡ leaf
      → Stored u.file.nodes (capacity u.btree_header) height leaf
      → Below
          (run_from left 0 (node_of u.btree_header a (stored_node l bs)) s (a ∷ stack) k u)
          u
          (suc height)
          (node a l bs)
          k
          stack
          (suc left)
  Below-leaf u left height a l bs s k stack room between e st =
      let rs = before_at l bs s ++ ((order.rank k ∷ []) ++ after_at bs s) in
      let kept : Kept (λ b. 0) (λ b. 0 + 0) height u u = record {
        same_order = refl;
        same_root = refl;
        open_file = room.open_file;
        writable = room.writable;
        balance = λ b. refl;
        outside = λ b h. refl;
        spare = omega arith;
      } in
      let alone : Inserts (order.rank k) [] (order.rank k ∷ []) = record {
        before = [];
        after = [];
        old = refl;
        new = refl;
        smaller = tt;
        greater = tt;
      } in
      rw
        (walk_leaf u.btree_header u.file left (node_of u.btree_header a (stored_node l bs)) s
          (a ∷ stack) k)
        (from_Outcomes u height a l bs s between.inside room k stack (suc left) left _ rs
          (Inserts-above l bs s (order.rank k) leaf (order.rank k ∷ []) e between alone)
          (omega arith)
          (above-Outcomes u height a l bs s room between.inside u leaf leaf k leaf
            (insert_up stack left) e refl st st kept refl (λ f. (tt, tt))))

  go_on-continue :
      (v : GxBtree K) (a : ℕ) (continue : Entry K → M K (Entry K)) (up : Entry K)
      → a ≢ v.btree_header.root
      → go_on a continue up v ≡ continue up v
  go_on-continue v a continue up h = rw (ne→== a v.btree_header.root h) refl

  -- A node below: what became of it is what becomes of this one.
  Below-node :
      (u : GxBtree K) (left height a : ℕ) (l : Tree K) (bs : Branches K) (s : ℕ) (k : K)
      (stack : List ℕ) (child : Tree K) (run : Outcome K (Entry K))
      → IsRoomy u height a l bs
      → IsAscending (ranks_in (l, bs))
      → uses_in u.btree_header.root (l, bs) ≡ 0
      → 2 * suc height ≤ suc (suc left)
      → IsBetween (order.rank k) l bs s
      → child_at l bs s ≡ child
      → address_of child ≢ u.btree_header.root
      → Below run u height child k (a ∷ stack) left
      → Below run u (suc height) (node a l bs) k stack (suc left)
  Below-node u left height a l bs s k stack child run room asc inner fuel between e not_root
        (rs, ins, inl ab) =
      (
        _,
        Inserts-above l bs s (order.rank k) child rs e between ins,
        inl (above-IsAbsorbed u height a l bs s room between.inside run child rs e ab),
      )
  Below-node u left height a l bs s k stack child run room asc inner fuel between e not_root
        (rs, ins, inr (zero, le, dv)) =
      absurd (omega arith)
  Below-node u left height a l bs s k stack child run room asc inner fuel between e not_root
        (rs, ins, inr (suc left2, le, dv)) =
      let v = dv.state in
      let up : Entry K = record { right_child = address_of dv.right; db_key = dv.middle } in
      let here : v.file.nodes a ≡ some (stored_node l bs) =
        dv.kept.outside a (not_below u height a l bs s room between.inside child e)
        ∙ room.stored.1 in
      let fits =
        subst (λ o. length (entries_of bs) ≤ (if ltb o 5 then 5 else o) - 1)
          (sym dv.kept.same_order) room.stored.2 in
      let all =
        ranks_in-child_at l bs s ∙ ap (λ c. before_at l bs s ++ (ranks c ++ after_at bs s)) e in
      let ins' = subst (λ z. Inserts (order.rank k) (ranks child) z) (sym dv.all_ranks) ins in
      let middle_between =
        up-IsBetween l bs s (order.rank k) (order.rank dv.middle) (ranks child) (ranks dv.left)
          (ranks dv.right) between all asc ins' in
      let elsewhere : address_of child ≢ v.btree_header.root =
        λ h. not_root (h ∙ dv.kept.same_root) in
      let runs : run
          ≡ insert_at_node a (node_of v.btree_header a (stored_node l bs)) s up
              (insert_up stack left2) v =
        dv.runs
        ∙ go_on-continue v (address_of child) (insert_up (a ∷ stack) (suc left2)) up elsewhere
        ∙ up_step v left2 height a l bs s stack up here fits middle_between in
      from_Outcomes u height a l bs s between.inside room k stack (suc left) left2 run _
        (Inserts-above l bs s (order.rank k) child _ e between ins') (omega arith)
        (subst
          (λ o. Outcomes u height a l bs s room between.inside o (insert_up stack left2) (
            before_at l bs s
            ++ ((ranks dv.left ++ (order.rank dv.middle ∷ ranks dv.right)) ++ after_at bs s)))
          (sym runs)
          (above-Outcomes u height a l bs s room between.inside v child dv.left dv.middle dv.right
            (insert_up stack left2) e dv.at_address dv.holds_left dv.holds_right dv.kept dv.counted
            dv.filled))

  Below-child :
      (u : GxBtree K) (left height a : ℕ) (l : Tree K) (bs : Branches K) (s : ℕ) (k : K)
      (stack : List ℕ) (child : Tree K)
      → IsRoomy u height a l bs
      → IsAscending (ranks_in (l, bs))
      → has (order.rank k) (ranks_in (l, bs)) ≡ false
      → uses_in u.btree_header.root (l, bs) ≡ 0
      → 2 * suc height ≤ suc (suc left)
      → IsBetween (order.rank k) l bs s
      → child_at l bs s ≡ child
      → ((h' b : ℕ) (l' : Tree K) (bs' : Branches K) (n : BtreeNode K)
          → IsRoomy u h' b l' bs'
          → IsAscending (ranks_in (l', bs'))
          → has (order.rank k) (ranks_in (l', bs')) ≡ false
          → uses_in u.btree_header.root (l', bs') ≡ 0
          → 2 * suc h' ≤ suc left
          → Below
              (run_from left b n s (a ∷ stack) k u)
              u
              (suc h')
              (node b l' bs')
              k
              (a ∷ stack)
              left)
      → Below
          (run_from left
            (address_of child)
            (node_of u.btree_header a (stored_node l bs))
            s
            (a ∷ stack)
            k
            u)
          u
          (suc height)
          (node a l bs)
          k
          stack
          (suc left)
  Below-child u left height a l bs s k stack leaf room asc absent inner fuel between e ih =
      Below-leaf u left height a l bs s k stack room between e
        (child-Stored u height a l bs s leaf room between.inside e)
  Below-child u left zero a l bs s k stack (node b l' bs') room asc absent inner fuel between e ih =
      elim (child-Stored u zero a l bs s (node b l' bs') room between.inside e) [ ]
  Below-child u left (suc h') a l bs s k stack (node b l' bs') room asc absent inner fuel between e
        ih =
      Below-node u left (suc h') a l bs s k stack (node b l' bs') _ room asc inner fuel between e
        (λ h. absurd (ground (arith, uses_in-child_at b l bs s, ap (uses b) e)))
        (ih h' b l' bs' _ (child_room u h' a l bs s b l' bs' room between.inside e)
          (subst (λ c. IsAscending (ranks c)) e (child_at-IsAscending l bs s asc))
          (child_absent l bs s (order.rank k) (node b l' bs') absent e)
          (omega
            (arith, uses_in-child_at u.btree_header.root l bs s, ap (uses u.btree_header.root) e))
          (omega arith))

  -- From a node of a stored tree without the key, whose addresses do not repeat and whose root is
  -- not below it, the run down and up takes the key in its place.
  pub insert_walk-Below :
      (u : GxBtree K) (left height a : ℕ) (l : Tree K) (bs : Branches K) (k : K)
      (from : BtreeNode K) (at : ℕ) (stack : List ℕ)
      → IsRoomy u height a l bs
      → IsAscending (ranks_in (l, bs))
      → has (order.rank k) (ranks_in (l, bs)) ≡ false
      → uses_in u.btree_header.root (l, bs) ≡ 0
      → 2 * suc height ≤ suc left
      → Below (run_from left a from at stack k u) u (suc height) (node a l bs) k stack left
  insert_walk-Below u zero height a l bs k from at stack room asc absent inner fuel =
      absurd (omega arith)
  insert_walk-Below u (suc left) height a l bs k from at stack room asc absent inner fuel =
      let s = slot (find_from k (entries_of bs)) in
      rw (walk_step u.btree_header u.file left height a l bs k from at stack room.stored asc absent)
        (Below-child u left height a l bs s k stack (child_at l bs s) room asc absent inner fuel
          (find_from-IsBetween k l bs asc absent) refl
          (λ h' b l' bs' n. insert_walk-Below u left h' b l' bs' k n s (a ∷ stack)))

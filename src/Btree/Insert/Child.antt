-- ===== src/Btree/Insert/Child.antt =====
-- A subtree on the way of `InsertDatabaseKey`: what a node gives to the subtree at a place, and where
-- a key that comes up from it goes.
use mathlib.Core.Path.{subst}
use datareel.Prelude.{
  ℕ, suc, ◌<◌, ◌≤◌, ◌≡◌, sym, ap, ◌∙◌, false, List, ◌∷◌, ◌++◌, length, arith, IsAscending, has,
  has-append, append_assoc, IsAscending-middle, IsAscending-right, All-append_left,
  All-append_right,
}
use datareel.Btree.Key.{DatabaseKeyB}
use datareel.Btree.State.{GxBtree}
use datareel.Btree.Insert.Above.{IsRoomy}
use datareel.Btree.Search.Correct.{capacity}
use datareel.Btree.Shape.{Tree, Branches, node, entries_of, child_at, Stored, ranks}
use datareel.Btree.Shape.Lookup.{child_at-Stored}
use datareel.Btree.Shape.Frame.{uses, uses_in-child_at}
use datareel.Btree.Shape.Place.{
  before_at, after_at, ranks_in, ranks_in-child_at, IsBetween, Inserts, Inserts-IsAscending,
  Inserts-inside,
}

module _ {K : Type 0} ⦃order : DatabaseKeyB K⦄ where
  -- A key that comes up from a subtree goes where the new key would go.
  pub up-IsBetween :
      (l : Tree K) (bs : Branches K) (s r m : ℕ) (xs cs ds : List ℕ)
      → IsBetween r l bs s
      → ranks_in (l, bs) ≡ before_at l bs s ++ (xs ++ after_at bs s)
      → IsAscending (ranks_in (l, bs))
      → Inserts r xs (cs ++ (m ∷ ds))
      → IsBetween m l bs s
  up-IsBetween l bs s r m xs cs ds between all asc ins =
      let ps = before_at l bs s in
      let qs = after_at bs s in
      let new = Inserts-inside r ps xs (cs ++ (m ∷ ds)) qs between.below between.above ins in
      let new_asc = Inserts-IsAscending r _ _ new (subst (λ z. IsAscending z) all asc) in
      let split : ps ++ ((cs ++ (m ∷ ds)) ++ qs) ≡ (ps ++ cs) ++ (m ∷ (ds ++ qs)) =
        ap (λ z. ps ++ z) (append_assoc cs (m ∷ ds) qs) ∙ sym (append_assoc ps cs _) in
      let sorted = subst (λ z. IsAscending z) split new_asc in
      record {
        inside = between.inside;
        below =
            All-append_left (λ x. x < m) ps cs (IsAscending-middle (ps ++ cs) m (ds ++ qs) sorted);
        above =
            All-append_right (λ x. m < x) ds qs
              (IsAscending-right (ps ++ cs) (m ∷ (ds ++ qs)) sorted).0;
      }

  -- The ranks of the node with the new key below it.
  pub Inserts-above :
      (l : Tree K) (bs : Branches K) (s r : ℕ) (child : Tree K) (rs : List ℕ)
      → child_at l bs s ≡ child
      → IsBetween r l bs s
      → Inserts r (ranks child) rs
      → Inserts r (ranks_in (l, bs)) (before_at l bs s ++ (rs ++ after_at bs s))
  Inserts-above l bs s r child rs e between ins =
      subst (λ z. Inserts r z (before_at l bs s ++ (rs ++ after_at bs s)))
        (sym
          (ranks_in-child_at l bs s ∙ ap (λ c. before_at l bs s ++ (ranks c ++ after_at bs s)) e))
        (Inserts-inside r (before_at l bs s) (ranks child) rs (after_at bs s) between.below
          between.above ins)

  pub child-Stored :
      (u : GxBtree K) (height a : ℕ) (l : Tree K) (bs : Branches K) (s : ℕ) (child : Tree K)
      → IsRoomy u height a l bs
      → s ≤ length (entries_of bs)
      → child_at l bs s ≡ child
      → Stored u.file.nodes (capacity u.btree_header) height child
  child-Stored u height a l bs s child room inside e =
      let cap = capacity u.btree_header in
      subst (λ c. Stored u.file.nodes cap height c) e
        (child_at-Stored u.file.nodes cap height l bs s inside room.stored.3 room.stored.4)

  pub child_room :
      (u : GxBtree K) (height a : ℕ) (l : Tree K) (bs : Branches K) (s b : ℕ) (l' : Tree K)
      (bs' : Branches K)
      → IsRoomy u (suc height) a l bs
      → s ≤ length (entries_of bs)
      → child_at l bs s ≡ node b l' bs'
      → IsRoomy u height b l' bs'
  child_room u height a l bs s b l' bs' room inside e = record {
    open_file = room.open_file;
    writable = room.writable;
    big = room.big;
    stored = child-Stored u (suc height) a l bs s (node b l' bs') room inside e;
    distinct = λ c. omega (arith, room.distinct c, uses_in-child_at c l bs s, ap (uses c) e);
    proper = omega (arith, room.proper, uses_in-child_at 0 l bs s, ap (uses 0) e);
    enough = omega (arith, room.enough);
  }

  pub child_absent :
      (l : Tree K) (bs : Branches K) (s r : ℕ) (child : Tree K)
      → has r (ranks_in (l, bs)) ≡ false
      → child_at l bs s ≡ child
      → has r (ranks child) ≡ false
  child_absent l bs s r child absent e = ground (
    arith,
    ap (has r) (ranks_in-child_at l bs s),
    has-append r (before_at l bs s) (ranks (child_at l bs s) ++ after_at bs s),
    has-append r (ranks (child_at l bs s)) (after_at bs s),
    ap (λ c. has r (ranks c)) e,
  )

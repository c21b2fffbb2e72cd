-- ===== src/Btree/Shape/Between.antt =====
-- `FindKeyLocation` for a key that a node of an ordered tree does not hold: the place between the
-- smaller keys and the greater ones, and no other.
use mathlib.Core.Path.{subst}
use datareel.Prelude.{
  ℕ, zero, suc, ◌≤◌, ◌<◌, ◌≡◌, ◌≢◌, refl, sym, ap, ◌∙◌, false, arith, ltb, AllAbove, IsAscending,
  IsAscending-right, IsAscending-middle, AllBelow-lt, AllAbove-lt, All-append, All-append_right,
  has, has-append, Bool-cases, inl, inr, ltb→lt, ltb→le,
}
use datareel.Btree.Key.{DatabaseKeyB}
use datareel.Btree.Node.{Location, equal, greater, less, slot, shift, compare_entry, find_from}
use datareel.Btree.Shape.{Tree, Branches, end, key, entries_of, ranks, ranks_of}
use datareel.Btree.Shape.Lookup.{compare_rank, entry, find_from-ne_less}
use datareel.Btree.Shape.Place.{ranks_in, IsBetween}

module _ {K : Type 0} ⦃order : DatabaseKeyB K⦄ where
  find_from-above :
      (k : K) (bs : Branches K)
      → AllAbove (order.rank k) (ranks_of bs)
      → find_from k (entries_of bs) ≡ less
  unfolding find_from
  find_from-above k end h = refl
  find_from-above k (key j t bs) h =
      let tail =
        find_from-above k bs
          (All-append_right (λ x. order.rank k < x) (ranks t) (ranks_of bs) h.1) in
      ground (arith, compare_rank k (entry t j), tail)

  slot-shift :
      (k j : K) (t : Tree K) (tail : Location)
      → order.rank j < order.rank k
      → slot (shift tail (compare_entry k (entry t j))) ≡ suc (slot tail)
  slot-shift k j t less h = ground (arith, compare_rank k (entry t j))
  slot-shift k j t (equal i) h = refl
  slot-shift k j t (greater i) h = refl

  -- The place of a key between the others is where it is found to go.
  pub slot-find_from :
      (k : K) (l : Tree K) (bs : Branches K) (s : ℕ)
      → IsBetween (order.rank k) l bs s
      → slot (find_from k (entries_of bs)) ≡ s
  unfolding find_from
  slot-find_from k l bs zero b = rw (find_from-above k bs b.above) refl
  slot-find_from k l end (suc i) b = absurd (omega (arith, b.inside))
  slot-find_from k l (key j t bs) (suc i) b =
      let right = All-append_right (λ x. x < order.rank k) (ranks l) _ b.below in
      let inner : IsBetween (order.rank k) t bs i = record {
        inside = omega (arith, b.inside);
        below = right.1;
        above = b.above;
      } in
      slot-shift k j t (find_from k (entries_of bs)) right.0
      ∙ ap suc (slot-find_from k t bs i inner)

  -- One more key in front that is smaller.
  IsBetween-greater :
      (k j : K) (l t : Tree K) (bs : Branches K) (i : ℕ)
      → IsAscending (ranks_in (l, key j t bs))
      → order.rank j < order.rank k
      → IsBetween (order.rank k) t bs i
      → IsBetween (order.rank k) l (key j t bs) (suc i)
  IsBetween-greater k j l t bs i asc more b =
      let smaller = IsAscending-middle (ranks l) (order.rank j) _ asc in
      record {
        inside = omega (arith, b.inside);
        below =
            All-append (λ x. x < order.rank k) (ranks l) _
              (AllBelow-lt (order.rank j) (order.rank k) (ranks l) more smaller) (more, b.below);
        above = b.above;
      }

  -- One more key in front that is greater.
  IsBetween-less :
      (k j : K) (l t : Tree K) (bs : Branches K) (tail : Location)
      → IsAscending (ranks_in (l, key j t bs))
      → has (order.rank k) (ranks_in (l, key j t bs)) ≡ false
      → order.rank k ≤ order.rank j
      → (tail ≢ less → order.rank j < order.rank k)
      → let at = shift tail (compare_entry k (entry t j)) in
        IsBetween (order.rank k) l (key j t bs) (slot at)
  IsBetween-less k j l t bs less asc absent le below =
      let right = IsAscending-right (ranks l) (ranks_of (key j t bs)) asc in
      let differs : order.rank k ≢ order.rank j =
        λ e. absurd (ground (arith, has-append (order.rank k) (ranks l) (ranks_of (key j t bs)))) in
      let here : compare_entry k (entry t j) ≡ less = ground (arith, compare_rank k (entry t j)) in
      let lt : order.rank k < order.rank j = ground arith in
      rw here (record {
        inside = omega arith;
        below = tt;
        above = (lt, AllAbove-lt (order.rank k) (order.rank j) _ lt right.0);
      })
  IsBetween-less k j l t bs (equal i) asc absent le below =
      absurd (omega (arith, le, below (λ e. cc)))
  IsBetween-less k j l t bs (greater i) asc absent le below =
      absurd (omega (arith, le, below (λ e. cc)))

  -- A key that an ordered node and its subtrees do not hold goes between the smaller ranks and the
  -- greater ones.
  pub find_from-IsBetween :
      (k : K) (l : Tree K) (bs : Branches K)
      → IsAscending (ranks_in (l, bs))
      → has (order.rank k) (ranks_in (l, bs)) ≡ false
      → IsBetween (order.rank k) l bs (slot (find_from k (entries_of bs)))
  unfolding find_from
  find_from-IsBetween k l end asc absent = record { inside = omega arith; below = tt; above = tt }
  find_from-IsBetween k l (key j t bs) asc absent =
      let right = IsAscending-right (ranks l) (ranks_of (key j t bs)) asc in
      let tail = find_from k (entries_of bs) in
      let below =
        find_from-ne_less k bs (order.rank j)
          (All-append_right (λ x. order.rank j < x) (ranks t) (ranks_of bs) right.0) in
      elim (Bool-cases (ltb (order.rank j) (order.rank k))) [
        | inl more ↦
            let left_out : has (order.rank k) (ranks_in (t, bs)) ≡ false =
              ground (arith, has-append (order.rank k) (ranks l) (ranks_of (key j t bs))) in
            subst (λ s. IsBetween (order.rank k) l (key j t bs) s)
              (sym (slot-shift k j t tail (ltb→lt _ _ more)))
              (IsBetween-greater k j l t bs (slot tail) asc (ltb→lt _ _ more)
                (find_from-IsBetween k t bs right.1 left_out))
        | inr not_more ↦ IsBetween-less k j l t bs tail asc absent (ltb→le _ _ not_more) below
      ]

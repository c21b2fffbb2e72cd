-- ===== src/Btree/Shape/Lookup.antt =====
-- `FindKeyLocation` in a node of an ordered tree: where a key is, or the only subtree that can
-- hold it.
use datareel.Prelude.{
  zero, ◌≤◌, ap, Bool-cases, inl, inr, some, Option, List, [], ◌∷◌, get_elem?, length,
  IsAscending-left, ℕ, suc, ◌≡◌, ◌≢◌, ◌<◌, refl, Bool, true, ◌++◌, ltb, ◌==◌, if◌then◌else◌, arith,
  append-nil, AllAbove, IsAscending, has, has-middle, has-before, AllAbove-lt, All-append_right,
  IsAscending-right,
}
use datareel.Btree.Key.{DatabaseKeyB}
use datareel.Btree.State.{StoredNode}
use datareel.Btree.Node.{
  BtreeNode, get_branch, right_child_of, Entry, Location, equal, greater, less, shift,
  compare_entry, find_from,
}
use datareel.Btree.Shape.{
  Stored, StoredBranches, Tree, Branches, address_of, end, key, entries_of, child_at, ranks,
  ranks_of,
}

module _ {K : Type 0} ⦃order : DatabaseKeyB K⦄ where
  pub compare_rank :
      (k : K) (e : Entry K)
      → compare_entry k e ≡ (
          if ltb (order.rank e.db_key) (order.rank k)
          then greater 0
          else if order.rank k == order.rank e.db_key
          then equal 0
          else less)
  unfolding compare_entry
  compare_rank k e = rw (order.gt_rank k e.db_key, order.eq_rank k e.db_key)

  -- What `FindKeyLocation` says of the ranks below a node.
  abbrev pub answer : ℕ → Tree K → Branches K → Location → Bool
  answer r l bs (equal i) = true
  answer r l bs (greater i) = has r (ranks (child_at l bs (suc i)))
  answer r l bs less = has r (ranks l)

  abbrev pub entry : Tree K → K → Entry K
  entry t j = record { right_child = address_of t; db_key = j }

  pub find_from-less :
      (k : K) (bs : Branches K)
      → IsAscending (ranks_of bs)
      → find_from k (entries_of bs) ≡ less
      → AllAbove (order.rank k) (ranks_of bs)
  unfolding find_from
  find_from-less k end asc h = tt
  find_from-less k (key j t bs) asc h =
      let small : order.rank k < order.rank j = ground (arith, compare_rank k (entry t j)) in
      (small, AllAbove-lt (order.rank k) (order.rank j) _ small asc.0)

  pub find_from-ne_less :
      (k : K) (bs : Branches K) (b : ℕ)
      → AllAbove b (ranks_of bs)
      → find_from k (entries_of bs) ≢ less
      → b < order.rank k
  unfolding find_from
  find_from-ne_less k end b above h = absurd (h refl)
  find_from-ne_less k (key j t bs) b above h = ground (
    arith,
    compare_rank k (entry t j),
    find_from-ne_less k bs b (All-append_right (λ x. b < x) (ranks t) (ranks_of bs) above.1),
  )

  -- One more key in front: `tail` is what the loop found among the keys after it.
  answer-key :
      (k j : K) (l t : Tree K) (bs : Branches K) (tail : Location)
      → IsAscending (ranks l ++ ranks_of (key j t bs))
      → has (order.rank k) (ranks t ++ ranks_of bs) ≡ answer (order.rank k) t bs tail
      → (tail ≡ less → AllAbove (order.rank k) (ranks_of bs))
      → (tail ≢ less → order.rank j < order.rank k)
      → has (order.rank k) (ranks l ++ ranks_of (key j t bs))
        ≡ answer (order.rank k) l (key j t bs) (shift tail (compare_entry k (entry t j)))
  answer-key k j l t bs less asc ih above below = ground (
    arith,
    compare_rank k (entry t j),
    has-middle (order.rank k) (order.rank j) (ranks l) (ranks t ++ ranks_of bs) asc,
    has-before (order.rank k) (order.rank j) (ranks l) (ranks t ++ ranks_of bs) asc,
    ih,
  )
  answer-key k j l t bs (equal i) asc ih above below = ground (
    arith,
    below (λ e. cc),
    has-middle (order.rank k) (order.rank j) (ranks l) (ranks t ++ ranks_of bs) asc,
  )
  answer-key k j l t bs (greater i) asc ih above below = ground (
    arith,
    below (λ e. cc),
    has-middle (order.rank k) (order.rank j) (ranks l) (ranks t ++ ranks_of bs) asc,
  )

  -- The location that `FindKeyLocation` gives leads to the key, if the tree holds it.
  pub find_from-answer :
      (k : K) (l : Tree K) (bs : Branches K)
      → IsAscending (ranks l ++ ranks_of bs)
      → has (order.rank k) (ranks l ++ ranks_of bs)
        ≡ answer (order.rank k) l bs (find_from k (entries_of bs))
  unfolding find_from
  find_from-answer k l end asc = rw append-nil
  find_from-answer k l (key j t bs) asc =
      let right = IsAscending-right (ranks l) (ranks_of (key j t bs)) asc in
      let tail = find_from k (entries_of bs) in
      answer-key k j l t bs tail asc (find_from-answer k t bs right.1)
        (find_from-less k bs (IsAscending-right (ranks t) (ranks_of bs) right.1))
        (find_from-ne_less k bs (order.rank j)
          (All-append_right (λ x. order.rank j < x) (ranks t) (ranks_of bs) right.0))

  -- Every location that `FindKeyLocation` gives is that of an entry in use.
  abbrev pub IsAt : K → List (Entry K) → Location → Type 0
  IsAt k es (equal i) =
      (e : Entry K) × (get_elem? es i ≡ some e) × (order.rank e.db_key ≡ order.rank k)
  IsAt k es (greater i) = i < length es
  IsAt k es less = Unit

  IsAt-shift :
      (k : K) (e : Entry K) (es : List (Entry K)) (at : Location)
      → IsAt k es at
      → IsAt k (e ∷ es) (shift at (compare_entry k e))
  IsAt-shift k e es (equal i) h = h
  IsAt-shift k e es (greater i) h = omega arith
  IsAt-shift k e es less h = elim (Bool-cases (ltb (order.rank e.db_key) (order.rank k))) [
    | inl above ↦ rw (compare_rank k e, above) (omega arith)
    | inr not_above ↦ elim (Bool-cases (order.rank k == order.rank e.db_key)) [
      | inl same ↦ rw (compare_rank k e, not_above, same) (e, refl, ground arith)
      | inr differs ↦ rw (compare_rank k e, not_above, differs) tt
    ]
  ]

  pub find_from-IsAt : (k : K) (es : List (Entry K)) → IsAt k es (find_from k es)
  unfolding find_from
  find_from-IsAt k [] = tt
  find_from-IsAt k (e ∷ es) = IsAt-shift k e es (find_from k es) (find_from-IsAt k es)

module _ {K : Type 0} where
  right_child-child_at :
      (l : Tree K) (bs : Branches K) (i : ℕ)
      → i < length (entries_of bs)
      → right_child_of (get_elem? (entries_of bs) i) ≡ some (address_of (child_at l bs (suc i)))
  right_child-child_at l end i h = absurd (omega arith)
  right_child-child_at l (key k t bs) zero h = refl
  right_child-child_at l (key k t bs) (suc i) h = right_child-child_at t bs i (omega arith)

  -- The branches of a stored node lead to the subtrees of its tree.
  pub get_branch-child_at :
      (n : BtreeNode K) (l : Tree K) (bs : Branches K) (s : ℕ)
      → n.left_child ≡ address_of l
      → n.key_entries ≡ entries_of bs
      → s ≤ length (entries_of bs)
      → get_branch n s ≡ some (address_of (child_at l bs s))
  unfolding get_branch
  get_branch-child_at n l bs zero left entries h = ap some left
  get_branch-child_at n l bs (suc i) left entries h = rw entries (right_child-child_at l bs i h)

  pub child_at-Stored :
      (nodes : ℕ → Option (StoredNode K)) (capacity height : ℕ) (l : Tree K) (bs : Branches K)
      (s : ℕ)
      → s ≤ length (entries_of bs)
      → Stored nodes capacity height l
      → StoredBranches nodes capacity height bs
      → Stored nodes capacity height (child_at l bs s)
  child_at-Stored nodes capacity height l bs zero h left rest = left
  child_at-Stored nodes capacity height l end (suc i) h left rest = absurd (omega arith)
  child_at-Stored nodes capacity height l (key k t bs) (suc i) h left rest =
      child_at-Stored nodes capacity height t bs i (omega arith) rest.0 rest.1

module _ {K : Type 0} ⦃order : DatabaseKeyB K⦄ where
  pub child_at-IsAscending :
      (l : Tree K) (bs : Branches K) (s : ℕ)
      → IsAscending (ranks l ++ ranks_of bs)
      → IsAscending (ranks (child_at l bs s))
  child_at-IsAscending l bs zero asc = IsAscending-left (ranks l) (ranks_of bs) asc
  child_at-IsAscending l end (suc i) asc = tt
  child_at-IsAscending l (key k t bs) (suc i) asc =
      child_at-IsAscending t bs i (IsAscending-right (ranks l) (ranks_of (key k t bs)) asc).1

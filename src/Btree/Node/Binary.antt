-- ===== src/Btree/Node/Binary.antt =====
-- `FindKeyLocation` with __USE_BINARY_SEARCH__ and __USE_SINGLE_COMPARE__, the default of
-- CMakeLists.txt, against the scan that is compiled without them.
use mathlib.Core.Path.{subst}
use datareel.Prelude.{
  ==→eq, Bool-cases, ltb→le, ltb→lt, get_elem?-lt, none-some, get_elem?-some, le→ltb,
}
use mathlib.Core.Option.{some-injective}
use datareel.Prelude.{
  ℕ, zero, suc, ◌+◌, ◌-◌, ◌/◌, ◌≤◌, ◌<◌, ◌≡◌, refl, sym, ap, ◌∙◌, Option, none, some, List, [], ◌∷◌,
  length, get_elem?, IsAscending, AllAbove, ltb, if◌then◌else◌, arith, inl, inr, ◌==◌,
}
use datareel.Btree.Key.{DatabaseKeyB, negative, nil, positive}
use datareel.Btree.Node.{
  Entry, BtreeNode, Location, equal, greater, less, compare_entry, find_from, find_key_location,
  key_count,
}

-- The result where no key was equal: `nRight` is one less than the number.
abbrev pub not_found : ℕ → Location
not_found zero = less
not_found (suc i) = greater i

module _ {K : Type 0} ⦃order : DatabaseKeyB K⦄ where
  -- The loop, from `nLeft` to `nRight + 1`, with `rounds` to go; `none` where the rounds run out
  -- before the loop ends, or where a key is read past those in use.
  unfoldable pub binary_search : ℕ → K → List (Entry K) → ℕ → ℕ → Option Location
  binary_search zero key es left end = if ltb left end then none else some (not_found end)
  binary_search (suc rounds) key es left end =
      let mid = (left + (end - 1)) / 2 in
      let right_half = binary_search rounds key es (suc mid) end in
      let left_half = binary_search rounds key es left mid in
      let round : Option Location = elim (get_elem? es mid) [
        | none ↦ none
        | some e ↦ elim (order.compare_key key e.db_key) [
          | nil ↦ some (equal mid)
          | positive ↦ right_half
          | negative ↦ left_half
        ]
      ] in
      if ltb left end then round else some (not_found end)

  unfoldable pub binary_key_location : BtreeNode K → K → Option Location
  binary_key_location n key = binary_search (key_count n) key n.key_entries 0 (key_count n)

  abbrev pub rank_of : Entry K → ℕ
  rank_of e = order.rank e.db_key

  abbrev pub entry_ranks : List (Entry K) → List ℕ
  entry_ranks [] = []
  entry_ranks (e ∷ es) = rank_of e ∷ entry_ranks es

  compare_entry-rank :
      (key : K) (e : Entry K)
      → (order.rank key < rank_of e → compare_entry key e ≡ less)
        × (order.rank key ≡ rank_of e → compare_entry key e ≡ equal 0)
        × (rank_of e < order.rank key → compare_entry key e ≡ greater 0)
  unfolding compare_entry
  compare_entry-rank key e =
      let g = order.gt_rank key e.db_key in
      let h = order.eq_rank key e.db_key in
      (λ lt. ground arith, λ same. ground arith, λ lt. ground arith)

  find_from-above :
      (key : K) (es : List (Entry K))
      → AllAbove (order.rank key) (entry_ranks es)
      → find_from key es ≡ less
  unfolding find_from
  find_from-above key [] h = refl
  find_from-above key (e ∷ es) h =
      rw (find_from-above key es h.1) ((compare_entry-rank key e).0 h.0)

  find_from-equal :
      (key : K) (es : List (Entry K)) (i : ℕ) (e : Entry K)
      → IsAscending (entry_ranks es)
      → get_elem? es i ≡ some e
      → order.rank key ≡ rank_of e
      → find_from key es ≡ equal i
  unfolding find_from
  find_from-equal key [] i e asc at same = absurd (none-some at)
  find_from-equal key (d ∷ es) zero e asc at same =
      let is_d : d ≡ e = some-injective _ _ at in
      let same_d : order.rank key ≡ rank_of d = same ∙ ap (λ (x : Entry K). rank_of x) (sym is_d) in
      rw (find_from-above key es (subst (λ r. AllAbove r (entry_ranks es)) (sym same_d) asc.0))
        ((compare_entry-rank key d).1 same_d)
  find_from-equal key (d ∷ es) (suc i) e asc at same =
      rw (find_from-equal key es i e asc.1 at same) refl

  -- The entries before an index are below the key, and those from there on above.
  abbrev Below : K → List (Entry K) → ℕ → Type 0
  Below key es end =
      (i : ℕ) (e : Entry K) → i < end → get_elem? es i ≡ some e → rank_of e < order.rank key

  abbrev Above : K → List (Entry K) → ℕ → Type 0
  Above key es start =
      (i : ℕ) (e : Entry K) → start ≤ i → get_elem? es i ≡ some e → order.rank key < rank_of e

  find_from-not_found :
      (key : K) (es : List (Entry K)) (at : ℕ)
      → at ≤ length es
      → Below key es at
      → Above key es at
      → find_from key es ≡ not_found at
  unfolding find_from
  find_from-not_found key [] zero h below above = refl
  find_from-not_found key [] (suc at) h below above = absurd (omega arith)
  find_from-not_found key (e ∷ es) zero h below above =
      rw
        (find_from-not_found key es zero (omega arith) (λ i d lt at. absurd (omega arith))
          (λ i d le at. above (suc i) d (omega arith) at))
        ((compare_entry-rank key e).0 (above 0 e (omega arith) refl))
  find_from-not_found key (e ∷ es) (suc zero) h below above =
      rw
        (
          find_from-not_found key es zero (omega arith) (λ i d lt at. absurd (omega arith))
              (λ i d le at. above (suc i) d (omega arith) at),
          (compare_entry-rank key e).2 (below 0 e (omega arith) refl),
        )
        refl
  find_from-not_found key (e ∷ es) (suc (suc at)) h below above =
      rw
        (find_from-not_found key es (suc at) (omega arith)
          (λ i d lt at. below (suc i) d (omega arith) at)
          (λ i d le at. above (suc i) d (omega arith) at))
        refl

  AllAbove-get :
      (b : ℕ) (es : List (Entry K)) (i : ℕ) (e : Entry K)
      → AllAbove b (entry_ranks es)
      → get_elem? es i ≡ some e
      → b < rank_of e
  AllAbove-get b [] i e all at = absurd (none-some at)
  AllAbove-get b (d ∷ es) zero e all at =
      subst (λ (x : Entry K). b < rank_of x) (some-injective _ _ at) all.0
  AllAbove-get b (d ∷ es) (suc i) e all at = AllAbove-get b es i e all.1 at

  IsAscending-get :
      (es : List (Entry K)) (i j : ℕ) (d e : Entry K)
      → IsAscending (entry_ranks es)
      → i < j
      → get_elem? es i ≡ some d
      → get_elem? es j ≡ some e
      → rank_of d < rank_of e
  IsAscending-get [] i j d e asc lt at at' = absurd (none-some at)
  IsAscending-get (c ∷ es) i zero d e asc lt at at' = absurd (omega arith)
  IsAscending-get (c ∷ es) zero (suc j) d e asc lt at at' =
      subst (λ (x : Entry K). rank_of x < rank_of e) (some-injective _ _ at)
        (AllAbove-get (rank_of c) es j e asc.0 at')
  IsAscending-get (c ∷ es) (suc i) (suc j) d e asc lt at at' =
      IsAscending-get es i j d e asc.1 (omega arith) at at'

  Below-get :
      (key : K) (es : List (Entry K)) (mid : ℕ) (e : Entry K)
      → IsAscending (entry_ranks es)
      → get_elem? es mid ≡ some e
      → rank_of e < order.rank key
      → Below key es (suc mid)
  Below-get key es mid e asc at lt i d le at' = elim (Bool-cases (ltb i mid)) [
    | inl before ↦ omega (arith, IsAscending-get es i mid d e asc (ltb→lt i mid before) at' at)
    | inr not_before ↦
        let here : mid ≡ i = omega (arith, ltb→le i mid not_before) in
        subst (λ (x : Entry K). rank_of x < order.rank key)
          (some-injective _ _ (sym at ∙ ap (λ j. get_elem? es j) here ∙ at')) lt
  ]

  Above-get :
      (key : K) (es : List (Entry K)) (mid : ℕ) (e : Entry K)
      → IsAscending (entry_ranks es)
      → get_elem? es mid ≡ some e
      → order.rank key < rank_of e
      → Above key es mid
  Above-get key es mid e asc at lt i d le at' = elim (Bool-cases (ltb mid i)) [
    | inl after ↦ omega (arith, IsAscending-get es mid i e d asc (ltb→lt mid i after) at at')
    | inr not_after ↦
        let here : mid ≡ i = omega (arith, ltb→le mid i not_after) in
        subst (λ (x : Entry K). order.rank key < rank_of x)
          (some-injective _ _ (sym at ∙ ap (λ j. get_elem? es j) here ∙ at')) lt
  ]

  binary_search-find_from :
      (rounds : ℕ) (key : K) (es : List (Entry K)) (left end : ℕ)
      → IsAscending (entry_ranks es)
      → end ≤ left + rounds
      → left ≤ end
      → end ≤ length es
      → Below key es left
      → Above key es end
      → binary_search rounds key es left end ≡ some (find_from key es)
  unfolding binary_search
  binary_search-find_from zero key es left end asc h le fits below above =
      let meet : left ≡ end = omega arith in
      rw
        (
          le→ltb end left (omega arith),
          find_from-not_found key es end fits (subst (λ n. Below key es n) meet below) above,
        )
        refl
  binary_search-find_from (suc rounds) key es left end asc h le fits below above =
      elim (Bool-cases (ltb left end)) [
        | inr done ↦
            let meet : left ≡ end = omega (arith, ltb→le left end done) in
            rw
              (
                done,
                find_from-not_found key es end fits (subst (λ n. Below key es n) meet below) above,
              )
              refl
        | inl more ↦
            let lt = ltb→lt left end more in
            let mid = (left + (end - 1)) / 2 in
            let (e, at) = get_elem?-lt es mid (omega arith) in
            let compared = order.compare_rank key e.db_key in
            let rank = order.rank key in
            elim (Bool-cases (ltb (rank_of e) rank)) [
              | inl up ↦
                  rw (more, at, compared, up)
                    (binary_search-find_from rounds key es (suc mid) end asc (omega arith)
                      (omega arith) fits (Below-get key es mid e asc at (ltb→lt _ _ up)) above)
              | inr not_up ↦ elim (Bool-cases (rank == rank_of e)) [
                | inl same ↦
                    rw (more, at, compared, not_up, same)
                      (ap some
                        (sym (find_from-equal key es mid e asc at (==→eq rank (rank_of e) same))))
                | inr other ↦
                    let down : rank < rank_of e = ground arith in
                    rw (more, at, compared, not_up, other)
                      (binary_search-find_from rounds key es left mid asc (omega arith)
                        (omega arith) (omega arith) below (Above-get key es mid e asc at down))
              ]
            ]
      ]

  -- In a node whose keys are in ascending order, the binary search ends within as many rounds as
  -- the node has keys, reads only keys that are there, and has the result of the scan.
  pub binary_key_location-find_key_location :
      (n : BtreeNode K) (key : K)
      → IsAscending (entry_ranks n.key_entries)
      → binary_key_location n key ≡ some (find_key_location n key)
  unfolding binary_key_location find_key_location
  binary_key_location-find_key_location n key asc =
      binary_search-find_from (key_count n) key n.key_entries 0 (key_count n) asc (omega arith)
        (omega arith) (omega arith) (λ i e lt at. absurd (omega arith))
        (λ i e le at. absurd (omega (arith, get_elem?-some n.key_entries i e at)))

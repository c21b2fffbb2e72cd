-- ===== src/Btree/Search/After.antt =====
-- The last steps of `FindNext` on a stored tree: the first key of the tree to the right of an entry, the
-- next entry, or the entry that was saved on the way down.
use mathlib.Core.Path.{subst}
use datareel.Prelude.{
  ℕ, zero, suc, ◌≤◌, ◌<◌, ◌≡◌, refl, sym, ap, false, arith, Option, none, some, List, [], ◌∷◌, ◌++◌,
  length, get_elem?, ltb, leb, ne→==, Bool-cases, inl, inr, ltb→lt, ltb→le,
}
use datareel.Btree.Key.{DatabaseKeyB}
use datareel.Btree.Node.{BtreeNode, Entry, load_key, is_empty}
use datareel.Btree.State.{StoredNode, NodeFile, GxBtreeHeader, Result, ok, unset}
use datareel.Btree.Search.Ends.{Hit, load_hit, next_from, load_parent, read_node_checked}
use datareel.Btree.Shape.{
  Tree, Branches, leaf, node, end, key, address_of, entries_of, child_at, stored_node, Stored,
  ranks,
}
use datareel.Btree.Shape.Lookup.{get_branch-child_at}
use datareel.Btree.Shape.Place.{after_at}
use datareel.Btree.Search.Correct.{capacity, node_of, read_node_stored}
use datareel.Btree.Search.First.{LeftFilled, left_most-IsFirst, not_empty, address_pos}
use datareel.Btree.Shape.Filled.{Filled}

pub get_elem?-lt :
    {A : Type 0} (xs : List A) (i : ℕ) (x : A) → get_elem? xs i ≡ some x → i < length xs
get_elem?-lt [] i x h = cc
get_elem?-lt (y ∷ xs) zero x h = omega arith
get_elem?-lt (y ∷ xs) (suc i) x h = omega (arith, get_elem?-lt xs i x h)

pub some_injective : {A : Type 0} {x y : A} → some x ≡ some y → x ≡ y
some_injective h = cc

module _ {K : Type 0} where
  LeftFilled-Filled :
      (a : ℕ) (l : Tree K) (bs : Branches K) → Filled (node a l bs) → LeftFilled (node a l bs)
  LeftFilled-Filled a leaf end filled = absurd (omega (arith, filled.0))
  LeftFilled-Filled a leaf (key k t bs) filled = tt
  LeftFilled-Filled a (node b l cs) bs filled = LeftFilled-Filled b l cs filled.1

-- The first of a list, or else another rank.
abbrev pub first_or : List ℕ → Option ℕ → Option ℕ
first_or [] d = d
first_or (x ∷ xs) d = some x

pub first_or-append :
    (xs ys : List ℕ) (d : Option ℕ) → first_or (xs ++ ys) d ≡ first_or xs (first_or ys d)
first_or-append [] ys d = refl
first_or-append (x ∷ xs) ys d = refl

module _ {K : Type 0} ⦃order : DatabaseKeyB K⦄ where
  -- A key of the rank is loaded, or no key and no new error code.
  abbrev pub Answers : Option ℕ → Result (Hit K) → Type 0
  Answers none r = r ≡ unset
  Answers (some x) r = (hit : Hit K) × (r ≡ ok hit) × (order.rank hit.0.db_key ≡ x)

  -- The search has the rank that follows `r` in the list, or the other one where `r` is the last.
  abbrev pub Next : ℕ → List ℕ → Option ℕ → Result (Hit K) → Type 0
  Next r xs d res =
      (before : List ℕ) × (after : List ℕ) × (xs ≡ before ++ (r ∷ after))
      × Answers (first_or after d) res

  -- The saved parent and location stand for the rank.
  abbrev pub Waits : GxBtreeHeader → NodeFile K → Option (ℕ × ℕ) → Option ℕ → Type 0
  Waits hdr file none d = d ≡ none
  Waits hdr file (some (a, loc)) d =
      (s : StoredNode K) × (e : Entry K) × (file.nodes a ≡ some s)
      × (length s.key_entries ≤ capacity hdr)
      × (get_elem? s.key_entries loc ≡ some e)
      × (d ≡ some (order.rank e.db_key))

  pub load_parent-Answers :
      (hdr : GxBtreeHeader) (file : NodeFile K) (left : ℕ) (n : BtreeNode K)
      (parent : Option (ℕ × ℕ)) (d : Option ℕ)
      → 0 < left
      → Waits hdr file parent d
      → Answers d (load_parent hdr file left n parent)
  unfolding load_parent read_node_checked is_empty load_key
  load_parent-Answers hdr file left n none d pos w = subst (λ x. Answers x unset) (sym w) refl
  load_parent-Answers hdr file zero n (some (a, loc)) d pos w = absurd (omega arith)
  load_parent-Answers hdr file (suc left) n (some (a, loc)) d pos (s, e, at, fits, has_e, w) =
      let lt = get_elem?-lt s.key_entries loc e has_e in
      let some_keys : leb (length s.key_entries) 0 ≡ false = ground arith in
      let inside : leb (length s.key_entries) loc ≡ false = ground arith in
      subst (λ x. Answers x (load_parent hdr file (suc left) n (some (a, loc)))) (sym w)
        ((e, n), rw (read_node_stored hdr file a s at fits, some_keys, inside, has_e) refl, refl)

  -- The ranks after a place that has an entry.
  pub after_at-entry :
      (l : Tree K) (bs : Branches K) (s : ℕ)
      → s < length (entries_of bs)
      → (e : Entry K) × (get_elem? (entries_of bs) s ≡ some e)
        × (after_at bs s
            ≡ order.rank e.db_key ∷ (ranks (child_at l bs (suc s)) ++ after_at bs (suc s)))
  after_at-entry l end s h = absurd (omega arith)
  after_at-entry l (key k t bs) zero h =
      (record { right_child = address_of t; db_key = k }, refl, refl)
  after_at-entry l (key k t bs) (suc s) h = after_at-entry t bs s (omega arith)

  pub after_at-end : (bs : Branches K) (s : ℕ) → length (entries_of bs) ≤ s → after_at bs s ≡ []
  after_at-end end zero h = refl
  after_at-end end (suc s) h = refl
  after_at-end (key k t bs) zero h = absurd (omega arith)
  after_at-end (key k t bs) (suc s) h = after_at-end bs s (omega arith)

  -- From the entry at a location: the first key of the tree to its right, the next entry, or, where
  -- the node has neither, what is found otherwise.
  pub next_from-Answers :
      (hdr : GxBtreeHeader) (file : NodeFile K) (left height a : ℕ) (l : Tree K) (bs : Branches K)
      (i : ℕ) (child : Tree K) (d : Option ℕ) (otherwise : Result (Hit K))
      → i < length (entries_of bs)
      → child_at l bs (suc i) ≡ child
      → height ≤ left
      → Stored file.nodes (capacity hdr) height child
      → Filled child
      → (ranks child ++ after_at bs (suc i) ≡ [] → Answers d otherwise)
      → Answers
          (first_or (ranks child ++ after_at bs (suc i)) d)
          (next_from hdr file left (node_of hdr a (stored_node l bs)) i otherwise)
  unfolding next_from load_hit load_key
  next_from-Answers hdr file left height a l bs i leaf d otherwise inside is h st filled other =
      let n = node_of hdr a (stored_node l bs) in
      let branch = get_branch-child_at n l bs (suc i) refl refl inside in
      elim (Bool-cases (ltb (suc i) (length (entries_of bs)))) [
        | inl more ↦
            let (e, has_e, after) = after_at-entry l bs (suc i) (ltb→lt _ _ more) in
            subst (λ x. Answers (first_or x d) (next_from hdr file left n i otherwise)) (sym after)
              ((e, n), rw (branch, is, more, has_e) refl, refl)
        | inr last ↦
            subst (λ x. Answers (first_or x d) (next_from hdr file left n i otherwise))
              (sym (after_at-end bs (suc i) (ltb→le _ _ last)))
              (rw (branch, is, last) (other (after_at-end bs (suc i) (ltb→le _ _ last))))
      ]
  next_from-Answers hdr file left height a l bs i (node b l' bs') d otherwise inside is h st filled
        other =
      let n = node_of hdr a (stored_node l bs) in
      let branch = get_branch-child_at n l bs (suc i) refl refl inside in
      let (m, left', walk, first) =
        left_most-IsFirst hdr file left height b l' bs' h st (LeftFilled-Filled b l' bs' filled) in
      let least : first_or (ranks (node b l' bs') ++ after_at bs (suc i)) d
          ≡ some (order.rank first.entry.db_key) =
        ap (λ z. first_or (z ++ after_at bs (suc i)) d) first.is_least in
      subst (λ x. Answers x (next_from hdr file left n i otherwise)) (sym least)
        (
          (first.entry, m),
          simp
              (
                branch,
                is,
                ne→== b 0 (address_pos file.nodes (capacity hdr) height b l' bs' st),
                walk,
                not_empty m first.entry first.entries first.has_entry,
                first.has_entry,
              )
              refl,
          refl,
        )

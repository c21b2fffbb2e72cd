-- ===== src/Prelude/Lists.antt =====
-- Lists measured and indexed by native numbers, under the library's names; arrays of entries.
use Prim.Native.Nat.{ℕ, zero, suc, ◌+◌, ◌-◌, ◌≤◌, ◌<◌, min}
use mathlib.Core.Path.{subst, ◌≡◌, ◌∙◌, refl, ap}
use mathlib.Core.List.{List, [], ◌∷◌, ◌++◌}
use mathlib.Core.Option.{Option, none, some}
use native.Mathlib.Omega.{arith}

module _ {ℓ} {A : Type ℓ} where
  abbrev pub length : List A → ℕ
  length [] = 0
  length (x ∷ xs) = suc (length xs)

  abbrev pub get_elem? : List A → ℕ → Option A
  get_elem? [] i = none
  get_elem? (x ∷ xs) zero = some x
  get_elem? (x ∷ xs) (suc i) = get_elem? xs i

  abbrev pub set : List A → ℕ → A → List A
  set [] i v = []
  set (x ∷ xs) zero v = v ∷ xs
  set (x ∷ xs) (suc i) v = x ∷ set xs i v

  abbrev pub take : ℕ → List A → List A
  take zero xs = []
  take (suc n) [] = []
  take (suc n) (x ∷ xs) = x ∷ take n xs

  abbrev pub drop : ℕ → List A → List A
  drop zero xs = xs
  drop (suc n) [] = []
  drop (suc n) (x ∷ xs) = drop n xs

  -- The element at an index is moved up, with all that follow it.
  abbrev pub insert_at : List A → ℕ → A → List A
  insert_at xs zero v = v ∷ xs
  insert_at [] (suc i) v = v ∷ []
  insert_at (x ∷ xs) (suc i) v = x ∷ insert_at xs i v

  -- What follows an index is moved down over the element there.
  abbrev pub remove_at : List A → ℕ → List A
  remove_at [] i = []
  remove_at (x ∷ xs) zero = xs
  remove_at (x ∷ xs) (suc i) = x ∷ remove_at xs i

  pub length-append : (xs ys : List A) → length (xs ++ ys) ≡ length xs + length ys
  length-append [] ys = omega arith
  length-append (x ∷ xs) ys = omega (arith, length-append xs ys)

  pub length-take : (n : ℕ) (xs : List A) → length (take n xs) ≡ min n (length xs)
  length-take zero xs = omega arith
  length-take (suc n) [] = omega arith
  length-take (suc n) (x ∷ xs) = omega (arith, length-take n xs)

  pub length-drop : (n : ℕ) (xs : List A) → length (drop n xs) ≡ length xs - n
  length-drop zero xs = omega arith
  length-drop (suc n) [] = omega arith
  length-drop (suc n) (x ∷ xs) = omega (arith, length-drop n xs)

  pub take-append-drop : (n : ℕ) (xs : List A) → take n xs ++ drop n xs ≡ xs
  take-append-drop zero xs = refl
  take-append-drop (suc n) [] = refl
  take-append-drop (suc n) (x ∷ xs) = ap (λ r. x ∷ r) (take-append-drop n xs)

  pub length-insert_at : (xs : List A) (i : ℕ) (v : A) → length (insert_at xs i v) ≡ suc (length xs)
  length-insert_at [] zero v = refl
  length-insert_at [] (suc i) v = refl
  length-insert_at (x ∷ xs) zero v = refl
  length-insert_at (x ∷ xs) (suc i) v = ap suc (length-insert_at xs i v)

  pub remove_at-insert_at :
      (xs : List A) (i : ℕ) (v : A) → i ≤ length xs → remove_at (insert_at xs i v) i ≡ xs
  remove_at-insert_at xs zero v h = refl
  remove_at-insert_at [] (suc i) v h = elim h [ ]
  remove_at-insert_at (x ∷ xs) (suc i) v h =
      ap (λ r. x ∷ r) (remove_at-insert_at xs i v (omega arith))

  pub insert_at-left :
      (xs ys : List A) (i : ℕ) (v : A)
      → i ≤ length xs
      → insert_at xs i v ++ ys ≡ insert_at (xs ++ ys) i v
  insert_at-left [] [] zero v h = refl
  insert_at-left [] (y ∷ ys) zero v h = refl
  insert_at-left [] ys (suc i) v h = absurd (omega arith)
  insert_at-left (x ∷ xs) ys zero v h = refl
  insert_at-left (x ∷ xs) ys (suc i) v h = ap (λ r. x ∷ r) (insert_at-left xs ys i v (omega arith))

  pub insert_at-right :
      (xs ys : List A) (i : ℕ) (v : A)
      → length xs ≤ i
      → xs ++ insert_at ys (i - length xs) v ≡ insert_at (xs ++ ys) i v
  insert_at-right [] ys i v h = ap (λ j. insert_at ys j v) (omega arith)
  insert_at-right (x ∷ xs) ys zero v h = absurd (omega arith)
  insert_at-right (x ∷ xs) ys (suc i) v h =
      let less_one : suc i - suc (length xs) ≡ i - length xs = omega arith in
      ap (λ j. x ∷ (xs ++ insert_at ys j v)) less_one
      ∙ ap (λ r. x ∷ r) (insert_at-right xs ys i v (omega arith))

  pub drop-head :
      (n : ℕ) (xs : List A) → n < length xs → (y : A) × (ys : List A) × (drop n xs ≡ y ∷ ys)
  drop-head n [] h = absurd (omega arith)
  drop-head zero (x ∷ xs) h = (x, xs, refl)
  drop-head (suc n) (x ∷ xs) h = drop-head n xs (omega arith)

  pub none-some : {x : A} → Path (Option A) none (some x) → ⊥
  none-some p = subst (λ (o : Option A). elim o as (λ _. Type 0) [ none ↦ Unit | some _ ↦ ⊥ ]) p tt

  pub get_elem?-lt : (xs : List A) (i : ℕ) → i < length xs → (x : A) × (get_elem? xs i ≡ some x)
  get_elem?-lt [] i h = absurd (omega arith)
  get_elem?-lt (x ∷ xs) zero h = (x, refl)
  get_elem?-lt (x ∷ xs) (suc i) h = get_elem?-lt xs i (omega arith)

  pub get_elem?-some : (xs : List A) (i : ℕ) (x : A) → get_elem? xs i ≡ some x → i < length xs
  get_elem?-some [] i x h = absurd (none-some h)
  get_elem?-some (y ∷ xs) zero x h = omega arith
  get_elem?-some (y ∷ xs) (suc i) x h = omega (arith, get_elem?-some xs i x h)

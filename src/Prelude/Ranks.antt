-- ===== src/Prelude/Ranks.antt =====
-- Lists of numbers in strictly ascending order, and membership.
use Prim.Native.Nat.{ℕ, ◌<◌, ◌≤◌}
use mathlib.Core.Path.{◌≡◌, refl}
use mathlib.Core.Bool.{Bool, false, ◌||◌}
use mathlib.Core.List.{List, [], ◌∷◌, ◌++◌}
use native.Mathlib.Omega.{arith}
use datareel.Prelude.Tests.{◌==◌}

abbrev pub All {ℓ κ} : {A : Type ℓ} → (A → Type κ) → List A → Type κ
All P [] = Unit
All P (x ∷ xs) = P x × All P xs

pub All-map {ℓ κ κ'} :
    {A : Type ℓ} {P : A → Type κ} {Q : A → Type κ'} (xs : List A)
    → ((x : A) → P x → Q x)
    → All P xs
    → All Q xs
All-map [] f h = tt
All-map (x ∷ xs) f (p, h) = (f x p, All-map xs f h)

pub All-zip {ℓ κ κ'} :
    {A : Type ℓ} (P : A → Type κ) (Q : A → Type κ') (xs : List A)
    → All P xs
    → All Q xs
    → All (λ x. P x × Q x) xs
All-zip P Q [] h h' = tt
All-zip P Q (x ∷ xs) (p, h) (q, h') = ((p, q), All-zip P Q xs h h')

pub All-without {ℓ κ} :
    {A : Type ℓ} (P : A → Type κ) (xs : List A) (y : A) (ys : List A)
    → All P (xs ++ (y ∷ ys))
    → P y × All P (xs ++ ys)
All-without P [] y ys (p, h) = (p, h)
All-without P (x ∷ xs) y ys (p, h) = let (q, rest) = All-without P xs y ys h in (q, (p, rest))

pub All-last {ℓ κ} :
    {A : Type ℓ} (P : A → Type κ) (xs : List A) (y : A) → All P xs → P y → All P (xs ++ (y ∷ []))
All-last P [] y h p = (p, tt)
All-last P (x ∷ xs) y (q, h) p = (q, All-last P xs y h p)

abbrev pub AllAbove : ℕ → List ℕ → Type 0
AllAbove b = All (λ x. b < x)

abbrev pub AllBelow : ℕ → List ℕ → Type 0
AllBelow b = All (λ x. x < b)

abbrev pub IsAscending : List ℕ → Type 0
IsAscending [] = Unit
IsAscending (x ∷ xs) = AllAbove x xs × IsAscending xs

abbrev pub has : ℕ → List ℕ → Bool
has r [] = false
has r (x ∷ xs) = r == x || has r xs

pub has-append : (r : ℕ) (xs ys : List ℕ) → has r (xs ++ ys) ≡ (has r xs || has r ys)
has-append r [] ys = refl
has-append r (x ∷ xs) ys = ground (arith, has-append r xs ys)

pub has-above : (r : ℕ) (xs : List ℕ) → AllAbove r xs → has r xs ≡ false
has-above r [] h = refl
has-above r (x ∷ xs) h = ground (arith, has-above r xs h.1)

pub has-below : (r : ℕ) (xs : List ℕ) → AllBelow r xs → has r xs ≡ false
has-below r [] h = refl
has-below r (x ∷ xs) h = ground (arith, has-below r xs h.1)

pub AllAbove-lt : (a b : ℕ) (xs : List ℕ) → a < b → AllAbove b xs → AllAbove a xs
AllAbove-lt a b [] h k = tt
AllAbove-lt a b (x ∷ xs) h k = (omega arith, AllAbove-lt a b xs h k.1)

pub AllBelow-lt : (a b : ℕ) (xs : List ℕ) → a < b → AllBelow a xs → AllBelow b xs
AllBelow-lt a b [] h k = tt
AllBelow-lt a b (x ∷ xs) h k = (omega arith, AllBelow-lt a b xs h k.1)

pub All-append_left {ℓ} : (P : ℕ → Type ℓ) (xs ys : List ℕ) → All P (xs ++ ys) → All P xs
All-append_left P [] ys h = tt
All-append_left P (x ∷ xs) ys h = (h.0, All-append_left P xs ys h.1)

pub All-append_right {ℓ} : (P : ℕ → Type ℓ) (xs ys : List ℕ) → All P (xs ++ ys) → All P ys
All-append_right P [] ys h = h
All-append_right P (x ∷ xs) ys h = All-append_right P xs ys h.1

pub All-append {ℓ} : (P : ℕ → Type ℓ) (xs ys : List ℕ) → All P xs → All P ys → All P (xs ++ ys)
All-append P [] ys h k = k
All-append P (x ∷ xs) ys h k = (h.0, All-append P xs ys h.1 k)

pub IsAscending-left : (xs ys : List ℕ) → IsAscending (xs ++ ys) → IsAscending xs
IsAscending-left [] ys h = tt
IsAscending-left (x ∷ xs) ys h =
    (All-append_left (λ z. x < z) xs ys h.0, IsAscending-left xs ys h.1)

pub IsAscending-right : (xs ys : List ℕ) → IsAscending (xs ++ ys) → IsAscending ys
IsAscending-right [] ys h = h
IsAscending-right (x ∷ xs) ys h = IsAscending-right xs ys h.1

-- All before a middle element is smaller.
pub IsAscending-middle :
    (xs : List ℕ) (y : ℕ) (ys : List ℕ) → IsAscending (xs ++ (y ∷ ys)) → AllBelow y xs
IsAscending-middle [] y ys h = tt
IsAscending-middle (x ∷ xs) y ys h =
    ((All-append_right (λ z. x < z) xs (y ∷ ys) h.0).0, IsAscending-middle xs y ys h.1)

pub IsAscending-append :
    (xs : List ℕ) (y : ℕ) (ys : List ℕ)
    → IsAscending xs
    → AllBelow y xs
    → IsAscending (y ∷ ys)
    → IsAscending (xs ++ (y ∷ ys))
IsAscending-append [] y ys a b c = c
IsAscending-append (x ∷ xs) y ys a b c = (
  All-append (λ z. x < z) xs (y ∷ ys) a.0 (b.0, AllAbove-lt x y ys b.0 c.0),
  IsAscending-append xs y ys a.1 b.1 c,
)

pub has-below_le : (r b : ℕ) (xs : List ℕ) → b ≤ r → AllBelow b xs → has r xs ≡ false
has-below_le r b [] le h = refl
has-below_le r b (x ∷ xs) le h = ground (arith, has-below_le r b xs le h.1)

-- A number from the middle element on is not before it.
pub has-middle :
    (r x : ℕ) (ls rs : List ℕ)
    → IsAscending (ls ++ (x ∷ rs))
    → x ≤ r
    → has r (ls ++ (x ∷ rs)) ≡ (r == x || has r rs)
has-middle r x ls rs asc h = rw (has-append, has-below_le r x ls h (IsAscending-middle ls x rs asc))

-- A number before the middle element is not from there on.
pub has-before :
    (r x : ℕ) (ls rs : List ℕ)
    → IsAscending (ls ++ (x ∷ rs))
    → r < x
    → has r (ls ++ (x ∷ rs)) ≡ has r ls
has-before r x ls rs asc h =
    let above = (IsAscending-right ls (x ∷ rs) asc).0 in
    rw (has-append r ls (x ∷ rs)) (ground (arith, has-above r rs (AllAbove-lt r x rs h above)))

-- ===== src/Prelude/Bits.antt =====
-- The native exclusive or and masks at variables: the libraries have no lemmas on them.
use Prim.Native.Nat.{
  ℕ, zero, suc, ◌+◌, ◌*◌, ◌/◌, ◌%◌, ◌≤◌, ◌<◌, min, bit_and, bit_xor, digits, differ,
  bit_and-bitwise, bit_xor-bitwise,
}
use mathlib.Core.Path.{◌≡◌, refl, sym, ap, ◌∙◌}
use mathlib.Core.Bool.{Bool, true, ◌&&◌}
use native.Mathlib.Omega.{arith}

-- A test of every number below a bound.
abbrev pub all_below : ℕ → (ℕ → Bool) → Bool
all_below zero p = true
all_below (suc n) p = p n && all_below n p

pub all_below-at : (n : ℕ) (p : ℕ → Bool) (x : ℕ) → all_below n p ≡ true → x < n → p x ≡ true
all_below-at zero p x h lt = absurd (omega arith)
all_below-at (suc n) p x h lt = ground (arith, all_below-at n p x)

-- The count of digits to go does not matter where it is enough.
module _ (z : ℕ → ℕ) (f : ℕ → ℕ → ℕ) where
  digits-count : (n m a b : ℕ) → a ≤ n → a ≤ m → digits z f n a b ≡ digits z f m a b
  digits-count zero zero a b p q = refl
  digits-count zero (suc m) zero b p q = refl
  digits-count zero (suc m) (suc a) b p q = absurd (omega arith)
  digits-count (suc n) zero zero b p q = refl
  digits-count (suc n) zero (suc a) b p q = absurd (omega arith)
  digits-count (suc n) (suc m) zero b p q = refl
  digits-count (suc n) (suc m) (suc a) b p q =
      omega (arith, digits-count n m (suc a / 2) (b / 2) (omega arith) (omega arith))

pub zero-bit_xor : (b : ℕ) → bit_xor 0 b ≡ b
zero-bit_xor b = bit_xor-bitwise 0 b

zero-differ : (b : ℕ) → differ 0 b ≡ b
zero-differ b = refl

-- The lowest digit, and the others.
pub bit_xor_step : (a b : ℕ) → bit_xor a b ≡ bit_xor (a / 2) (b / 2) * 2 + differ (a % 2) (b % 2)
bit_xor_step zero b = omega (arith, zero-bit_xor b, zero-bit_xor (b / 2), zero-differ (b % 2))
bit_xor_step (suc a) b = omega (
  arith,
  bit_xor-bitwise (suc a) b,
  bit_xor-bitwise (suc a / 2) (b / 2),
  digits-count (λ b. b) differ a (suc a / 2) (suc a / 2) (b / 2) (omega arith) (omega arith),
)

differ_bit : (x y : ℕ) → x < 2 → y < 2 → differ x y ≡ (x + y) % 2
differ_bit zero zero p q = refl
differ_bit zero (suc zero) p q = refl
differ_bit (suc zero) zero p q = refl
differ_bit (suc zero) (suc zero) p q = refl
differ_bit zero (suc (suc y)) p q = absurd (omega arith)
differ_bit (suc zero) (suc (suc y)) p q = absurd (omega arith)
differ_bit (suc (suc x)) y p q = absurd (omega arith)

xor_sum : (a b : ℕ) → bit_xor a b ≡ bit_xor (a / 2) (b / 2) * 2 + (a + b) % 2
xor_sum a b =
    omega (arith, bit_xor_step a b, differ_bit (a % 2) (b % 2) (omega arith) (omega arith))

pub half-bit_xor : (a b : ℕ) → bit_xor a b / 2 ≡ bit_xor (a / 2) (b / 2)
half-bit_xor a b = omega (arith, xor_sum a b)

pub bit_xor_parity : (a b : ℕ) → bit_xor a b % 2 ≡ (a + b) % 2
bit_xor_parity a b = omega (arith, xor_sum a b)

xor_comm_count : (n a b : ℕ) → a ≤ n → b ≤ n → bit_xor a b ≡ bit_xor b a
xor_comm_count zero zero zero p q = refl
xor_comm_count zero zero (suc b) p q = absurd (omega arith)
xor_comm_count zero (suc a) b p q = absurd (omega arith)
xor_comm_count (suc n) a b p q =
    omega (
      arith,
      xor_sum a b,
      xor_sum b a,
      xor_comm_count n (a / 2) (b / 2) (omega arith) (omega arith),
    )

pub bit_xor_comm : (a b : ℕ) → bit_xor a b ≡ bit_xor b a
bit_xor_comm a b = xor_comm_count (a + b) a b (omega arith) (omega arith)

pub bit_xor-zero : (a : ℕ) → bit_xor a 0 ≡ a
bit_xor-zero a = bit_xor_comm a 0 ∙ zero-bit_xor a

xor_self_count : (n a : ℕ) → a ≤ n → bit_xor a a ≡ 0
xor_self_count zero zero p = refl
xor_self_count zero (suc a) p = absurd (omega arith)
xor_self_count (suc n) a p = omega (arith, xor_sum a a, xor_self_count n (a / 2) (omega arith))

pub bit_xor_self : (a : ℕ) → bit_xor a a ≡ 0
bit_xor_self a = xor_self_count a a (omega arith)

xor_assoc_count :
    (n a b c : ℕ) → a ≤ n → b ≤ n → c ≤ n → bit_xor (bit_xor a b) c ≡ bit_xor a (bit_xor b c)
xor_assoc_count zero zero b c p q r = ap (λ x. bit_xor x c) (zero-bit_xor b) ∙ sym (zero-bit_xor _)
xor_assoc_count zero (suc a) b c p q r = absurd (omega arith)
xor_assoc_count (suc n) a b c p q r = omega (
  arith,
  xor_sum (bit_xor a b) c,
  xor_sum a (bit_xor b c),
  half-bit_xor a b,
  half-bit_xor b c,
  bit_xor_parity a b,
  bit_xor_parity b c,
  ap (λ x. bit_xor x (c / 2)) (half-bit_xor a b),
  ap (bit_xor (a / 2)) (half-bit_xor b c),
  xor_assoc_count n (a / 2) (b / 2) (c / 2) (omega arith) (omega arith) (omega arith),
)

pub bit_xor_assoc : (a b c : ℕ) → bit_xor (bit_xor a b) c ≡ bit_xor a (bit_xor b c)
bit_xor_assoc a b c = xor_assoc_count (a + b + c) a b c (omega arith) (omega arith) (omega arith)

-- The middle two of four change places.
pub bit_xor_swap :
    (a b c d : ℕ) → bit_xor (bit_xor a b) (bit_xor c d) ≡ bit_xor (bit_xor a c) (bit_xor b d)
bit_xor_swap a b c d =
    bit_xor_assoc a b (bit_xor c d)
    ∙ ap (bit_xor a)
        (sym (bit_xor_assoc b c d) ∙ ap (λ x. bit_xor x d) (bit_xor_comm b c) ∙ bit_xor_assoc c b d)
    ∙ sym (bit_xor_assoc a c (bit_xor b d))

pub bit_xor_cancel : (a b c : ℕ) → bit_xor a c ≡ bit_xor b c → a ≡ b
bit_xor_cancel a b c e = sym (twice a) ∙ ap (λ x. bit_xor x c) e ∙ twice b
  where
    twice : (x : ℕ) → bit_xor (bit_xor x c) c ≡ x
    twice x = bit_xor_assoc x c c ∙ ap (bit_xor x) (bit_xor_self c) ∙ bit_xor-zero x

-- A power of two by doubling, for numbers of as many bits.
abbrev pub bits : ℕ → ℕ
bits zero = 1
bits (suc k) = bits k * 2

pub bit_xor-lt : (k a b : ℕ) → a < bits k → b < bits k → bit_xor a b < bits k
bit_xor-lt zero zero b p q = omega (arith, zero-bit_xor b)
bit_xor-lt zero (suc a) b p q = absurd (omega arith)
bit_xor-lt (suc k) a b p q =
    omega (arith, xor_sum a b, bit_xor-lt k (a / 2) (b / 2) (omega arith) (omega arith))

-- A number doubled k times.
abbrev pub doubled : ℕ → ℕ → ℕ
doubled zero m = m
doubled (suc k) m = doubled k m * 2

-- Where the bits do not overlap, the exclusive or is the sum.
pub bit_xor-doubled : (k m r : ℕ) → r < bits k → bit_xor (doubled k m) r ≡ doubled k m + r
bit_xor-doubled zero m zero p = omega (arith, bit_xor-zero m)
bit_xor-doubled zero m (suc r) p = absurd (omega arith)
bit_xor-doubled (suc k) m r p = omega (
  arith,
  xor_sum (doubled k m * 2) r,
  ap (λ x. bit_xor x (r / 2)) (half_double (doubled k m)),
  bit_xor-doubled k m (r / 2) (omega arith),
)
  where
    half_double : (x : ℕ) → x * 2 / 2 ≡ x
    half_double x = omega arith

-- A mask of ones, and the digits that it leaves.
abbrev pub ones : ℕ → ℕ
ones zero = 0
ones (suc k) = ones k * 2 + 1

abbrev low : ℕ → ℕ → ℕ
low zero a = 0
low (suc k) a = low k (a / 2) * 2 + a % 2

bit_and_step : (a b : ℕ) → bit_and a b ≡ bit_and (a / 2) (b / 2) * 2 + min (a % 2) (b % 2)
bit_and_step zero b = omega (arith, bit_and-bitwise 0 b, bit_and-bitwise 0 (b / 2))
bit_and_step (suc a) b = omega (
  arith,
  bit_and-bitwise (suc a) b,
  bit_and-bitwise (suc a / 2) (b / 2),
  digits-count (λ b. zero) min a (suc a / 2) (suc a / 2) (b / 2) (omega arith) (omega arith),
)

bit_and-zero_count : (n a : ℕ) → a ≤ n → bit_and a 0 ≡ 0
bit_and-zero_count n zero p = bit_and-bitwise 0 0
bit_and-zero_count zero (suc a) p = absurd (omega arith)
bit_and-zero_count (suc n) (suc a) p =
    omega (arith, bit_and_step (suc a) 0, bit_and-zero_count n (suc a / 2) (omega arith))

bit_and-low : (k a : ℕ) → bit_and a (ones k) ≡ low k a
bit_and-low zero a = bit_and-zero_count a a (omega arith)
bit_and-low (suc k) a = omega (
  arith,
  bit_and_step a (ones k * 2 + 1),
  ap (bit_and (a / 2)) (half_ones (ones k)),
  bit_and-low k (a / 2),
)
  where
    half_ones : (x : ℕ) → (x * 2 + 1) / 2 ≡ x
    half_ones x = omega arith

low_small : (k a : ℕ) → a < bits k → low k a ≡ a
low_small zero a p = omega arith
low_small (suc k) a p = omega (arith, low_small k (a / 2) (omega arith))

pub bit_and-ones : (k a : ℕ) → a < bits k → bit_and a (ones k) ≡ a
bit_and-ones k a p = bit_and-low k a ∙ low_small k a p

pub bit_and_byte : (a : ℕ) → bit_and a 0xff ≡ a % 256
bit_and_byte a = bit_and-low 8 a ∙ omega arith

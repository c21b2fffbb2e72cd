-- ===== src/Crc32/Bitwise.antt =====
-- The table and the loop against the definition of the checksum: both are linear over the exclusive
-- or.
use Prim.Native.Nat.{bit_and, bit_xor}
use datareel.Prelude.{
  ℕ, zero, suc, ◌*◌, ◌/◌, ◌%◌, ◌^◌, ◌<◌, ◌≡◌, inl, inr, refl, sym, ap, ◌∙◌, Bool, true, false, ◌&&◌,
  Option, none, some, List, [], ◌∷◌, arith, ◌==◌, ne→==, eq→==, Bool-cases, if◌then◌else◌, All,
  all_below, all_below-at, bits, doubled, half-bit_xor, bit_xor_parity, bit_xor-zero, bit_xor_comm,
  bit_xor_swap, bit_xor-lt, bit_xor-doubled, bit_and-ones, bit_and_byte,
}
use datareel.Crc32.{entry, crc32_loop, calc_crc32, make_entry, shift_in, pattern_of}
use datareel.Crc32.Table.{crc32tab}
use datareel.Crc32.Reference.{polynomial, shift, shifts, crc32_bits, crc32}

-- What a step takes off.
taken : ℕ → ℕ
taken c = if c % 2 == 1 then polynomial else 0

shift-taken : (c : ℕ) → shift c ≡ bit_xor (c / 2) (taken c)
unfolding taken shift
shift-taken c = elim (Bool-cases (c % 2 == 1)) [
  | inl odd ↦ rw odd refl
  | inr even ↦ rw even (sym (bit_xor-zero (c / 2)))
]

taken-xor : (a b : ℕ) → taken (bit_xor a b) ≡ bit_xor (taken a) (taken b)
unfolding taken
taken-xor a b = elim (Bool-cases (a % 2 == 1)) [
  | inl odd ↦ elim (Bool-cases (b % 2 == 1)) [
    | inl odd' ↦ rw (odd, odd', ne→== (bit_xor a b % 2) 1 (ground (arith, bit_xor_parity a b))) refl
    | inr even' ↦
        rw (odd, even', eq→== (bit_xor a b % 2) 1 (ground (arith, bit_xor_parity a b))) refl
  ]
  | inr even ↦ elim (Bool-cases (b % 2 == 1)) [
    | inl odd' ↦
        rw (even, odd', eq→== (bit_xor a b % 2) 1 (ground (arith, bit_xor_parity a b))) refl
    | inr even' ↦
        rw (even, even', ne→== (bit_xor a b % 2) 1 (ground (arith, bit_xor_parity a b))) refl
  ]
]

shift-xor : (a b : ℕ) → shift (bit_xor a b) ≡ bit_xor (shift a) (shift b)
shift-xor a b =
    shift-taken (bit_xor a b)
    ∙ ap (λ x. bit_xor x (taken (bit_xor a b))) (half-bit_xor a b)
    ∙ ap (bit_xor (bit_xor (a / 2) (b / 2))) (taken-xor a b)
    ∙ bit_xor_swap (a / 2) (b / 2) (taken a) (taken b)
    ∙ sym (
        ap (λ x. bit_xor x (shift b)) (shift-taken a)
        ∙ ap (bit_xor (bit_xor (a / 2) (taken a))) (shift-taken b))

pub shifts-xor : (n a b : ℕ) → shifts n (bit_xor a b) ≡ bit_xor (shifts n a) (shifts n b)
shifts-xor zero a b = refl
shifts-xor (suc n) a b = ap (shifts n) (shift-xor a b) ∙ shifts-xor n (shift a) (shift b)

taken-lt : (c : ℕ) → taken c < bits 32
unfolding taken
taken-lt c = ground arith

pub shift-lt : (c : ℕ) → c < bits 32 → shift c < bits 32
shift-lt c small =
    omega (arith, shift-taken c, bit_xor-lt 32 (c / 2) (taken c) (omega arith) (taken-lt c))

pub shifts-lt : (n c : ℕ) → c < bits 32 → shifts n c < bits 32
shifts-lt zero c small = small
shifts-lt (suc n) c small = shifts-lt n (shift c) (shift-lt c small)

shift-double : (x : ℕ) → shift (x * 2) ≡ x
unfolding shift
shift-double x = rw (ne→== (x * 2 % 2) 1 (omega arith)) omega arith

pub shifts-doubled : (n m : ℕ) → shifts n (doubled n m) ≡ m
shifts-doubled zero m = refl
shifts-doubled (suc n) m = ap (shifts n) (shift-double (doubled n m)) ∙ shifts-doubled n m

agrees : ℕ → Option ℕ → Bool
agrees i none = false
agrees i (some e) = (e == entry crc32tab i) && (shifts 8 i == entry crc32tab i)

both : (a b c d : ℕ) → ((a == b) && (c == d)) ≡ true → (a ≡ b) × (c ≡ d)
both a b c d h = (ground arith, ground arith)

agrees-entry :
    (i : ℕ) (made : Option ℕ)
    → agrees i made ≡ true
    → (made ≡ some (entry crc32tab i)) × (shifts 8 i ≡ entry crc32tab i)
unfolding agrees
agrees-entry i none h = ground arith
agrees-entry i (some e) h =
    let (same, steps) = both e (entry crc32tab i) (shifts 8 i) (entry crc32tab i) h in
    (ap some same, steps)

table_agrees : all_below 256 (λ i. agrees i (make_entry i)) ≡ true
unfolding agrees shift make_entry shift_in pattern_of
table_agrees = refl

-- The numbers of the table are those that `makeCRC32` computes, each within its rounds, and what
-- eight division steps make of their index.
pub crc32tab-make_entry :
    (i : ℕ) → i < 256 → (make_entry i ≡ some (entry crc32tab i)) × (entry crc32tab i ≡ shifts 8 i)
crc32tab-make_entry i small =
    let (made, steps) =
      agrees-entry i (make_entry i)
        (all_below-at 256 (λ i. agrees i (make_entry i)) i table_agrees small) in
    (made, sym steps)

-- The step of the loop by the table.
abbrev pub table_step : ℕ → ℕ → ℕ
table_step b crc =
    bit_xor (entry crc32tab (bit_and (bit_xor crc b) 0xff)) (bit_and (crc / 2 ^ 8) 0x00ffffff)

eight_steps : (c : ℕ) → c < bits 32 → shifts 8 c ≡ bit_xor (entry crc32tab (c % 256)) (c / 256)
eight_steps c small =
    let split = bit_xor-doubled 8 (c / 256) (c % 256) (omega arith) in
    ap (shifts 8) (omega (arith, split) ∙ refl)
    ∙ shifts-xor 8 (doubled 8 (c / 256)) (c % 256)
    ∙ ap (λ x. bit_xor x (shifts 8 (c % 256))) (shifts-doubled 8 (c / 256))
    ∙ bit_xor_comm (c / 256) (shifts 8 (c % 256))
    ∙ ap (λ x. bit_xor x (c / 256)) (sym (crc32tab-make_entry (c % 256) (omega arith)).1)

halved : ℕ → ℕ → ℕ
halved zero x = x
halved (suc k) x = halved k (x / 2)

halved-xor : (k a b : ℕ) → halved k (bit_xor a b) ≡ bit_xor (halved k a) (halved k b)
unfolding halved
halved-xor zero a b = refl
halved-xor (suc k) a b = ap (halved k) (half-bit_xor a b) ∙ halved-xor k (a / 2) (b / 2)

-- A byte does not change the digits above it.
byte-high : (crc b : ℕ) → b < 256 → bit_xor crc b / 256 ≡ crc / 256
unfolding halved
byte-high crc b byte =
    let no_high : halved 8 b ≡ 0 = omega arith in
    omega
      (arith, halved-xor 8 crc b, ap (bit_xor (halved 8 crc)) no_high, bit_xor-zero (halved 8 crc))

pub table_step-shifts :
    (b crc : ℕ) → b < 256 → crc < bits 32 → table_step b crc ≡ shifts 8 (bit_xor crc b)
table_step-shifts b crc byte small =
    ap (λ i. bit_xor (entry crc32tab i) (bit_and (crc / 256) 0xffffff))
      (bit_and_byte (bit_xor crc b))
    ∙ ap (bit_xor (entry crc32tab (bit_xor crc b % 256)))
        (bit_and-ones 24 (crc / 256) (omega arith) ∙ sym (byte-high crc b byte))
    ∙ sym (eight_steps (bit_xor crc b) (bit_xor-lt 32 crc b small (omega arith)))

abbrev pub IsByte : ℕ → Type 0
IsByte b = b < 256

pub crc32_loop-crc32_bits :
    (bs : List ℕ) (crc : ℕ) → All IsByte bs → crc < bits 32 → crc32_loop bs crc ≡ crc32_bits bs crc
unfolding crc32_loop
crc32_loop-crc32_bits [] crc bytes small = refl
crc32_loop-crc32_bits (b ∷ bs) crc (byte, bytes) small =
    ap (crc32_loop bs) (table_step-shifts b crc byte small)
    ∙ crc32_loop-crc32_bits bs (shifts 8 (bit_xor crc b)) bytes
        (shifts-lt 8 (bit_xor crc b) (bit_xor-lt 32 crc b small (omega arith)))

-- The checksum of bytes that calcCRC32 computes by its table is that of the definition, which
-- divides by the polynomial bit by bit.
pub calc_crc32-crc32 : (bs : List ℕ) → All IsByte bs → calc_crc32 bs ≡ crc32 bs
unfolding calc_crc32
calc_crc32-crc32 bs bytes =
    ap (λ c. bit_xor c 0xffffffff) (crc32_loop-crc32_bits bs 0xffffffff bytes (omega arith))

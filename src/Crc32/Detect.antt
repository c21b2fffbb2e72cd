-- ===== src/Crc32/Detect.antt =====
-- Which changes of a text the checksum tells.
use Prim.Native.Nat.{bit_xor}
use datareel.Prelude.{
  ◌≢◌, ℕ, zero, suc, ◌+◌, ◌*◌, ◌/◌, ◌≤◌, ◌<◌, ◌≡◌, refl, sym, ap, ◌∙◌, List, [], ◌∷◌, ◌++◌, arith,
  length, All, All-append, bit_xor-zero, bits, doubled, bit_xor_self, zero-bit_xor, bit_xor_comm,
  bit_xor_assoc, bit_xor_cancel, bit_xor-lt, bit_xor-doubled,
}
use datareel.Crc32.{calc_crc32}
use datareel.Crc32.Reference.{polynomial, shift, shifts, crc32_bits}
use datareel.Crc32.Bitwise.{
  IsByte, shifts-xor, shift-lt, shifts-lt, shifts-doubled, calc_crc32-crc32,
}

-- The bytes of a word as one number, the first byte lowest.
packed : List ℕ → ℕ
packed [] = 0
packed (b ∷ bs) = bit_xor (doubled 8 (packed bs)) b

left_cancel : (a b : ℕ) → bit_xor a (bit_xor a b) ≡ b
left_cancel a b =
    sym (bit_xor_assoc a a b) ∙ ap (λ x. bit_xor x b) (bit_xor_self a) ∙ zero-bit_xor b

-- The highest digit of what a step makes tells whether a one fell out.
shift-parity : (a b : ℕ) → a < bits 32 → bit_xor (a / 2) polynomial ≡ b / 2 → b < bits 32 → ⊥
shift-parity a b small e small' = omega (
  arith,
  ap (bit_xor (a / 2)) e,
  left_cancel (a / 2) polynomial,
  bit_xor-lt 31 (a / 2) (b / 2) (omega arith) (omega arith),
)

shift-injective : (a b : ℕ) → a < bits 32 → b < bits 32 → shift a ≡ shift b → a ≡ b
unfolding shift
shift-injective a b small small' e =
    ground (arith, shift-parity a b, shift-parity b a, bit_xor_cancel (a / 2) (b / 2) polynomial)

shifts-injective : (n a b : ℕ) → a < bits 32 → b < bits 32 → shifts n a ≡ shifts n b → a ≡ b
shifts-injective zero a b small small' e = e
shifts-injective (suc n) a b small small' e =
    shift-injective a b small small'
      (shifts-injective n (shift a) (shift b) (shift-lt a small) (shift-lt b small') e)

-- The register after as many bytes of zero.
word_shifts : List ℕ → ℕ → ℕ
word_shifts [] c = c
word_shifts (b ∷ bs) c = word_shifts bs (shifts 8 c)

word_shifts-injective :
    (bs bs' : List ℕ) (a b : ℕ)
    → length bs ≡ length bs'
    → a < bits 32
    → b < bits 32
    → word_shifts bs a ≡ word_shifts bs' b
    → a ≡ b
unfolding word_shifts
word_shifts-injective [] [] a b same small small' e = e
word_shifts-injective [] (b' ∷ bs') a b same small small' e = absurd (omega arith)
word_shifts-injective (b' ∷ bs) [] a b same small small' e = absurd (omega arith)
word_shifts-injective (x ∷ bs) (y ∷ bs') a b same small small' e =
    shifts-injective 8 a b small small' (
      word_shifts-injective bs bs' (shifts 8 a) (shifts 8 b) (omega arith) (shifts-lt 8 a small)
        (shifts-lt 8 b small') e)

-- The bytes of a word can go into the register at once.
word : (bs : List ℕ) (c : ℕ) → crc32_bits bs c ≡ word_shifts bs (bit_xor c (packed bs))
unfolding packed word_shifts
word [] c = sym (bit_xor-zero c)
word (b ∷ bs) c =
    word bs (shifts 8 (bit_xor c b))
    ∙ ap (word_shifts bs) (
        ap (bit_xor (shifts 8 (bit_xor c b))) (sym (shifts-doubled 8 (packed bs)))
        ∙ sym (shifts-xor 8 (bit_xor c b) (doubled 8 (packed bs)))
        ∙ ap (shifts 8) (
            bit_xor_assoc c b (doubled 8 (packed bs))
            ∙ ap (bit_xor c) (bit_xor_comm b (doubled 8 (packed bs)))))

packed_sum : (b : ℕ) (bs : List ℕ) → b < 256 → packed (b ∷ bs) ≡ packed bs * 256 + b
unfolding packed
packed_sum b bs byte = omega (arith, bit_xor-doubled 8 (packed bs) b byte)

packed-injective :
    (bs bs' : List ℕ)
    → length bs ≡ length bs'
    → All IsByte bs
    → All IsByte bs'
    → packed bs ≡ packed bs'
    → bs ≡ bs'
packed-injective [] [] same bytes bytes' e = refl
packed-injective [] (b' ∷ bs') same bytes bytes' e = absurd (omega arith)
packed-injective (b ∷ bs) [] same bytes bytes' e = absurd (omega arith)
packed-injective (b ∷ bs) (b' ∷ bs') same (byte, bytes) (byte', bytes') e =
    let first = packed_sum b bs byte in
    let second = packed_sum b' bs' byte' in
    let head : b ≡ b' = omega (arith, first, second) in
    let tail : packed bs ≡ packed bs' = omega (arith, first, second) in
    ap (λ x. x ∷ bs) head
    ∙ ap (λ xs. b' ∷ xs) (packed-injective bs bs' (omega arith) bytes bytes' tail)

bytes_bound : ℕ → ℕ
bytes_bound zero = 1
bytes_bound (suc k) = bytes_bound k * 256

packed-lt : (k : ℕ) (bs : List ℕ) → All IsByte bs → length bs ≤ k → packed bs < bytes_bound k
unfolding packed bytes_bound
packed-lt zero [] bytes short = omega arith
packed-lt (suc k) [] bytes short = omega (arith, packed-lt k [] bytes (omega arith))
packed-lt zero (b ∷ bs) bytes short = absurd (omega arith)
packed-lt (suc k) (b ∷ bs) (byte, bytes) short =
    omega (arith, packed_sum b bs byte, packed-lt k bs bytes (omega arith))

-- A register with different words of up to four bytes never has the same contents.
word-injective :
    (bs bs' : List ℕ) (c : ℕ)
    → c < bits 32
    → length bs ≡ length bs'
    → length bs ≤ 4
    → All IsByte bs
    → All IsByte bs'
    → crc32_bits bs c ≡ crc32_bits bs' c
    → bs ≡ bs'
unfolding bytes_bound
word-injective bs bs' c small same short bytes bytes' e =
    let lt = packed-lt 4 bs bytes short in
    let lt' = packed-lt 4 bs' bytes' (omega arith) in
    let mixed =
      word_shifts-injective bs bs' (bit_xor c (packed bs)) (bit_xor c (packed bs')) same
        (bit_xor-lt 32 c (packed bs) small lt) (bit_xor-lt 32 c (packed bs') small lt')
        (sym (word bs c) ∙ e ∙ word bs' c) in
    packed-injective bs bs' same bytes bytes'
      (sym (left_cancel c (packed bs)) ∙ ap (bit_xor c) mixed ∙ left_cancel c (packed bs'))

crc32_bits-append :
    (bs cs : List ℕ) (c : ℕ) → crc32_bits (bs ++ cs) c ≡ crc32_bits cs (crc32_bits bs c)
crc32_bits-append [] cs c = refl
crc32_bits-append (b ∷ bs) cs c = crc32_bits-append bs cs (shifts 8 (bit_xor c b))

crc32_bits-lt : (bs : List ℕ) (c : ℕ) → All IsByte bs → c < bits 32 → crc32_bits bs c < bits 32
crc32_bits-lt [] c bytes small = small
crc32_bits-lt (b ∷ bs) c (byte, bytes) small =
    crc32_bits-lt bs (shifts 8 (bit_xor c b)) bytes
      (shifts-lt 8 _ (bit_xor-lt 32 c b small (omega arith)))

crc32_bits-injective :
    (bs : List ℕ) (a b : ℕ)
    → All IsByte bs
    → a < bits 32
    → b < bits 32
    → crc32_bits bs a ≡ crc32_bits bs b
    → a ≡ b
crc32_bits-injective [] a b bytes small small' e = e
crc32_bits-injective (x ∷ bs) a b (byte, bytes) small small' e =
    let lt = bit_xor-lt 32 a x small (omega arith) in
    let lt' = bit_xor-lt 32 b x small' (omega arith) in
    bit_xor_cancel a b x (
      shifts-injective 8 _ _ lt lt'
        (crc32_bits-injective bs _ _ bytes (shifts-lt 8 _ lt) (shifts-lt 8 _ lt') e))

same_word :
    (before bs bs' after : List ℕ)
    → All IsByte before
    → All IsByte bs
    → All IsByte bs'
    → All IsByte after
    → length bs ≡ length bs'
    → length bs ≤ 4
    → calc_crc32 (before ++ (bs ++ after)) ≡ calc_crc32 (before ++ (bs' ++ after))
    → bs ≡ bs'
same_word before bs bs' after bytes_before bytes bytes' bytes_after same short e =
    let start = crc32_bits-lt before 0xffffffff bytes_before (omega arith) in
    let reg = crc32_bits before 0xffffffff in
    let split : (w : List ℕ)
        → All IsByte w
        → calc_crc32 (before ++ (w ++ after))
          ≡ bit_xor (crc32_bits after (crc32_bits w reg)) 0xffffffff =
      λ w all.
        calc_crc32-crc32 _ (
          All-append IsByte before (w ++ after) bytes_before
            (All-append IsByte w after all bytes_after))
        ∙ ap (λ c. bit_xor c 0xffffffff)
            (crc32_bits-append before (w ++ after) 0xffffffff ∙ crc32_bits-append w after reg) in
    word-injective bs bs' reg start same short bytes bytes' (
      crc32_bits-injective after _ _ bytes_after (crc32_bits-lt bs reg bytes start)
        (crc32_bits-lt bs' reg bytes' start)
        (bit_xor_cancel _ _ 0xffffffff (sym (split bs bytes) ∙ e ∙ split bs' bytes')))

-- Texts of bytes that differ only in up to four bytes in a row have different checksums.
pub calc_crc32-burst :
    (before bs bs' after : List ℕ)
    → All IsByte before
    → All IsByte bs
    → All IsByte bs'
    → All IsByte after
    → length bs ≡ length bs'
    → length bs ≤ 4
    → bs ≢ bs'
    → calc_crc32 (before ++ (bs ++ after)) ≢ calc_crc32 (before ++ (bs' ++ after))
calc_crc32-burst before bs bs' after bytes_before bytes bytes' bytes_after same short differ e =
    differ (same_word before bs bs' after bytes_before bytes bytes' bytes_after same short e)

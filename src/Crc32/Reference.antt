-- ===== src/Crc32/Reference.antt =====
-- The cyclic redundancy check by its definition: a register that each bit is shifted into.
use Prim.Native.Nat.{bit_xor}
use datareel.Prelude.{ℕ, zero, suc, ◌/◌, ◌%◌, ◌==◌, if◌then◌else◌, List, [], ◌∷◌}

-- x^32 + x^26 + x^23 + x^22 + x^16 + x^12 + x^11 + x^10 + x^8 + x^7 + x^5 + x^4 + x^2 + x + 1,
-- with the coefficient of x^31 in the lowest bit
abbrev pub polynomial : ℕ
polynomial = 0xedb88320

-- One division step: the register is shifted, and the polynomial is taken off where a one falls out.
unfoldable pub shift : ℕ → ℕ
shift c = if c % 2 == 1 then bit_xor (c / 2) polynomial else c / 2

abbrev pub shifts : ℕ → ℕ → ℕ
shifts zero c = c
shifts (suc n) c = shifts n (shift c)

abbrev pub crc32_bits : List ℕ → ℕ → ℕ
crc32_bits [] c = c
crc32_bits (b ∷ bs) c = crc32_bits bs (shifts 8 (bit_xor c b))

-- The checksum of a sequence of bytes.
abbrev pub crc32 : List ℕ → ℕ
crc32 bs = bit_xor (crc32_bits bs 0xffffffff) 0xffffffff

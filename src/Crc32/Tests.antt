-- ===== src/Crc32/Tests.antt =====
-- Runs of the checksums.
use Prim.Native.Nat.{bit_xor}
use datareel.Prelude.{◌≡◌, refl, true, false, some, List, [], ◌∷◌, ◌++◌, arith}
use datareel.Prelude.{ℕ, ap, ◌≢◌, All}
use datareel.Crc32.Bitwise.{IsByte}
use datareel.Crc32.{entry, calc_crc32, calc_crc32_stream, crc32_loop, make_entry}
use datareel.Crc32.Reference.{crc32, shifts}
use datareel.Crc32.Table.{crc32tab}
use datareel.Crc32.Bitwise.{calc_crc32-crc32, crc32tab-make_entry}
use datareel.Crc32.Detect.{calc_crc32-burst}
use datareel.Crc32.Stream.{byte_by_byte, calc_crc32_stream-calc_crc32, calc_crc32_byte-calc_crc32}

-- "123456789"
abbrev digits : List ℕ
digits = 49 ∷ 50 ∷ 51 ∷ 52 ∷ 53 ∷ 54 ∷ 55 ∷ 56 ∷ 57 ∷ []

calc_crc32-digits : calc_crc32 digits ≡ 0xcbf43926
unfolding calc_crc32 crc32_loop
calc_crc32-digits = refl

digits-IsByte : All IsByte digits
digits-IsByte = (
  omega arith,
  (
    omega arith,
    (
      omega arith,
      (omega arith, (omega arith, (omega arith, (omega arith, (omega arith, (omega arith, tt)))))),
    ),
  ),
)

abbrev short : List ℕ
short = 49 ∷ 200 ∷ []

short-IsByte : All IsByte short
short-IsByte = (omega arith, (omega arith, tt))

other-IsByte : All IsByte (49 ∷ 201 ∷ [])
other-IsByte = (omega arith, (omega arith, tt))

abbrev last : List ℕ → ℕ
last [] = 0
last (b ∷ []) = b
last (b ∷ c ∷ bs) = last (c ∷ bs)

calc_crc32-crc32_example : calc_crc32 short ≡ crc32 short
calc_crc32-crc32_example = calc_crc32-crc32 short short-IsByte

crc32tab-make_entry_example :
    (make_entry 200 ≡ some (entry crc32tab 200)) × (entry crc32tab 200 ≡ shifts 8 200)
crc32tab-make_entry_example = crc32tab-make_entry 200 (omega arith)

abbrev other : List ℕ
other = 49 ∷ 201 ∷ []

calc_crc32-burst_example :
    calc_crc32 (digits ++ (short ++ digits)) ≢ calc_crc32 (digits ++ (other ++ digits))
calc_crc32-burst_example =
    calc_crc32-burst digits short other digits digits-IsByte short-IsByte other-IsByte digits-IsByte
      refl (omega arith) (λ e. absurd (omega (arith, ap last e)))

calc_crc32_stream-calc_crc32_example :
    calc_crc32_stream 1 (record { contents = digits; is_good = true; breaks = false })
    ≡ some (calc_crc32 digits)
calc_crc32_stream-calc_crc32_example =
    calc_crc32_stream-calc_crc32 1 (record { contents = digits; is_good = true; breaks = false })
      (omega arith)

calc_crc32_byte-calc_crc32_example :
    bit_xor (byte_by_byte short 0xffffffff) 0xffffffff ≡ calc_crc32 short
calc_crc32_byte-calc_crc32_example = calc_crc32_byte-calc_crc32 short short-IsByte

-- ===== src/Crc32.antt =====
-- The checksums of src/gxcrc32.cpp and the table of include/gxcrctab.h. Bytes are their numbers: of
-- a char that is negative only the low byte counts. The register is below 2^32, in a long of at
-- least 32 bits.
mod Table
mod Reference
pub mod Bitwise
pub mod Detect
pub mod Stream
mod Tests
use Prim.Native.Nat.{bit_and, bit_or, bit_xor}
use datareel.Prelude.{
  ℕ, zero, suc, ◌+◌, ◌-◌, ◌/◌, ◌%◌, ◌*◌, ◌^◌, Bool, true, not, Option, none, some, List, [], ◌∷◌,
  ◌++◌, length, take, drop, ltb, ◌==◌, if◌then◌else◌,
}
use datareel.Crc32.Table.{crc32tab}

-- A number of the table; the indices of the code are below 256, the length of the table.
abbrev pub entry : List ℕ → ℕ → ℕ
entry [] i = 0
entry (x ∷ xs) zero = x
entry (x ∷ xs) (suc i) = entry xs i

-- The checksum of one byte more: `calcCRC32(unsigned char c, unsigned long CRC)`
unfoldable pub calc_crc32_byte : ℕ → ℕ → ℕ
calc_crc32_byte c crc =
    let i = bit_and c 0xff in
    bit_xor (entry crc32tab (bit_and (bit_xor crc i) 0xff)) (bit_and (crc / 2 ^ 8) 0x00ffffff)

-- The loop of `calcCRC32(const char *buf, unsigned len)`
unfoldable pub crc32_loop : List ℕ → ℕ → ℕ
crc32_loop [] crc = crc
crc32_loop (b ∷ buf) crc =
    crc32_loop buf
      (bit_xor (entry crc32tab (bit_and (bit_xor crc b) 0xff)) (bit_and (crc / 2 ^ 8) 0x00ffffff))

-- `calcCRC32(const char *buf, unsigned len)`
unfoldable pub calc_crc32 : List ℕ → ℕ
calc_crc32 buf = bit_xor (crc32_loop buf 0xffffffff) 0xffffffff

-- A stream as `calcCRC32` uses it: what is left of it, and whether it can be read.
pub record Istream : Type 0 where
  pub contents : List ℕ
  pub is_good : Bool
  -- reading breaks off after the contents with an error of the device
  pub breaks : Bool

-- The loop on the stream: `read` takes up to 4096 bytes, and ends the loop where it takes fewer.
unfoldable pub crc32_chunks : ℕ → List ℕ → ℕ → Option ℕ
crc32_chunks zero contents crc = none
crc32_chunks (suc rounds) contents crc =
    let buf = take 4096 contents in
    let next = crc32_loop buf crc in
    let rest = crc32_chunks rounds (drop 4096 contents) next in
    if ltb (length buf) 4096 then some next else rest

-- `calcCRC32(std::istream &infile)`
unfoldable pub calc_crc32_stream : ℕ → Istream → Option ℕ
calc_crc32_stream rounds infile =
    if not infile.is_good then some 0 else elim (crc32_chunks rounds infile.contents 0xffffffff) [
      | none ↦ none
      | some crc ↦ if infile.breaks then some 0 else some (bit_xor crc 0xffffffff)
    ]

-- `makeCRC32`: the pattern of the polynomial
abbrev pub terms : List ℕ
terms = 0 ∷ 1 ∷ 2 ∷ 4 ∷ 5 ∷ 7 ∷ 8 ∷ 10 ∷ 11 ∷ 12 ∷ 16 ∷ 22 ∷ 23 ∷ 26 ∷ []

unfoldable pub pattern_of : List ℕ → ℕ → ℕ
pattern_of [] e = e
pattern_of (p ∷ ps) e = pattern_of ps (bit_or e (2 ^ (31 - p)))

-- The loop on the bits of `k`, until it is 1.
unfoldable pub shift_in : ℕ → ℕ → ℕ → ℕ → Option ℕ
shift_in zero e k c = none
shift_in (suc rounds) e k c =
    let shifted = if bit_and c 1 == 1 then bit_xor (c / 2) e else c / 2 in
    let next = if bit_and k 1 == 1 then bit_xor shifted e else shifted in
    let rest = shift_in rounds e (k / 2) next in if k == 1 then some c else rest

-- The number that `makeCRC32` writes for `i`.
unfoldable pub make_entry : ℕ → Option ℕ
make_entry i = if i == 0 then some 0 else shift_in 9 (pattern_of terms 0) (bit_or i 256) 0

-- ===== src/Crc32/Stream.antt =====
-- The checksum of a stream and the checksum byte by byte, against that of a buffer.
use datareel.Prelude.{
  ℕ, zero, suc, ◌*◌, ◌≤◌, ◌<◌, ◌≡◌, refl, sym, ap, ◌∙◌, inl, inr, some, List, [], ◌∷◌, ◌++◌, arith,
  ltb, Bool-cases, length, take, drop, length-take, length-drop, take-append-drop, All, not,
  if◌then◌else◌, ltb→lt, ltb→le,
}
use Prim.Native.Nat.{bit_xor}
use datareel.Crc32.{
  calc_crc32, crc32_loop, calc_crc32_byte, Istream, crc32_chunks, calc_crc32_stream,
}
use datareel.Crc32.Bitwise.{IsByte}
use datareel.Prelude.{bit_and-ones, ◌&&◌}

crc32_loop-append :
    (bs cs : List ℕ) (c : ℕ) → crc32_loop (bs ++ cs) c ≡ crc32_loop cs (crc32_loop bs c)
unfolding crc32_loop
crc32_loop-append [] cs c = refl
crc32_loop-append (b ∷ bs) cs c = crc32_loop-append bs cs _

take_all : (n : ℕ) (bs : List ℕ) → length bs ≤ n → take n bs ≡ bs
take_all zero [] short = refl
take_all zero (b ∷ bs) short = absurd (omega arith)
take_all (suc n) [] short = refl
take_all (suc n) (b ∷ bs) short = ap (λ xs. b ∷ xs) (take_all n bs (omega arith))

crc32_chunks-crc32_loop :
    (rounds : ℕ) (bs : List ℕ) (c : ℕ)
    → length bs < rounds * 4096
    → crc32_chunks rounds bs c ≡ some (crc32_loop bs c)
unfolding crc32_chunks
crc32_chunks-crc32_loop zero bs c enough = absurd (omega arith)
crc32_chunks-crc32_loop (suc rounds) bs c enough =
    let taken = length-take 4096 bs in
    elim (Bool-cases (ltb (length (take 4096 bs)) 4096)) [
      | inl last ↦
          let short = ltb→lt (length (take 4096 bs)) 4096 last in
          rw last
            (ap (λ xs. some (crc32_loop xs c)) (take_all 4096 bs (omega (arith, taken, short))))
      | inr full ↦
          let long = ltb→le (length (take 4096 bs)) 4096 full in
          rw full (
            crc32_chunks-crc32_loop rounds (drop 4096 bs) (crc32_loop (take 4096 bs) c)
              (omega (arith, taken, long, length-drop 4096 bs))
            ∙ ap some (
                sym (crc32_loop-append (take 4096 bs) (drop 4096 bs) c)
                ∙ ap (λ xs. crc32_loop xs c) (take-append-drop 4096 bs)))
    ]

-- calcCRC32 of a stream ends within one round for each 4096 bytes and one more, with the checksum of
-- the whole contents, and with 0 where the stream cannot be read or breaks off.
pub calc_crc32_stream-calc_crc32 :
    (rounds : ℕ) (infile : Istream)
    → length infile.contents < rounds * 4096
    → calc_crc32_stream rounds infile
      ≡ some (if infile.is_good && not infile.breaks then calc_crc32 infile.contents else 0)
unfolding calc_crc32_stream calc_crc32
calc_crc32_stream-calc_crc32 rounds infile enough =
    let chunks = crc32_chunks-crc32_loop rounds infile.contents 0xffffffff enough in
    elim (Bool-cases infile.is_good) [
      | inr bad ↦ rw bad refl
      | inl good ↦ elim (Bool-cases infile.breaks) [
        | inl broken ↦ rw (good, chunks, broken) refl
        | inr whole ↦ rw (good, chunks, whole) refl
      ]
    ]

-- The register after each byte in turn.
abbrev pub byte_by_byte : List ℕ → ℕ → ℕ
byte_by_byte [] crc = crc
byte_by_byte (b ∷ bs) crc = byte_by_byte bs (calc_crc32_byte b crc)

byte_by_byte-crc32_loop :
    (bs : List ℕ) (crc : ℕ) → All IsByte bs → byte_by_byte bs crc ≡ crc32_loop bs crc
unfolding calc_crc32_byte crc32_loop
byte_by_byte-crc32_loop [] crc bytes = refl
byte_by_byte-crc32_loop (b ∷ bs) crc (byte, bytes) =
    rw (bit_and-ones 8 b (omega arith)) (byte_by_byte-crc32_loop bs _ bytes)

-- calcCRC32 of a character and a register, for each byte in turn, from 0xffffffff and with the last
-- register complemented as its comment asks, gives the checksum of the buffer.
pub calc_crc32_byte-calc_crc32 :
    (bs : List ℕ) → All IsByte bs → bit_xor (byte_by_byte bs 0xffffffff) 0xffffffff ≡ calc_crc32 bs
unfolding calc_crc32
calc_crc32_byte-calc_crc32 bs bytes =
    ap (λ c. bit_xor c 0xffffffff) (byte_by_byte-crc32_loop bs 0xffffffff bytes)

-- ===== src/Base64/RoundTrip.antt =====
-- Decoding gives back what was encoded.
use datareel.Prelude.{
  length, ◌≤◌, ℕ, ◌+◌, ◌-◌, ◌*◌, ◌/◌, ◌%◌, ◌^◌, ◌≡◌, ◌<◌, refl, ◌∙◌, true, false, some, List, [],
  ◌∷◌, ◌++◌, All, arith, leb, ◌==◌, if◌then◌else◌,
}
use datareel.Base64.{
  base64_char, base64_encode, base64_value, Decoder, is_space, decode_char, decode_from,
  base64_decode,
}

-- A character of the alphabet has its value, and is neither space nor padding.
base64_value-base64_char :
    (d : ℕ)
    → d < 64
    → (base64_value (base64_char d) ≡ some d)
      × (is_space (base64_char d) ≡ false)
      × ((base64_char d == b'=') ≡ false)
unfolding base64_char base64_value is_space
base64_value-base64_char d h = (ground arith, ground arith, ground arith)

push_mod :
    (w d : ℕ)
    → d < 64
    → ((w * 64 % 2 ^ 32 + d) % 4096 ≡ w % 64 * 64 + d)
      × ((w * 64 % 2 ^ 32 + d) % 1024 ≡ w % 16 * 64 + d)
      × ((w * 64 % 2 ^ 32 + d) % 256 ≡ w % 4 * 64 + d)
      × ((w * 64 % 2 ^ 32 + d) % 64 ≡ d)
push_mod w d h = (omega arith, omega arith, omega arith, omega arith)

abbrev push : ℕ → ℕ → ℕ
push v d = v * 64 % 2 ^ 32 + d

abbrev ready : ℕ → ℕ → Decoder
ready v bits = record { v = v; bits = bits; pad = 0 }

decode_char-digit :
    (c d v bits : ℕ)
    → base64_value c ≡ some d
    → is_space c ≡ false
    → (c == b'=') ≡ false
    → decode_char c (ready v bits) ≡ (
        if leb 8 (bits + 6)
        then some (ready (push v d) (bits + 6 - 8), push v d / 2 ^ (bits + 6 - 8) % 256 ∷ [])
        else some (ready (push v d) (bits + 6), []))
unfolding decode_char
decode_char-digit c d v bits value no_space no_pad = rw (no_space, no_pad, value) refl

decode_from-some :
    (c : ℕ) (s : List ℕ) (st next : Decoder) (bytes : List ℕ)
    → decode_char c st ≡ some (next, bytes)
    → decode_from (c ∷ s) st ≡ ((decode_from s next).0, bytes ++ (decode_from s next).1)
unfolding decode_from
decode_from-some c s st next bytes e = rw (e, decode_from) refl

-- A digit that completes no byte, and one that does.
decode_from-digit :
    (d v bits : ℕ) (s : List ℕ)
    → d < 64
    → (bits < 2
        → decode_from (base64_char d ∷ s) (ready v bits)
          ≡ decode_from s (ready (push v d) (bits + 6)))
      × (2 ≤ bits
          → decode_from (base64_char d ∷ s) (ready v bits) ≡ (
            (decode_from s (ready (push v d) (bits - 2))).0,
            (push v d / 2 ^ (bits - 2) % 256) ∷ (decode_from s (ready (push v d) (bits - 2))).1,
          ))
decode_from-digit d v bits s h =
    let (value, no_space, no_pad) = base64_value-base64_char d h in
    let char = decode_char-digit (base64_char d) d v bits value no_space no_pad in
    (
      λ few.
          let low : leb 8 (bits + 6) ≡ false = ground arith in
          decode_from-some (base64_char d) s (ready v bits) (ready (push v d) (bits + 6)) []
            (char ∙ rw low refl),
      λ many.
          let high : leb 8 (bits + 6) ≡ true = ground arith in
          let less_two : bits + 6 - 8 ≡ bits - 2 = omega arith in
          decode_from-some (base64_char d) s (ready v bits) (ready (push v d) (bits - 2))
            (push v d / 2 ^ (bits - 2) % 256 ∷ []) (char ∙ rw (high, less_two) refl),
    )

-- Four digits are three bytes.
decode_from-group :
    (v d1 d2 d3 d4 : ℕ) (s : List ℕ)
    → d1 < 64
    → d2 < 64
    → d3 < 64
    → d4 < 64
    → (w : ℕ) × (decode_from
          (base64_char d1 ∷ base64_char d2 ∷ base64_char d3 ∷ base64_char d4 ∷ s)
          (ready v 0)
        ≡ (
          (decode_from s (ready w 0)).0,
          (d1 * 4 + d2 / 16)
              ∷ (d2 % 16 * 16 + d3 / 4)
              ∷ (d3 % 4 * 64 + d4)
              ∷ (decode_from s (ready w 0)).1,
        ))
decode_from-group v d1 d2 d3 d4 s h1 h2 h3 h4 =
    let v1 = push v d1 in
    let v2 = push v1 d2 in
    let v3 = push v2 d3 in
    let v4 = push v3 d4 in
    let byte1 : v2 / 2 ^ 4 % 256 ≡ d1 * 4 + d2 / 16 =
      omega (arith, (push_mod v1 d2 h2).0, (push_mod v d1 h1).3) in
    let byte2 : v3 / 2 ^ 2 % 256 ≡ d2 % 16 * 16 + d3 / 4 =
      omega (arith, (push_mod v2 d3 h3).1, (push_mod v1 d2 h2).3) in
    let byte3 : v4 / 2 ^ 0 % 256 ≡ d3 % 4 * 64 + d4 =
      omega (arith, (push_mod v3 d4 h4).2, (push_mod v2 d3 h3).3) in
    let c2 = base64_char d2 in
    let c3 = base64_char d3 in
    let c4 = base64_char d4 in
    let step1 = (decode_from-digit d1 v 0 (c2 ∷ c3 ∷ c4 ∷ s) h1).0 (omega arith) in
    let step2 = (decode_from-digit d2 v1 6 (c3 ∷ c4 ∷ s) h2).1 (omega arith) in
    let step3 = (decode_from-digit d3 v2 4 (c4 ∷ s) h3).1 (omega arith) in
    let step4 = (decode_from-digit d4 v3 2 s h4).1 (omega arith) in
    (v4, rw (step1, step2, step3, step4, byte1, byte2, byte3) refl)

-- Padding ends the text.
decode_from-pad :
    (v bits : ℕ)
    → (decode_from (b'=' ∷ []) (ready v bits) ≡ (true, []))
      × (decode_from (b'=' ∷ b'=' ∷ []) (ready v bits) ≡ (true, []))
unfolding decode_from decode_char is_space
decode_from-pad v bits = (refl, refl)

-- The digits of three bytes.
digits :
    (a b c : ℕ)
    → a < 256
    → b < 256
    → c < 256
    → let v = a * 2 ^ 16 + b * 2 ^ 8 + c in
      (v / 2 ^ 18 % 64 ≡ a / 4)
      × (v / 2 ^ 12 % 64 ≡ a % 4 * 16 + b / 16)
      × (v / 2 ^ 6 % 64 ≡ b % 16 * 4 + c / 64)
      × (v / 2 ^ 0 % 64 ≡ c % 64)
digits a b c ha hb hc = (omega arith, omega arith, omega arith, omega arith)

abbrev pub IsByte : ℕ → Type 0
IsByte b = b < 256

decode_from-nil : (v : ℕ) → decode_from [] (ready v 0) ≡ (true, [])
unfolding decode_from
decode_from-nil v = refl

decode_from-base64_encode :
    (bytes : List ℕ) (v : ℕ)
    → All IsByte bytes
    → decode_from (base64_encode bytes) (ready v 0) ≡ (true, bytes)
unfolding base64_encode
decode_from-base64_encode [] v h = decode_from-nil v
decode_from-base64_encode (a ∷ []) v h =
    let n = a * 2 ^ 16 in
    let (e1, e2, _, _) = digits a 0 0 h.0 (omega arith) (omega arith) in
    let d1 = n / 2 ^ 18 % 64 in
    let d2 = n / 2 ^ 12 % 64 in
    let v1 = push v d1 in
    let step1 =
      (decode_from-digit d1 v 0 (base64_char d2 ∷ b'=' ∷ b'=' ∷ []) (omega arith)).0
        (omega arith) in
    let step2 = (decode_from-digit d2 v1 6 (b'=' ∷ b'=' ∷ []) (omega arith)).1 (omega arith) in
    let byte1 : push v1 d2 / 2 ^ 4 % 256 ≡ a =
      omega (arith, (push_mod v1 d2 (omega arith)).0, (push_mod v d1 (omega arith)).3) in
    rw (step1, step2, byte1, (decode_from-pad (push v1 d2) 4).1) refl
decode_from-base64_encode (a ∷ b ∷ []) v h =
    let n = a * 2 ^ 16 + b * 2 ^ 8 in
    let (ha, (hb, _)) = h in
    let d1 = n / 2 ^ 18 % 64 in
    let d2 = n / 2 ^ 12 % 64 in
    let d3 = n / 2 ^ 6 % 64 in
    let v1 = push v d1 in
    let v2 = push v1 d2 in
    let step1 =
      (decode_from-digit d1 v 0 (base64_char d2 ∷ base64_char d3 ∷ b'=' ∷ []) (omega arith)).0
        (omega arith) in
    let step2 =
      (decode_from-digit d2 v1 6 (base64_char d3 ∷ b'=' ∷ []) (omega arith)).1 (omega arith) in
    let step3 = (decode_from-digit d3 v2 4 (b'=' ∷ []) (omega arith)).1 (omega arith) in
    let byte1 : v2 / 2 ^ 4 % 256 ≡ a =
      omega (arith, (push_mod v1 d2 (omega arith)).0, (push_mod v d1 (omega arith)).3) in
    let byte2 : push v2 d3 / 2 ^ 2 % 256 ≡ b =
      omega (arith, (push_mod v2 d3 (omega arith)).1, (push_mod v1 d2 (omega arith)).3) in
    rw (step1, step2, step3, byte1, byte2, (decode_from-pad (push v2 d3) 2).0) refl
decode_from-base64_encode (a ∷ b ∷ c ∷ rest) v h =
    let n = a * 2 ^ 16 + b * 2 ^ 8 + c in
    let (ha, (hb, (hc, others))) = h in
    let (e1, e2, e3, e4) = digits a b c ha hb hc in
    let (w, group) =
      decode_from-group v (n / 2 ^ 18 % 64) (n / 2 ^ 12 % 64) (n / 2 ^ 6 % 64) (n / 2 ^ 0 % 64)
        (base64_encode rest) (omega arith) (omega arith) (omega arith) (omega arith) in
    let byte1 : n / 2 ^ 18 % 64 * 4 + n / 2 ^ 12 % 64 / 16 ≡ a = omega arith in
    let byte2 : n / 2 ^ 12 % 64 % 16 * 16 + n / 2 ^ 6 % 64 / 4 ≡ b = omega arith in
    let byte3 : n / 2 ^ 6 % 64 % 4 * 64 + n / 2 ^ 0 % 64 ≡ c = omega arith in
    rw (group, byte1, byte2, byte3, decode_from-base64_encode rest w others) refl

-- `gxsBase64Decode` of what `gxsBase64Encode` makes of any bytes succeeds and gives the bytes.
pub base64_decode-base64_encode :
    (bytes : List ℕ) → All IsByte bytes → base64_decode (base64_encode bytes) ≡ (true, bytes)
unfolding base64_decode
base64_decode-base64_encode bytes h = decode_from-base64_encode bytes 0 h

-- An encoded text has four characters for each three bytes that are begun.
pub length-base64_encode :
    (bytes : List ℕ) → length (base64_encode bytes) ≡ (length bytes + 2) / 3 * 4
unfolding base64_encode
length-base64_encode [] = refl
length-base64_encode (a ∷ []) = refl
length-base64_encode (a ∷ b ∷ []) = refl
length-base64_encode (a ∷ b ∷ c ∷ rest) = omega (arith, length-base64_encode rest)

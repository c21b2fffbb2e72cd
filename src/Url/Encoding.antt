-- ===== src/Url/Encoding.antt =====
-- `Encode` and `Decode` of src/gxsurl.cpp: there and back, and what an encoded text is made of.
use datareel.Prelude.{
  ℕ, ◌+◌, ◌*◌, ◌/◌, ◌%◌, ◌<◌, ◌≡◌, ◌≢◌, refl, ap, ◌∙◌, true, false, some, List, [], ◌∷◌, All, arith,
  ◌==◌, ◌||◌, Bool-cases, inl, inr, ne→==,
}
use datareel.Url.{is_unreserved, hex_digit, hexval, encode, decode}

hexval-hex_digit : (d : ℕ) → d < 16 → hexval (hex_digit d) ≡ some d
unfolding hexval
hexval-hex_digit d h = ground arith

-- One character that is not part of a hexadecimal pair.
decode_plain : (c : ℕ) (s : List ℕ) → c ≢ b'%' → decode false (c ∷ s) ≡ c ∷ decode false s
unfolding decode
decode_plain c [] h = refl
decode_plain c (d ∷ []) h = refl
decode_plain c (d ∷ (e ∷ s)) h = rw (ne→== c b'%' h) refl

-- A pair of hexadecimal digits after a percent sign.
decode_pair :
    (c : ℕ) (s : List ℕ)
    → c < 256
    → decode false (b'%' ∷ hex_digit (c / 16) ∷ hex_digit (c % 16) ∷ s) ≡ c ∷ decode false s
unfolding decode
decode_pair c s h =
    let whole : c / 16 * 16 + c % 16 ≡ c = omega arith in
    rw (hexval-hex_digit (c / 16) (omega arith), hexval-hex_digit (c % 16) (omega arith))
      (ap (λ x. x ∷ decode false s) whole)

-- Decode of an encoded text of bytes, without plus signs for spaces, gives the text.
pub decode-encode : (s : List ℕ) → All (λ c. c < 256) s → decode false (encode s) ≡ s
unfolding encode decode
decode-encode [] h = refl
decode-encode (c ∷ s) h = elim (Bool-cases (is_unreserved c)) [
  | inl free ↦
      let plain : c ≢ b'%' = λ e. absurd (ground arith) in
      rw free (decode_plain c (encode s) plain ∙ ap (λ r. c ∷ r) (decode-encode s h.1))
  | inr coded ↦ rw coded (decode_pair c (encode s) h.0 ∙ ap (λ r. c ∷ r) (decode-encode s h.1))
]

-- The characters of an encoded text.
abbrev pub IsCoded : ℕ → Type 0
IsCoded c = (is_unreserved c || (c == b'%')) ≡ true

hex_digit-IsCoded : (d : ℕ) → d < 16 → IsCoded (hex_digit d)
hex_digit-IsCoded d h = ground arith

pub encode-IsCoded : (s : List ℕ) → All (λ c. c < 256) s → All IsCoded (encode s)
unfolding encode
encode-IsCoded [] h = tt
encode-IsCoded (c ∷ s) h = elim (Bool-cases (is_unreserved c)) [
  | inl free ↦ rw free (rw free refl, encode-IsCoded s h.1)
  | inr coded ↦ rw coded (
    refl,
    (
      hex_digit-IsCoded (c / 16) (omega (arith, h.0)),
      (hex_digit-IsCoded (c % 16) (omega arith), encode-IsCoded s h.1),
    ),
  )
]

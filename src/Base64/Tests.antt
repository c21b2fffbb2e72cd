-- ===== src/Base64/Tests.antt =====
-- Runs of the base 64 functions.
use datareel.Base64.RoundTrip.{base64_decode-base64_encode, length-base64_encode}
use datareel.Base64.Authentication.{basic_authentication_decode-basic_authentication_encode}
use datareel.Base64.{basic_authentication_decode, basic_authentication_encode}
use datareel.Prelude.{length, ◌≡◌, refl, true, [], ◌∷◌, arith}
use datareel.Base64.{is_space, base64_encode, base64_decode, base64_char, base64_value, decode_char}

-- "Man" and "Ma"
base64_encode-man : base64_encode (77 ∷ 97 ∷ 110 ∷ []) ≡ b'T' ∷ b'W' ∷ b'F' ∷ b'u' ∷ []
unfolding base64_encode base64_char
base64_encode-man = refl

base64_encode-ma : base64_encode (77 ∷ 97 ∷ []) ≡ b'T' ∷ b'W' ∷ b'E' ∷ b'=' ∷ []
unfolding base64_encode base64_char
base64_encode-ma = refl

base64_decode-man :
    base64_decode (b'T' ∷ b'W' ∷ b' ' ∷ b'F' ∷ b'u' ∷ []) ≡ (true, 77 ∷ 97 ∷ 110 ∷ [])
unfolding base64_decode decode_char base64_value is_space
base64_decode-man = refl

base64_decode-base64_encode_example :
    base64_decode (base64_encode (77 ∷ 97 ∷ 110 ∷ 255 ∷ [])) ≡ (true, 77 ∷ 97 ∷ 110 ∷ 255 ∷ [])
base64_decode-base64_encode_example =
    base64_decode-base64_encode (77 ∷ 97 ∷ 110 ∷ 255 ∷ [])
      (omega arith, (omega arith, (omega arith, (omega arith, tt))))

length-base64_encode_example : length (base64_encode (77 ∷ 97 ∷ 110 ∷ 255 ∷ [])) ≡ 8
length-base64_encode_example = length-base64_encode (77 ∷ 97 ∷ 110 ∷ 255 ∷ [])

-- "me" and "pw:1"
basic_authentication_decode-basic_authentication_encode_example :
    basic_authentication_decode
      (basic_authentication_encode (109 ∷ 101 ∷ []) (112 ∷ 119 ∷ b':' ∷ 49 ∷ []))
    ≡ (true, 109 ∷ 101 ∷ [], 112 ∷ 119 ∷ b':' ∷ 49 ∷ [])
basic_authentication_decode-basic_authentication_encode_example =
    basic_authentication_decode-basic_authentication_encode (109 ∷ 101 ∷ [])
      (112 ∷ 119 ∷ b':' ∷ 49 ∷ []) (omega arith, (omega arith, tt))
      (omega arith, (omega arith, (omega arith, (omega arith, tt))))
      (omega arith, (omega arith, tt))

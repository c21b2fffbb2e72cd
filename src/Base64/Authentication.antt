-- ===== src/Base64/Authentication.antt =====
-- User and password through a header of basic authentication and back.
use datareel.Prelude.{
  ℕ, ◌≡◌, ◌≢◌, refl, true, false, some, List, [], ◌∷◌, ◌++◌, length, drop, All, arith, ne→==,
  le→ltb, ltb, All-append,
}
use datareel.Base64.{
  base64_encode, base64_decode, skip_blanks, starts_with, is_blank_at, split_at_colon, scheme_name,
  basic_authentication_encode, basic_authentication_decode,
}
use datareel.Base64.RoundTrip.{IsByte, base64_decode-base64_encode}

split_at_colon-append :
    (user passwd : List ℕ)
    → All (λ c. c ≢ b':') user
    → split_at_colon (user ++ (b':' ∷ passwd)) ≡ some (user, passwd)
unfolding split_at_colon
split_at_colon-append [] passwd free = refl
split_at_colon-append (c ∷ user) passwd (other, free) =
    rw (ne→== c b':' other, split_at_colon-append user passwd free) refl

abbrev header : List ℕ → List ℕ
header text = b'B' ∷ b'a' ∷ b's' ∷ b'i' ∷ b'c' ∷ b' ' ∷ text

header_scheme :
    (text : List ℕ)
    → (skip_blanks (header text) ≡ header text)
      × (starts_with scheme_name (header text) ≡ true)
      × (ltb (length (header text)) 6 ≡ false)
unfolding skip_blanks starts_with
header_scheme text = (refl, refl, le→ltb 6 (length (header text)) (omega arith))

decoded_parts :
    (value creds user passwd : List ℕ)
    → skip_blanks value ≡ value
    → ltb (length value) 6 ≡ false
    → starts_with scheme_name value ≡ true
    → is_blank_at (drop 5 value) ≡ true
    → base64_decode (drop 6 value) ≡ (true, creds)
    → split_at_colon creds ≡ some (user, passwd)
    → basic_authentication_decode value ≡ (true, user, passwd)
unfolding basic_authentication_decode
decoded_parts value creds user passwd blanks long scheme blank decoded colon =
    rw (blanks, long, scheme, blank, decoded, colon) refl

-- For a user without a colon, gxsBasicAuthenticationDecode of the header that
-- gxsBasicAuthenticationEncode makes of user and password, which are bytes, succeeds and gives both.
pub basic_authentication_decode-basic_authentication_encode :
    (user passwd : List ℕ)
    → All IsByte user
    → All IsByte passwd
    → All (λ c. c ≢ b':') user
    → basic_authentication_decode (basic_authentication_encode user passwd) ≡ (true, user, passwd)
unfolding basic_authentication_encode is_blank_at
basic_authentication_decode-basic_authentication_encode user passwd bytes bytes' free =
    let creds = user ++ (b':' ∷ passwd) in
    let text = base64_encode creds in
    let all = All-append IsByte user (b':' ∷ passwd) bytes (omega arith, bytes') in
    let (blanks, scheme, long) = header_scheme text in
    decoded_parts (header text) creds user passwd blanks long scheme refl
      (base64_decode-base64_encode creds all) (split_at_colon-append user passwd free)

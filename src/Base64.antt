-- ===== src/Base64.antt =====
-- The base 64 functions of src/gxs_b64.cpp. Bytes and characters are their numbers; `v` is an
-- unsigned int of 32 bits. The bits that `|` joins do not overlap, so they are added.
pub mod RoundTrip
pub mod Authentication
mod Tests
use datareel.Prelude.{
  ℕ, zero, suc, ◌+◌, ◌-◌, ◌*◌, ◌/◌, ◌%◌, ◌^◌, Bool, true, false, ◌&&◌, ◌||◌, Option, none, some,
  List, [], ◌∷◌, ◌++◌, ltb, leb, ◌==◌, if◌then◌else◌, not, drop, length,
}
use Prim.Native.Nat.{bit_or}

-- `gxsBase64Chars`: the letters, the small letters, the digits, `+` and `/`.
unfoldable pub base64_char : ℕ → ℕ
base64_char i =
    if ltb i 26
    then b'A' + i
    else if ltb i 52
    then b'a' + (i - 26)
    else if ltb i 62
    then b'0' + (i - 52)
    else if i == 62
    then b'+'
    else b'/'

-- The character for the six bits of `v` from `2 ^ shift` on.
abbrev pub char_at : ℕ → ℕ → ℕ
char_at v shift = base64_char (v / 2 ^ shift % 64)

-- `gxsBase64Encode`
unfoldable pub base64_encode : List ℕ → List ℕ
base64_encode [] = []
base64_encode (a ∷ []) = let v = a * 2 ^ 16 in char_at v 18 ∷ char_at v 12 ∷ b'=' ∷ b'=' ∷ []
base64_encode (a ∷ b ∷ []) =
    let v = a * 2 ^ 16 + b * 2 ^ 8 in char_at v 18 ∷ char_at v 12 ∷ char_at v 6 ∷ b'=' ∷ []
base64_encode (a ∷ b ∷ c ∷ rest) =
    let v = a * 2 ^ 16 + b * 2 ^ 8 + c in
    char_at v 18 ∷ char_at v 12 ∷ char_at v 6 ∷ char_at v 0 ∷ base64_encode rest

-- `gxsBase64Value`, with `none` for -1
unfoldable pub base64_value : ℕ → Option ℕ
base64_value c =
    if leb b'A' c && leb c b'Z'
    then some (c - b'A')
    else if leb b'a' c && leb c b'z'
    then some (c - b'a' + 26)
    else if leb b'0' c && leb c b'9'
    then some (c - b'0' + 52)
    else if c == b'+'
    then some 62
    else if c == b'/'
    then some 63
    else none

-- The variables of the loop of `gxsBase64Decode`.
pub record Decoder : Type 0 where
  pub v : ℕ
  pub bits : ℕ
  pub pad : ℕ

unfoldable pub is_space : ℕ → Bool
is_space c = (c == b' ') || (c == 9) || (c == 13) || (c == 10)

-- The loop body: the new variables and what is appended to `out`, or `return false`.
unfoldable pub decode_char : ℕ → Decoder → Option (Decoder × List ℕ)
decode_char c st =
    if is_space c
    then some (st, [])
    else if c == b'='
    then some (record st { pad = st.pad + 1 }, [])
    else if ltb 0 st.pad
    then none
    else elim (base64_value c) [
      | none ↦ none
      | some d ↦
          let v = st.v * 64 % 2 ^ 32 + d in
          let bits = st.bits + 6 in
          if leb 8 bits
          then some (record st { v = v; bits = bits - 8 }, v / 2 ^ (bits - 8) % 256 ∷ [])
          else some (record st { v = v; bits = bits }, [])
    ]

unfoldable pub decode_from : List ℕ → Decoder → Bool × List ℕ
decode_from [] st = (leb st.pad 2, [])
decode_from (c ∷ s) st = elim (decode_char c st) [
  | none ↦ (false, [])
  | some (next, bytes) ↦ let rest = decode_from s next in (rest.0, bytes ++ rest.1)
]

-- `gxsBase64Decode`: its result, and `out`
unfoldable pub base64_decode : List ℕ → Bool × List ℕ
unfolding decode_from
base64_decode s = decode_from s (record { v = 0; bits = 0; pad = 0 })

-- The blanks in front of the value.
unfoldable pub skip_blanks : List ℕ → List ℕ
skip_blanks [] = []
skip_blanks (c ∷ value) =
    let rest = skip_blanks value in if (c == b' ') || (c == 9) then rest else c ∷ value

-- The scheme in letters of either case.
unfoldable pub starts_with : List ℕ → List ℕ → Bool
starts_with [] value = true
starts_with (p ∷ scheme) [] = false
starts_with (p ∷ scheme) (c ∷ value) =
    let rest = starts_with scheme value in if bit_or c 0x20 == p then rest else false

-- `value[5] == ' '`, from there on
unfoldable pub is_blank_at : List ℕ → Bool
is_blank_at [] = false
is_blank_at (c ∷ value) = c == b' '

-- `creds.find(':')`, and the texts before and after it
unfoldable pub split_at_colon : List ℕ → Option (List ℕ × List ℕ)
split_at_colon [] = none
split_at_colon (c ∷ creds) =
    let rest = split_at_colon creds in
    if c == b':'
    then some ([], creds)
    else elim rest [ none ↦ none | some (user, passwd) ↦ some (c ∷ user, passwd) ]

abbrev pub scheme_name : List ℕ
scheme_name = b'b' ∷ b'a' ∷ b's' ∷ b'i' ∷ b'c' ∷ []

-- `gxsBasicAuthenticationEncode`
unfoldable pub basic_authentication_encode : List ℕ → List ℕ → List ℕ
basic_authentication_encode user passwd =
    b'B' ∷ b'a' ∷ b's' ∷ b'i' ∷ b'c' ∷ b' ' ∷ base64_encode (user ++ (b':' ∷ passwd))

-- `gxsBasicAuthenticationDecode`: its result, `user` and `passwd`
unfoldable pub basic_authentication_decode : List ℕ → Bool × List ℕ × List ℕ
unfolding skip_blanks starts_with is_blank_at split_at_colon
basic_authentication_decode value =
    let text = skip_blanks value in
    let (decoded, creds) = base64_decode (drop 6 text) in
    if ltb (length text) 6
    then (false, [], [])
    else if not (starts_with scheme_name text)
    then (false, [], [])
    else if not (is_blank_at (drop 5 text))
    then (false, [], [])
    else if not decoded
    then (false, [], [])
    else elim (split_at_colon creds) [
      | none ↦ (false, [], [])
      | some (user, passwd) ↦ (true, user, passwd)
    ]

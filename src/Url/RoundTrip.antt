-- ===== src/Url/RoundTrip.antt =====
-- `ToString` and then `Parse` of src/gxsurl.cpp.
use mathlib.Core.Path.{subst}
use datareel.Prelude.{
  ℕ, ◌≡◌, ◌≢◌, refl, sym, ap, ◌∙◌, true, false, some, List, [], ◌∷◌, ◌++◌, All, All-map, All-append,
  arith, if◌then◌else◌, Bool-cases, inl, inr, append_assoc, append-nil,
}
use datareel.Url.{GxsUrlInfo, clear, path_and_query, to_string, host_and_port, user_info}
use datareel.Url.Text.{
  is_space, lower_char, is_empty, trim_left_view, trim_right_view, cut, cut_scheme,
}
use datareel.Url.Cuts.{
  Lacks, cut-absent, cut-append, cut_scheme-append, trim_right_view-none, trim_left_view-All,
  to_lower-same,
}
use datareel.Url.Host.{explicit}
use datareel.Url.Authority.{
  IsInner, IsPlace, authority, authority-IsInner, parse_authority-authority,
}
use datareel.Url.Parse.{
  is_scheme_char, all_scheme_chars, parse_path, parse_query, parse_rest, parse_scheme, parse,
}

abbrev path_text : GxsUrlInfo → List ℕ
path_text u = if is_empty u.path then b'/' ∷ [] else u.path

-- The parts of a URL that `ToString` prints without loss.
pub record IsUrl (u : GxsUrlInfo) : Type 0 where
  pub place : IsPlace u
  pub scheme_not_empty : is_empty u.scheme ≡ false
  pub scheme_chars : All (λ c. is_scheme_char c ≡ true) u.scheme
  pub path_rest : List ℕ
  pub path_start : path_text u ≡ b'/' ∷ path_rest
  pub path_chars : All (λ c. (is_space c ≡ false) × (c ≢ b'?') × (c ≢ b'#')) u.path
  pub query_chars : All (λ c. (is_space c ≡ false) × (c ≢ b'#')) u.query

-- What is read back: a path is there, a port counts as given if it is not that of the scheme, and the
-- fragment is lost.
abbrev pub normal : GxsUrlInfo → GxsUrlInfo
normal u = record u { path = path_text u; port_given = explicit u; fragment = [] }

abbrev query_text : GxsUrlInfo → List ℕ
query_text u = if is_empty u.query then [] else b'?' ∷ u.query

path_and_query-text : (u : GxsUrlInfo) → path_and_query u ≡ path_text u ++ query_text u
unfolding path_and_query
path_and_query-text u = elim (Bool-cases (is_empty u.query)) [
  | inl absent ↦ rw absent (sym (append-nil (path_text u)))
  | inr there ↦ rw there refl
]

to_string-authority :
    (u : GxsUrlInfo)
    → to_string u
      ≡ u.scheme ++ (b':' ∷ b'/' ∷ b'/' ∷ ((authority u ++ path_text u) ++ query_text u))
unfolding to_string authority
to_string-authority u =
    let text : List ℕ → List ℕ = λ t. u.scheme ++ (b':' ∷ b'/' ∷ b'/' ∷ t) in
    let parts : (a : List ℕ) → a ++ path_and_query u ≡ (a ++ path_text u) ++ query_text u = λ a.
      ap (λ t. a ++ t) (path_and_query-text u)
      ∙ sym (append_assoc a (path_text u) (query_text u)) in
    let long = user_info u ++ (b'@' ∷ host_and_port u) in
    elim (Bool-cases (is_empty u.user)) [
      | inl absent ↦ rw absent (ap text (parts (host_and_port u)))
      | inr there ↦ rw there (
          ap text (
            sym (append_assoc (user_info u) (b'@' ∷ host_and_port u) (path_and_query u))
            ∙ parts long))
    ]

All-path_text : (P : ℕ → Type 0) (u : GxsUrlInfo) → P b'/' → All P u.path → All P (path_text u)
All-path_text P u slash h = elim (Bool-cases (is_empty u.path)) [
  | inl absent ↦ rw absent (slash, tt)
  | inr there ↦ rw there h
]

All-query_text : (P : ℕ → Type 0) (u : GxsUrlInfo) → P b'?' → All P u.query → All P (query_text u)
All-query_text P u question h = elim (Bool-cases (is_empty u.query)) [
  | inl absent ↦ rw absent tt
  | inr there ↦ rw there (question, h)
]

nothing_there : (s : List ℕ) → is_empty s ≡ true → [] ≡ s
nothing_there [] e = refl
nothing_there (c ∷ s) e = cc

-- Nothing was read before the authority but the scheme.
abbrev IsFresh : GxsUrlInfo → GxsUrlInfo → Type 0
IsFresh u v = (v.scheme ≡ u.scheme) × (v.port_given ≡ false) × (v.user ≡ []) × (v.passwd ≡ [])

scheme_no_space : (c : ℕ) → is_scheme_char c ≡ true → is_space c ≡ false
unfolding is_space
scheme_no_space c h = ground arith

scheme_no_colon : (c : ℕ) → is_scheme_char c ≡ true → c ≢ b':'
scheme_no_colon c h e = absurd (ground arith)

scheme_small : (c : ℕ) → is_scheme_char c ≡ true → lower_char c ≡ c
unfolding lower_char
scheme_small c h = ground arith

all_scheme_chars_lem :
    (s : List ℕ) → All (λ c. is_scheme_char c ≡ true) s → all_scheme_chars s ≡ true
unfolding all_scheme_chars
all_scheme_chars_lem [] h = refl
all_scheme_chars_lem (c ∷ s) h = rw (h.0, all_scheme_chars_lem s h.1) refl

module _ (u : GxsUrlInfo) (is : IsUrl u) where
  front : List ℕ
  front = authority u ++ path_text u

  inner : All IsInner (authority u)
  inner = authority-IsInner u is.place.host_chars is.place.user_bytes is.place.passwd_bytes

  All-front : (P : ℕ → Type 0) → ((c : ℕ) → IsInner c → P c) → P b'/' → All P u.path → All P front
  unfolding front
  All-front P of_inner slash path =
      All-append P (authority u) (path_text u) (All-map (authority u) of_inner inner)
        (All-path_text P u slash path)

  parse_path-front :
      (v : GxsUrlInfo)
      → IsFresh u v
      → parse_path v (cut b'/' front) ≡ (
        true,
        record v {
          user = u.user;
          passwd = u.passwd;
          host = u.host;
          port = u.port;
          port_given = explicit u;
          path = path_text u;
        },
      )
  unfolding front parse_path
  parse_path-front v (scheme, fresh, no_user, no_passwd) =
      let a = authority u in
      let no_slash : Lacks b'/' a = All-map a (λ x (k : IsInner x). k.no_slash) inner in
      ap (parse_path v)
        (ap (λ t. cut b'/' (a ++ t)) is.path_start ∙ cut-append b'/' a is.path_rest no_slash)
      ∙ parse_authority-authority u (record v { path = b'/' ∷ is.path_rest }) is.place scheme fresh
          no_user no_passwd
      ∙ ap
          (λ (p : List ℕ). (
            true,
            record v {
              user = u.user;
              passwd = u.passwd;
              host = u.host;
              port = u.port;
              port_given = explicit u;
              path = p;
            },
          ))
          (sym is.path_start)

  parse_query-front :
      (v : GxsUrlInfo)
      → parse_query v (cut b'?' (front ++ query_text u))
        ≡ parse_path (record v { query = u.query }) (cut b'/' front)
  unfolding parse_query
  parse_query-front v =
      let no_question : Lacks b'?' front =
        All-front (λ x. x ≢ b'?') (λ x k. k.no_question) (omega arith)
          (All-map u.path (λ x (k : (is_space x ≡ false) × (x ≢ b'?') × (x ≢ b'#')). k.1)
            is.path_chars) in
      elim (Bool-cases (is_empty u.query)) [
        | inl absent ↦ rw absent (
            ap (λ t. parse_query v (cut b'?' t)) (append-nil front)
            ∙ ap (parse_query v) (cut-absent b'?' front no_question)
            ∙ ap (λ (q : List ℕ). parse_path (record v { query = q }) (cut b'/' front))
                (nothing_there u.query absent))
        | inr there ↦ rw there (ap (parse_query v) (cut-append b'?' front u.query no_question))
      ]

  -- Path, query and fragment around the authority.
  parse_rest-front :
      (v : GxsUrlInfo)
      → IsFresh u v
      → parse_rest v (cut b'#' (front ++ query_text u))
        ≡ (true, record (normal u) { scheme = v.scheme })
  unfolding parse_rest
  parse_rest-front v fresh =
      let no_hash : Lacks b'#' (front ++ query_text u) =
        All-append (λ x. x ≢ b'#') front (query_text u)
          (All-front (λ x. x ≢ b'#') (λ x k. k.no_hash) (omega arith)
            (All-map u.path (λ x (k : (is_space x ≡ false) × (x ≢ b'?') × (x ≢ b'#')). k.2)
              is.path_chars))
          (All-query_text (λ x. x ≢ b'#') u (omega arith)
            (All-map u.query (λ x (k : (is_space x ≡ false) × (x ≢ b'#')). k.1) is.query_chars)) in
      ap (parse_rest v) (cut-absent b'#' (front ++ query_text u) no_hash)
      ∙ parse_query-front (record v { fragment = [] })
      ∙ parse_path-front (record v { fragment = []; query = u.query }) fresh

  to_string-front : to_string u ≡ u.scheme ++ (b':' ∷ b'/' ∷ b'/' ∷ (front ++ query_text u))
  unfolding front
  to_string-front = to_string-authority u

  no_spaces : All (λ c. is_space c ≡ false) (to_string u)
  unfolding is_space front
  no_spaces =
      subst (λ t. All (λ c. is_space c ≡ false) t) (sym (to_string-authority u))
        (All-append (λ c. is_space c ≡ false) u.scheme _
          (All-map u.scheme (λ c (k : is_scheme_char c ≡ true). scheme_no_space c k)
            is.scheme_chars)
          (
            refl,
            (
              refl,
              (
                refl,
                All-append (λ c. is_space c ≡ false) front (query_text u)
                    (All-front (λ c. is_space c ≡ false) (λ x k. k.no_space) refl
                      (All-map u.path
                        (λ x (k : (is_space x ≡ false) × (x ≢ b'?') × (x ≢ b'#')). k.0)
                        is.path_chars))
                    (All-query_text (λ c. is_space c ≡ false) u refl
                      (All-map u.query (λ x (k : (is_space x ≡ false) × (x ≢ b'#')). k.0)
                        is.query_chars)),
              ),
            ),
          ))

-- A URL whose scheme is not empty and of lower case letters, digits, `+`, `-` and `.`, whose host
-- is not empty and has no capitals, whose user and password are bytes, with no password where
-- there is no user, whose path is empty or begins with `/`, whose port is that of the scheme or
-- from 1 to 65535, and whose parts have no spaces and none of the characters that would end them:
-- Parse of what ToString prints succeeds. The parts are those that were printed, but a missing
-- path is `/`, the fragment is empty, and the port counts as given only if it was and is not that
-- of the scheme.
pub parse-to_string : (u : GxsUrlInfo) → IsUrl u → parse (to_string u) ≡ (true, normal u)
unfolding parse parse_scheme
parse-to_string u is =
    let spaces = no_spaces u is in
    let text = front u is ++ query_text u in
    let lower = to_lower-same u.scheme (All-map u.scheme scheme_small is.scheme_chars) in
    let colon = All-map u.scheme scheme_no_colon is.scheme_chars in
    let chars = all_scheme_chars_lem u.scheme is.scheme_chars in
    let found : cut_scheme (trim_right_view (trim_left_view (to_string u)))
        ≡ some (u.scheme, text) =
      ap (λ t. cut_scheme (trim_right_view t)) (trim_left_view-All (to_string u) spaces)
      ∙ ap cut_scheme (trim_right_view-none (to_string u) spaces)
      ∙ ap cut_scheme (to_string-front u is)
      ∙ cut_scheme-append u.scheme text colon in
    ap parse_scheme found
    ∙ rw (is.scheme_not_empty, lower, chars)
        (parse_rest-front u is (record clear { scheme = u.scheme }) (refl, refl, refl, refl))

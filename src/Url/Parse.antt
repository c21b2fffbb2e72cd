-- ===== src/Url/Parse.antt =====
-- `Parse` and `Resolve` of src/gxsurl.cpp. `Parse` returns whether it succeeded, with the parts as far
-- as it filled them.
use datareel.Prelude.{
  ℕ, ◌+◌, ◌-◌, ◌*◌, Bool, true, false, ◌&&◌, ◌||◌, Option, none, some, List, [], ◌∷◌, ◌++◌, ltb,
  leb, ◌==◌, if◌then◌else◌,
}
use datareel.Url.{GxsUrlInfo, clear, default_port, decode, host_and_port}
use datareel.Url.Text.{
  to_lower, trim_left_view, trim_right_view, is_empty, starts_with, cut, cut_last, cut_scheme,
  or_empty,
}

abbrev pub is_scheme_char : ℕ → Bool
is_scheme_char c =
    (leb b'a' c && leb c b'z')
    || (leb b'0' c && leb c b'9')
    || (c == b'+')
    || (c == b'-')
    || (c == b'.')

unfoldable pub all_scheme_chars : List ℕ → Bool
all_scheme_chars [] = true
all_scheme_chars (c ∷ s) = is_scheme_char c && all_scheme_chars s

-- The loop over the digits of the port; nothing where `Parse` returns false.
unfoldable pub port_loop : ℕ → List ℕ → Option ℕ
port_loop port [] = some port
port_loop port (c ∷ s) =
    let next = port * 10 + (c - b'0') in
    let rest = port_loop next s in
    if ltb c b'0' || ltb b'9' c then none else if ltb 65535 next then none else rest

-- The port at the end of `Parse`.
unfoldable pub parse_port : GxsUrlInfo → List ℕ → Bool × GxsUrlInfo
parse_port u port_part =
    if is_empty port_part
    then (true, record u { port = default_port u.scheme })
    else elim (port_loop 0 port_part) [
      | none ↦ (false, u)
      | some port ↦
          if port == 0 then (false, u) else (true, record u { port = port; port_given = true })
    ]

-- A host that was set, with what is left for the port.
unfoldable pub finish_host : GxsUrlInfo → List ℕ → Bool × GxsUrlInfo
unfolding parse_port
finish_host u port_part =
    if is_empty u.host
    then (false, u)
    else parse_port (record u { host = to_lower u.host }) port_part

-- Host and port of an authority that was cut at its last `:`.
unfoldable pub plain_host : GxsUrlInfo → List ℕ × Option (List ℕ) → Bool × GxsUrlInfo
unfolding finish_host
plain_host u (host, after) = finish_host (record u { host = host }) (or_empty after)

-- An address in brackets, cut at the closing one.
unfoldable pub literal_host : GxsUrlInfo → List ℕ × Option (List ℕ) → Bool × GxsUrlInfo
unfolding finish_host
literal_host u (host, none) = (false, u)
literal_host u (host, some []) = finish_host (record u { host = host }) []
literal_host u (host, some (d ∷ port_part)) =
    if d == b':'
    then finish_host (record u { host = host }) port_part
    else (false, record u { host = host })

unfoldable pub parse_host : GxsUrlInfo → List ℕ → Bool × GxsUrlInfo
unfolding plain_host literal_host
parse_host u [] = plain_host u ([], none)
parse_host u (c ∷ literal) =
    if c == b'['
    then literal_host u (cut b']' literal)
    else plain_host u (cut_last b':' (c ∷ literal))

-- User and password, cut at the first `:`.
abbrev pub with_user : GxsUrlInfo → List ℕ × Option (List ℕ) → GxsUrlInfo
with_user u (user, passwd) = record u {
  user = decode false user;
  passwd = decode false (or_empty passwd);
}

-- The authority, cut at the last `@`.
unfoldable pub parse_authority : GxsUrlInfo → List ℕ → List ℕ × Option (List ℕ) → Bool × GxsUrlInfo
unfolding parse_host
parse_authority u authority (userinfo, none) = parse_host u authority
parse_authority u authority (userinfo, some host) =
    parse_host (with_user u (cut b':' userinfo)) host

-- What stands before the query, cut at the first `/`.
unfoldable pub parse_path : GxsUrlInfo → List ℕ × Option (List ℕ) → Bool × GxsUrlInfo
unfolding parse_authority
parse_path u (authority, none) = parse_authority u authority (cut_last b'@' authority)
parse_path u (authority, some path) =
    parse_authority (record u { path = b'/' ∷ path }) authority (cut_last b'@' authority)

-- What stands before the fragment, cut at the first `?`.
unfoldable pub parse_query : GxsUrlInfo → List ℕ × Option (List ℕ) → Bool × GxsUrlInfo
unfolding parse_path
parse_query u (before_query, query) =
    parse_path (record u { query = or_empty query }) (cut b'/' before_query)

-- What stands after "://", cut at the first `#`.
unfoldable pub parse_rest : GxsUrlInfo → List ℕ × Option (List ℕ) → Bool × GxsUrlInfo
unfolding parse_query
parse_rest u (rest, fragment) =
    parse_query (record u { fragment = or_empty fragment }) (cut b'?' rest)

-- The scheme and what follows it, where "://" was found.
unfoldable pub parse_scheme : Option (List ℕ × List ℕ) → Bool × GxsUrlInfo
unfolding parse_rest
parse_scheme none = (false, clear)
parse_scheme (some (scheme, rest)) =
    let u = record clear { scheme = to_lower scheme } in
    if is_empty scheme
    then (false, clear)
    else if all_scheme_chars u.scheme
    then parse_rest u (cut b'#' rest)
    else (false, u)

-- `Parse`
unfoldable pub parse : List ℕ → Bool × GxsUrlInfo
unfolding parse_scheme
parse url = parse_scheme (cut_scheme (trim_right_view (trim_left_view url)))

-- Up to the last `/`, that included; nothing where there is none.
unfoldable pub directory : List ℕ → List ℕ
directory path =
    let (before, after) = cut_last b'/' path in
    elim after [ none ↦ [] | some _ ↦ before ++ (b'/' ∷ []) ]

-- `Resolve`
unfoldable pub resolve : GxsUrlInfo → List ℕ → List ℕ
unfolding host_and_port directory
resolve base location =
    let loc = trim_right_view (trim_left_view location) in
    let prefix = base.scheme ++ (b':' ∷ b'/' ∷ b'/' ∷ host_and_port base) in
    let relative =
      prefix ++ (directory (if is_empty base.path then b'/' ∷ [] else base.path) ++ loc) in
    elim (cut_scheme loc) [
      | some _ ↦ loc
      | none ↦
          if starts_with loc (b'/' ∷ b'/' ∷ [])
          then base.scheme ++ (b':' ∷ loc)
          else if starts_with loc (b'/' ∷ [])
          then prefix ++ loc
          else relative
    ]

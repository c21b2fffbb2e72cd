-- ===== src/Url.antt =====
-- gxsURL and gxsURLInfo of src/gxsurl.cpp and include/gxsurl.h. Texts are lists of characters,
-- characters their numbers.
pub mod Text
pub mod Parse
pub mod Cuts
pub mod Port
pub mod Host
pub mod Authority
pub mod Encoding
pub mod RoundTrip
mod Tests
use datareel.Prelude.{
  ℕ, zero, suc, ◌+◌, ◌-◌, ◌*◌, ◌/◌, ◌%◌, Bool, true, false, not, ◌&&◌, ◌||◌, Option, none, some,
  List, [], ◌∷◌, ◌++◌, ltb, leb, ◌==◌, if◌then◌else◌,
}
use datareel.Url.Text.{
  to_lower, trim_left_view, trim_right_view, is_empty, starts_with, same, cut, cut_last, cut_scheme,
  or_empty, decimal,
}

-- `gxsURLInfo`
pub record GxsUrlInfo : Type 0 where
  pub scheme : List ℕ
  pub user : List ℕ
  pub passwd : List ℕ
  pub host : List ℕ
  pub port : ℕ
  pub port_given : Bool
  pub path : List ℕ
  pub query : List ℕ
  pub fragment : List ℕ

-- `Clear`
abbrev pub clear : GxsUrlInfo
clear = record {
  scheme = [];
  user = [];
  passwd = [];
  host = [];
  port = 0;
  port_given = false;
  path = [];
  query = [];
  fragment = [];
}

abbrev https : List ℕ
https = b'h' ∷ b't' ∷ b't' ∷ b'p' ∷ b's' ∷ []

abbrev http : List ℕ
http = b'h' ∷ b't' ∷ b't' ∷ b'p' ∷ []

abbrev wss : List ℕ
wss = b'w' ∷ b's' ∷ b's' ∷ []

abbrev ws : List ℕ
ws = b'w' ∷ b's' ∷ []

abbrev ftps : List ℕ
ftps = b'f' ∷ b't' ∷ b'p' ∷ b's' ∷ []

abbrev ftp : List ℕ
ftp = b'f' ∷ b't' ∷ b'p' ∷ []

abbrev smtps : List ℕ
smtps = b's' ∷ b'm' ∷ b't' ∷ b'p' ∷ b's' ∷ []

abbrev smtp : List ℕ
smtp = b's' ∷ b'm' ∷ b't' ∷ b'p' ∷ []

abbrev pop3s : List ℕ
pop3s = b'p' ∷ b'o' ∷ b'p' ∷ b'3' ∷ b's' ∷ []

abbrev pop3 : List ℕ
pop3 = b'p' ∷ b'o' ∷ b'p' ∷ b'3' ∷ []

abbrev imaps : List ℕ
imaps = b'i' ∷ b'm' ∷ b'a' ∷ b'p' ∷ b's' ∷ []

abbrev telnet : List ℕ
telnet = b't' ∷ b'e' ∷ b'l' ∷ b'n' ∷ b'e' ∷ b't' ∷ []

-- `DefaultPort`
unfoldable pub default_port : List ℕ → ℕ
default_port scheme =
    let s = to_lower scheme in
    if same s https || same s wss
    then 443
    else if same s http || same s ws
    then 80
    else if same s ftps
    then 990
    else if same s ftp
    then 21
    else if same s smtps
    then 465
    else if same s smtp
    then 25
    else if same s pop3s
    then 995
    else if same s pop3
    then 110
    else if same s imaps
    then 993
    else if same s telnet
    then 23
    else 0

unfoldable pub is_secure : GxsUrlInfo → Bool
is_secure u =
    same u.scheme https
    || same u.scheme ftps
    || same u.scheme wss
    || same u.scheme smtps
    || same u.scheme pop3s
    || same u.scheme imaps

abbrev pub is_unreserved : ℕ → Bool
is_unreserved c =
    (leb b'A' c && leb c b'Z')
    || (leb b'a' c && leb c b'z')
    || (leb b'0' c && leb c b'9')
    || (c == b'-')
    || (c == b'.')
    || (c == b'_')
    || (c == b'~')

-- The hexadecimal digit of a number below 16.
abbrev pub hex_digit : ℕ → ℕ
hex_digit d = if ltb d 10 then b'0' + d else b'A' + (d - 10)

-- `Encode`
unfoldable pub encode : List ℕ → List ℕ
encode [] = []
encode (c ∷ s) =
    if is_unreserved c
    then c ∷ encode s
    else b'%' ∷ hex_digit (c / 16) ∷ hex_digit (c % 16) ∷ encode s

unfoldable pub hexval : ℕ → Option ℕ
hexval c =
    if leb b'0' c && leb c b'9'
    then some (c - b'0')
    else if leb b'a' c && leb c b'f'
    then some (c - b'a' + 10)
    else if leb b'A' c && leb c b'F'
    then some (c - b'A' + 10)
    else none

abbrev pub hex_pair : ℕ → ℕ → Option ℕ
hex_pair a b = elim (hexval a) [
  | none ↦ none
  | some high ↦ elim (hexval b) [ none ↦ none | some low ↦ some (high * 16 + low) ]
]

-- `Decode`
unfoldable pub decode : Bool → List ℕ → List ℕ
decode plus_is_space [] = []
decode plus_is_space (c ∷ []) = (if plus_is_space && (c == b'+') then b' ' else c) ∷ []
decode plus_is_space (c ∷ (d ∷ [])) =
    (if plus_is_space && (c == b'+') then b' ' else c) ∷ decode plus_is_space (d ∷ [])
decode plus_is_space (c ∷ (d ∷ (e ∷ s))) =
    let after = decode plus_is_space s in
    let rest = decode plus_is_space (d ∷ (e ∷ s)) in
    let plain = (if plus_is_space && (c == b'+') then b' ' else c) ∷ rest in
    if c == b'%' then elim (hex_pair d e) [ some byte ↦ byte ∷ after | none ↦ plain ] else plain

-- `PathAndQuery`
unfoldable pub path_and_query : GxsUrlInfo → List ℕ
path_and_query u =
    let s = if is_empty u.path then b'/' ∷ [] else u.path in
    if is_empty u.query then s else s ++ (b'?' ∷ u.query)

abbrev pub has_colon : List ℕ → Bool
has_colon s = let (before, after) = cut b':' s in elim after [ none ↦ false | some _ ↦ true ]

-- `HostAndPort`
unfoldable pub host_and_port : GxsUrlInfo → List ℕ
host_and_port u =
    let h = if has_colon u.host then b'[' ∷ (u.host ++ (b']' ∷ [])) else u.host in
    if u.port_given && not (u.port == default_port u.scheme)
    then h ++ (b':' ∷ decimal 5 u.port)
    else h

abbrev pub user_info : GxsUrlInfo → List ℕ
user_info u = encode u.user ++ (if is_empty u.passwd then [] else b':' ∷ encode u.passwd)

-- `ToString`
unfoldable pub to_string : GxsUrlInfo → List ℕ
unfolding host_and_port path_and_query
to_string u =
    let place = host_and_port u ++ path_and_query u in
    u.scheme
    ++ (b':' ∷ b'/' ∷ b'/' ∷ (if is_empty u.user then place else user_info u ++ (b'@' ∷ place)))

-- ===== src/Url/Authority.antt =====
-- The authority of a URL: user, password, host and port, as `ToString` prints and `Parse` reads it.
use mathlib.Core.Path.{subst}
use datareel.Prelude.{
  ℕ, ◌<◌, ◌≡◌, ◌≢◌, refl, sym, ap, ◌∙◌, Bool, true, false, ◌||◌, List, [], ◌∷◌, ◌++◌, All, All-map,
  All-append, arith, ◌==◌, if◌then◌else◌, Bool-cases, inl, inr, append-nil,
}
use datareel.Url.{GxsUrlInfo, encode, decode, user_info, host_and_port, has_colon}
use datareel.Url.Text.{is_space, is_empty, cut, cut_last, decimal}
use datareel.Url.Cuts.{Lacks, cut-absent, cut-append, cut_last-absent, cut_last-append}
use datareel.Url.Port.{IsDigit, decimal-IsDigit}
use datareel.Url.Encoding.{IsCoded, decode-encode, encode-IsCoded}
use datareel.Url.Host.{
  IsHostChar, IsPort, explicit, printed, host_and_port-printed, parse_host-host_and_port,
}
use datareel.Url.Parse.{parse_host, with_user, parse_authority}

-- A character that ends neither the authority nor a part after it.
pub record IsInner (c : ℕ) : Type 0 where
  pub no_space : is_space c ≡ false
  pub no_slash : c ≢ b'/'
  pub no_question : c ≢ b'?'
  pub no_hash : c ≢ b'#'

digit-IsInner : (c : ℕ) → IsDigit c → IsInner c
unfolding is_space
digit-IsInner c h = record {
  no_space = ground arith;
  no_slash = λ e. absurd (omega (arith, h.0));
  no_question = λ e. absurd (omega (arith, h.1));
  no_hash = λ e. absurd (omega (arith, h.0));
}

host-IsInner : (c : ℕ) → IsHostChar c → IsInner c
host-IsInner c h = record {
  no_space = h.no_space;
  no_slash = h.no_slash;
  no_question = h.no_question;
  no_hash = h.no_hash;
}

coded-IsInner : (c : ℕ) → IsCoded c → IsInner c
unfolding is_space
coded-IsInner c h = record {
  no_space = ground arith;
  no_slash = λ e. absurd (ground arith);
  no_question = λ e. absurd (ground arith);
  no_hash = λ e. absurd (ground arith);
}

coded-ne_colon : (c : ℕ) → IsCoded c → c ≢ b':'
coded-ne_colon c h e = absurd (ground arith)

-- A delimiter within the authority.
delimiter-IsInner :
    (c : ℕ) → ((c == b':') || (c == b'@') || (c == b'[') || (c == b']')) ≡ true → IsInner c
unfolding is_space
delimiter-IsInner c h = record {
  no_space = ground arith;
  no_slash = λ e. absurd (ground arith);
  no_question = λ e. absurd (ground arith);
  no_hash = λ e. absurd (ground arith);
}

-- A predicate that holds of host characters, digits and the delimiters of host and port.
All-printed :
    (P : ℕ → Type 0) (h : List ℕ) (port : ℕ) (b : Bool)
    → ((c : ℕ) → IsHostChar c → P c)
    → ((c : ℕ) → IsDigit c → P c)
    → P b':'
    → P b'['
    → P b']'
    → All IsHostChar h
    → All P (printed h port b)
All-printed P h port b host digit colon opening closing chars =
    let inner = All-map h host chars in
    let alone : All P (printed h port false) = elim (Bool-cases (has_colon h)) [
      | inl bracketed ↦ rw bracketed (opening, All-append P h (b']' ∷ []) inner (closing, tt))
      | inr plain ↦ rw plain inner
    ] in
    elim b as (λ b. All P (printed h port b)) [
      | true ↦
          All-append P (printed h port false) (b':' ∷ decimal 5 port) alone
            (colon, All-map (decimal 5 port) digit (decimal-IsDigit 5 port))
      | false ↦ alone
    ]

-- The authority as it is printed.
unfoldable pub authority : GxsUrlInfo → List ℕ
authority u = if is_empty u.user then host_and_port u else user_info u ++ (b'@' ∷ host_and_port u)

pub host_and_port-IsInner : (u : GxsUrlInfo) → All IsHostChar u.host → All IsInner (host_and_port u)
host_and_port-IsInner u chars =
    subst (λ t. All IsInner t) (sym (host_and_port-printed u))
      (All-printed IsInner u.host u.port (explicit u) host-IsInner digit-IsInner
        (delimiter-IsInner b':' refl) (delimiter-IsInner b'[' refl) (delimiter-IsInner b']' refl)
        chars)

host_and_port-no_at : (u : GxsUrlInfo) → All IsHostChar u.host → Lacks b'@' (host_and_port u)
host_and_port-no_at u chars =
    subst (λ t. Lacks b'@' t) (sym (host_and_port-printed u))
      (All-printed (λ c. c ≢ b'@') u.host u.port (explicit u) (λ c k. k.no_at)
        (λ c k e. absurd (omega (arith, k.1))) (omega arith) (omega arith) (omega arith) chars)

user_info-IsInner :
    (u : GxsUrlInfo)
    → All (λ c. c < 256) u.user
    → All (λ c. c < 256) u.passwd
    → All IsInner (user_info u)
user_info-IsInner u bytes bytes' =
    let user = All-map (encode u.user) coded-IsInner (encode-IsCoded u.user bytes) in
    let passwd = All-map (encode u.passwd) coded-IsInner (encode-IsCoded u.passwd bytes') in
    elim (Bool-cases (is_empty u.passwd)) [
      | inl absent ↦ rw absent (All-append IsInner (encode u.user) [] user tt)
      | inr there ↦
          rw there (All-append IsInner (encode u.user) _ user (delimiter-IsInner b':' refl, passwd))
    ]

pub authority-IsInner :
    (u : GxsUrlInfo)
    → All IsHostChar u.host
    → All (λ c. c < 256) u.user
    → All (λ c. c < 256) u.passwd
    → All IsInner (authority u)
unfolding authority
authority-IsInner u chars bytes bytes' =
    let place = host_and_port-IsInner u chars in
    elim (Bool-cases (is_empty u.user)) [
      | inl absent ↦ rw absent place
      | inr there ↦ rw there (
          All-append IsInner (user_info u) _ (user_info-IsInner u bytes bytes')
            (delimiter-IsInner b'@' refl, place))
    ]

nothing_read : (s : List ℕ) → is_empty s ≡ true → decode false [] ≡ s
unfolding decode
nothing_read [] e = refl
nothing_read (c ∷ s) e = cc

nothing_there : (s : List ℕ) → is_empty s ≡ true → [] ≡ s
nothing_there [] e = refl
nothing_there (c ∷ s) e = cc

-- The user and the password between the scheme and the last `@`.
with_user-user_info :
    (u v : GxsUrlInfo)
    → All (λ c. c < 256) u.user
    → All (λ c. c < 256) u.passwd
    → with_user v (cut b':' (user_info u)) ≡ record v { user = u.user; passwd = u.passwd }
with_user-user_info u v bytes bytes' =
    let no_colon = All-map (encode u.user) coded-ne_colon (encode-IsCoded u.user bytes) in
    let user = decode-encode u.user bytes in
    let passwd = decode-encode u.passwd bytes' in
    elim (Bool-cases (is_empty u.passwd)) [
      | inl absent ↦ rw absent (
          ap (λ t. with_user v (cut b':' t)) (append-nil (encode u.user))
          ∙ ap (with_user v) (cut-absent b':' (encode u.user) no_colon)
          ∙ ap (λ (x : List ℕ). record v { user = x; passwd = decode false [] }) user
          ∙ ap (λ (y : List ℕ). record v { user = u.user; passwd = y })
              (nothing_read u.passwd absent))
      | inr there ↦ rw there (
          ap (with_user v) (cut-append b':' (encode u.user) (encode u.passwd) no_colon)
          ∙ ap (λ (x : List ℕ). record v { user = x; passwd = decode false (encode u.passwd) }) user
          ∙ ap (λ (y : List ℕ). record v { user = u.user; passwd = y }) passwd)
    ]

-- What is known of the parts of a URL before its path.
pub record IsPlace (u : GxsUrlInfo) : Type 0 where
  pub first : ℕ
  pub others : List ℕ
  pub not_empty : u.host ≡ first ∷ others
  pub host_chars : All IsHostChar u.host
  pub port_known : IsPort u
  pub user_bytes : All (λ c. c < 256) u.user
  pub passwd_bytes : All (λ c. c < 256) u.passwd
  pub passwd_with_user : is_empty u.user ≡ true → u.passwd ≡ []

-- The authority that is printed is read as its four parts.
pub parse_authority-authority :
    (u v : GxsUrlInfo)
    → IsPlace u
    → v.scheme ≡ u.scheme
    → v.port_given ≡ false
    → v.user ≡ []
    → v.passwd ≡ []
    → parse_authority v (authority u) (cut_last b'@' (authority u)) ≡ (
      true,
      record v {
        user = u.user;
        passwd = u.passwd;
        host = u.host;
        port = u.port;
        port_given = explicit u;
      },
    )
unfolding authority parse_authority
parse_authority-authority u v is scheme fresh no_user no_passwd =
    let hp = host_and_port u in
    let chars = subst (λ z. All IsHostChar z) is.not_empty is.host_chars in
    let no_at = host_and_port-no_at u is.host_chars in
    let w : GxsUrlInfo = record v { user = u.user; passwd = u.passwd } in
    let whole : GxsUrlInfo → Bool × GxsUrlInfo =
      λ x. (true, record x { host = u.host; port = u.port; port_given = explicit u }) in
    elim (Bool-cases (is_empty u.user)) [
      | inl absent ↦ rw absent (
          ap (parse_authority v hp) (cut_last-absent b'@' hp no_at)
          ∙ parse_host-host_and_port u v is.first is.others is.not_empty chars is.port_known scheme
              fresh
          ∙ ap (λ (x : List ℕ). whole (record v { user = x }))
              (no_user ∙ nothing_there u.user absent)
          ∙ ap (λ (x : List ℕ). whole (record v { user = u.user; passwd = x }))
              (no_passwd ∙ sym (is.passwd_with_user absent)))
      | inr there ↦ rw there (
          ap (parse_authority v (user_info u ++ (b'@' ∷ hp)))
            (cut_last-append b'@' (user_info u) hp no_at)
          ∙ ap (λ x. parse_host x hp) (with_user-user_info u v is.user_bytes is.passwd_bytes)
          ∙ parse_host-host_and_port u w is.first is.others is.not_empty chars is.port_known scheme
              fresh)
    ]

-- ===== src/Url/Host.antt =====
-- Host and port of a URL: what `HostAndPort` prints, `Parse` reads.
use mathlib.Core.Path.{subst}
use datareel.Prelude.{
  ℕ, ◌≤◌, ◌≡◌, ◌≢◌, refl, sym, ap, ◌∙◌, Bool, true, false, not, ◌&&◌, Option, none, some, List, [],
  ◌∷◌, ◌++◌, All, All-map, arith, ◌==◌, if◌then◌else◌, Bool-cases, inl, inr, append_assoc, ne→==,
}
use datareel.Url.{GxsUrlInfo, default_port, has_colon, host_and_port}
use datareel.Url.Text.{is_space, lower_char, cut, decimal}
use datareel.Url.Cuts.{
  Lacks, cut-append, cut_last-absent, cut_last-append, cut-Lacks, to_lower-same,
}
use datareel.Url.Port.{IsDigit, decimal-IsDigit, port_loop-print, decimal-not_empty}
use datareel.Url.Parse.{parse_port, finish_host, plain_host, literal_host, parse_host}

-- A character that a host may have here: not a capital, no space and no delimiter.
pub record IsHostChar (c : ℕ) : Type 0 where
  pub small : lower_char c ≡ c
  pub no_space : is_space c ≡ false
  pub no_slash : c ≢ b'/'
  pub no_question : c ≢ b'?'
  pub no_hash : c ≢ b'#'
  pub no_at : c ≢ b'@'
  pub no_open : c ≢ b'['
  pub no_close : c ≢ b']'

-- The port is printed.
abbrev pub explicit : GxsUrlInfo → Bool
explicit u = u.port_given && not (u.port == default_port u.scheme)

finish_host-default :
    (v : GxsUrlInfo) (c : ℕ) (h : List ℕ)
    → All IsHostChar (c ∷ h)
    → finish_host (record v { host = c ∷ h }) []
      ≡ (true, record v { host = c ∷ h; port = default_port v.scheme })
unfolding finish_host parse_port
finish_host-default v c h chars =
    let lower = to_lower-same (c ∷ h) (All-map (c ∷ h) (λ x (k : IsHostChar x). k.small) chars) in
    ap (λ (x : List ℕ). (true, record v { host = x; port = default_port v.scheme })) lower

finish_host-port :
    (v : GxsUrlInfo) (c : ℕ) (h : List ℕ) (port : ℕ)
    → All IsHostChar (c ∷ h)
    → port ≢ 0
    → port ≤ 65535
    → finish_host (record v { host = c ∷ h }) (decimal 5 port)
      ≡ (true, record v { host = c ∷ h; port = port; port_given = true })
unfolding finish_host parse_port
finish_host-port v c h port chars ne le =
    let lower = to_lower-same (c ∷ h) (All-map (c ∷ h) (λ x (k : IsHostChar x). k.small) chars) in
    rw (decimal-not_empty 4 port, port_loop-print port le, ne→== port 0 ne)
      (ap (λ (x : List ℕ). (true, record v { host = x; port = port; port_given = true })) lower)

parse_host-plain :
    (v : GxsUrlInfo) (c : ℕ) (h port_part : List ℕ)
    → All IsHostChar (c ∷ h)
    → Lacks b':' (c ∷ h)
    → Lacks b':' port_part
    → (parse_host v (c ∷ h) ≡ finish_host (record v { host = c ∷ h }) [])
      × (parse_host v ((c ∷ h) ++ (b':' ∷ port_part))
          ≡ finish_host (record v { host = c ∷ h }) port_part)
unfolding parse_host plain_host literal_host
parse_host-plain v c h port_part chars lacks lacks' =
    let no_open = ne→== c b'[' chars.0.no_open in
    (
      rw no_open (ap (plain_host v) (cut_last-absent b':' (c ∷ h) lacks)),
      rw no_open (ap (plain_host v) (cut_last-append b':' (c ∷ h) port_part lacks')),
    )

parse_host-brackets :
    (v : GxsUrlInfo) (h port_part : List ℕ)
    → All IsHostChar h
    → (parse_host v (b'[' ∷ (h ++ (b']' ∷ []))) ≡ finish_host (record v { host = h }) [])
      × (parse_host v (b'[' ∷ (h ++ (b']' ∷ b':' ∷ port_part)))
          ≡ finish_host (record v { host = h }) port_part)
unfolding parse_host plain_host literal_host
parse_host-brackets v h port_part chars =
    let lacks : Lacks b']' h = All-map h (λ x (k : IsHostChar x). k.no_close) chars in
    (
      ap (literal_host v) (cut-append b']' h [] lacks),
      ap (literal_host v) (cut-append b']' h (b':' ∷ port_part) lacks),
    )

has_colon-Lacks : (s : List ℕ) → has_colon s ≡ false → Lacks b':' s
has_colon-Lacks s h = cut-Lacks b':' s (no_cut (cut b':' s).1 h)
  where
    no_cut :
        (after : Option (List ℕ))
        → (elim after [ none ↦ false | some _ ↦ true ]) ≡ false
        → after ≡ none
    no_cut none e = refl
    no_cut (some t) e = cc

abbrev host_text : List ℕ → List ℕ
host_text h = if has_colon h then b'[' ∷ (h ++ (b']' ∷ [])) else h

-- The host alone, and with a port.
parse_host-host_text :
    (v : GxsUrlInfo) (c : ℕ) (h port_part : List ℕ)
    → All IsHostChar (c ∷ h)
    → Lacks b':' port_part
    → (parse_host v (host_text (c ∷ h)) ≡ finish_host (record v { host = c ∷ h }) [])
      × (parse_host v (host_text (c ∷ h) ++ (b':' ∷ port_part))
          ≡ finish_host (record v { host = c ∷ h }) port_part)
parse_host-host_text v c h port_part chars lacks = elim (Bool-cases (has_colon (c ∷ h))) [
  | inl colon ↦
      let (alone, both) = parse_host-brackets v (c ∷ h) port_part chars in
      rw colon (
        alone,
        ap (λ t. parse_host v (b'[' ∷ t)) (append_assoc (c ∷ h) (b']' ∷ []) (b':' ∷ port_part))
            ∙ both,
      )
  | inr none_there ↦
      rw none_there
        (parse_host-plain v c h port_part chars (has_colon-Lacks (c ∷ h) none_there) lacks)
]

-- A port that is printed can be read; one that is not is that of the scheme.
pub record IsPort (u : GxsUrlInfo) : Type 0 where
  pub positive : explicit u ≡ true → u.port ≢ 0
  pub bounded : explicit u ≡ true → u.port ≤ 65535
  pub default : explicit u ≡ false → u.port ≡ default_port u.scheme

abbrev pub printed : List ℕ → ℕ → Bool → List ℕ
printed h port true = host_text h ++ (b':' ∷ decimal 5 port)
printed h port false = host_text h

parse_host-printed :
    (v : GxsUrlInfo) (c : ℕ) (h : List ℕ) (port : ℕ) (b : Bool)
    → All IsHostChar (c ∷ h)
    → (b ≡ true → port ≢ 0)
    → (b ≡ true → port ≤ 65535)
    → (b ≡ false → port ≡ default_port v.scheme)
    → v.port_given ≡ false
    → parse_host v (printed (c ∷ h) port b)
      ≡ (true, record v { host = c ∷ h; port = port; port_given = b })
parse_host-printed v c h port true chars positive bounded default fresh =
    let no_colon : Lacks b':' (decimal 5 port) =
      All-map (decimal 5 port) (λ x (k : IsDigit x) e. absurd (omega (arith, k.1)))
        (decimal-IsDigit 5 port) in
    (parse_host-host_text v c h (decimal 5 port) chars no_colon).1
    ∙ finish_host-port v c h port chars (positive refl) (bounded refl)
parse_host-printed v c h port false chars positive bounded default fresh =
    (parse_host-host_text v c h [] chars tt).0
    ∙ finish_host-default v c h chars
    ∙ ap (λ (p : ℕ). (true, record v { host = c ∷ h; port = p })) (sym (default refl))
    ∙ ap (λ (g : Bool). (true, record v { host = c ∷ h; port = port; port_given = g })) fresh

pub host_and_port-printed : (u : GxsUrlInfo) → host_and_port u ≡ printed u.host u.port (explicit u)
unfolding host_and_port
host_and_port-printed u = elim (Bool-cases (explicit u)) [
  | inl shown ↦ rw shown refl
  | inr hidden ↦ rw hidden refl
]

-- What `HostAndPort` prints is read as host and port.
pub parse_host-host_and_port :
    (u v : GxsUrlInfo) (c : ℕ) (h : List ℕ)
    → u.host ≡ c ∷ h
    → All IsHostChar (c ∷ h)
    → IsPort u
    → v.scheme ≡ u.scheme
    → v.port_given ≡ false
    → parse_host v (host_and_port u)
      ≡ (true, record v { host = u.host; port = u.port; port_given = explicit u })
parse_host-host_and_port u v c h host chars port scheme fresh =
    ap (parse_host v) (host_and_port-printed u)
    ∙ subst
        (λ (z : List ℕ).
          parse_host v (printed z u.port (explicit u))
          ≡ (true, record v { host = z; port = u.port; port_given = explicit u }))
        (sym host)
        (parse_host-printed v c h u.port (explicit u) chars port.positive port.bounded
          (λ e. port.default e ∙ ap default_port (sym scheme)) fresh)

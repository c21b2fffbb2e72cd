-- ===== src/Url/Port.antt =====
-- The port of a URL as `std::to_string` prints it and `Parse` reads it.
use datareel.Prelude.{
  ℕ, zero, suc, ◌+◌, ◌-◌, ◌*◌, ◌/◌, ◌%◌, ◌≤◌, ◌<◌, ◌≡◌, refl, sym, ap, ◌∙◌, false, some, List, [],
  ◌∷◌, ◌++◌, All, All-append, arith, ltb, Bool-cases, inl, inr, append_assoc, append-nil, ltb→lt,
  lt→ltb, le→ltb,
}
use datareel.Url.Text.{decimal, is_empty}
use datareel.Url.Parse.{port_loop}

abbrev pub IsDigit : ℕ → Type 0
IsDigit c = (b'0' ≤ c) × (c ≤ b'9')

abbrev limit : ℕ → ℕ
limit zero = 1
limit (suc rounds) = 10 * limit rounds

pub decimal-IsDigit : (rounds n : ℕ) → All IsDigit (decimal rounds n)
unfolding decimal
decimal-IsDigit zero n = tt
decimal-IsDigit (suc rounds) n = elim (Bool-cases (ltb n 10)) [
  | inl short ↦ rw short ((omega arith, omega (arith, ltb→lt n 10 short)), tt)
  | inr long ↦ rw long (
      All-append IsDigit (decimal rounds (n / 10)) _ (decimal-IsDigit rounds (n / 10))
        ((omega arith, omega arith), tt))
]

port_loop_digit :
    (port d n : ℕ) (rest : List ℕ)
    → d < 10
    → port * 10 + d ≡ n
    → n ≤ 65535
    → port_loop port ((b'0' + d) ∷ rest) ≡ port_loop n rest
unfolding port_loop
port_loop_digit port d n rest h e le =
    let value : port * 10 + (b'0' + d - b'0') ≡ n = omega arith in
    let low : ltb (b'0' + d) b'0' ≡ false = le→ltb b'0' (b'0' + d) (omega arith) in
    let high : ltb b'9' (b'0' + d) ≡ false = le→ltb (b'0' + d) b'9' (omega arith) in
    rw (value, low, high, le→ltb n 65535 le) refl

is_empty-append : (s t : List ℕ) → is_empty s ≡ false → is_empty (s ++ t) ≡ false
is_empty-append [] t h = cc
is_empty-append (x ∷ s) t h = refl

-- The digits are read as the number.
port_loop-decimal :
    (rounds n : ℕ) (rest : List ℕ)
    → n < limit (suc rounds)
    → n ≤ 65535
    → port_loop 0 (decimal (suc rounds) n ++ rest) ≡ port_loop n rest
unfolding decimal
port_loop-decimal zero n rest h le =
    rw (lt→ltb n 10 (omega arith)) (port_loop_digit 0 n n rest (omega arith) (omega arith) le)
port_loop-decimal (suc rounds) n rest h le = elim (Bool-cases (ltb n 10)) [
  | inl short ↦ rw short (port_loop_digit 0 n n rest (ltb→lt n 10 short) (omega arith) le)
  | inr long ↦
      rw (long, append_assoc (decimal (suc rounds) (n / 10)) ((b'0' + n % 10) ∷ []) rest)
        (port_loop-decimal rounds (n / 10) ((b'0' + n % 10) ∷ rest) (omega arith) (omega arith)
          ∙ port_loop_digit (n / 10) (n % 10) n rest (omega arith) (omega arith) le)
]

-- The printed port is read back.
pub port_loop-print : (n : ℕ) → n ≤ 65535 → port_loop 0 (decimal 5 n) ≡ some n
unfolding port_loop
port_loop-print n le =
    ap (λ s. port_loop 0 s) (sym (append-nil (decimal 5 n)))
    ∙ port_loop-decimal 4 n [] (omega arith) le

pub decimal-not_empty : (rounds n : ℕ) → is_empty (decimal (suc rounds) n) ≡ false
unfolding decimal
decimal-not_empty zero n = elim (Bool-cases (ltb n 10)) [
  | inl short ↦ rw short refl
  | inr long ↦ rw long refl
]
decimal-not_empty (suc rounds) n = elim (Bool-cases (ltb n 10)) [
  | inl short ↦ rw short refl
  | inr long ↦
      rw long
        (is_empty-append (decimal (suc rounds) (n / 10)) _ (decimal-not_empty rounds (n / 10)))
]

-- ===== src/Cdate/Printed.antt =====
-- Dates that are printed and then read.
use datareel.Prelude.{
  ℕ, zero, suc, ◌+◌, ◌-◌, ◌*◌, ◌/◌, ◌%◌, ◌≤◌, ◌<◌, ◌≡◌, inl, inr, refl, sym, ap, ◌∙◌, true, false,
  ◌||◌, some, List, [], ◌∷◌, ◌++◌, append_assoc, append-nil, ltb, ◌==◌, arith, Bool-cases, lt→ltb,
}
use mathlib.Core.Path.{subst}
use datareel.Cdate.Scanning.{limit}
use datareel.Prelude.{ltb→lt}
use datareel.Cdate.{
  Cdate, Scan, decimal, to_string, str, add_digit, scan_char, scan, finish_date, set_date,
}

-- The number that is read, with so many digits of it.
abbrev put : ℕ → ℕ → ℕ → Scan → Scan
put zero n k st = record st { first = n; digits = k }
put (suc zero) n k st = record st { second = n; digits = k }
put (suc (suc _)) n k st = record st { third = n; digits = k }

put_digit :
    (field n k d : ℕ) (st : Scan)
    → add_digit field d (record (put field n k st) { digits = k + 1 })
      ≡ put field (n * 10 + d) (k + 1) st
put_digit zero n k d st = refl
put_digit (suc zero) n k d st = refl
put_digit (suc (suc f)) n k d st = refl

put-field :
    (field n k : ℕ) (st : Scan)
    → ((put field n k st).field ≡ st.field) × ((put field n k st).digits ≡ k)
put-field zero n k st = (refl, refl)
put-field (suc zero) n k st = (refl, refl)
put-field (suc (suc f)) n k st = (refl, refl)

char_digit :
    (p : Scan) (d : ℕ)
    → d < 10
    → p.digits < 4
    → scan_char b'/' (b'0' + d) p ≡ some (add_digit p.field d (record p { digits = p.digits + 1 }))
unfolding scan_char
char_digit p d small few =
    let other : (b'0' + d == b'/') ≡ false = ground arith in
    let digit : (ltb (b'0' + d) b'0' || ltb b'9' (b'0' + d)) ≡ false = ground arith in
    let room : ltb 4 (p.digits + 1) ≡ false = ground arith in
    let value : (b'0' + d) - b'0' ≡ d = omega arith in
    rw (other, digit, room)
      (ap (λ x. some (add_digit p.field x (record p { digits = p.digits + 1 }))) value)

scan_digit :
    (n k d : ℕ) (st : Scan) (rest : List ℕ)
    → d < 10
    → k < 4
    → scan b'/' ((b'0' + d) ∷ rest) (put st.field n k st)
      ≡ scan b'/' rest (put st.field (n * 10 + d) (k + 1) st)
unfolding scan
scan_digit n k d st rest small few =
    let p = put st.field n k st in
    let (same_field, same_digits) = put-field st.field n k st in
    let goes =
      char_digit p d small (omega (arith, same_digits))
      ∙ ap (λ f. some (add_digit f d (record p { digits = p.digits + 1 }))) same_field
      ∙ ap (λ x. some (add_digit st.field d (record p { digits = x + 1 }))) same_digits
      ∙ ap some (put_digit st.field n k d st) in
    rw (goes, scan) refl

-- What is left to scan after the digits of a number.
abbrev HasRead : ℕ → ℕ → List ℕ → List ℕ → Scan → Type 0
HasRead n most digits rest st =
    (k : ℕ) × (0 < k)
    × (k ≤ most)
    × (scan b'/' (digits ++ rest) (put st.field 0 0 st) ≡ scan b'/' rest (put st.field n k st))

one_digit :
    (n : ℕ) (most : ℕ) (st : Scan) (rest : List ℕ)
    → n < 10
    → 0 < most
    → HasRead n most ((b'0' + n) ∷ []) rest st
one_digit n most st rest small pos = (
  1,
  omega arith,
  omega arith,
  scan_digit 0 0 n st rest small (omega arith) ∙ ap2 (omega arith) (omega arith),
)
  where
    ap2 :
        {x y : ℕ} {j k : ℕ}
        → x ≡ y
        → j ≡ k
        → scan b'/' rest (put st.field x j st) ≡ scan b'/' rest (put st.field y k st)
    ap2 {x = x} {k = k} e f =
        ap (λ z. scan b'/' rest (put st.field x z st)) f
        ∙ ap (λ z. scan b'/' rest (put st.field z k st)) e

decimal_step :
    (rounds n : ℕ)
    → ltb n 10 ≡ false
    → decimal (suc rounds) n ≡ decimal rounds (n / 10) ++ ((b'0' + n % 10) ∷ [])
decimal_step rounds n long = rw long refl

decimal-HasRead :
    (rounds j n : ℕ) (st : Scan) (rest : List ℕ)
    → j ≤ rounds
    → j ≤ 3
    → n < limit (suc j)
    → HasRead n (suc j) (decimal (suc rounds) n) rest st
decimal-HasRead rounds zero n st rest le few small =
    rw (lt→ltb n 10 (omega arith)) (one_digit n 1 st rest (omega arith) (omega arith))
decimal-HasRead zero (suc j) n st rest le few small = absurd (omega arith)
decimal-HasRead (suc rounds) (suc j) n st rest le few small = elim (Bool-cases (ltb n 10)) [
  | inl short ↦ rw short (one_digit n (suc (suc j)) st rest (ltb→lt n 10 short) (omega arith))
  | inr long ↦
      let d = n % 10 in
      let (k, pos, most, read) =
        decimal-HasRead rounds j (n / 10) st ((b'0' + d) ∷ rest) (omega arith) (omega arith)
          (omega arith) in
      let text = append_assoc (decimal (suc rounds) (n / 10)) ((b'0' + d) ∷ []) rest in
      let whole : n / 10 * 10 + d ≡ n = omega arith in
      subst (λ t. HasRead n (suc (suc j)) t rest st) (sym (decimal_step (suc rounds) n long))
        (
          k + 1,
          omega arith,
          omega arith,
          ap (λ t. scan b'/' t (put st.field 0 0 st)) text
              ∙ read
              ∙ scan_digit (n / 10) k d st rest (omega arith) (omega arith)
              ∙ ap (λ x. scan b'/' rest (put st.field x (k + 1) st)) whole,
        )
]

to_string-HasRead :
    (n : ℕ) (st : Scan) (rest : List ℕ) → n < 10000 → HasRead n 4 (to_string n) rest st
unfolding to_string
to_string-HasRead n st rest small =
    decimal-HasRead 4 3 n st rest (omega arith) (omega arith) (omega arith)

char_delimiter :
    (p : Scan)
    → 0 < p.digits
    → p.field + 1 ≤ 2
    → scan_char b'/' b'/' p ≡ some (record p { field = p.field + 1; digits = 0 })
unfolding scan_char
char_delimiter p pos more =
    let goes : ((p.digits == 0) || ltb 2 (p.field + 1)) ≡ false = ground arith in rw goes refl

scan_delimiter :
    (p : Scan) (rest : List ℕ)
    → 0 < p.digits
    → p.field + 1 ≤ 2
    → scan b'/' (b'/' ∷ rest) p ≡ scan b'/' rest (record p { field = p.field + 1; digits = 0 })
unfolding scan
scan_delimiter p rest pos more = rw (char_delimiter p pos more, scan) refl

scan_end : (p : Scan) → scan b'/' [] p ≡ some p
unfolding scan
scan_end p = refl

abbrev read_to : ℕ → ℕ → ℕ → ℕ → ℕ → Scan
read_to a b c field digits = record {
  first = a;
  second = b;
  third = c;
  field = field;
  digits = digits;
}

finish_date-read :
    (ob : Cdate) (k : ℕ)
    → 0 < k
    → ob.month ≤ 12
    → ob.day ≤ 31
    → ob.year ≤ 9999
    → finish_date (read_to ob.month ob.day ob.year 2 k) ≡ (true, ob)
unfolding finish_date
finish_date-read ob k pos month day year =
    let digits : (k == 0) ≡ false = ground arith in
    let fits : (ltb 12 ob.month || ltb 31 ob.day) ≡ false = ground arith in
    let m : ob.month % 256 ≡ ob.month = omega arith in
    let d : ob.day % 256 ≡ ob.day = omega arith in
    let y : ob.year % 65536 ≡ ob.year = omega arith in rw (digits, fits, m, d, y) refl

-- A date with a month up to 12, a day up to 31 and a year up to 9999 that is printed by str is read
-- back by SetDate, which returns true.
pub set_date-str :
    (ob : Cdate)
    → ob.month ≤ 12
    → ob.day ≤ 31
    → ob.year ≤ 9999
    → set_date (str ob) b'/' ≡ (true, ob)
unfolding set_date str
set_date-str ob month day year =
    let text = to_string ob.day ++ (b'/' ∷ to_string ob.year) in
    let (k1, pos1, _, read1) =
      to_string-HasRead ob.month (read_to 0 0 0 0 0) (b'/' ∷ text) (omega arith) in
    let (k2, pos2, _, read2) =
      to_string-HasRead ob.day (read_to ob.month 0 0 1 0) (b'/' ∷ to_string ob.year)
        (omega arith) in
    let (k3, pos3, _, read3) =
      to_string-HasRead ob.year (read_to ob.month ob.day 0 2 0) [] (omega arith) in
    let scanned =
      read1
      ∙ scan_delimiter (read_to ob.month 0 0 0 k1) text pos1 (omega arith)
      ∙ read2
      ∙ scan_delimiter (read_to ob.month ob.day 0 1 k2) (to_string ob.year) pos2 (omega arith)
      ∙ ap (λ t. scan b'/' t (read_to ob.month ob.day 0 2 0)) (sym (append-nil (to_string ob.year)))
      ∙ read3
      ∙ scan_end (read_to ob.month ob.day ob.year 2 k3) in
    rw (scanned, set_date) (finish_date-read ob k3 pos3 month day year)

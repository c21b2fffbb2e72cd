-- ===== src/Cdate/Scanning.antt =====
-- The numbers that `SetDate` reads.
use datareel.Prelude.{
  Bool, ℕ, zero, suc, ◌+◌, ◌-◌, ◌*◌, ◌≤◌, ◌<◌, ◌≡◌, ◌⊎◌, inl, inr, refl, sym, ap, ◌∙◌, true, false,
  not, ◌||◌, none, some, List, [], ◌∷◌, ltb, ◌==◌, arith, Bool-cases,
}
use mathlib.Core.Path.{subst}
use datareel.Cdate.{Cdate, Scan, add_digit, scan_char, scan, finish_date, set_date, no_date}

-- The first number that has more than so many digits.
abbrev pub limit : ℕ → ℕ
limit zero = 1
limit (suc k) = limit k * 10

limit_zero : 1 ≡ limit 0
unfolding limit
limit_zero = refl

limit_suc : (k : ℕ) → limit (k + 1) ≡ limit k * 10
unfolding limit
limit_suc k = let e : k + 1 ≡ suc k = omega arith in ap limit e

limit-le : (k : ℕ) → k ≤ 4 → (limit k ≤ 10000) × (0 < limit k)
unfolding limit
limit-le zero h = (omega arith, omega arith)
limit-le (suc zero) h = (omega arith, omega arith)
limit-le (suc (suc zero)) h = (omega arith, omega arith)
limit-le (suc (suc (suc zero))) h = (omega arith, omega arith)
limit-le (suc (suc (suc (suc zero)))) h = (omega arith, omega arith)
limit-le (suc (suc (suc (suc (suc k))))) h = absurd (omega arith)

-- The numbers before that which is read are below 10000, it has its digits, and those after it are 0.
InLimits : ℕ → ℕ → Scan → Type 0
InLimits zero top st = (st.first < top) × (st.second ≡ 0) × (st.third ≡ 0)
InLimits (suc zero) top st = (st.first < 10000) × (st.second < top) × (st.third ≡ 0)
InLimits (suc (suc zero)) top st = (st.first < 10000) × (st.second < 10000) × (st.third < top)
InLimits (suc (suc (suc k))) top st = ⊥

IsShort : Scan → Type 0
IsShort st = (st.digits ≤ 4) × InLimits st.field (limit st.digits) st

add_digit-InLimits :
    (field d top : ℕ) (st : Scan)
    → d < 10
    → InLimits field top st
    → InLimits field (top * 10) (add_digit field d st)
unfolding InLimits
add_digit-InLimits zero d top st small (a, b, c) = (omega arith, b, c)
add_digit-InLimits (suc zero) d top st small (a, b, c) = (a, omega arith, c)
add_digit-InLimits (suc (suc zero)) d top st small (a, b, c) = (a, b, omega arith)
add_digit-InLimits (suc (suc (suc k))) d top st small h = h

InLimits-digits :
    (field top : ℕ) (st st' : Scan)
    → (st'.first ≡ st.first) × (st'.second ≡ st.second) × (st'.third ≡ st.third)
    → InLimits field top st
    → InLimits field top st'
unfolding InLimits
InLimits-digits zero top st st' (e, f, g) (a, b, c) = (omega arith, omega arith, omega arith)
InLimits-digits (suc zero) top st st' (e, f, g) (a, b, c) = (omega arith, omega arith, omega arith)
InLimits-digits (suc (suc zero)) top st st' (e, f, g) (a, b, c) =
    (omega arith, omega arith, omega arith)
InLimits-digits (suc (suc (suc k))) top st st' same h = h

-- The next number is read.
next-InLimits :
    (field top : ℕ) (st st' : Scan)
    → top ≤ 10000
    → 0 < top
    → field + 1 ≤ 2
    → (st'.first ≡ st.first) × (st'.second ≡ st.second) × (st'.third ≡ st.third)
    → InLimits field top st
    → InLimits (suc field) 1 st'
unfolding InLimits
next-InLimits zero top st st' le pos more (e, f, g) (a, b, c) =
    (omega arith, omega arith, omega arith)
next-InLimits (suc zero) top st st' le pos more (e, f, g) (a, b, c) =
    (omega arith, omega arith, omega arith)
next-InLimits (suc (suc k)) top st st' le pos more same h = absurd (omega arith)

add_digit_same :
    (field d : ℕ) (st : Scan)
    → ((add_digit field d st).field ≡ st.field) × ((add_digit field d st).digits ≡ st.digits)
add_digit_same zero d st = (refl, refl)
add_digit_same (suc zero) d st = (refl, refl)
add_digit_same (suc (suc k)) d st = (refl, refl)

scan_char-IsShort :
    (delimiter c : ℕ) (st : Scan)
    → IsShort st
    → (scan_char delimiter c st ≡ none)
      ⊎ ((next : Scan) × (scan_char delimiter c st ≡ some next) × IsShort next)
unfolding scan_char IsShort
scan_char-IsShort delimiter c st (few, short) = elim (Bool-cases (c == delimiter)) [
  | inl ends ↦ elim (Bool-cases ((st.digits == 0) || ltb 2 (st.field + 1))) [
    | inl wrong ↦ rw (ends, wrong) (inl refl)
    | inr right ↦
        let (le, pos) = limit-le st.digits few in
        let up : suc st.field ≡ st.field + 1 = omega arith in
        rw (ends, right)
          (inr (
            record st { field = st.field + 1; digits = 0 },
            refl,
            (
              omega arith,
              subst (λ f. InLimits f (limit 0) (record st { field = st.field + 1; digits = 0 })) up
                  (subst
                    (λ top.
                      InLimits (suc st.field) top (record st { field = st.field + 1; digits = 0 }))
                    limit_zero
                    (next-InLimits st.field (limit st.digits) st
                      (record st { field = st.field + 1; digits = 0 }) le pos
                      (ground (arith, right)) (refl, refl, refl) short)),
            ),
          ))
  ]
  | inr reads ↦ elim (Bool-cases (ltb c b'0' || ltb b'9' c)) [
    | inl wrong ↦ rw (reads, wrong) (inl refl)
    | inr digit ↦ elim (Bool-cases (ltb 4 (st.digits + 1))) [
      | inl long ↦ rw (reads, digit, long) (inl refl)
      | inr room ↦
          let st' = record st { digits = st.digits + 1 } in
          let short' = InLimits-digits st.field (limit st.digits) st st' (refl, refl, refl) short in
          let (same_field, same_digits) = add_digit_same st.field (c - b'0') st' in
          let read =
            add_digit-InLimits st.field (c - b'0') (limit st.digits) st' (ground (arith, digit))
              short' in
          let digit_read =
            subst
              (λ f.
                InLimits f (limit (add_digit st.field (c - b'0') st').digits)
                  (add_digit st.field (c - b'0') st'))
              (sym same_field)
              (subst (λ top. InLimits st.field top (add_digit st.field (c - b'0') st'))
                (sym (limit_suc st.digits) ∙ ap limit (sym same_digits)) read) in
          rw (reads, digit, room)
            (inr
              (add_digit st.field (c - b'0') st', refl, (ground (arith, same_digits), digit_read)))
    ]
  ]
]

scan-IsShort :
    (delimiter : ℕ) (date : List ℕ) (st : Scan)
    → IsShort st
    → (scan delimiter date st ≡ none)
      ⊎ ((end : Scan) × (scan delimiter date st ≡ some end) × IsShort end)
unfolding scan
scan-IsShort delimiter [] st short = inr (st, refl, short)
scan-IsShort delimiter (c ∷ date) st short = elim (scan_char-IsShort delimiter c st short) [
  | inl fails ↦ rw (fails, scan) (inl refl)
  | inr (next, goes, short') ↦ rw (goes, scan) (scan-IsShort delimiter date next short')
]

third_small :
    (field top : ℕ) (st : Scan) → top ≤ 10000 → 0 < top → InLimits field top st → st.third < 10000
unfolding InLimits
third_small zero top st le pos (a, b, c) = omega arith
third_small (suc zero) top st le pos (a, b, c) = omega arith
third_small (suc (suc zero)) top st le pos (a, b, c) = omega arith
third_small (suc (suc (suc k))) top st le pos h = elim h [ ]

-- What `SetDate` ends with.
abbrev pub IsSetDate : Bool × Cdate → Type 0
IsSetDate r =
    ((r.0 ≡ false) × (r.1 ≡ no_date))
    ⊎ ((r.0 ≡ true) × (r.1.month ≤ 12) × (r.1.day ≤ 31) × (r.1.year ≤ 9999))

finish_date-IsSetDate : (st : Scan) → IsShort st → IsSetDate (finish_date st)
unfolding finish_date IsShort
finish_date-IsSetDate st (few, short) =
    elim (Bool-cases (not (st.field == 2) || (st.digits == 0))) [
      | inl wrong ↦ rw wrong (inl (refl, refl))
      | inr right ↦ elim (Bool-cases (ltb 12 st.first || ltb 31 st.second)) [
        | inl wrong ↦ rw (right, wrong) (inl (refl, refl))
        | inr fits ↦
            let (le, pos) = limit-le st.digits few in
            let year = third_small st.field (limit st.digits) st le pos short in
            let month : st.first ≤ 12 = ground (arith, fits) in
            let day : st.second ≤ 31 = ground (arith, fits) in
            rw (right, fits) (inr (refl, omega arith, omega arith, omega arith))
      ]
    ]

begin-IsShort : IsShort (record { first = 0; second = 0; third = 0; field = 0; digits = 0 })
unfolding IsShort InLimits limit
begin-IsShort = (omega arith, (omega arith, refl, refl))

-- For any text and any delimiter, SetDate either returns false and leaves the date at 0/0/0, or it
-- returns true and the month is at most 12, the day at most 31 and the year at most 9999.
pub set_date-IsSetDate : (date : List ℕ) (delimiter : ℕ) → IsSetDate (set_date date delimiter)
unfolding set_date
set_date-IsSetDate date delimiter =
    let begin : Scan = record { first = 0; second = 0; third = 0; field = 0; digits = 0 } in
    elim (scan-IsShort delimiter date begin begin-IsShort) [
      | inl fails ↦ rw (fails, set_date) (inl (refl, refl))
      | inr (st, goes, short) ↦ rw (goes, set_date) (finish_date-IsSetDate st short)
    ]

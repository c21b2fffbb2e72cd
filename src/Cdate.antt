-- ===== src/Cdate.antt =====
-- The dates of src/cdate.cpp and include/cdate.h. Texts are lists of characters, characters their
-- numbers. A month and a day are one byte each and a year two.
pub mod Scanning
pub mod Printed
pub mod Ordered
mod Tests
use datareel.Prelude.{
  ℕ, zero, suc, ◌+◌, ◌-◌, ◌*◌, ◌/◌, ◌%◌, Bool, true, false, not, ◌&&◌, ◌||◌, Option, none, some,
  List, [], ◌∷◌, ◌++◌, ltb, leb, ◌==◌, if◌then◌else◌,
}

-- `CDate`
pub record Cdate : Type 0 where
  pub month : ℕ
  pub day : ℕ
  pub year : ℕ

-- `std::to_string`, for a number of at most as many digits as there are rounds.
abbrev pub decimal : ℕ → ℕ → List ℕ
decimal zero n = []
decimal (suc rounds) n =
    let before = decimal rounds (n / 10) in
    if ltb n 10 then (b'0' + n) ∷ [] else before ++ ((b'0' + n % 10) ∷ [])

-- A number of two bytes has at most five digits.
unfoldable pub to_string : ℕ → List ℕ
to_string n = decimal 5 n

-- `str`
unfoldable pub str : Cdate → List ℕ
unfolding to_string
str ob = to_string ob.month ++ (b'/' ∷ (to_string ob.day ++ (b'/' ∷ to_string ob.year)))

-- `operator==`
unfoldable pub equal : Cdate → Cdate → Bool
equal a b = (a.year == b.year) && (a.month == b.month) && (a.day == b.day)

-- `operator<`
unfoldable pub less : Cdate → Cdate → Bool
less a b =
    if not (a.year == b.year)
    then ltb a.year b.year
    else if not (a.month == b.month)
    then ltb a.month b.month
    else ltb a.day b.day

-- `operator!=`
abbrev pub differs : Cdate → Cdate → Bool
differs a b = not (equal a b)

-- `operator>`
abbrev pub greater : Cdate → Cdate → Bool
greater a b = less b a

-- `SetDay`, `SetMonth`, `SetYear`
abbrev pub set_day : ℕ → Cdate → Cdate
set_day byte ob = record ob { day = byte }

abbrev pub set_month : ℕ → Cdate → Cdate
set_month byte ob = record ob { month = byte }

abbrev pub set_year : ℕ → Cdate → Cdate
set_year uint16 ob = record ob { year = uint16 }

-- The variables of the loop of `SetDate`: the three numbers, the number that is read, and its digits.
pub record Scan : Type 0 where
  pub first : ℕ
  pub second : ℕ
  pub third : ℕ
  pub field : ℕ
  pub digits : ℕ

-- `fields[field] = fields[field] * 10 + d`
abbrev pub add_digit : ℕ → ℕ → Scan → Scan
add_digit zero d st = record st { first = st.first * 10 + d }
add_digit (suc zero) d st = record st { second = st.second * 10 + d }
add_digit (suc (suc _)) d st = record st { third = st.third * 10 + d }

-- The loop body, or `return false`.
unfoldable pub scan_char : ℕ → ℕ → Scan → Option Scan
scan_char delimiter c st =
    if c == delimiter
    then if (st.digits == 0) || ltb 2 (st.field + 1)
      then none
      else some (record st { field = st.field + 1; digits = 0 })
    else if ltb c b'0' || ltb b'9' c
    then none
    else if ltb 4 (st.digits + 1)
    then none
    else some (add_digit st.field (c - b'0') (record st { digits = st.digits + 1 }))

unfoldable pub scan : ℕ → List ℕ → Scan → Option Scan
unfolding scan_char
scan delimiter [] st = some st
scan delimiter (c ∷ date) st = elim (scan_char delimiter c st) [
  | none ↦ none
  | some next ↦ scan delimiter date next
]

abbrev pub no_date : Cdate
no_date = record { month = 0; day = 0; year = 0 }

-- The tests after the loop, and the members of the date: each number is cut to its bytes.
unfoldable pub finish_date : Scan → Bool × Cdate
finish_date st =
    if not (st.field == 2) || (st.digits == 0)
    then (false, no_date)
    else if ltb 12 st.first || ltb 31 st.second
    then (false, no_date)
    else (true, record { month = st.first % 256; day = st.second % 256; year = st.third % 65536 })

-- `SetDate`: its result, and the date after it
unfoldable pub set_date : List ℕ → ℕ → Bool × Cdate
unfolding scan finish_date
set_date date delimiter =
    elim (scan delimiter date
      (record { first = 0; second = 0; third = 0; field = 0; digits = 0 })) [
        | none ↦ (false, no_date)
        | some st ↦ finish_date st
      ]

-- ===== src/Cdate/Tests.antt =====
-- Runs of dates.
use datareel.Prelude.{◌≡◌, refl, true, false, [], ◌∷◌, arith, ltb, ◌==◌, not}
use datareel.Cdate.{
  Cdate, no_date, str, to_string, set_date, scan, scan_char, finish_date, less, greater, equal,
  differs,
}
use datareel.Cdate.Printed.{set_date-str}
use datareel.Cdate.Scanning.{IsSetDate, set_date-IsSetDate}
use datareel.Cdate.Ordered.{number_of, less-number_of}

abbrev christmas : Cdate
christmas = record { month = 12; day = 25; year = 1999 }

str-christmas :
    str christmas ≡ b'1' ∷ b'2' ∷ b'/' ∷ b'2' ∷ b'5' ∷ b'/' ∷ b'1' ∷ b'9' ∷ b'9' ∷ b'9' ∷ []
unfolding str to_string
str-christmas = refl

-- A year of five digits is printed and not read.
set_date-late : set_date (str (record { month = 1; day = 1; year = 10000 })) b'/' ≡ (false, no_date)
unfolding set_date str to_string scan scan_char finish_date
set_date-late = refl

set_date-str_example : set_date (str christmas) b'/' ≡ (true, christmas)
set_date-str_example = set_date-str christmas (omega arith) (omega arith) (omega arith)

set_date-IsSetDate_example : IsSetDate (set_date (b'1' ∷ b'/' ∷ b'4' ∷ []) b'/')
set_date-IsSetDate_example = set_date-IsSetDate (b'1' ∷ b'/' ∷ b'4' ∷ []) b'/'

abbrev new_year : Cdate
new_year = record { month = 1; day = 1; year = 2000 }

less-number_of_example :
    (less christmas new_year ≡ ltb (number_of christmas) (number_of new_year))
    × (greater christmas new_year ≡ ltb (number_of new_year) (number_of christmas))
    × (equal christmas new_year ≡ (number_of christmas == number_of new_year))
    × (differs christmas new_year ≡ not (number_of christmas == number_of new_year))
less-number_of_example =
    less-number_of christmas new_year (omega arith) (omega arith) (omega arith) (omega arith)

-- In another year the month does not count, and in the same year it counts before the day.
less-christmas : less christmas new_year ≡ true
unfolding less
less-christmas = refl

less-march :
    less (record { month = 2; day = 28; year = 1999 }) (record { month = 3; day = 1; year = 1999 })
    ≡ true
unfolding less
less-march = refl

-- ===== src/Cdate/Ordered.antt =====
-- The comparisons of dates.
use datareel.Prelude.{ℕ, ◌+◌, ◌*◌, ◌<◌, ◌≡◌, ltb, ◌==◌, not, arith}
use datareel.Cdate.{Cdate, less, greater, equal, differs}

-- The number whose digits of base 256 are the year, the month and the day.
abbrev pub number_of : Cdate → ℕ
number_of d = d.year * 65536 + d.month * 256 + d.day

-- On dates whose month and day are bytes, the comparisons are those of the numbers
-- year * 65536 + month * 256 + day: a date is earlier where its number is smaller, later where it is
-- greater, and two dates are equal where the numbers are.
pub less-number_of :
    (a b : Cdate)
    → a.month < 256
    → a.day < 256
    → b.month < 256
    → b.day < 256
    → (less a b ≡ ltb (number_of a) (number_of b))
      × (greater a b ≡ ltb (number_of b) (number_of a))
      × (equal a b ≡ (number_of a == number_of b))
      × (differs a b ≡ not (number_of a == number_of b))
unfolding less equal
less-number_of a b am ad bm bd = (ground arith, ground arith, ground arith, ground arith)

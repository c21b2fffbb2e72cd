-- ===== src/Url/Text.antt =====
-- The text helpers of include/strutil.h that URLs use, and the searches of std::string. Texts are
-- lists of characters, characters their numbers.
use datareel.Prelude.{
  ℕ, zero, suc, ◌+◌, ◌-◌, ◌/◌, ◌%◌, Bool, true, false, ◌&&◌, ◌||◌, Option, none, some, List, [],
  ◌∷◌, ◌++◌, map, ltb, leb, ◌==◌, if◌then◌else◌,
}

unfoldable pub is_space : ℕ → Bool
is_space c = (c == b' ') || (c == 0x09) || (c == 0x0d) || (c == 0x0a) || (c == 0x0c) || (c == 0x0b)

-- `to_lower` of a character.
unfoldable pub lower_char : ℕ → ℕ
lower_char c = if leb b'A' c && leb c b'Z' then c - b'A' + b'a' else c

abbrev pub to_lower : List ℕ → List ℕ
to_lower s = map lower_char s

unfoldable pub trim_left_view : List ℕ → List ℕ
trim_left_view [] = []
trim_left_view (c ∷ s) = if is_space c then trim_left_view s else c ∷ s

abbrev pub is_empty : List ℕ → Bool
is_empty [] = true
is_empty (c ∷ s) = false

-- The spaces at the end are those that only spaces follow.
unfoldable pub trim_right_view : List ℕ → List ℕ
trim_right_view [] = []
trim_right_view (c ∷ s) =
    let rest = trim_right_view s in if is_empty rest && is_space c then [] else c ∷ rest

unfoldable pub starts_with : List ℕ → List ℕ → Bool
starts_with s [] = true
starts_with [] (p ∷ ps) = false
starts_with (c ∷ s) (p ∷ ps) = (c == p) && starts_with s ps

abbrev pub same : List ℕ → List ℕ → Bool
same [] [] = true
same [] (d ∷ t) = false
same (c ∷ s) [] = false
same (c ∷ s) (d ∷ t) = (c == d) && same s t

-- `find` of a character: what stands before it, and what after it if it is there.
unfoldable pub cut : ℕ → List ℕ → List ℕ × Option (List ℕ)
cut c [] = ([], none)
cut c (x ∷ s) =
    let (before, after) = cut c s in if x == c then ([], some s) else (x ∷ before, after)

-- `rfind` of a character, in the same way.
unfoldable pub cut_last : ℕ → List ℕ → List ℕ × Option (List ℕ)
cut_last c [] = ([], none)
cut_last c (x ∷ s) =
    let (before, after) = cut_last c s in
    elim after [
      | some rest ↦ (x ∷ before, some rest)
      | none ↦ if x == c then ([], some s) else (x ∷ before, none)
    ]

-- `find` of "://".
unfoldable pub cut_scheme : List ℕ → Option (List ℕ × List ℕ)
cut_scheme [] = none
cut_scheme (x ∷ s) =
    let rest = cut_scheme s in
    if starts_with (x ∷ s) (b':' ∷ b'/' ∷ b'/' ∷ [])
    then elim s [ [] ↦ none | _ ∷ t ↦ elim t [ [] ↦ none | _ ∷ u ↦ some ([], u) ] ]
    else elim rest [ none ↦ none | some (scheme, u) ↦ some (x ∷ scheme, u) ]

abbrev pub or_empty : Option (List ℕ) → List ℕ
or_empty none = []
or_empty (some s) = s

-- `std::to_string`, for a number of at most as many digits as there are rounds.
unfoldable pub decimal : ℕ → ℕ → List ℕ
decimal zero n = []
decimal (suc rounds) n =
    let before = decimal rounds (n / 10) in
    if ltb n 10 then (b'0' + n) ∷ [] else before ++ ((b'0' + n % 10) ∷ [])

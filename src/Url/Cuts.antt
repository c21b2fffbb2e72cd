-- ===== src/Url/Cuts.antt =====
-- The searches and the trimming of Url/Text on texts that are put together from parts.
use datareel.Prelude.{
  ℕ, ◌≡◌, ◌≢◌, refl, true, false, none, some, List, [], ◌∷◌, ◌++◌, All, arith, ◌==◌, ne→==, eq→==,
  Bool-cases, inl, inr,
}
use datareel.Url.Text.{
  is_space, lower_char, to_lower, trim_left_view, trim_right_view, starts_with, cut, cut_last,
  cut_scheme,
}

abbrev pub Lacks : ℕ → List ℕ → Type 0
Lacks c = All (λ x. x ≢ c)

pub cut-absent : (c : ℕ) (s : List ℕ) → Lacks c s → cut c s ≡ (s, none)
unfolding cut
cut-absent c [] h = refl
cut-absent c (x ∷ s) h = rw (cut-absent c s h.1, ne→== x c h.0) refl

pub cut-append : (c : ℕ) (s t : List ℕ) → Lacks c s → cut c (s ++ (c ∷ t)) ≡ (s, some t)
unfolding cut
cut-append c [] t h = rw (eq→== c c refl) refl
cut-append c (x ∷ s) t h = rw (cut-append c s t h.1, ne→== x c h.0) refl

pub cut_last-absent : (c : ℕ) (s : List ℕ) → Lacks c s → cut_last c s ≡ (s, none)
unfolding cut_last
cut_last-absent c [] h = refl
cut_last-absent c (x ∷ s) h = simp (cut_last-absent c s h.1, ne→== x c h.0) refl

pub cut_last-append : (c : ℕ) (s t : List ℕ) → Lacks c t → cut_last c (s ++ (c ∷ t)) ≡ (s, some t)
unfolding cut_last
cut_last-append c [] t h = rw (cut_last-absent c t h, eq→== c c refl) refl
cut_last-append c (x ∷ s) t h = simp (cut_last-append c s t h) refl

pub cut_scheme-append :
    (s t : List ℕ) → Lacks b':' s → cut_scheme (s ++ (b':' ∷ b'/' ∷ b'/' ∷ t)) ≡ some (s, t)
unfolding cut_scheme starts_with
cut_scheme-append [] t h = refl
cut_scheme-append (x ∷ s) t h = rw (ne→== x b':' h.0, cut_scheme-append s t h.1) refl

pub trim_right_view-none : (s : List ℕ) → All (λ c. is_space c ≡ false) s → trim_right_view s ≡ s
unfolding trim_right_view
trim_right_view-none [] h = refl
trim_right_view-none (c ∷ s) h = rw (trim_right_view-none s h.1, h.0) (ground arith)

pub trim_left_view-none : (c : ℕ) (s : List ℕ) → is_space c ≡ false → trim_left_view (c ∷ s) ≡ c ∷ s
unfolding trim_left_view
trim_left_view-none c s h = rw h refl

pub to_lower-same : (s : List ℕ) → All (λ c. lower_char c ≡ c) s → to_lower s ≡ s
to_lower-same [] h = refl
to_lower-same (c ∷ s) h = rw (h.0, to_lower-same s h.1) refl

none_found : (c x : ℕ) (s : List ℕ) → (x == c) ≡ true → (cut c (x ∷ s)).1 ≢ none
unfolding cut
none_found c x s found h = ground arith

cut_other :
    (c x : ℕ) (s : List ℕ) → (x == c) ≡ false → (cut c (x ∷ s)).1 ≡ none → (cut c s).1 ≡ none
unfolding cut
cut_other c x s other h = ground arith

pub cut-Lacks : (c : ℕ) (s : List ℕ) → (cut c s).1 ≡ none → Lacks c s
unfolding cut
cut-Lacks c [] h = tt
cut-Lacks c (x ∷ s) h = elim (Bool-cases (x == c)) [
  | inl found ↦ absurd (none_found c x s found h)
  | inr other ↦ (λ e. absurd (ground arith), cut-Lacks c s (cut_other c x s other h))
]

pub trim_left_view-All : (s : List ℕ) → All (λ c. is_space c ≡ false) s → trim_left_view s ≡ s
unfolding trim_left_view
trim_left_view-All [] h = refl
trim_left_view-All (c ∷ s) h = trim_left_view-none c s h.0

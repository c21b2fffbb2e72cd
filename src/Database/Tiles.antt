-- ===== src/Database/Tiles.antt =====
-- The layout of the heap: blocks that follow one another from its start to the end of the file.
use mathlib.Core.Path.{subst}
use mathlib.Core.Option.{some-injective}
use datareel.Prelude.{
  refl, eq→==, ne→==, ==→eq, ℕ, ◌+◌, ◌-◌, ◌≤◌, ◌<◌, ◌≡◌, ◌≢◌, sym, ap, ◌∙◌, Option, some, List, [],
  ◌∷◌, ◌++◌, ◌⊎◌, inl, inr, ◌==◌, if◌then◌else◌, arith, Bool-cases, some,
}
use datareel.Database.Format.{GxBlockHeader, update}

abbrev pub Headers : Type 0
Headers = ℕ → Option GxBlockHeader

-- A header of a block of `n` bytes stands at the address.
abbrev pub HasLength : Headers → ℕ → ℕ → Type 0
HasLength blocks a n = (hdr : GxBlockHeader) × (blocks a ≡ some hdr) × (hdr.block_length ≡ n)

-- The blocks, each with its address and length, fill the file from an address to its end.
abbrev pub IsTiled : Headers → ℕ → ℕ → List (ℕ × ℕ) → Type 0
IsTiled blocks eof a [] = a ≡ eof
IsTiled blocks eof a ((p, n) ∷ tiles) =
    (p ≡ a) × (0 < n) × HasLength blocks p n × IsTiled blocks eof (a + n) tiles

abbrev pub IsTile : ℕ → ℕ → List (ℕ × ℕ) → Type 0
IsTile a n [] = ⊥
IsTile a n ((p, m) ∷ tiles) = ((p ≡ a) × (m ≡ n)) ⊎ IsTile a n tiles

-- Headers that say the same lengths at an address.
abbrev pub SameLength : Headers → Headers → ℕ → Type 0
SameLength blocks blocks' a = (n : ℕ) → HasLength blocks a n → HasLength blocks' a n

pub le_eof :
    (blocks : Headers) (eof a : ℕ) (tiles : List (ℕ × ℕ)) → IsTiled blocks eof a tiles → a ≤ eof
le_eof blocks eof a [] h = omega arith
le_eof blocks eof a ((p, n) ∷ tiles) h = omega (arith, le_eof blocks eof (a + n) tiles h.3)

pub IsTiled-agree :
    (blocks blocks' : Headers) (eof a : ℕ) (tiles : List (ℕ × ℕ))
    → ((q : ℕ) → a ≤ q → q < eof → SameLength blocks blocks' q)
    → IsTiled blocks eof a tiles
    → IsTiled blocks' eof a tiles
IsTiled-agree blocks blocks' eof a [] same h = h
IsTiled-agree blocks blocks' eof a ((p, n) ∷ tiles) same h = (
  h.0,
  h.1,
  same p (omega arith) (omega (arith, le_eof blocks eof (a + n) tiles h.3)) n h.2,
  IsTiled-agree blocks blocks' eof (a + n) tiles (λ q le lt. same q (omega arith) lt) h.3,
)

pub le_of_tile :
    (blocks : Headers) (eof a : ℕ) (tiles : List (ℕ × ℕ)) (b n : ℕ)
    → IsTiled blocks eof a tiles
    → IsTile b n tiles
    → (a ≤ b) × (0 < n) × HasLength blocks b n
le_of_tile blocks eof a [] b n h t = elim t [ ]
le_of_tile blocks eof a ((p, m) ∷ tiles) b n h (inl (e, f)) =
    (omega arith, omega arith, rw (← e, ← f) h.2)
le_of_tile blocks eof a ((p, m) ∷ tiles) b n h (inr t) =
    let (le, pos, len) = le_of_tile blocks eof (a + m) tiles b n h.3 t in (omega arith, pos, len)

-- A block cut in two.
abbrev pub split_tile : ℕ → ℕ → List (ℕ × ℕ) → List (ℕ × ℕ)
split_tile a n [] = []
split_tile a n ((p, m) ∷ tiles) =
    if p == a then (p, n) ∷ (p + n, m - n) ∷ tiles else (p, m) ∷ split_tile a n tiles

pub IsTiled-split :
    (blocks blocks' : Headers) (eof s : ℕ) (tiles : List (ℕ × ℕ)) (a m n : ℕ)
    → 0 < n
    → n < m
    → IsTile a m tiles
    → ((q : ℕ) → q ≢ a → q ≢ a + n → SameLength blocks blocks' q)
    → HasLength blocks' a n
    → HasLength blocks' (a + n) (m - n)
    → IsTiled blocks eof s tiles
    → IsTiled blocks' eof s (split_tile a n tiles)
IsTiled-split blocks blocks' eof s [] a m n pos lt t same here there h = elim t [ ]
IsTiled-split blocks blocks' eof s ((p, k) ∷ tiles) a m n pos lt (inl (e, f)) same here there h =
    let after = λ (q : ℕ) (le : s + k ≤ q) (lt' : q < eof). same q (omega arith) (omega arith) in
    let rest = IsTiled-agree blocks blocks' eof (s + k) tiles after h.3 in
    let meets : s + k ≡ s + n + (k - n) = omega arith in
    rw (eq→== p a e) (
      h.0,
      pos,
      rw e here,
      (
        omega arith,
        omega arith,
        rw (e, f) there,
        subst (λ z. IsTiled blocks' eof z tiles) meets rest,
      ),
    )
IsTiled-split blocks blocks' eof s ((p, k) ∷ tiles) a m n pos lt (inr t) same here there h =
    let (le, _, _) = le_of_tile blocks eof (s + k) tiles a m h.3 t in
    let before : (p ≢ a) × (p ≢ a + n) = (omega arith, omega arith) in
    rw (ne→== p a before.0) (
      h.0,
      h.1,
      same p before.0 before.1 k h.2,
      IsTiled-split blocks blocks' eof (s + k) tiles a m n pos lt t same here there h.3,
    )

-- A new block at the end.
pub IsTiled-extend :
    (blocks : Headers) (eof s n : ℕ) (tiles : List (ℕ × ℕ))
    → 0 < n
    → HasLength blocks eof n
    → IsTiled blocks eof s tiles
    → IsTiled blocks (eof + n) s (tiles ++ ((eof, n) ∷ []))
IsTiled-extend blocks eof s n [] pos len h = (sym h, pos, len, omega arith)
IsTiled-extend blocks eof s n ((p, m) ∷ tiles) pos len h =
    (h.0, h.1, h.2, IsTiled-extend blocks eof (s + m) n tiles pos len h.3)

pub SameLength-update :
    (blocks : Headers) (a : ℕ) (hdr : GxBlockHeader) (q : ℕ)
    → a ≢ q
    → SameLength blocks (update blocks a hdr) q
SameLength-update blocks a hdr q ne n h = (h.0, rw (ne→== a q ne) h.1, h.2)

-- A header that is written anew with its old length.
pub SameLength-rewrite :
    (blocks : Headers) (a : ℕ) (old hdr : GxBlockHeader) (q : ℕ)
    → blocks a ≡ some old
    → hdr.block_length ≡ old.block_length
    → SameLength blocks (update blocks a hdr) q
SameLength-rewrite blocks a old hdr q e len n h = elim (Bool-cases (a == q)) [
  | inl same ↦
      let is_old : old ≡ h.0 = some-injective _ _ (sym e ∙ ap blocks (==→eq a q same) ∙ h.1) in
      (hdr, rw same, len ∙ ap (λ (b : GxBlockHeader). b.block_length) is_old ∙ h.2)
  | inr other ↦ (h.0, rw other h.1, h.2)
]

-- Two blocks do not overlap.
pub tiles_apart :
    (blocks : Headers) (eof s : ℕ) (tiles : List (ℕ × ℕ)) (a m b k : ℕ)
    → IsTiled blocks eof s tiles
    → IsTile a m tiles
    → IsTile b k tiles
    → (b ≤ a) ⊎ (a + m ≤ b)
tiles_apart blocks eof s [] a m b k h t u = elim t [ ]
tiles_apart blocks eof s ((p, n) ∷ tiles) a m b k h (inl t) (inl u) = inl (omega arith)
tiles_apart blocks eof s ((p, n) ∷ tiles) a m b k h (inl t) (inr u) =
    let (le, _, _) = le_of_tile blocks eof (s + n) tiles b k h.3 u in inr (omega arith)
tiles_apart blocks eof s ((p, n) ∷ tiles) a m b k h (inr t) (inl u) =
    let (le, _, _) = le_of_tile blocks eof (s + n) tiles a m h.3 t in inl (omega arith)
tiles_apart blocks eof s ((p, n) ∷ tiles) a m b k h (inr t) (inr u) =
    tiles_apart blocks eof (s + n) tiles a m b k h.3 t u

pub IsTile-split_tile :
    (a m n : ℕ) (tiles : List (ℕ × ℕ)) → IsTile a m tiles → IsTile a n (split_tile a n tiles)
IsTile-split_tile a m n [] t = elim t [ ]
IsTile-split_tile a m n ((p, k) ∷ tiles) (inl (e, f)) = rw (eq→== p a e) (inl (e, refl))
IsTile-split_tile a m n ((p, k) ∷ tiles) (inr t) = elim (Bool-cases (p == a)) [
  | inl same ↦ rw same (inl (==→eq p a same, refl))
  | inr other ↦ rw other (inr (IsTile-split_tile a m n tiles t))
]

pub IsTile-last : (a n : ℕ) (tiles : List (ℕ × ℕ)) → IsTile a n (tiles ++ ((a, n) ∷ []))
IsTile-last a n [] = inl (refl, refl)
IsTile-last a n ((p, k) ∷ tiles) = inr (IsTile-last a n tiles)

pub IsTile-append :
    (a n : ℕ) (tiles tiles' : List (ℕ × ℕ)) → IsTile a n tiles → IsTile a n (tiles ++ tiles')
IsTile-append a n [] tiles' t = elim t [ ]
IsTile-append a n ((p, k) ∷ tiles) tiles' (inl t) = inl t
IsTile-append a n ((p, k) ∷ tiles) tiles' (inr t) = inr (IsTile-append a n tiles tiles' t)

pub lt_eof :
    (blocks : Headers) (eof s : ℕ) (tiles : List (ℕ × ℕ)) (a n : ℕ)
    → IsTiled blocks eof s tiles
    → IsTile a n tiles
    → a < eof
lt_eof blocks eof s [] a n h t = elim t [ ]
lt_eof blocks eof s ((p, m) ∷ tiles) a n h (inl t) =
    omega (arith, le_eof blocks eof (s + m) tiles h.3)
lt_eof blocks eof s ((p, m) ∷ tiles) a n h (inr t) = lt_eof blocks eof (s + m) tiles a n h.3 t

pub end_of_tile :
    (blocks : Headers) (eof s : ℕ) (tiles : List (ℕ × ℕ)) (a n : ℕ)
    → IsTiled blocks eof s tiles
    → IsTile a n tiles
    → a + n ≤ eof
end_of_tile blocks eof s [] a n h t = elim t [ ]
end_of_tile blocks eof s ((p, m) ∷ tiles) a n h (inl t) =
    omega (arith, le_eof blocks eof (s + m) tiles h.3)
end_of_tile blocks eof s ((p, m) ∷ tiles) a n h (inr t) =
    end_of_tile blocks eof (s + m) tiles a n h.3 t

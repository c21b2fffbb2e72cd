-- ===== src/Database/Chain.antt =====
-- The free space list: the next pointers that lead through free blocks of the heap, what a search
-- has passed of them, and what is left of them after a write.
use mathlib.Core.Path.{subst}
use mathlib.Core.Option.{some-injective}
use datareel.Prelude.{
  All, ℕ, suc, ◌≤◌, ◌<◌, ◌≡◌, ◌≢◌, refl, sym, ap, ◌∙◌, true, false, Option, none, some, List, [],
  ◌∷◌, arith, length,
}
use datareel.Database.Format.{GxBlockHeader, status_of, block_normal}
use datareel.Database.Reclaim.{is_free_block}
use datareel.Database.Tiles.{Headers, IsTile}

-- A block of the heap with this header.
abbrev pub IsBlock : Headers → List (ℕ × ℕ) → ℕ → GxBlockHeader → Type 0
IsBlock blocks tiles a hdr = (blocks a ≡ some hdr) × IsTile a hdr.block_length tiles

-- From an address the next pointers lead through free blocks of the heap at these addresses to 0.
abbrev pub IsChain : Headers → List (ℕ × ℕ) → ℕ → List ℕ → Type 0
IsChain blocks tiles addr [] = addr ≡ 0
IsChain blocks tiles addr (a ∷ rest) =
    (addr ≡ a)
    × (a ≢ 0)
    × ((hdr : GxBlockHeader) × IsBlock blocks tiles a hdr
        × (is_free_block hdr a ≡ true)
        × IsChain blocks tiles hdr.block_nd_fptr rest)

-- The next pointers from `fs` lead through these free blocks, the last one first, to an address.
abbrev pub HasPassed : Headers → List (ℕ × ℕ) → ℕ → List (ℕ × GxBlockHeader) → ℕ → Type 0
HasPassed blocks tiles fs [] addr = fs ≡ addr
HasPassed blocks tiles fs ((p, hdr) ∷ passed) addr =
    (p ≢ 0)
    × IsBlock blocks tiles p hdr
    × (is_free_block hdr p ≡ true)
    × (hdr.block_nd_fptr ≡ addr)
    × HasPassed blocks tiles fs passed p

-- The block before an address of the list.
abbrev pub before : List (ℕ × GxBlockHeader) → Option (ℕ × GxBlockHeader)
before [] = none
before (p ∷ passed) = some p

abbrev pub IsBefore : Headers → List (ℕ × ℕ) → Option (ℕ × GxBlockHeader) → Type 0
IsBefore blocks tiles none = Unit
IsBefore blocks tiles (some (a, hdr)) = IsBlock blocks tiles a hdr

pub before-IsBefore :
    (blocks : Headers) (tiles : List (ℕ × ℕ)) (fs addr : ℕ) (passed : List (ℕ × GxBlockHeader))
    → HasPassed blocks tiles fs passed addr
    → IsBefore blocks tiles (before passed)
before-IsBefore blocks tiles fs addr [] way = tt
before-IsBefore blocks tiles fs addr ((p, hdr) ∷ passed) (ne, at, free, next, way) = at

-- The whole list, from its part that was passed and the rest.
abbrev pub rejoin : List (ℕ × GxBlockHeader) → List ℕ → List ℕ
rejoin [] rest = rest
rejoin ((p, hdr) ∷ passed) rest = rejoin passed (p ∷ rest)

pub not_free_of_normal :
    (hdr : GxBlockHeader) (a : ℕ) → status_of hdr ≡ block_normal → is_free_block hdr a ≡ false
unfolding is_free_block
not_free_of_normal hdr a h = ground arith

-- A write that keeps the block at an address.
abbrev pub KeepsBlock : Headers → List (ℕ × ℕ) → Headers → List (ℕ × ℕ) → ℕ → Type 0
KeepsBlock blocks tiles blocks' tiles' a =
    (hdr : GxBlockHeader) → IsBlock blocks tiles a hdr → IsBlock blocks' tiles' a hdr

module _ (blocks : Headers) (tiles : List (ℕ × ℕ)) where
  pub rejoin-IsChain :
      (fs addr : ℕ) (passed : List (ℕ × GxBlockHeader)) (rest : List ℕ)
      → HasPassed blocks tiles fs passed addr
      → IsChain blocks tiles addr rest
      → IsChain blocks tiles fs (rejoin passed rest)
  rejoin-IsChain fs addr [] rest way chain =
      subst (λ z. IsChain blocks tiles z rest) (sym way) chain
  rejoin-IsChain fs addr ((p, hdr) ∷ passed) rest (ne, at, free, next, way) chain =
      rejoin-IsChain fs p passed (p ∷ rest) way
        (refl, ne, (hdr, at, free, subst (λ z. IsChain blocks tiles z rest) (sym next) chain))

  -- Where a list starts says how long it is.
  pub same_length :
      (addr addr' : ℕ) (list list' : List ℕ)
      → addr ≡ addr'
      → IsChain blocks tiles addr list
      → IsChain blocks tiles addr' list'
      → length list ≡ length list'
  same_length addr addr' [] [] e chain chain' = refl
  same_length addr addr' [] (a ∷ rest) e chain (f, ne, _) = absurd (ne (sym f ∙ sym e ∙ chain))
  same_length addr addr' (a ∷ rest) [] e (f, ne, _) chain = absurd (ne (sym f ∙ e ∙ chain))
  same_length addr addr' (a ∷ rest) (b ∷ rest') e (f, ne, (hdr, at, free, later))
        (f', ne', (hdr', at', free', later')) =
      let same : a ≡ b = sym f ∙ e ∙ f' in
      let is_hdr : hdr ≡ hdr' = some-injective _ _ (sym at.0 ∙ ap blocks same ∙ at'.0) in
      ap suc (
        same_length hdr.block_nd_fptr hdr'.block_nd_fptr rest rest'
          (ap (λ (h : GxBlockHeader). h.block_nd_fptr) is_hdr) later later')

  -- A block from where the list is longer does not come later.
  pub apart_after :
      (addr e : ℕ) (rest list : List ℕ)
      → IsChain blocks tiles addr rest
      → IsChain blocks tiles e list
      → length rest < length list
      → All (λ a. a ≢ e) rest
  apart_after addr e [] list chain chain' lt = tt
  apart_after addr e (a ∷ rest) list (f, ne, (hdr, at, free, later)) chain' lt = (
    λ same.
        let n = same_length a e (a ∷ rest) list same (refl, ne, (hdr, at, free, later)) chain' in
        omega arith,
    apart_after hdr.block_nd_fptr e rest list later chain' (omega arith),
  )

  -- A block from where the list is not longer was not passed.
  pub apart_before :
      (fs addr e : ℕ) (passed : List (ℕ × GxBlockHeader)) (rest list : List ℕ)
      → HasPassed blocks tiles fs passed addr
      → IsChain blocks tiles addr rest
      → IsChain blocks tiles e list
      → length list ≤ length rest
      → All (λ a. a.0 ≢ e) passed
  apart_before fs addr e [] rest list way chain chain' le = tt
  apart_before fs addr e ((p, hdr) ∷ passed) rest list (ne, at, free, next, way) chain chain' le =
      let here : IsChain blocks tiles p (p ∷ rest) =
        (refl, ne, (hdr, at, free, subst (λ z. IsChain blocks tiles z rest) (sym next) chain)) in
      (
        λ same. let n = same_length p e (p ∷ rest) list same here chain' in omega arith,
        apart_before fs p e passed (p ∷ rest) list way here chain' (omega arith),
      )

module _ (blocks : Headers) (tiles : List (ℕ × ℕ)) (blocks' : Headers) (tiles' : List (ℕ × ℕ))
    (e f : ℕ) (keep : (a : ℕ) → a ≢ e → a ≢ f → KeepsBlock blocks tiles blocks' tiles' a) where
  pub IsChain-keep :
      (addr : ℕ) (list : List ℕ)
      → All (λ a. a ≢ e) list
      → All (λ a. a ≢ f) list
      → IsChain blocks tiles addr list
      → IsChain blocks' tiles' addr list
  IsChain-keep addr [] _ _ chain = chain
  IsChain-keep addr (a ∷ rest) (ne, apart) (nf, apart') (same, pos, (hdr, at, free, later)) = (
    same,
    pos,
    (hdr, keep a ne nf hdr at, free, IsChain-keep hdr.block_nd_fptr rest apart apart' later),
  )

  pub HasPassed-keep :
      (fs addr : ℕ) (passed : List (ℕ × GxBlockHeader))
      → All (λ a. a.0 ≢ e) passed
      → All (λ a. a.0 ≢ f) passed
      → HasPassed blocks tiles fs passed addr
      → HasPassed blocks' tiles' fs passed addr
  HasPassed-keep fs addr [] _ _ way = way
  HasPassed-keep fs addr ((p, hdr) ∷ passed) (ne, apart) (nf, apart') (pos, at, free, next, way) =
      (pos, keep p ne nf hdr at, free, next, HasPassed-keep fs p passed apart apart' way)

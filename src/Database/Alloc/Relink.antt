-- ===== src/Database/Alloc/Relink.antt =====
-- The free space list after a block is taken off it, whole or but for its rest.
use mathlib.Core.Path.{subst}
use mathlib.Core.Option.{some-injective}
use datareel.Prelude.{
  All, ℕ, ◌≡◌, ◌≢◌, refl, sym, ap, ◌∙◌, true, some, List, [], ◌∷◌, arith, ne→==, eq→==,
}
use datareel.Database.Format.{GxBlockHeader, update, status_of, block_normal, test_block_header}
use datareel.Database.Reclaim.{is_free_block}
use datareel.Database.Tiles.{Headers, IsTile}
use datareel.Database.Chain.{
  IsBlock, IsChain, HasPassed, before, rejoin, KeepsBlock, rejoin-IsChain, apart_after,
  apart_before, IsChain-keep, HasPassed-keep, not_free_of_normal,
}
use datareel.Database.Alloc.Parts.{first_after, linked, normal_block}

-- The block whose next pointer is written, or that which is taken.
abbrev pub mark : List (ℕ × GxBlockHeader) → ℕ → ℕ
mark [] a = a
mark ((p, _) ∷ _) a = p

relinked_free :
    (hdr : GxBlockHeader) (p next : ℕ)
    → is_free_block hdr p ≡ true
    → p ≢ next
    → is_free_block (record hdr { block_nd_fptr = next }) p ≡ true
unfolding is_free_block test_block_header
relinked_free hdr p next free ne = ground (arith, ne→== p next ne)

-- What the block before it must be once the list goes on at `next`.
abbrev IsRelinked : Headers → List (ℕ × ℕ) → List (ℕ × GxBlockHeader) → ℕ → Type 0
IsRelinked blocks' tiles' [] next = Unit
IsRelinked blocks' tiles' ((p, hdr) ∷ _) next =
    (p ≢ next) × IsBlock blocks' tiles' p (record hdr { block_nd_fptr = next })

module _ (blocks : Headers) (tiles : List (ℕ × ℕ)) (fs a : ℕ) (rest : List ℕ)
    (chain : IsChain blocks tiles a (a ∷ rest)) where
  -- The list from the block before.
  marked-IsChain :
      (p : ℕ) (hdr : GxBlockHeader) (passed : List (ℕ × GxBlockHeader))
      → HasPassed blocks tiles fs ((p, hdr) ∷ passed) a
      → IsChain blocks tiles p (p ∷ a ∷ rest)
  marked-IsChain p hdr passed (ne, at, free, next, way) =
      (refl, ne, (hdr, at, free, subst (λ z. IsChain blocks tiles z (a ∷ rest)) (sym next) chain))

  pub rest_apart :
      (addr : ℕ) (passed : List (ℕ × GxBlockHeader))
      → HasPassed blocks tiles fs passed a
      → IsChain blocks tiles addr rest
      → (All (λ q. q ≢ a) rest) × (All (λ q. q ≢ mark passed a) rest)
  rest_apart addr [] way later =
      let apart = apart_after blocks tiles addr a rest (a ∷ rest) later chain (omega arith) in
      (apart, apart)
  rest_apart addr ((p, hdr) ∷ passed) way later = (
    apart_after blocks tiles addr a rest (a ∷ rest) later chain (omega arith),
    apart_after blocks tiles addr p rest (p ∷ a ∷ rest) later (marked-IsChain p hdr passed way)
        (omega arith),
  )

  -- The list goes on at `next` in the new headers.
  pub relinked-IsChain :
      (blocks' : Headers) (tiles' : List (ℕ × ℕ)) (next : ℕ) (rest' : List ℕ)
      (passed : List (ℕ × GxBlockHeader))
      → HasPassed blocks tiles fs passed a
      → ((q : ℕ) → q ≢ a → q ≢ mark passed a → KeepsBlock blocks tiles blocks' tiles' q)
      → IsRelinked blocks' tiles' passed next
      → IsChain blocks' tiles' next rest'
      → IsChain blocks' tiles' (first_after passed fs next) (rejoin passed rest')
  relinked-IsChain blocks' tiles' next rest' [] way keep relinked chain' = chain'
  relinked-IsChain blocks' tiles' next rest' ((p, hdr) ∷ passed) (ne, at, free, same, way) keep
        (other, at') chain' =
      let here = marked-IsChain p hdr passed (ne, at, free, same, way) in
      rejoin-IsChain blocks' tiles' fs p passed (p ∷ rest')
        (HasPassed-keep blocks tiles blocks' tiles' a p keep fs p passed
          (apart_before blocks tiles fs p a passed (p ∷ a ∷ rest) (a ∷ rest) way here chain
            (omega arith))
          (apart_before blocks tiles fs p p passed (p ∷ a ∷ rest) (p ∷ a ∷ rest) way here here
            (omega arith))
          way)
        (
          refl,
          ne,
          (record hdr { block_nd_fptr = next }, at', relinked_free hdr p next free other, chain'),
        )

pub linked_elsewhere :
    (blocks : Headers) (passed : List (ℕ × GxBlockHeader)) (a next q : ℕ) (hdr : GxBlockHeader)
    → q ≢ a
    → q ≢ mark passed a
    → blocks q ≡ some hdr
    → linked blocks (before passed) next q ≡ some hdr
linked_elsewhere blocks [] a next q hdr ne nm at = at
linked_elsewhere blocks ((p, old) ∷ passed) a next q hdr ne nm at =
    rw (ne→== p q (λ e. nm (sym e))) at

pub written-IsRelinked :
    (blocks : Headers) (tiles' : List (ℕ × ℕ)) (a next : ℕ) (written : GxBlockHeader)
    (passed : List (ℕ × GxBlockHeader))
    → All (λ q. q.0 ≢ a) passed
    → All (λ q. q.0 ≢ next) passed
    → All (λ q. IsTile q.0 q.1.block_length tiles') passed
    → IsRelinked (update (linked blocks (before passed) next) a written) tiles' passed next
written-IsRelinked blocks tiles' a next written [] _ _ _ = tt
written-IsRelinked blocks tiles' a next written ((p, hdr) ∷ passed) (other, _) (ne, _) (tile, _) =
    (ne, (rw (ne→== a p (λ e. other (sym e)), eq→== p p refl) refl, tile))

passed_tiles :
    (blocks : Headers) (tiles : List (ℕ × ℕ)) (fs a : ℕ) (passed : List (ℕ × GxBlockHeader))
    → HasPassed blocks tiles fs passed a
    → All (λ q. IsTile q.0 q.1.block_length tiles) passed
passed_tiles blocks tiles fs a [] way = tt
passed_tiles blocks tiles fs a ((p, hdr) ∷ passed) (ne, at, free, next, way) =
    (at.1, passed_tiles blocks tiles fs p passed way)

pub in_use_free :
    (blocks : Headers) (a q : ℕ) (hdr h : GxBlockHeader)
    → blocks a ≡ some hdr
    → is_free_block hdr a ≡ true
    → blocks q ≡ some h
    → status_of h ≡ block_normal
    → q ≢ a
in_use_free blocks a q hdr h at free here normal same =
    let is_hdr : h ≡ hdr = some-injective _ _ (sym here ∙ ap blocks same ∙ at) in
    cc (not_free_of_normal h a normal, ap (λ x. is_free_block x a) is_hdr, free)

-- A block in use is neither taken nor linked.
pub in_use_apart :
    (blocks : Headers) (tiles : List (ℕ × ℕ)) (fs a q : ℕ) (hdr h : GxBlockHeader)
    (passed : List (ℕ × GxBlockHeader))
    → HasPassed blocks tiles fs passed a
    → blocks a ≡ some hdr
    → is_free_block hdr a ≡ true
    → blocks q ≡ some h
    → status_of h ≡ block_normal
    → (q ≢ a) × (q ≢ mark passed a)
in_use_apart blocks tiles fs a q hdr h [] way at free here normal =
    let apart = in_use_free blocks a q hdr h at free here normal in (apart, apart)
in_use_apart blocks tiles fs a q hdr h ((p, old) ∷ passed) (_, at', free', _, _) at free here
      normal =
    (
      in_use_free blocks a q hdr h at free here normal,
      in_use_free blocks p q old h at'.0 free' here normal,
    )

pub taken-KeepsBlock :
    (blocks : Headers) (tiles : List (ℕ × ℕ)) (a next q : ℕ) (written : GxBlockHeader)
    (passed : List (ℕ × GxBlockHeader))
    → q ≢ a
    → q ≢ mark passed a
    → KeepsBlock blocks tiles (update (linked blocks (before passed) next) a written) tiles q
taken-KeepsBlock blocks tiles a next q written passed ne nm h here = (
  rw (ne→== a q (λ e. ne (sym e))) (linked_elsewhere blocks passed a next q h ne nm here.0),
  here.1,
)

-- A block that is taken whole.
pub taken-IsChain :
    (blocks : Headers) (tiles : List (ℕ × ℕ)) (fs a bytes : ℕ) (hdr : GxBlockHeader)
    (passed : List (ℕ × GxBlockHeader)) (rest : List ℕ)
    → HasPassed blocks tiles fs passed a
    → a ≢ 0
    → IsBlock blocks tiles a hdr
    → is_free_block hdr a ≡ true
    → IsChain blocks tiles hdr.block_nd_fptr rest
    → IsChain
        (update (linked blocks (before passed) hdr.block_nd_fptr) a (normal_block bytes))
        tiles
        (first_after passed fs hdr.block_nd_fptr)
        (rejoin passed rest)
taken-IsChain blocks tiles fs a bytes hdr passed rest way pos at free later =
    let next = hdr.block_nd_fptr in
    let chain : IsChain blocks tiles a (a ∷ rest) = (refl, pos, (hdr, at, free, later)) in
    let blocks' : Headers = update (linked blocks (before passed) next) a (normal_block bytes) in
    let keep = λ (q : ℕ). taken-KeepsBlock blocks tiles a next q (normal_block bytes) passed in
    let (apart, apart') = rest_apart blocks tiles fs a rest chain next passed way later in
    relinked-IsChain blocks tiles fs a rest chain blocks' tiles next rest passed way keep
      (written-IsRelinked blocks tiles a next (normal_block bytes) passed
        (apart_before blocks tiles fs a a passed (a ∷ rest) (a ∷ rest) way chain chain
          (omega arith))
        (apart_before blocks tiles fs a next passed (a ∷ rest) rest way chain later (omega arith))
        (passed_tiles blocks tiles fs a passed way))
      (IsChain-keep blocks tiles blocks' tiles a (mark passed a) keep next rest apart apart' later)

-- ===== src/Database/Alloc/Rest.antt =====
-- The free space list after a block is cut: the rest of the block takes its place.
use datareel.Prelude.{
  All, ℕ, ◌+◌, ◌-◌, ◌<◌, ◌≡◌, ◌≢◌, inl, inr, refl, sym, ◌∙◌, Bool-cases, true, List, [], ◌∷◌, arith,
  ne→==, eq→==, ◌==◌,
}
use datareel.Database.Format.{GxBlockHeader, update, test_block_header}
use datareel.Database.Reclaim.{is_free_block}
use datareel.Database.Tiles.{Headers, IsTile, IsTiled, split_tile, tiles_apart, le_of_tile}
use datareel.Database.Chain.{
  IsBlock, IsChain, HasPassed, before, rejoin, KeepsBlock, apart_before, IsChain-keep,
}
use datareel.Database.Alloc.Parts.{first_after, linked, rest_block, normal_block}
use datareel.Database.Alloc.Relink.{
  mark, linked_elsewhere, written-IsRelinked, rest_apart, relinked-IsChain,
}

IsTile-other :
    (a n b m : ℕ) (tiles : List (ℕ × ℕ))
    → b ≢ a
    → IsTile b m tiles
    → IsTile b m (split_tile a n tiles)
IsTile-other a n b m [] ne t = elim t [ ]
IsTile-other a n b m ((p, k) ∷ tiles) ne (inl (e, f)) =
    rw (ne→== p a (λ same. ne (sym e ∙ same))) (inl (e, f))
IsTile-other a n b m ((p, k) ∷ tiles) ne (inr t) = elim (Bool-cases (p == a)) [
  | inl same ↦ rw same (inr (inr t))
  | inr other ↦ rw other (inr (IsTile-other a n b m tiles ne t))
]

IsTile-rest :
    (blocks : Headers) (eof s a n m : ℕ) (tiles : List (ℕ × ℕ))
    → IsTiled blocks eof s tiles
    → IsTile a m tiles
    → IsTile (a + n) (m - n) (split_tile a n tiles)
IsTile-rest blocks eof s a n m [] tiled t = elim t [ ]
IsTile-rest blocks eof s a n m ((p, k) ∷ tiles) tiled (inl (e, f)) =
    rw (eq→== p a e) (inr (inl (omega arith, omega arith)))
IsTile-rest blocks eof s a n m ((p, k) ∷ tiles) (start, pos, len, tiled) (inr t) =
    let (le, _, _) = le_of_tile blocks eof (s + k) tiles a m tiled t in
    rw (ne→== p a (omega arith)) (inr (IsTile-rest blocks eof (s + k) a n m tiles tiled t))

rest_block_free :
    (n a : ℕ) (hdr : GxBlockHeader)
    → a ≢ hdr.block_nd_fptr
    → is_free_block (rest_block n hdr) a ≡ true
unfolding is_free_block test_block_header
rest_block_free n a hdr ne = simp (ne→== a hdr.block_nd_fptr ne)

-- What is left of a block that is cut, in its place in the list.
module _ (blocks : Headers) (tiles : List (ℕ × ℕ)) (eof s fs a bytes : ℕ) (hdr : GxBlockHeader)
    (tiled : IsTiled blocks eof s tiles) (at : IsBlock blocks tiles a hdr) (pos : 0 < bytes)
    (short : bytes < hdr.block_length) where
  -- No block starts inside a block.
  inside : (q n : ℕ) → IsTile q n tiles → q ≢ a + bytes
  inside q n tile =
      let apart = tiles_apart blocks eof s tiles a hdr.block_length q n tiled at.1 tile in
      omega arith

  inside_passed :
      (addr : ℕ) (passed : List (ℕ × GxBlockHeader))
      → HasPassed blocks tiles fs passed addr
      → All (λ q. q.0 ≢ a) passed
      → (All (λ q. q.0 ≢ a + bytes) passed)
        × (All (λ q. IsTile q.0 q.1.block_length (split_tile a bytes tiles)) passed)
  inside_passed addr [] way others = (tt, tt)
  inside_passed addr ((p, old) ∷ passed) (ne, here, free, next, way) (other, others) =
      let (apart, kept) = inside_passed p passed way others in
      (
        (inside p old.block_length here.1, apart),
        (IsTile-other a bytes p old.block_length tiles other here.1, kept),
      )

  inside_next : (addr : ℕ) (rest : List ℕ) → IsChain blocks tiles addr rest → a + bytes ≢ addr
  inside_next addr [] chain = omega arith
  inside_next addr (q ∷ rest) (e, ne, (h, here, free, later)) =
      omega (arith, inside q h.block_length here.1)

  inside_mark :
      (passed : List (ℕ × GxBlockHeader))
      → HasPassed blocks tiles fs passed a
      → a + bytes ≢ mark passed a
  inside_mark [] way = omega arith
  inside_mark ((p, old) ∷ passed) (ne, here, free, next, way) =
      λ e. inside p old.block_length here.1 (sym e)

  pub cut-KeepsBlock :
      (q : ℕ) (passed : List (ℕ × GxBlockHeader))
      → q ≢ a
      → q ≢ mark passed a
      → KeepsBlock blocks tiles
          (update
            (linked
              (update blocks (a + bytes) (rest_block (hdr.block_length - bytes) hdr))
              (before passed)
              (a + bytes))
            a
            (normal_block bytes))
          (split_tile a bytes tiles)
          q
  cut-KeepsBlock q passed ne nm h here =
      let next = a + bytes in
      (
        rw (ne→== a q (λ e. ne (sym e))) (
            linked_elsewhere (update blocks next (rest_block (hdr.block_length - bytes) hdr)) passed
              a next q h ne nm
              (rw (ne→== next q (λ e. inside q h.block_length here.1 (sym e))) here.0)),
        IsTile-other a bytes q h.block_length tiles ne here.1,
      )

  pub cut-IsChain :
      (passed : List (ℕ × GxBlockHeader)) (rest : List ℕ)
      → HasPassed blocks tiles fs passed a
      → a ≢ 0
      → is_free_block hdr a ≡ true
      → IsChain blocks tiles hdr.block_nd_fptr rest
      → IsChain
          (update
            (linked
              (update blocks (a + bytes) (rest_block (hdr.block_length - bytes) hdr))
              (before passed)
              (a + bytes))
            a
            (normal_block bytes))
          (split_tile a bytes tiles)
          (first_after passed fs (a + bytes))
          (rejoin passed ((a + bytes) ∷ rest))
  cut-IsChain passed rest way nonzero free later =
      let next = a + bytes in
      let left = rest_block (hdr.block_length - bytes) hdr in
      let tiles' = split_tile a bytes tiles in
      let cut : Headers = update blocks next left in
      let blocks' : Headers = update (linked cut (before passed) next) a (normal_block bytes) in
      let chain : IsChain blocks tiles a (a ∷ rest) = (refl, nonzero, (hdr, at, free, later)) in
      let others =
        apart_before blocks tiles fs a a passed (a ∷ rest) (a ∷ rest) way chain chain
          (omega arith) in
      let (apart_next, kept) = inside_passed a passed way others in
      let keep = λ (q : ℕ). cut-KeepsBlock q passed in
      let (apart, apart') =
        rest_apart blocks tiles fs a rest chain hdr.block_nd_fptr passed way later in
      relinked-IsChain blocks tiles fs a rest chain blocks' tiles' next (next ∷ rest) passed way
        keep
        (written-IsRelinked cut tiles' a next (normal_block bytes) passed others apart_next kept)
        (
          refl,
          omega arith,
          (
            left,
            (
              rw (ne→== a next (omega arith)) (
                  linked_elsewhere cut passed a next next left (omega arith)
                    (inside_mark passed way) (rw (eq→== next next refl) refl)),
              IsTile-rest blocks eof s a bytes hdr.block_length tiles tiled at.1,
            ),
            rest_block_free (hdr.block_length - bytes) next hdr
                (inside_next hdr.block_nd_fptr rest later),
            IsChain-keep blocks tiles blocks' tiles' a (mark passed a) keep hdr.block_nd_fptr rest
                apart apart' later,
          ),
        )

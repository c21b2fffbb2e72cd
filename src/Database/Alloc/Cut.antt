-- ===== src/Database/Alloc/Cut.antt =====
-- The row of blocks after an exact fit and after a block is cut.
use datareel.Database.Alloc.Parts.{linked, rest_block, normal_block}
use datareel.Database.Tiles.{tiles_apart}
use datareel.Prelude.{
  ℕ, ◌+◌, ◌-◌, ◌<◌, ◌≡◌, ◌≢◌, refl, sym, Option, none, some, List, arith, ne→==, eq→==,
}
use datareel.Database.Format.{GxBlockHeader, update}
use datareel.Database.Tiles.{
  Headers, HasLength, IsTiled, IsTile, SameLength, IsTiled-agree, split_tile, IsTiled-split,
  SameLength-update, SameLength-rewrite,
}
use datareel.Database.Chain.{IsBefore}

-- The list's next pointer is changed in a header that keeps its length.
pub linked-SameLength :
    (blocks : Headers) (tiles : List (ℕ × ℕ)) (prev : Option (ℕ × GxBlockHeader)) (next q : ℕ)
    → IsBefore blocks tiles prev
    → SameLength blocks (linked blocks prev next) q
linked-SameLength blocks tiles none next q before n h = h
linked-SameLength blocks tiles (some (a, hdr)) next q before n h =
    SameLength-rewrite blocks a hdr (record hdr { block_nd_fptr = next }) q before.0 refl n h

-- An exact fit: every length stays.
pub exact-IsTiled :
    (blocks : Headers) (eof s : ℕ) (tiles : List (ℕ × ℕ)) (a bytes next : ℕ) (hdr : GxBlockHeader)
    → (prev : Option (ℕ × GxBlockHeader)) → blocks a ≡ some hdr
    → hdr.block_length ≡ bytes
    → IsBefore blocks tiles prev
    → IsTiled blocks eof s tiles
    → IsTiled (update (linked blocks prev next) a (normal_block bytes)) eof s tiles
exact-IsTiled blocks eof s tiles a bytes next hdr prev at len before tiled =
    let keep = λ (q n : ℕ) (h : HasLength blocks q n).
      linked-SameLength blocks tiles prev next q before n h in
    let (old, holds, same) = keep a bytes (hdr, at, len) in
    IsTiled-agree blocks (update (linked blocks prev next) a (normal_block bytes)) eof s tiles
      (λ q le lt n h.
        SameLength-rewrite (linked blocks prev next) a old (normal_block bytes) q holds (sym same) n
          (keep q n h))
      tiled

pub IsBefore-update :
    (blocks : Headers) (eof s : ℕ) (tiles : List (ℕ × ℕ)) (a m n : ℕ) (hdr : GxBlockHeader)
    → (prev : Option (ℕ × GxBlockHeader)) → 0 < n
    → n < m
    → IsTiled blocks eof s tiles
    → IsTile a m tiles
    → IsBefore blocks tiles prev
    → IsBefore (update blocks (a + n) hdr) tiles prev
IsBefore-update blocks eof s tiles a m n hdr none pos lt tiled tile before = tt
IsBefore-update blocks eof s tiles a m n hdr (some (b, old)) pos lt tiled tile before =
    let apart = tiles_apart blocks eof s tiles a m b old.block_length tiled tile before.1 in
    let other : a + n ≢ b = omega arith in (rw (ne→== (a + n) b other) before.0, before.1)

-- A block is cut in two: its front is allocated, and its rest takes its place in the list.
pub split-IsTiled :
    (blocks : Headers) (eof s : ℕ) (tiles : List (ℕ × ℕ)) (a bytes : ℕ) (hdr : GxBlockHeader)
    → (prev : Option (ℕ × GxBlockHeader)) → 0 < bytes
    → bytes < hdr.block_length
    → IsTile a hdr.block_length tiles
    → IsBefore blocks tiles prev
    → IsTiled blocks eof s tiles
    → IsTiled
        (update
          (linked
            (update blocks (a + bytes) (rest_block (hdr.block_length - bytes) hdr))
            prev
            (a + bytes))
          a
          (normal_block bytes))
        eof
        s
        (split_tile a bytes tiles)
split-IsTiled blocks eof s tiles a bytes hdr prev pos lt tile before tiled =
    let m = hdr.block_length in
    let rest = rest_block (m - bytes) hdr in
    let cut : Headers = update blocks (a + bytes) rest in
    let before' = IsBefore-update blocks eof s tiles a m bytes rest prev pos lt tiled tile before in
    let link = λ (q n : ℕ) (h : HasLength cut q n).
      linked-SameLength cut tiles prev (a + bytes) q before' n h in
    let last = λ (q n : ℕ) (ne : a ≢ q) (h : HasLength (linked cut prev (a + bytes)) q n).
      SameLength-update (linked cut prev (a + bytes)) a (normal_block bytes) q ne n h in
    let apart : a ≢ a + bytes = omega arith in
    IsTiled-split blocks (update (linked cut prev (a + bytes)) a (normal_block bytes)) eof s tiles a
      m bytes pos lt tile
      (λ q ne ne' n h.
        last q n (λ e. ne (sym e))
          (link q n (SameLength-update blocks (a + bytes) rest q (λ e. ne' (sym e)) n h)))
      (normal_block bytes, rw (eq→== a a refl), refl)
      (last (a + bytes) (m - bytes) apart
        (link (a + bytes) (m - bytes) (rest, rw (eq→== (a + bytes) (a + bytes) refl), refl)))
      tiled

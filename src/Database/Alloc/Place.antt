-- ===== src/Database/Alloc/Place.antt =====
-- The three ways to place a block: at the end of the file, in a free block as a whole, and in its front.
use datareel.Database.Alloc.Parts.{linked, rest_block, normal_block}
use datareel.Database.Alloc.Cut.{exact-IsTiled, split-IsTiled}
use mathlib.Core.Path.{subst}
use datareel.Database.Tiles.{IsTile-append, lt_eof, IsTile-split_tile, IsTile-last}
use datareel.Prelude.{
  ℕ, ◌+◌, ◌-◌, ◌<◌, ◌≡◌, ◌≢◌, refl, true, List, [], ◌∷◌, ◌++◌, arith, inl, inr, ne→==, eq→==,
}
use datareel.Database.Format.{GxBlockHeader, GxDatabase, update, status_of, block_normal}
use datareel.Database.Reclaim.{is_free_block}
use datareel.Database.Tiles.{
  Headers, IsTile, IsTiled-agree, split_tile, IsTiled-extend, SameLength-update,
}
use datareel.Database.Chain.{
  IsChain, IsBlock, HasPassed, before, rejoin, before-IsBefore, IsChain-keep, KeepsBlock,
}
use datareel.Database.Alloc.Parts.{first_after}
use datareel.Database.Alloc.Relink.{taken-IsChain, taken-KeepsBlock, in_use_apart, mark}
use datareel.Database.Alloc.Rest.{cut-IsChain, cut-KeepsBlock}
use datareel.Database.Heap.{IsHeap, chain_nonzero}
use datareel.Database.Alloc.Result.{Placed}

module _ {db : GxDatabase} {tiles : List (ℕ × ℕ)} {list : List ℕ}
    (heap : IsHeap db tiles list) where
  -- Blocks in the row stay where a block is added at the end.
  extend-KeepsBlock :
      (bytes q : ℕ)
      → KeepsBlock db.blocks tiles
          (update db.blocks db.file_header.gxd_eof (normal_block bytes))
          (tiles ++ ((db.file_header.gxd_eof, bytes) ∷ []))
          q
  extend-KeepsBlock bytes q h here =
      let lt = lt_eof db.blocks _ _ tiles q h.block_length heap.tiled here.1 in
      (
        rw (ne→== db.file_header.gxd_eof q (omega arith)) here.0,
        IsTile-append q h.block_length tiles _ here.1,
      )

  pub extend-Placed :
      (bytes : ℕ)
      → 0 < bytes
      → Placed db tiles db.blocks db.file_header.gxd_fs_fptr
          (db.file_header.gxd_eof + bytes)
          db.file_header.gxd_eof
          bytes
  extend-Placed bytes pos =
      let eof = db.file_header.gxd_eof in
      let blocks : Headers = update db.blocks eof (normal_block bytes) in
      let nonzero = chain_nonzero db.blocks tiles db.file_header.gxd_fs_fptr list heap.chain in
      record {
        tiles = tiles ++ ((eof, bytes) ∷ []);
        list = list;
        was_free = inl refl;
        is_tile = IsTile-last eof bytes tiles;
        tiled =
            IsTiled-extend blocks eof db.file_header.gxd_hs_fptr bytes tiles pos
              (normal_block bytes, rw (eq→== eof eof refl), refl)
              (IsTiled-agree db.blocks blocks eof db.file_header.gxd_hs_fptr tiles
                (λ q le lt. SameLength-update db.blocks eof (normal_block bytes) q (omega arith))
                heap.tiled);
        chain =
            IsChain-keep db.blocks tiles blocks (tiles ++ ((eof, bytes) ∷ [])) 0 0
              (λ q _ _. extend-KeepsBlock bytes q) db.file_header.gxd_fs_fptr list nonzero nonzero
              heap.chain;
        others = λ q h here normal. extend-KeepsBlock bytes q h here;
        grown = omega arith;
      }

  module _ (a bytes : ℕ) (hdr : GxBlockHeader) (passed : List (ℕ × GxBlockHeader)) (rest : List ℕ)
      (nonzero : a ≢ 0) (at : IsBlock db.blocks tiles a hdr) (free : is_free_block hdr a ≡ true)
      (way : HasPassed db.blocks tiles db.file_header.gxd_fs_fptr passed a)
      (later : IsChain db.blocks tiles hdr.block_nd_fptr rest) where
    apart :
        (q : ℕ) (h : GxBlockHeader)
        → IsBlock db.blocks tiles q h
        → status_of h ≡ block_normal
        → (q ≢ a) × (q ≢ mark passed a)
    apart q h here normal =
        in_use_apart db.blocks tiles db.file_header.gxd_fs_fptr a q hdr h passed way at.0 free
          here.0 normal

    pub taken-Placed :
        hdr.block_length ≡ bytes
        → Placed db tiles
            (linked db.blocks (before passed) hdr.block_nd_fptr)
            (first_after passed db.file_header.gxd_fs_fptr hdr.block_nd_fptr)
            db.file_header.gxd_eof
            a
            bytes
    taken-Placed len = record {
      tiles = tiles;
      list = rejoin passed rest;
      was_free = inr (hdr, at.0, free);
      is_tile = subst (λ n. IsTile a n tiles) len at.1;
      tiled =
          exact-IsTiled db.blocks db.file_header.gxd_eof db.file_header.gxd_hs_fptr tiles a bytes
            hdr.block_nd_fptr hdr (before passed) at.0 len
            (before-IsBefore db.blocks tiles db.file_header.gxd_fs_fptr a passed way) heap.tiled;
      chain =
          taken-IsChain db.blocks tiles db.file_header.gxd_fs_fptr a bytes hdr passed rest way
            nonzero at free later;
      others = λ q h here normal.
          let (ne, nm) = apart q h here normal in
          taken-KeepsBlock db.blocks tiles a hdr.block_nd_fptr q (normal_block bytes) passed ne nm h
            here;
      grown = omega arith;
    }

    pub cut-Placed :
        0 < bytes
        → bytes < hdr.block_length
        → Placed db tiles
            (linked
              (update db.blocks (a + bytes) (rest_block (hdr.block_length - bytes) hdr))
              (before passed)
              (a + bytes))
            (first_after passed db.file_header.gxd_fs_fptr (a + bytes))
            db.file_header.gxd_eof
            a
            bytes
    cut-Placed pos short =
        let eof = db.file_header.gxd_eof in
        let s = db.file_header.gxd_hs_fptr in
        let fs = db.file_header.gxd_fs_fptr in
        record {
          tiles = split_tile a bytes tiles;
          list = rejoin passed ((a + bytes) ∷ rest);
          was_free = inr (hdr, at.0, free);
          is_tile = IsTile-split_tile a hdr.block_length bytes tiles at.1;
          tiled =
              split-IsTiled db.blocks eof s tiles a bytes hdr (before passed) pos short at.1
                (before-IsBefore db.blocks tiles fs a passed way) heap.tiled;
          chain =
              cut-IsChain db.blocks tiles eof s fs a bytes hdr heap.tiled at pos short passed rest
                way nonzero free later;
          others = λ q h here normal.
              let (ne, nm) = apart q h here normal in
              cut-KeepsBlock db.blocks tiles eof s fs a bytes hdr heap.tiled at pos short q passed
                ne nm h here;
          grown = omega arith;
        }

-- ===== src/Database/Alloc/Result.antt =====
-- What an allocation leads to, and what it asks of the headers before that of the block is written.
use datareel.Database.Alloc.Parts.{normal_block, finish_alloc-blocks}
use datareel.Prelude.{
  ℕ, ◌<◌, ◌^◌, ◌+◌, ◌≤◌, ◌≡◌, refl, ap, ◌∙◌, true, Option, some, List, arith, eq→==, ◌⊎◌,
}
use datareel.Database.Format.{
  GxBlockHeader, GxDatabase, update, block_header_size, status_of, block_normal,
}
use datareel.Database.Reclaim.{is_free_block}
use datareel.Database.Blocks.{finish_alloc}
use datareel.Database.Tiles.{Headers, IsTiled, IsTile}
use datareel.Database.Chain.{IsChain, IsBlock}
use datareel.Database.Alloc.Parts.{KeepsFile, KeepsFile-trans, Keeps-file, finish_alloc-fs}

-- A block of `bytes` bytes was allocated where none was in use; the heap is a row of blocks, the
-- blocks in use are what they were, and the free space list leads through free blocks.
pub record Allocated (db : GxDatabase) (row : List (ℕ × ℕ)) (bytes : ℕ)
    (r : Option (ℕ × GxDatabase)) : Type 0 where
  pub address : ℕ
  pub after : GxDatabase
  pub tiles : List (ℕ × ℕ)
  pub list : List ℕ
  pub returns : r ≡ some (address + block_header_size db.rev_letter, after)
  pub was_free :
      (address ≡ db.file_header.gxd_eof)
      ⊎ ((hdr : GxBlockHeader) × (db.blocks address ≡ some hdr)
          × (is_free_block hdr address ≡ true))
  pub in_use : after.blocks address ≡ some (normal_block bytes)
  pub is_tile : IsTile address bytes tiles
  pub tiled : IsTiled after.blocks after.file_header.gxd_eof after.file_header.gxd_hs_fptr tiles
  pub chain : IsChain after.blocks tiles after.file_header.gxd_fs_fptr list
  pub others :
      (q : ℕ) (h : GxBlockHeader)
      → IsBlock db.blocks row q h
      → status_of h ≡ block_normal
      → IsBlock after.blocks tiles q h
  pub grown : after.file_header.gxd_eof ≤ db.file_header.gxd_eof + bytes
  pub keeps : KeepsFile db after
  pub synced : after.disk_header ≡ after.file_header

pub finish_alloc-address :
    (db : GxDatabase) (a bytes : ℕ)
    → (finish_alloc db a bytes).0 ≡ a + block_header_size db.rev_letter
unfolding finish_alloc
finish_alloc-address db a bytes = refl

-- What the headers are to be once the new block's is written.
pub record Placed (db : GxDatabase) (row : List (ℕ × ℕ)) (blocks : Headers) (fs eof a bytes : ℕ)
    : Type 0 where
  pub tiles : List (ℕ × ℕ)
  pub list : List ℕ
  pub was_free :
      (a ≡ db.file_header.gxd_eof)
      ⊎ ((hdr : GxBlockHeader) × (db.blocks a ≡ some hdr) × (is_free_block hdr a ≡ true))
  pub is_tile : IsTile a bytes tiles
  pub tiled : IsTiled (update blocks a (normal_block bytes)) eof db.file_header.gxd_hs_fptr tiles
  pub chain : IsChain (update blocks a (normal_block bytes)) tiles fs list
  pub others :
      (q : ℕ) (h : GxBlockHeader)
      → IsBlock db.blocks row q h
      → status_of h ≡ block_normal
      → IsBlock (update blocks a (normal_block bytes)) tiles q h
  pub grown : eof ≤ db.file_header.gxd_eof + bytes

pub allocated :
    (db db' : GxDatabase) (a bytes : ℕ) (row : List (ℕ × ℕ))
    → db'.is_ok ≡ true
    → db'.ready_for_writing ≡ true
    → bytes < 2 ^ 32
    → KeepsFile db db'
    → Placed db row db'.blocks db'.file_header.gxd_fs_fptr db'.file_header.gxd_eof a bytes
    → Allocated db row bytes (some (finish_alloc db' a bytes))
allocated db db' a bytes row ok ready small same placed =
    let (blocks, disk, keeps) = finish_alloc-blocks db' a bytes ok ready small in
    record {
      address = a;
      after = (finish_alloc db' a bytes).1;
      tiles = placed.tiles;
      list = placed.list;
      returns =
          ap (λ x. some (x, (finish_alloc db' a bytes).1))
            (finish_alloc-address db' a bytes ∙ ap (λ r. a + block_header_size r) same.rev);
      was_free = placed.was_free;
      in_use = rw (blocks, eq→== a a refl);
      is_tile = placed.is_tile;
      tiled = rw (blocks, keeps.eof, keeps.hs, same.hs) placed.tiled;
      chain = rw (blocks, finish_alloc-fs db' a bytes) placed.chain;
      others = λ q h here normal. rw blocks (placed.others q h here normal);
      grown = omega (arith, keeps.eof, placed.grown);
      keeps = KeepsFile-trans same (Keeps-file keeps);
      synced = disk;
    }

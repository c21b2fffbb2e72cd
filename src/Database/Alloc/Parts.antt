-- ===== src/Database/Alloc/Parts.antt =====
-- The steps of an allocation that write: `relink`, `split_block`, `finish_alloc`.
use datareel.Database.Chain.{before}
use datareel.Prelude.{List, [], ◌∷◌}
use datareel.Prelude.{ℕ, ◌^◌, ◌+◌, ◌<◌, ◌≡◌, ◌∙◌, true, Option, none, some, arith}
use datareel.Database.Format.{
  ulword, GxBlockHeader, GxDatabase, update, block_overhead, write_block_hdr, write_file_hdr,
  check_word, block_removed, block_normal,
}
use datareel.Database.Reclaim.{uncount, relink, split_block}
use datareel.Database.Blocks.{finish_alloc}
use datareel.Database.Tiles.{Headers}

-- The pointer to the first block of the list after a block was taken off it.
abbrev pub first_after : List (ℕ × GxBlockHeader) → ℕ → ℕ → ℕ
first_after [] fs next = next
first_after (_ ∷ _) fs next = fs

-- The headers after the list has been linked past a block.
abbrev pub linked : Headers → Option (ℕ × GxBlockHeader) → ℕ → Headers
linked blocks none next = blocks
linked blocks (some (a, hdr)) next = update blocks a (record hdr { block_nd_fptr = next })

-- What an allocation leaves alone.
pub record KeepsFile (db db' : GxDatabase) : Type 0 where
  pub hs : db'.file_header.gxd_hs_fptr ≡ db.file_header.gxd_hs_fptr
  pub is_ok : db'.is_ok ≡ db.is_ok
  pub ready : db'.ready_for_writing ≡ db.ready_for_writing
  pub reading : db'.ready_for_reading ≡ db.ready_for_reading
  pub rev : db'.rev_letter ≡ db.rev_letter

pub KeepsFile-trans : {a b c : GxDatabase} → KeepsFile a b → KeepsFile b c → KeepsFile a c
KeepsFile-trans p q = record {
  hs = q.hs ∙ p.hs;
  is_ok = q.is_ok ∙ p.is_ok;
  ready = q.ready ∙ p.ready;
  reading = q.reading ∙ p.reading;
  rev = q.rev ∙ p.rev;
}

-- What the parts of an allocation that do not extend the file leave alone.
pub record Keeps (db db' : GxDatabase) : Type 0 where
  pub eof : db'.file_header.gxd_eof ≡ db.file_header.gxd_eof
  pub hs : db'.file_header.gxd_hs_fptr ≡ db.file_header.gxd_hs_fptr
  pub is_ok : db'.is_ok ≡ db.is_ok
  pub ready : db'.ready_for_writing ≡ db.ready_for_writing
  pub reading : db'.ready_for_reading ≡ db.ready_for_reading
  pub rev : db'.rev_letter ≡ db.rev_letter

pub Keeps-trans : {a b c : GxDatabase} → Keeps a b → Keeps b c → Keeps a c
Keeps-trans p q = record {
  eof = q.eof ∙ p.eof;
  hs = q.hs ∙ p.hs;
  is_ok = q.is_ok ∙ p.is_ok;
  ready = q.ready ∙ p.ready;
  reading = q.reading ∙ p.reading;
  rev = q.rev ∙ p.rev;
}

pub Keeps-file : {a b : GxDatabase} → Keeps a b → KeepsFile a b
Keeps-file p = record {
  hs = p.hs;
  is_ok = p.is_ok;
  ready = p.ready;
  reading = p.reading;
  rev = p.rev;
}

pub block_overhead_pos : (rev : ℕ) → 0 < block_overhead rev
unfolding block_overhead
block_overhead_pos rev = ground arith

pub relink-blocks :
    (db : GxDatabase) (prev : Option (ℕ × GxBlockHeader)) (next : ℕ)
    → ((relink db prev next).blocks ≡ linked db.blocks prev next) × Keeps db (relink db prev next)
unfolding relink write_file_hdr write_block_hdr
relink-blocks db none next = (ground arith, ground arith)
relink-blocks db (some (a, hdr)) next = (ground arith, ground arith)

pub uncount-blocks :
    (db : GxDatabase) (status : ℕ)
    → ((uncount db status).blocks ≡ db.blocks) × Keeps db (uncount db status)
unfolding uncount
uncount-blocks db status = (ground arith, ground arith)

-- The header of the block that is made of the rest.
abbrev pub rest_block : ℕ → GxBlockHeader → GxBlockHeader
rest_block n hdr = record {
  block_check_word = check_word;
  block_length = n;
  block_status = block_removed;
  block_nd_fptr = hdr.block_nd_fptr;
}

pub split_block-blocks :
    (db : GxDatabase) (a bytes n : ℕ) (hdr : GxBlockHeader) (prev : Option (ℕ × GxBlockHeader))
    → ((split_block db a bytes n hdr prev).blocks
        ≡ linked (update db.blocks (a + bytes) (rest_block n hdr)) prev (a + bytes))
      × Keeps db (split_block db a bytes n hdr prev)
unfolding split_block write_file_hdr write_block_hdr
split_block-blocks db a bytes n hdr none = (ground arith, ground arith)
split_block-blocks db a bytes n hdr (some (b, before)) = (ground arith, ground arith)

-- The header of a block that was just allocated.
abbrev pub normal_block : ℕ → GxBlockHeader
normal_block bytes = record {
  block_check_word = check_word;
  block_length = bytes;
  block_status = block_normal;
  block_nd_fptr = 0;
}

-- A number of 32 bits is what it is.
pub ulword_small : (n : ℕ) → n < 2 ^ 32 → ulword n ≡ n
unfolding ulword
ulword_small n h = omega arith

pub finish_alloc-blocks :
    (db : GxDatabase) (a bytes : ℕ)
    → db.is_ok ≡ true
    → db.ready_for_writing ≡ true
    → bytes < 2 ^ 32
    → ((finish_alloc db a bytes).1.blocks ≡ update db.blocks a (normal_block bytes))
      × ((finish_alloc db a bytes).1.disk_header ≡ (finish_alloc db a bytes).1.file_header)
      × Keeps db (finish_alloc db a bytes).1
unfolding finish_alloc
finish_alloc-blocks db a bytes ok ready small =
    rw (ulword_small bytes small) (ground arith, ground arith, ground arith)

pub finish_alloc-fs :
    (db : GxDatabase) (a bytes : ℕ)
    → (finish_alloc db a bytes).1.file_header.gxd_fs_fptr ≡ db.file_header.gxd_fs_fptr
unfolding finish_alloc write_block_hdr write_file_hdr
finish_alloc-fs db a bytes = ground arith

pub relink-fs :
    (db : GxDatabase) (status next : ℕ) (passed : List (ℕ × GxBlockHeader))
    → (relink (uncount db status) (before passed) next).file_header.gxd_fs_fptr
      ≡ first_after passed db.file_header.gxd_fs_fptr next
unfolding relink uncount write_file_hdr write_block_hdr
relink-fs db status next [] = ground arith
relink-fs db status next (p ∷ passed) = ground arith

pub split_block-fs :
    (db : GxDatabase) (status a bytes n : ℕ) (hdr : GxBlockHeader)
    (passed : List (ℕ × GxBlockHeader))
    → (split_block (uncount db status) a bytes n hdr (before passed)).file_header.gxd_fs_fptr
      ≡ first_after passed db.file_header.gxd_fs_fptr (a + bytes)
unfolding split_block relink uncount write_file_hdr write_block_hdr
split_block-fs db status a bytes n hdr [] = ground arith
split_block-fs db status a bytes n hdr (p ∷ passed) = ground arith

-- ===== src/Database/Delete.antt =====
-- `Delete` and `Remove` put a block in front of the free space list.
use datareel.Prelude.{false}
use datareel.Database.Blocks.{put_on_list}
use datareel.Database.Delete.Freed.{Deleted, put_on_list-Deleted}
use datareel.Prelude.{
  ◌⊎◌, ℕ, zero, suc, ◌+◌, ◌-◌, ◌%◌, ◌/◌, ◌^◌, ◌≤◌, ◌<◌, ◌≡◌, ◌≢◌, refl, sym, ap, ◌∙◌, Bool, true,
  false, not, ◌&&◌, ◌||◌, Option, none, some, List, [], ◌∷◌, ltb, ◌==◌, if◌then◌else◌, arith,
  Bool-cases, inl, inr, length, ne→==, eq→==, ==→eq,
}
use mathlib.Core.Option.{some-injective}
use datareel.Database.Format.{
  GxBlockHeader, GxDatabase, update, block_header_size, block_overhead, write_block_hdr,
  write_file_hdr, fs_list_corrupt, status_of, test_block_header, read_block_hdr, block_normal,
  block_removed, block_deleted, no_error, check_word, control_of,
}
use mathlib.Core.Path.{subst}
use datareel.Database.Format.{GxFileHeader, GxFileStatsHeader, GxDatabaseError}
use datareel.Database.Reclaim.{is_free_block}
use datareel.Database.Blocks.{
  Written, complete, refused, delete, delete_on, put_on_list, with_status,
}
use datareel.Database.Tiles.{
  Headers, IsTiled, IsTile, SameLength-rewrite, IsTiled-agree, le_of_tile,
}
use datareel.Database.Chain.{IsChain}
use datareel.Database.Heap.{IsHeap, heap_sound}
pub mod Freed

-- What differs in the statistics and the error of the last operation is a heap still.
IsHeap-stats :
    (db : GxDatabase) (tiles : List (ℕ × ℕ)) (list : List ℕ) (e : GxDatabaseError)
    (stats : GxFileStatsHeader)
    → IsHeap db tiles list
    → IsHeap (record db { gxd_error = e; file_stats_header = stats }) tiles list
IsHeap-stats db tiles list e stats heap = record {
  is_ok = heap.is_ok;
  ready = heap.ready;
  below = heap.below;
  start = heap.start;
  tiled = heap.tiled;
  chain = heap.chain;
}

-- The status that `Delete` gives a block.
abbrev pub freed_status : Bool → ℕ
freed_status true = block_removed
freed_status false = block_deleted

freed_status_cases :
    (f : Bool) → (freed_status f ≡ block_removed) ⊎ (freed_status f ≡ block_deleted)
freed_status_cases true = inl refl
freed_status_cases false = inr refl

-- The database whose statistics count one more block removed or deleted.
abbrev pub counted : GxDatabase → Bool → GxDatabase
counted db f =
    let stats = db.file_stats_header in
    record db {
      gxd_error = no_error;
      file_stats_header =
          if f
          then record stats { removed_blocks = stats.removed_blocks + 1 }
          else record stats { deleted_blocks = stats.deleted_blocks + 1 };
    }

delete-put_on_list :
    (db : GxDatabase) (a : ℕ) (old : GxBlockHeader) (f : Bool)
    → db.is_ok ≡ true
    → db.ready_for_reading ≡ true
    → db.blocks a ≡ some old
    → status_of old ≡ block_normal
    → test_block_header old ≡ true
    → delete db (a + block_header_size db.rev_letter) f
      ≡ put_on_list complete (counted db f) old a (freed_status f)
unfolding delete read_block_hdr
delete-put_on_list db a old true ok reading at normal valid =
    let back : (a + block_header_size db.rev_letter) - block_header_size db.rev_letter ≡ a =
      omega arith in
    grind arith
delete-put_on_list db a old false ok reading at normal valid =
    let back : (a + block_header_size db.rev_letter) - block_header_size db.rev_letter ≡ a =
      omega arith in
    grind arith

-- On a heap that can be read, `Delete` or `Remove` of a block in use succeeds: the header of the
-- block says deleted or removed, with its other bytes and its length kept, the block is in front
-- of the free space list, the row of blocks is the same, and the header on the disk is current.
pub delete-Deleted :
    {db : GxDatabase} {tiles : List (ℕ × ℕ)} {list : List ℕ} (a : ℕ) (old : GxBlockHeader)
    (remove_object : Bool)
    → IsHeap db tiles list
    → db.ready_for_reading ≡ true
    → db.blocks a ≡ some old
    → IsTile a old.block_length tiles
    → status_of old ≡ block_normal
    → test_block_header old ≡ true
    → let r = delete db (a + block_header_size db.rev_letter) remove_object in
      (r.0 ≡ true)
      × Deleted db.file_header.gxd_fs_fptr r.1 tiles list a (freed_status remove_object) old
delete-Deleted {db = db} {tiles = tiles} {list = list} a old f heap reading at tile normal valid =
    let after = counted db f in
    subst
      (λ r. (r.0 ≡ true) × Deleted db.file_header.gxd_fs_fptr r.1 tiles list a (freed_status f) old)
      (sym (delete-put_on_list db a old f heap.is_ok reading at normal valid))
      (put_on_list-Deleted {list = list}
        (IsHeap-stats db tiles list no_error after.file_stats_header heap) a old at tile normal
        valid (freed_status f) (freed_status_cases f))

pub delete-rev :
    (db : GxDatabase) (addr : ℕ) (f : Bool) → (delete db addr f).1.rev_letter ≡ db.rev_letter
unfolding delete read_block_hdr put_on_list write_block_hdr write_file_hdr
delete-rev db addr f = ground arith

pub delete-reading :
    (db : GxDatabase) (addr : ℕ) (f : Bool)
    → (delete db addr f).1.ready_for_reading ≡ db.ready_for_reading
unfolding delete read_block_hdr put_on_list write_block_hdr write_file_hdr
delete-reading db addr f = ground arith

pub delete-elsewhere :
    (db : GxDatabase) (addr : ℕ) (f : Bool) (q : ℕ)
    → (addr - block_header_size db.rev_letter == q) ≡ false
    → (delete db addr f).1.blocks q ≡ db.blocks q
unfolding delete read_block_hdr put_on_list write_block_hdr write_file_hdr
delete-elsewhere db addr f q other = ground arith

refused_complete : (left : Option GxBlockHeader) → refused left ≢ complete
refused_complete left e = cc

-- Where `Delete` or `Remove` fails, however the device takes the write of the block's header: the
-- headers of all other blocks are what they were, and so is that of the block, unless the device
-- refused the write; the header of the file, in memory and on the disk, and the statistics on the disk
-- are what they were; and the statistics in memory are too, or count one more block deleted or
-- removed.
pub delete-failed :
    (device : Written) (db : GxDatabase) (object_address : ℕ) (remove_object : Bool)
    → (delete_on device db object_address remove_object).0 ≡ false
    → let after = (delete_on device db object_address remove_object).1 in
      let block_address = object_address - block_header_size db.rev_letter in
      ((q : ℕ) → q ≢ block_address → after.blocks q ≡ db.blocks q)
      × (device ≡ complete → after.blocks ≡ db.blocks)
      × (after.file_header ≡ db.file_header)
      × (after.disk_header ≡ db.disk_header)
      × (after.disk_stats ≡ db.disk_stats)
      × ((after.file_stats_header ≡ db.file_stats_header)
          ⊎ (after.file_stats_header ≡ (counted db remove_object).file_stats_header))
unfolding delete_on read_block_hdr put_on_list
delete-failed complete db object_address remove_object failed = (
  λ q other. ground arith,
  λ e. ground arith,
  ground arith,
  ground arith,
  ground arith,
  ground arith,
)
delete-failed (refused left) db object_address remove_object failed = (
  λ q other. ground arith,
  λ e. absurd (refused_complete left e),
  ground arith,
  ground arith,
  ground arith,
  ground arith,
)

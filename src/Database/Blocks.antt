-- ===== src/Database/Blocks.antt =====
-- `Alloc`, `Delete`, `Remove` and `UnDelete` of src/gxdbase.cpp. Each returns what the code returns
-- and the new state; `none` is a search that does not end within the fuel.
use datareel.Prelude.{
  ℕ, zero, suc, ◌+◌, ◌-◌, ◌%◌, Bool, true, false, not, ◌&&◌, Option, none, some, ltb, ◌==◌,
  if◌then◌else◌,
}
use datareel.Database.Format.{
  has_record_lock, init_lock, GxBlockHeader, GxDatabase, file_not_writeable, file_read_error,
  file_write_error, fs_list_corrupt, check_word, block_deleted, block_normal, block_removed,
  block_header_size, block_overhead, status_of, write_block_hdr, write_file_hdr, read_block_hdr,
  ulword,
}
use datareel.Database.Reclaim.{
  Reclaimed, reclaimed, endless, reclaim_first_fit, reclaim_best_fit, is_free_block, mark_corrupt,
}

-- `gxDatabaseReclaimMethod`
pub data GxDatabaseReclaimMethod : Type 0 where
  reclaim_none reclaim_bestfit reclaim_firstfit : GxDatabaseReclaimMethod

-- The search that `Alloc` makes of the free space list.
unfoldable pub reclaim : GxDatabaseReclaimMethod → ℕ → GxDatabase → ℕ → Reclaimed
reclaim reclaim_none fuel db bytes = reclaimed 0 db
reclaim reclaim_bestfit fuel db bytes = reclaim_best_fit fuel db bytes
reclaim reclaim_firstfit fuel db bytes = reclaim_first_fit fuel db bytes

-- A new block at the end of the file.
unfoldable pub extend : GxDatabase → ℕ → GxDatabase
extend db bytes = record db {
  file_header = record (db.file_header) {
    gxd_eof = db.file_header.gxd_eof + bytes;
    gxd_hb_fptr = db.file_header.gxd_eof;
  };
  file_stats_header = record (db.file_stats_header) {
    num_blocks = db.file_stats_header.num_blocks + 1;
  };
}

-- The new record lock header that follows the header of a block, in revisions C and D.
unfoldable pub write_lock_hdr : GxDatabase → ℕ → GxDatabase
write_lock_hdr db a =
    if has_record_lock db.rev_letter
    then record db { record_locks = λ b. if a == b then init_lock else db.record_locks b }
    else db

-- What `Alloc` writes of the block that it found or made; the result is the object's address.
unfoldable pub finish_alloc : GxDatabase → ℕ → ℕ → ℕ × GxDatabase
unfolding write_block_hdr write_lock_hdr write_file_hdr
finish_alloc db file_address bytes =
    let blk_hdr : GxBlockHeader = record {
      block_check_word = check_word;
      block_length = ulword bytes;
      block_status = block_normal;
      block_nd_fptr = 0;
    } in
    let written = write_lock_hdr (write_block_hdr db blk_hdr file_address) file_address in
    let highest = record written {
      file_header = record (written.file_header) {
        gxd_hb_fptr =
            if ltb written.file_header.gxd_hb_fptr file_address
            then file_address
            else written.file_header.gxd_hb_fptr;
      };
    } in
    (file_address + block_header_size db.rev_letter, write_file_hdr highest)

unfoldable pub alloc_at : Reclaimed → ℕ → Option (ℕ × GxDatabase)
alloc_at endless bytes = none
alloc_at (reclaimed zero db) bytes =
    some (finish_alloc (extend db bytes) db.file_header.gxd_eof bytes)
alloc_at (reclaimed (suc a) db) bytes = some (finish_alloc db (suc a) bytes)

-- `Alloc`
unfoldable pub alloc : GxDatabaseReclaimMethod → ℕ → GxDatabase → ℕ → Option (ℕ × GxDatabase)
unfolding reclaim
alloc method fuel db object_bytes =
    let bytes = ulword (object_bytes + block_overhead db.rev_letter) in
    if db.is_ok && db.ready_for_writing
    then if db.file_header.gxd_fs_fptr == 0
      then alloc_at (reclaimed 0 db) bytes
      else alloc_at (reclaim method fuel db bytes) bytes
    else some (0, record db { gxd_error = file_not_writeable })

-- The status with a new first byte; the other bytes stay.
unfoldable pub with_status : ℕ → ℕ → ℕ
with_status block_status status = block_status - block_status % 256 + status

-- How the device takes the write of a block header: as a whole, or it refuses, and leaves some
-- header at the address, or nothing that can be read.
pub data Written : Type 0 where
  complete : Written
  refused : Option GxBlockHeader → Written

-- The part of `Delete` that follows the statistics.
unfoldable pub put_on_list : Written → GxDatabase → GxBlockHeader → ℕ → ℕ → Bool × GxDatabase
unfolding write_block_hdr write_file_hdr
put_on_list device db blk_hdr block_address status =
    let freed = record blk_hdr {
      block_status = with_status blk_hdr.block_status status;
      block_nd_fptr = db.file_header.gxd_fs_fptr;
    } in
    let written = write_block_hdr db freed block_address in
    if not db.ready_for_writing
    then (false, record db { gxd_error = file_not_writeable })
    else elim device [
      | refused left ↦ (
        false,
        record db {
          blocks = λ b. if block_address == b then left else db.blocks b;
          gxd_error = file_write_error;
        },
      )
      | complete ↦ if db.file_header.gxd_fs_fptr == fs_list_corrupt then (true, written) else (
        true,
        write_file_hdr (record written {
          file_header = record (written.file_header) { gxd_fs_fptr = block_address };
        }),
      )
    ]

-- `Delete`, with `remove_object`, on a device that takes the write of the block's header in this way
unfoldable pub delete_on : Written → GxDatabase → ℕ → Bool → Bool × GxDatabase
unfolding put_on_list read_block_hdr block_header_size
delete_on device db object_address remove_object =
    let block_address = object_address - block_header_size db.rev_letter in
    let (found, read) = read_block_hdr db block_address in
    let stats = read.file_stats_header in
    elim found [
      | none ↦ (false, read)
      | some blk_hdr ↦
          if not (status_of blk_hdr == block_normal)
          then (false, read)
          else if remove_object
          then put_on_list device
              (record read {
                file_stats_header = record stats { removed_blocks = stats.removed_blocks + 1 };
              })
              blk_hdr block_address block_removed
          else put_on_list device
              (record read {
                file_stats_header = record stats { deleted_blocks = stats.deleted_blocks + 1 };
              })
              blk_hdr block_address block_deleted
    ]

-- `Delete` on a device that takes every write
unfoldable pub delete : GxDatabase → ℕ → Bool → Bool × GxDatabase
unfolding delete_on
delete db object_address remove_object = delete_on complete db object_address remove_object

-- `Remove`
unfoldable pub remove : GxDatabase → ℕ → Bool × GxDatabase
unfolding delete
remove db object_address = delete db object_address true

-- The end of `UnDelete` at the block, for a file that is ready for writing.
unfoldable pub restore : GxDatabase → ℕ → GxBlockHeader → Option (ℕ × GxBlockHeader) → GxDatabase
unfolding write_file_hdr write_block_hdr
restore db addr blk_hdr prev =
    let stats = db.file_stats_header in
    let counted = record db {
      file_stats_header = record stats { deleted_blocks = stats.deleted_blocks - 1 };
    } in
    let next = blk_hdr.block_nd_fptr in
    let linked : GxDatabase = elim prev [
      | none ↦
          write_file_hdr
            (record counted { file_header = record (db.file_header) { gxd_fs_fptr = next } })
      | some (prev_addr, prev_blk) ↦
          write_block_hdr counted (record prev_blk { block_nd_fptr = next }) prev_addr
    ] in
    write_block_hdr linked
      (record blk_hdr {
        block_status = with_status blk_hdr.block_status block_normal;
        block_nd_fptr = 0;
      })
      addr

-- The end of `UnDelete` where the file is not ready for writing: the first write fails, after the
-- statistics and, at the front of the list, the pointer to it have changed in memory.
unfoldable pub restore_refused :
    GxDatabase → GxBlockHeader → Option (ℕ × GxBlockHeader) → GxDatabase
restore_refused db blk_hdr prev =
    let stats = db.file_stats_header in
    let refused = record db {
      file_stats_header = record stats { deleted_blocks = stats.deleted_blocks - 1 };
      gxd_error = file_not_writeable;
    } in
    elim prev [
      | none ↦ record refused {
        file_header = record (db.file_header) { gxd_fs_fptr = blk_hdr.block_nd_fptr };
      }
      | some _ ↦ refused
    ]

-- The loop of `UnDelete` over the free space list.
unfoldable pub undelete_walk :
    ℕ → GxDatabase → ℕ → ℕ → Option (ℕ × GxBlockHeader) → Option (Bool × GxDatabase)
unfolding restore restore_refused
undelete_walk zero db block_address addr prev = if addr == 0 then some (false, db) else none
undelete_walk (suc fuel) db block_address addr prev =
    let body : Option (Bool × GxDatabase) = elim (db.blocks addr) [
      | none ↦ some (false, record db { gxd_error = file_read_error })
      | some blk_hdr ↦
          let next =
            undelete_walk fuel db block_address blk_hdr.block_nd_fptr (some (addr, blk_hdr)) in
          if not (is_free_block blk_hdr addr)
          then some (false, mark_corrupt db)
          else if addr == block_address
          then (if db.ready_for_writing
              then some (true, restore db addr blk_hdr prev)
              else some (false, restore_refused db blk_hdr prev))
          else next
    ] in
    if addr == 0 then some (false, db) else body

-- `UnDelete`
unfoldable pub undelete : ℕ → GxDatabase → ℕ → Option (Bool × GxDatabase)
unfolding undelete_walk read_block_hdr
undelete fuel db object_address =
    let block_address = object_address - block_header_size db.rev_letter in
    let (found, read) = read_block_hdr db block_address in
    elim found [
      | none ↦ some (false, read)
      | some blk_hdr ↦
          if status_of blk_hdr == block_deleted
          then undelete_walk fuel read block_address db.file_header.gxd_fs_fptr none
          else some (false, read)
    ]

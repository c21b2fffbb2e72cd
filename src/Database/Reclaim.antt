-- ===== src/Database/Reclaim.antt =====
-- `ReclaimFirstFit` and `ReclaimBestFit` of src/gxdbase.cpp, called by `Alloc` with a file that is
-- open and ready for reading and writing. `fuel` bounds the rounds of the search.
use datareel.Prelude.{
  ℕ, zero, suc, ◌+◌, ◌-◌, ◌*◌, ◌/◌, Bool, not, ◌&&◌, ◌||◌, Option, none, some, ltb, leb, ◌==◌,
  if◌then◌else◌,
}
use datareel.Database.Format.{
  GxBlockHeader, GxDatabase, file_read_error, fs_list_corrupt, check_word, block_deleted,
  block_removed, block_overhead, status_of, test_block_header, write_block_hdr,
  write_file_stats_hdr, write_file_hdr, ulword,
}

-- The address that is returned, 0 where no block is reused; or no answer within the fuel.
pub data Reclaimed : Type 0 where
  reclaimed : ℕ → GxDatabase → Reclaimed
  endless : Reclaimed

-- The tests that both searches make of each block in the free space list.
unfoldable pub is_free_block : GxBlockHeader → ℕ → Bool
is_free_block hdr addr =
    test_block_header hdr
    && ((status_of hdr == block_deleted) || (status_of hdr == block_removed))
    && not (addr == hdr.block_nd_fptr)

unfoldable pub mark_corrupt : GxDatabase → GxDatabase
unfolding write_file_hdr
mark_corrupt db =
    write_file_hdr
      (record db { file_header = record (db.file_header) { gxd_fs_fptr = fs_list_corrupt } })

-- The statistics of a block that leaves the list.
unfoldable pub uncount : GxDatabase → ℕ → GxDatabase
uncount db status =
    let stats = db.file_stats_header in
    if status == block_deleted
    then record db {
      file_stats_header = record stats { deleted_blocks = stats.deleted_blocks - 1 };
    }
    else if status == block_removed
    then record db {
      file_stats_header = record stats { removed_blocks = stats.removed_blocks - 1 };
    }
    else db

-- What is left of a block of `avail_len` bytes, or 0 where that cannot hold a block.
unfoldable pub unused_length : GxDatabase → ℕ → ℕ → ℕ
unused_length db avail_len bytes =
    if ltb (ulword (bytes + block_overhead db.rev_letter)) avail_len then avail_len - bytes else 0

-- Points what precedes a block in the list to another address.
unfoldable pub relink : GxDatabase → Option (ℕ × GxBlockHeader) → ℕ → GxDatabase
unfolding write_file_hdr write_block_hdr write_file_stats_hdr
relink db none next =
    write_file_hdr (record db { file_header = record (db.file_header) { gxd_fs_fptr = next } })
relink db (some (prev_addr, prev_blk)) next =
    write_file_stats_hdr (write_block_hdr db (record prev_blk { block_nd_fptr = next }) prev_addr)

-- Reuses the first `bytes` bytes of a block, and makes the rest a removed block in its place.
unfoldable pub split_block :
    GxDatabase → ℕ → ℕ → ℕ → GxBlockHeader → Option (ℕ × GxBlockHeader) → GxDatabase
unfolding relink write_block_hdr
split_block db addr bytes unused_len blk_hdr prev =
    let new_addr = addr + bytes in
    let stats = db.file_stats_header in
    let new_blk : GxBlockHeader = record {
      block_check_word = check_word;
      block_length = unused_len;
      block_status = block_removed;
      block_nd_fptr = blk_hdr.block_nd_fptr;
    } in
    let counted = record db {
      file_stats_header = record stats {
        num_blocks = stats.num_blocks + 1;
        removed_blocks = stats.removed_blocks + 1;
      };
    } in
    relink (write_block_hdr counted new_blk new_addr) prev new_addr

-- The loop of `ReclaimFirstFit` at an address of the list, with the block before it.
unfoldable pub first_fit : ℕ → GxDatabase → ℕ → ℕ → Option (ℕ × GxBlockHeader) → Reclaimed
first_fit zero db bytes addr prev = if addr == 0 then reclaimed 0 db else endless
first_fit (suc fuel) db bytes addr prev =
    let body : Reclaimed = elim (db.blocks addr) [
      | none ↦ reclaimed 0 (record db { gxd_error = file_read_error })
      | some blk_hdr ↦
          let avail_len = blk_hdr.block_length in
          let unused_len = unused_length db avail_len bytes in
          let taken = uncount db (status_of blk_hdr) in
          let next = first_fit fuel db bytes blk_hdr.block_nd_fptr (some (addr, blk_hdr)) in
          if not (is_free_block blk_hdr addr)
          then reclaimed 0 (mark_corrupt db)
          else if avail_len == bytes
          then reclaimed addr (relink taken prev blk_hdr.block_nd_fptr)
          else if ltb 0 unused_len
          then reclaimed addr (split_block taken addr bytes unused_len blk_hdr prev)
          else next
    ] in
    if addr == 0 then reclaimed 0 db else body

unfoldable pub reclaim_first_fit : ℕ → GxDatabase → ℕ → Reclaimed
reclaim_first_fit fuel db bytes =
    if db.file_header.gxd_fs_fptr == fs_list_corrupt
    then reclaimed 0 db
    else first_fit fuel db bytes db.file_header.gxd_fs_fptr none

-- The block that `ReclaimBestFit` would use if it ends without an exact fit.
pub record BestFit : Type 0 where
  pub best_fit_addr : ℕ
  pub best_fit_unused_len : ℕ
  pub best_fit_blk : GxBlockHeader
  pub best_fit_prev : Option (ℕ × GxBlockHeader)

-- The loop over the multiples of a quarter of the length, with `left` rounds to go.
unfoldable pub best_length_loop :
    ℕ → ℕ → ℕ → ℕ → GxBlockHeader → Option (ℕ × GxBlockHeader) → Option BestFit → Option BestFit
best_length_loop zero bytes unused_len addr blk prev best = best
best_length_loop (suc left) bytes unused_len addr blk prev best =
    let best_length = bytes * (10 - left) / 4 in
    let best_fit_unused_len : ℕ = elim best [ none ↦ 0 | some b ↦ b.best_fit_unused_len ] in
    best_length_loop left bytes unused_len addr blk prev (
      if leb unused_len best_length && ltb best_length best_fit_unused_len
      then some (record {
        best_fit_addr = addr;
        best_fit_unused_len = unused_len;
        best_fit_blk = blk;
        best_fit_prev = prev;
      })
      else best)

-- The end of `ReclaimBestFit`, with the status of the last block of the list.
unfoldable pub use_best_fit : GxDatabase → ℕ → ℕ → Option BestFit → Reclaimed
unfolding split_block uncount
use_best_fit db bytes status none = reclaimed 0 db
use_best_fit db bytes status (some best) = reclaimed best.best_fit_addr (
    split_block (uncount db status) best.best_fit_addr bytes best.best_fit_unused_len
      best.best_fit_blk best.best_fit_prev)

unfoldable pub best_fit :
    ℕ → GxDatabase → ℕ → ℕ → ℕ → Option (ℕ × GxBlockHeader) → Option BestFit → Reclaimed
best_fit zero db bytes status addr prev best =
    if addr == 0 then use_best_fit db bytes status best else endless
best_fit (suc fuel) db bytes status addr prev best =
    let body : Reclaimed = elim (db.blocks addr) [
      | none ↦ reclaimed 0 (record db { gxd_error = file_read_error })
      | some blk_hdr ↦
          let avail_len = blk_hdr.block_length in
          let unused_len = unused_length db avail_len bytes in
          let taken = uncount db (status_of blk_hdr) in
          let better =
            if ltb 0 unused_len
            then best_length_loop 10 bytes unused_len addr blk_hdr prev best
            else best in
          let next =
            best_fit fuel db bytes (status_of blk_hdr) blk_hdr.block_nd_fptr (some (addr, blk_hdr))
              better in
          if not (is_free_block blk_hdr addr)
          then reclaimed 0 (mark_corrupt db)
          else if avail_len == bytes
          then reclaimed addr (relink taken prev blk_hdr.block_nd_fptr)
          else next
    ] in
    if addr == 0 then use_best_fit db bytes status best else body

unfoldable pub reclaim_best_fit : ℕ → GxDatabase → ℕ → Reclaimed
reclaim_best_fit fuel db bytes =
    if db.file_header.gxd_fs_fptr == fs_list_corrupt
    then reclaimed 0 db
    else best_fit fuel db bytes 0 db.file_header.gxd_fs_fptr none none

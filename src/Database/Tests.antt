-- ===== src/Database/Tests.antt =====
-- A heap of three blocks after the headers of a file of revision D, and runs on it.
use datareel.Prelude.{
  ℕ, ◌+◌, ◌≡◌, refl, true, false, none, some, List, [], ◌∷◌, ◌==◌, if◌then◌else◌, inl, inr, arith,
}
use datareel.Database.Format.{
  init_lock, GxFileHeader, GxBlockHeader, GxFileStatsHeader, GxDatabase, no_error, check_word,
  block_normal, block_removed, test_block_header, block_header_size, block_overhead,
}
use datareel.Database.Reclaim.{reclaim_best_fit, is_free_block}
use datareel.Database.Blocks.{alloc, delete, undelete, reclaim_firstfit, reclaim_bestfit}
use datareel.Database.Heap.{IsHeap}
use datareel.Database.Alloc.Result.{Allocated}
use datareel.Database.Alloc.{alloc-Allocated}
use datareel.Database.Alloc.Parts.{normal_block}
use datareel.Database.BestFit.{ExactFit, reclaim_best_fit-ExactFit, alloc_bestfit-Allocated}
use datareel.Prelude.{false}
use datareel.Database.Format.{read_block_hdr, ulword}
use datareel.Prelude.{none, ◌⊎◌, ◌≢◌, ◌-◌, Bool}
use datareel.Database.Blocks.{refused, complete, delete_on, put_on_list}
use datareel.Database.Format.{block_deleted}
use datareel.Database.Reclaim.{first_fit, endless}
use datareel.Database.Cycle.{IsPassed, first_fit-cycle}
use datareel.Database.Delete.{counted, delete-failed, delete-Deleted}
use datareel.Database.Delete.Freed.{Deleted}
use datareel.Database.Reuse.{delete-alloc}
use datareel.Database.Undo.{delete-undelete}

abbrev block : ℕ → ℕ → ℕ → GxBlockHeader
block length status next = record {
  block_check_word = check_word;
  block_length = length;
  block_status = status;
  block_nd_fptr = next;
}

abbrev header : GxFileHeader
header = record { gxd_fs_fptr = 236; gxd_eof = 436; gxd_hs_fptr = 86; gxd_hb_fptr = 336 }

abbrev stats : GxFileStatsHeader
stats = record { num_blocks = 3; deleted_blocks = 0; removed_blocks = 1 }

-- Blocks at 86, 236 and 336; that at 236 is free.
abbrev pub heap : GxDatabase
heap = record {
  file_header = header;
  file_stats_header = stats;
  rev_letter = b'D';
  is_ok = true;
  ready_for_reading = true;
  ready_for_writing = true;
  gxd_error = no_error;
  blocks = λ a.
      if a == 86
      then some (block 150 block_normal 0)
      else if a == 236
      then some (block 100 block_removed 0)
      else if a == 336
      then some (block 100 block_normal 0)
      else none;
  disk_header = header;
  disk_stats = stats;
  file_lock = init_lock;
  record_locks = λ _. init_lock;
}

abbrev pub row : List (ℕ × ℕ)
row = (86, 150) ∷ (236, 100) ∷ (336, 100) ∷ []

pub heap-IsHeap : IsHeap heap row (236 ∷ [])
unfolding is_free_block test_block_header
heap-IsHeap = record {
  is_ok = refl;
  ready = refl;
  below = omega arith;
  start = omega arith;
  tiled = (
    refl,
    omega arith,
    (block 150 block_normal 0, refl, refl),
    (
      refl,
      omega arith,
      (block 100 block_removed 0, refl, refl),
      (refl, omega arith, (block 100 block_normal 0, refl, refl), refl),
    ),
  );
  chain =
      (refl, omega arith, (block 100 block_removed 0, (refl, inr (inl (refl, refl))), refl, refl));
}

valid_block : test_block_header (block 150 block_normal 0) ≡ true
unfolding test_block_header
valid_block = refl

overhead : block_overhead b'D' ≡ 36
unfolding block_overhead block_header_size
overhead = refl

alloc-Allocated_example :
    Allocated heap row (20 + block_overhead b'D') (alloc reclaim_firstfit 1 heap 20)
alloc-Allocated_example = alloc-Allocated heap-IsHeap 1 20 (omega arith) (omega (arith, overhead))

alloc_bestfit-Allocated_example :
    Allocated heap row (64 + block_overhead b'D') (alloc reclaim_bestfit 1 heap 64)
alloc_bestfit-Allocated_example =
    alloc_bestfit-Allocated heap-IsHeap 1 64 (omega arith) (omega (arith, overhead))

reclaim_best_fit-ExactFit_example : ExactFit heap row 60 (236 ∷ []) (reclaim_best_fit 1 heap 60)
reclaim_best_fit-ExactFit_example = reclaim_best_fit-ExactFit heap-IsHeap 1 60 (omega arith)

delete-Deleted_example :
    ((delete heap (86 + block_header_size b'D') true).0 ≡ true)
    × Deleted 236
        (delete heap (86 + block_header_size b'D') true).1
        row
        (236 ∷ [])
        86
        block_removed
        (block 150 block_normal 0)
delete-Deleted_example =
    delete-Deleted 86 (block 150 block_normal 0) true heap-IsHeap refl refl (inl (refl, refl)) refl
      valid_block

delete-alloc_example :
    let object = 86 + block_header_size b'D' in
    (after : GxDatabase) × (alloc reclaim_firstfit 1 (delete heap object true).1 114
      ≡ some (object, after))
    × (after.blocks 86 ≡ some (normal_block 150))
    × (after.file_header.gxd_fs_fptr ≡ 236)
delete-alloc_example =
    delete-alloc 86 114 0 (block 150 block_normal 0) true heap-IsHeap refl refl (inl (refl, refl))
      refl valid_block (omega (arith, overhead)) (omega arith)

delete-undelete_example :
    let object = 86 + block_header_size b'D' in
    (after : GxDatabase) × (undelete 1 (delete heap object false).1 object ≡ some (true, after))
    × (after.blocks 86 ≡ some (block 150 block_normal 0))
    × (after.file_header.gxd_fs_fptr ≡ 236)
delete-undelete_example =
    delete-undelete 86 0 (block 150 block_normal 0) heap-IsHeap refl refl (inl (refl, refl)) refl
      valid_block

-- The block at 236 is free already.
free_block : (delete heap 268 true).0 ≡ false
unfolding delete read_block_hdr test_block_header block_header_size
free_block = refl

-- The device refuses the write of the header at 86 and leaves nothing to read there.
abbrev torn : Bool × GxDatabase
torn = delete_on (refused none) heap 118 true

torn_false : torn.0 ≡ false
unfolding delete_on put_on_list read_block_hdr test_block_header block_header_size
torn_false = refl

delete-failed_example :
    ((q : ℕ) → q ≢ 118 - block_header_size b'D' → torn.1.blocks q ≡ heap.blocks q)
    × (refused none ≡ complete → torn.1.blocks ≡ heap.blocks)
    × (torn.1.file_header ≡ header)
    × (torn.1.disk_header ≡ header)
    × (torn.1.disk_stats ≡ heap.disk_stats)
    × ((torn.1.file_stats_header ≡ heap.file_stats_header)
        ⊎ (torn.1.file_stats_header ≡ (counted heap true).file_stats_header))
delete-failed_example = delete-failed (refused none) heap 118 true torn_false

-- Two free blocks that point to each other.
abbrev circle : GxDatabase
circle = record heap {
  blocks = λ a.
      if a == 86
      then some (block 60 block_removed 146)
      else if a == 146
      then some (block 60 block_deleted 86)
      else none;
}

overhead_circle : block_overhead circle.rev_letter ≡ 36
unfolding block_overhead block_header_size
overhead_circle = refl

first_IsPassed : IsPassed circle 70 86 (block 60 block_removed 146) 146
unfolding is_free_block test_block_header ulword
first_IsPassed = record {
  present = refl;
  address = omega arith;
  free = refl;
  differs = omega arith;
  short = omega (arith, overhead_circle);
  points = refl;
}

second_IsPassed : IsPassed circle 70 146 (block 60 block_deleted 86) 86
unfolding is_free_block test_block_header ulword
second_IsPassed = record {
  present = refl;
  address = omega arith;
  free = refl;
  differs = omega arith;
  short = omega (arith, overhead_circle);
  points = refl;
}

first_fit-cycle_example : first_fit 1000 circle 70 86 none ≡ endless
first_fit-cycle_example =
    first_fit-cycle 1000 circle 70 86 146 (block 60 block_removed 146) (block 60 block_deleted 86)
      none first_IsPassed second_IsPassed

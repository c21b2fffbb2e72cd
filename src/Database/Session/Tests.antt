-- ===== src/Database/Session/Tests.antt =====
-- A client that allocates two objects in the heap of Database/Tests and deletes the first.
use datareel.Prelude.{
  ℕ, ◌+◌, ◌*◌, ◌^◌, ◌<◌, ◌≡◌, ◌≢◌, refl, Bool, true, Option, none, some, [], ◌∷◌, arith, All,
}
use datareel.Database.Format.{
  GxDatabase, test_block_header, block_header_size, block_overhead, ulword,
}
use datareel.Database.Reclaim.{
  is_free_block, uncount, unused_length, split_block, first_fit, reclaim_first_fit,
}
use datareel.Database.Blocks.{
  GxDatabaseReclaimMethod, reclaim_none, reclaim_firstfit, reclaim, extend, finish_alloc, alloc_at,
  alloc, delete,
}
use datareel.Database.Session.{Session, Reach, start, later, allocate, free}
use datareel.Database.Session.Safety.{AllApart, IsStored, Reach-AllApart, Reach-progress}
use datareel.Database.Tests.{heap, row, heap-IsHeap}

abbrev state_of : Option (ℕ × GxDatabase) → GxDatabase
state_of none = heap
state_of (some r) = r.1

-- Cut from the front of the free block at 236.
abbrev once : GxDatabase
once = state_of (alloc reclaim_firstfit 1 heap 20)

alloc-once : alloc reclaim_firstfit 1 heap 20 ≡ some (268, once)
unfolding ulword alloc reclaim reclaim_first_fit first_fit unused_length is_free_block
    test_block_header block_header_size block_overhead alloc_at finish_alloc split_block uncount
alloc-once = refl

-- At the end of the file.
abbrev twice : GxDatabase
twice = state_of (alloc reclaim_firstfit 1 once 64)

alloc-twice : alloc reclaim_firstfit 1 once 64 ≡ some (468, twice)
unfolding ulword alloc reclaim reclaim_first_fit first_fit unused_length is_free_block
    test_block_header block_header_size block_overhead alloc_at finish_alloc split_block uncount
    extend
alloc-twice = refl

-- The sum with the headers wraps: the new block has 26 bytes and its header 32.
alloc-wrapped : (state_of (alloc reclaim_none 0 heap 0xfffffff6)).file_header.gxd_eof ≡ 436 + 26
unfolding ulword alloc reclaim block_header_size block_overhead alloc_at finish_alloc extend
alloc-wrapped = refl

once_end : once.file_header.gxd_eof + (64 + block_overhead once.rev_letter) ≡ 536
unfolding ulword alloc reclaim reclaim_first_fit first_fit unused_length is_free_block
    test_block_header block_header_size block_overhead alloc_at finish_alloc split_block uncount
once_end = refl

heap_end : heap.file_header.gxd_eof + (20 + block_overhead heap.rev_letter) ≡ 492
unfolding block_overhead block_header_size
heap_end = refl

heap_rev : block_overhead heap.rev_letter ≡ 36
unfolding block_overhead block_header_size
heap_rev = refl

once_rev : block_overhead once.rev_letter ≡ 36
unfolding ulword alloc reclaim reclaim_first_fit first_fit unused_length is_free_block
    test_block_header block_header_size block_overhead alloc_at finish_alloc split_block uncount
once_rev = refl

abbrev session : Session
session = record { db = (delete twice 268 true).1; objects = (468, 64) ∷ [] }

session-Reach : Reach session
session-Reach =
    later
      (later
        (later (start heap row (236 ∷ []) heap-IsHeap refl) (
          allocate (record { db = heap; objects = [] }) reclaim_firstfit 1 20 268 once alloc-once
            (omega (arith, heap_end)) (omega (arith, heap_rev))))
        (allocate (record { db = once; objects = (268, 20) ∷ [] }) reclaim_firstfit 1 64 468 twice
          alloc-twice (omega (arith, once_end)) (omega (arith, once_rev))))
      (free (record { db = twice; objects = (468, 64) ∷ (268, 20) ∷ [] }) true 268 20 []
        ((468, 64) ∷ []) refl)

Reach-AllApart_example : AllApart session.objects × All (IsStored session.db) session.objects
Reach-AllApart_example = Reach-AllApart session session-Reach

Reach-progress_example :
    ((method : GxDatabaseReclaimMethod) (bytes : ℕ)
      → bytes + 2 * block_overhead session.db.rev_letter < 2 ^ 32
      → (fuel : ℕ) × (object : ℕ) × (after : GxDatabase) × (alloc method fuel session.db bytes
          ≡ some (object, after))
        × (object ≢ 0))
    × All
        (λ q. (remove_object : Bool) → (delete session.db q.0 remove_object).0 ≡ true)
        session.objects
Reach-progress_example = Reach-progress session session-Reach

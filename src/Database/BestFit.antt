-- ===== src/Database/BestFit.antt =====
-- `ReclaimBestFit`: what the search of the free space list ends in, and `Alloc` with that method.
use mathlib.Core.Path.{subst}
use datareel.Database.Alloc.Parts.{ulword_small}
use datareel.Prelude.{
  ◌^◌, All, Bool, ℕ, zero, suc, ◌+◌, ◌*◌, ◌-◌, ◌/◌, ◌≤◌, ◌<◌, ◌≡◌, ◌≢◌, refl, sym, true, false,
  Option, none, some, List, [], ◌∷◌, ltb, leb, ◌&&◌, ◌==◌, if◌then◌else◌, arith, Bool-cases, inl,
  inr, length, ne→==, eq→==, ==→eq,
}
use datareel.Database.Format.{GxBlockHeader, GxDatabase, status_of, block_overhead}
use datareel.Database.Reclaim.{
  Reclaimed, reclaimed, best_length_loop, is_free_block, uncount, unused_length, relink, best_fit,
  reclaim_best_fit, use_best_fit,
}
use datareel.Database.Blocks.{alloc, reclaim_bestfit, alloc_at}
use datareel.Database.FreeList.{exact}
use datareel.Database.Chain.{IsBlock, IsChain, HasPassed, before}
use datareel.Database.Alloc.Parts.{block_overhead_pos}
use datareel.Database.Heap.{IsHeap, heap_sound}
use datareel.Database.Alloc.Result.{Allocated}
use datareel.Database.Alloc.{Fit-Allocated, extend-Allocated}

-- A block of the list that is not of this length.
abbrev pub IsOtherLength : GxDatabase → ℕ → ℕ → Type 0
IsOtherLength db bytes a =
    (hdr : GxBlockHeader) × (db.blocks a ≡ some hdr) × (hdr.block_length ≢ bytes)

-- A block of the length asked for is taken whole, or there is none and nothing is taken.
pub data ExactFit (db : GxDatabase) (tiles : List (ℕ × ℕ)) (bytes : ℕ) (list : List ℕ)
    : Reclaimed → Type 0 where
  nothing : All (IsOtherLength db bytes) list → ExactFit db tiles bytes list (reclaimed 0 db)
  whole :
      (a : ℕ) (hdr : GxBlockHeader) (passed : List (ℕ × GxBlockHeader)) (rest : List ℕ)
      → a ≢ 0
      → IsBlock db.blocks tiles a hdr
      → is_free_block hdr a ≡ true
      → hdr.block_length ≡ bytes
      → HasPassed db.blocks tiles db.file_header.gxd_fs_fptr passed a
      → IsChain db.blocks tiles hdr.block_nd_fptr rest
      → ExactFit db tiles bytes list
          (reclaimed a (relink (uncount db (status_of hdr)) (before passed) hdr.block_nd_fptr))

-- No round stores a block: the best unused length starts at 0, and none is below that.
best_length_loop-none :
    (left bytes unused_len addr : ℕ) (blk : GxBlockHeader) (prev : Option (ℕ × GxBlockHeader))
    → best_length_loop left bytes unused_len addr blk prev none ≡ none
unfolding best_length_loop
best_length_loop-none zero bytes unused_len addr blk prev = refl
best_length_loop-none (suc left) bytes unused_len addr blk prev =
    let never : (leb unused_len (bytes * (10 - left) / 4) && ltb (bytes * (10 - left) / 4) 0)
        ≡ false =
      ground arith in
    rw never (best_length_loop-none left bytes unused_len addr blk prev)

better-none :
    (b : Bool) (bytes unused_len addr : ℕ) (blk : GxBlockHeader) (prev : Option (ℕ × GxBlockHeader))
    → (if b then best_length_loop 10 bytes unused_len addr blk prev none else none) ≡ none
better-none true bytes unused_len addr blk prev =
    best_length_loop-none 10 bytes unused_len addr blk prev
better-none false bytes unused_len addr blk prev = refl

ExactFit-later :
    (db : GxDatabase) (tiles : List (ℕ × ℕ)) (bytes a : ℕ) (list : List ℕ) {r : Reclaimed}
    → IsOtherLength db bytes a
    → ExactFit db tiles bytes list r
    → ExactFit db tiles bytes (a ∷ list) r
ExactFit-later db tiles bytes a list other (nothing rest) = nothing (other, rest)
ExactFit-later db tiles bytes a list other (whole b hdr passed rest' ne at free len way later) =
    whole b hdr passed rest' ne at free len way later

best_fit-ExactFit :
    (fuel : ℕ) (db : GxDatabase) (tiles : List (ℕ × ℕ)) (bytes status addr : ℕ)
    (passed : List (ℕ × GxBlockHeader)) (list : List ℕ)
    → length list ≤ fuel
    → IsChain db.blocks tiles addr list
    → HasPassed db.blocks tiles db.file_header.gxd_fs_fptr passed addr
    → ExactFit db tiles bytes list (best_fit fuel db bytes status addr (before passed) none)
unfolding best_fit use_best_fit
best_fit-ExactFit zero db tiles bytes status addr passed [] h chain way =
    rw (eq→== addr 0 chain) (nothing tt)
best_fit-ExactFit (suc fuel) db tiles bytes status addr passed [] h chain way =
    rw (eq→== addr 0 chain) (nothing tt)
best_fit-ExactFit zero db tiles bytes status addr passed (a ∷ rest) h chain way =
    absurd (omega arith)
best_fit-ExactFit (suc fuel) db tiles bytes status addr passed (a ∷ rest) h chain way =
    let (e, pos, (hdr, at, free, later)) = chain in
    let way_here =
      subst (λ z. HasPassed db.blocks tiles db.file_header.gxd_fs_fptr passed z) e way in
    let unused = unused_length db hdr.block_length bytes in
    subst
      (λ z.
        ExactFit db tiles bytes (a ∷ rest)
          (best_fit (suc fuel) db bytes status z (before passed) none))
      (sym e)
      (rw (ne→== a 0 pos, at.0, free)
        (elim (Bool-cases (hdr.block_length == bytes)) [
          | inl same ↦ rw same (
              whole a hdr passed rest pos at free (==→eq hdr.block_length bytes same) way_here
                later)
          | inr differs ↦
              rw (differs, better-none (ltb 0 unused) bytes unused a hdr (before passed))
                (ExactFit-later db tiles bytes a rest (hdr, at.0, ground arith)
                  (best_fit-ExactFit fuel db tiles bytes (status_of hdr) hdr.block_nd_fptr
                    ((a, hdr) ∷ passed) rest (omega arith) later (pos, at, free, refl, way_here)))
        ]))

module _ {db : GxDatabase} {tiles : List (ℕ × ℕ)} {list : List ℕ}
    (heap : IsHeap db tiles list) where
  -- On a heap, with room in the fuel for every block of its free space list, `ReclaimBestFit` ends
  -- with a block of exactly the length asked for, which leaves the list, or it finds that there is
  -- none and takes nothing: it never uses a part of a longer block.
  pub reclaim_best_fit-ExactFit :
      (fuel bytes : ℕ)
      → length list ≤ fuel
      → ExactFit db tiles bytes list (reclaim_best_fit fuel db bytes)
  unfolding reclaim_best_fit
  reclaim_best_fit-ExactFit fuel bytes h =
      rw (ne→== _ _ (heap_sound heap)) (
        best_fit-ExactFit fuel db tiles bytes 0 db.file_header.gxd_fs_fptr [] list h heap.chain
          refl)

  ExactFit-Allocated :
      (bytes : ℕ) {r : Reclaimed}
      → 0 < bytes
      → bytes < 2 ^ 32
      → ExactFit db tiles bytes list r
      → Allocated db tiles bytes (alloc_at r bytes)
  unfolding alloc_at
  ExactFit-Allocated bytes pos small (nothing others) = extend-Allocated heap bytes pos small
  ExactFit-Allocated bytes pos small (whole a hdr passed rest ne at free len way later) =
      Fit-Allocated heap bytes pos small (exact a hdr passed rest ne at free len way later)

  -- On a heap, with room in the fuel for every block of its free space list, `Alloc` by the best
  -- fit of an object whose length with one header is below 2^32 ends. The block has the length asked for with the overhead, was free or past the end of the
  -- file, and is in use; the heap is a row of blocks again, its free space list leads
  -- through free blocks to its end, every other block in use is what it was, the file grew by no
  -- more than the block, and the header on the disk is current.
  pub alloc_bestfit-Allocated :
      (fuel object_bytes : ℕ)
      → length list ≤ fuel
      → object_bytes + block_overhead db.rev_letter < 2 ^ 32
      → Allocated db tiles
          (object_bytes + block_overhead db.rev_letter)
          (alloc reclaim_bestfit fuel db object_bytes)
  unfolding alloc alloc_at
  alloc_bestfit-Allocated fuel object_bytes h small =
      let bytes = object_bytes + block_overhead db.rev_letter in
      let pos : 0 < bytes = omega (arith, block_overhead_pos db.rev_letter) in
      elim (Bool-cases (db.file_header.gxd_fs_fptr == 0)) [
        | inl none_free ↦
            simp (heap.is_ok, heap.ready, none_free, ulword_small bytes small)
              (extend-Allocated heap bytes pos small)
        | inr some_free ↦
            simp (heap.is_ok, heap.ready, some_free, ulword_small bytes small)
              (ExactFit-Allocated bytes pos small (reclaim_best_fit-ExactFit fuel bytes h))
      ]

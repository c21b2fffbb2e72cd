-- ===== src/Database/Alloc.antt =====
-- `Alloc` on a heap, by the first fit; what all methods share.
use datareel.Database.Alloc.Parts.{
  linked, Keeps, Keeps-trans, block_overhead_pos, relink-blocks, uncount-blocks, rest_block,
  split_block-blocks, normal_block, finish_alloc-blocks, ulword_small,
}
use datareel.Database.Alloc.Cut.{linked-SameLength, exact-IsTiled, IsBefore-update, split-IsTiled}
use mathlib.Core.Path.{subst}
use datareel.Database.Tiles.{IsTile-append, lt_eof, tiles_apart, IsTile-split_tile, IsTile-last}
use datareel.Prelude.{
  ℕ, zero, suc, ◌+◌, ◌*◌, ◌^◌, ◌-◌, ◌≤◌, ◌<◌, ◌≡◌, ◌≢◌, refl, sym, ap, ◌∙◌, Bool, true, false,
  Option, none, some, List, [], ◌∷◌, ◌++◌, ltb, ◌==◌, if◌then◌else◌, arith, Bool-cases, inl, inr,
  length, ne→==, eq→==, ◌⊎◌, All, has, ==→eq,
}
use datareel.Database.Format.{
  GxBlockHeader, GxDatabase, update, block_header_size, block_overhead, write_block_hdr,
  write_file_hdr, fs_list_corrupt, status_of, check_word, block_removed, block_normal,
}
use datareel.Database.Reclaim.{
  is_free_block, Reclaimed, reclaimed, uncount, relink, split_block, reclaim_first_fit, first_fit,
}
use datareel.Database.Blocks.{alloc, alloc_at, extend, finish_alloc, reclaim, reclaim_firstfit}
use datareel.Database.Tiles.{
  Headers, HasLength, IsTiled, IsTile, SameLength, IsTiled-agree, le_of_tile, split_tile,
  IsTiled-split, IsTiled-extend, SameLength-update, SameLength-rewrite,
}
use datareel.Database.FreeList.{Fit, nothing, exact, split, first_fit-Fit}
use datareel.Database.Chain.{
  IsChain, IsBlock, HasPassed, before, rejoin, before-IsBefore, IsChain-keep, KeepsBlock,
}
use datareel.Database.Alloc.Parts.{
  KeepsFile, KeepsFile-trans, Keeps-file, finish_alloc-fs, relink-fs, split_block-fs, first_after,
}
use datareel.Database.Alloc.Relink.{taken-IsChain, taken-KeepsBlock, in_use_apart, mark}
use datareel.Database.Alloc.Rest.{cut-IsChain, cut-KeepsBlock}
use datareel.Database.Heap.{IsHeap, heap_sound}
use datareel.Database.Alloc.Result.{Allocated, Placed, allocated}
use datareel.Database.Alloc.Place.{extend-Placed, taken-Placed, cut-Placed}
pub mod Parts
pub mod Relink
mod Rest
mod Cut
pub mod Result
mod Place

module _ {db : GxDatabase} {tiles : List (ℕ × ℕ)} {list : List ℕ}
    (heap : IsHeap db tiles list) where
  pub extend-Allocated :
      (bytes : ℕ)
      → 0 < bytes
      → bytes < 2 ^ 32
      → Allocated db tiles bytes
          (some (finish_alloc (extend db bytes) db.file_header.gxd_eof bytes))
  unfolding extend
  extend-Allocated bytes pos small =
      allocated db (extend db bytes) db.file_header.gxd_eof bytes tiles heap.is_ok heap.ready small
        (record { hs = refl; is_ok = refl; ready = refl; reading = refl; rev = refl })
        (extend-Placed heap bytes pos)

  -- What was reclaimed is allocated, once its header and that before it are written.
  reclaimed-Allocated :
      (db' : GxDatabase) (blocks : Headers) (fs a bytes : ℕ)
      → bytes < 2 ^ 32
      → (db'.blocks ≡ blocks) × Keeps db db'
      → db'.file_header.gxd_fs_fptr ≡ fs
      → Placed db tiles blocks fs db.file_header.gxd_eof a bytes
      → Allocated db tiles bytes (some (finish_alloc db' a bytes))
  reclaimed-Allocated db' blocks fs a bytes small (same, keeps) first placed =
      allocated db db' a bytes tiles (keeps.is_ok ∙ heap.is_ok) (keeps.ready ∙ heap.ready) small
        (Keeps-file keeps) (rw (same, keeps.eof, first) placed)

  pub Fit-Allocated :
      (bytes : ℕ) {r : Reclaimed}
      → 0 < bytes
      → bytes < 2 ^ 32
      → Fit db tiles bytes list r
      → Allocated db tiles bytes (alloc_at r bytes)
  unfolding alloc_at
  Fit-Allocated bytes pos small (nothing misfits) = extend-Allocated bytes pos small
  Fit-Allocated bytes pos small (exact zero hdr passed rest ne at free len way later) =
      absurd (ne refl)
  Fit-Allocated bytes pos small (exact (suc a) hdr passed rest ne at free len way later) =
      let next = hdr.block_nd_fptr in
      let counted = uncount db (status_of hdr) in
      let uncounted = uncount-blocks db (status_of hdr) in
      let linked_past = relink-blocks counted (before passed) next in
      reclaimed-Allocated (relink counted (before passed) next)
        (linked db.blocks (before passed) next) (first_after passed db.file_header.gxd_fs_fptr next)
        (suc a) bytes small
        (
          linked_past.0 ∙ ap (λ b. linked b (before passed) next) uncounted.0,
          Keeps-trans uncounted.1 linked_past.1,
        )
        (relink-fs db (status_of hdr) next passed)
        (taken-Placed heap (suc a) bytes hdr passed rest ne at free way later len)
  Fit-Allocated bytes pos small (split zero hdr passed rest ne at free len way later) =
      absurd (ne refl)
  Fit-Allocated bytes pos small (split (suc a) hdr passed rest ne at free len way later) =
      let next = suc a + bytes in
      let n = hdr.block_length - bytes in
      let counted = uncount db (status_of hdr) in
      let uncounted = uncount-blocks db (status_of hdr) in
      let cut = split_block-blocks counted (suc a) bytes n hdr (before passed) in
      reclaimed-Allocated (split_block counted (suc a) bytes n hdr (before passed))
        (linked (update db.blocks next (rest_block n hdr)) (before passed) next)
        (first_after passed db.file_header.gxd_fs_fptr next) (suc a) bytes small
        (
          cut.0
              ∙ ap (λ b. linked (update b next (rest_block n hdr)) (before passed) next)
                  uncounted.0,
          Keeps-trans uncounted.1 cut.1,
        )
        (split_block-fs db (status_of hdr) (suc a) bytes n hdr passed)
        (cut-Placed heap (suc a) bytes hdr passed rest ne at free way later pos (omega arith))

  -- On a heap, with room in the fuel for every block of its free space list, `Alloc` by the first
  -- fit of an object whose length with two headers is below 2^32 ends. The block has the length asked for with the overhead, was free or past the end of the
  -- file, and is in use; the heap is a row of blocks again, its free space list leads
  -- through free blocks to its end, every other block in use is what it was, the file grew by no
  -- more than the block, and the header on the disk is current.
  pub alloc-Allocated :
      (fuel object_bytes : ℕ)
      → length list ≤ fuel
      → object_bytes + 2 * block_overhead db.rev_letter < 2 ^ 32
      → Allocated db tiles
          (object_bytes + block_overhead db.rev_letter)
          (alloc reclaim_firstfit fuel db object_bytes)
  unfolding alloc alloc_at reclaim_first_fit
  alloc-Allocated fuel object_bytes h small =
      let bytes = object_bytes + block_overhead db.rev_letter in
      let fits : bytes < 2 ^ 32 = omega arith in
      let fits_room : bytes + block_overhead db.rev_letter < 2 ^ 32 = omega arith in
      let pos : 0 < bytes = omega (arith, block_overhead_pos db.rev_letter) in
      elim (Bool-cases (db.file_header.gxd_fs_fptr == 0)) [
        | inl none_free ↦
            simp (heap.is_ok, heap.ready, none_free, ulword_small bytes fits)
              (extend-Allocated bytes pos fits)
        | inr some_free ↦
            simp
              (
                heap.is_ok,
                heap.ready,
                some_free,
                ulword_small bytes fits,
                ne→== db.file_header.gxd_fs_fptr fs_list_corrupt (heap_sound heap),
              )
              (Fit-Allocated bytes pos fits (
                first_fit-Fit fuel db tiles bytes db.file_header.gxd_fs_fptr [] list h fits_room
                  heap.chain refl))
      ]

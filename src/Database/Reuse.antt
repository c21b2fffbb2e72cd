-- ===== src/Database/Reuse.antt =====
-- `Remove` or `Delete`, and then `Alloc` of the same number of bytes by the first fit.
use datareel.Prelude.{
  [], arith, ◌<◌, ◌^◌, ℕ, zero, suc, ◌+◌, ◌≡◌, refl, sym, ap, ◌∙◌, Bool, true, none, some, List,
  ◌∷◌, ne→==, eq→==,
}
use mathlib.Core.Option.{some-injective}
use datareel.Database.Format.{
  GxBlockHeader, GxDatabase, block_header_size, block_overhead, status_of, block_normal,
  test_block_header,
}
use datareel.Database.Reclaim.{is_free_block, uncount, relink, reclaim_first_fit, first_fit}
use datareel.Database.Blocks.{alloc, alloc_at, delete, finish_alloc, reclaim_firstfit}
use datareel.Database.Tiles.{IsTile}
use datareel.Database.Heap.{IsHeap, heap_sound}
use datareel.Database.Alloc.Result.{finish_alloc-address}
use datareel.Database.Alloc.Parts.{
  finish_alloc-fs, relink-fs, relink-blocks, uncount-blocks, finish_alloc-blocks, normal_block,
  Keeps-trans, ulword_small,
}
use datareel.Database.Delete.{delete-rev, freed_status, delete-Deleted}
use datareel.Database.Delete.Freed.{freed_block}

-- A block of the length asked for at the front of the list is the one that is used.
alloc-first :
    (db : GxDatabase) (tiles : List (ℕ × ℕ)) (a : ℕ) (list : List ℕ) (hdr : GxBlockHeader)
    (fuel object_bytes : ℕ)
    → IsHeap db tiles (a ∷ list)
    → db.blocks a ≡ some hdr
    → hdr.block_length ≡ object_bytes + block_overhead db.rev_letter
    → object_bytes + block_overhead db.rev_letter < 2 ^ 32
    → alloc reclaim_firstfit (suc fuel) db object_bytes
      ≡ some (
          finish_alloc
            (relink (uncount db (status_of hdr)) none hdr.block_nd_fptr)
            a
            (object_bytes + block_overhead db.rev_letter))
unfolding alloc alloc_at reclaim_first_fit first_fit
alloc-first db tiles (suc p) list hdr fuel object_bytes heap at len small =
    let (e, ne, (found, here, free, later)) = heap.chain in
    let is_hdr : found ≡ hdr = some-injective _ _ (sym here.0 ∙ at) in
    let free' = sym (ap (λ h. is_free_block h (suc p)) is_hdr) ∙ free in
    simp
      (
        heap.is_ok,
        heap.ready,
        e,
        ne→== (suc p) 0 ne,
        at,
        free',
        ulword_small _ small,
        eq→== _ _ len,
        ne→== _ _ (λ h. heap_sound heap (e ∙ h)),
      )
      refl
alloc-first db tiles zero list hdr fuel object_bytes heap at len small = absurd (heap.chain.1 refl)

-- After a block in use, whose length is a 32-bit number, on a readable heap is deleted or removed, `Alloc` by the first fit of as many
-- bytes as it held gives the same address again, with room in the fuel for one block: the block is
-- in use, with the header of a new block, and the free space list starts where it did before.
pub delete-alloc :
    {db : GxDatabase} {tiles : List (ℕ × ℕ)} {list : List ℕ} (a object_bytes fuel : ℕ)
    (old : GxBlockHeader) (remove_object : Bool)
    → IsHeap db tiles list
    → db.ready_for_reading ≡ true
    → db.blocks a ≡ some old
    → IsTile a old.block_length tiles
    → status_of old ≡ block_normal
    → test_block_header old ≡ true
    → old.block_length ≡ object_bytes + block_overhead db.rev_letter
    → old.block_length < 2 ^ 32
    → let object = a + block_header_size db.rev_letter in
      (after : GxDatabase) × (alloc reclaim_firstfit
          (suc fuel)
          (delete db object remove_object).1
          object_bytes
        ≡ some (object, after))
      × (after.blocks a ≡ some (normal_block old.block_length))
      × (after.file_header.gxd_fs_fptr ≡ db.file_header.gxd_fs_fptr)
delete-alloc {db = db} {tiles = tiles} {list = list} a object_bytes fuel old f heap reading at tile
      normal valid len small =
    let object = a + block_header_size db.rev_letter in
    let freed = (delete-Deleted a old f heap reading at tile normal valid).1 in
    let db' = (delete db object f).1 in
    let rev = delete-rev db object f in
    let bytes = object_bytes + block_overhead db'.rev_letter in
    let len' : old.block_length ≡ bytes =
      len ∙ ap (λ r. object_bytes + block_overhead r) (sym rev) in
    let hdr = freed_block old (freed_status f) db.file_header.gxd_fs_fptr in
    let unlinked = relink (uncount db' (status_of hdr)) none hdr.block_nd_fptr in
    let keeps =
      Keeps-trans (uncount-blocks db' (status_of hdr)).1
        (relink-blocks (uncount db' (status_of hdr)) none hdr.block_nd_fptr).1 in
    let (blocks, _, _) =
      finish_alloc-blocks unlinked a bytes (keeps.is_ok ∙ freed.heap.is_ok)
        (keeps.ready ∙ freed.heap.ready) (omega arith) in
    let result = finish_alloc unlinked a bytes in
    let address : result.0 ≡ object =
      finish_alloc-address unlinked a bytes ∙ ap (λ r. a + block_header_size r) (keeps.rev ∙ rev) in
    (
      result.1,
      alloc-first db' tiles a list hdr fuel object_bytes freed.heap freed.freed len' (omega arith)
          ∙ ap (λ x. some (x, result.1)) address,
      rw (blocks, eq→== a a refl, len') refl,
      finish_alloc-fs unlinked a bytes ∙ relink-fs db' (status_of hdr) hdr.block_nd_fptr [],
    )

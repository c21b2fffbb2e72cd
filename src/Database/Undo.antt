-- ===== src/Database/Undo.antt =====
-- `Delete`, and then `UnDelete` of the same object.
use datareel.Prelude.{
  ℕ, suc, ◌+◌, ◌≡◌, refl, sym, ap, ◌∙◌, true, false, none, some, List, ◌∷◌, arith, ne→==, eq→==,
}
use mathlib.Core.Path.{subst}
use mathlib.Core.Option.{some-injective}
use datareel.Database.Format.{
  GxBlockHeader, GxDatabase, block_header_size, status_of, block_normal, test_block_header,
  read_block_hdr, write_block_hdr, write_file_hdr,
}
use datareel.Database.Reclaim.{is_free_block}
use datareel.Database.Format.{block_deleted, no_error}
use datareel.Prelude.{◌-◌, ◌%◌, ◌<◌}
use datareel.Database.Blocks.{undelete, undelete_walk, restore, with_status, delete}
use datareel.Database.Tiles.{IsTile}
use datareel.Database.Heap.{IsHeap}
use datareel.Database.Delete.{delete-Deleted, delete-rev, delete-reading}
use datareel.Database.Delete.Freed.{freed_block}

is_free_block-valid :
    (hdr : GxBlockHeader) (a : ℕ) → is_free_block hdr a ≡ true → test_block_header hdr ≡ true
unfolding is_free_block
is_free_block-valid hdr a h = ground arith

-- The deleted block at the front of the list is restored at once.
undelete-first :
    (db : GxDatabase) (tiles : List (ℕ × ℕ)) (a : ℕ) (list : List ℕ) (hdr : GxBlockHeader)
    (fuel : ℕ)
    → IsHeap db tiles (a ∷ list)
    → db.ready_for_reading ≡ true
    → db.blocks a ≡ some hdr
    → status_of hdr ≡ block_deleted
    → undelete (suc fuel) db (a + block_header_size db.rev_letter)
      ≡ some (true, restore (record db { gxd_error = no_error }) a hdr none)
unfolding undelete undelete_walk read_block_hdr
undelete-first db tiles a list hdr fuel heap reading at deleted =
    let (e, ne, (found, here, free, later)) = heap.chain in
    let is_hdr : found ≡ hdr = some-injective _ _ (sym here.0 ∙ at) in
    let free' = sym (ap (λ h. is_free_block h a) is_hdr) ∙ free in
    let valid = is_free_block-valid hdr a free' in
    let back : (a + block_header_size db.rev_letter) - block_header_size db.rev_letter ≡ a =
      omega arith in
    let self = eq→== a a refl in let away = ne→== a 0 ne in grind arith

restore-state :
    (db : GxDatabase) (a : ℕ) (hdr : GxBlockHeader)
    → ((restore db a hdr none).blocks a
        ≡ some (record hdr {
          block_status = with_status hdr.block_status block_normal;
          block_nd_fptr = 0;
        }))
      × ((restore db a hdr none).file_header.gxd_fs_fptr ≡ hdr.block_nd_fptr)
unfolding restore write_block_hdr write_file_hdr
restore-state db a hdr = let self = eq→== a a refl in (ground arith, ground arith)

with_status-status : (s status : ℕ) → status < 256 → with_status s status % 256 ≡ status
unfolding with_status
with_status-status s status h = omega arith

with_status-back :
    (s status : ℕ)
    → status < 256
    → s % 256 ≡ block_normal
    → with_status (with_status s status) block_normal ≡ s
unfolding with_status
with_status-back s status h e = omega arith

-- After a block in use on a readable heap is deleted, `UnDelete` of the object succeeds with room in
-- the fuel for one block: the header of the block is what it was, its status included, but for its
-- next pointer, which is 0, and the free space list starts where it did before.
pub delete-undelete :
    {db : GxDatabase} {tiles : List (ℕ × ℕ)} {list : List ℕ} (a fuel : ℕ) (old : GxBlockHeader)
    → IsHeap db tiles list
    → db.ready_for_reading ≡ true
    → db.blocks a ≡ some old
    → IsTile a old.block_length tiles
    → status_of old ≡ block_normal
    → test_block_header old ≡ true
    → let object = a + block_header_size db.rev_letter in
      (after : GxDatabase) × (undelete (suc fuel) (delete db object false).1 object
        ≡ some (true, after))
      × (after.blocks a ≡ some (record old { block_nd_fptr = 0 }))
      × (after.file_header.gxd_fs_fptr ≡ db.file_header.gxd_fs_fptr)
delete-undelete {db = db} {tiles = tiles} {list = list} a fuel old heap reading at tile normal
      valid =
    let object = a + block_header_size db.rev_letter in
    let freed = (delete-Deleted a old false heap reading at tile normal valid).1 in
    let db' = (delete db object false).1 in
    let hdr = freed_block old block_deleted db.file_header.gxd_fs_fptr in
    let read = record db' { gxd_error = no_error } in
    let rev = ap (λ r. a + block_header_size r) (delete-rev db object false) in
    let (restored, fs) = restore-state read a hdr in
    (
      restore read a hdr none,
      subst (λ o. undelete (suc fuel) db' o ≡ some (true, restore read a hdr none)) rev
          (undelete-first db' tiles a list hdr fuel freed.heap
            (delete-reading db object false ∙ reading) freed.freed
            (with_status-status old.block_status block_deleted (omega arith))),
      restored
          ∙ ap (λ s. some (record old { block_status = s; block_nd_fptr = 0 }))
              (with_status-back old.block_status block_deleted (omega arith) normal),
      fs,
    )

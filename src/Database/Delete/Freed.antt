-- ===== src/Database/Delete/Freed.antt =====
-- A block in use is put in front of the free space list: the end of `Delete`.
use datareel.Prelude.{
  ◌⊎◌, ℕ, ◌%◌, ◌/◌, ◌^◌, ◌<◌, ◌≡◌, ◌≢◌, refl, sym, ap, ◌∙◌, true, false, some, List, [], ◌∷◌, ◌==◌,
  arith, inl, inr, ne→==, eq→==,
}
use mathlib.Core.Option.{some-injective}
use datareel.Database.Format.{
  GxBlockHeader, GxDatabase, update, fs_list_corrupt, status_of, test_block_header, block_normal,
  block_removed, block_deleted, check_word, control_of,
}
use mathlib.Core.Path.{subst}
use datareel.Database.Format.{GxFileHeader}
use datareel.Database.Reclaim.{is_free_block}
use datareel.Database.Blocks.{complete, put_on_list, with_status}
use datareel.Database.Tiles.{Headers, IsTile, SameLength-rewrite, IsTiled-agree, le_of_tile}
use datareel.Database.Chain.{IsChain, not_free_of_normal}
use datareel.Database.Heap.{IsHeap, heap_sound}

-- The list does not pass a block that is in use.
IsChain-update :
    (blocks : Headers) (tiles : List (ℕ × ℕ)) (a : ℕ) (old hdr : GxBlockHeader) (addr : ℕ)
    (list : List ℕ)
    → blocks a ≡ some old
    → status_of old ≡ block_normal
    → IsChain blocks tiles addr list
    → IsChain (update blocks a hdr) tiles addr list
IsChain-update blocks tiles a old hdr addr [] at normal h = h
IsChain-update blocks tiles a old hdr addr (b ∷ rest) at normal
      (e, ne, (found, here, free, later)) =
    let other : a ≢ b = λ same.
      let is_old : old ≡ found = some-injective _ _ (sym at ∙ ap blocks same ∙ here.0) in
      cc (not_free_of_normal old b normal, ap (λ h. is_free_block h b) is_old, free) in
    (
      e,
      ne,
      (
        found,
        (rw (ne→== a b other) here.0, here.1),
        free,
        IsChain-update blocks tiles a old hdr found.block_nd_fptr rest at normal later,
      ),
    )

-- The header of a block that was put on the list.
abbrev pub freed_block : GxBlockHeader → ℕ → ℕ → GxBlockHeader
freed_block hdr status next = record hdr {
  block_status = with_status hdr.block_status status;
  block_nd_fptr = next;
}

with_status_parts :
    (s status : ℕ)
    → status < 256
    → (with_status s status % 256 ≡ status)
      × (with_status s status / 256 ≡ s / 256)
      × (with_status s status / 2 ^ 24 ≡ s / 2 ^ 24)
      × (with_status s status / 2 ^ 16 ≡ s / 2 ^ 16)
unfolding with_status
with_status_parts s status h = omega arith

-- What `TestBlockHeader` says of a block in use.
record IsValid (hdr : GxBlockHeader) : Type 0 where
  word : hdr.block_check_word ≡ check_word
  fourth : hdr.block_status / 2 ^ 24 % 256 ≡ 0
  third : hdr.block_status / 2 ^ 16 % 256 ≡ 0
  control : control_of hdr ≡ 0

test_block_header-IsValid :
    (hdr : GxBlockHeader)
    → status_of hdr ≡ block_normal
    → test_block_header hdr ≡ true
    → IsValid hdr
unfolding test_block_header
test_block_header-IsValid hdr normal valid = ground arith

IsValid-free :
    (hdr : GxBlockHeader) (a : ℕ)
    → IsValid hdr
    → (status_of hdr ≡ block_removed) ⊎ (status_of hdr ≡ block_deleted)
    → a ≢ hdr.block_nd_fptr
    → is_free_block hdr a ≡ true
unfolding is_free_block test_block_header
IsValid-free hdr a v (inl kind) ne =
    simp (v.word, v.fourth, v.third, v.control, kind, ne→== a hdr.block_nd_fptr ne)
IsValid-free hdr a v (inr kind) ne =
    simp (v.word, v.fourth, v.third, v.control, kind, ne→== a hdr.block_nd_fptr ne)

freed_block-IsValid :
    (hdr : GxBlockHeader) (status next : ℕ)
    → status < 256
    → IsValid hdr
    → IsValid (freed_block hdr status next) × (status_of (freed_block hdr status next) ≡ status)
freed_block-IsValid hdr status next h v =
    let (first, above, fourth, third) = with_status_parts hdr.block_status status h in
    (
      record {
        word = v.word;
        fourth = rw fourth v.fourth;
        third = rw third v.third;
        control = rw above v.control;
      },
      first,
    )

-- What `Delete` does to a block in use on a heap: its header says so, it is in front of the list.
pub record Deleted (next : ℕ) (db' : GxDatabase) (tiles : List (ℕ × ℕ)) (list : List ℕ)
    (a status : ℕ) (old : GxBlockHeader) : Type 0 where
  pub freed : db'.blocks a ≡ some (freed_block old status next)
  pub heap : IsHeap db' tiles (a ∷ list)
  pub synced : db'.disk_header ≡ db'.file_header

put_on_list-state :
    (db : GxDatabase) (old : GxBlockHeader) (a status : ℕ)
    → db.is_ok ≡ true
    → db.ready_for_writing ≡ true
    → (db.file_header.gxd_fs_fptr == fs_list_corrupt) ≡ false
    → let r = put_on_list complete db old a status in
      (r.0 ≡ true)
      × (r.1.blocks ≡ update db.blocks a (freed_block old status db.file_header.gxd_fs_fptr))
      × (r.1.file_header ≡ record (db.file_header) { gxd_fs_fptr = a })
      × (r.1.disk_header ≡ r.1.file_header)
      × (r.1.is_ok ≡ true)
      × (r.1.ready_for_writing ≡ true)
unfolding put_on_list
put_on_list-state db old a status ok ready sound =
    (ground arith, ground arith, ground arith, ground arith, ground arith, ground arith)

module _ {db : GxDatabase} {tiles : List (ℕ × ℕ)} {list : List ℕ} (heap : IsHeap db tiles list)
    (a : ℕ) (old : GxBlockHeader) (at : db.blocks a ≡ some old)
    (tile : IsTile a old.block_length tiles) (normal : status_of old ≡ block_normal)
    (valid : test_block_header old ≡ true) where
  not-mem-head : (addr : ℕ) (list : List ℕ) → IsChain db.blocks tiles addr list → a ≢ addr
  not-mem-head addr [] chain =
      let (le, _, _) = le_of_tile db.blocks _ _ tiles a old.block_length heap.tiled tile in
      omega (arith, heap.start)
  not-mem-head addr (b ∷ rest) (e, ne, (found, here, free, later)) = λ same.
      let is_old : old ≡ found = some-injective _ _ (sym at ∙ ap db.blocks (same ∙ e) ∙ here.0) in
      cc (not_free_of_normal old b normal, ap (λ h. is_free_block h b) is_old, free)

  -- Any database whose header and list are those after `put_on_list` is a heap.
  freed-IsHeap :
      (db' : GxDatabase) (freed : GxBlockHeader)
      → freed.block_length ≡ old.block_length
      → freed.block_nd_fptr ≡ db.file_header.gxd_fs_fptr
      → is_free_block freed a ≡ true
      → db'.blocks ≡ update db.blocks a freed
      → db'.file_header ≡ record (db.file_header) { gxd_fs_fptr = a }
      → db'.is_ok ≡ true
      → db'.ready_for_writing ≡ true
      → IsHeap db' tiles (a ∷ list)
  freed-IsHeap db' freed len next free blocks header ok ready =
      let eof = ap (λ h. GxFileHeader.gxd_eof h) header in
      let hs = ap (λ h. GxFileHeader.gxd_hs_fptr h) header in
      let fs = ap (λ h. GxFileHeader.gxd_fs_fptr h) header in
      let (le, _, _) = le_of_tile db.blocks _ _ tiles a old.block_length heap.tiled tile in
      record {
        is_ok = ok;
        ready = ready;
        below = omega (arith, eof, heap.below);
        start = omega (arith, hs, heap.start);
        tiled =
            rw (blocks, eof, hs)
              (IsTiled-agree db.blocks (update db.blocks a freed) db.file_header.gxd_eof
                db.file_header.gxd_hs_fptr tiles
                (λ q le lt. SameLength-rewrite db.blocks a old freed q at len) heap.tiled);
        chain =
            subst (λ b. IsChain b tiles db'.file_header.gxd_fs_fptr (a ∷ list)) (sym blocks)
              (
                fs,
                omega (arith, heap.start),
                (
                  freed,
                  (rw (eq→== a a refl), subst (λ n. IsTile a n tiles) (sym len) tile),
                  free,
                  subst (λ n. IsChain (update db.blocks a freed) tiles n list) (sym next)
                      (IsChain-update db.blocks tiles a old freed db.file_header.gxd_fs_fptr list at
                        normal heap.chain),
                ),
              );
      }

  pub put_on_list-Deleted :
      (status : ℕ)
      → (status ≡ block_removed) ⊎ (status ≡ block_deleted)
      → ((put_on_list complete db old a status).0 ≡ true)
        × Deleted db.file_header.gxd_fs_fptr
            (put_on_list complete db old a status).1
            tiles
            list
            a
            status
            old
  put_on_list-Deleted status kind =
      let fs = db.file_header.gxd_fs_fptr in
      let freed = freed_block old status fs in
      let sound = ne→== fs fs_list_corrupt (heap_sound heap) in
      let (done, blocks, header, disk, ok, ready) =
        put_on_list-state db old a status heap.is_ok heap.ready sound in
      let small : status < 256 = ground (arith, kind) in
      let is_valid = test_block_header-IsValid old normal valid in
      let (freed_valid, freed_status) = freed_block-IsValid old status fs small is_valid in
      (
        done,
        record {
          freed = rw (blocks, eq→== a a refl);
          heap =
              freed-IsHeap (put_on_list complete db old a status).1 freed refl refl
                (IsValid-free freed a freed_valid
                  (subst (λ s. (s ≡ block_removed) ⊎ (s ≡ block_deleted)) (sym freed_status) kind)
                  (not-mem-head fs list heap.chain))
                blocks header ok ready;
          synced = disk;
        },
      )

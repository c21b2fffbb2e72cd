-- ===== src/Database/FreeList.antt =====
-- What a search of the free space list by `ReclaimFirstFit` finds.
use mathlib.Core.Path.{subst}
use datareel.Prelude.{
  All, ℕ, ◌^◌, zero, suc, ◌+◌, ◌-◌, ◌≤◌, ◌<◌, ◌≡◌, ◌≢◌, sym, true, false, some, List, [], ◌∷◌, ltb,
  ◌==◌, arith, Bool-cases, inl, inr, length, ne→==, eq→==, ==→eq, ltb→le,
}
use datareel.Database.Format.{GxBlockHeader, GxDatabase, status_of, block_overhead, ulword}
use datareel.Database.Reclaim.{
  Reclaimed, reclaimed, is_free_block, uncount, unused_length, relink, split_block, first_fit,
}
use datareel.Database.Chain.{IsBlock, IsChain, HasPassed, before}
use datareel.Prelude.{refl}

-- A block of the list that cannot hold the bytes: not of their length, and too short to be cut.
abbrev pub IsMisfit : GxDatabase → ℕ → ℕ → Type 0
IsMisfit db bytes a =
    (hdr : GxBlockHeader) × (db.blocks a ≡ some hdr)
    × (hdr.block_length ≢ bytes)
    × (hdr.block_length ≤ bytes + block_overhead db.rev_letter)

-- What the search may end in: nothing where no block fits, a block of the length asked for, or the
-- front of a block that leaves room for another.
pub data Fit (db : GxDatabase) (tiles : List (ℕ × ℕ)) (bytes : ℕ) (list : List ℕ)
    : Reclaimed → Type 0 where
  nothing : All (IsMisfit db bytes) list → Fit db tiles bytes list (reclaimed 0 db)
  exact :
      (a : ℕ) (hdr : GxBlockHeader) (passed : List (ℕ × GxBlockHeader)) (rest : List ℕ)
      → a ≢ 0
      → IsBlock db.blocks tiles a hdr
      → is_free_block hdr a ≡ true
      → hdr.block_length ≡ bytes
      → HasPassed db.blocks tiles db.file_header.gxd_fs_fptr passed a
      → IsChain db.blocks tiles hdr.block_nd_fptr rest
      → Fit db tiles bytes list
          (reclaimed a (relink (uncount db (status_of hdr)) (before passed) hdr.block_nd_fptr))
  split :
      (a : ℕ) (hdr : GxBlockHeader) (passed : List (ℕ × GxBlockHeader)) (rest : List ℕ)
      → a ≢ 0
      → IsBlock db.blocks tiles a hdr
      → is_free_block hdr a ≡ true
      → bytes + block_overhead db.rev_letter < hdr.block_length
      → HasPassed db.blocks tiles db.file_header.gxd_fs_fptr passed a
      → IsChain db.blocks tiles hdr.block_nd_fptr rest
      → Fit db tiles bytes list (
          reclaimed a (
            split_block
              (uncount db (status_of hdr))
              a
              bytes
              (hdr.block_length - bytes)
              hdr
              (before passed)))

pub unused_length_zero :
    (db : GxDatabase) (n bytes : ℕ)
    → bytes + block_overhead db.rev_letter < 2 ^ 32
    → ltb 0 (unused_length db n bytes) ≡ false
    → ltb (bytes + block_overhead db.rev_letter) n ≡ false
unfolding unused_length ulword
unused_length_zero db n bytes small h = ground arith

pub unused_length_pos :
    (db : GxDatabase) (n bytes : ℕ)
    → bytes + block_overhead db.rev_letter < 2 ^ 32
    → ltb 0 (unused_length db n bytes) ≡ true
    → (unused_length db n bytes ≡ n - bytes) × (bytes + block_overhead db.rev_letter < n)
unfolding unused_length ulword
unused_length_pos db n bytes small h = (ground arith, ground arith)

Fit-later :
    (db : GxDatabase) (tiles : List (ℕ × ℕ)) (bytes a : ℕ) (list : List ℕ) {r : Reclaimed}
    → IsMisfit db bytes a
    → Fit db tiles bytes list r
    → Fit db tiles bytes (a ∷ list) r
Fit-later db tiles bytes a list bad (nothing rest) = nothing (bad, rest)
Fit-later db tiles bytes a list bad (exact b hdr passed rest' ne at free len way later) =
    exact b hdr passed rest' ne at free len way later
Fit-later db tiles bytes a list bad (split b hdr passed rest' ne at free len way later) =
    split b hdr passed rest' ne at free len way later

-- The search of a list without cycles ends, with as many rounds as the list has blocks.
pub first_fit-Fit :
    (fuel : ℕ) (db : GxDatabase) (tiles : List (ℕ × ℕ)) (bytes addr : ℕ)
    (passed : List (ℕ × GxBlockHeader)) (list : List ℕ)
    → length list ≤ fuel
    → bytes + block_overhead db.rev_letter < 2 ^ 32
    → IsChain db.blocks tiles addr list
    → HasPassed db.blocks tiles db.file_header.gxd_fs_fptr passed addr
    → Fit db tiles bytes list (first_fit fuel db bytes addr (before passed))
unfolding first_fit
first_fit-Fit zero db tiles bytes addr passed [] h small chain way =
    rw (eq→== addr 0 chain) (nothing tt)
first_fit-Fit (suc fuel) db tiles bytes addr passed [] h small chain way =
    rw (eq→== addr 0 chain) (nothing tt)
first_fit-Fit zero db tiles bytes addr passed (a ∷ rest) h small chain way = absurd (omega arith)
first_fit-Fit (suc fuel) db tiles bytes addr passed (a ∷ rest) h small chain way =
    let (e, pos, (hdr, at, free, later)) = chain in
    let way_here =
      subst (λ z. HasPassed db.blocks tiles db.file_header.gxd_fs_fptr passed z) e way in
    subst (λ z. Fit db tiles bytes (a ∷ rest) (first_fit (suc fuel) db bytes z (before passed)))
      (sym e)
      (rw (ne→== a 0 pos, at.0, free)
        (elim (Bool-cases (hdr.block_length == bytes)) [
          | inl same ↦ rw same (
              exact a hdr passed rest pos at free (==→eq hdr.block_length bytes same) way_here
                later)
          | inr differs ↦ elim (Bool-cases (ltb 0 (unused_length db hdr.block_length bytes))) [
            | inl room ↦
                let (len, fits) = unused_length_pos db hdr.block_length bytes small room in
                rw (differs, room, len) (split a hdr passed rest pos at free fits way_here later)
            | inr no_room ↦
                rw (differs, no_room)
                  (Fit-later db tiles bytes a rest
                    (
                      hdr,
                      at.0,
                      ground arith,
                      ltb→le _ _ (unused_length_zero db hdr.block_length bytes small no_room),
                    )
                    (first_fit-Fit fuel db tiles bytes hdr.block_nd_fptr ((a, hdr) ∷ passed) rest
                      (omega arith) small later (pos, at, free, refl, way_here)))
          ]
        ]))

-- ===== src/Database/Session/More.antt =====
-- The searches of the free space list with different numbers of rounds.
use datareel.Prelude.{
  ℕ, zero, suc, ◌+◌, ◌≡◌, ◌≤◌, ◌⊎◌, refl, Option, none, some, ◌==◌, arith, Bool-cases, Option-cases,
  inl, inr, ltb,
}
use datareel.Database.Format.{
  GxBlockHeader, GxDatabase, status_of, fs_list_corrupt, block_overhead, ulword,
}
use datareel.Database.Reclaim.{
  endless, is_free_block, unused_length, first_fit, best_fit, BestFit, reclaim_first_fit,
  reclaim_best_fit,
}
use datareel.Database.Blocks.{
  alloc, alloc_at, reclaim, GxDatabaseReclaimMethod, reclaim_none, reclaim_firstfit,
  reclaim_bestfit,
}

first_fit-suc :
    (fuel : ℕ) (db : GxDatabase) (bytes addr : ℕ) (prev : Option (ℕ × GxBlockHeader))
    → (first_fit fuel db bytes addr prev ≡ endless)
      ⊎ (first_fit (suc fuel) db bytes addr prev ≡ first_fit fuel db bytes addr prev)
unfolding first_fit
first_fit-suc zero db bytes addr prev = elim (Bool-cases (addr == 0)) [
  | inl last ↦ rw last (inr refl)
  | inr more ↦ rw more (inl refl)
]
first_fit-suc (suc fuel) db bytes addr prev = elim (Bool-cases (addr == 0)) [
  | inl last ↦ rw last (inr refl)
  | inr more ↦ elim (Option-cases (db.blocks addr)) [
    | inl unread ↦ rw (more, unread) (inr refl)
    | inr (hdr, at) ↦ elim (Bool-cases (is_free_block hdr addr)) [
      | inr corrupt ↦ rw (more, at, corrupt) (inr refl)
      | inl free ↦ elim (Bool-cases (hdr.block_length == bytes)) [
        | inl same ↦ rw (more, at, free, same) (inr refl)
        | inr differs ↦ elim (Bool-cases (ltb 0 (unused_length db hdr.block_length bytes))) [
          | inl room ↦ rw (more, at, free, differs, room) (inr refl)
          | inr no_room ↦
              rw (more, at, free, differs, no_room)
                (first_fit-suc fuel db bytes hdr.block_nd_fptr (some (addr, hdr)))
        ]
      ]
    ]
  ]
]

best_fit-suc :
    (fuel : ℕ) (db : GxDatabase) (bytes status addr : ℕ) (prev : Option (ℕ × GxBlockHeader))
    (best : Option BestFit)
    → (best_fit fuel db bytes status addr prev best ≡ endless)
      ⊎ (best_fit (suc fuel) db bytes status addr prev best
          ≡ best_fit fuel db bytes status addr prev best)
unfolding best_fit
best_fit-suc zero db bytes status addr prev best = elim (Bool-cases (addr == 0)) [
  | inl last ↦ rw last (inr refl)
  | inr more ↦ rw more (inl refl)
]
best_fit-suc (suc fuel) db bytes status addr prev best = elim (Bool-cases (addr == 0)) [
  | inl last ↦ rw last (inr refl)
  | inr more ↦ elim (Option-cases (db.blocks addr)) [
    | inl unread ↦ rw (more, unread) (inr refl)
    | inr (hdr, at) ↦ elim (Bool-cases (is_free_block hdr addr)) [
      | inr corrupt ↦ rw (more, at, corrupt) (inr refl)
      | inl free ↦ elim (Bool-cases (hdr.block_length == bytes)) [
        | inl same ↦ rw (more, at, free, same) (inr refl)
        | inr differs ↦
            rw (more, at, free, differs)
              (best_fit-suc fuel db bytes (status_of hdr) hdr.block_nd_fptr (some (addr, hdr)) _)
      ]
    ]
  ]
]

reclaim-suc :
    (method : GxDatabaseReclaimMethod) (fuel : ℕ) (db : GxDatabase) (bytes : ℕ)
    → (reclaim method fuel db bytes ≡ endless)
      ⊎ (reclaim method (suc fuel) db bytes ≡ reclaim method fuel db bytes)
unfolding reclaim reclaim_first_fit reclaim_best_fit
reclaim-suc reclaim_none fuel db bytes = inr refl
reclaim-suc reclaim_firstfit fuel db bytes =
    elim (Bool-cases (db.file_header.gxd_fs_fptr == fs_list_corrupt)) [
      | inl corrupt ↦ rw corrupt (inr refl)
      | inr sound ↦ rw sound (first_fit-suc fuel db bytes db.file_header.gxd_fs_fptr none)
    ]
reclaim-suc reclaim_bestfit fuel db bytes =
    elim (Bool-cases (db.file_header.gxd_fs_fptr == fs_list_corrupt)) [
      | inl corrupt ↦ rw corrupt (inr refl)
      | inr sound ↦ rw sound (best_fit-suc fuel db bytes 0 db.file_header.gxd_fs_fptr none none)
    ]

alloc-suc :
    (method : GxDatabaseReclaimMethod) (fuel : ℕ) (db : GxDatabase) (n : ℕ) (r : ℕ × GxDatabase)
    → alloc method fuel db n ≡ some r
    → alloc method (suc fuel) db n ≡ some r
unfolding alloc alloc_at
alloc-suc method fuel db n r h =
    elim (reclaim-suc method fuel db (ulword (n + block_overhead db.rev_letter))) [
      | inl ends ↦ ground arith
      | inr same ↦ rw same h
    ]

abbrev pub more : ℕ → ℕ → ℕ
more zero fuel = fuel
more (suc k) fuel = suc (more k fuel)

pub le_more : (k fuel : ℕ) → k ≤ more k fuel
le_more zero fuel = omega arith
le_more (suc k) fuel = omega (arith, le_more k fuel)

-- An allocation that has ended has the same end with more rounds.
pub alloc-more :
    (method : GxDatabaseReclaimMethod) (k fuel : ℕ) (db : GxDatabase) (n : ℕ) (r : ℕ × GxDatabase)
    → alloc method fuel db n ≡ some r
    → alloc method (more k fuel) db n ≡ some r
alloc-more method zero fuel db n r h = h
alloc-more method (suc k) fuel db n r h =
    alloc-suc method (more k fuel) db n r (alloc-more method k fuel db n r h)

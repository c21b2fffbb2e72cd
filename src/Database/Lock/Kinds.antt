-- ===== src/Database/Lock/Kinds.antt =====
-- The lock of the file and the lock of a block are locks of the kind that Holders counts.
use datareel.Prelude.{
  ap, ℕ, ◌≡◌, ◌≢◌, ◌⊎◌, inl, inr, refl, true, ◌&&◌, none, length, arith, Bool-cases, Option-cases,
  ◌==◌, eq→==,
}
use datareel.Database.Format.{GxDatabase, LockHeader, no_error, has_record_lock, read_block_hdr}
use datareel.Database.Lock.{
  given, GxDatabaseLockType, acquire, release, write_members, has_file_lock, lock_file, unlock_file,
  lock_record, unlock_record, store_file_lock, store_record_lock,
}
use datareel.Database.Lock.Holders.{World, Locks, Unlocks, Lockable, Reach, Reach-IsCounted}

abbrev pub file_header_lock : GxDatabase → LockHeader
file_header_lock db = db.file_lock

abbrev pub HasFileLock : GxDatabase → Type 0
HasFileLock db = has_file_lock db.rev_letter ≡ true

stored_file :
    (l_type : GxDatabaseLockType) (h : LockHeader) (db : GxDatabase)
    → (((store_file_lock l_type h db).0 ≡ no_error)
        × ((store_file_lock l_type h db).1.file_lock ≡ write_members l_type h db.file_lock))
      ⊎ (((store_file_lock l_type h db).0 ≢ no_error)
          × ((store_file_lock l_type h db).1.file_lock ≡ db.file_lock))
unfolding store_file_lock
stored_file l_type h db = elim (Bool-cases db.ready_for_writing) [
  | inl able ↦ rw able (inl (refl, refl))
  | inr unable ↦ rw unable (inr (λ e. cc, refl))
]

lock_file-Locks :
    (l_type : GxDatabaseLockType) (db : GxDatabase)
    → HasFileLock db
    → Locks file_header_lock l_type (lock_file l_type) db
unfolding lock_file
lock_file-Locks l_type db has = elim (Bool-cases (db.is_ok && db.ready_for_reading)) [
  | inr unable ↦ rw (has, unable) (inr (λ e. cc, refl))
  | inl able ↦ elim (Bool-cases (db.file_lock.lock_protect == 0)) [
    | inr protected ↦ rw (has, able, protected) (inr (λ e. cc, refl))
    | inl unprotected ↦ elim (Option-cases (acquire l_type db.file_lock)) [
      | inl taken ↦ rw (has, able, unprotected, taken) (inr (λ e. cc, refl))
      | inr (h, free) ↦ elim (stored_file l_type h db) [
        | inl (ok, written) ↦ rw (has, able, unprotected, free) (inl (h, ok, refl, written))
        | inr (failed, same) ↦ rw (has, able, unprotected, free) (inr (failed, same))
      ]
    ]
  ]
]

unlock_file-Unlocks :
    (l_type : GxDatabaseLockType) (db : GxDatabase)
    → HasFileLock db
    → Unlocks file_header_lock l_type (unlock_file l_type) db
unfolding unlock_file
unlock_file-Unlocks l_type db has = elim (Bool-cases (db.is_ok && db.ready_for_reading)) [
  | inr unable ↦ rw (has, unable) (inr (inr (λ e. cc), refl))
  | inl able ↦ elim (Bool-cases (db.file_lock.lock_protect == 0)) [
    | inr protected ↦ rw (has, able, protected) (inr (inr (λ e. cc), refl))
    | inl unprotected ↦ elim (Option-cases (release l_type db.file_lock)) [
      | inl nothing ↦ rw (has, able, unprotected, nothing) (inr (inl refl, refl))
      | inr (h, held) ↦ elim (stored_file l_type h db) [
        | inl (ok, written) ↦ rw (has, able, unprotected, held) (inl (h, ok, refl, written))
        | inr (failed, same) ↦ rw (has, able, unprotected, held) (inr (inr failed, same))
      ]
    ]
  ]
]

lock_file-rev :
    (l_type : GxDatabaseLockType) (db : GxDatabase)
    → ((lock_file l_type db).1.rev_letter ≡ db.rev_letter)
      × ((unlock_file l_type db).1.rev_letter ≡ db.rev_letter)
unfolding lock_file unlock_file
lock_file-rev l_type db = (ground arith, ground arith)

pub file_Lockable : Lockable file_header_lock HasFileLock lock_file unlock_file
file_Lockable = record {
  locks = lock_file-Locks;
  unlocks = unlock_file-Unlocks;
  lock_has = λ l_type db has. rw (lock_file-rev l_type db).0 has;
  unlock_has = λ l_type db has. rw (lock_file-rev l_type db).1 has;
}

module _ (a : ℕ) where
  abbrev pub record_header_lock : GxDatabase → LockHeader
  record_header_lock db = db.record_locks a

  abbrev pub HasRecordLock : GxDatabase → Type 0
  HasRecordLock db = has_record_lock db.rev_letter ≡ true

  stored_record :
      (l_type : GxDatabaseLockType) (h : LockHeader) (db : GxDatabase)
      → (((store_record_lock l_type h db a).0 ≡ no_error)
          × ((store_record_lock l_type h db a).1.record_locks a
              ≡ write_members l_type h (db.record_locks a)))
        ⊎ (((store_record_lock l_type h db a).0 ≢ no_error)
            × ((store_record_lock l_type h db a).1.record_locks a ≡ db.record_locks a))
  unfolding store_record_lock
  stored_record l_type h db = elim (Bool-cases db.ready_for_writing) [
    | inl able ↦ rw able (inl (refl, rw (eq→== a a refl) refl))
    | inr unable ↦ rw unable (inr (λ e. cc, refl))
  ]

  -- A block that cannot be read leaves an error and the record locks as they were.
  unread :
      (db : GxDatabase)
      → (read_block_hdr db a).0 ≡ none
      → ((read_block_hdr db a).1.gxd_error ≢ no_error)
        × ((read_block_hdr db a).1.record_locks ≡ db.record_locks)
  unfolding read_block_hdr
  unread db e = (ground arith, ground arith)

  lock_record-Locks :
      (l_type : GxDatabaseLockType) (db : GxDatabase)
      → HasRecordLock db
      → Locks record_header_lock l_type (lock_record l_type (given a)) db
  unfolding lock_record
  lock_record-Locks l_type db has = elim (Option-cases (read_block_hdr db a).0) [
    | inl unable ↦
        rw (has, unable)
          (inr ((unread db unable).0, ap (λ (l : ℕ → LockHeader). l a) (unread db unable).1))
    | inr (hdr, able) ↦ elim (Bool-cases ((db.record_locks a).lock_protect == 0)) [
      | inr protected ↦ rw (has, able, protected) (inr (λ e. cc, refl))
      | inl unprotected ↦ elim (Option-cases (acquire l_type (db.record_locks a))) [
        | inl taken ↦ rw (has, able, unprotected, taken) (inr (λ e. cc, refl))
        | inr (h, free) ↦ elim (stored_record l_type h db) [
          | inl (ok, written) ↦ rw (has, able, unprotected, free) (inl (h, ok, refl, written))
          | inr (failed, same) ↦ rw (has, able, unprotected, free) (inr (failed, same))
        ]
      ]
    ]
  ]

  unlock_record-Unlocks :
      (l_type : GxDatabaseLockType) (db : GxDatabase)
      → HasRecordLock db
      → Unlocks record_header_lock l_type (unlock_record l_type (given a)) db
  unfolding unlock_record
  unlock_record-Unlocks l_type db has = elim (Option-cases (read_block_hdr db a).0) [
    | inl unable ↦
        rw (has, unable)
          (inr (inr (unread db unable).0, ap (λ (l : ℕ → LockHeader). l a) (unread db unable).1))
    | inr (hdr, able) ↦ elim (Bool-cases ((db.record_locks a).lock_protect == 0)) [
      | inr protected ↦ rw (has, able, protected) (inr (inr (λ e. cc), refl))
      | inl unprotected ↦ elim (Option-cases (release l_type (db.record_locks a))) [
        | inl nothing ↦ rw (has, able, unprotected, nothing) (inr (inl refl, refl))
        | inr (h, held) ↦ elim (stored_record l_type h db) [
          | inl (ok, written) ↦ rw (has, able, unprotected, held) (inl (h, ok, refl, written))
          | inr (failed, same) ↦ rw (has, able, unprotected, held) (inr (inr failed, same))
        ]
      ]
    ]
  ]

  lock_record-rev :
      (l_type : GxDatabaseLockType) (db : GxDatabase)
      → ((lock_record l_type (given a) db).1.rev_letter ≡ db.rev_letter)
        × ((unlock_record l_type (given a) db).1.rev_letter ≡ db.rev_letter)
  unfolding lock_record unlock_record read_block_hdr
  lock_record-rev l_type db = (ground arith, ground arith)

  pub record_Lockable :
      Lockable record_header_lock HasRecordLock
        (λ l_type. lock_record l_type (given a))
        (λ l_type. unlock_record l_type (given a))
  record_Lockable = record {
    locks = lock_record-Locks;
    unlocks = unlock_record-Unlocks;
    lock_has = λ l_type db has. rw (lock_record-rev l_type db).0 has;
    unlock_has = λ l_type db has. rw (lock_record-rev l_type db).1 has;
  }

-- Processes that call `LockFile` and `UnlockFile` one after the other, on a file of a revision with
-- a lock header that was just made, and release only what they hold: in every state that they can
-- reach, either nobody holds the lock of the file exclusively, or one process does and nobody
-- shares it, and the header counts those who share it and those who hold it exclusively.
pub lock_file-exclusion :
    (w : World)
    → Reach file_header_lock HasFileLock lock_file unlock_file w
    → (w.db.file_lock.read_lock ≡ length w.readers)
      × (w.db.file_lock.write_lock ≡ length w.writers)
      × ((length w.writers ≡ 0) ⊎ ((length w.writers ≡ 1) × (length w.readers ≡ 0)))
lock_file-exclusion w reach =
    let count = Reach-IsCounted file_Lockable reach in
    (count.read_count, count.write_count, count.exclusion)

-- Processes that call `LockRecord` and `UnlockRecord` one after the other, each with the address of
-- the block, on a block of a file of a revision with record locks whose lock header was just made,
-- and release only what they hold: in every state that they can reach, either nobody holds the lock
-- of the block exclusively, or one process does and nobody shares it, and the lock header counts
-- those who share it and those who hold it exclusively.
pub lock_record-exclusion :
    (a : ℕ) (w : World)
    → Reach
        (record_header_lock a)
        (HasRecordLock a)
        (λ l_type. lock_record l_type (given a))
        (λ l_type. unlock_record l_type (given a))
        w
    → ((w.db.record_locks a).read_lock ≡ length w.readers)
      × ((w.db.record_locks a).write_lock ≡ length w.writers)
      × ((length w.writers ≡ 0) ⊎ ((length w.writers ≡ 1) × (length w.readers ≡ 0)))
lock_record-exclusion a w reach =
    let count = Reach-IsCounted (record_Lockable a) reach in
    (count.read_count, count.write_count, count.exclusion)

-- ===== src/Database/Lock/Current.antt =====
-- Record locks at `gxCurrAddress`, the default of `LockRecord`.
use datareel.Prelude.{ℕ, ◌≡◌, true, arith}
use datareel.Database.Format.{GxDatabase, has_record_lock}
use datareel.Database.Lock.{GxDatabaseLockType, curr_address, lock_record}

module _ (l_type : GxDatabaseLockType) (a : ℕ) (db : GxDatabase)
    (has : has_record_lock db.rev_letter ≡ true) where
  -- What a call at the position reads: whether the block can be read, and its lock header.
  lock_elsewhere :
      let r = lock_record l_type (curr_address a) db in r.1.record_locks a ≡ db.record_locks a
  unfolding lock_record
  lock_elsewhere = ground arith

  lock_keeps :
      let r = lock_record l_type (curr_address a) db in
      (r.1.rev_letter ≡ db.rev_letter)
      × (r.1.is_ok ≡ db.is_ok)
      × (r.1.ready_for_reading ≡ db.ready_for_reading)
      × (r.1.ready_for_writing ≡ db.ready_for_writing)
      × (r.1.blocks ≡ db.blocks)
  unfolding lock_record
  lock_keeps = (ground arith, ground arith, ground arith, ground arith, ground arith)

-- The error code of a call is made of what the file says at the position.
lock_code :
    (l_type : GxDatabaseLockType) (a : ℕ) (db db' : GxDatabase)
    → db'.rev_letter ≡ db.rev_letter
    → db'.is_ok ≡ db.is_ok
    → db'.ready_for_reading ≡ db.ready_for_reading
    → db'.ready_for_writing ≡ db.ready_for_writing
    → db'.blocks ≡ db.blocks
    → db'.record_locks a ≡ db.record_locks a
    → (lock_record l_type (curr_address a) db').0 ≡ (lock_record l_type (curr_address a) db).0
unfolding lock_record
lock_code l_type a db db' rev ok reading writing blocks locks = ground arith

-- `LockRecord` at the current position, in a file of a revision with record locks, leaves the lock
-- header of the block at that position as it was, and a second call at the same position returns
-- the same error code: where the first one gets the exclusive lock, so does the second.
pub lock_record-current :
    (l_type : GxDatabaseLockType) (a : ℕ) (db : GxDatabase)
    → has_record_lock db.rev_letter ≡ true
    → let r = lock_record l_type (curr_address a) db in
      (r.1.record_locks a ≡ db.record_locks a) × ((lock_record l_type (curr_address a) r.1).0 ≡ r.0)
lock_record-current l_type a db has =
    let (rev, ok, reading, writing, blocks) = lock_keeps l_type a db has in
    let locks = lock_elsewhere l_type a db has in
    (locks, lock_code l_type a db _ rev ok reading writing blocks locks)

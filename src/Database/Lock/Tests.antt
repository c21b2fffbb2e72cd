-- ===== src/Database/Lock/Tests.antt =====
-- Runs of the lock functions on a file of revision D, with the block of the address 86.
use datareel.Prelude.{◌≡◌, ◌⊎◌, refl, true, none, some, [], ◌∷◌, ◌==◌, if◌then◌else◌, length}
use datareel.Database.Format.{
  init_lock, GxDatabase, LockHeader, no_error, filelock_error, check_word, block_normal,
  test_block_header, read_block_hdr,
}
use datareel.Database.Lock.{
  given, curr_address, readlock, writelock, acquire, write_members, lock_file, unlock_file,
  lock_record, unlock_record, store_file_lock, store_record_lock,
}
use datareel.Database.Lock.Holders.{World, Reach, start, later, shared, exclusive}
use datareel.Database.Lock.Kinds.{
  file_header_lock, HasFileLock, record_header_lock, HasRecordLock, lock_file-exclusion,
  lock_record-exclusion,
}
use datareel.Database.Lock.Current.{lock_record-current}
use datareel.Database.Lock.Race.{Pair, Accesses, ended, reading, lock-race}

abbrev file : GxDatabase
file = record {
  file_header = record { gxd_fs_fptr = 0; gxd_eof = 236; gxd_hs_fptr = 86; gxd_hb_fptr = 86 };
  file_stats_header = record { num_blocks = 1; deleted_blocks = 0; removed_blocks = 0 };
  rev_letter = b'D';
  is_ok = true;
  ready_for_reading = true;
  ready_for_writing = true;
  gxd_error = no_error;
  blocks = λ a.
      if a == 86
      then some (record {
        block_check_word = check_word;
        block_length = 150;
        block_status = block_normal;
        block_nd_fptr = 0;
      })
      else none;
  disk_header = record { gxd_fs_fptr = 0; gxd_eof = 236; gxd_hs_fptr = 86; gxd_hb_fptr = 86 };
  disk_stats = record { num_blocks = 1; deleted_blocks = 0; removed_blocks = 0 };
  file_lock = init_lock;
  record_locks = λ _. init_lock;
}

abbrev twice_shared : World
twice_shared = record {
  db = (lock_file readlock (lock_file readlock file).1).1;
  readers = 2 ∷ 1 ∷ [];
  writers = [];
}

twice_shared-Reach : Reach file_header_lock HasFileLock lock_file unlock_file twice_shared
unfolding lock_file acquire store_file_lock write_members
twice_shared-Reach =
    later
      (later (start file refl refl)
        (shared (record { db = file; readers = []; writers = [] }) 1 refl))
      (shared (record { db = (lock_file readlock file).1; readers = 1 ∷ []; writers = [] }) 2 refl)

lock_file-exclusion_example :
    (twice_shared.db.file_lock.read_lock ≡ length twice_shared.readers)
    × (twice_shared.db.file_lock.write_lock ≡ length twice_shared.writers)
    × ((length twice_shared.writers ≡ 0)
        ⊎ ((length twice_shared.writers ≡ 1) × (length twice_shared.readers ≡ 0)))
lock_file-exclusion_example = lock_file-exclusion twice_shared twice_shared-Reach

-- A shared lock keeps the exclusive lock away.
shared_file : (lock_file writelock twice_shared.db).0 ≡ filelock_error
unfolding lock_file acquire store_file_lock write_members
shared_file = refl

abbrev owned : World
owned = record { db = (lock_record writelock (given 86) file).1; readers = []; writers = 1 ∷ [] }

owned-Reach :
    Reach
      (record_header_lock 86)
      (HasRecordLock 86)
      (λ l_type. lock_record l_type (given 86))
      (λ l_type. unlock_record l_type (given 86))
      owned
unfolding lock_record acquire store_record_lock write_members read_block_hdr test_block_header
owned-Reach =
    later (start file refl refl)
      (exclusive (record { db = file; readers = []; writers = [] }) 1 refl)

lock_record-exclusion_example :
    ((owned.db.record_locks 86).read_lock ≡ length owned.readers)
    × ((owned.db.record_locks 86).write_lock ≡ length owned.writers)
    × ((length owned.writers ≡ 0) ⊎ ((length owned.writers ≡ 1) × (length owned.readers ≡ 0)))
lock_record-exclusion_example = lock_record-exclusion 86 owned owned-Reach

abbrev exclusive_lock : LockHeader
exclusive_lock = record init_lock { write_lock = 1 }

new_lock : acquire writelock init_lock ≡ some exclusive_lock
unfolding acquire
new_lock = refl

lock-race_example :
    (p : Pair) × Accesses writelock
      (record { first = reading; second = reading; shared = init_lock })
      p
    × (p.first ≡ ended no_error)
    × (p.second ≡ ended no_error)
    × (p.shared ≡ write_members writelock exclusive_lock init_lock)
lock-race_example = lock-race writelock init_lock exclusive_lock new_lock refl

lock_record-current_example :
    let r = lock_record writelock (curr_address 86) file in
    (r.1.record_locks 86 ≡ init_lock) × ((lock_record writelock (curr_address 86) r.1).0 ≡ r.0)
lock_record-current_example = lock_record-current writelock 86 file refl

-- Both calls get the exclusive lock.
both_exclusive : (lock_record writelock (curr_address 86) file).0 ≡ no_error
unfolding lock_record acquire store_record_lock write_members read_block_hdr test_block_header
both_exclusive = refl

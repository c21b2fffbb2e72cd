-- ===== src/Database/Lock.antt =====
-- The file locks and record locks of src/gxdbase.cpp. The two kinds of header have the same members
-- and the same rules; what differs is which revisions have them, the errors, and that a record lock
-- wants a valid block. A lock type that the enumeration does not have is not modelled.

pub mod Holders
pub mod Kinds
pub mod Race
pub mod Current
mod Tests
use datareel.Prelude.{
  ℕ, ◌+◌, ◌-◌, Bool, not, ◌&&◌, ◌||◌, Option, none, some, ltb, ◌==◌, if◌then◌else◌,
}
use datareel.Database.Format.{
  GxDatabase, GxDatabaseError, LockHeader, init_lock, no_error, file_not_ready, file_not_writeable,
  filelock_access_error, filelock_error, recordlock_access_error, recordlock_error, has_record_lock,
  keeps_stats, read_block_hdr, block_header_size,
}

-- `gxDatabaseLockType`
pub data GxDatabaseLockType : Type 0 where
  readlock writelock : GxDatabaseLockType

-- The first switch of the file lock functions: revisions B to E.
abbrev pub has_file_lock : ℕ → Bool
has_file_lock rev =
    (rev == b'b') || (rev == b'B') || (rev == b'c') || (rev == b'C') || keeps_stats rev

-- The header that a request for a lock writes, if the lock can be had.
unfoldable pub acquire : GxDatabaseLockType → LockHeader → Option LockHeader
acquire writelock h =
    if not (h.read_lock == 0) || not (h.write_lock == 0)
    then none
    else some (record h { write_lock = 1 })
acquire readlock h =
    if h.write_lock == 1
    then none
    else if ltb h.read_lock 0xffffffff
    then some (record h { read_lock = h.read_lock + 1 })
    else none

-- The header that a release writes, if there is anything to write.
unfoldable pub release : GxDatabaseLockType → LockHeader → Option LockHeader
release writelock h = if h.write_lock == 0 then none else some (record h { write_lock = 0 })
release readlock h =
    if h.read_lock == 0 then none else some (record h { read_lock = h.read_lock - 1 })

-- The single member that each kind of lock writes.
abbrev pub write_member : GxDatabaseLockType → LockHeader → LockHeader → LockHeader
write_member writelock h shared = record shared { write_lock = h.write_lock }
write_member readlock h shared = record shared { read_lock = h.read_lock }

abbrev pub write_protect : ℕ → LockHeader → LockHeader
write_protect n shared = record shared { lock_protect = n }

-- The three writes: protect, the member, and protect again.
unfoldable pub write_members : GxDatabaseLockType → LockHeader → LockHeader → LockHeader
write_members l_type h shared = write_protect 0 (write_member l_type h (write_protect 1 shared))

abbrev pub fail : GxDatabaseError → GxDatabase → GxDatabaseError × GxDatabase
fail e db = (e, record db { gxd_error = e })

-- The writes of the file lock, at a file that may not be ready for them.
unfoldable pub store_file_lock :
    GxDatabaseLockType → LockHeader → GxDatabase → GxDatabaseError × GxDatabase
unfolding write_members
store_file_lock l_type h db =
    if db.ready_for_writing
    then fail no_error (record db { file_lock = write_members l_type h db.file_lock })
    else fail file_not_writeable db

-- `LockFile`
unfoldable pub lock_file : GxDatabaseLockType → GxDatabase → GxDatabaseError × GxDatabase
unfolding acquire store_file_lock
lock_file l_type db =
    if not (has_file_lock db.rev_letter)
    then fail no_error db
    else if not (db.is_ok && db.ready_for_reading)
    then fail file_not_ready db
    else if not (db.file_lock.lock_protect == 0)
    then fail filelock_access_error db
    else elim (acquire l_type db.file_lock) [
      | none ↦ fail filelock_error db
      | some h ↦ store_file_lock l_type h db
    ]

-- `UnlockFile`
unfoldable pub unlock_file : GxDatabaseLockType → GxDatabase → GxDatabaseError × GxDatabase
unfolding release store_file_lock
unlock_file l_type db =
    if not (has_file_lock db.rev_letter)
    then fail no_error db
    else if not (db.is_ok && db.ready_for_reading)
    then fail file_not_ready db
    else if not (db.file_lock.lock_protect == 0)
    then fail filelock_access_error db
    else elim (release l_type db.file_lock) [
      | none ↦ fail no_error db
      | some h ↦ store_file_lock l_type h db
    ]

-- `ResetFileLock`
unfoldable pub reset_file_lock : GxDatabase → GxDatabaseError × GxDatabase
reset_file_lock db =
    if not (has_file_lock db.rev_letter)
    then fail no_error db
    else if db.is_ok && db.ready_for_writing
    then fail no_error (record db { file_lock = init_lock })
    else fail file_not_writeable db

abbrev pub update_lock : (ℕ → LockHeader) → ℕ → LockHeader → ℕ → LockHeader
update_lock locks a h b = if a == b then h else locks b

unfoldable pub store_record_lock :
    GxDatabaseLockType → LockHeader → GxDatabase → ℕ → GxDatabaseError × GxDatabase
unfolding write_members
store_record_lock l_type h db a =
    if db.ready_for_writing
    then fail no_error (record db {
      record_locks = update_lock db.record_locks a (write_members l_type h (db.record_locks a));
    })
    else fail file_not_writeable db

-- The argument `block_address`: the address of a block, or `gxCurrAddress`, its default, which is the
-- address of no block, with the position in the file at the call.
pub data BlockAddress : Type 0 where
  given curr_address : ℕ → BlockAddress

-- Where the headers are read.
unfoldable pub read_address : BlockAddress → ℕ
read_address (given a) = a
read_address (curr_address position) = position

-- The block address that the lock is written for: at `gxCurrAddress` the position once the block
-- header and the lock header have been read.
unfoldable pub lock_address : ℕ → BlockAddress → ℕ
unfolding block_header_size
lock_address rev (given a) = a
lock_address rev (curr_address position) = position + block_header_size rev

-- `LockRecord`
unfoldable pub lock_record :
    GxDatabaseLockType → BlockAddress → GxDatabase → GxDatabaseError × GxDatabase
unfolding acquire store_record_lock read_block_hdr read_address lock_address
lock_record l_type block_address db =
    let a = read_address block_address in
    let (found, read) = read_block_hdr db a in
    if not (has_record_lock db.rev_letter) then fail no_error db else elim found [
      | none ↦ (read.gxd_error, read)
      | some _ ↦
          if not ((db.record_locks a).lock_protect == 0)
          then fail recordlock_access_error db
          else elim (acquire l_type (db.record_locks a)) [
            | none ↦ fail recordlock_error db
            | some h ↦ store_record_lock l_type h db (lock_address db.rev_letter block_address)
          ]
    ]

-- `UnlockRecord`
unfoldable pub unlock_record :
    GxDatabaseLockType → BlockAddress → GxDatabase → GxDatabaseError × GxDatabase
unfolding release store_record_lock read_block_hdr read_address lock_address
unlock_record l_type block_address db =
    let a = read_address block_address in
    let (found, read) = read_block_hdr db a in
    if not (has_record_lock db.rev_letter) then fail no_error db else elim found [
      | none ↦ (read.gxd_error, read)
      | some _ ↦
          if not ((db.record_locks a).lock_protect == 0)
          then fail recordlock_access_error db
          else elim (release l_type (db.record_locks a)) [
            | none ↦ fail no_error db
            | some h ↦ store_record_lock l_type h db (lock_address db.rev_letter block_address)
          ]
    ]

-- `ResetRecordLock`
unfoldable pub reset_record_lock : ℕ → GxDatabase → GxDatabaseError × GxDatabase
unfolding read_block_hdr
reset_record_lock a db =
    let (found, read) = read_block_hdr db a in
    if not (has_record_lock db.rev_letter) then fail no_error db else elim found [
      | none ↦ (read.gxd_error, read)
      | some _ ↦
          if db.ready_for_writing
          then fail no_error (record db { record_locks = update_lock db.record_locks a init_lock })
          else fail file_not_writeable db
    ]

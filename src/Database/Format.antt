-- ===== src/Database/Format.antt =====
-- The headers of a database file (include/gxheader.h), their sizes in the 64-bit engine, and the
-- reads and writes of headers in src/gxdbase.cpp. A file is the block header that stands at each
-- address, if one can be read there, with the lock headers of the file and of the blocks: objects and
-- checksums are bytes that no operation here looks at. Addresses are numbers without a bound: the file
-- is below 2^63 bytes. The length of a block has 32 bits and wraps.
-- The device does not fail, but for a write of `Delete` in Blocks: a write goes wrong only where the
-- file is not ready for it.
use datareel.Prelude.{
  ℕ, ◌+◌, ◌-◌, ◌/◌, ◌%◌, ◌^◌, Bool, false, not, ◌&&◌, ◌||◌, Option, none, some, ◌==◌, if◌then◌else◌,
}

pub record GxFileHeader : Type 0 where
  pub gxd_fs_fptr : ℕ
  pub gxd_eof : ℕ
  pub gxd_hs_fptr : ℕ
  pub gxd_hb_fptr : ℕ

pub record GxBlockHeader : Type 0 where
  pub block_check_word : ℕ
  pub block_length : ℕ
  pub block_status : ℕ
  pub block_nd_fptr : ℕ

pub record GxFileStatsHeader : Type 0 where
  pub num_blocks : ℕ
  pub deleted_blocks : ℕ
  pub removed_blocks : ℕ

-- The codes of `gxDatabaseError` that these operations set.
pub data GxDatabaseError : Type 0 where
  no_error file_not_ready file_not_writeable file_read_error file_write_error sync_error :
      GxDatabaseError
  filelock_access_error filelock_error recordlock_access_error : GxDatabaseError
  recordlock_error : GxDatabaseError

-- The lock header of the file, and that of a block.
pub record LockHeader : Type 0 where
  pub lock_protect : ℕ
  pub read_lock : ℕ
  pub write_lock : ℕ

-- `InitFileLockHdr` and `InitRecordLockHdr`
abbrev pub init_lock : LockHeader
init_lock = record { lock_protect = 0; read_lock = 0; write_lock = 0 }

-- `disk_header` and `disk_stats` are the copies of the headers in the file; `is_ok` is `IsOK()`.
pub record GxDatabase : Type 0 where
  pub file_header : GxFileHeader
  pub file_stats_header : GxFileStatsHeader
  pub rev_letter : ℕ
  pub is_ok : Bool
  pub ready_for_reading : Bool
  pub ready_for_writing : Bool
  pub gxd_error : GxDatabaseError
  pub blocks : ℕ → Option GxBlockHeader
  pub disk_header : GxFileHeader
  pub disk_stats : GxFileStatsHeader
  pub file_lock : LockHeader
  pub record_locks : ℕ → LockHeader

-- `__ULWORD__` and `gxUINT32` hold 32 bits.
unfoldable pub ulword : ℕ → ℕ
ulword n = n % 2 ^ 32

-- `gxFSListCorrupt`, -1 as 64 bits, and `gxCheckWord`.
abbrev pub fs_list_corrupt : ℕ
fs_list_corrupt = 2 ^ 64 - 1

abbrev pub check_word : ℕ
check_word = 0xfefe

abbrev pub block_deleted : ℕ
block_deleted = b'D'

abbrev pub block_normal : ℕ
block_normal = b'N'

abbrev pub block_removed : ℕ
block_removed = b'R'

-- `SetRevisionLetter`
unfoldable pub set_revision_letter : ℕ → ℕ
set_revision_letter letter =
    if (letter == 0) || (letter == b' ')
    then 0
    else if (letter == b'A') || (letter == b'a')
    then b'A'
    else if (letter == b'B') || (letter == b'b')
    then b'B'
    else if (letter == b'C') || (letter == b'c')
    then b'C'
    else if (letter == b'D') || (letter == b'd')
    then b'D'
    else b'E'

-- `case 'd': case 'D': case 'e': case 'E':`
abbrev pub keeps_stats : ℕ → Bool
keeps_stats rev = (rev == b'd') || (rev == b'D') || (rev == b'e') || (rev == b'E')

-- `case 'c' : case 'C' : case 'd' : case 'D' :`
abbrev pub has_record_lock : ℕ → Bool
has_record_lock rev = (rev == b'c') || (rev == b'C') || (rev == b'd') || (rev == b'D')

-- `BlockHeaderSize`: with the record lock header in revisions C and D.
unfoldable pub block_header_size : ℕ → ℕ
block_header_size rev = if has_record_lock rev then 20 + 12 else 20

-- `FileHeaderSize`: with the file lock header from revision B on, and the file statistics from D on.
unfoldable pub file_header_size : ℕ → ℕ
file_header_size rev =
    if (rev == b'b') || (rev == b'B') || (rev == b'c') || (rev == b'C')
    then 50 + 12
    else if keeps_stats rev
    then (50 + 12) + 24
    else 50

-- What `Alloc` adds to a length: the block header and, in revisions A to D, the checksum.
unfoldable pub block_overhead : ℕ → ℕ
unfolding block_header_size
block_overhead rev =
    if (rev == 0) || (rev == b' ') || (rev == b'e') || (rev == b'E')
    then block_header_size rev
    else block_header_size rev + 4

abbrev pub status_of : GxBlockHeader → ℕ
status_of hdr = hdr.block_status % 256

abbrev pub control_of : GxBlockHeader → ℕ
control_of hdr = hdr.block_status / 256 % 256

-- `TestBlockHeader`
unfoldable pub test_block_header : GxBlockHeader → Bool
test_block_header hdr =
    let status = status_of hdr in
    let control = control_of hdr in
    if not (hdr.block_check_word == check_word)
    then false
    else if not (hdr.block_status / 2 ^ 24 % 256 == 0) || not (hdr.block_status / 2 ^ 16 % 256 == 0)
    then false
    else if status == b'V'
    then (control == b'A')
      || (control == b'C')
      || (control == b'D')
      || (control == b'F')
      || (control == b'L')
      || (control == b'K')
      || (control == b'R')
      || (control == b'S')
      || (control == b'W')
    else ((status == b'B') || (status == b'D') || (status == b'N') || (status == b'R'))
      && (control == 0)

abbrev pub update : (ℕ → Option GxBlockHeader) → ℕ → GxBlockHeader → ℕ → Option GxBlockHeader
update blocks a hdr b = if a == b then some hdr else blocks b

-- `WriteBlockHdr`, where the file is ready for writing.
unfoldable pub write_block_hdr : GxDatabase → GxBlockHeader → ℕ → GxDatabase
write_block_hdr db hdr a = record db { blocks = update db.blocks a hdr; gxd_error = no_error }

-- `WriteFileStatsHdr`, where the file is ready for writing.
unfoldable pub write_file_stats_hdr : GxDatabase → GxDatabase
write_file_stats_hdr db =
    if keeps_stats db.rev_letter
    then record db { disk_stats = db.file_stats_header; gxd_error = no_error }
    else record db { gxd_error = no_error }

-- `WriteFileHdr`: nothing is written where the file is not ready.
unfoldable pub write_file_hdr : GxDatabase → GxDatabase
unfolding write_file_stats_hdr
write_file_hdr db =
    if db.is_ok && db.ready_for_writing
    then write_file_stats_hdr (record db { disk_header = db.file_header })
    else record db { gxd_error = file_not_writeable }

-- `ReadBlockHdr`: the header, if it can be read and is one.
unfoldable pub read_block_hdr : GxDatabase → ℕ → Option GxBlockHeader × GxDatabase
unfolding test_block_header
read_block_hdr db a =
    if db.is_ok && db.ready_for_reading
    then elim (db.blocks a) [
      | none ↦ (none, record db { gxd_error = file_read_error })
      | some hdr ↦
          if test_block_header hdr
          then (some hdr, record db { gxd_error = no_error })
          else (none, record db { gxd_error = sync_error })
    ]
    else (none, record db { gxd_error = file_not_ready })

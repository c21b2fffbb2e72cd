-- ===== src/Lib.antt =====
-- DataReel: the database file, the B-tree index that stands on it, and some of the utilities
-- beside them.
--
-- The program keeps variable-length blocks in a file (src/gxdbase.cpp): each block has a header,
-- the blocks follow one another from the start of the heap to the end of the file, and the headers
-- of deleted blocks form a list through their next pointers. A B-tree (src/gxbtree.cpp) keeps one
-- node (src/btnode.cpp) per block and reads and writes it by its address. Keys are compared by a
-- class of the client (include/dbasekey.h).
--
-- Prelude: lists, Boolean tests and ascending numbers, shared by both parts.
--
-- Database models gxDatabase. Format has the headers of include/gxheader.h and their sizes, reads
-- and writes (SetRevisionLetter, FileHeaderSize, BlockHeaderSize, TestBlockHeader, ReadBlockHdr,
-- WriteBlockHdr, WriteFileHdr, WriteFileStatsHdr); Reclaim has ReclaimFirstFit and ReclaimBestFit;
-- Blocks has Alloc, Delete, Remove and UnDelete. Each takes the state GxDatabase and returns the
-- new one with its result. Tiles states that blocks fill the heap, Chain that next pointers lead
-- through free blocks to 0, Heap both; FreeList is what a search finds. Session is a client that
-- allocates and deletes objects in any order. Alloc, BestFit, Delete, Reuse, Undo and Cycle are
-- proofs. Lock has the locks of the file and of its blocks (LockFile, UnlockFile, LockRecord,
-- UnlockRecord, ResetFileLock, ResetRecordLock), Lock/Holders the processes that hold them,
-- Lock/Race the single accesses of LockFile, between which those of other processes can come, and
-- Lock/Current LockRecord with its default argument gxCurrAddress.
--
-- Btree models gxBtree without its cache. Key is the interface of key classes: comparisons of one
-- order. Node has the operations of BtreeNode, with the scan of FindKeyLocation, and Node/Binary
-- its binary search, which the default build uses; State has the header and the file of nodes,
-- with ReadNode; Search has Find, FindFirst, FindLast, FindNext, FindPrev and PartialFind; Change
-- has the writes, GrowNewRoot and CollapseRoot; Insert has InsertDatabaseKey; Balance has
-- InsertBalance, both rotations and Merge; Delete has DeleteDatabaseKey; Edit has
-- FastDeleteDatabaseKey, ChangeKey and ChangeOrAddKey. Shape is the tree that a file of nodes stands
-- for. Under Insert, OneNode and Halves are one node of the way up, Above, Walk, Child and Below the
-- way down and up, Root and Sound the whole call.
--
-- BtreeStack models src/btstack.cpp, a list of nodes in memory that is linked both ways, on which
-- the B-tree keeps the addresses of its nodes during a change: Btree itself keeps them in a list,
-- and BtreeStack/Refine compares the two.
--
-- Crc32 models src/gxcrc32.cpp with the table of include/gxcrctab.h: the three functions
-- calcCRC32, and makeCRC32, which computes the table. Crc32/Reference is the checksum by its
-- definition.
--
-- Cdate models src/cdate.cpp: dates as texts, SetDate and str, and their comparisons.
--
-- Base64 models src/gxs_b64.cpp over lists of bytes: gxsBase64Encode, gxsBase64Decode and the
-- headers of basic authentication.
--
-- Url models src/gxsurl.cpp: Text has the helpers of include/strutil.h that it calls, Url itself
-- PathAndQuery, HostAndPort, ToString, DefaultPort, Encode and Decode, Parse has Parse and Resolve.
-- Cuts, Port, Host, Authority, Encoding and RoundTrip are proofs.
--
-- The searches of the B-tree stop after 4096 reads (gxBtreeMaxNodeReads), which is the fuel of
-- their walks, as in the code. The walks of the free space list have no bound in the code: their
-- fuel is a parameter, an answer is missing where it runs out, and a fuel of the length of the
-- list is enough.
--
-- Bounds: the 64-bit engine, with files below 2^63 bytes and counters below 2^32. The length of a
-- block is a 32-bit number: Alloc and the searches of the free space list add to it with its
-- wrap-around (ulword), and the theorems on Alloc ask for an object that is short enough. The
-- device does not fail, so a write goes wrong only where the file is not open for it; Delete alone
-- is modelled with a device that may refuse the write of the block's header (delete_on).
--
-- The B-tree does not stand on the model of gxDatabase but on a file of nodes: its call of Alloc
-- returns the next address of a list, the supply, or 0 where that is empty, and its call of Remove
-- leaves the node where it is. That Alloc gives blocks that are free and apart is proved in
-- Database; that a second Remove of the same block fails is not part of the B-tree's view. A record
-- lock is written at an address as a whole: that the lock which LockRecord writes at gxCurrAddress
-- covers bytes of the object is not modelled.
--
-- Not modelled: TestTree of the B-tree, the caches
-- (src/dbfcache.cpp, src/btcache.cpp), checksums of blocks, a lock type outside the enumeration,
-- opening and creating files, the layers above the index (src/pod.cpp, src/gxrdbms.cpp), and the
-- other network classes, the portability classes and the rest of the utilities.
pub mod Base64
pub mod Btree
pub mod BtreeStack
pub mod Cdate
pub mod Crc32
pub mod Database
pub mod Prelude
pub mod Url

-- ===== src/Database/Heap.antt =====
-- The heap: a row of blocks after the headers of the file, with the list of the free ones.
use datareel.Database.Tiles.{lt_eof}
use datareel.Prelude.{ℕ, ◌<◌, ◌≡◌, ◌≢◌, true, List, [], ◌∷◌, arith, All}
use datareel.Database.Format.{GxDatabase, fs_list_corrupt}
use datareel.Database.Tiles.{Headers, IsTiled}
use datareel.Database.Chain.{IsChain}

-- A file that is open for writing, whose heap is this row of blocks, with this free space list.
pub record IsHeap (db : GxDatabase) (tiles : List (ℕ × ℕ)) (list : List ℕ) : Type 0 where
  pub is_ok : db.is_ok ≡ true
  pub ready : db.ready_for_writing ≡ true
  pub below : db.file_header.gxd_eof < fs_list_corrupt
  pub start : 0 < db.file_header.gxd_hs_fptr
  pub tiled : IsTiled db.blocks db.file_header.gxd_eof db.file_header.gxd_hs_fptr tiles
  pub chain : IsChain db.blocks tiles db.file_header.gxd_fs_fptr list

pub chain_nonzero :
    (blocks : Headers) (tiles : List (ℕ × ℕ)) (addr : ℕ) (list : List ℕ)
    → IsChain blocks tiles addr list
    → All (λ q. q ≢ 0) list
chain_nonzero blocks tiles addr [] chain = tt
chain_nonzero blocks tiles addr (a ∷ rest) (e, ne, (hdr, at, free, later)) =
    (ne, chain_nonzero blocks tiles hdr.block_nd_fptr rest later)

chain_sound :
    (blocks : Headers) (tiles : List (ℕ × ℕ)) (eof s addr : ℕ) (list : List ℕ)
    → eof < fs_list_corrupt
    → IsTiled blocks eof s tiles
    → IsChain blocks tiles addr list
    → addr ≢ fs_list_corrupt
chain_sound blocks tiles eof s addr [] below tiled chain = omega arith
chain_sound blocks tiles eof s addr (a ∷ rest) below tiled (e, ne, (hdr, at, _, _)) =
    let lt = lt_eof blocks eof s tiles a hdr.block_length tiled at.1 in omega arith

module _ {db : GxDatabase} {tiles : List (ℕ × ℕ)} {list : List ℕ}
    (heap : IsHeap db tiles list) where
  pub heap_sound : db.file_header.gxd_fs_fptr ≢ fs_list_corrupt
  heap_sound = chain_sound db.blocks tiles _ _ _ list heap.below heap.tiled heap.chain

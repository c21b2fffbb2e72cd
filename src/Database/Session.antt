-- ===== src/Database/Session.antt =====
-- A client of the database file that allocates objects and deletes those that it holds: `Alloc` by
-- any method, `Delete` and `Remove`, in any order.
mod More
mod Sound
pub mod Safety
mod Tests
use mathlib.Core.Path.{subst}
use mathlib.Core.Option.{some-injective}
use datareel.Prelude.{
  All, ℕ, ◌+◌, ◌*◌, ◌^◌, ◌-◌, ◌≤◌, ◌<◌, ◌≡◌, ◌≢◌, ◌⊎◌, inl, inr, refl, sym, ap, ◌∙◌, Bool, true,
  Option, none, some, List, [], ◌∷◌, ◌++◌, length, arith, Bool-cases, ne→==, eq→==, ◌==◌,
}
use datareel.Database.Format.{
  GxBlockHeader, GxDatabase, block_header_size, block_overhead, fs_list_corrupt, status_of,
  block_normal, test_block_header, read_block_hdr, write_block_hdr, write_file_hdr,
}
use datareel.Database.Blocks.{
  alloc, delete, put_on_list, GxDatabaseReclaimMethod, reclaim_none, reclaim_firstfit,
  reclaim_bestfit, reclaim, alloc_at,
}
use datareel.Database.Tiles.{IsTile, tiles_apart, le_of_tile}
use datareel.Database.Chain.{IsBlock}
use datareel.Database.Heap.{IsHeap}
use datareel.Database.Alloc.Parts.{normal_block, KeepsFile, block_overhead_pos}
use datareel.Database.Alloc.Result.{Allocated}
use datareel.Database.Alloc.{alloc-Allocated, extend-Allocated}
use datareel.Database.BestFit.{alloc_bestfit-Allocated}
use datareel.Database.Delete.{delete-Deleted}
use datareel.Database.Session.More.{more, le_more, alloc-more}

-- The file, and the objects that the client holds, each with its address and length.
pub record Session : Type 0 where
  pub db : GxDatabase
  pub objects : List (ℕ × ℕ)

-- A call of the client. The file stays below the addresses that the engine can tell, and the length
-- of the object and of two headers is a number of 32 bits.
pub data Call : Session → Session → Type 0 where
  allocate :
      (s : Session) (method : GxDatabaseReclaimMethod) (fuel bytes object : ℕ) (after : GxDatabase)
      → alloc method fuel s.db bytes ≡ some (object, after)
      → s.db.file_header.gxd_eof + (bytes + block_overhead s.db.rev_letter) < fs_list_corrupt
      → bytes + 2 * block_overhead s.db.rev_letter < 2 ^ 32
      → Call s (record { db = after; objects = (object, bytes) ∷ s.objects })
  free :
      (s : Session) (remove_object : Bool) (object bytes : ℕ) (older newer : List (ℕ × ℕ))
      → s.objects ≡ newer ++ ((object, bytes) ∷ older)
      → Call s (record { db = (delete s.db object remove_object).1; objects = newer ++ older })

-- The calls of a client that starts with a heap and no object.
pub data Reach : Session → Type 0 where
  start :
      (db : GxDatabase) (tiles : List (ℕ × ℕ)) (list : List ℕ)
      → IsHeap db tiles list
      → db.ready_for_reading ≡ true
      → Reach (record { db = db; objects = [] })
  later : {s s' : Session} → Reach s → Call s s' → Reach s'

-- ===== src/Database/Cycle.antt =====
-- A free space list that runs in a circle: what the tests of `ReclaimFirstFit` let pass.
use datareel.Prelude.{
  ℕ, zero, suc, ◌+◌, ◌≡◌, ◌≢◌, ◌≤◌, refl, true, false, Option, some, ltb, arith, ne→==,
}
use datareel.Database.Format.{ulword, GxBlockHeader, GxDatabase, block_overhead}
use datareel.Database.Reclaim.{endless, first_fit, is_free_block, unused_length}

-- A free block that does not hold the bytes, and points to another.
pub record IsPassed (db : GxDatabase) (bytes a : ℕ) (hdr : GxBlockHeader) (next : ℕ) : Type 0 where
  pub present : db.blocks a ≡ some hdr
  pub address : a ≢ 0
  pub free : is_free_block hdr a ≡ true
  pub differs : hdr.block_length ≢ bytes
  pub short : hdr.block_length ≤ ulword (bytes + block_overhead db.rev_letter)
  pub points : hdr.block_nd_fptr ≡ next

no_room :
    (db : GxDatabase) (n bytes : ℕ)
    → n ≤ ulword (bytes + block_overhead db.rev_letter)
    → ltb 0 (unused_length db n bytes) ≡ false
unfolding unused_length
no_room db n bytes h = ground arith

-- Where two free blocks that do not hold the bytes point to each other, the search from either has
-- no end: there is no number of rounds after which it gives an answer.
pub first_fit-cycle :
    (fuel : ℕ) (db : GxDatabase) (bytes a b : ℕ) (first second : GxBlockHeader)
    (prev : Option (ℕ × GxBlockHeader))
    → IsPassed db bytes a first b
    → IsPassed db bytes b second a
    → first_fit fuel db bytes a prev ≡ endless
unfolding first_fit
first_fit-cycle zero db bytes a b first second prev p q = rw (ne→== a 0 p.address) refl
first_fit-cycle (suc fuel) db bytes a b first second prev p q =
    rw
      (
        ne→== a 0 p.address,
        p.present,
        p.free,
        ne→== first.block_length bytes p.differs,
        no_room db first.block_length bytes p.short,
        p.points,
      )
      (first_fit-cycle fuel db bytes b a second first _ q p)

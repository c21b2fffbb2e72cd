-- ===== src/Database/Session/Safety.antt =====
-- How the objects of a client lie in the file, and whether its calls succeed.
use mathlib.Core.Path.{subst}
use datareel.Prelude.{
  All, ℕ, ◌+◌, ◌*◌, ◌^◌, ◌-◌, ◌≤◌, ◌<◌, ◌≡◌, ◌≢◌, ◌⊎◌, inl, inr, refl, sym, Bool, true, some, List,
  [], ◌∷◌, length, arith,
}
use datareel.Database.Format.{GxDatabase, block_header_size, block_overhead}
use datareel.Database.Blocks.{alloc, delete, GxDatabaseReclaimMethod}
use datareel.Database.Tiles.{end_of_tile, tiles_apart}
use datareel.Database.Alloc.Parts.{normal_block}
use datareel.Database.Delete.{delete-Deleted}
use datareel.Database.Session.{Session, Reach}
use datareel.Prelude.{All-map, All-zip}
use datareel.Database.Session.Sound.{
  IsHeld, IsDistinct, IsSound, alloc-any, valid_normal, Reach-IsSound,
}

-- Two objects share no byte.
abbrev pub AreApart : ℕ × ℕ → ℕ × ℕ → Type 0
AreApart q r = (q.0 + q.1 ≤ r.0) ⊎ (r.0 + r.1 ≤ q.0)

abbrev pub AllApart : List (ℕ × ℕ) → Type 0
AllApart [] = Unit
AllApart (q ∷ objects) = All (AreApart q) objects × AllApart objects

-- The header before an object says that its block is in use and has its length, within the file.
abbrev pub IsStored : GxDatabase → ℕ × ℕ → Type 0
IsStored db (object, bytes) =
    (db.blocks (object - block_header_size db.rev_letter)
      ≡ some (normal_block (bytes + block_overhead db.rev_letter)))
    × (object + bytes ≤ db.file_header.gxd_eof)

block_header_size_pos : (rev : ℕ) → 0 < block_header_size rev
unfolding block_header_size
block_header_size_pos rev = ground arith

block_header_size-block_overhead : (rev : ℕ) → block_header_size rev ≤ block_overhead rev
unfolding block_overhead
block_header_size-block_overhead rev = ground arith

module _ (s : Session) (sound : IsSound s) where
  held_apart_from :
      (q r : ℕ × ℕ)
      → IsHeld s.db sound.tiles q
      → IsHeld s.db sound.tiles r
      → r.0 ≢ q.0
      → AreApart q r
  held_apart_from q r (a, at, here) (b, at', here') other =
      let tiled = sound.heap.tiled in
      let rev = s.db.rev_letter in
      let apart =
        tiles_apart s.db.blocks _ _ sound.tiles a (q.1 + block_overhead rev) b
          (r.1 + block_overhead rev) tiled here.1 here'.1 in
      let apart' =
        tiles_apart s.db.blocks _ _ sound.tiles b (r.1 + block_overhead rev) a
          (q.1 + block_overhead rev) tiled here'.1 here.1 in
      let larger = block_header_size-block_overhead rev in
      elim apart [
        | inr after ↦ inl (omega arith)
        | inl before ↦ elim apart' [
          | inr after' ↦ inr (omega arith)
          | inl before' ↦ absurd (other (omega arith))
        ]
      ]

  held-AllApart :
      (objects : List (ℕ × ℕ))
      → All (IsHeld s.db sound.tiles) objects
      → IsDistinct objects
      → AllApart objects
  held-AllApart [] held distinct = tt
  held-AllApart (q ∷ objects) (here, held) (other, distinct) = (
    All-map objects
        (λ (r : ℕ × ℕ) (both : IsHeld s.db sound.tiles r × (r.0 ≢ q.0)).
          held_apart_from q r here both.0 both.1)
        (All-zip (IsHeld s.db sound.tiles) (λ r. r.0 ≢ q.0) objects held other),
    held-AllApart objects held distinct,
  )

  held-IsStored : (q : ℕ × ℕ) → IsHeld s.db sound.tiles q → IsStored s.db q
  held-IsStored (object, bytes) (a, at, here) =
      let rev = s.db.rev_letter in
      let within =
        end_of_tile s.db.blocks _ _ sound.tiles a (bytes + block_overhead rev) sound.heap.tiled
          here.1 in
      let start : object - block_header_size rev ≡ a = omega arith in
      (rw start here.0, omega (arith, within, block_header_size-block_overhead rev))

-- Whatever objects a client allocates by Alloc with any method, and deletes by Delete or Remove of
-- objects that it holds, from a heap that can be read, in a file that stays below the addresses that
-- the engine can tell, and where the length of each object with two headers is below 2^32: of those that it holds no two share a byte, and each stands within the
-- file behind a header that says that its block is in use and has its length.
pub Reach-AllApart : (s : Session) → Reach s → AllApart s.objects × All (IsStored s.db) s.objects
Reach-AllApart s reach =
    let sound = Reach-IsSound reach in
    (
      held-AllApart s sound s.objects sound.held sound.distinct,
      All-map s.objects (held-IsStored s sound) sound.held,
    )

-- In every state that such a client can reach, Alloc by any method of an object whose length with two
-- headers is below 2^32 ends within some number of rounds of its search with an object at an address that is not 0, and Delete and Remove of each object that
-- the client holds succeed.
pub Reach-progress :
    (s : Session)
    → Reach s
    → ((method : GxDatabaseReclaimMethod) (bytes : ℕ)
        → bytes + 2 * block_overhead s.db.rev_letter < 2 ^ 32
        → (fuel : ℕ) × (object : ℕ) × (after : GxDatabase) × (alloc method fuel s.db bytes
            ≡ some (object, after))
          × (object ≢ 0))
      × All (λ q. (remove_object : Bool) → (delete s.db q.0 remove_object).0 ≡ true) s.objects
Reach-progress s reach =
    let sound = Reach-IsSound reach in
    let heap = sound.heap in
    (
      λ method bytes small.
          let done = alloc-any heap method (length sound.list) bytes (omega arith) small in
          (
            length sound.list,
            done.address + block_header_size s.db.rev_letter,
            done.after,
            done.returns,
            omega (arith, block_header_size_pos s.db.rev_letter),
          ),
      All-map s.objects
          (λ (q : ℕ × ℕ) (held : IsHeld s.db sound.tiles q) (f : Bool).
            let (a, at, here) = held in
            subst (λ o. (delete s.db o f).0 ≡ true) (sym at)
              (delete-Deleted a (normal_block (q.1 + block_overhead s.db.rev_letter)) f heap
                sound.reading here.0 here.1 refl (valid_normal _)).0)
          sound.held,
    )

-- ===== src/Database/Session/Sound.antt =====
-- The invariant of a client: its objects and the blocks that they stand in.
use mathlib.Core.Path.{subst}
use mathlib.Core.Option.{some-injective}
use datareel.Prelude.{
  All, ℕ, ◌+◌, ◌*◌, ◌^◌, ◌≤◌, ◌<◌, ◌≡◌, ◌≢◌, inl, inr, refl, sym, ◌∙◌, Bool, true, Option, some,
  List, [], ◌∷◌, ◌++◌, length, arith, Bool-cases, ne→==, ◌==◌,
}
use datareel.Database.Format.{
  GxDatabase, block_header_size, block_overhead, fs_list_corrupt, test_block_header,
}
use datareel.Database.Blocks.{
  alloc, delete, GxDatabaseReclaimMethod, reclaim_none, reclaim_firstfit, reclaim_bestfit, reclaim,
  alloc_at,
}
use datareel.Database.Tiles.{lt_eof}
use datareel.Database.Chain.{IsBlock}
use datareel.Database.Heap.{IsHeap}
use datareel.Database.Alloc.Parts.{normal_block, block_overhead_pos, ulword_small}
use datareel.Database.Alloc.Result.{Allocated}
use datareel.Database.Alloc.{alloc-Allocated, extend-Allocated}
use datareel.Database.BestFit.{alloc_bestfit-Allocated}
use datareel.Database.Delete.{delete-Deleted}
use datareel.Database.Session.More.{more, le_more, alloc-more}
use datareel.Database.Session.{Session, allocate, free, Reach, start, later}
use datareel.Database.Alloc.Relink.{in_use_free}
use datareel.Database.Delete.{delete-rev, delete-reading, delete-elsewhere}
use datareel.Prelude.{All-map, All-zip, All-without}

-- An object stands in a block in use.
abbrev pub IsHeld : GxDatabase → List (ℕ × ℕ) → ℕ × ℕ → Type 0
IsHeld db tiles (object, bytes) =
    (a : ℕ) × (object ≡ a + block_header_size db.rev_letter)
    × IsBlock db.blocks tiles a (normal_block (bytes + block_overhead db.rev_letter))

-- No object has the address of another.
abbrev pub IsDistinct : List (ℕ × ℕ) → Type 0
IsDistinct [] = Unit
IsDistinct (q ∷ objects) = (All (λ r. r.0 ≢ q.0) objects) × IsDistinct objects

pub record IsSound (s : Session) : Type 0 where
  pub tiles : List (ℕ × ℕ)
  pub list : List ℕ
  pub heap : IsHeap s.db tiles list
  pub reading : s.db.ready_for_reading ≡ true
  pub held : All (IsHeld s.db tiles) s.objects
  pub distinct : IsDistinct s.objects

-- `Alloc` by any method.
pub alloc-any :
    {db : GxDatabase} {tiles : List (ℕ × ℕ)} {list : List ℕ} (heap : IsHeap db tiles list)
    (method : GxDatabaseReclaimMethod) (fuel bytes : ℕ)
    → length list ≤ fuel
    → bytes + 2 * block_overhead db.rev_letter < 2 ^ 32
    → Allocated db tiles (bytes + block_overhead db.rev_letter) (alloc method fuel db bytes)
unfolding alloc reclaim alloc_at
alloc-any heap reclaim_firstfit fuel bytes h small = alloc-Allocated heap fuel bytes h small
alloc-any heap reclaim_bestfit fuel bytes h small =
    alloc_bestfit-Allocated heap fuel bytes h (omega arith)
alloc-any {db = db} heap reclaim_none fuel bytes h small =
    let fits : bytes + block_overhead db.rev_letter < 2 ^ 32 = omega arith in
    let pos : 0 < bytes + block_overhead db.rev_letter =
      omega (arith, block_overhead_pos db.rev_letter) in
    elim (Bool-cases (db.file_header.gxd_fs_fptr == 0)) [
      | inl none_free ↦
          simp (heap.is_ok, heap.ready, none_free, ulword_small _ fits)
            (extend-Allocated heap _ pos fits)
      | inr some_free ↦
          simp (heap.is_ok, heap.ready, some_free, ulword_small _ fits)
            (extend-Allocated heap _ pos fits)
    ]

-- The length of the header of every object's block is that of the file.
held_apart :
    (db : GxDatabase) (tiles : List (ℕ × ℕ)) (list : List ℕ) (bytes : ℕ)
    (r : Option (ℕ × GxDatabase)) (q : ℕ × ℕ)
    → IsHeap db tiles list
    → (done : Allocated db tiles bytes r) → IsHeld db tiles q
    → q.0 ≢ done.address + block_header_size db.rev_letter
held_apart db tiles list bytes r q heap done (a, object, here) same = elim done.was_free [
  | inl at_end ↦
      let lt =
        lt_eof db.blocks _ _ tiles a (q.1 + block_overhead db.rev_letter) heap.tiled here.1 in
      omega arith
  | inr (hdr, at, is_free) ↦
      in_use_free db.blocks done.address a hdr (normal_block (q.1 + block_overhead db.rev_letter))
        at is_free here.0 refl (omega arith)
]

Allocated-IsSound :
    (s : Session) (bytes : ℕ) (r : Option (ℕ × GxDatabase)) (sound : IsSound s)
    (done : Allocated s.db sound.tiles (bytes + block_overhead s.db.rev_letter) r)
    → s.db.file_header.gxd_eof + (bytes + block_overhead s.db.rev_letter) < fs_list_corrupt
    → IsSound (record {
      db = done.after;
      objects = (done.address + block_header_size s.db.rev_letter, bytes) ∷ s.objects;
    })
Allocated-IsSound s bytes r sound done small =
    let keeps = done.keeps in
    let heap = sound.heap in
    record {
      tiles = done.tiles;
      list = done.list;
      heap = record {
        is_ok = keeps.is_ok ∙ heap.is_ok;
        ready = keeps.ready ∙ heap.ready;
        below = omega (arith, done.grown);
        start = omega (arith, keeps.hs, heap.start);
        tiled = done.tiled;
        chain = done.chain;
      };
      reading = keeps.reading ∙ sound.reading;
      held = (
        (done.address, rw keeps.rev refl, rw keeps.rev (done.in_use, done.is_tile)),
        All-map s.objects
            (λ (q : ℕ × ℕ) (held : IsHeld s.db sound.tiles q).
              let (a, object, here) = held in
              (
                a,
                rw keeps.rev object,
                rw keeps.rev
                    (done.others a (normal_block (q.1 + block_overhead s.db.rev_letter)) here refl),
              ))
            sound.held,
      );
      distinct = (
        All-map s.objects
            (λ (q : ℕ × ℕ) (held : IsHeld s.db sound.tiles q).
              held_apart s.db sound.tiles sound.list (bytes + block_overhead s.db.rev_letter) r q
                heap done held)
            sound.held,
        sound.distinct,
      );
    }

allocate-IsSound :
    (s : Session) (method : GxDatabaseReclaimMethod) (fuel bytes object : ℕ) (after : GxDatabase)
    → IsSound s
    → alloc method fuel s.db bytes ≡ some (object, after)
    → s.db.file_header.gxd_eof + (bytes + block_overhead s.db.rev_letter) < fs_list_corrupt
    → bytes + 2 * block_overhead s.db.rev_letter < 2 ^ 32
    → IsSound (record { db = after; objects = (object, bytes) ∷ s.objects })
allocate-IsSound s method fuel bytes object after sound ended small short =
    let k = length sound.list in
    let done = alloc-any sound.heap method (more k fuel) bytes (le_more k fuel) short in
    let same =
      some-injective _ _
        (sym done.returns ∙ alloc-more method k fuel s.db bytes (object, after) ended) in
    subst
      (λ (r : ℕ × GxDatabase). IsSound (record { db = r.1; objects = (r.0, bytes) ∷ s.objects }))
      same (Allocated-IsSound s bytes _ sound done small)

IsDistinct-without :
    (newer : List (ℕ × ℕ)) (q : ℕ × ℕ) (older : List (ℕ × ℕ))
    → IsDistinct (newer ++ (q ∷ older))
    → IsDistinct (newer ++ older) × All (λ r. r.0 ≢ q.0) (newer ++ older)
IsDistinct-without [] q older (apart, distinct) = (distinct, apart)
IsDistinct-without (p ∷ newer) q older (apart, distinct) =
    let (distinct', apart') = IsDistinct-without newer q older distinct in
    let (other, rest) = All-without (λ (r : ℕ × ℕ). r.0 ≢ p.0) newer q older apart in
    ((rest, distinct'), ((λ e. other (sym e)), apart'))

pub valid_normal : (n : ℕ) → test_block_header (normal_block n) ≡ true
unfolding test_block_header
valid_normal n = refl

free-IsSound :
    (s : Session) (remove_object : Bool) (object bytes : ℕ) (newer older : List (ℕ × ℕ))
    → IsSound s
    → s.objects ≡ newer ++ ((object, bytes) ∷ older)
    → IsSound (record { db = (delete s.db object remove_object).1; objects = newer ++ older })
free-IsSound s f object bytes newer older sound e =
    let held = subst (All (IsHeld s.db sound.tiles)) e sound.held in
    let ((a, at_object, here), others) =
      All-without (IsHeld s.db sound.tiles) newer (object, bytes) older held in
    let (distinct, apart) =
      IsDistinct-without newer (object, bytes) older (subst IsDistinct e sound.distinct) in
    let n = bytes + block_overhead s.db.rev_letter in
    let db' = (delete s.db object f).1 in
    let deleted =
      (delete-Deleted a (normal_block n) f sound.heap sound.reading here.0 here.1 refl
        (valid_normal n)).1 in
    record {
      tiles = sound.tiles;
      list = a ∷ sound.list;
      heap =
          subst (λ o. IsHeap (delete s.db o f).1 sound.tiles (a ∷ sound.list)) (sym at_object)
            deleted.heap;
      reading = delete-reading s.db object f ∙ sound.reading;
      held =
          All-map (newer ++ older)
            (λ (q : ℕ × ℕ) (both : IsHeld s.db sound.tiles q × (q.0 ≢ object)).
              let ((b, object', there), other) = both in
              (
                b,
                rw (delete-rev s.db object f) object',
                rw (delete-rev s.db object f)
                    (delete-elsewhere s.db object f b (ne→== _ b (omega arith)) ∙ there.0, there.1),
              ))
            (All-zip (IsHeld s.db sound.tiles) (λ q. q.0 ≢ object) (newer ++ older) others apart);
      distinct = distinct;
    }

pub Reach-IsSound : {s : Session} → Reach s → IsSound s
Reach-IsSound (start db tiles list heap reading) = record {
  tiles = tiles;
  list = list;
  heap = heap;
  reading = reading;
  held = tt;
  distinct = tt;
}
Reach-IsSound (later before (allocate s method fuel bytes object after ended small short)) =
    allocate-IsSound s method fuel bytes object after (Reach-IsSound before) ended small short
Reach-IsSound (later before (free s f object bytes older newer e)) =
    free-IsSound s f object bytes newer older (Reach-IsSound before) e

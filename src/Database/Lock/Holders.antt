-- ===== src/Database/Lock/Holders.antt =====
-- Who holds a lock, where each lock function runs as a whole: the file's lock and a block's lock are
-- both of this kind.
use datareel.Prelude.{
  ◌≤◌, ℕ, ◌+◌, ◌≡◌, ◌≢◌, ◌⊎◌, inl, inr, refl, sym, ap, ◌∙◌, none, some, List, [], ◌∷◌, ◌++◌, length,
  length-append, arith,
}
use datareel.Database.Format.{GxDatabase, GxDatabaseError, LockHeader, init_lock, no_error}
use datareel.Database.Lock.{
  GxDatabaseLockType, readlock, writelock, acquire, release, write_members,
}

abbrev pub Operation : Type 0
Operation = GxDatabase → GxDatabaseError × GxDatabase

-- A lock was taken, or the call failed and left the lock as it was.
abbrev pub Locks : (GxDatabase → LockHeader) → GxDatabaseLockType → Operation → GxDatabase → Type 0
Locks header l_type call db =
    ((h : LockHeader) × ((call db).0 ≡ no_error)
      × (acquire l_type (header db) ≡ some h)
      × (header (call db).1 ≡ write_members l_type h (header db)))
    ⊎ (((call db).0 ≢ no_error) × (header (call db).1 ≡ header db))

-- A lock was released, or there was none, or the call failed and left the lock as it was.
abbrev pub Unlocks :
    (GxDatabase → LockHeader) → GxDatabaseLockType → Operation → GxDatabase → Type 0
Unlocks header l_type call db =
    ((h : LockHeader) × ((call db).0 ≡ no_error)
      × (release l_type (header db) ≡ some h)
      × (header (call db).1 ≡ write_members l_type h (header db)))
    ⊎ (((release l_type (header db) ≡ none) ⊎ ((call db).0 ≢ no_error))
        × (header (call db).1 ≡ header db))

-- A lock header in a file, and the functions that take and release its lock.
pub record Lockable (header : GxDatabase → LockHeader) (HasLock : GxDatabase → Type 0)
    (lock unlock : GxDatabaseLockType → Operation) : Type 0 where
  pub locks :
      (l_type : GxDatabaseLockType) (db : GxDatabase)
      → HasLock db
      → Locks header l_type (lock l_type) db
  pub unlocks :
      (l_type : GxDatabaseLockType) (db : GxDatabase)
      → HasLock db
      → Unlocks header l_type (unlock l_type) db
  pub lock_has :
      (l_type : GxDatabaseLockType) (db : GxDatabase) → HasLock db → HasLock (lock l_type db).1
  pub unlock_has :
      (l_type : GxDatabaseLockType) (db : GxDatabase) → HasLock db → HasLock (unlock l_type db).1

-- The file, and those who hold a shared and an exclusive lock, once for each that they hold.
pub record World : Type 0 where
  pub db : GxDatabase
  pub readers : List ℕ
  pub writers : List ℕ

-- A call by one of the processes. Only who holds a lock releases it.
pub data Call (lock unlock : GxDatabaseLockType → Operation) : World → World → Type 0 where
  shared :
      (w : World) (i : ℕ)
      → (lock readlock w.db).0 ≡ no_error
      → Call lock unlock w (record w { db = (lock readlock w.db).1; readers = i ∷ w.readers })
  exclusive :
      (w : World) (i : ℕ)
      → (lock writelock w.db).0 ≡ no_error
      → Call lock unlock w (record w { db = (lock writelock w.db).1; writers = i ∷ w.writers })
  refused :
      (w : World) (l_type : GxDatabaseLockType)
      → (lock l_type w.db).0 ≢ no_error
      → Call lock unlock w (record w { db = (lock l_type w.db).1 })
  end_shared :
      (w : World) (before after : List ℕ) (i : ℕ)
      → w.readers ≡ before ++ (i ∷ after)
      → (unlock readlock w.db).0 ≡ no_error
      → Call lock unlock w (record w { db = (unlock readlock w.db).1; readers = before ++ after })
  end_exclusive :
      (w : World) (before after : List ℕ) (i : ℕ)
      → w.writers ≡ before ++ (i ∷ after)
      → (unlock writelock w.db).0 ≡ no_error
      → Call lock unlock w (record w { db = (unlock writelock w.db).1; writers = before ++ after })
  still_held :
      (w : World) (l_type : GxDatabaseLockType)
      → (unlock l_type w.db).0 ≢ no_error
      → Call lock unlock w (record w { db = (unlock l_type w.db).1 })

-- A sequence of calls, from a file whose lock header was just made and nobody holds a lock.
pub data Reach (header : GxDatabase → LockHeader) (HasLock : GxDatabase → Type 0)
    (lock unlock : GxDatabaseLockType → Operation) : World → Type 0 where
  start :
      (db : GxDatabase)
      → HasLock db
      → header db ≡ init_lock
      → Reach header HasLock lock unlock (record { db = db; readers = []; writers = [] })
  later :
      {w w' : World}
      → Reach header HasLock lock unlock w
      → Call lock unlock w w'
      → Reach header HasLock lock unlock w'

-- The lock header counts who holds the lock: many share it, or one has it alone, or nobody.
pub record IsCounted (header : GxDatabase → LockHeader) (HasLock : GxDatabase → Type 0) (w : World)
    : Type 0 where
  pub has : HasLock w.db
  pub unprotected : (header w.db).lock_protect ≡ 0
  pub read_count : (header w.db).read_lock ≡ length w.readers
  pub write_count : (header w.db).write_lock ≡ length w.writers
  pub exclusion : (length w.writers ≡ 0) ⊎ ((length w.writers ≡ 1) × (length w.readers ≡ 0))

taken_shared :
    (h h' : LockHeader)
    → acquire readlock h ≡ some h'
    → h.write_lock ≤ 1
    → (h.write_lock ≡ 0)
      × ((write_members readlock h' h).lock_protect ≡ 0)
      × ((write_members readlock h' h).read_lock ≡ h.read_lock + 1)
      × ((write_members readlock h' h).write_lock ≡ 0)
unfolding acquire write_members
taken_shared h h' e small = (ground arith, refl, ground arith, ground arith)

taken_exclusive :
    (h h' : LockHeader)
    → acquire writelock h ≡ some h'
    → (h.write_lock ≡ 0)
      × (h.read_lock ≡ 0)
      × ((write_members writelock h' h).lock_protect ≡ 0)
      × ((write_members writelock h' h).read_lock ≡ 0)
      × ((write_members writelock h' h).write_lock ≡ 1)
unfolding acquire write_members
taken_exclusive h h' e = (ground arith, ground arith, refl, ground arith, ground arith)

left_shared :
    (h h' : LockHeader)
    → release readlock h ≡ some h'
    → ((write_members readlock h' h).lock_protect ≡ 0)
      × ((write_members readlock h' h).read_lock + 1 ≡ h.read_lock)
      × ((write_members readlock h' h).write_lock ≡ h.write_lock)
unfolding release write_members
left_shared h h' e = (refl, ground arith, refl)

left_exclusive :
    (h h' : LockHeader)
    → release writelock h ≡ some h'
    → ((write_members writelock h' h).lock_protect ≡ 0)
      × ((write_members writelock h' h).read_lock ≡ h.read_lock)
      × ((write_members writelock h' h).write_lock ≡ 0)
unfolding release write_members
left_exclusive h h' e = (refl, refl, ground arith)

release-none :
    (l_type : GxDatabaseLockType) (h : LockHeader)
    → release l_type h ≡ none
    → (l_type ≡ readlock → h.read_lock ≡ 0) × (l_type ≡ writelock → h.write_lock ≡ 0)
unfolding release
release-none readlock h e = (λ _. ground arith, λ same. cc)
release-none writelock h e = (λ same. cc, λ _. ground arith)

module _ {header : GxDatabase → LockHeader} {HasLock : GxDatabase → Type 0}
    {lock unlock : GxDatabaseLockType → Operation}
    (laws : Lockable header HasLock lock unlock) where
  same-IsCounted :
      (w : World) (db : GxDatabase)
      → IsCounted header HasLock w
      → HasLock db
      → header db ≡ header w.db
      → IsCounted header HasLock (record w { db = db })
  same-IsCounted w db c has same = record {
    has = has;
    unprotected = ap (λ (h : LockHeader). h.lock_protect) same ∙ c.unprotected;
    read_count = ap (λ (h : LockHeader). h.read_lock) same ∙ c.read_count;
    write_count = ap (λ (h : LockHeader). h.write_lock) same ∙ c.write_count;
    exclusion = c.exclusion;
  }

  -- Every call keeps the count.
  Call-IsCounted :
      {w w' : World}
      → IsCounted header HasLock w
      → Call lock unlock w w'
      → IsCounted header HasLock w'
  Call-IsCounted c (shared w i ok) = elim (laws.locks readlock w.db c.has) [
    | inl (h, _, acquired, written) ↦
        let (free, protect, reads, writes) =
          taken_shared (header w.db) h acquired (ground (arith, c.write_count, c.exclusion)) in
        record {
          has = laws.lock_has readlock w.db c.has;
          unprotected = ap (λ (h : LockHeader). h.lock_protect) written ∙ protect;
          read_count =
              ap (λ (h : LockHeader). h.read_lock) written ∙ reads ∙ omega (arith, c.read_count);
          write_count =
              ap (λ (h : LockHeader). h.write_lock) written
              ∙ writes
              ∙ omega (arith, free, c.write_count);
          exclusion = inl (omega (arith, free, c.write_count));
        }
    | inr (failed, _) ↦ absurd (failed ok)
  ]
  Call-IsCounted c (exclusive w i ok) = elim (laws.locks writelock w.db c.has) [
    | inl (h, _, acquired, written) ↦
        let (free, unread, protect, reads, writes) = taken_exclusive (header w.db) h acquired in
        record {
          has = laws.lock_has writelock w.db c.has;
          unprotected = ap (λ (h : LockHeader). h.lock_protect) written ∙ protect;
          read_count =
              ap (λ (h : LockHeader). h.read_lock) written
              ∙ reads
              ∙ omega (arith, unread, c.read_count);
          write_count =
              ap (λ (h : LockHeader). h.write_lock) written
              ∙ writes
              ∙ omega (arith, free, c.write_count);
          exclusion = inr (omega (arith, free, c.write_count), omega (arith, unread, c.read_count));
        }
    | inr (failed, _) ↦ absurd (failed ok)
  ]
  Call-IsCounted c (refused w l_type failed) = elim (laws.locks l_type w.db c.has) [
    | inl (h, ok, _, _) ↦ absurd (failed ok)
    | inr (_, same) ↦ same-IsCounted w _ c (laws.lock_has l_type w.db c.has) same
  ]
  Call-IsCounted c (end_shared w before after i held ok) =
      let count = c.read_count ∙ ap length held ∙ length-append before (i ∷ after) in
      let rest = length-append before after in
      elim (laws.unlocks readlock w.db c.has) [
        | inl (h, _, released, written) ↦
            let (protect, reads, writes) = left_shared (header w.db) h released in
            record {
              has = laws.unlock_has readlock w.db c.has;
              unprotected = ap (λ (h : LockHeader). h.lock_protect) written ∙ protect;
              read_count =
                  ap (λ (h : LockHeader). h.read_lock) written ∙ omega (arith, reads, count, rest);
              write_count = ap (λ (h : LockHeader). h.write_lock) written ∙ writes ∙ c.write_count;
              exclusion = ground (arith, c.exclusion, c.read_count, count);
            }
        | inr (inl nothing, _) ↦
            absurd (omega (arith, (release-none readlock _ nothing).0 refl, count))
        | inr (inr failed, _) ↦ absurd (failed ok)
      ]
  Call-IsCounted c (end_exclusive w before after i held ok) =
      let count = c.write_count ∙ ap length held ∙ length-append before (i ∷ after) in
      let rest = length-append before after in
      elim (laws.unlocks writelock w.db c.has) [
        | inl (h, _, released, written) ↦
            let (protect, reads, writes) = left_exclusive (header w.db) h released in
            let nobody : length (before ++ after) ≡ 0 =
              ground (arith, c.exclusion, c.write_count, count, rest) in
            record {
              has = laws.unlock_has writelock w.db c.has;
              unprotected = ap (λ (h : LockHeader). h.lock_protect) written ∙ protect;
              read_count = ap (λ (h : LockHeader). h.read_lock) written ∙ reads ∙ c.read_count;
              write_count = ap (λ (h : LockHeader). h.write_lock) written ∙ writes ∙ sym nobody;
              exclusion = inl nobody;
            }
        | inr (inl nothing, _) ↦
            absurd (omega (arith, (release-none writelock _ nothing).1 refl, count))
        | inr (inr failed, _) ↦ absurd (failed ok)
      ]
  Call-IsCounted c (still_held w l_type failed) = elim (laws.unlocks l_type w.db c.has) [
    | inl (h, ok, _, _) ↦ absurd (failed ok)
    | inr (_, same) ↦ same-IsCounted w _ c (laws.unlock_has l_type w.db c.has) same
  ]

  pub Reach-IsCounted :
      {w : World} → Reach header HasLock lock unlock w → IsCounted header HasLock w
  Reach-IsCounted (start db has new) = record {
    has = has;
    unprotected = ap (λ (h : LockHeader). h.lock_protect) new;
    read_count = ap (λ (h : LockHeader). h.read_lock) new;
    write_count = ap (λ (h : LockHeader). h.write_lock) new;
    exclusion = inl refl;
  }
  Reach-IsCounted (later before call) = Call-IsCounted (Reach-IsCounted before) call

-- ===== src/Database/Lock/Race.antt =====
-- `LockFile` as the accesses to the file that it is made of, so that those of other processes may come
-- between them: one read of the header and three writes of one member each.
use mathlib.Core.Path.{subst}
use datareel.Prelude.{eq→==, ◌≡◌, refl, none, some, ◌==◌, if◌then◌else◌, not}
use datareel.Database.Format.{
  LockHeader, GxDatabaseError, no_error, filelock_access_error, filelock_error,
}
use datareel.Database.Lock.{
  GxDatabaseLockType, readlock, writelock, acquire, write_member, write_protect, write_members,
}

-- Where a process is in `LockFile`, with the header that it has in memory.
pub data Phase : Type 0 where
  reading : Phase
  protecting : LockHeader → Phase
  counting : LockHeader → Phase
  unprotecting : Phase
  ended : GxDatabaseError → Phase

-- One access by a process that wants this lock, to the header in the file.
unfoldable pub access : GxDatabaseLockType → Phase → LockHeader → Phase × LockHeader
unfolding acquire
access l_type reading shared =
    if not (shared.lock_protect == 0)
    then (ended filelock_access_error, shared)
    else elim (acquire l_type shared) [
      | none ↦ (ended filelock_error, shared)
      | some h ↦ (protecting h, shared)
    ]
access l_type (protecting h) shared = (counting h, write_protect 1 shared)
access l_type (counting h) shared = (unprotecting, write_member l_type h shared)
access l_type unprotecting shared = (ended no_error, write_protect 0 shared)
access l_type (ended e) shared = (ended e, shared)

-- Two processes that want a lock, and the header in the file.
pub record Pair : Type 0 where
  pub first : Phase
  pub second : Phase
  pub shared : LockHeader

-- An access by either process.
pub data Access (l_type : GxDatabaseLockType) : Pair → Pair → Type 0 where
  by_first :
      (p : Pair)
      → Access l_type p (record p {
        first = (access l_type p.first p.shared).0;
        shared = (access l_type p.first p.shared).1;
      })
  by_second :
      (p : Pair)
      → Access l_type p (record p {
        second = (access l_type p.second p.shared).0;
        shared = (access l_type p.second p.shared).1;
      })

pub data Accesses (l_type : GxDatabaseLockType) : Pair → Pair → Type 0 where
  stop : (p : Pair) → Accesses l_type p p
  go : {p q r : Pair} → Access l_type p q → Accesses l_type q r → Accesses l_type p r

module _ (l_type : GxDatabaseLockType) (first second phase : Phase)
    (shared after : LockHeader) where
  step_first :
      access l_type first shared ≡ (phase, after)
      → Access l_type
          (record { first = first; second = second; shared = shared })
          (record { first = phase; second = second; shared = after })
  step_first e =
      subst
        (λ r.
          Access l_type (record { first = first; second = second; shared = shared })
            (record { first = r.0; second = second; shared = r.1 }))
        e (by_first (record { first = first; second = second; shared = shared }))

  step_second :
      access l_type second shared ≡ (phase, after)
      → Access l_type
          (record { first = first; second = second; shared = shared })
          (record { first = first; second = phase; shared = after })
  step_second e =
      subst
        (λ r.
          Access l_type (record { first = first; second = second; shared = shared })
            (record { first = first; second = r.0; shared = r.1 }))
        e (by_second (record { first = first; second = second; shared = shared }))

read_header :
    (l_type : GxDatabaseLockType) (shared h : LockHeader)
    → acquire l_type shared ≡ some h
    → shared.lock_protect ≡ 0
    → access l_type reading shared ≡ (protecting h, shared)
unfolding access
read_header l_type shared h free unprotected = simp (eq→== _ _ unprotected, free) refl

written_twice :
    (l_type : GxDatabaseLockType) (h shared : LockHeader)
    → write_members l_type h (write_members l_type h shared) ≡ write_members l_type h shared
unfolding write_members
written_twice readlock h shared = refl
written_twice writelock h shared = refl

-- Whichever lock two processes want, from a header that is not protected and where it can be had,
-- their accesses can follow one another so that both calls succeed, and the header is as after one
-- of them: two processes hold the exclusive lock, or two share it and are counted once.
pub lock-race :
    (l_type : GxDatabaseLockType) (shared h : LockHeader)
    → acquire l_type shared ≡ some h
    → shared.lock_protect ≡ 0
    → (p : Pair) × Accesses l_type (record { first = reading; second = reading; shared = shared }) p
      × (p.first ≡ ended no_error)
      × (p.second ≡ ended no_error)
      × (p.shared ≡ write_members l_type h shared)
unfolding access write_members
lock-race l_type shared h free unprotected =
    let read = read_header l_type shared h free unprotected in
    let s1 = write_protect 1 shared in
    let s2 = write_member l_type h s1 in
    let s3 = write_protect 0 s2 in
    let s4 = write_protect 1 s3 in
    let s5 = write_member l_type h s4 in
    let s6 = write_protect 0 s5 in
    let got = ended no_error in
    (
      record { first = got; second = got; shared = s6 },
      go (step_first l_type reading reading (protecting h) shared shared read) (
          go (step_second l_type (protecting h) reading (protecting h) shared shared read) (
            go (step_first l_type (protecting h) (protecting h) (counting h) shared s1 refl) (
              go (step_first l_type (counting h) (protecting h) unprotecting s1 s2 refl) (
                go (step_first l_type unprotecting (protecting h) got s2 s3 refl) (
                  go (step_second l_type got (protecting h) (counting h) s3 s4 refl) (
                    go (step_second l_type got (counting h) unprotecting s4 s5 refl)
                      (go (step_second l_type got unprotecting got s5 s6 refl) (stop _)))))))),
      refl,
      refl,
      written_twice l_type h shared,
    )

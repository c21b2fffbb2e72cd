-- ===== src/Btree/Shape/Filled.antt =====
-- Trees without nodes that hold no key.
use datareel.Prelude.{ℕ, zero, suc, ◌<◌, length}
use datareel.Btree.Shape.{Tree, Branches, leaf, node, end, key, entries_of, child_at}
use datareel.Btree.Shape.Place.{replace_at, split_at}

module _ {K : Type 0} where
  abbrev mutual
    -- Every node holds a key.
    pub Filled : Tree K → Type 0
    Filled leaf = Unit
    Filled (node a l bs) = (0 < length (entries_of bs)) × Filled l × FilledBranches bs

    pub FilledBranches : Branches K → Type 0
    FilledBranches end = Unit
    FilledBranches (key k t bs) = Filled t × FilledBranches bs

  pub child_at-Filled :
      (l : Tree K) (bs : Branches K) (s : ℕ)
      → Filled l
      → FilledBranches bs
      → Filled (child_at l bs s)
  child_at-Filled l bs zero fl fb = fl
  child_at-Filled l end (suc s) fl fb = tt
  child_at-Filled l (key k t bs) (suc s) fl fb = child_at-Filled t bs s fb.0 fb.1

  pub replace_at-Filled :
      (l : Tree K) (bs : Branches K) (s : ℕ) (c : Tree K)
      → Filled l
      → FilledBranches bs
      → Filled c
      → let (l', bs') = replace_at l bs s c in Filled l' × FilledBranches bs'
  replace_at-Filled l bs zero c fl fb fc = (fc, fb)
  replace_at-Filled l end (suc i) c fl fb fc = (fl, tt)
  replace_at-Filled l (key k t bs) (suc i) c fl fb fc =
      (fl, replace_at-Filled t bs i c fb.0 fb.1 fc)

  pub split_at-Filled :
      (l : Tree K) (bs : Branches K) (s : ℕ) (c : Tree K) (m : K) (d : Tree K)
      → Filled l
      → FilledBranches bs
      → Filled c
      → Filled d
      → let (l', bs') = split_at l bs s c m d in Filled l' × FilledBranches bs'
  split_at-Filled l bs zero c m d fl fb fc fd = (fc, (fd, fb))
  split_at-Filled l end (suc i) c m d fl fb fc fd = (fl, tt)
  split_at-Filled l (key k t bs) (suc i) c m d fl fb fc fd =
      (fl, split_at-Filled t bs i c m d fb.0 fb.1 fc fd)

-- ===== src/Btree/Shape.antt =====
-- The tree that a B-tree file stands for. `Stored` says that the nodes of the file, from an address
-- on, are the nodes of a tree of this type, all at one depth; the ranks of its keys in their order
-- are what a client of the tree sees.
pub mod Lookup
pub mod Place
pub mod Cut
pub mod Filled
pub mod Frame
pub mod Between
use datareel.Prelude.{ℕ, zero, suc, ◌≡◌, ◌≢◌, Option, some, List, [], ◌∷◌, ◌++◌, ◌≤◌, length}
use datareel.Btree.Key.{DatabaseKeyB}
use datareel.Btree.Node.{Entry}
use datareel.Btree.State.{StoredNode}

mutual
  pub data Tree (K : Type 0) : Type 0 where
    leaf : Tree K
    node : ℕ → Tree K → Branches K → Tree K

  pub data Branches (K : Type 0) : Type 0 where
    end : Branches K
    key : K → Tree K → Branches K → Branches K

module _ {K : Type 0} where
  abbrev pub address_of : Tree K → ℕ
  address_of leaf = 0
  address_of (node a l bs) = a

  abbrev pub entries_of : Branches K → List (Entry K)
  entries_of end = []
  entries_of (key k t bs) = record { right_child = address_of t; db_key = k } ∷ entries_of bs

  -- The subtree behind a branch, counted from the left child.
  abbrev pub child_at : Tree K → Branches K → ℕ → Tree K
  child_at l bs zero = l
  child_at l end (suc i) = leaf
  child_at l (key k t bs) (suc i) = child_at t bs i

  abbrev pub stored_node : Tree K → Branches K → StoredNode K
  stored_node l bs = record { left_child = address_of l; key_entries = entries_of bs }

  abbrev mutual
    -- The file holds the tree: `height` nodes on every way down, no node over `capacity` keys.
    pub Stored : (ℕ → Option (StoredNode K)) → ℕ → ℕ → Tree K → Type 0
    Stored nodes capacity height leaf = height ≡ 0
    Stored nodes capacity zero (node a l bs) = ⊥
    Stored nodes capacity (suc height) (node a l bs) =
        (a ≢ 0)
        × (nodes a ≡ some (stored_node l bs))
        × (length (entries_of bs) ≤ capacity)
        × Stored nodes capacity height l
        × StoredBranches nodes capacity height bs

    pub StoredBranches : (ℕ → Option (StoredNode K)) → ℕ → ℕ → Branches K → Type 0
    StoredBranches nodes capacity height end = Unit
    StoredBranches nodes capacity height (key k t bs) =
        Stored nodes capacity height t × StoredBranches nodes capacity height bs

module _ {K : Type 0} ⦃order : DatabaseKeyB K⦄ where
  abbrev mutual
    pub ranks : Tree K → List ℕ
    ranks leaf = []
    ranks (node a l bs) = ranks l ++ ranks_of bs

    pub ranks_of : Branches K → List ℕ
    ranks_of end = []
    ranks_of (key k t bs) = order.rank k ∷ (ranks t ++ ranks_of bs)

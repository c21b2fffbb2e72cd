-- ===== src/Btree/Shape/Frame.antt =====
-- Which addresses a tree uses, and what a change of other nodes leaves.
use datareel.Prelude.{
  ℕ, zero, suc, ◌+◌, ◌≤◌, ◌<◌, ◌≡◌, refl, ◌∙◌, Option, List, [], ◌∷◌, length, arith, ◌==◌,
  if◌then◌else◌,
}
use datareel.Btree.State.{StoredNode}
use datareel.Btree.Shape.{
  Tree, Branches, leaf, node, end, key, entries_of, child_at, Stored, StoredBranches,
}
use datareel.Btree.Shape.Place.{replace_at, split_at}

-- How often an address is in a list.
abbrev pub count : ℕ → List ℕ → ℕ
count b [] = 0
count b (a ∷ rest) = (if a == b then 1 else 0) + count b rest

module _ {K : Type 0} where
  abbrev mutual
    -- How many nodes of a tree stand at an address.
    pub uses : ℕ → Tree K → ℕ
    uses b leaf = 0
    uses b (node a l bs) = (if a == b then 1 else 0) + (uses b l + uses_of b bs)

    pub uses_of : ℕ → Branches K → ℕ
    uses_of b end = 0
    uses_of b (key k t bs) = uses b t + uses_of b bs

  abbrev pub uses_in : ℕ → Tree K × Branches K → ℕ
  uses_in b (l, bs) = uses b l + uses_of b bs

  -- The same without the subtree at a place.
  abbrev pub others : ℕ → Tree K → Branches K → ℕ → ℕ
  others b l bs zero = uses_of b bs
  others b l end (suc i) = uses b l
  others b l (key k t bs) (suc i) = uses b l + others b t bs i

  pub uses_in-child_at :
      (b : ℕ) (l : Tree K) (bs : Branches K) (s : ℕ)
      → uses_in b (l, bs) ≡ uses b (child_at l bs s) + others b l bs s
  uses_in-child_at b l bs zero = refl
  uses_in-child_at b l end (suc i) = omega arith
  uses_in-child_at b l (key k t bs) (suc i) = omega (arith, uses_in-child_at b t bs i)

  pub uses_in-replace_at :
      (b : ℕ) (l : Tree K) (bs : Branches K) (s : ℕ) (c : Tree K)
      → s ≤ length (entries_of bs)
      → uses_in b (replace_at l bs s c) ≡ uses b c + others b l bs s
  uses_in-replace_at b l bs zero c h = refl
  uses_in-replace_at b l end (suc i) c h = absurd (omega arith)
  uses_in-replace_at b l (key k t bs) (suc i) c h =
      omega (arith, uses_in-replace_at b t bs i c (omega arith))

  pub uses_in-split_at :
      (b : ℕ) (l : Tree K) (bs : Branches K) (s : ℕ) (c : Tree K) (m : K) (d : Tree K)
      → s ≤ length (entries_of bs)
      → uses_in b (split_at l bs s c m d) ≡ uses b c + uses b d + others b l bs s
  uses_in-split_at b l bs zero c m d h = omega arith
  uses_in-split_at b l end (suc i) c m d h = absurd (omega arith)
  uses_in-split_at b l (key k t bs) (suc i) c m d h =
      omega (arith, uses_in-split_at b t bs i c m d (omega arith))

module _ {K : Type 0} (nodes nodes' : ℕ → Option (StoredNode K)) where
  -- The same nodes at the addresses that something uses.
  abbrev pub Agree : (ℕ → ℕ) → Type 0
  Agree used = (b : ℕ) → 0 < used b → nodes' b ≡ nodes b

  mutual
    pub Stored-Agree :
        (capacity height : ℕ) (t : Tree K)
        → Agree (λ b. uses b t)
        → Stored nodes capacity height t
        → Stored nodes' capacity height t
    Stored-Agree capacity height leaf same st = st
    Stored-Agree capacity zero (node a l bs) same st = st
    Stored-Agree capacity (suc height) (node a l bs) same st = (
      st.0,
      same a (ground arith) ∙ st.1,
      st.2,
      Stored-Agree capacity height l (λ b h. same b (omega arith)) st.3,
      StoredBranches-Agree capacity height bs (λ b h. same b (omega arith)) st.4,
    )

    pub StoredBranches-Agree :
        (capacity height : ℕ) (bs : Branches K)
        → Agree (λ b. uses_of b bs)
        → StoredBranches nodes capacity height bs
        → StoredBranches nodes' capacity height bs
    StoredBranches-Agree capacity height end same st = tt
    StoredBranches-Agree capacity height (key k t bs) same st = (
      Stored-Agree capacity height t (λ b h. same b (omega arith)) st.0,
      StoredBranches-Agree capacity height bs (λ b h. same b (omega arith)) st.1,
    )

module _ {K : Type 0} (nodes nodes' : ℕ → Option (StoredNode K)) (capacity height : ℕ) where
  pub replace_at-Stored :
      (l : Tree K) (bs : Branches K) (s : ℕ) (c : Tree K)
      → s ≤ length (entries_of bs)
      → Agree nodes nodes' (λ b. others b l bs s)
      → Stored nodes capacity height l
      → StoredBranches nodes capacity height bs
      → Stored nodes' capacity height c
      → let (l', bs') = replace_at l bs s c in
        Stored nodes' capacity height l' × StoredBranches nodes' capacity height bs'
  replace_at-Stored l bs zero c h same sl sb sc =
      (sc, StoredBranches-Agree nodes nodes' capacity height bs same sb)
  replace_at-Stored l end (suc i) c h same sl sb sc = absurd (omega arith)
  replace_at-Stored l (key k t bs) (suc i) c h same sl sb sc = (
    Stored-Agree nodes nodes' capacity height l (λ b u. same b (omega arith)) sl,
    replace_at-Stored t bs i c (omega arith) (λ b u. same b (omega arith)) sb.0 sb.1 sc,
  )

  pub split_at-Stored :
      (l : Tree K) (bs : Branches K) (s : ℕ) (c : Tree K) (m : K) (d : Tree K)
      → s ≤ length (entries_of bs)
      → Agree nodes nodes' (λ b. others b l bs s)
      → Stored nodes capacity height l
      → StoredBranches nodes capacity height bs
      → Stored nodes' capacity height c
      → Stored nodes' capacity height d
      → let (l', bs') = split_at l bs s c m d in
        Stored nodes' capacity height l' × StoredBranches nodes' capacity height bs'
  split_at-Stored l bs zero c m d h same sl sb sc sd =
      (sc, (sd, StoredBranches-Agree nodes nodes' capacity height bs same sb))
  split_at-Stored l end (suc i) c m d h same sl sb sc sd = absurd (omega arith)
  split_at-Stored l (key k t bs) (suc i) c m d h same sl sb sc sd = (
    Stored-Agree nodes nodes' capacity height l (λ b u. same b (omega arith)) sl,
    split_at-Stored t bs i c m d (omega arith) (λ b u. same b (omega arith)) sb.0 sb.1 sc sd,
  )

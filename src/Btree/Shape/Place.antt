-- ===== src/Btree/Shape/Place.antt =====
-- A subtree of a node in its place: the ranks before and after it, a new subtree put there, or two
-- with a key between them.
use mathlib.Core.Path.{subst}
use datareel.Prelude.{
  length-append, ◌||◌, ℕ, zero, suc, ◌≤◌, ◌<◌, ◌≡◌, refl, sym, ap, ◌∙◌, List, [], ◌∷◌, ◌++◌, length,
  arith, ◌==◌, append_assoc, AllAbove, AllBelow, IsAscending, IsAscending-append, IsAscending-left,
  IsAscending-right, All-append, has, has-append, insert_at,
}
use datareel.Btree.Key.{DatabaseKeyB}
use datareel.Btree.Shape.{
  Tree, Branches, end, key, address_of, entries_of, child_at, ranks, ranks_of,
}

module _ {K : Type 0} where
  abbrev pub replace_at : Tree K → Branches K → ℕ → Tree K → Tree K × Branches K
  replace_at l bs zero c = (c, bs)
  replace_at l end (suc i) c = (l, end)
  replace_at l (key k t bs) (suc i) c = let (t', bs') = replace_at t bs i c in (l, key k t' bs')

  -- Two trees and a key between them in the place of one.
  abbrev pub split_at : Tree K → Branches K → ℕ → Tree K → K → Tree K → Tree K × Branches K
  split_at l bs zero c m d = (c, key m d bs)
  split_at l end (suc i) c m d = (l, end)
  split_at l (key k t bs) (suc i) c m d = let (t', bs') = split_at t bs i c m d in (l, key k t' bs')

  pub address_of-replace_at :
      (l : Tree K) (bs : Branches K) (s : ℕ) (c : Tree K)
      → address_of c ≡ address_of (child_at l bs s)
      → address_of (replace_at l bs s c).0 ≡ address_of l
  address_of-replace_at l bs zero c e = e
  address_of-replace_at l end (suc i) c e = refl
  address_of-replace_at l (key k t bs) (suc i) c e = refl

  pub entries_of-replace_at :
      (l : Tree K) (bs : Branches K) (s : ℕ) (c : Tree K)
      → address_of c ≡ address_of (child_at l bs s)
      → entries_of (replace_at l bs s c).1 ≡ entries_of bs
  entries_of-replace_at l bs zero c e = refl
  entries_of-replace_at l end (suc i) c e = refl
  entries_of-replace_at l (key k t bs) (suc i) c e =
      rw (address_of-replace_at t bs i c e, entries_of-replace_at t bs i c e) refl

  pub address_of-split_at :
      (l : Tree K) (bs : Branches K) (s : ℕ) (c : Tree K) (m : K) (d : Tree K)
      → address_of c ≡ address_of (child_at l bs s)
      → address_of (split_at l bs s c m d).0 ≡ address_of l
  address_of-split_at l bs zero c m d e = e
  address_of-split_at l end (suc i) c m d e = refl
  address_of-split_at l (key k t bs) (suc i) c m d e = refl

  pub entries_of-split_at :
      (l : Tree K) (bs : Branches K) (s : ℕ) (c : Tree K) (m : K) (d : Tree K)
      → s ≤ length (entries_of bs)
      → address_of c ≡ address_of (child_at l bs s)
      → entries_of (split_at l bs s c m d).1
        ≡ insert_at (entries_of bs) s (record { right_child = address_of d; db_key = m })
  entries_of-split_at l bs zero c m d h e = refl
  entries_of-split_at l end (suc i) c m d h e = absurd (omega arith)
  entries_of-split_at l (key k t bs) (suc i) c m d h e =
      rw (address_of-split_at t bs i c m d e, entries_of-split_at t bs i c m d (omega arith) e) refl

module _ {K : Type 0} ⦃order : DatabaseKeyB K⦄ where
  abbrev pub before_at : Tree K → Branches K → ℕ → List ℕ
  before_at l bs zero = []
  before_at l end (suc i) = ranks l
  before_at l (key k t bs) (suc i) = ranks l ++ (order.rank k ∷ before_at t bs i)

  abbrev pub after_at : Branches K → ℕ → List ℕ
  after_at bs zero = ranks_of bs
  after_at end (suc i) = []
  after_at (key k t bs) (suc i) = after_at bs i

  abbrev pub ranks_in : Tree K × Branches K → List ℕ
  ranks_in (l, bs) = ranks l ++ ranks_of bs

  pub ranks_in-child_at :
      (l : Tree K) (bs : Branches K) (s : ℕ)
      → ranks_in (l, bs) ≡ before_at l bs s ++ (ranks (child_at l bs s) ++ after_at bs s)
  ranks_in-child_at l bs zero = refl
  ranks_in-child_at l end (suc i) = refl
  ranks_in-child_at l (key k t bs) (suc i) =
      ap (λ r. ranks l ++ (order.rank k ∷ r)) (ranks_in-child_at t bs i)
      ∙ sym (append_assoc (ranks l) (order.rank k ∷ before_at t bs i) _)

  pub ranks_in-replace_at :
      (l : Tree K) (bs : Branches K) (s : ℕ) (c : Tree K)
      → s ≤ length (entries_of bs)
      → ranks_in (replace_at l bs s c) ≡ before_at l bs s ++ (ranks c ++ after_at bs s)
  ranks_in-replace_at l bs zero c h = refl
  ranks_in-replace_at l end (suc i) c h = absurd (omega arith)
  ranks_in-replace_at l (key k t bs) (suc i) c h =
      ap (λ r. ranks l ++ (order.rank k ∷ r)) (ranks_in-replace_at t bs i c (omega arith))
      ∙ sym (append_assoc (ranks l) (order.rank k ∷ before_at t bs i) _)

  pub ranks_in-split_at :
      (l : Tree K) (bs : Branches K) (s : ℕ) (c : Tree K) (m : K) (d : Tree K)
      → s ≤ length (entries_of bs)
      → ranks_in (split_at l bs s c m d)
        ≡ before_at l bs s ++ ((ranks c ++ (order.rank m ∷ ranks d)) ++ after_at bs s)
  ranks_in-split_at l bs zero c m d h =
      sym (append_assoc (ranks c) (order.rank m ∷ ranks d) (ranks_of bs))
  ranks_in-split_at l end (suc i) c m d h = absurd (omega arith)
  ranks_in-split_at l (key k t bs) (suc i) c m d h =
      ap (λ r. ranks l ++ (order.rank k ∷ r)) (ranks_in-split_at t bs i c m d (omega arith))
      ∙ sym (append_assoc (ranks l) (order.rank k ∷ before_at t bs i) _)

  -- A place between the ranks that are smaller and those that are greater.
  pub record IsBetween (r : ℕ) (l : Tree K) (bs : Branches K) (s : ℕ) : Type 0 where
    pub inside : s ≤ length (entries_of bs)
    pub below : AllBelow r (before_at l bs s)
    pub above : AllAbove r (after_at bs s)

-- A list of ranks with one more at its place.
pub record Inserts (r : ℕ) (xs ys : List ℕ) : Type 0 where
  pub before : List ℕ
  pub after : List ℕ
  pub old : xs ≡ before ++ after
  pub new : ys ≡ before ++ (r ∷ after)
  pub smaller : AllBelow r before
  pub greater : AllAbove r after

pub Inserts-IsAscending :
    (r : ℕ) (xs ys : List ℕ) → Inserts r xs ys → IsAscending xs → IsAscending ys
Inserts-IsAscending r xs ys ins asc =
    let asc' = subst (λ l. IsAscending l) ins.old asc in
    subst (λ l. IsAscending l) (sym ins.new)
      (IsAscending-append ins.before r ins.after (IsAscending-left ins.before ins.after asc')
        ins.smaller (ins.greater, IsAscending-right ins.before ins.after asc'))

pub Inserts-length : (r : ℕ) (xs ys : List ℕ) → Inserts r xs ys → length ys ≡ suc (length xs)
Inserts-length r xs ys ins = rw (ins.old, ins.new, length-append, ◌||◌, length-append) (omega arith)

-- A place in a longer list.
pub Inserts-inside :
    (r : ℕ) (ps xs ys qs : List ℕ)
    → AllBelow r ps
    → AllAbove r qs
    → Inserts r xs ys
    → Inserts r (ps ++ (xs ++ qs)) (ps ++ (ys ++ qs))
Inserts-inside r ps xs ys qs below above ins = record {
  before = ps ++ ins.before;
  after = ins.after ++ qs;
  old =
      ap (λ z. ps ++ (z ++ qs)) ins.old
      ∙ ap (λ z. ps ++ z) (append_assoc ins.before ins.after qs)
      ∙ sym (append_assoc ps ins.before _);
  new =
      ap (λ z. ps ++ (z ++ qs)) ins.new
      ∙ ap (λ z. ps ++ z) (append_assoc ins.before (r ∷ ins.after) qs)
      ∙ sym (append_assoc ps ins.before _);
  smaller = All-append (λ x. x < r) ps ins.before below ins.smaller;
  greater = All-append (λ x. r < x) ins.after qs ins.greater above;
}

pub has-Inserts : (r j : ℕ) (xs ys : List ℕ) → Inserts r xs ys → has j ys ≡ (j == r || has j xs)
has-Inserts r j xs ys ins = rw (ins.old, ins.new, has-append, has-append) (ground arith)

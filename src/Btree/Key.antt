-- ===== src/Btree/Key.antt =====
-- The interface of include/dbasekey.h: a key class overrides `>` and `==`, or `CompareKey` where
-- __USE_SINGLE_COMPARE__ is defined. What the tree relies on
-- is that these are the comparisons of one order. A key is `key_size` bytes, so there are finitely
-- many keys, and such an order is given by the rank of each key; keys of one rank are equal to the
-- class and may differ as bytes.
use datareel.Prelude.{if◌then◌else◌, ℕ, Bool, ◌≡◌, ltb, ◌==◌, refl}

-- The sign of what `CompareKey` returns.
pub data Sign : Type 0 where
  negative nil positive : Sign

pub record DatabaseKeyB (K : Type 0) : Type 0 where
  pub gt : K → K → Bool
  pub eq : K → K → Bool
  pub compare_key : K → K → Sign
  pub rank : K → ℕ
  pub gt_rank : (a b : K) → gt a b ≡ ltb (rank b) (rank a)
  pub eq_rank : (a b : K) → eq a b ≡ (rank a == rank b)
  pub compare_rank :
      (a b : K)
      → compare_key a b
        ≡ (if ltb (rank b) (rank a) then positive else if rank a == rank b then nil else negative)

-- Keys that are numbers, such as the `INT` keys of a table.
instance abbrev pub number_key : DatabaseKeyB ℕ
number_key = record {
  gt = λ a b. ltb b a;
  eq = λ a b. a == b;
  compare_key = λ a b. if ltb b a then positive else if a == b then nil else negative;
  rank = λ a. a;
  gt_rank = λ a b. refl;
  eq_rank = λ a b. refl;
  compare_rank = λ a b. refl;
}

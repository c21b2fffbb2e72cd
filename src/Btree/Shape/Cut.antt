-- ===== src/Btree/Shape/Cut.antt =====
-- The branches of a node, cut at one of its entries.
use datareel.Prelude.{
  ℕ, ◌+◌, ◌≡◌, refl, sym, ap, ◌∙◌, Option, List, [], ◌∷◌, ◌++◌, arith, append_assoc,
}
use datareel.Btree.Key.{DatabaseKeyB}
use datareel.Btree.Node.{Entry}
use datareel.Btree.State.{StoredNode}
use datareel.Btree.Shape.{
  Tree, Branches, end, key, address_of, entries_of, Stored, StoredBranches, ranks, ranks_of,
}
use datareel.Btree.Shape.Filled.{Filled, FilledBranches}
use datareel.Btree.Shape.Frame.{uses, uses_of}

injective_head : {A : Type 0} {x y : A} {xs ys : List A} → x ∷ xs ≡ y ∷ ys → x ≡ y
injective_head h = cc

injective_tail : {A : Type 0} {x y : A} {xs ys : List A} → x ∷ xs ≡ y ∷ ys → xs ≡ ys
injective_tail h = cc

module _ {K : Type 0} ⦃order : DatabaseKeyB K⦄ where
  pub record IsCut (bs : Branches K) (xs : List (Entry K)) (e : Entry K) (ys : List (Entry K))
      : Type 0 where
    pub front : Branches K
    pub behind : Tree K
    pub back : Branches K
    pub front_entries : entries_of front ≡ xs
    pub behind_address : e.right_child ≡ address_of behind
    pub back_entries : entries_of back ≡ ys
    pub ranks_cut :
        ranks_of bs ≡ ranks_of front ++ (order.rank e.db_key ∷ (ranks behind ++ ranks_of back))
    pub uses_cut : (b : ℕ) → uses_of b bs ≡ uses_of b front + (uses b behind + uses_of b back)
    pub filled_cut : FilledBranches bs → FilledBranches front × Filled behind × FilledBranches back
    pub stored_cut :
        (nodes : ℕ → Option (StoredNode K)) (capacity height : ℕ)
        → StoredBranches nodes capacity height bs
        → StoredBranches nodes capacity height front
          × Stored nodes capacity height behind
          × StoredBranches nodes capacity height back

  pub IsCut-branches :
      (bs : Branches K) (xs : List (Entry K)) (e : Entry K) (ys : List (Entry K))
      → entries_of bs ≡ xs ++ (e ∷ ys)
      → IsCut bs xs e ys
  IsCut-branches end [] e ys h = cc
  IsCut-branches end (x ∷ xs) e ys h = cc
  IsCut-branches (key k t bs) [] e ys h = record {
    front = end;
    behind = t;
    back = bs;
    front_entries = refl;
    behind_address = ap (λ x. x.right_child) (sym (injective_head h));
    back_entries = injective_tail h;
    ranks_cut = ap (λ x. order.rank x.db_key ∷ (ranks t ++ ranks_of bs)) (injective_head h);
    uses_cut = λ b. omega arith;
    filled_cut = λ f. (tt, f.0, f.1);
    stored_cut = λ nodes capacity height st. (tt, st.0, st.1);
  }
  IsCut-branches (key k t bs) (x ∷ xs) e ys h =
      let rest : IsCut bs xs e ys = IsCut-branches bs xs e ys (injective_tail h) in
      record {
        front = key k t rest.front;
        behind = rest.behind;
        back = rest.back;
        front_entries = rw (rest.front_entries, injective_head h) refl;
        behind_address = rest.behind_address;
        back_entries = rest.back_entries;
        ranks_cut =
            ap (λ r. order.rank k ∷ (ranks t ++ r)) rest.ranks_cut
            ∙ sym (append_assoc (order.rank k ∷ ranks t) (ranks_of rest.front) _);
        uses_cut = λ b. omega (arith, rest.uses_cut b);
        filled_cut = λ f. let (x, y, z) = rest.filled_cut f.1 in ((f.0, x), y, z);
        stored_cut = λ nodes capacity height st.
            let (f, b, k) = rest.stored_cut nodes capacity height st.1 in ((st.0, f), b, k);
      }

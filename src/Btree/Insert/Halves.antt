-- ===== src/Btree/Insert/Halves.antt =====
-- A full node on the way up of `InsertDatabaseKey`: it is split around the new key.
use datareel.Prelude.{
  ℕ, suc, ◌+◌, ◌/◌, ◌≤◌, ◌<◌, ◌≡◌, ◌≢◌, refl, sym, ap, ◌∙◌, some, List, ◌++◌, length, arith, ltb,
  ◌==◌, if◌then◌else◌, append_assoc, eq→==, ne→==,
}
use datareel.Btree.Key.{DatabaseKeyB}
use datareel.Btree.Node.{Entry, BtreeNode, new_node, is_full}
use datareel.Btree.State.{StoredNode, GxBtree, update}
use datareel.Btree.Change.{M}
use datareel.Btree.Shape.{Tree, Branches, node, stored_node, ranks, ranks_of}
use datareel.Btree.Shape.Place.{ranks_in}
use datareel.Btree.Shape.Filled.{Filled, FilledBranches}
use datareel.Btree.Shape.Frame.{uses_in, count, Stored-Agree, StoredBranches-Agree}
use datareel.Btree.Shape.Cut.{IsCut, IsCut-branches}
use datareel.Btree.Search.Correct.{capacity}
use datareel.Btree.Insert.{insert_at_node, split_insert}
use datareel.Btree.Insert.Split.{IsSplit, split_insert-IsSplit, split_insert-left_child}
use datareel.Btree.Insert.Kept.{IsDivided}
use datareel.Btree.Insert.OneNode.{go_on, divided, split_run, differs, differs_unused, IsReady}

half_le : (o : ℕ) → 5 ≤ o → (o / 2 < o) × (0 < o / 2) × ((if ltb o 5 then 5 else o) ≡ o)
half_le o h = (omega arith, omega arith, ground arith)

module _ {K : Type 0} ⦃order : DatabaseKeyB K⦄ where
  pub stored_eq :
      (a b : ℕ) (es fs : List (Entry K))
      → a ≡ b
      → es ≡ fs
      → ◌≡◌ {A = StoredNode K}
          (record { left_child = a; key_entries = es })
          (record { left_child = b; key_entries = fs })
  stored_eq a b es fs e f = rw (e, f) refl

  -- The node, cut at the key that goes up.
  IsDivided-at :
      (u : GxBtree K) (height a : ℕ) (n : BtreeNode K) (s : ℕ) (key : Entry K) (l : Tree K)
      (bs : Branches K) (continue : Entry K → M K (Entry K)) (curr right : BtreeNode K)
      (middle : Entry K)
      → IsReady u height a n s key l bs
      → 5 ≤ u.btree_header.node_order
      → suc (length n.key_entries) ≡ u.btree_header.node_order
      → let hdr = u.btree_header in
        split_insert hdr.node_order n (new_node hdr.key_size hdr.node_order) key s
          ≡ some (curr, right, middle)
        → IsSplit hdr.node_order n.key_entries key s (curr, right, middle)
        → IsCut bs curr.key_entries middle right.key_entries
        → IsDivided
            (insert_at_node a n s key continue u)
            (go_on a continue)
            u
            (suc height)
            a
            (λ b. (if a == b then 1 else 0) + uses_in b (l, bs))
            1
            (ranks_in (l, bs))
            (Filled l × FilledBranches bs)
  unfolding is_full
  IsDivided-at u height a n s key l bs continue curr right middle is big full split halves cut =
      let hdr = u.btree_header in
      let nodes = u.file.nodes in
      let cap = capacity hdr in
      let r = is.block in
      let left_child =
        split_insert-left_child hdr.node_order n _ key s (curr, right, middle) split in
      let here : StoredNode K = record {
        left_child = curr.left_child;
        key_entries = curr.key_entries;
      } in
      let there : StoredNode K = record {
        left_child = middle.right_child;
        key_entries = right.key_entries;
      } in
      let nodes' = update (update nodes r there) a here in
      let here_same : here ≡ stored_node l cut.front =
        stored_eq _ _ _ _ (left_child ∙ is.left_child) (sym cut.front_entries) in
      let there_same : there ≡ stored_node cut.behind cut.back =
        stored_eq _ _ _ _ cut.behind_address (sym cut.back_entries) in
      let supply : (b : ℕ) → count b u.file.supply ≡ (if r == b then 1 else 0) + count b is.blocks =
        λ b. ap (count b) is.supply in
      let away : (b : ℕ) → a ≢ b → r ≢ b → nodes' b ≡ nodes b =
        λ b h h'. rw (ne→== a b h, ne→== r b h') refl in
      let used : (b : ℕ) → 0 < uses_in b (l, bs) → nodes' b ≡ nodes b = λ b h.
        away b (differs a b _ _ (is.distinct b) (omega arith)) (
          differs r b (count b is.blocks) (uses_in b (l, bs))
            (omega (arith, is.distinct b, supply b)) (omega arith)) in
      let taken : 0 < count r u.file.supply = ground (arith, supply r) in
      let other : a ≢ r = differs a r (uses_in r (l, bs)) _ (is.distinct r) (omega arith) in
      let (front, behind, back) = cut.stored_cut nodes cap height is.branches_stored in
      record {
        state = divided u a here r there is.blocks;
        left = node a l cut.front;
        middle = middle.db_key;
        right = node r cut.behind cut.back;
        runs =
            split_run u a n s key continue r is.blocks curr right middle is.open_file is.writable
              (ground (arith, is.node_order)) is.supply is.block_proper split;
        at_address = refl;
        holds_left = (
          is.proper,
          (rw (eq→== a a refl) (ap some here_same)),
          omega (arith, ap length cut.front_entries, halves.left_most, half_le hdr.node_order big),
          Stored-Agree nodes nodes' cap height l (λ b h. used b (omega arith)) is.left_stored,
          StoredBranches-Agree nodes nodes' cap height cut.front
              (λ b h. used b (omega (arith, cut.uses_cut b))) front,
        );
        holds_right = (
          is.block_proper,
          (rw (ne→== a r other, eq→== r r refl) (ap some there_same)),
          omega (arith, ap length cut.back_entries, halves.right_most, half_le hdr.node_order big),
          Stored-Agree nodes nodes' cap height cut.behind
              (λ b h. used b (omega (arith, cut.uses_cut b))) behind,
          StoredBranches-Agree nodes nodes' cap height cut.back
              (λ b h. used b (omega (arith, cut.uses_cut b))) back,
        );
        kept = record {
          same_order = refl;
          same_root = refl;
          open_file = is.open_file;
          writable = is.writable;
          balance = λ b. omega (arith, cut.uses_cut b, supply b);
          outside = λ b h.
              away b (differs_unused a b _ _ h)
                (differs_unused r b (count b is.blocks) 0 (omega (arith, supply b)));
          spare = omega (arith, ap length is.supply);
        };
        counted = refl;
        all_ranks =
            append_assoc (ranks l) (ranks_of cut.front) _
            ∙ ap (λ x. ranks l ++ x) (sym cut.ranks_cut);
        filled = λ f.
            let (x, y, z) = cut.filled_cut f.1 in
            (
              (omega (arith, ap length cut.front_entries, halves.left_least, big), f.0, x),
              (omega (arith, ap length cut.back_entries, halves.right_least, big), y, z),
            );
      }

  pub insert_at_node-IsDivided :
      (u : GxBtree K) (height a : ℕ) (n : BtreeNode K) (s : ℕ) (key : Entry K) (l : Tree K)
      (bs : Branches K) (continue : Entry K → M K (Entry K))
      → IsReady u height a n s key l bs
      → 5 ≤ u.btree_header.node_order
      → capacity u.btree_header ≤ length n.key_entries
      → IsDivided
          (insert_at_node a n s key continue u)
          (go_on a continue)
          u
          (suc height)
          a
          (λ b. (if a == b then 1 else 0) + uses_in b (l, bs))
          1
          (ranks_in (l, bs))
          (Filled l × FilledBranches bs)
  insert_at_node-IsDivided u height a n s key l bs continue is big full =
      let hdr = u.btree_header in
      let order : suc (length n.key_entries) ≡ hdr.node_order = ground (arith, is.fits) in
      let ((curr, right, middle), split, halves) =
        split_insert-IsSplit hdr.node_order n (new_node hdr.key_size hdr.node_order) key s big order
          is.inside in
      IsDivided-at u height a n s key l bs continue curr right middle is big order split halves (
        IsCut-branches bs curr.key_entries middle right.key_entries
          (sym is.entries ∙ sym halves.keeps))

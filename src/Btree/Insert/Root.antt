-- ===== src/Btree/Insert/Root.antt =====
-- The end of `InsertDatabaseKey` at the root: it took the key, or a new root is put above it.
use mathlib.Core.Path.{subst}
use datareel.Prelude.{
  ℕ, suc, ◌+◌, ◌-◌, ◌<◌, ◌≤◌, ◌≡◌, ◌≢◌, refl, sym, ap, ◌∙◌, true, false, some, List, ◌∷◌, ◌++◌,
  length, arith, ltb, ◌==◌, if◌then◌else◌, eq→==, ne→==, append-nil,
}
use datareel.Btree.Key.{DatabaseKeyB}
use datareel.Btree.Node.{Entry}
use datareel.Btree.State.{GxBtree, max_node_reads}
use datareel.Btree.Change.{Outcome, M, done}
use datareel.Btree.Change.Grow.{grown, grow_new_root-grown}
use datareel.Btree.Insert.Kept.{IsAbsorbed, IsDivided}
use datareel.Btree.Insert.OneNode.{go_on, differs}
use datareel.Btree.Insert.Halves.{stored_eq}
use datareel.Btree.Insert.Above.{first_block}
use datareel.Btree.Search.Correct.{capacity, IsTree}
use datareel.Btree.Shape.{Tree, node, end, key, address_of, Stored, ranks}
use datareel.Btree.Shape.Place.{Inserts, Inserts-IsAscending, Inserts-length}
use datareel.Btree.Shape.Filled.{Filled}
use datareel.Btree.Shape.Frame.{uses, count, Stored-Agree}

-- A file that can be written, whose nodes and blocks to come are distinct and are not at 0.
pub record IsSpacious {K : Type 0} (t : GxBtree K) (shape : Tree K) : Type 0 where
  pub writable : t.file.ready_for_writing ≡ true
  pub big : 5 ≤ t.btree_header.node_order
  pub distinct : (b : ℕ) → uses b shape + count b t.file.supply ≤ 1
  pub proper : uses 0 shape + count 0 t.file.supply ≡ 0

module _ {K : Type 0} ⦃order : DatabaseKeyB K⦄ where
  -- The run ends with a stored ordered tree that has the key in its place. Where every node held a
  -- key, every node does.
  pub record IsInserted (run : Outcome K (Entry K)) (t : GxBtree K) (height : ℕ) (shape : Tree K)
      (k : K) : Type 0 where
    pub value : Entry K
    pub state : GxBtree K
    pub new_height : ℕ
    pub new_shape : Tree K
    pub runs : run ≡ done value state
    pub tree : IsTree state new_height new_shape
    pub spacious : IsSpacious state new_shape
    pub key_added : Inserts (order.rank k) (ranks shape) (ranks new_shape)
    pub filled : Filled shape → Filled new_shape
    pub one_level : new_height ≤ suc height
    pub blocks : length t.file.supply ≤ suc height + length state.file.supply

  pub absorbed-IsInserted :
      (run : Outcome K (Entry K)) (t : GxBtree K) (height : ℕ) (shape : Tree K) (k : K)
      (rs : List ℕ)
      → IsTree t height shape
      → IsSpacious t shape
      → Inserts (order.rank k) (ranks shape) rs
      → IsAbsorbed run t height (address_of shape) (λ b. uses b shape) height rs (Filled shape)
      → IsInserted run t height shape k
  absorbed-IsInserted run t height shape k rs is space ins ab =
      let ins' = subst (λ z. Inserts (order.rank k) (ranks shape) z) (sym ab.all_ranks) ins in
      let cap_same : capacity t.btree_header ≡ capacity ab.state.btree_header =
        ap (λ o. (if ltb o 5 then 5 else o) - 1) (sym ab.kept.same_order) in
      record {
        value = ab.value;
        state = ab.state;
        new_height = height;
        new_shape = ab.shape;
        runs = ab.runs;
        tree = record {
          open_file = ab.kept.open_file;
          at_root = ab.kept.same_root ∙ is.at_root ∙ sym ab.at_address;
          bounded = is.bounded;
          stored = subst (λ n. Stored ab.state.file.nodes n height ab.shape) cap_same ab.holds;
          ordered = Inserts-IsAscending _ _ _ ins' is.ordered;
          counted = ab.counted ∙ ap suc is.counted ∙ sym (Inserts-length _ _ _ ins');
        };
        spacious = record {
          writable = ab.kept.writable;
          big = subst (λ o. 5 ≤ o) (sym ab.kept.same_order) space.big;
          distinct = λ b. omega (arith, space.distinct b, ab.kept.balance b);
          proper = omega (arith, space.proper, ab.kept.balance 0);
        };
        key_added = ins';
        filled = ab.filled;
        one_level = omega arith;
        blocks = omega (arith, ab.kept.spare);
      }

  -- The tree under a new root, with one more key.
  abbrev rooted : GxBtree K → Entry K → ℕ → List ℕ → GxBtree K
  rooted v up g rest =
      let w = grown v up g rest in
      record w {
        btree_header = record (w.btree_header) { n_keys = w.btree_header.n_keys + 1 };
        header_in_sync = false;
      }

  root_run :
      (v : GxBtree K) (a : ℕ) (continue : Entry K → M K (Entry K)) (up : Entry K) (g : ℕ)
      (rest : List ℕ)
      → a ≡ v.btree_header.root
      → v.file.supply ≡ g ∷ rest
      → v.connected ≡ true
      → v.file.ready_for_writing ≡ true
      → go_on a continue up v ≡ done up (rooted v up g rest)
  root_run v a continue up g rest root supply open_file ready =
      simp
        (
          eq→== a v.btree_header.root root,
          grow_new_root-grown v up (g ∷ rest) supply open_file ready,
        )
        refl

  pub divided-IsInserted :
      (run : Outcome K (Entry K)) (t : GxBtree K) (height : ℕ) (shape : Tree K) (k : K)
      (rs : List ℕ) (continue : Entry K → M K (Entry K))
      → IsTree t height shape
      → IsSpacious t shape
      → suc height ≤ max_node_reads
      → suc height ≤ length t.file.supply
      → Inserts (order.rank k) (ranks shape) rs
      → IsDivided run
          (go_on (address_of shape) continue)
          t
          height
          (address_of shape)
          (λ b. uses b shape)
          height
          rs
          (Filled shape)
      → IsInserted run t height shape k
  divided-IsInserted run t height shape k rs continue is space reads enough ins dv =
      let v = dv.state in
      let up : Entry K = record { right_child = address_of dv.right; db_key = dv.middle } in
      let (g, rest, supply) = first_block v.file.supply (omega (arith, dv.kept.spare)) in
      let top = node g dv.left (key dv.middle dv.right end) in
      let u = rooted v up g rest in
      let at_root : address_of dv.left ≡ v.btree_header.root =
        dv.at_address ∙ sym is.at_root ∙ sym dv.kept.same_root in
      let top_ranks : ranks top ≡ rs =
        ap (λ z. ranks dv.left ++ (order.rank dv.middle ∷ z)) (append-nil (ranks dv.right))
        ∙ dv.all_ranks in
      let ins' = subst (λ z. Inserts (order.rank k) (ranks shape) z) (sym top_ranks) ins in
      let cap_same : capacity t.btree_header ≡ capacity v.btree_header =
        ap (λ o. (if ltb o 5 then 5 else o) - 1) (sym dv.kept.same_order) in
      let blocks : (b : ℕ) → count b v.file.supply ≡ (if g == b then 1 else 0) + count b rest =
        λ b. ap (count b) supply in
      let none_zero : count 0 v.file.supply ≡ 0 = omega (arith, space.proper, dv.kept.balance 0) in
      let g_proper : g ≢ 0 = λ z. absurd (ground (arith, blocks 0)) in
      let away : (b : ℕ) → 0 < uses b dv.left + uses b dv.right → u.file.nodes b ≡ v.file.nodes b =
        λ b h.
          rw
            (ne→== g b (
              differs g b (count b rest) (uses b dv.left + uses b dv.right)
                (omega (arith, space.distinct b, dv.kept.balance b, blocks b)) (omega arith)))
            refl in
      let same_left =
        Stored-Agree v.file.nodes u.file.nodes (capacity t.btree_header) height dv.left
          (λ b h. away b (omega arith)) dv.holds_left in
      let same_right =
        Stored-Agree v.file.nodes u.file.nodes (capacity t.btree_header) height dv.right
          (λ b h. away b (omega arith)) dv.holds_right in
      record {
        value = up;
        state = u;
        new_height = suc height;
        new_shape = top;
        runs =
            dv.runs
            ∙ root_run v (address_of shape) continue up g rest
                (sym is.at_root ∙ sym dv.kept.same_root) supply dv.kept.open_file dv.kept.writable;
        tree = record {
          open_file = dv.kept.open_file;
          at_root = refl;
          bounded = reads;
          stored = (
            g_proper,
            (rw (eq→== g g refl) (ap some (stored_eq _ _ _ _ (sym at_root) refl))),
            ground (arith, ap (λ o. o) dv.kept.same_order, space.big),
            subst (λ n. Stored u.file.nodes n height dv.left) cap_same same_left,
            (subst (λ n. Stored u.file.nodes n height dv.right) cap_same same_right, tt),
          );
          ordered = Inserts-IsAscending _ _ _ ins' is.ordered;
          counted = omega (arith, dv.counted, is.counted, Inserts-length _ _ _ ins');
        };
        spacious = record {
          writable = dv.kept.writable;
          big = subst (λ o. 5 ≤ o) (sym dv.kept.same_order) space.big;
          distinct = λ b. omega (arith, space.distinct b, dv.kept.balance b, blocks b);
          proper = omega (arith, space.proper, dv.kept.balance 0, blocks 0);
        };
        key_added = ins';
        filled = λ f. let (x, y) = dv.filled f in (omega arith, x, (y, tt));
        one_level = omega arith;
        blocks = omega (arith, dv.kept.spare, ap length supply);
      }

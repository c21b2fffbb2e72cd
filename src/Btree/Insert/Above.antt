-- ===== src/Btree/Insert/Above.antt =====
-- A node above a part of the tree that `InsertDatabaseKey` changed: it stands as it was, or takes the
-- key that comes up from the part.
use mathlib.Core.Path.{subst}
use datareel.Prelude.{
  ℕ, suc, ◌+◌, ◌-◌, ◌≤◌, ◌<◌, ◌≡◌, refl, sym, ap, ◌∙◌, true, some, List, [], ◌∷◌, ◌++◌, length,
  arith, ltb, ◌==◌, if◌then◌else◌, Bool-cases, ltb→lt, ltb→le, ◌⊎◌, inl, inr,
}
use datareel.Btree.Key.{DatabaseKeyB}
use datareel.Btree.Node.{Entry}
use datareel.Btree.State.{GxBtree}
use datareel.Btree.Change.{Outcome, M}
use datareel.Btree.Shape.{
  Tree, Branches, node, address_of, entries_of, child_at, stored_node, Stored, StoredBranches,
  ranks,
}
use datareel.Btree.Shape.Place.{
  replace_at, split_at, address_of-replace_at, entries_of-replace_at, address_of-split_at,
  entries_of-split_at, before_at, after_at, ranks_in-replace_at, ranks_in-split_at,
}
use datareel.Btree.Shape.Filled.{
  Filled, FilledBranches, child_at-Filled, replace_at-Filled, split_at-Filled,
}
use datareel.Btree.Shape.Frame.{
  uses, uses_in, others, count, uses_in-child_at, uses_in-replace_at, uses_in-split_at,
  replace_at-Stored, split_at-Stored,
}
use datareel.Btree.Search.Correct.{capacity, node_of}
use datareel.Btree.Insert.{insert_at_node}
use datareel.Btree.Insert.Kept.{Kept, Kept-trans, Kept-beside, IsAbsorbed, IsDivided}
use datareel.Btree.Insert.OneNode.{go_on, IsReady, insert_at_node-IsAbsorbed}
use datareel.Btree.Insert.Halves.{stored_eq, insert_at_node-IsDivided}

-- A subtree in a file that can take a key in it: its nodes and the blocks to come are distinct, and
-- there are enough of these.
pub record IsRoomy {K : Type 0} (u : GxBtree K) (height a : ℕ) (l : Tree K) (bs : Branches K)
    : Type 0 where
  pub open_file : u.connected ≡ true
  pub writable : u.file.ready_for_writing ≡ true
  pub big : 5 ≤ u.btree_header.node_order
  pub stored : Stored u.file.nodes (capacity u.btree_header) (suc height) (node a l bs)
  pub distinct : (b : ℕ) → uses b (node a l bs) + count b u.file.supply ≤ 1
  pub proper : uses 0 (node a l bs) + count 0 u.file.supply ≡ 0
  pub enough : suc height ≤ length u.file.supply

pub first_block : (xs : List ℕ) → 0 < length xs → (x : ℕ) × (rest : List ℕ) × (xs ≡ x ∷ rest)
first_block [] h = absurd (omega arith)
first_block (x ∷ rest) h = (x, rest, refl)

module _ {K : Type 0} ⦃order : DatabaseKeyB K⦄ (u : GxBtree K) (height a : ℕ) (l : Tree K)
    (bs : Branches K) (s : ℕ) (room : IsRoomy u height a l bs)
    (inside : s ≤ length (entries_of bs)) where
  -- The node is not among the nodes that a change of the subtree may touch.
  pub not_below :
      (child : Tree K) → child_at l bs s ≡ child → uses a child + count a u.file.supply ≡ 0
  not_below child e = ground (arith, room.distinct a, uses_in-child_at a l bs s, ap (uses a) e)

  not_others :
      (child : Tree K) (b : ℕ)
      → child_at l bs s ≡ child
      → 0 < others b l bs s
      → uses b child + count b u.file.supply ≡ 0
  not_others child b e h = omega (arith, room.distinct b, uses_in-child_at b l bs s, ap (uses b) e)

  child-Filled : (child : Tree K) → child_at l bs s ≡ child → Filled (node a l bs) → Filled child
  child-Filled child e f = subst (λ c. Filled c) e (child_at-Filled l bs s f.1 f.2)

  -- The part took the key.
  pub above-IsAbsorbed :
      (run : Outcome K (Entry K)) (child : Tree K) (rs : List ℕ)
      → child_at l bs s ≡ child
      → IsAbsorbed run u height (address_of child) (λ b. uses b child) height rs (Filled child)
      → IsAbsorbed run u
          (suc height)
          a
          (λ b. uses b (node a l bs))
          (suc height)
          (before_at l bs s ++ (rs ++ after_at bs s))
          (Filled (node a l bs))
  above-IsAbsorbed run child rs e ab =
      let same_address : address_of ab.shape ≡ address_of (child_at l bs s) =
        ab.at_address ∙ ap address_of (sym e) in
      let parts = replace_at l bs s ab.shape in
      let cap = capacity u.btree_header in
      let entries = entries_of-replace_at l bs s ab.shape same_address in
      let below =
        replace_at-Stored u.file.nodes ab.state.file.nodes cap height l bs s ab.shape inside
          (λ b h. ab.kept.outside b (not_others child b e h)) room.stored.3 room.stored.4
          ab.holds in
      record {
        value = ab.value;
        state = ab.state;
        shape = node a parts.0 parts.1;
        runs = ab.runs;
        at_address = refl;
        holds = (
          room.stored.0,
          ab.kept.outside a (not_below child e)
              ∙ room.stored.1
              ∙ ap some (
                  stored_eq _ _ _ _ (sym (address_of-replace_at l bs s ab.shape same_address))
                    (sym entries)),
          omega (arith, ap length entries, room.stored.2),
          below.0,
          below.1,
        );
        kept =
            Kept-beside (λ b. uses b child) (λ b. uses b ab.shape) _ _
              (λ b. (if a == b then 1 else 0) + others b l bs s) height (suc height) u ab.state
              (λ b. omega (arith, uses_in-child_at b l bs s, ap (uses b) e))
              (λ b. omega (arith, uses_in-replace_at b l bs s ab.shape inside)) (omega arith)
              ab.kept;
        counted = ab.counted;
        all_ranks =
            ranks_in-replace_at l bs s ab.shape inside
            ∙ ap (λ r. before_at l bs s ++ (r ++ after_at bs s)) ab.all_ranks;
        filled = λ f.
            let (x, y) =
              replace_at-Filled l bs s ab.shape f.1 f.2 (ab.filled (child-Filled child e f)) in
            (omega (arith, ap length entries, f.0), x, y);
      }

  -- The node with a key of the part and the trees around it, in the file that the change of the
  -- part left.
  pub above-IsReady :
      (v : GxBtree K) (child c : Tree K) (m : K) (d : Tree K)
      → child_at l bs s ≡ child
      → address_of c ≡ address_of child
      → Stored v.file.nodes (capacity u.btree_header) height c
      → Stored v.file.nodes (capacity u.btree_header) height d
      → Kept (λ b. uses b child) (λ b. uses b c + uses b d) height u v
      → let parts = split_at l bs s c m d in
        IsReady v height a
          (node_of v.btree_header a (stored_node l bs))
          s
          (record { right_child = address_of d; db_key = m })
          parts.0
          parts.1
  above-IsReady v child c m d e at sc sd kept =
      let same_address : address_of c ≡ address_of (child_at l bs s) = at ∙ ap address_of (sym e) in
      let (block, blocks, supply) =
        first_block v.file.supply (omega (arith, kept.spare, room.enough)) in
      let cap = capacity u.btree_header in
      let cap_same : cap ≡ capacity v.btree_header =
        ap (λ o. (if ltb o 5 then 5 else o) - 1) (sym kept.same_order) in
      let below =
        split_at-Stored u.file.nodes v.file.nodes cap height l bs s c m d inside
          (λ b h. kept.outside b (not_others child b e h)) room.stored.3 room.stored.4 sc sd in
      let none_zero : count 0 v.file.supply ≡ 0 =
        omega (arith, room.proper, kept.balance 0, uses_in-child_at 0 l bs s, ap (uses 0) e) in
      record {
        node_order = refl;
        left_child = sym (address_of-split_at l bs s c m d same_address);
        entries = sym (entries_of-split_at l bs s c m d inside same_address);
        inside = inside;
        fits = subst (λ n. length (entries_of bs) ≤ n) cap_same room.stored.2;
        open_file = kept.open_file;
        writable = kept.writable;
        proper = room.stored.0;
        blocks = blocks;
        block = block;
        supply = supply;
        block_proper = λ z. absurd (ground (arith, none_zero, ap (count 0) supply));
        distinct = λ b. omega (
          arith,
          room.distinct b,
          kept.balance b,
          uses_in-child_at b l bs s,
          ap (uses b) e,
          uses_in-split_at b l bs s c m d inside,
        );
        left_stored =
            subst (λ n. Stored v.file.nodes n height (split_at l bs s c m d).0) cap_same below.0;
        branches_stored =
            subst (λ n. StoredBranches v.file.nodes n height (split_at l bs s c m d).1) cap_same
              below.1;
      }

  -- What becomes of the node: it ends the run, or goes up itself.
  abbrev pub Outcomes : Outcome K (Entry K) → (Entry K → M K (Entry K)) → List ℕ → Type 0
  Outcomes run continue rs =
      IsAbsorbed run u (suc height) a (λ b. uses b (node a l bs)) (suc height) rs
        (Filled (node a l bs))
      ⊎ IsDivided run (go_on a continue) u (suc height) a (λ b. uses b (node a l bs)) (suc height)
          rs (Filled (node a l bs))

  pub above-Outcomes :
      (v : GxBtree K) (child c : Tree K) (m : K) (d : Tree K) (continue : Entry K → M K (Entry K))
      → child_at l bs s ≡ child
      → address_of c ≡ address_of child
      → Stored v.file.nodes (capacity u.btree_header) height c
      → Stored v.file.nodes (capacity u.btree_header) height d
      → Kept (λ b. uses b child) (λ b. uses b c + uses b d) height u v
      → v.btree_header.n_keys ≡ u.btree_header.n_keys
      → (Filled child → Filled c × Filled d)
      → Outcomes
          (insert_at_node a
            (node_of v.btree_header a (stored_node l bs))
            s
            (record { right_child = address_of d; db_key = m })
            continue
            v)
          continue
          (before_at l bs s ++ ((ranks c ++ (order.rank m ∷ ranks d)) ++ after_at bs s))
  above-Outcomes v child c m d continue e at sc sd kept keys fill =
      let parts_filled : Filled (node a l bs)
          → Filled (split_at l bs s c m d).0 × FilledBranches (split_at l bs s c m d).1 =
        λ f.
          let (x, y) = fill (child-Filled child e f) in split_at-Filled l bs s c m d f.1 f.2 x y in
      let n = node_of v.btree_header a (stored_node l bs) in
      let up : Entry K = record { right_child = address_of d; db_key = m } in
      let parts = split_at l bs s c m d in
      let ready = above-IsReady v child c m d e at sc sd kept in
      let cap_same : capacity v.btree_header ≡ capacity u.btree_header =
        ap (λ o. (if ltb o 5 then 5 else o) - 1) kept.same_order in
      let rest : ℕ → ℕ = λ b. (if a == b then 1 else 0) + others b l bs s in
      let all_kept : Kept (λ b. uses b (node a l bs))
          (λ b. (if a == b then 1 else 0) + uses_in b parts) height u v =
        Kept-beside (λ b. uses b child) (λ b. uses b c + uses b d) _ _ rest height height u v
          (λ b. omega (arith, uses_in-child_at b l bs s, ap (uses b) e))
          (λ b. omega (arith, uses_in-split_at b l bs s c m d inside)) (omega arith) kept in
      let ranks_same = ranks_in-split_at l bs s c m d inside in
      elim (Bool-cases (ltb (length (entries_of bs)) (capacity v.btree_header))) [
        | inl fits ↦
            let ab =
              insert_at_node-IsAbsorbed v height a n s up parts.0 parts.1 continue ready
                (ltb→lt _ _ fits) in
            inl (record {
              value = ab.value;
              state = ab.state;
              shape = ab.shape;
              runs = ab.runs;
              at_address = ab.at_address;
              holds =
                  subst (λ c. Stored ab.state.file.nodes c (suc height) ab.shape) cap_same ab.holds;
              kept =
                  Kept-trans _ _ _ height 0 (suc height) u v ab.state (omega arith) all_kept
                    ab.kept;
              counted = ab.counted ∙ ap suc keys;
              all_ranks = ab.all_ranks ∙ ranks_same;
              filled = λ f. ab.filled (parts_filled f);
            })
        | inr full ↦
            let dv =
              insert_at_node-IsDivided v height a n s up parts.0 parts.1 continue ready
                (subst (λ o. 5 ≤ o) (sym kept.same_order) room.big) (ltb→le _ _ full) in
            inr (record {
              state = dv.state;
              left = dv.left;
              middle = dv.middle;
              right = dv.right;
              runs = dv.runs;
              at_address = dv.at_address;
              holds_left =
                  subst (λ c. Stored dv.state.file.nodes c (suc height) dv.left) cap_same
                    dv.holds_left;
              holds_right =
                  subst (λ c. Stored dv.state.file.nodes c (suc height) dv.right) cap_same
                    dv.holds_right;
              kept =
                  Kept-trans _ _ _ height 1 (suc height) u v dv.state (omega arith) all_kept
                    dv.kept;
              counted = dv.counted ∙ keys;
              all_ranks = dv.all_ranks ∙ ranks_same;
              filled = λ f. dv.filled (parts_filled f);
            })
      ]

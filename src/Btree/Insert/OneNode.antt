-- ===== src/Btree/Insert/OneNode.antt =====
-- One node of the way up of `InsertDatabaseKey`: the key is added, or the node is split around it.
use datareel.Prelude.{
  ℕ, suc, ◌+◌, ◌≤◌, ◌<◌, ◌≡◌, ◌≢◌, refl, ap, true, false, some, List, ◌∷◌, length, arith, ◌==◌,
  if◌then◌else◌, insert_at, length-insert_at, eq→==, ne→==,
}
use datareel.Btree.Key.{DatabaseKeyB}
use datareel.Btree.Node.{Entry, BtreeNode, new_node, is_full, insert_key}
use datareel.Btree.State.{StoredNode, GxBtree, update}
use datareel.Btree.Change.{M, done, ◌>>◌, pure, with_header, grow_new_root, alloc, write_node}
use datareel.Btree.Shape.{
  Tree, Branches, node, address_of, entries_of, stored_node, Stored, StoredBranches,
}
use datareel.Btree.Shape.Place.{ranks_in}
use datareel.Btree.Shape.Filled.{Filled, FilledBranches}
use datareel.Btree.Shape.Frame.{uses_in, count, Stored-Agree, StoredBranches-Agree}
use datareel.Btree.Search.Correct.{capacity}
use datareel.Btree.Insert.{insert_at_node, split_insert}
use datareel.Btree.Insert.Kept.{IsAbsorbed}

module _ {K : Type 0} where
  -- Up from a node that was split: a new root above the root, or on to the parent.
  abbrev pub go_on : ℕ → (Entry K → M K (Entry K)) → Entry K → M K (Entry K)
  go_on a continue up u =
      if a == u.btree_header.root
      then (do grow_new_root up; with_header (λ h. record h { n_keys = h.n_keys + 1 }); pure up) u
      else continue up u

  -- The tree with the node of the address written, and one more key.
  abbrev added : GxBtree K → ℕ → StoredNode K → GxBtree K
  added u a s = record u {
    btree_header = record (u.btree_header) { n_keys = u.btree_header.n_keys + 1 };
    header_in_sync = false;
    file = record (u.file) { nodes = update u.file.nodes a s };
  }

  -- The tree with a second node in a new block.
  abbrev pub divided : GxBtree K → ℕ → StoredNode K → ℕ → StoredNode K → List ℕ → GxBtree K
  divided u a s r s' rest = record u {
    btree_header = record (u.btree_header) { n_nodes = u.btree_header.n_nodes + 1 };
    header_in_sync = false;
    file = record (u.file) { nodes = update (update u.file.nodes r s') a s; supply = rest };
  }

  add_run :
      (u : GxBtree K) (a : ℕ) (n : BtreeNode K) (s : ℕ) (key : Entry K)
      (continue : Entry K → M K (Entry K))
      → u.connected ≡ true
      → u.file.ready_for_writing ≡ true
      → is_full n ≡ false
      → insert_at_node a n s key continue u
        ≡ done key (
            added u a
              (record { left_child = n.left_child; key_entries = insert_at n.key_entries s key }))
  unfolding insert_at_node write_node insert_key
  add_run u a n s key continue open_file ready room = simp (room, open_file, ready) refl

  pub split_run :
      (u : GxBtree K) (a : ℕ) (n : BtreeNode K) (s : ℕ) (key : Entry K)
      (continue : Entry K → M K (Entry K)) (r : ℕ) (rest : List ℕ) (curr right : BtreeNode K)
      (middle : Entry K)
      → u.connected ≡ true
      → u.file.ready_for_writing ≡ true
      → is_full n ≡ true
      → u.file.supply ≡ r ∷ rest
      → r ≢ 0
      → let hdr = u.btree_header in
        split_insert hdr.node_order n (new_node hdr.key_size hdr.node_order) key s
          ≡ some (curr, right, middle)
        → insert_at_node a n s key continue u
          ≡ go_on a continue
              (record middle { right_child = r })
              (divided u a
                (record { left_child = curr.left_child; key_entries = curr.key_entries })
                r
                (record { left_child = middle.right_child; key_entries = right.key_entries })
                rest)
  unfolding insert_at_node write_node alloc
  split_run u a n s key continue r rest curr right middle open_file ready full blocks ne split =
      simp (full, open_file, ready, blocks, ne→== r 0 ne, split) refl

-- An address that is used elsewhere, or not at all, is another one.
pub differs : (a b x y : ℕ) → (if a == b then 1 else 0) + x + y ≤ 1 → 0 < x + y → a ≢ b
differs a b x y h pos e = absurd (ground arith)

pub differs_unused : (a b x y : ℕ) → (if a == b then 1 else 0) + x + y ≡ 0 → a ≢ b
differs_unused a b x y h e = absurd (ground arith)

-- What the node holds with the new key and the tree to its right, in the file as it is.
pub record IsReady {K : Type 0} (u : GxBtree K) (height a : ℕ) (n : BtreeNode K) (s : ℕ)
    (key : Entry K) (l : Tree K) (bs : Branches K) : Type 0 where
  pub node_order : n.node_order ≡ capacity u.btree_header
  pub left_child : n.left_child ≡ address_of l
  pub entries : insert_at n.key_entries s key ≡ entries_of bs
  pub inside : s ≤ length n.key_entries
  pub fits : length n.key_entries ≤ capacity u.btree_header
  pub open_file : u.connected ≡ true
  pub writable : u.file.ready_for_writing ≡ true
  pub proper : a ≢ 0
  pub blocks : List ℕ
  pub block : ℕ
  pub supply : u.file.supply ≡ block ∷ blocks
  pub block_proper : block ≢ 0
  pub distinct : (b : ℕ) → (if a == b then 1 else 0) + uses_in b (l, bs) + count b u.file.supply ≤ 1
  pub left_stored : Stored u.file.nodes (capacity u.btree_header) height l
  pub branches_stored : StoredBranches u.file.nodes (capacity u.btree_header) height bs

module _ {K : Type 0} ⦃order : DatabaseKeyB K⦄ where
  pub insert_at_node-IsAbsorbed :
      (u : GxBtree K) (height a : ℕ) (n : BtreeNode K) (s : ℕ) (key : Entry K) (l : Tree K)
      (bs : Branches K) (continue : Entry K → M K (Entry K))
      → IsReady u height a n s key l bs
      → length n.key_entries < capacity u.btree_header
      → IsAbsorbed
          (insert_at_node a n s key continue u)
          u
          (suc height)
          a
          (λ b. (if a == b then 1 else 0) + uses_in b (l, bs))
          0
          (ranks_in (l, bs))
          (Filled l × FilledBranches bs)
  unfolding is_full
  insert_at_node-IsAbsorbed u height a n s key l bs continue is room =
      let nodes = u.file.nodes in
      let stored : StoredNode K = record {
        left_child = n.left_child;
        key_entries = insert_at n.key_entries s key;
      } in
      let nodes' = update nodes a stored in
      let cap = capacity u.btree_header in
      let away : (b : ℕ) → a ≢ b → nodes' b ≡ nodes b = λ b h. rw (ne→== a b h) refl in
      let same : stored ≡ stored_node l bs = rw (is.left_child, is.entries) refl in
      record {
        value = key;
        state = added u a stored;
        shape = node a l bs;
        runs =
            add_run u a n s key continue is.open_file is.writable (ground (arith, is.node_order));
        at_address = refl;
        holds = (
          is.proper,
          (rw (eq→== a a refl, same) refl),
          omega (arith, length-insert_at n.key_entries s key, ap length is.entries),
          Stored-Agree nodes nodes' cap height l
              (λ b h. away b (differs a b _ _ (is.distinct b) (omega arith))) is.left_stored,
          StoredBranches-Agree nodes nodes' cap height bs
              (λ b h. away b (differs a b _ _ (is.distinct b) (omega arith))) is.branches_stored,
        );
        kept = record {
          same_order = refl;
          same_root = refl;
          open_file = is.open_file;
          writable = is.writable;
          balance = λ b. refl;
          outside = λ b h. away b (differs_unused a b _ _ h);
          spare = omega arith;
        };
        counted = omega arith;
        all_ranks = refl;
        filled = λ f.
            (omega (arith, length-insert_at n.key_entries s key, ap length is.entries), f.0, f.1);
      }

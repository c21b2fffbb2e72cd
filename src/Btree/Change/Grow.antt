-- ===== src/Btree/Change/Grow.antt =====
-- `GrowNewRoot`: the root that it writes, with or without a block for it.
use datareel.Prelude.{ℕ, ◌+◌, ◌≡◌, refl, true, false, some, List, [], ◌∷◌, eq→==}
use datareel.Btree.Node.{Entry, new_node, insert_key}
use datareel.Btree.State.{GxBtree, update}
use datareel.Prelude.{drop}
use datareel.Btree.Change.{done, grow_new_root, alloc, write_node}

-- The address that the next call of `Alloc` returns.
abbrev pub next_address : List ℕ → ℕ
next_address [] = 0
next_address (a ∷ rest) = a

-- What `GrowNewRoot` leaves: the new root at the address, with the rest of the addresses to come.
abbrev pub grown : {K : Type 0} → GxBtree K → Entry K → ℕ → List ℕ → GxBtree K
grown t key address rest = record {
  btree_header = record (t.btree_header) {
    n_nodes = t.btree_header.n_nodes + 1;
    btree_height = t.btree_header.btree_height + 1;
    root = address;
  };
  header_in_sync = false;
  connected = t.connected;
  file = record (t.file) {
    nodes =
        update t.file.nodes address
          (record { left_child = t.btree_header.root; key_entries = key ∷ [] });
    supply = rest;
  };
}

module _ {K : Type 0} where
  pub grow_new_root-grown :
      (t : GxBtree K) (key : Entry K) (supply : List ℕ)
      → t.file.supply ≡ supply
      → t.connected ≡ true
      → t.file.ready_for_writing ≡ true
      → grow_new_root key t ≡ done tt (grown t key (next_address supply) (drop 1 supply))
  unfolding grow_new_root alloc write_node new_node insert_key
  grow_new_root-grown t key [] e open_file ready = simp (open_file, ready, e) refl
  grow_new_root-grown t key (a ∷ rest) e open_file ready = simp (open_file, ready, e) refl

  -- On an open file that is ready for writing, `GrowNewRoot` succeeds, whether `Alloc` gives a
  -- block or fails: the root of the tree is then the address that `Alloc` returned, 0 where it
  -- failed, the height is one more, and what stands at that address is a node of the key alone, to
  -- the right of the old root.
  pub grow_new_root-root :
      (t : GxBtree K) (key : Entry K)
      → t.connected ≡ true
      → t.file.ready_for_writing ≡ true
      → let address = next_address t.file.supply in
        (u : GxBtree K) × (grow_new_root key t ≡ done tt u)
        × (u.btree_header.root ≡ address)
        × (u.btree_header.btree_height ≡ t.btree_header.btree_height + 1)
        × (u.file.nodes address
            ≡ some (record { left_child = t.btree_header.root; key_entries = key ∷ [] }))
  grow_new_root-root t key open_file ready =
      let address = next_address t.file.supply in
      (
        grown t key address (drop 1 t.file.supply),
        grow_new_root-grown t key t.file.supply refl open_file ready,
        refl,
        refl,
        rw (eq→== address address refl) refl,
      )

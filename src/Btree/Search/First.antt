-- ===== src/Btree/Search/First.antt =====
-- `FindFirst` and `FindLast` on a stored tree whose nodes on the way hold keys.
use datareel.Prelude.{
  ℕ, zero, suc, ◌≤◌, ◌≡◌, ◌≢◌, refl, ap, ◌∙◌, false, arith, List, ◌∷◌, ◌++◌, length, ne→==,
}
use datareel.Btree.Key.{DatabaseKeyB}
use datareel.Btree.Node.{BtreeNode, Entry, load_key, is_empty}
use datareel.Prelude.{Option}
use datareel.Btree.State.{StoredNode, NodeFile, GxBtreeHeader, GxBtree, ok, max_node_reads}
use datareel.Btree.Search.Ends.{Hit, load_hit, left_most, find_first}
use datareel.Btree.Shape.{
  Tree, Branches, leaf, node, end, key, address_of, entries_of, stored_node, Stored, ranks,
  ranks_of,
}
use datareel.Btree.Search.Correct.{capacity, node_of, read_node_stored, IsTree}

module _ {K : Type 0} where
  -- The last node on the way down the left children, and whether it holds a key.
  abbrev pub LeftFilled : Tree K → Type 0
  LeftFilled leaf = Unit
  LeftFilled (node a leaf end) = ⊥
  LeftFilled (node a leaf (key k t bs)) = Unit
  LeftFilled (node a (node b l cs) bs) = LeftFilled (node b l cs)

  pub address_pos :
      (nodes : ℕ → Option (StoredNode K)) (most height a : ℕ) (l : Tree K) (bs : Branches K)
      → Stored nodes most height (node a l bs)
      → a ≢ 0
  address_pos nodes most zero a l bs st = elim st [ ]
  address_pos nodes most (suc height) a l bs st = st.0

  pub not_empty :
      (n : BtreeNode K) (e : Entry K) (es : List (Entry K))
      → n.key_entries ≡ e ∷ es
      → is_empty n ≡ false
  unfolding is_empty
  not_empty n e es h = rw h (ground arith)

module _ {K : Type 0} ⦃order : DatabaseKeyB K⦄ where
  -- A node whose first entry has the first rank of the list.
  pub record IsFirst (n : BtreeNode K) (list : List ℕ) : Type 0 where
    pub entry : Entry K
    pub entries : List (Entry K)
    pub others : List ℕ
    pub is_leaf : n.left_child ≡ 0
    pub has_entry : n.key_entries ≡ entry ∷ entries
    pub is_least : list ≡ order.rank entry.db_key ∷ others

  pub left_most-IsFirst :
      (hdr : GxBtreeHeader) (file : NodeFile K) (left height a : ℕ) (l : Tree K) (bs : Branches K)
      → height ≤ left
      → Stored file.nodes (capacity hdr) height (node a l bs)
      → LeftFilled (node a l bs)
      → (n : BtreeNode K) × (left' : ℕ) × (left_most hdr file left a ≡ ok (n, left'))
        × IsFirst n (ranks (node a l bs))
  unfolding left_most
  left_most-IsFirst hdr file left zero a l bs h st filled = elim st [ ]
  left_most-IsFirst hdr file zero (suc height) a l bs h st filled = absurd (omega arith)
  left_most-IsFirst hdr file (suc left) (suc height) a leaf end h st filled = elim filled [ ]
  left_most-IsFirst hdr file (suc left) (suc height) a leaf (key k t bs) h st filled = (
    node_of hdr a (stored_node leaf (key k t bs)),
    left,
    rw (read_node_stored hdr file a (stored_node leaf (key k t bs)) st.1 st.2) refl,
    record {
      entry = record { right_child = address_of t; db_key = k };
      entries = entries_of bs;
      others = ranks t ++ ranks_of bs;
      is_leaf = refl;
      has_entry = refl;
      is_least = refl;
    },
  )
  left_most-IsFirst hdr file (suc left) (suc height) a (node b l cs) bs h st filled =
      let (n, left', walk, first) =
        left_most-IsFirst hdr file left height b l cs (omega arith) st.3 filled in
      (
        n,
        left',
        rw
            (
              read_node_stored hdr file a (stored_node (node b l cs) bs) st.1 st.2,
              ne→== b 0 (address_pos file.nodes (capacity hdr) height b l cs st.3),
            )
            walk,
        record {
          entry = first.entry;
          entries = first.entries;
          others = first.others ++ ranks_of bs;
          is_leaf = first.is_leaf;
          has_entry = first.has_entry;
          is_least = ap (λ r. r ++ ranks_of bs) first.is_least;
        },
      )

  -- On an open file that stores a B-tree of ordered keys, whose left most leaf holds a key,
  -- `FindFirst` ends within its reads and loads the key with the least rank of the tree.
  pub find_first-least :
      (t : GxBtree K) (height a : ℕ) (l : Tree K) (bs : Branches K)
      → IsTree t height (node a l bs)
      → LeftFilled (node a l bs)
      → (hit : Hit K) × (others : List ℕ) × (find_first t ≡ ok hit)
        × (ranks (node a l bs) ≡ order.rank hit.0.db_key ∷ others)
  unfolding find_first load_hit load_key
  find_first-least t height a l bs is filled =
      let (n, left', walk, first) =
        left_most-IsFirst t.btree_header t.file max_node_reads height a l bs is.bounded is.stored
          filled in
      let walk' : left_most t.btree_header t.file max_node_reads t.btree_header.root
          ≡ ok (n, left') =
        ap (λ r. left_most t.btree_header t.file max_node_reads r) is.at_root ∙ walk in
      let some_keys : t.btree_header.n_keys ≢ 0 =
        λ e. absurd (omega (arith, e, is.counted, ap length first.is_least)) in
      (
        (first.entry, n),
        first.others,
        simp
            (
              is.open_file,
              ne→== t.btree_header.n_keys 0 some_keys,
              walk',
              not_empty n first.entry first.entries first.has_entry,
              first.has_entry,
            )
            refl,
        first.is_least,
      )

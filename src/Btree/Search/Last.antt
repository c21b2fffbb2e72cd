-- ===== src/Btree/Search/Last.antt =====
-- `FindLast` on a stored tree that has no node without keys.
use mathlib.Core.Path.{subst}
use datareel.Prelude.{
  ℕ, zero, suc, ◌-◌, ◌≤◌, ◌<◌, ◌≡◌, ◌≢◌, refl, sym, ap, ◌∙◌, arith, some, List, [], ◌∷◌, ◌++◌,
  length, get_elem?, ne→==, append-nil, append_assoc, length-append, false,
}
use datareel.Btree.Key.{DatabaseKeyB}
use datareel.Btree.Node.{BtreeNode, Entry, key_count, load_key, is_empty}
use datareel.Btree.State.{NodeFile, GxBtreeHeader, GxBtree, ok, max_node_reads}
use datareel.Btree.Search.Ends.{Hit, load_hit, right_most, find_last}
use datareel.Btree.Shape.{
  Tree, Branches, leaf, node, end, key, address_of, entries_of, child_at, stored_node, Stored,
  ranks, ranks_of,
}
use datareel.Btree.Shape.Lookup.{get_branch-child_at, child_at-Stored}
use datareel.Btree.Search.Correct.{capacity, node_of, read_node_stored, IsTree}
use datareel.Btree.Search.First.{address_pos}
use datareel.Btree.Shape.Filled.{Filled, child_at-Filled}

module _ {K : Type 0} ⦃order : DatabaseKeyB K⦄ where
  -- The last key of a node, and the tree behind it.
  ranks-last :
      (l : Tree K) (bs : Branches K)
      → 0 < length (entries_of bs)
      → let n = length (entries_of bs) in
        (e : Entry K) × (before : List ℕ) × (get_elem? (entries_of bs) (n - 1) ≡ some e)
        × (ranks l ++ ranks_of bs ≡ before ++ (order.rank e.db_key ∷ ranks (child_at l bs n)))
  ranks-last l end h = absurd (omega arith)
  ranks-last l (key k t end) h =
      (record { right_child = address_of t; db_key = k }, ranks l, refl, rw append-nil refl)
  ranks-last l (key k t (key j u bs)) h =
      let (e, before, at, same) = ranks-last t (key j u bs) (omega arith) in
      let n = length (entries_of bs) in
      let index : suc (suc n) - 1 ≡ suc (suc n - 1) = omega arith in
      (
        e,
        ranks l ++ (order.rank k ∷ before),
        ap (λ i. get_elem? (entries_of (key k t (key j u bs))) i) index ∙ at,
        ap (λ r. ranks l ++ (order.rank k ∷ r)) same
            ∙ sym (append_assoc (ranks l) (order.rank k ∷ before) _),
      )

  -- A node without a tree behind its last key, whose last entry has the last rank of the list.
  pub record IsLast (n : BtreeNode K) (list : List ℕ) : Type 0 where
    pub entry : Entry K
    pub before : List ℕ
    pub not_empty : 0 < key_count n
    pub has_entry : get_elem? n.key_entries (key_count n - 1) ≡ some entry
    pub is_greatest : list ≡ before ++ (order.rank entry.db_key ∷ [])

  -- One node of the way, at the tree behind its last key.
  right_most_at :
      (hdr : GxBtreeHeader) (file : NodeFile K) (left height a : ℕ) (l : Tree K) (bs : Branches K)
      (child : Tree K)
      → child_at l bs (length (entries_of bs)) ≡ child
      → suc height ≤ suc left
      → Stored file.nodes (capacity hdr) (suc height) (node a l bs)
      → Filled (node a l bs)
      → ((b : ℕ) (l' : Tree K) (bs' : Branches K)
          → Stored file.nodes (capacity hdr) height (node b l' bs')
          → Filled (node b l' bs')
          → (n : BtreeNode K) × (left' : ℕ) × (right_most hdr file left b ≡ ok (n, left'))
            × IsLast n (ranks (node b l' bs')))
      → (n : BtreeNode K) × (left' : ℕ) × (right_most hdr file (suc left) a ≡ ok (n, left'))
        × IsLast n (ranks (node a l bs))
  unfolding right_most
  right_most_at hdr file left height a l bs leaf is h st filled ih =
      let n = length (entries_of bs) in
      let here = node_of hdr a (stored_node l bs) in
      let branch = get_branch-child_at here l bs n refl refl (omega arith) in
      let (e, before, at, same) = ranks-last l bs filled.0 in
      (
        here,
        left,
        rw (read_node_stored hdr file a (stored_node l bs) st.1 st.2, branch, is) refl,
        record {
          entry = e;
          before = before;
          not_empty = filled.0;
          has_entry = at;
          is_greatest = same ∙ ap (λ c. before ++ (order.rank e.db_key ∷ ranks c)) is;
        },
      )
  right_most_at hdr file left height a l bs (node b l' bs') is h st filled ih =
      let n = length (entries_of bs) in
      let here = node_of hdr a (stored_node l bs) in
      let branch = get_branch-child_at here l bs n refl refl (omega arith) in
      let stored =
        subst (λ c. Stored file.nodes (capacity hdr) height c) is
          (child_at-Stored file.nodes (capacity hdr) height l bs n (omega arith) st.3 st.4) in
      let full = subst (λ c. Filled c) is (child_at-Filled l bs n filled.1 filled.2) in
      let (e, before, at, same) = ranks-last l bs filled.0 in
      let (m, left', walk, last) = ih b l' bs' stored full in
      (
        m,
        left',
        rw
            (
              read_node_stored hdr file a (stored_node l bs) st.1 st.2,
              branch,
              is,
              ne→== b 0 (address_pos file.nodes (capacity hdr) height b l' bs' stored),
            )
            walk,
        record {
          entry = last.entry;
          before = before ++ (order.rank e.db_key ∷ last.before);
          not_empty = last.not_empty;
          has_entry = last.has_entry;
          is_greatest =
              same
              ∙ ap (λ c. before ++ (order.rank e.db_key ∷ ranks c)) is
              ∙ ap (λ r. before ++ (order.rank e.db_key ∷ r)) last.is_greatest
              ∙ sym (append_assoc before (order.rank e.db_key ∷ last.before) _);
        },
      )

  right_most-IsLast :
      (hdr : GxBtreeHeader) (file : NodeFile K) (left height a : ℕ) (l : Tree K) (bs : Branches K)
      → height ≤ left
      → Stored file.nodes (capacity hdr) height (node a l bs)
      → Filled (node a l bs)
      → (n : BtreeNode K) × (left' : ℕ) × (right_most hdr file left a ≡ ok (n, left'))
        × IsLast n (ranks (node a l bs))
  unfolding right_most
  right_most-IsLast hdr file left zero a l bs h st filled = elim st [ ]
  right_most-IsLast hdr file zero (suc height) a l bs h st filled = absurd (omega arith)
  right_most-IsLast hdr file (suc left) (suc height) a l bs h st filled =
      let n = length (entries_of bs) in
      right_most_at hdr file left height a l bs (child_at l bs n) refl h st filled
        (λ b l' bs' st' full'.
          right_most-IsLast hdr file left height b l' bs' (omega arith) st' full')

  not_empty_lem : (n : BtreeNode K) → 0 < key_count n → is_empty n ≡ false
  unfolding is_empty
  not_empty_lem n h = ground arith

  -- On an open file that stores a B-tree of ordered keys, each of whose nodes holds a key,
  -- `FindLast` ends within its reads and loads the key with the greatest rank of the tree.
  pub find_last-greatest :
      (t : GxBtree K) (height a : ℕ) (l : Tree K) (bs : Branches K)
      → IsTree t height (node a l bs)
      → Filled (node a l bs)
      → (hit : Hit K) × (before : List ℕ) × (find_last t ≡ ok hit)
        × (ranks (node a l bs) ≡ before ++ (order.rank hit.0.db_key ∷ []))
  unfolding find_last load_hit load_key
  find_last-greatest t height a l bs is filled =
      let (n, left', walk, last) =
        right_most-IsLast t.btree_header t.file max_node_reads height a l bs is.bounded is.stored
          filled in
      let walk' : right_most t.btree_header t.file max_node_reads t.btree_header.root
          ≡ ok (n, left') =
        ap (λ r. right_most t.btree_header t.file max_node_reads r) is.at_root ∙ walk in
      let count = is.counted ∙ ap length last.is_greatest ∙ length-append last.before _ in
      let some_keys : t.btree_header.n_keys ≢ 0 = λ e. absurd (omega (arith, e, count)) in
      (
        (last.entry, n),
        last.before,
        simp
            (
              ne→== t.btree_header.n_keys 0 some_keys,
              walk',
              not_empty_lem n last.not_empty,
              last.has_entry,
            )
            refl,
        last.is_greatest,
      )

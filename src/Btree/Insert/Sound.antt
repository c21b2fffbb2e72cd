-- ===== src/Btree/Insert/Sound.antt =====
-- `InsertDatabaseKey` of a key that a stored tree does not hold, with the splits on the way up and the
-- new root.
use mathlib.Core.Path.{subst}
use datareel.Prelude.{
  ℕ, zero, suc, ◌*◌, ◌≤◌, ◌≡◌, refl, sym, true, false, List, [], length, arith, ◌==◌, inl, inr, has,
  ◌||◌,
}
use datareel.Btree.Key.{DatabaseKeyB}
use datareel.Btree.Node.{Entry, BtreeNode, new_node, key_count}
use datareel.Btree.State.{GxBtree, Result, max_node_reads}
use datareel.Btree.Change.{Outcome, done, and_then, lift}
use datareel.Btree.Insert.{insert_database_key, insert_up, insert_walk}
use datareel.Btree.Insert.Above.{IsRoomy}
use datareel.Btree.Insert.Walk.{at_leaf, run_from}
use datareel.Btree.Insert.Below.{Below, insert_walk-Below}
use datareel.Btree.Search.Correct.{IsTree, Finds, find-Finds}
use datareel.Btree.Search.Find.{find}
use datareel.Btree.Shape.{Tree, Branches, node, ranks}
use datareel.Btree.Shape.Place.{has-Inserts}
use datareel.Btree.Shape.Frame.{uses_in}
use datareel.Btree.Insert.Root.{IsSpacious, IsInserted, absorbed-IsInserted, divided-IsInserted}

module _ {K : Type 0} ⦃order : DatabaseKeyB K⦄ where
  insert_run :
      (t : GxBtree K) (k : K) (r : Result (BtreeNode K × ℕ × List ℕ × ℕ))
      → t.connected ≡ true
      → let hdr = t.btree_header in
        insert_walk hdr t.file max_node_reads hdr.root (new_node hdr.key_size hdr.node_order) 0 [] k
          ≡ r
        → insert_database_key k t ≡ and_then (lift r t) (at_leaf k)
  unfolding insert_database_key
  insert_run t k r open_file walk = simp (open_file, walk) refl

  Below-IsInserted :
      (run : Outcome K (Entry K)) (t : GxBtree K) (height : ℕ) (shape : Tree K) (k : K) (left : ℕ)
      → IsTree t height shape
      → IsSpacious t shape
      → suc height ≤ max_node_reads
      → suc height ≤ length t.file.supply
      → Below run t height shape k [] left
      → IsInserted run t height shape k
  Below-IsInserted run t height shape k left is space reads enough (rs, ins, inl ab) =
      absorbed-IsInserted run t height shape k rs is space ins ab
  Below-IsInserted run t height shape k left is space reads enough (rs, ins, inr (left', le, dv)) =
      divided-IsInserted run t height shape k rs (insert_up [] left') is space reads enough ins dv

  -- On an open file that is ready for writing and stores a B-tree of ordered keys of order 5 or
  -- more, whose nodes and blocks to come have distinct addresses other than 0, with a block to
  -- come for each level and for a new root, and at least twice as many reads allowed as there are
  -- levels: `InsertDatabaseKey` of a key whose rank the tree does not hold succeeds. It leaves a
  -- stored B-tree of ordered keys, with the rank of the key in its place among those that were
  -- there and no other change of the ranks, a count of keys that is one more, at most one level
  -- more, again distinct addresses, and a key in every node if every node held one.
  pub insert_database_key-IsInserted :
      (t : GxBtree K) (height a : ℕ) (l : Tree K) (bs : Branches K) (k : K)
      → IsTree t height (node a l bs)
      → IsSpacious t (node a l bs)
      → 2 * height ≤ max_node_reads
      → suc height ≤ length t.file.supply
      → has (order.rank k) (ranks (node a l bs)) ≡ false
      → IsInserted (insert_database_key k t) t height (node a l bs) k
  insert_database_key-IsInserted t zero a l bs k is space reads enough absent = elim is.stored [ ]
  insert_database_key-IsInserted t (suc height) a l bs k is space reads enough absent =
      let hdr = t.btree_header in
      let walk =
        insert_walk hdr t.file max_node_reads hdr.root (new_node hdr.key_size hdr.node_order) 0 []
          k in
      let room : IsRoomy t height a l bs = record {
        open_file = is.open_file;
        writable = space.writable;
        big = space.big;
        stored = is.stored;
        distinct = space.distinct;
        proper = space.proper;
        enough = omega (arith, enough);
      } in
      let inner : uses_in hdr.root (l, bs) ≡ 0 = ground (arith, space.distinct a, is.at_root) in
      let below : Below (and_then (lift walk t) (at_leaf k)) t (suc height) (node a l bs) k []
          max_node_reads =
        subst
          (λ r.
            Below (run_from max_node_reads r (new_node hdr.key_size hdr.node_order) 0 [] k t) t
              (suc height) (node a l bs) k [] max_node_reads)
          (sym is.at_root)
          (insert_walk-Below t max_node_reads height a l bs k _ 0 [] room is.ordered absent inner
            (omega (arith, reads))) in
      subst (λ run. IsInserted run t (suc height) (node a l bs) k)
        (sym (insert_run t k walk is.open_file refl))
        (Below-IsInserted _ t (suc height) (node a l bs) k max_node_reads is space
          (omega (arith, reads)) enough below)

  -- Under the same conditions `Find` with a current node that has no keys, after `InsertDatabaseKey`
  -- of a key, loads a key of the rank of the one that it is given if that is the rank of the new key
  -- or the tree held it before, and otherwise reports that there is no such entry.
  pub find-insert_database_key :
      (t : GxBtree K) (height a : ℕ) (l : Tree K) (bs : Branches K) (k j : K)
      (curr_node : BtreeNode K)
      → IsTree t height (node a l bs)
      → IsSpacious t (node a l bs)
      → 2 * height ≤ max_node_reads
      → suc height ≤ length t.file.supply
      → has (order.rank k) (ranks (node a l bs)) ≡ false
      → key_count curr_node ≡ 0
      → (value : Entry K) × (u : GxBtree K) × (insert_database_key k t ≡ done value u)
        × Finds j
            (order.rank j == order.rank k || has (order.rank j) (ranks (node a l bs)))
            (find u curr_node j)
  find-insert_database_key t height a l bs k j curr_node is space reads enough absent empty =
      let new = insert_database_key-IsInserted t height a l bs k is space reads enough absent in
      (
        new.value,
        new.state,
        new.runs,
        subst (λ b. Finds j b (find new.state curr_node j))
            (has-Inserts (order.rank k) (order.rank j) _ _ new.key_added)
            (find-Finds new.state new.new_height new.new_shape curr_node j new.tree empty),
      )

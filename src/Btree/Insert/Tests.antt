-- ===== src/Btree/Insert/Tests.antt =====
-- Runs of `InsertDatabaseKey` on a stored tree of two levels whose first leaf is full.
use datareel.Prelude.{ℕ, ◌≡◌, ◌==◌, refl, true, if◌then◌else◌, some, none, [], ◌∷◌, arith}
use datareel.Btree.Key.{number_key}
use datareel.Btree.Node.{Entry, new_node, key_count}
use datareel.Btree.State.{GxBtree}
use datareel.Btree.Change.{done}
use datareel.Btree.Shape.{Tree, Branches, leaf, node, key, end, stored_node}
use datareel.Btree.Search.Correct.{IsTree, Finds}
use datareel.Btree.Search.Find.{find}
use datareel.Btree.Insert.{insert_database_key}
use datareel.Btree.Insert.Root.{IsSpacious, IsInserted}
use datareel.Btree.Insert.Sound.{insert_database_key-IsInserted, find-insert_database_key}

abbrev first_leaf : Tree ℕ
first_leaf = node 2 leaf (key 10 leaf (key 20 leaf (key 30 leaf (key 40 leaf end))))

abbrev branches : Branches ℕ
branches = key 50 (node 3 leaf (key 60 leaf (key 70 leaf end))) end

abbrev tree : GxBtree ℕ
tree = record {
  btree_header = record {
    node_order = 5;
    key_size = 8;
    n_keys = 7;
    n_nodes = 3;
    btree_height = 2;
    root = 1;
  };
  header_in_sync = true;
  connected = true;
  file = record {
    nodes = λ a.
        if a == 1
        then some (stored_node first_leaf branches)
        else if a == 2
        then some (stored_node leaf (key 10 leaf (key 20 leaf (key 30 leaf (key 40 leaf end)))))
        else if a == 3
        then some (stored_node leaf (key 60 leaf (key 70 leaf end)))
        else none;
    supply = 7 ∷ 8 ∷ 9 ∷ [];
    ready_for_writing = true;
  };
}

tree-IsTree : IsTree tree 2 (node 1 first_leaf branches)
tree-IsTree = record {
  open_file = refl;
  at_root = refl;
  bounded = omega arith;
  stored = (
    omega arith,
    refl,
    omega arith,
    (omega arith, refl, omega arith, refl, (refl, (refl, (refl, (refl, tt))))),
    ((omega arith, refl, omega arith, refl, (refl, (refl, tt))), tt),
  );
  ordered = (
    (omega arith, (omega arith, (omega arith, (omega arith, (omega arith, (omega arith, tt)))))),
    (
      (omega arith, (omega arith, (omega arith, (omega arith, (omega arith, tt))))),
      (
        (omega arith, (omega arith, (omega arith, (omega arith, tt)))),
        (
          (omega arith, (omega arith, (omega arith, tt))),
          ((omega arith, (omega arith, tt)), ((omega arith, tt), (tt, tt))),
        ),
      ),
    ),
  );
  counted = refl;
}

tree-IsSpacious : IsSpacious tree (node 1 first_leaf branches)
tree-IsSpacious = record {
  writable = refl;
  big = omega arith;
  distinct = λ b. ground arith;
  proper = refl;
}

empty_node : key_count (new_node {K = ℕ} 8 5) ≡ 0
unfolding new_node
empty_node = refl

insert_database_key-IsInserted_example :
    IsInserted (insert_database_key 25 tree) tree 2 (node 1 first_leaf branches) 25
insert_database_key-IsInserted_example =
    insert_database_key-IsInserted tree 2 1 first_leaf branches 25 tree-IsTree tree-IsSpacious
      (omega arith) (omega arith) refl

find-insert_database_key_example :
    (value : Entry ℕ) × (u : GxBtree ℕ) × (insert_database_key 25 tree ≡ done value u)
    × Finds 25 true (find u (new_node 8 5) 25)
find-insert_database_key_example =
    find-insert_database_key tree 2 1 first_leaf branches 25 25 (new_node 8 5) tree-IsTree
      tree-IsSpacious (omega arith) (omega arith) refl empty_node

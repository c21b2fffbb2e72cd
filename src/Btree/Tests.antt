-- ===== src/Btree/Tests.antt =====
-- Runs of the B-tree on numbers, by evaluation.
use datareel.Prelude.{inr, ℕ, zero, suc, ◌≡◌, refl, true, Option, none, some, List, [], ◌∷◌}
use datareel.Btree.Key.{number_key}
use datareel.Btree.Node.{Entry, BtreeNode, new_node, is_full, find_from}
use datareel.Btree.State.{Result, GxBtree}
use datareel.Btree.Search.Ends.{Hit, find_first, find_last}
use datareel.Btree.Search.Find.{find, find_next, next_walk}
use datareel.Btree.Search.Prev.{find_prev, prev_walk}
use datareel.Btree.Change.{done, grow_new_root}
use datareel.Btree.State.{read_node}
use datareel.Btree.Node.{
  find_key_location, insert_key, compare_entry, get_branch, has_few, has_many, overwrite_key,
  is_empty, append_key, delete_key, load_key, merge_node, split_node,
}
use datareel.Btree.Change.{write_node, alloc, collapse_root, collapse, remove}
use datareel.Btree.Balance.{
  insert_balance, insert_right_rotation, merge, balance_after, insert_left_rotation,
}
use datareel.Prelude.{◌==◌, if◌then◌else◌, arith}
use datareel.Btree.Node.{key_count}
use datareel.Btree.Search.Correct.{node_of, IsTree, Finds, find-Finds}
use datareel.Btree.Shape.{Tree, leaf, node, key, end, stored_node}
use datareel.Btree.Insert.{split_insert}
use datareel.Btree.Node.Binary.{binary_key_location, binary_key_location-find_key_location}
use datareel.Btree.Search.After.{Next}
use datareel.Btree.Search.Current.{find_next-Next}
use datareel.Btree.Search.First.{find_first-least}
use datareel.Btree.Change.Grow.{grow_new_root-root}
use datareel.Btree.State.{ok}
use datareel.Btree.Shape.{ranks}
use datareel.Prelude.{◌++◌}
use datareel.Btree.State.{entry_not_found, duplicate_entry}
use datareel.Btree.Change.{failed}
use datareel.Btree.Insert.Duplicate.{insert_database_key-duplicate}
use datareel.Btree.Delete.Absent.{delete_database_key-absent}
use datareel.Btree.Search.Last.{find_last-greatest}
use datareel.Btree.Insert.Split.{IsSplit, split_insert-IsSplit}
use datareel.Btree.Delete.{delete_database_key}
use datareel.Btree.Insert.{insert_database_key}

-- A new tree of order 5 with its empty root at 1, as `InitBtree` makes it.
abbrev new_tree : List ℕ → GxBtree ℕ
new_tree supply = record {
  btree_header = record {
    node_order = 5;
    key_size = 8;
    n_keys = 0;
    n_nodes = 1;
    btree_height = 1;
    root = 1;
  };
  header_in_sync = true;
  connected = true;
  file = record {
    nodes = λ a. elim a [
      | zero ↦ none
      | suc n ↦ elim n [ zero ↦ some (record { left_child = 0; key_entries = [] }) | _ ↦ none ]
    ];
    supply = supply;
    ready_for_writing = true;
  };
}

insert_all : List ℕ → GxBtree ℕ → Option (GxBtree ℕ)
insert_all [] t = some t
insert_all (k ∷ ks) t = elim (insert_database_key k t) [ done _ u ↦ insert_all ks u | _ ↦ none ]

walk_forward : ℕ → GxBtree ℕ → Result (Hit ℕ) → List ℕ
walk_forward zero t r = []
walk_forward (suc n) t (Result.ok (e, here)) =
    e.db_key ∷ walk_forward n t (find_next t here e.db_key)
walk_forward (suc n) t _ = []

walk_back : ℕ → GxBtree ℕ → Result (Hit ℕ) → List ℕ
walk_back zero t r = []
walk_back (suc n) t (Result.ok (e, here)) = e.db_key ∷ walk_back n t (find_prev t here e.db_key)
walk_back (suc n) t _ = []

listing : Option (GxBtree ℕ) → List ℕ
unfolding find_first find_next next_walk walk_forward
listing none = []
listing (some t) = walk_forward 30 t (find_first t)

back : Option (GxBtree ℕ) → List ℕ
unfolding find_last find_prev prev_walk walk_back
back none = []
back (some t) = walk_back 30 t (find_last t)

abbrev few : List ℕ
few = 50 ∷ 20 ∷ 90 ∷ 10 ∷ 70 ∷ 30 ∷ []

abbrev supply : List ℕ
supply = 2 ∷ 3 ∷ 4 ∷ 5 ∷ 6 ∷ 7 ∷ 8 ∷ 9 ∷ 10 ∷ 11 ∷ 12 ∷ 13 ∷ []

delete_all : List ℕ → GxBtree ℕ → Option (GxBtree ℕ)
delete_all [] t = some t
delete_all (k ∷ ks) t = elim (delete_database_key k t) [ done _ u ↦ delete_all ks u | _ ↦ none ]

delete_from : List ℕ → Option (GxBtree ℕ) → Option (GxBtree ℕ)
unfolding delete_database_key delete_all
delete_from ks none = none
delete_from ks (some t) = delete_all ks t

program : Unit {0}
unfolding insert_database_key insert_all delete_from listing back read_node find_key_location
    is_full write_node insert_key compare_entry get_branch alloc split_insert grow_new_root has_few
    has_many collapse_root overwrite_key is_empty insert_balance insert_right_rotation merge
    balance_after insert_left_rotation collapse remove append_key delete_key find_from load_key
    merge_node new_node split_node
program = tt

-- The keys of a tree, listed from the first and from the last, are those inserted.
insert_all-listing : listing (insert_all few (new_tree supply)) ≡ 10 ∷ 20 ∷ 30 ∷ 50 ∷ 70 ∷ 90 ∷ []
unfolding program
insert_all-listing = refl

insert_all-back : back (insert_all few (new_tree supply)) ≡ 90 ∷ 70 ∷ 50 ∷ 30 ∷ 20 ∷ 10 ∷ []
unfolding program
insert_all-back = refl

delete_from-listing :
    listing (delete_from (50 ∷ 20 ∷ 90 ∷ []) (insert_all few (new_tree supply))) ≡ 10 ∷ 30 ∷ 70 ∷ []
unfolding program
delete_from-listing = refl

-- A stored tree of two levels.
abbrev two_levels : Tree ℕ
two_levels =
    node 1 (node 2 leaf (key 10 leaf (key 20 leaf end)))
      (key 30 (node 3 leaf (key 40 leaf (key 50 leaf end))) end)

abbrev stored_tree : GxBtree ℕ
stored_tree = record {
  btree_header = record {
    node_order = 5;
    key_size = 8;
    n_keys = 5;
    n_nodes = 3;
    btree_height = 2;
    root = 1;
  };
  header_in_sync = true;
  connected = true;
  file = record {
    nodes = λ a.
        if a == 1
        then some (
            stored_node (node 2 leaf (key 10 leaf (key 20 leaf end)))
              (key 30 (node 3 leaf end) end))
        else if a == 2
        then some (stored_node leaf (key 10 leaf (key 20 leaf end)))
        else if a == 3
        then some (stored_node leaf (key 40 leaf (key 50 leaf end)))
        else none;
    supply = [];
    ready_for_writing = true;
  };
}

stored_tree-IsTree : IsTree stored_tree 2 two_levels
stored_tree-IsTree = record {
  open_file = refl;
  at_root = refl;
  bounded = omega arith;
  stored = (
    omega arith,
    refl,
    omega arith,
    (omega arith, refl, omega arith, refl, (refl, (refl, tt))),
    ((omega arith, refl, omega arith, refl, (refl, (refl, tt))), tt),
  );
  ordered = (
    (omega arith, (omega arith, (omega arith, (omega arith, tt)))),
    (
      (omega arith, (omega arith, (omega arith, tt))),
      ((omega arith, (omega arith, tt)), ((omega arith, tt), (tt, tt))),
    ),
  );
  counted = refl;
}

empty_node : key_count (new_node {K = ℕ} 8 5) ≡ 0
unfolding new_node
empty_node = refl

find-Finds_example : Finds 40 true (find stored_tree (new_node 8 5) 40)
find-Finds_example =
    find-Finds stored_tree 2 two_levels (new_node 8 5) 40 stored_tree-IsTree empty_node

abbrev entry : ℕ → Entry ℕ
entry k = record { right_child = 0; db_key = k }

abbrev full_node : BtreeNode ℕ
full_node = record {
  node_order = 4;
  key_size = 8;
  node_address = 1;
  left_child = 0;
  key_entries = entry 10 ∷ entry 20 ∷ entry 30 ∷ entry 40 ∷ [];
}

split_insert-IsSplit_example :
    (r : BtreeNode ℕ × BtreeNode ℕ × Entry ℕ) × (split_insert 5 full_node full_node (entry 15) 1
      ≡ some r)
    × IsSplit 5 full_node.key_entries (entry 15) 1 r
split_insert-IsSplit_example =
    split_insert-IsSplit 5 full_node full_node (entry 15) 1 (omega arith) refl (omega arith)

binary_key_location-find_key_location_example :
    binary_key_location full_node 30 ≡ some (find_key_location full_node 30)
binary_key_location-find_key_location_example = binary_key_location-find_key_location full_node 30 (
  (omega arith, (omega arith, (omega arith, tt))),
  ((omega arith, (omega arith, tt)), ((omega arith, tt), (tt, tt))),
)

find_first-least_example :
    (hit : Hit ℕ) × (others : List ℕ) × (find_first stored_tree ≡ ok hit)
    × (ranks two_levels ≡ hit.0.db_key ∷ others)
find_first-least_example =
    find_first-least stored_tree 2 1 (node 2 leaf (key 10 leaf (key 20 leaf end)))
      (key 30 (node 3 leaf (key 40 leaf (key 50 leaf end))) end) stored_tree-IsTree tt

-- `stored_tree` has no more addresses to come.
grow_new_root-root_example :
    (u : GxBtree ℕ) × (grow_new_root (entry 35) stored_tree ≡ done tt u)
    × (u.btree_header.root ≡ 0)
    × (u.btree_header.btree_height ≡ 3)
    × (u.file.nodes 0 ≡ some (record { left_child = 1; key_entries = entry 35 ∷ [] }))
grow_new_root-root_example = grow_new_root-root stored_tree (entry 35) refl refl

insert_database_key-duplicate_example :
    insert_database_key 40 stored_tree ≡ failed duplicate_entry stored_tree
insert_database_key-duplicate_example =
    insert_database_key-duplicate stored_tree 2 two_levels 40 stored_tree-IsTree refl

delete_database_key-absent_example :
    delete_database_key 45 stored_tree ≡ failed entry_not_found stored_tree
delete_database_key-absent_example =
    delete_database_key-absent stored_tree 2 two_levels 45 stored_tree-IsTree refl

find_last-greatest_example :
    (hit : Hit ℕ) × (before : List ℕ) × (find_last stored_tree ≡ ok hit)
    × (ranks two_levels ≡ before ++ (hit.0.db_key ∷ []))
find_last-greatest_example =
    find_last-greatest stored_tree 2 1 (node 2 leaf (key 10 leaf (key 20 leaf end)))
      (key 30 (node 3 leaf (key 40 leaf (key 50 leaf end))) end) stored_tree-IsTree
      (omega arith, (omega arith, tt, (tt, (tt, tt))), ((omega arith, tt, (tt, (tt, tt))), tt))

-- The first leaf is the current node, and 20 its last key, so the walk from the root is needed.
abbrev first_leaf : BtreeNode ℕ
first_leaf = node_of (stored_tree.btree_header) 2 (stored_node leaf (key 10 leaf (key 20 leaf end)))

find_next-Next_example : Next 20 (ranks two_levels) none (find_next stored_tree first_leaf 20)
find_next-Next_example =
    find_next-Next stored_tree 2 two_levels first_leaf 20 stored_tree-IsTree
      (omega arith, (omega arith, tt, (tt, (tt, tt))), ((omega arith, tt, (tt, (tt, tt))), tt))
      (omega arith)
      (inr (0 ∷ [], 2, leaf, key 10 leaf (key 20 leaf end), (omega arith, refl), refl)) refl

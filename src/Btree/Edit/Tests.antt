-- ===== src/Btree/Edit/Tests.antt =====
-- Runs of `ChangeKey` and `FastDelete` on a tree of two levels with one key in its root.
use datareel.Prelude.{
  ℕ, ◌≡◌, ◌==◌, refl, Bool, true, false, if◌then◌else◌, some, none, Option, [], ◌∷◌,
}
use datareel.Btree.Key.{number_key}
use datareel.Btree.Node.{
  Entry, new_node, find_from, find_key_location, compare_entry, get_branch, is_empty, load_key,
  delete_key, overwrite_key,
}
use datareel.Btree.State.{GxBtree, Result, read_node}
use datareel.Btree.Change.{Outcome, done, write_node, collapse_root, collapse, remove}
use datareel.Btree.Search.Find.{find, find_walk}
use datareel.Btree.Edit.{
  change_key, overwrite, fast_delete_database_key, take_first, delete_branch, remove_siblings,
  remove_sibling,
}

abbrev entry : ℕ → ℕ → Entry ℕ
entry right k = record { right_child = right; db_key = k }

abbrev tree : GxBtree ℕ
tree = record {
  btree_header = record {
    node_order = 5;
    key_size = 8;
    n_keys = 4;
    n_nodes = 3;
    btree_height = 2;
    root = 1;
  };
  header_in_sync = true;
  connected = true;
  file = record {
    nodes = λ a.
        if a == 1
        then some (record { left_child = 2; key_entries = entry 3 50 ∷ [] })
        else if a == 2
        then some (record { left_child = 0; key_entries = entry 0 10 ∷ [] })
        else if a == 3
        then some (record { left_child = 0; key_entries = entry 0 60 ∷ entry 0 70 ∷ [] })
        else none;
    supply = [];
    ready_for_writing = true;
  };
}

-- Whether `Find` finds a key after a change.
finds : {A : Type 0} → ℕ → Outcome ℕ A → Option Bool
finds k (done a t) = elim (find t (new_node 8 5) k) [ Result.ok hit ↦ some true | _ ↦ some false ]
finds k _ = none

program : Unit {0}
unfolding change_key overwrite fast_delete_database_key take_first delete_branch remove_siblings
    remove_sibling finds find find_walk read_node find_key_location find_from compare_entry
    get_branch is_empty load_key delete_key overwrite_key write_node collapse_root collapse remove
    new_node
program = tt

-- A key of a leaf is changed in place.
change_key-leaf : finds 70 (change_key 70 (entry 0 70) tree) ≡ some true
unfolding program
change_key-leaf = refl

-- The new key's own `right_child`, 0 in a key that was just made, overwrites the branch of the entry:
-- what stood below it is found no more.
change_key-lost : finds 60 (change_key 50 (entry 0 50) tree) ≡ some false
unfolding program
change_key-lost = refl

change_key-kept : finds 60 (change_key 50 (entry 3 50) tree) ≡ some true
unfolding program
change_key-kept = refl

fast_delete_database_key-gone : finds 50 (fast_delete_database_key 50 tree) ≡ some false
unfolding program
fast_delete_database_key-gone = refl

fast_delete_database_key-moved : finds 60 (fast_delete_database_key 50 tree) ≡ some true
unfolding program
fast_delete_database_key-moved = refl

fast_delete_database_key-leaf : finds 70 (fast_delete_database_key 60 tree) ≡ some true
unfolding program
fast_delete_database_key-leaf = refl

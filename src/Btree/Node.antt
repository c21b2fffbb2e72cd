-- ===== src/Btree/Node.antt =====
-- BtreeNode (include/btnode.h, src/btnode.cpp): the keys of one node in their order, each with the
-- address of the child to its right. The byte buffer `key_entries` is the list of the entries in
-- use, so `key_count` is its length; the bytes past the last entry are not modelled. A
-- `BtreeKeyLocation_t` that may be -1 is a `Location` where `FindKeyLocation` returns it, and
-- elsewhere a number.
pub mod Binary
use datareel.Prelude.{
  ◌^◌, ℕ, zero, suc, ◌+◌, ◌-◌, ◌*◌, ◌/◌, Bool, Option, none, some, List, [], ◌∷◌, ◌++◌, ltb, leb,
  if◌then◌else◌, length, get_elem?, set, take, drop, insert_at, remove_at,
}
use datareel.Btree.Key.{DatabaseKeyB}

-- A key with the `right_child` that the base class adds to it.
pub record Entry (K : Type 0) : Type 0 where
  pub right_child : ℕ
  pub db_key : K

pub record BtreeNode (K : Type 0) : Type 0 where
  pub node_order : ℕ
  pub key_size : ℕ
  pub node_address : ℕ
  pub left_child : ℕ
  pub key_entries : List (Entry K)

-- The result of `FindKeyLocation` and the `key_location` that goes with it: 0 at a location that
-- holds the key, 1 with the last location that holds a smaller key, or -1 with location -1.
pub data Location : Type 0 where
  equal : ℕ → Location
  greater : ℕ → Location
  less : Location

-- `key_location + 1`: the insertion point, and the number of a branch counted from the left child.
abbrev pub slot : Location → ℕ
slot less = 0
slot (equal i) = suc i
slot (greater i) = suc i

abbrev pub shift : Location → Location → Location
shift less first = first
shift (equal i) first = equal (suc i)
shift (greater i) first = greater (suc i)

module _ {K : Type 0} where
  -- `BtreeNode(dbkey_size, order)`: at least 5, and one key less than the order.
  unfoldable pub new_node : ℕ → ℕ → BtreeNode K
  new_node dbkey_size order = record {
    node_order = (if ltb order 5 then 5 else order) - 1;
    key_size = dbkey_size;
    node_address = 2 ^ 64 - 1;
    left_child = 0;
    key_entries = [];
  }

  abbrev pub key_count : BtreeNode K → ℕ
  key_count n = length n.key_entries

  unfoldable pub is_empty : BtreeNode K → Bool
  is_empty n = leb (key_count n) 0

  unfoldable pub is_full : BtreeNode K → Bool
  is_full n = leb n.node_order (key_count n)

  unfoldable pub has_few : BtreeNode K → Bool
  has_few n = ltb (key_count n) (n.node_order / 2)

  unfoldable pub has_many : BtreeNode K → Bool
  has_many n = ltb (n.node_order / 2) (key_count n)

  abbrev pub right_child_of : Option (Entry K) → Option ℕ
  right_child_of none = none
  right_child_of (some e) = some e.right_child

  -- `GetBranch(slot - 1)`; `none` is a read past the keys in use.
  unfoldable pub get_branch : BtreeNode K → ℕ → Option ℕ
  get_branch n zero = some n.left_child
  get_branch n (suc i) = right_child_of (get_elem? n.key_entries i)

  unfoldable pub load_key : BtreeNode K → ℕ → Option (Entry K)
  load_key n i = get_elem? n.key_entries i

  -- This node, and the node that takes the keys from the location on.
  unfoldable pub split_node : BtreeNode K → BtreeNode K → ℕ → BtreeNode K × BtreeNode K
  split_node this node split_location = (
    record this { key_entries = take split_location this.key_entries },
    record node { key_entries = drop split_location this.key_entries },
  )

  unfoldable pub insert_key : BtreeNode K → Entry K → ℕ → BtreeNode K
  insert_key n key i = record n { key_entries = insert_at n.key_entries i key }

  unfoldable pub append_key : BtreeNode K → Entry K → BtreeNode K
  unfolding insert_key
  append_key n key = insert_key n key (key_count n)

  unfoldable pub overwrite_key : BtreeNode K → Entry K → ℕ → BtreeNode K
  overwrite_key n key i = record n { key_entries = set n.key_entries i key }

  unfoldable pub merge_node : BtreeNode K → BtreeNode K → BtreeNode K
  merge_node this node = record this { key_entries = this.key_entries ++ node.key_entries }

  unfoldable pub delete_key : BtreeNode K → ℕ → BtreeNode K
  delete_key n i = record n { key_entries = remove_at n.key_entries i }

  -- `key_count` has four bytes, and `left_child` eight.
  unfoldable pub size_of_node : BtreeNode K → ℕ
  size_of_node n = n.key_size * n.node_order + 4 + 8

-- The loop of `FindKeyLocation` runs from the last entry down to the first, so an entry is compared
-- once those after it have all compared greater than the key.
module _ {K : Type 0} ⦃order : DatabaseKeyB K⦄ where
  unfoldable pub compare_entry : K → Entry K → Location
  compare_entry key e =
      if order.gt key e.db_key then greater 0 else if order.eq key e.db_key then equal 0 else less

  unfoldable pub find_from : K → List (Entry K) → Location
  find_from key [] = less
  find_from key (e ∷ es) = shift (find_from key es) (compare_entry key e)

  unfoldable pub find_key_location : BtreeNode K → K → Location
  unfolding find_from
  find_key_location n key = find_from key n.key_entries

-- ===== src/Btree/State.antt =====
-- What the B-tree keeps: its header (include/gxbtree.h), and its view of the database file. The
-- file holds one node for each block that `gxDatabase::Alloc` gave out, read and written by
-- `ReadNode` and `WriteNode`; `supply` lists the addresses that the coming calls of `Alloc` return,
-- and is empty when `Alloc` fails. `gxDatabase` itself is modelled in Database; `supply` stands for
-- its calls here.
use datareel.Prelude.{ℕ, Bool, Option, none, some, List, ltb, ◌==◌, if◌then◌else◌}
use datareel.Btree.Node.{Entry, BtreeNode, new_node, key_count}

-- The codes of `gxDatabaseError` that these parts report.
pub data GxDatabaseError : Type 0 where
  badblock_error block_alloc_error duplicate_entry entry_not_found : GxDatabaseError
  file_not_writeable file_read_error file_write_error insertion_error null_ptr : GxDatabaseError

-- A search ends with a value, with 0 and an error code, with 0 and the old error code (`unset`), with
-- a code that is not 0 and no key loaded (`stale`), or reads memory that holds no key (`fault`).
pub data Result {ℓ} (A : Type ℓ) : Type ℓ where
  ok : A → Result A
  err : GxDatabaseError → Result A
  unset : Result A
  stale : Result A
  fault : Result A

infixl 5 ◌>>=◌
abbrev pub ◌>>=◌ {ℓ κ} : {A : Type ℓ} {B : Type κ} → Result A → (A → Result B) → Result B
ok a >>= f = f a
err e >>= f = err e
unset >>= f = unset
stale >>= f = stale
fault >>= f = fault

-- A read of memory that may hold nothing.
abbrev pub checked {ℓ} : {A : Type ℓ} → Option A → Result A
checked none = fault
checked (some a) = ok a

-- The persistent members of a node.
pub record StoredNode (K : Type 0) : Type 0 where
  pub left_child : ℕ
  pub key_entries : List (Entry K)

pub record NodeFile (K : Type 0) : Type 0 where
  pub nodes : ℕ → Option (StoredNode K)
  pub supply : List ℕ
  pub ready_for_writing : Bool

pub record GxBtreeHeader : Type 0 where
  pub node_order : ℕ
  pub key_size : ℕ
  pub n_keys : ℕ
  pub n_nodes : ℕ
  pub btree_height : ℕ
  pub root : ℕ

-- `connected` says that the file pointer `f` is not null.
pub record GxBtree (K : Type 0) : Type 0 where
  pub btree_header : GxBtreeHeader
  pub header_in_sync : Bool
  pub connected : Bool
  pub file : NodeFile K

-- `gxBtreeMaxNodeReads`
abbrev pub max_node_reads : ℕ
max_node_reads = 4096

module _ {K : Type 0} where
  -- `ReadNode` into a node that was made from the header. A count that the node cannot hold is
  -- refused.
  unfoldable pub read_node : GxBtreeHeader → NodeFile K → ℕ → Result (BtreeNode K)
  unfolding new_node
  read_node hdr file node_address = elim (file.nodes node_address) [
    | none ↦ err file_read_error
    | some stored ↦
        let node : BtreeNode K = record (new_node hdr.key_size hdr.node_order) {
          node_address = node_address;
          left_child = stored.left_child;
          key_entries = stored.key_entries;
        } in
        if ltb node.node_order (key_count node) then err badblock_error else ok node
  ]

  abbrev pub update : (ℕ → Option (StoredNode K)) → ℕ → StoredNode K → ℕ → Option (StoredNode K)
  update nodes a n b = if a == b then some n else nodes b

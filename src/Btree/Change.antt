-- ===== src/Btree/Change.antt =====
-- The operations of gxBtree that write: a run ends with a value and the new tree, or with an error
-- code and the tree as the failed call left it, or in a read of memory that holds no key.
pub mod Grow
use datareel.Prelude.{
  ◌==◌, ltb, ◌-◌, ◌&&◌, ℕ, ◌+◌, false, Option, none, some, [], ◌∷◌, if◌then◌else◌, not,
}
use datareel.Btree.Node.{is_empty, Entry, BtreeNode, new_node, insert_key}
use datareel.Btree.State.{
  read_node, file_read_error, GxDatabaseError, file_not_writeable, file_write_error, null_ptr,
  Result, GxBtreeHeader, GxBtree, update,
}

pub data Outcome (K A : Type 0) : Type 0 where
  done : A → GxBtree K → Outcome K A
  failed : GxDatabaseError → GxBtree K → Outcome K A
  fault : Outcome K A

abbrev pub M : Type 0 → Type 0 → Type 0
M K A = GxBtree K → Outcome K A

module _ {K A B : Type 0} where
  abbrev pub and_then : Outcome K A → (A → M K B) → Outcome K B
  and_then (done a t) f = f a t
  and_then (failed e t) f = failed e t
  and_then fault f = fault

  infixl 5 ◌>>=◌ ◌>>◌
  abbrev pub ◌>>=◌ : M K A → (A → M K B) → M K B
  ◌>>=◌ m f t = and_then (m t) f

  abbrev pub ◌>>◌ : M K A → M K B → M K B
  m >> k = m >>= λ _. k

module _ {K : Type 0} where
  abbrev pub pure : {A : Type 0} → A → M K A
  pure a t = done a t

  abbrev pub fail : {A : Type 0} → GxDatabaseError → M K A
  fail e t = failed e t

  -- A read of memory that may hold no key.
  abbrev pub present : {A : Type 0} → Option A → M K A
  present none t = fault
  present (some a) t = done a t

  -- The call of a search step that changes nothing.
  abbrev pub lift : {A : Type 0} → Result A → M K A
  lift (Result.ok a) t = done a t
  lift (Result.err e) t = failed e t
  lift Result.unset t = fault
  lift Result.stale t = fault
  lift Result.fault t = fault

  abbrev pub with_header : (GxBtreeHeader → GxBtreeHeader) → M K (Unit {0})
  with_header f t = done tt (record t { btree_header = f t.btree_header; header_in_sync = false })

  -- The call `f->Alloc`: the address that `gxDatabase::Alloc` returns, the next of the supply, or 0.
  unfoldable pub alloc : M K ℕ
  alloc t =
      if t.file.ready_for_writing
      then elim t.file.supply [
        | [] ↦ done 0 t
        | a ∷ rest ↦ done a (record t { file = record (t.file) { supply = rest } })
      ]
      else done 0 t

  -- The error that a failed `Alloc` leaves.
  abbrev pub alloc_error : GxBtree K → GxDatabaseError
  alloc_error t = if t.file.ready_for_writing then file_write_error else file_not_writeable

  -- `WriteNode`
  unfoldable pub write_node : BtreeNode K → ℕ → M K (Unit {0})
  write_node node node_address t =
      if not t.connected
      then failed null_ptr t
      else if t.file.ready_for_writing
      then done tt (record t {
        file = record (t.file) {
          nodes =
              update t.file.nodes node_address
                (record { left_child = node.left_child; key_entries = node.key_entries });
        };
      })
      else failed file_not_writeable t

  -- `GrowNewRoot`. Where `Alloc` fails, the code does not return.
  unfoldable pub grow_new_root : Entry K → M K (Unit {0})
  unfolding alloc write_node
  grow_new_root key t =
      let old_root = t.btree_header.root in
      let node : BtreeNode K = new_node t.btree_header.key_size t.btree_header.node_order in
      let change = do
        root_address ← alloc
        with_header (λ hdr. record hdr {
          n_nodes = hdr.n_nodes + 1;
          btree_height = hdr.btree_height + 1;
          root = root_address;
        })
        write_node (insert_key (record node { left_child = old_root }) key 0) root_address
      in if not t.connected then failed null_ptr t else change t

  -- `f->Remove` of a node's block: it marks the header of the block, which Database models, and
  -- leaves the node that stands in it.
  unfoldable pub remove : ℕ → M K (Unit {0})
  remove a t = elim (t.file.nodes a) [
    | none ↦ failed file_read_error t
    | some _ ↦ if t.file.ready_for_writing then done tt t else failed file_not_writeable t
  ]

  -- `CollapseRoot(root_node)`
  unfoldable pub collapse : BtreeNode K → M K (Unit {0})
  unfolding remove
  collapse root_node t =
      let old_root = t.btree_header.root in
      let change = do
        with_header (λ hdr. record hdr {
          root = root_node.left_child;
          n_nodes = hdr.n_nodes - 1;
          btree_height = hdr.btree_height - 1;
        })
        remove old_root
      in if not t.connected
        then failed null_ptr t
        else if is_empty root_node && ltb 1 t.btree_header.btree_height
        then change t
        else done tt t

  -- `ReadNode` as a step.
  abbrev pub read : ℕ → M K (BtreeNode K)
  read a t =
      if not t.connected then failed null_ptr t else lift (read_node t.btree_header t.file a) t

  -- `CollapseRoot()`
  unfoldable pub collapse_root : M K (Unit {0})
  unfolding collapse
  collapse_root t = (do root_node ← read t.btree_header.root; collapse root_node) t

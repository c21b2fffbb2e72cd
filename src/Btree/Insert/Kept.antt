-- ===== src/Btree/Insert/Kept.antt =====
-- What a part of `InsertDatabaseKey` leaves of the file: the nodes that it may change are those that
-- it was given and those that `Alloc` gave out.
use datareel.Prelude.{ℕ, suc, ◌+◌, ◌≤◌, ◌≡◌, ◌∙◌, true, List, ◌∷◌, ◌++◌, length, arith}
use datareel.Btree.Key.{DatabaseKeyB}
use datareel.Btree.Node.{Entry}
use datareel.Btree.State.{GxBtree}
use datareel.Btree.Change.{Outcome, M, done}
use datareel.Btree.Shape.{Tree, address_of, Stored, ranks}
use datareel.Btree.Shape.Filled.{Filled}
use datareel.Btree.Shape.Frame.{uses, count}
use datareel.Btree.Search.Correct.{capacity}

-- `before` and `after` count the nodes of the part at an address; `spent` blocks may be allocated.
pub record Kept {K : Type 0} (before after : ℕ → ℕ) (spent : ℕ) (t u : GxBtree K) : Type 0 where
  pub same_order : u.btree_header.node_order ≡ t.btree_header.node_order
  pub same_root : u.btree_header.root ≡ t.btree_header.root
  pub open_file : u.connected ≡ true
  pub writable : u.file.ready_for_writing ≡ true
  pub balance : (b : ℕ) → after b + count b u.file.supply ≡ before b + count b t.file.supply
  pub outside : (b : ℕ) → before b + count b t.file.supply ≡ 0 → u.file.nodes b ≡ t.file.nodes b
  pub spare : length t.file.supply ≤ spent + length u.file.supply

module _ {K : Type 0} where
  pub Kept-trans :
      (before middle after : ℕ → ℕ) (m n o : ℕ) (t u v : GxBtree K)
      → m + n ≤ o
      → Kept before middle m t u
      → Kept middle after n u v
      → Kept before after o t v
  Kept-trans before middle after m n o t u v le f g = record {
    same_order = g.same_order ∙ f.same_order;
    same_root = g.same_root ∙ f.same_root;
    open_file = g.open_file;
    writable = g.writable;
    balance = λ b. g.balance b ∙ f.balance b;
    outside = λ b h. g.outside b (f.balance b ∙ h) ∙ f.outside b h;
    spare = omega (arith, f.spare, g.spare);
  }

  -- The same part with other nodes beside it.
  pub Kept-beside :
      (before after before' after' beside : ℕ → ℕ) (n n' : ℕ) (t u : GxBtree K)
      → ((b : ℕ) → before' b ≡ before b + beside b)
      → ((b : ℕ) → after' b ≡ after b + beside b)
      → n ≤ n'
      → Kept before after n t u
      → Kept before' after' n' t u
  Kept-beside before after before' after' beside n n' t u eb ea h f = record {
    same_order = f.same_order;
    same_root = f.same_root;
    open_file = f.open_file;
    writable = f.writable;
    balance = λ b. omega (arith, eb b, ea b, f.balance b);
    outside = λ b h. f.outside b (omega (arith, eb b));
    spare = omega (arith, f.spare);
  }

module _ {K : Type 0} ⦃order : DatabaseKeyB K⦄ where
  -- The run ends, and the part is a tree of the given ranks at its old address. `was`
  -- says that its nodes held keys before.
  pub record IsAbsorbed (run : Outcome K (Entry K)) (t : GxBtree K) (height a : ℕ) (old : ℕ → ℕ)
      (spent : ℕ) (rs : List ℕ) (was : Type 0) : Type 0 where
    pub value : Entry K
    pub state : GxBtree K
    pub shape : Tree K
    pub runs : run ≡ done value state
    pub at_address : address_of shape ≡ a
    pub holds : Stored state.file.nodes (capacity t.btree_header) height shape
    pub kept : Kept old (λ b. uses b shape) spent t state
    pub counted : state.btree_header.n_keys ≡ suc t.btree_header.n_keys
    pub all_ranks : ranks shape ≡ rs
    pub filled : was → Filled shape

  -- The run goes on with a key that has the tree at the old address to its left and a new tree to
  -- its right.
  pub record IsDivided (run : Outcome K (Entry K)) (go_on : Entry K → M K (Entry K)) (t : GxBtree K)
      (height a : ℕ) (old : ℕ → ℕ) (spent : ℕ) (rs : List ℕ) (was : Type 0) : Type 0 where
    pub state : GxBtree K
    pub left : Tree K
    pub middle : K
    pub right : Tree K
    pub runs : run ≡ go_on (record { right_child = address_of right; db_key = middle }) state
    pub at_address : address_of left ≡ a
    pub holds_left : Stored state.file.nodes (capacity t.btree_header) height left
    pub holds_right : Stored state.file.nodes (capacity t.btree_header) height right
    pub kept : Kept old (λ b. uses b left + uses b right) spent t state
    pub counted : state.btree_header.n_keys ≡ t.btree_header.n_keys
    pub all_ranks : ranks left ++ (order.rank middle ∷ ranks right) ≡ rs
    pub filled : was → Filled left × Filled right

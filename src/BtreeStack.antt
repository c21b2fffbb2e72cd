-- ===== src/BtreeStack.antt =====
-- The stack of node addresses of src/btstack.cpp, a list of nodes in memory that is linked both
-- ways. Memory maps the pointers that are in use to nodes; 0 is the null pointer. An operation is
-- `none` where it follows a pointer to no node.
pub mod Linked
pub mod Ends
pub mod Tail
pub mod Refine
mod Tests
use datareel.Prelude.{
  ℕ, zero, suc, Bool, true, false, ◌&&◌, ◌||◌, not, Option, none, some, ◌==◌, if◌then◌else◌,
}

-- `BtreeStack_t`
pub record StackNode : Type 0 where
  pub node_address : ℕ
  pub next : ℕ
  pub prev : ℕ

pub record BtreeStack : Type 0 where
  pub memory : ℕ → Option StackNode
  pub head : ℕ
  pub tail : ℕ

infixl 5 ◌>>=◌
abbrev ◌>>=◌ {ℓ κ} : {A : Type ℓ} {B : Type κ} → Option A → (A → Option B) → Option B
none >>= f = none
some a >>= f = f a

-- A pointer's node in memory, or nothing once it is freed.
abbrev pub place : (ℕ → Option StackNode) → ℕ → Option StackNode → ℕ → Option StackNode
place memory p node q = if p == q then node else memory q

-- `p->next = q`
unfoldable pub set_next : ℕ → ℕ → BtreeStack → Option BtreeStack
set_next p q s = do
  node ← s.memory p
  some (record s { memory = place s.memory p (some (record node { next = q })) })

-- `p->prev = q`
unfoldable pub set_prev : ℕ → ℕ → BtreeStack → Option BtreeStack
set_prev p q s = do
  node ← s.memory p
  some (record s { memory = place s.memory p (some (record node { prev = q })) })

-- `IsEmpty`
abbrev pub is_empty : BtreeStack → Bool
is_empty s = s.head == 0

-- `AllocNode`, with the pointer that `new` returns
unfoldable pub alloc_node : ℕ → ℕ → BtreeStack → BtreeStack
alloc_node n node_address s = record s {
  memory = place s.memory n (some (record { node_address = node_address; next = 0; prev = 0 }));
}

-- `FreeNode`
unfoldable pub free_node : ℕ → BtreeStack → Option (ℕ × BtreeStack)
free_node n s =
    let freed = do
      node ← s.memory n
      some (node.node_address, record s { memory = place s.memory n none })
    in if n == 0 then some (0, s) else freed

-- `MakeEmpty`
abbrev pub make_empty : BtreeStack → BtreeStack
make_empty s = record s { head = 0; tail = 0 }

-- The first branch of `DetachNode` with more than one node: `n` is the head.
unfoldable pub detach_head : StackNode → BtreeStack → Option BtreeStack
unfolding set_prev
detach_head node s =
    let moved = do s' ← set_prev node.next 0 s; some (record s' { head = node.next })
    in if node.next == 0 then some (make_empty s) else moved

-- The next branch: `n` is the tail.
unfoldable pub detach_tail : StackNode → BtreeStack → Option BtreeStack
unfolding set_next
detach_tail node s =
    let moved = do s' ← set_next node.prev 0 s; some (record s' { tail = node.prev })
    in if node.prev == 0 then some (make_empty s) else moved

-- The last branches: `n` is in the middle of the list, or linked nowhere.
unfoldable pub detach_middle : StackNode → BtreeStack → Option BtreeStack
unfolding set_next set_prev
detach_middle node s =
    let joined = do s' ← set_next node.prev node.next s; set_prev node.next node.prev s'
    in if (node.next == 0) && (node.prev == 0) then some s else joined

-- `DetachNode`
unfoldable pub detach_node : ℕ → BtreeStack → Option BtreeStack
unfolding detach_head detach_tail detach_middle
detach_node n s =
    let detached = do
      node ← s.memory n
      (if n == s.head
          then detach_head node s
          else if n == s.tail
          then detach_tail node s
          else detach_middle node s)
    in if is_empty s || (n == 0)
      then some s
      else if s.head == s.tail
      then some (make_empty s)
      else detached

-- `InsertBefore`
unfoldable pub insert_before : ℕ → ℕ → BtreeStack → Option BtreeStack
unfolding set_next set_prev
insert_before pos n s =
    let at_head = do
      s1 ← set_prev n 0 s
      s2 ← set_next n s.head s1
      s3 ← set_prev s.head n s2
      some (record s3 { head = n })
    in let between = do
      node ← s.memory pos
      s1 ← set_prev n node.prev s
      s2 ← set_next n pos s1
      s3 ← set_next node.prev n s2
      set_prev pos n s3
      in if is_empty s
        then some (record s { head = n; tail = n })
        else if pos == s.head
        then at_head
        else between

-- `InsertAfter`
unfoldable pub insert_after : ℕ → ℕ → BtreeStack → Option BtreeStack
unfolding set_next set_prev
insert_after pos n s =
    let at_tail = do
      s1 ← set_next n 0 s
      s2 ← set_prev n s.tail s1
      s3 ← set_next s.tail n s2
      some (record s3 { tail = n })
    in let between = do
      node ← s.memory pos
      s1 ← set_next n node.next s
      s2 ← set_prev n pos s1
      s3 ← set_prev node.next n s2
      set_next pos n s3
      in if is_empty s
        then some (record s { head = n; tail = n })
        else if pos == s.tail
        then at_tail
        else between

-- `Push`, with the pointer that `new` returns; the result is the pointer.
unfoldable pub push : ℕ → ℕ → BtreeStack → Option BtreeStack
unfolding alloc_node insert_before
push n node_address s = let s' = alloc_node n node_address s in insert_before s'.head n s'

-- `Insert`
unfoldable pub insert : ℕ → ℕ → BtreeStack → Option BtreeStack
unfolding alloc_node insert_after
insert n node_address s = let s' = alloc_node n node_address s in insert_after s'.tail n s'

-- `RemoveHead`, `Pop` and `Extract`: the head is detached and freed.
unfoldable pub remove_head : BtreeStack → Option (ℕ × BtreeStack)
unfolding detach_node free_node
remove_head s =
    let removed = do s' ← detach_node s.head s; free_node s.head s'
    in if is_empty s then some (0, s) else removed

abbrev pub pop : BtreeStack → Option (ℕ × BtreeStack)
pop s = remove_head s

abbrev pub extract : BtreeStack → Option (ℕ × BtreeStack)
extract s = remove_head s

-- `RemoveTail`
unfoldable pub remove_tail : BtreeStack → Option (ℕ × BtreeStack)
unfolding detach_node free_node
remove_tail s =
    let removed = do s' ← detach_node s.tail s; free_node s.tail s'
    in if is_empty s then some (0, s) else removed

-- `Clear`: `none` also where the rounds are used up.
unfoldable pub clear : ℕ → BtreeStack → Option BtreeStack
unfolding remove_tail
clear zero s = if is_empty s then some (make_empty s) else none
clear (suc rounds) s =
    let rest = do removed ← remove_tail s; clear rounds (removed.1)
    in if is_empty s then some (make_empty s) else rest

-- ===== src/BtreeStack/Tests.antt =====
-- Runs of a stack.
use datareel.Prelude.{ℕ, ◌≤◌, ◌≡◌, ◌≢◌, refl, Option, none, some, List, [], ◌∷◌, arith}
use datareel.BtreeStack.{
  BtreeStack, push, insert, pop, extract, remove_tail, clear, remove_head, alloc_node, free_node,
  insert_before, insert_after, detach_node, detach_head, set_next, set_prev,
}
use datareel.BtreeStack.Refine.{
  Operation, pushes, inserts, pops, Runs, stop, pushed, inserted, popped, run_list, Stores,
  Runs-run_list, Stores-succeeds,
}

abbrev empty : BtreeStack
empty = record { memory = λ _. none; head = 0; tail = 0 }

empty-Stores : Stores empty []
empty-Stores = ([], record { linked = (refl, refl); distinct = tt }, refl)

abbrev state_of : Option BtreeStack → BtreeStack
state_of none = empty
state_of (some s) = s

abbrev popped_of : Option (ℕ × BtreeStack) → BtreeStack
popped_of none = empty
popped_of (some r) = r.1

abbrev one : BtreeStack
one = state_of (push 16 100 empty)

abbrev two : BtreeStack
two = state_of (insert 32 200 one)

abbrev three : BtreeStack
three = state_of (push 48 300 two)

abbrev four : BtreeStack
four = popped_of (pop three)

abbrev operations : List Operation
operations = pushes 100 ∷ inserts 200 ∷ pushes 300 ∷ pops ∷ []

operations-Runs : Runs operations empty (300 ∷ []) four
unfolding push insert remove_head alloc_node free_node insert_before insert_after detach_node
    detach_head set_next set_prev
operations-Runs = pushed 16 100 empty one (omega arith) refl refl (
    inserted 32 200 one two (omega arith) refl refl
      (pushed 48 300 two three (omega arith) refl refl (popped 300 three four refl (stop four))))

Runs-run_list_example : ((300 ∷ []) ≡ (run_list operations []).0) × Stores four (100 ∷ 200 ∷ [])
Runs-run_list_example =
    Runs-run_list operations empty four (300 ∷ []) [] empty-Stores operations-Runs

Stores-succeeds_example :
    ((n v : ℕ)
      → n ≢ 0
      → four.memory n ≡ none
      → ((s' : BtreeStack) × (push n v four ≡ some s'))
        × ((s' : BtreeStack) × (insert n v four ≡ some s')))
    × ((r : ℕ × BtreeStack) × (pop four ≡ some r) × (extract four ≡ some r))
    × ((s' : BtreeStack) × (remove_tail four ≡ some (200, s')) × Stores s' (100 ∷ []))
    × ((rounds : ℕ) → 2 ≤ rounds → (s' : BtreeStack) × (clear rounds four ≡ some s') × Stores s' [])
Stores-succeeds_example =
    Stores-succeeds four (100 ∷ 200 ∷ [])
      (Runs-run_list operations empty four (300 ∷ []) [] empty-Stores operations-Runs).1

-- ===== src/BtreeStack/Refine.antt =====
-- A stack against a list of addresses, with any pointers that `new` may return.
use datareel.Prelude.{
  arith, length, suc, ◌≤◌, ℕ, ◌≡◌, ◌≢◌, refl, sym, ap, ◌∙◌, none, some, List, [], ◌∷◌, ◌++◌, map,
  eq→==,
}
use mathlib.Core.Path.{subst}
use mathlib.Core.Option.{some-injective}
use datareel.BtreeStack.{BtreeStack, push, insert, pop, extract, remove_head, remove_tail, clear}
use datareel.BtreeStack.Linked.{Holds}
use datareel.BtreeStack.Tail.{init, last_address, remove_tail-Holds, clear-Holds}
use datareel.BtreeStack.Ends.{push-Holds, pop-Holds, insert-Holds}

pub data Operation : Type 0 where
  pushes inserts : ℕ → Operation
  pops extracts : Operation

ap2 : {x y : ℕ} {xs ys : List ℕ} → x ≡ y → xs ≡ ys → (x ∷ xs) ≡ (y ∷ ys)
ap2 {y = y} {xs = xs} e f = ap (λ z. z ∷ xs) e ∙ ap (λ zs. y ∷ zs) f

-- The operations from a stack to another, with the addresses that they return. `new` gives any
-- pointer that is not null and not in use.
pub data Runs : List Operation → BtreeStack → List ℕ → BtreeStack → Type 0 where
  stop : (s : BtreeStack) → Runs [] s [] s
  pushed :
      {operations : List Operation} {returned : List ℕ} {s'' : BtreeStack} (n v : ℕ)
      (s s' : BtreeStack)
      → n ≢ 0
      → s.memory n ≡ none
      → push n v s ≡ some s'
      → Runs operations s' returned s''
      → Runs (pushes v ∷ operations) s returned s''
  inserted :
      {operations : List Operation} {returned : List ℕ} {s'' : BtreeStack} (n v : ℕ)
      (s s' : BtreeStack)
      → n ≢ 0
      → s.memory n ≡ none
      → insert n v s ≡ some s'
      → Runs operations s' returned s''
      → Runs (inserts v ∷ operations) s returned s''
  popped :
      {operations : List Operation} {returned : List ℕ} {s'' : BtreeStack} (v : ℕ)
      (s s' : BtreeStack)
      → pop s ≡ some (v, s')
      → Runs operations s' returned s''
      → Runs (pops ∷ operations) s (v ∷ returned) s''
  extracted :
      {operations : List Operation} {returned : List ℕ} {s'' : BtreeStack} (v : ℕ)
      (s s' : BtreeStack)
      → extract s ≡ some (v, s')
      → Runs operations s' returned s''
      → Runs (extracts ∷ operations) s (v ∷ returned) s''

-- The same on a list, whose first address is 0 where it is empty.
abbrev pub run_list : List Operation → List ℕ → List ℕ × List ℕ
run_list [] xs = ([], xs)
run_list (pushes v ∷ operations) xs = run_list operations (v ∷ xs)
run_list (inserts v ∷ operations) xs = run_list operations (xs ++ (v ∷ []))
run_list (pops ∷ operations) [] = let rest = run_list operations [] in (0 ∷ rest.0, rest.1)
run_list (pops ∷ operations) (x ∷ xs) = let rest = run_list operations xs in (x ∷ rest.0, rest.1)
run_list (extracts ∷ operations) [] = let rest = run_list operations [] in (0 ∷ rest.0, rest.1)
run_list (extracts ∷ operations) (x ∷ xs) =
    let rest = run_list operations xs in (x ∷ rest.0, rest.1)

abbrev pub addresses : List (ℕ × ℕ) → List ℕ
addresses nodes = map (λ (q : ℕ × ℕ). q.1) nodes

-- A stack that stands for a list of addresses.
abbrev pub Stores : BtreeStack → List ℕ → Type 0
Stores s xs = (nodes : List (ℕ × ℕ)) × Holds s nodes × (addresses nodes ≡ xs)

remove_head-empty : (s : BtreeStack) → Holds s [] → remove_head s ≡ some (0, s)
unfolding remove_head
remove_head-empty s holds = rw (eq→== s.head 0 holds.linked.0) refl

-- The head is removed, and nothing of an empty stack.
removed_empty :
    (s : BtreeStack) (v : ℕ) (s' : BtreeStack)
    → Holds s []
    → remove_head s ≡ some (v, s')
    → (v ≡ 0) × Holds s' []
removed_empty s v s' holds h =
    let same = some-injective _ _ (sym (remove_head-empty s holds) ∙ h) in
    (
      sym (ap (λ (r : ℕ × BtreeStack). r.0) same),
      subst (λ (r : ℕ × BtreeStack). Holds r.1 []) same holds,
    )

removed_head :
    (s : BtreeStack) (p u : ℕ) (nodes : List (ℕ × ℕ)) (v : ℕ) (s' : BtreeStack)
    → Holds s ((p, u) ∷ nodes)
    → remove_head s ≡ some (v, s')
    → (v ≡ u) × Holds s' nodes
removed_head s p u nodes v s' holds h =
    let (s1, done, holds1, freed) = pop-Holds s p u nodes holds in
    let same = some-injective _ _ (sym done ∙ h) in
    (
      sym (ap (λ (r : ℕ × BtreeStack). r.0) same),
      subst (λ (r : ℕ × BtreeStack). Holds r.1 nodes) same holds1,
    )

new_head :
    (n v : ℕ) (s s' : BtreeStack) (nodes : List (ℕ × ℕ))
    → n ≢ 0
    → s.memory n ≡ none
    → push n v s ≡ some s'
    → Holds s nodes
    → Holds s' ((n, v) ∷ nodes)
new_head n v s s' nodes pos unused h holds =
    let (s1, done, holds1) = push-Holds n v s pos unused nodes holds in
    subst (λ r. Holds r ((n, v) ∷ nodes)) (some-injective _ _ (sym done ∙ h)) holds1

new_last :
    (n v : ℕ) (s s' : BtreeStack) (nodes : List (ℕ × ℕ))
    → n ≢ 0
    → s.memory n ≡ none
    → insert n v s ≡ some s'
    → Holds s nodes
    → Holds s' (nodes ++ ((n, v) ∷ []))
new_last n v s s' nodes pos unused h holds =
    let (s1, done, holds1) = insert-Holds n v s pos unused nodes holds in
    subst (λ r. Holds r (nodes ++ ((n, v) ∷ []))) (some-injective _ _ (sym done ∙ h)) holds1

addresses-last :
    (nodes : List (ℕ × ℕ)) (n v : ℕ)
    → addresses (nodes ++ ((n, v) ∷ [])) ≡ addresses nodes ++ (v ∷ [])
addresses-last [] n v = refl
addresses-last (q ∷ nodes) n v = ap (λ xs. q.1 ∷ xs) (addresses-last nodes n v)

-- What the operations of a run return, and the list that they leave, are those of the list.
abbrev IsRefined : List Operation → List ℕ → List ℕ → BtreeStack → Type 0
IsRefined operations xs returned s'' =
    (returned ≡ (run_list operations xs).0) × Stores s'' (run_list operations xs).1

run_nodes :
    {operations : List Operation} {s s'' : BtreeStack} {returned : List ℕ} (nodes : List (ℕ × ℕ))
    → Runs operations s returned s''
    → Holds s nodes
    → IsRefined operations (addresses nodes) returned s''
run_nodes nodes (stop s) holds = (refl, (nodes, holds, refl))
run_nodes nodes (pushed n v s s' pos unused h rest) holds =
    run_nodes ((n, v) ∷ nodes) rest (new_head n v s s' nodes pos unused h holds)
run_nodes {operations = inserts _ ∷ operations} {s'' = s''} {returned = returned} nodes
      (inserted n v s s' pos unused h rest) holds =
    subst (λ xs. IsRefined operations xs returned s'') (addresses-last nodes n v)
      (run_nodes (nodes ++ ((n, v) ∷ [])) rest (new_last n v s s' nodes pos unused h holds))
run_nodes [] (popped v s s' h rest) holds =
    let (zero_returned, holds') = removed_empty s v s' holds h in
    let (later, stored) = run_nodes [] rest holds' in (ap2 zero_returned later, stored)
run_nodes ((p, u) ∷ nodes) (popped v s s' h rest) holds =
    let (first, holds') = removed_head s p u nodes v s' holds h in
    let (later, stored) = run_nodes nodes rest holds' in (ap2 first later, stored)
run_nodes [] (extracted v s s' h rest) holds =
    let (zero_returned, holds') = removed_empty s v s' holds h in
    let (later, stored) = run_nodes [] rest holds' in (ap2 zero_returned later, stored)
run_nodes ((p, u) ∷ nodes) (extracted v s s' h rest) holds =
    let (first, holds') = removed_head s p u nodes v s' holds h in
    let (later, stored) = run_nodes nodes rest holds' in (ap2 first later, stored)

-- Whatever unused pointers `new` gives: from a stack that stands for a list of addresses, Push,
-- Insert, Pop and Extract in any order return the addresses that the list would, 0 where it is empty,
-- and lead to a stack that stands for what is left of the list.
pub Runs-run_list :
    (operations : List Operation) (s s'' : BtreeStack) (returned xs : List ℕ)
    → Stores s xs
    → Runs operations s returned s''
    → (returned ≡ (run_list operations xs).0) × Stores s'' (run_list operations xs).1
Runs-run_list operations s s'' returned xs (nodes, holds, e) runs =
    subst (λ xs. IsRefined operations xs returned s'') e (run_nodes nodes runs holds)

pop_succeeds :
    (s : BtreeStack) (nodes : List (ℕ × ℕ))
    → Holds s nodes
    → (r : ℕ × BtreeStack) × (pop s ≡ some r)
pop_succeeds s [] holds = (_, remove_head-empty s holds)
pop_succeeds s ((p, u) ∷ nodes) holds =
    let (s1, done, holds1, freed) = pop-Holds s p u nodes holds in ((u, s1), done)

addresses-init : (nodes : List (ℕ × ℕ)) → addresses (init nodes) ≡ init (addresses nodes)
addresses-init [] = refl
addresses-init (x ∷ []) = refl
addresses-init (x ∷ y ∷ nodes) = ap (λ xs. x.1 ∷ xs) (addresses-init (y ∷ nodes))

-- The last address of a list, 0 where it is empty.
abbrev pub last_of : List ℕ → ℕ
last_of [] = 0
last_of (x ∷ []) = x
last_of (x ∷ y ∷ xs) = last_of (y ∷ xs)

last_address-last_of : (nodes : List (ℕ × ℕ)) → last_address nodes ≡ last_of (addresses nodes)
last_address-last_of [] = refl
last_address-last_of ((q, v) ∷ []) = refl
last_address-last_of (x ∷ y ∷ nodes) = last_address-last_of (y ∷ nodes)

remove_tail_succeeds :
    (s : BtreeStack) (nodes : List (ℕ × ℕ))
    → Holds s nodes
    → (s' : BtreeStack) × (remove_tail s ≡ some (last_of (addresses nodes), s'))
      × Stores s' (init (addresses nodes))
remove_tail_succeeds s nodes holds =
    let (s', done, holds') = remove_tail-Holds s nodes holds in
    (
      s',
      done ∙ ap (λ v. some (v, s')) (last_address-last_of nodes),
      (init nodes, holds', addresses-init nodes),
    )

length-addresses : (nodes : List (ℕ × ℕ)) → length (addresses nodes) ≡ length nodes
length-addresses [] = refl
length-addresses (x ∷ nodes) = ap suc (length-addresses nodes)

-- No operation on a stack that stands for a list follows a null pointer or one that is not in use:
-- with an unused pointer Push and Insert succeed; Pop and Extract succeed; RemoveTail returns the
-- last address, 0 where there is none, and leaves a stack that stands for the list without it; and
-- Clear, with as many rounds as the list has addresses, ends with a stack that stands for no address.
pub Stores-succeeds :
    (s : BtreeStack) (xs : List ℕ)
    → Stores s xs
    → ((n v : ℕ)
        → n ≢ 0
        → s.memory n ≡ none
        → ((s' : BtreeStack) × (push n v s ≡ some s'))
          × ((s' : BtreeStack) × (insert n v s ≡ some s')))
      × ((r : ℕ × BtreeStack) × (pop s ≡ some r) × (extract s ≡ some r))
      × ((s' : BtreeStack) × (remove_tail s ≡ some (last_of xs, s')) × Stores s' (init xs))
      × ((rounds : ℕ)
          → length xs ≤ rounds
          → (s' : BtreeStack) × (clear rounds s ≡ some s') × Stores s' [])
Stores-succeeds s xs (nodes, holds, e) = (
  λ n v pos unused.
      let (s1, done, _) = push-Holds n v s pos unused nodes holds in
      let (s2, done2, _) = insert-Holds n v s pos unused nodes holds in ((s1, done), (s2, done2)),
  let (r, done) = pop_succeeds s nodes holds in (r, done, done),
  subst (λ ys. (s' : BtreeStack) × (remove_tail s ≡ some (last_of ys, s')) × Stores s' (init ys)) e
      (remove_tail_succeeds s nodes holds),
  λ rounds enough.
      let (s', done, holds') =
        clear-Holds rounds s nodes (omega (arith, length-addresses nodes, ap length e)) holds in
      (s', done, ([], holds', refl)),
)

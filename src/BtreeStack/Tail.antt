-- ===== src/BtreeStack/Tail.antt =====
-- What RemoveTail and Clear make of the nodes.
use datareel.Prelude.{
  ℕ, zero, suc, ◌≤◌, ◌≡◌, ◌≢◌, refl, sym, ap, ◌∙◌, none, some, List, [], ◌∷◌, length, if◌then◌else◌,
  ne→==, eq→==, arith,
}
use datareel.BtreeStack.{
  StackNode, BtreeStack, ◌>>=◌, is_empty, make_empty, place, set_next, free_node, detach_tail,
  detach_node, remove_tail, clear,
}
use datareel.BtreeStack.Linked.{
  Memory, IsLinked, IsApartFrom, IsDistinct, Holds, apart_tail, tail_node,
}

-- A list without its last element.
abbrev pub init : {A : Type 0} → List A → List A
init [] = []
init (x ∷ []) = []
init (x ∷ y ∷ xs) = x ∷ init (y ∷ xs)

-- The address of the last node, 0 where there is none.
abbrev pub last_address : List (ℕ × ℕ) → ℕ
last_address [] = 0
last_address ((q, v) ∷ []) = v
last_address (x ∷ y ∷ xs) = last_address (y ∷ xs)

-- Memory after the tail is detached and freed.
abbrev cut : Memory → ℕ → StackNode → StackNode → Memory
cut memory tail last previous =
    place (place memory last.prev (some (record previous { next = 0 }))) tail none

-- The last two nodes of a list of two or more, and the list without the last one.
record HasTail (memory : Memory) (p before : ℕ) (nodes : List (ℕ × ℕ)) (tail : ℕ) : Type 0 where
  last : StackNode
  previous : StackNode
  at : memory tail ≡ some last
  at_previous : memory last.prev ≡ some previous
  address : last.node_address ≡ last_address nodes
  other : tail ≢ last.prev
  nonzero : last.prev ≢ 0
  apart : (z : ℕ) → IsApartFrom z nodes → z ≢ last.prev
  linked : IsLinked (cut memory tail last previous) p before (init nodes) last.prev

linked-HasTail :
    (memory : Memory) (p before q v r w : ℕ) (nodes : List (ℕ × ℕ)) (tail : ℕ)
    → IsLinked memory p before ((q, v) ∷ (r, w) ∷ nodes) tail
    → IsDistinct ((q, v) ∷ (r, w) ∷ nodes)
    → HasTail memory p before ((q, v) ∷ (r, w) ∷ nodes) tail
linked-HasTail memory p before q v r w [] tail
      (e, ne, (node, at, addr, prev, (e2, ne2, (node2, at2, addr2, prev2, (no_next, last)))))
      ((differs, _), _) =
    record {
      last = node2;
      previous = node;
      at = ap memory last ∙ at2;
      at_previous = ap memory prev2 ∙ at;
      address = addr2;
      other = λ z. differs (sym last ∙ z ∙ prev2);
      nonzero = λ z. ne (sym prev2 ∙ z);
      apart = λ z others same. others.0 (sym prev2 ∙ sym same);
      linked = (
        e,
        ne,
        (
          record node { next = 0 },
          rw (ne→== tail q (λ z. differs (sym last ∙ z)), eq→== node2.prev q prev2) refl,
          addr,
          prev,
          (refl, prev2),
        ),
      );
    }
linked-HasTail memory p before q v r w ((t, x) ∷ nodes) tail (e, ne, (node, at, addr, prev, rest))
      ((differs, others), distinct) =
    let back = linked-HasTail memory node.next q r w t x nodes tail rest distinct in
    let (e2, ne2, (node2, at2, addr2, prev2, rest2)) = rest in
    let not_tail : q ≢ tail =
      apart_tail memory q node2.next r ((t, x) ∷ nodes) tail (λ z. differs (sym z)) others rest2 in
    let not_previous : q ≢ back.last.prev = back.apart q (differs, others) in
    record {
      last = back.last;
      previous = back.previous;
      at = back.at;
      at_previous = back.at_previous;
      address = back.address;
      other = back.other;
      nonzero = back.nonzero;
      apart = λ z outside. back.apart z outside.1;
      linked = (
        e,
        ne,
        (
          node,
          rw
              (
                ne→== tail q (λ z. not_tail (sym z)),
                ne→== back.last.prev q (λ z. not_previous (sym z)),
              )
              at,
          addr,
          prev,
          back.linked,
        ),
      );
    }

init-IsApartFrom : (p : ℕ) (nodes : List (ℕ × ℕ)) → IsApartFrom p nodes → IsApartFrom p (init nodes)
init-IsApartFrom p [] h = tt
init-IsApartFrom p (x ∷ []) h = tt
init-IsApartFrom p (x ∷ y ∷ xs) h = (h.0, init-IsApartFrom p (y ∷ xs) h.1)

init-IsDistinct : (nodes : List (ℕ × ℕ)) → IsDistinct nodes → IsDistinct (init nodes)
init-IsDistinct [] h = tt
init-IsDistinct (x ∷ []) h = tt
init-IsDistinct (x ∷ y ∷ xs) h = (init-IsApartFrom x.0 (y ∷ xs) h.0, init-IsDistinct (y ∷ xs) h.1)

module _ (s : BtreeStack) where
  remove_tail-empty : s.head ≡ 0 → remove_tail s ≡ some (0, s)
  unfolding remove_tail
  remove_tail-empty e = rw (eq→== s.head 0 e) refl

  remove_tail-one :
      (old : StackNode)
      → s.head ≢ 0
      → s.head ≡ s.tail
      → s.memory s.tail ≡ some old
      → remove_tail s
        ≡ some
            (old.node_address, record s { memory = place s.memory s.tail none; head = 0; tail = 0 })
  unfolding remove_tail detach_node free_node
  remove_tail-one old ne one at =
      let tail_ne : s.tail ≢ 0 = λ z. ne (one ∙ z) in
      simp (ne→== s.head 0 ne, ne→== s.tail 0 tail_ne, eq→== s.head s.tail one, at) refl

  remove_tail-more :
      (last previous : StackNode)
      → s.head ≢ 0
      → s.tail ≢ 0
      → s.head ≢ s.tail
      → s.memory s.tail ≡ some last
      → last.prev ≢ 0
      → s.tail ≢ last.prev
      → s.memory last.prev ≡ some previous
      → remove_tail s
        ≡ some (
          last.node_address,
          record s { memory = cut s.memory s.tail last previous; tail = last.prev },
        )
  unfolding remove_tail detach_node free_node detach_tail set_next
  remove_tail-more last previous ne tail_ne more at prev_ne other at_prev =
      simp
        (
          ne→== s.head 0 ne,
          ne→== s.tail 0 tail_ne,
          ne→== s.head s.tail more,
          ne→== s.tail s.head (λ z. more (sym z)),
          eq→== s.tail s.tail refl,
          at,
          ne→== last.prev 0 prev_ne,
          ne→== last.prev s.tail (λ z. other (sym z)),
          at_prev,
        )
        refl

  pub remove_tail-Holds :
      (nodes : List (ℕ × ℕ))
      → Holds s nodes
      → (s' : BtreeStack) × (remove_tail s ≡ some (last_address nodes, s')) × Holds s' (init nodes)
  remove_tail-Holds [] holds = (s, remove_tail-empty holds.linked.0, holds)
  remove_tail-Holds ((p, v) ∷ []) holds =
      let (e, ne, (old, at, addr, prev, (no_next, last))) = holds.linked in
      let after : BtreeStack = record s {
        memory = place s.memory s.tail none;
        head = 0;
        tail = 0;
      } in
      (
        after,
        remove_tail-one old (λ z. ne (sym e ∙ z)) (e ∙ sym last) (ap s.memory last ∙ at)
            ∙ ap (λ a. some (a, after)) addr,
        record { linked = (refl, refl); distinct = tt },
      )
  remove_tail-Holds ((p, v) ∷ (q, u) ∷ nodes) holds =
      let (e, ne, (old, at, addr, prev, (e2, ne2, (after, at2, addr2, prev2, rest)))) =
        holds.linked in
      let (other, apart) = holds.distinct.0 in
      let more : s.head ≢ s.tail = λ z.
        apart_tail s.memory p after.next q nodes s.tail (λ w. other (sym w)) apart rest
          (sym e ∙ z) in
      let back =
        linked-HasTail s.memory s.head 0 p v q u nodes s.tail holds.linked holds.distinct in
      let tail_ne = (tail_node s.memory s.head 0 p v ((q, u) ∷ nodes) s.tail holds.linked).0 in
      let left : BtreeStack = record s {
        memory = cut s.memory s.tail back.last back.previous;
        tail = back.last.prev;
      } in
      (
        left,
        remove_tail-more back.last back.previous (λ z. ne (sym e ∙ z)) tail_ne more back.at
              back.nonzero back.other back.at_previous
            ∙ ap (λ a. some (a, left)) back.address,
        record {
          linked = back.linked;
          distinct = init-IsDistinct ((p, v) ∷ (q, u) ∷ nodes) holds.distinct;
        },
      )

length-init : (x : ℕ × ℕ) (nodes : List (ℕ × ℕ)) → length (init (x ∷ nodes)) ≡ length nodes
length-init x [] = refl
length-init x (y ∷ nodes) = ap suc (length-init y nodes)

clear-suc :
    (rounds : ℕ) (s : BtreeStack)
    → clear (suc rounds) s ≡ (
        if is_empty s
        then some (make_empty s)
        else (remove_tail s >>= λ removed. clear rounds removed.1))
unfolding clear
clear-suc rounds s = refl

clear-step :
    (rounds v : ℕ) (s s1 : BtreeStack)
    → s.head ≢ 0
    → remove_tail s ≡ some (v, s1)
    → clear (suc rounds) s ≡ clear rounds s1
clear-step rounds v s s1 ne done = clear-suc rounds s ∙ rw (ne→== s.head 0 ne, done) refl

-- `Clear` with as many rounds as there are nodes.
pub clear-Holds :
    (rounds : ℕ) (s : BtreeStack) (nodes : List (ℕ × ℕ))
    → length nodes ≤ rounds
    → Holds s nodes
    → (s' : BtreeStack) × (clear rounds s ≡ some s') × Holds s' []
unfolding clear
clear-Holds zero s [] h holds = (
  record s { head = 0; tail = 0 },
  rw (eq→== s.head 0 holds.linked.0) refl,
  record { linked = (refl, refl); distinct = tt },
)
clear-Holds (suc rounds) s [] h holds = (
  record s { head = 0; tail = 0 },
  rw (eq→== s.head 0 holds.linked.0) refl,
  record { linked = (refl, refl); distinct = tt },
)
clear-Holds zero s (x ∷ nodes) h holds = absurd (omega arith)
clear-Holds (suc rounds) s ((q, v) ∷ nodes) h holds =
    let (s1, done, holds1) = remove_tail-Holds s ((q, v) ∷ nodes) holds in
    let (s2, rest, cleared) =
      clear-Holds rounds s1 (init ((q, v) ∷ nodes)) (omega (arith, length-init (q, v) nodes))
        holds1 in
    let head_ne : s.head ≢ 0 = λ z. holds.linked.1 (sym holds.linked.0 ∙ z) in
    (s2, clear-step rounds _ s s1 head_ne done ∙ rest, cleared)

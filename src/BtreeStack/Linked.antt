-- ===== src/BtreeStack/Linked.antt =====
-- The nodes of a stack, from its head to its tail, and what the operations make of them.
use datareel.Prelude.{
  none-some, All, ℕ, ◌≡◌, ◌≢◌, refl, sym, ap, ◌∙◌, Option, none, some, List, [], ◌∷◌, ◌++◌, ne→==,
  eq→==,
}
use mathlib.Core.Option.{some-injective}
use datareel.BtreeStack.{StackNode, BtreeStack, place}

abbrev pub Memory : Type 0
Memory = ℕ → Option StackNode

-- From `p`, which follows `before`, to `tail` stand nodes at these pointers with these addresses.
abbrev pub IsLinked : Memory → ℕ → ℕ → List (ℕ × ℕ) → ℕ → Type 0
IsLinked memory p before [] tail = (p ≡ 0) × (tail ≡ before)
IsLinked memory p before ((q, v) ∷ nodes) tail =
    (p ≡ q)
    × (q ≢ 0)
    × ((node : StackNode) × (memory q ≡ some node)
        × (node.node_address ≡ v)
        × (node.prev ≡ before)
        × IsLinked memory node.next q nodes tail)

abbrev pub IsApartFrom : ℕ → List (ℕ × ℕ) → Type 0
IsApartFrom p nodes = All (λ (q : ℕ × ℕ). q.0 ≢ p) nodes

abbrev pub IsDistinct : List (ℕ × ℕ) → Type 0
IsDistinct [] = Unit
IsDistinct (q ∷ nodes) = IsApartFrom q.0 nodes × IsDistinct nodes

-- A stack with these pointers and addresses, the head first.
pub record Holds (s : BtreeStack) (nodes : List (ℕ × ℕ)) : Type 0 where
  pub linked : IsLinked s.memory s.head 0 nodes s.tail
  pub distinct : IsDistinct nodes

-- A write elsewhere.
pub place-IsLinked :
    (memory : Memory) (r : ℕ) (written : Option StackNode) (p before : ℕ) (nodes : List (ℕ × ℕ))
    (tail : ℕ)
    → IsApartFrom r nodes
    → IsLinked memory p before nodes tail
    → IsLinked (place memory r written) p before nodes tail
place-IsLinked memory r written p before [] tail apart linked = linked
place-IsLinked memory r written p before ((q, v) ∷ nodes) tail (other, apart)
      (e, ne, (node, at, addr, prev, rest)) =
    (
      e,
      ne,
      (
        node,
        rw (ne→== r q (λ same. other (sym same))) at,
        addr,
        prev,
        place-IsLinked memory r written node.next q nodes tail apart rest,
      ),
    )

-- A pointer that is not in use is not in the stack.
pub unused_apart :
    (memory : Memory) (n p before : ℕ) (nodes : List (ℕ × ℕ)) (tail : ℕ)
    → memory n ≡ none
    → IsLinked memory p before nodes tail
    → IsApartFrom n nodes
unused_apart memory n p before [] tail unused linked = tt
unused_apart memory n p before ((q, v) ∷ nodes) tail unused (e, ne, (node, at, addr, prev, rest)) =
    (
      λ same. none-some (sym unused ∙ ap memory (sym same) ∙ at),
      unused_apart memory n node.next q nodes tail unused rest,
    )

-- A pointer that is not in the list is not its tail.
pub apart_tail :
    (memory : Memory) (r p before : ℕ) (nodes : List (ℕ × ℕ)) (tail : ℕ)
    → r ≢ before
    → IsApartFrom r nodes
    → IsLinked memory p before nodes tail
    → r ≢ tail
apart_tail memory r p before [] tail other apart linked = λ same. other (same ∙ linked.1)
apart_tail memory r p before ((q, v) ∷ nodes) tail other (ne, apart)
      (e, pos, (node, at, addr, prev, rest)) =
    apart_tail memory r node.next q nodes tail (λ same. ne (sym same)) apart rest

-- The last node.
pub tail_node :
    (memory : Memory) (p before q v : ℕ) (nodes : List (ℕ × ℕ)) (tail : ℕ)
    → IsLinked memory p before ((q, v) ∷ nodes) tail
    → (tail ≢ 0) × ((old : StackNode) × (memory tail ≡ some old))
tail_node memory p before q v [] tail (e, ne, (node, at, addr, prev, (no_next, last))) =
    (λ z. ne (sym last ∙ z), (node, ap memory last ∙ at))
tail_node memory p before q v ((r, u) ∷ nodes) tail (e, ne, (node, at, addr, prev, rest)) =
    tail_node memory node.next q r u nodes tail rest

-- One node more after the last.
pub join-IsLinked :
    (memory : Memory) (n u p before q v : ℕ) (nodes : List (ℕ × ℕ)) (tail : ℕ) (old : StackNode)
    → n ≢ 0
    → memory tail ≡ some old
    → memory n ≡ some (record { node_address = u; next = 0; prev = tail })
    → IsApartFrom n ((q, v) ∷ nodes)
    → IsDistinct ((q, v) ∷ nodes)
    → IsLinked memory p before ((q, v) ∷ nodes) tail
    → IsLinked
        (place memory tail (some (record old { next = n })))
        p
        before
        (((q, v) ∷ nodes) ++ ((n, u) ∷ []))
        n
join-IsLinked memory n u p before q v [] tail old pos at_tail at_n (other, _) distinct
      (e, ne, (node, at, addr, prev, (no_next, last))) =
    let is_old : node ≡ old = some-injective _ _ (sym at ∙ sym (ap memory last) ∙ at_tail) in
    (
      e,
      ne,
      (
        record old { next = n },
        rw (eq→== tail q last) refl,
        sym (ap (λ (x : StackNode). x.node_address) is_old) ∙ addr,
        sym (ap (λ (x : StackNode). x.prev) is_old) ∙ prev,
        (
          refl,
          pos,
          (
            record { node_address = u; next = 0; prev = tail },
            rw (ne→== tail n (λ z. other (sym last ∙ z))) at_n,
            refl,
            last,
            (refl, refl),
          ),
        ),
      ),
    )
join-IsLinked memory n u p before q v ((r, w) ∷ nodes) tail old pos at_tail at_n (other, apart)
      ((ne_r, apart_q), distinct) (e, ne, (node, at, addr, prev, rest)) =
    let (e2, ne2, (node2, at2, addr2, prev2, rest2)) = rest in
    let not_last : q ≢ tail =
      apart_tail memory q node2.next r nodes tail (λ z. ne_r (sym z)) apart_q rest2 in
    (
      e,
      ne,
      (
        node,
        rw (ne→== tail q (λ z. not_last (sym z))) at,
        addr,
        prev,
        join-IsLinked memory n u node.next q r w nodes tail old pos at_tail at_n apart distinct
            rest,
      ),
    )

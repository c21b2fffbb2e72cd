-- ===== src/BtreeStack/Ends.antt =====
-- What Push, Insert, Pop and Extract make of the nodes.
use datareel.Prelude.{
  none-some, All-last, ℕ, ◌≡◌, ◌≢◌, refl, sym, ap, ◌∙◌, Option, none, some, List, [], ◌∷◌, ◌++◌,
  ne→==, eq→==,
}
use mathlib.Core.Path.{subst}
use datareel.BtreeStack.{
  StackNode, BtreeStack, place, set_next, set_prev, alloc_node, free_node, detach_head, detach_node,
  insert_before, insert_after, push, insert, remove_head,
}
use datareel.BtreeStack.Linked.{
  Memory, IsApartFrom, IsDistinct, Holds, place-IsLinked, unused_apart, apart_tail, tail_node,
  join-IsLinked,
}

-- The node that `AllocNode` makes, with its links.
abbrev linked_node : ℕ → ℕ → ℕ → Option StackNode
linked_node v next prev = some (record { node_address = v; next = next; prev = prev })

-- Memory after the writes of `InsertBefore` at the head.
abbrev pushed : ℕ → ℕ → BtreeStack → StackNode → Memory
pushed n v s old =
    place
      (place (place (place s.memory n (linked_node v 0 0)) n (linked_node v 0 0)) n
        (linked_node v s.head 0))
      s.head (some (record old { prev = n }))

module _ (n v : ℕ) (s : BtreeStack) (pos : n ≢ 0) (unused : s.memory n ≡ none) where
  push-empty :
      s.head ≡ 0
      → push n v s
        ≡ some (record s { memory = place s.memory n (linked_node v 0 0); head = n; tail = n })
  unfolding push alloc_node insert_before
  push-empty e = rw (eq→== s.head 0 e) refl

  push-head :
      (old : StackNode)
      → s.head ≢ 0
      → s.memory s.head ≡ some old
      → push n v s ≡ some (record s { memory = pushed n v s old; head = n })
  unfolding push alloc_node insert_before set_prev set_next
  push-head old ne at =
      let other : n ≢ s.head = λ same. none-some (sym unused ∙ ap s.memory same ∙ at) in
      simp (ne→== s.head 0 ne, eq→== s.head s.head refl, eq→== n n refl, ne→== n s.head other, at)
        refl

  pub push-Holds :
      (nodes : List (ℕ × ℕ))
      → Holds s nodes
      → (s' : BtreeStack) × (push n v s ≡ some s') × Holds s' ((n, v) ∷ nodes)
  push-Holds [] holds = (
    _,
    push-empty holds.linked.0,
    record {
      linked = (refl, pos, (_, rw (eq→== n n refl) refl, refl, refl, (refl, refl)));
      distinct = (tt, tt);
    },
  )
  push-Holds ((q, u) ∷ nodes) holds =
      let (e, ne, (old, at, addr, prev, rest)) = holds.linked in
      let apart = unused_apart s.memory n s.head 0 ((q, u) ∷ nodes) s.tail unused holds.linked in
      let head_apart = subst (λ z. IsApartFrom z nodes) (sym e) holds.distinct.0 in
      let head_ne : s.head ≢ n = λ same. apart.0 (sym e ∙ same) in
      let m1 : Memory = place s.memory n (linked_node v 0 0) in
      let m2 : Memory = place m1 n (linked_node v 0 0) in
      let m3 : Memory = place m2 n (linked_node v s.head 0) in
      let others =
        place-IsLinked m3 s.head (some (record old { prev = n })) old.next q nodes s.tail head_apart
          (place-IsLinked m2 n (linked_node v s.head 0) old.next q nodes s.tail apart.1 (
            place-IsLinked m1 n (linked_node v 0 0) old.next q nodes s.tail apart.1 (
              place-IsLinked s.memory n (linked_node v 0 0) old.next q nodes s.tail apart.1
                rest))) in
      (
        _,
        push-head old (λ z. ne (sym e ∙ z)) (ap s.memory e ∙ at),
        record {
          linked = (
            refl,
            pos,
            (
              _,
              rw (ne→== s.head n head_ne, eq→== n n refl) refl,
              refl,
              refl,
              (e, ne, (_, rw (eq→== s.head q e) refl, addr, refl, others)),
            ),
          );
          distinct = (apart, holds.distinct);
        },
      )

-- Memory after the head is detached and freed.
abbrev popped : Memory → ℕ → ℕ → StackNode → Memory
popped memory p next node = place (place memory next (some (record node { prev = 0 }))) p none

module _ (s : BtreeStack) where
  pop-one :
      (old : StackNode)
      → s.head ≢ 0
      → s.head ≡ s.tail
      → s.memory s.head ≡ some old
      → remove_head s
        ≡ some
            (old.node_address, record s { memory = place s.memory s.head none; head = 0; tail = 0 })
  unfolding remove_head detach_node free_node
  pop-one old ne one at = simp (ne→== s.head 0 ne, eq→== s.head s.tail one, at) refl

  pop-head :
      (old after : StackNode)
      → s.head ≢ 0
      → s.head ≢ s.tail
      → s.memory s.head ≡ some old
      → old.next ≢ 0
      → old.next ≢ s.head
      → s.memory old.next ≡ some after
      → remove_head s
        ≡ some (
          old.node_address,
          record s { memory = popped s.memory s.head old.next after; head = old.next },
        )
  unfolding remove_head detach_node free_node detach_head set_prev
  pop-head old after ne more at next_ne next_other at_next =
      simp
        (
          ne→== s.head 0 ne,
          ne→== s.head s.tail more,
          eq→== s.head s.head refl,
          at,
          ne→== old.next 0 next_ne,
          ne→== old.next s.head next_other,
          at_next,
        )
        refl

  pub pop-Holds :
      (p v : ℕ) (nodes : List (ℕ × ℕ))
      → Holds s ((p, v) ∷ nodes)
      → (s' : BtreeStack) × (remove_head s ≡ some (v, s')) × Holds s' nodes × (s'.memory p ≡ none)
  pop-Holds p v [] holds =
      let (e, ne, (old, at, addr, prev, (no_next, last))) = holds.linked in
      (
        record s { memory = place s.memory s.head none; head = 0; tail = 0 },
        pop-one old (λ z. ne (sym e ∙ z)) (e ∙ sym last) (ap s.memory e ∙ at)
            ∙ ap
                (λ a.
                  some (a, record s { memory = place s.memory s.head none; head = 0; tail = 0 }))
                addr,
        record { linked = (refl, refl); distinct = tt },
        rw (eq→== s.head p e) refl,
      )
  pop-Holds p v ((q, u) ∷ nodes) holds =
      let (e, ne, (old, at, addr, prev, (e2, ne2, (after, at2, addr2, prev2, rest)))) =
        holds.linked in
      let ((other, apart), (apart2, distinct)) = holds.distinct in
      let more : s.head ≢ s.tail = λ z.
        apart_tail s.memory p after.next q nodes s.tail (λ w. other (sym w)) apart rest
          (sym e ∙ z) in
      let head_apart = subst (λ z. IsApartFrom z nodes) (sym e) apart in
      let next_apart = subst (λ z. IsApartFrom z nodes) (sym e2) apart2 in
      let written = some (record after { prev = 0 }) in
      (
        record s { memory = popped s.memory s.head old.next after; head = old.next },
        pop-head old after (λ z. ne (sym e ∙ z)) more (ap s.memory e ∙ at) (λ z. ne2 (sym e2 ∙ z))
              (λ z. other (sym e2 ∙ z ∙ e)) (ap s.memory e2 ∙ at2)
            ∙ ap
                (λ a.
                  some (
                    a,
                    record s { memory = popped s.memory s.head old.next after; head = old.next },
                  ))
                addr,
        record {
          linked = (
            e2,
            ne2,
            (
              record after { prev = 0 },
              rw (ne→== s.head q (λ z. other (sym z ∙ e)), eq→== old.next q e2) refl,
              addr2,
              refl,
              place-IsLinked (place s.memory old.next written) s.head none after.next q nodes s.tail
                  head_apart
                  (place-IsLinked s.memory old.next written after.next q nodes s.tail next_apart
                    rest),
            ),
          );
          distinct = (apart2, distinct);
        },
        rw (eq→== s.head p e) refl,
      )

-- Memory before the last write of `InsertAfter` at the tail.
abbrev new_tail : ℕ → ℕ → BtreeStack → Memory
new_tail n v s =
    place (place (place s.memory n (linked_node v 0 0)) n (linked_node v 0 0)) n
      (linked_node v 0 s.tail)

module _ (n v : ℕ) (s : BtreeStack) (pos : n ≢ 0) (unused : s.memory n ≡ none) where
  insert-empty :
      s.head ≡ 0
      → insert n v s
        ≡ some (record s { memory = place s.memory n (linked_node v 0 0); head = n; tail = n })
  unfolding insert alloc_node insert_after
  insert-empty e = rw (eq→== s.head 0 e) refl

  insert-tail :
      (old : StackNode)
      → s.head ≢ 0
      → s.memory s.tail ≡ some old
      → insert n v s
        ≡ some (record s {
          memory = place (new_tail n v s) s.tail (some (record old { next = n }));
          tail = n;
        })
  unfolding insert alloc_node insert_after set_prev set_next
  insert-tail old ne at =
      let other : n ≢ s.tail = λ same. none-some (sym unused ∙ ap s.memory same ∙ at) in
      simp (ne→== s.head 0 ne, eq→== s.tail s.tail refl, eq→== n n refl, ne→== n s.tail other, at)
        refl

  IsDistinct-last :
      (nodes : List (ℕ × ℕ))
      → IsApartFrom n nodes
      → IsDistinct nodes
      → IsDistinct (nodes ++ ((n, v) ∷ []))
  IsDistinct-last [] apart distinct = (tt, tt)
  IsDistinct-last (q ∷ nodes) (ne, apart) (other, distinct) = (
    All-last (λ (r : ℕ × ℕ). r.0 ≢ q.0) nodes (n, v) other (λ z. ne (sym z)),
    IsDistinct-last nodes apart distinct,
  )

  pub insert-Holds :
      (nodes : List (ℕ × ℕ))
      → Holds s nodes
      → (s' : BtreeStack) × (insert n v s ≡ some s') × Holds s' (nodes ++ ((n, v) ∷ []))
  insert-Holds [] holds = (
    _,
    insert-empty holds.linked.0,
    record {
      linked = (refl, pos, (_, rw (eq→== n n refl) refl, refl, refl, (refl, refl)));
      distinct = (tt, tt);
    },
  )
  insert-Holds ((q, u) ∷ nodes) holds =
      let all = (q, u) ∷ nodes in
      let apart = unused_apart s.memory n s.head 0 all s.tail unused holds.linked in
      let (tail_ne, (old, at)) = tail_node s.memory s.head 0 q u nodes s.tail holds.linked in
      let other : n ≢ s.tail = λ same. none-some (sym unused ∙ ap s.memory same ∙ at) in
      let m1 : Memory = place s.memory n (linked_node v 0 0) in
      let m2 : Memory = place m1 n (linked_node v 0 0) in
      (
        _,
        insert-tail old (λ z. holds.linked.1 (sym holds.linked.0 ∙ z)) at,
        record {
          linked =
              join-IsLinked (new_tail n v s) n v s.head 0 q u nodes s.tail old pos
                (rw (ne→== n s.tail other) at) (rw (eq→== n n refl) refl) apart holds.distinct
                (place-IsLinked m2 n (linked_node v 0 s.tail) s.head 0 all s.tail apart (
                  place-IsLinked m1 n (linked_node v 0 0) s.head 0 all s.tail apart (
                    place-IsLinked s.memory n (linked_node v 0 0) s.head 0 all s.tail apart
                      holds.linked)));
          distinct = IsDistinct-last all apart holds.distinct;
        },
      )

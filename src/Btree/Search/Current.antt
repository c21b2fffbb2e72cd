-- ===== src/Btree/Search/Current.antt =====
-- `FindNext` on a stored tree that has no node without keys: in the current node, and from the root.
use mathlib.Core.Path.{subst}
use datareel.Prelude.{
  ℕ, zero, suc, ◌≤◌, ◌≡◌, ◌⊎◌, refl, sym, ap, ◌∙◌, true, arith, none, List, [], ◌∷◌, ◌++◌, length,
  ltb, append_assoc, append-nil, inl, inr, has, IsAscending, IsAscending-middle,
}
use datareel.Btree.Key.{DatabaseKeyB}
use datareel.Btree.Node.{
  BtreeNode, Location, equal, greater, less, key_count, find_from, find_key_location,
}
use datareel.Btree.State.{NodeFile, GxBtreeHeader, GxBtree, Result, max_node_reads}
use datareel.Btree.Search.Ends.{Hit, next_from}
use datareel.Btree.Search.Find.{find_next}
use datareel.Btree.Shape.{
  Tree, Branches, leaf, node, entries_of, child_at, stored_node, Stored, ranks,
}
use datareel.Btree.Shape.Lookup.{IsAt, find_from-IsAt, child_at-Stored}
use datareel.Btree.Shape.Place.{before_at, after_at, ranks_in, ranks_in-child_at}
use datareel.Btree.Search.Correct.{capacity, node_of, IsTree}
use datareel.Btree.Shape.Filled.{Filled, child_at-Filled}
use datareel.Btree.Search.After.{
  get_elem?-lt, first_or, first_or-append, Answers, Next, next_from-Answers,
}
use datareel.Btree.Search.Next.{ranks_in-entry, root_walk-Next}

-- In an ascending list a number stands at one place only.
same_after :
    (b c : List ℕ) (r : ℕ) (xs ys : List ℕ)
    → IsAscending (b ++ (r ∷ xs))
    → b ++ (r ∷ xs) ≡ c ++ (r ∷ ys)
    → xs ≡ ys
same_after [] [] r xs ys asc e = cc
same_after [] (z ∷ c) r xs ys asc e =
    let same : r ≡ z = cc in
    let before = (IsAscending-middle (z ∷ c) r ys (subst IsAscending e asc)).0 in
    absurd (omega arith)
same_after (y ∷ b) [] r xs ys asc e =
    let same : y ≡ r = cc in
    let before = (IsAscending-middle (y ∷ b) r xs asc).0 in absurd (omega arith)
same_after (y ∷ b) (z ∷ c) r xs ys asc e = same_after b c r xs ys asc.1 cc

module _ {K : Type 0} where
  -- A node of the tree, with the slots on the way to it.
  abbrev pub Occurs : List ℕ → Tree K → ℕ → Tree K → Branches K → Type 0
  Occurs [] t a l bs = t ≡ node a l bs
  Occurs (s ∷ path) leaf a l bs = leaf ≡ node a l bs
  Occurs (s ∷ path) (node b m cs) a l bs =
      (s ≤ length (entries_of cs)) × Occurs path (child_at m cs s) a l bs

module _ {K : Type 0} ⦃order : DatabaseKeyB K⦄ where
  -- The current node holds no key, or it is a node of the tree.
  abbrev pub IsCurrent : GxBtreeHeader → Tree K → BtreeNode K → Type 0
  IsCurrent hdr shape curr_node =
      (key_count curr_node ≡ 0)
      ⊎ ((path : List ℕ) × (a : ℕ) × (l : Tree K) × (bs : Branches K) × Occurs path shape a l bs
          × (curr_node ≡ node_of hdr a (stored_node l bs)))

  record Inside (hdr : GxBtreeHeader) (file : NodeFile K) (height : ℕ) (t : Tree K) (a : ℕ)
      (l : Tree K) (bs : Branches K) : Type 0 where
    below : ℕ
    before : List ℕ
    after : List ℕ
    parts : ranks t ≡ before ++ (ranks_in (l, bs) ++ after)
    levels : suc below ≤ height
    stored : Stored file.nodes (capacity hdr) (suc below) (node a l bs)
    filled : Filled (node a l bs)

  Occurs-Inside :
      (hdr : GxBtreeHeader) (file : NodeFile K) (path : List ℕ) (height : ℕ) (t : Tree K) (a : ℕ)
      (l : Tree K) (bs : Branches K)
      → Occurs path t a l bs
      → Stored file.nodes (capacity hdr) height t
      → Filled t
      → Inside hdr file height t a l bs
  Occurs-Inside hdr file [] zero t a l bs here st filled =
      elim (subst (λ z. Stored file.nodes (capacity hdr) zero z) here st) [ ]
  Occurs-Inside hdr file [] (suc height) t a l bs here st filled = record {
    below = height;
    before = [];
    after = [];
    parts = ap ranks here ∙ sym (append-nil (ranks_in (l, bs)));
    levels = omega arith;
    stored = subst (λ z. Stored file.nodes (capacity hdr) (suc height) z) here st;
    filled = subst Filled here filled;
  }
  Occurs-Inside hdr file (s ∷ path) height leaf a l bs here st filled = cc
  Occurs-Inside hdr file (s ∷ path) zero (node b m cs) a l bs here st filled = elim st [ ]
  Occurs-Inside hdr file (s ∷ path) (suc height) (node b m cs) a l bs (inside, here) st filled =
      let rec =
        Occurs-Inside hdr file path height (child_at m cs s) a l bs here
          (child_at-Stored file.nodes (capacity hdr) height m cs s inside st.3 st.4)
          (child_at-Filled m cs s filled.1 filled.2) in
      record {
        below = rec.below;
        before = before_at m cs s ++ rec.before;
        after = rec.after ++ after_at cs s;
        parts =
            ranks_in-child_at m cs s
            ∙ ap (λ z. before_at m cs s ++ (z ++ after_at cs s)) rec.parts
            ∙ simp append_assoc;
        levels = omega (arith, rec.levels);
        stored = rec.stored;
        filled = rec.filled;
      }

  -- At a location of the current node, where the walk from the root has the answer.
  current-Next :
      (hdr : GxBtreeHeader) (file : NodeFile K) (left height : ℕ) (t : Tree K) (a : ℕ) (l : Tree K)
      (bs : Branches K) (k : K) (at : Location) (walk : Result (Hit K))
      → Inside hdr file height t a l bs
      → suc height ≤ left
      → IsAscending (ranks t)
      → IsAt k (entries_of bs) at
      → Next (order.rank k) (ranks t) none walk
      → Next (order.rank k) (ranks t) none (elim at [
        | equal i ↦ next_from hdr file left (node_of hdr a (stored_node l bs)) i walk
        | _ ↦ walk
      ])
  current-Next hdr file left height t a l bs k less walk is h asc at next = next
  current-Next hdr file left height t a l bs k (greater i) walk is h asc at next = next
  current-Next hdr file left height t a l bs k (equal i) walk is h asc (e, has_e, same)
        (first, others, split, answers) =
      let r = order.rank k in
      let st = is.stored in
      let rest = ranks (child_at l bs (suc i)) ++ after_at bs (suc i) in
      let front = is.before ++ (before_at l bs i ++ ranks (child_at l bs i)) in
      let whole : ranks t ≡ front ++ (r ∷ (rest ++ is.after)) =
        is.parts
        ∙ ap (λ z. is.before ++ (z ++ is.after)) (ranks_in-entry l bs i r e has_e same)
        ∙ simp append_assoc in
      let follow : others ≡ rest ++ is.after =
        same_after first front r others (rest ++ is.after) (subst IsAscending split asc)
          (sym split ∙ whole) in
      let inside = get_elem?-lt (entries_of bs) i e has_e in
      let answers' =
        next_from-Answers hdr file left is.below a l bs i (child_at l bs (suc i))
          (first_or is.after none) walk inside refl (omega (arith, is.levels))
          (child_at-Stored file.nodes (capacity hdr) is.below l bs (suc i) (omega arith) st.3 st.4)
          (child_at-Filled l bs (suc i) is.filled.1 is.filled.2)
          (λ last.
            subst (λ z. Answers (first_or z none) walk) (follow ∙ ap (λ z. z ++ is.after) last)
              answers) in
      (
        front,
        rest ++ is.after,
        whole,
        subst (λ z. Answers z (next_from hdr file left (node_of hdr a (stored_node l bs)) i walk))
            (sym (first_or-append rest is.after none)) answers',
      )

  -- On an open file that stores a B-tree of ordered keys, each of whose nodes holds a key, with one
  -- more read allowed than the tree has levels: `FindNext` of a key whose rank the tree holds, with a
  -- current node that has no keys or is a node of the tree, loads a key of the rank that follows it
  -- in the tree. Where it is the last one, it loads no key and sets no new error code.
  pub find_next-Next :
      (t : GxBtree K) (height : ℕ) (shape : Tree K) (curr_node : BtreeNode K) (k : K)
      → IsTree t height shape
      → Filled shape
      → suc height ≤ max_node_reads
      → IsCurrent t.btree_header shape curr_node
      → has (order.rank k) (ranks shape) ≡ true
      → Next (order.rank k) (ranks shape) none (find_next t curr_node k)
  unfolding find_next find_key_location
  find_next-Next t height shape curr_node k is filled reads (inl empty) there =
      rw (is.open_file, empty) (root_walk-Next t height shape k is filled reads there)
  find_next-Next t height shape curr_node k is filled reads (inr (path, a, l, bs, here, same))
        there =
      let hdr = t.btree_header in
      let within = Occurs-Inside hdr t.file path height shape a l bs here is.stored filled in
      let keys : ltb 0 (length (entries_of bs)) ≡ true = ground (arith, within.filled.0) in
      subst (λ n. Next (order.rank k) (ranks shape) none (find_next t n k)) (sym same)
        (rw (is.open_file, keys)
          (current-Next hdr t.file max_node_reads height shape a l bs k
            (find_from k (entries_of bs)) _ within reads is.ordered
            (find_from-IsAt k (entries_of bs))
            (root_walk-Next t height shape k is filled reads there)))

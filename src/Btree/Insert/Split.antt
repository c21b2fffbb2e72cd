-- ===== src/Btree/Insert/Split.antt =====
-- The split of a full node in `InsertDatabaseKey`: no key is lost, and the order of the keys stays.
use datareel.Prelude.{
  ℕ, suc, ◌+◌, ◌-◌, ◌/◌, ◌≤◌, ◌<◌, ◌≡◌, refl, sym, ap, ◌∙◌, some, List, ◌∷◌, ◌++◌, ltb, arith,
  Bool-cases, inl, inr, length, take, drop, insert_at, length-take, length-drop, length-insert_at,
  take-append-drop, insert_at-left, insert_at-right, drop-head, ltb→lt, ltb→le,
}
use datareel.Btree.Node.{Entry, BtreeNode, key_count, load_key, split_node, insert_key, delete_key}
use datareel.Btree.Insert.{split_insert, split_point}

module _ {K : Type 0} where
  -- The two nodes and the key between them, in their order.
  abbrev pub joined : BtreeNode K × BtreeNode K × Entry K → List (Entry K)
  joined (curr, right, middle) = curr.key_entries ++ (middle ∷ right.key_entries)

  -- What a split makes of a node with one key too many.
  pub record IsSplit (node_order : ℕ) (entries : List (Entry K)) (key : Entry K) (key_location : ℕ)
      (r : BtreeNode K × BtreeNode K × Entry K) : Type 0 where
    pub keeps : joined r ≡ insert_at entries key_location key
    pub left_least : node_order / 2 ≤ suc (key_count r.0)
    pub left_most : key_count r.0 ≤ node_order / 2
    pub right_least : node_order ≤ suc (node_order / 2 + key_count r.1)
    pub right_most : node_order / 2 + key_count r.1 ≤ node_order

module _ {K : Type 0} (o : ℕ) (curr right : BtreeNode K) (key : Entry K) (k : ℕ) (middle : Entry K)
    (rest : List (Entry K)) (big : 5 ≤ o) (full : suc (key_count curr) ≡ o)
    (le : k ≤ key_count curr)
    (rests : drop (split_point o k) curr.key_entries ≡ middle ∷ rest) where
  back : take (split_point o k) curr.key_entries ++ (middle ∷ rest) ≡ curr.key_entries
  back =
      ap (λ r. take (split_point o k) curr.key_entries ++ r) (sym rests)
      ∙ take-append-drop (split_point o k) curr.key_entries

  split_point-bounds :
      (split_point o k ≤ o / 2)
      × (o / 2 ≤ suc (split_point o k))
      × (split_point o k < k → split_point o k ≡ o / 2)
      × (k < split_point o k → split_point o k < o / 2)
  split_point-bounds = (ground arith, ground arith, λ h. ground arith, λ h. ground arith)

  lengths :
      (length (take (split_point o k) curr.key_entries) ≡ split_point o k)
      × (split_point o k + suc (length rest) ≡ key_count curr)
  lengths =
      let taken = length-take (split_point o k) curr.key_entries in
      let dropped = sym (ap length rests) ∙ length-drop (split_point o k) curr.key_entries in
      let (most, least, _, _) = split_point-bounds in (omega arith, omega arith)

  IsSplit-above :
      split_point o k < k
      → IsSplit o curr.key_entries key k (
        record curr { key_entries = take (split_point o k) curr.key_entries },
        record right { key_entries = insert_at rest (k - split_point o k - 1) key },
        middle,
      )
  IsSplit-above above =
      let s = split_point o k in
      let (taken, all) = lengths in
      let (most, least, at_half, _) = split_point-bounds in
      let half = at_half above in
      let left = take s curr.key_entries in
      let inner : suc (k - s - 1) ≡ k - length left = omega arith in
      record {
        keeps =
            ap (λ i. left ++ insert_at (middle ∷ rest) i key) inner
            ∙ insert_at-right left (middle ∷ rest) k key (omega arith)
            ∙ ap (λ es. insert_at es k key) back;
        left_least = omega arith;
        left_most = omega arith;
        right_least = omega (arith, length-insert_at rest (k - s - 1) key);
        right_most = omega (arith, length-insert_at rest (k - s - 1) key);
      }

  IsSplit-below :
      k < split_point o k
      → IsSplit o curr.key_entries key k (
        record curr { key_entries = insert_at (take (split_point o k) curr.key_entries) k key },
        record right { key_entries = rest },
        middle,
      )
  IsSplit-below below =
      let taken = take (split_point o k) curr.key_entries in
      let (count, all) = lengths in
      let (most, least, _, at_half) = split_point-bounds in
      let half = at_half below in
      record {
        keeps =
            insert_at-left taken (middle ∷ rest) k key (omega arith)
            ∙ ap (λ es. insert_at es k key) back;
        left_least = omega (arith, length-insert_at taken k key);
        left_most = omega (arith, length-insert_at taken k key);
        right_least = omega arith;
        right_most = omega arith;
      }

  IsSplit-here :
      k ≡ split_point o k
      → IsSplit o curr.key_entries key k (
        record curr { key_entries = take (split_point o k) curr.key_entries },
        record right { key_entries = middle ∷ rest },
        key,
      )
  IsSplit-here here =
      let taken = take (split_point o k) curr.key_entries in
      let (count, all) = lengths in
      let (most, least, _, _) = split_point-bounds in
      let start : 0 ≡ k - length taken = omega arith in
      record {
        keeps =
            ap (λ i. taken ++ insert_at (middle ∷ rest) i key) start
            ∙ insert_at-right taken (middle ∷ rest) k key (omega arith)
            ∙ ap (λ es. insert_at es k key) back;
        left_least = omega arith;
        left_most = omega arith;
        right_least = omega arith;
        right_most = omega arith;
      }

-- A full node of a tree of order 5 or more is split at any insertion point: the keys of the left
-- node, the key that goes up and the keys of the right node are those of the node with the new
-- key at its place; the left node has half the order or one key less, and the right node the
-- rest.
pub split_insert-IsSplit :
    {K : Type 0} (node_order : ℕ) (curr right : BtreeNode K) (key : Entry K) (key_location : ℕ)
    → 5 ≤ node_order
    → suc (key_count curr) ≡ node_order
    → key_location ≤ key_count curr
    → (r : BtreeNode K × BtreeNode K × Entry K) × (split_insert node_order curr right key
          key_location
        ≡ some r)
      × IsSplit node_order curr.key_entries key key_location r
unfolding split_insert split_node load_key insert_key delete_key
split_insert-IsSplit o curr right key k big full le =
    let s = split_point o k in
    let (middle, rest, rests) = drop-head s curr.key_entries (ground arith) in
    elim (Bool-cases (ltb s k)) [
      | inl above ↦ (
        _,
        simp (above, rests) refl,
        IsSplit-above o curr right key k middle rest big full le rests (ltb→lt s k above),
      )
      | inr not_above ↦ elim (Bool-cases (ltb k s)) [
        | inl below ↦ (
          _,
          simp (not_above, below, rests) refl,
          IsSplit-below o curr right key k middle rest big full le rests (ltb→lt k s below),
        )
        | inr not_below ↦ (
          _,
          simp (not_above, not_below, rests) refl,
          IsSplit-here o curr right key k middle rest big full le rests
              (omega (arith, ltb→le s k not_above, ltb→le k s not_below)),
        )
      ]
    ]

-- The split leaves the left child of the node.
pub split_insert-left_child :
    {K : Type 0} (node_order : ℕ) (curr right : BtreeNode K) (key : Entry K) (key_location : ℕ)
    (r : BtreeNode K × BtreeNode K × Entry K)
    → split_insert node_order curr right key key_location ≡ some r
    → r.0.left_child ≡ curr.left_child
unfolding split_insert split_node load_key insert_key delete_key
split_insert-left_child o curr right key k r e = ground arith

-- ===== src/Cursor/Walk.antt =====
-- core/src/fs/btrfs/cursor.rs: a cursor passes the items of its tree, one after the other.
use mathlib.Core.Path.{subst}
use mathlib.Core.List.{append_assoc, append-nil}
use luks_android.Prelude.{
  ℕ, suc, ◌+◌, ◌≤◌, ◌<◌, ◌≡◌, ◌==◌, refl, sym, ap, ◌∙◌, true, false, List, [], ◌∷◌, ◌++◌, arith,
  lt→ltb, ge→ltb, drop, All,
}
use luks_android.Error.{Result, ok}
use luks_android.Tree.{Key, KeyPtr, Node, key, key_ptr, item_data, is_lt, cmp}
use luks_android.Cursor.{
  Cursor, valid, key_here, data_here, climb, descend_first, advance_to, advance,
}
use luks_android.Tree.Bound.{key_at, IsAscending}

abbrev pub Item : Type 0
Item = Key × List ℕ

-- The items of a leaf from an index on.
pub data LeafItems (n : Node) : ℕ → List Item → Type 0 where
  leaf_end : {i : ℕ} → n.nr_items ≤ i → LeafItems n i []
  leaf_item :
      {i : ℕ} {k : Key} {b : List ℕ} {xs : List Item}
      → i < n.nr_items
      → key n i ≡ ok k
      → item_data n i ≡ ok b
      → LeafItems n (i + 1) xs
      → LeafItems n i ((k, b) ∷ xs)

abbrev first_or : Item → List Item → Item
first_or other [] = other
first_or other (x ∷ xs) = x

abbrev pub IsBelow : Key → Item → Type 0
IsBelow k x = is_lt (cmp x.0 k) ≡ true

abbrev pub IsFrom : Key → Item → Type 0
IsFrom k x = is_lt (cmp x.0 k) ≡ false

-- The items below an entry are those from its key on, up to the key of the next one.
abbrev pub InRange : Node → ℕ → List Item → Type 0
InRange n i xs =
    All (IsFrom (key_at n i)) xs × (i + 1 < n.nr_items → All (IsBelow (key_at n (i + 1))) xs)

module _ (read_node : ℕ → Result Node) where
  mutual
    -- The items below a pointer to a node of a level, of which there are some.
    pub data Subtree : (level addr : ℕ) → List Item → Type 0 where
      subtree :
          {level addr : ℕ} {n : Node} {xs : List Item}
          → read_node addr ≡ ok n
          → NodeItems level n xs
          → Subtree level addr xs

    pub data NodeItems : (level : ℕ) → Node → List Item → Type 0 where
      in_leaf :
          {n : Node} {x : Item} {xs : List Item}
          → n.level ≡ 0
          → IsAscending n
          → LeafItems n 0 (x ∷ xs)
          → NodeItems 0 n (x ∷ xs)
      in_interior :
          {level : ℕ} {n : Node} {xs : List Item}
          → n.level ≡ suc level
          → IsAscending n
          → 0 < n.nr_items
          → Children level n 0 xs
          → NodeItems (suc level) n xs

    -- The items below the entries of an interior node from an index on.
    pub data Children : (level : ℕ) → Node → ℕ → List Item → Type 0 where
      no_child : {level i : ℕ} {n : Node} → n.nr_items ≤ i → Children level n i []
      child :
          {level i : ℕ} {n : Node} {p : KeyPtr} {xs ys zs : List Item}
          → i < n.nr_items
          → key_ptr n i ≡ ok p
          → Subtree level p.blockptr xs
          → InRange n i xs
          → Children level n (i + 1) ys
          → zs ≡ xs ++ ys
          → Children level n i zs

  -- The items behind a place, by the nodes above it.
  pub data Above : (level : ℕ) → List (Node × ℕ) → List Item → Type 0 where
    at_root : {level : ℕ} → Above level [] []
    below :
        {level i : ℕ} {n : Node} {above : List (Node × ℕ)} {xs ys zs : List Item}
        → n.level ≡ suc level
        → Children level n (i + 1) xs
        → Above (suc level) above ys
        → zs ≡ xs ++ ys
        → Above level ((n, i) ∷ above) zs

  -- The items from a cursor on.
  pub data Rest : Cursor → List Item → Type 0 where
    rest_end : {c : Cursor} → c.node.nr_items ≤ c.index → Rest c []
    rest_item :
        {c : Cursor} {x : Item} {xs ys zs : List Item}
        → LeafItems c.node c.index (x ∷ xs)
        → Above 0 c.above ys
        → zs ≡ x ∷ (xs ++ ys)
        → Rest c zs

  pub regroup :
      {c : Cursor} {xs zs : List Item} (us vs ys : List Item)
      → xs ≡ us ++ vs
      → zs ≡ xs ++ ys
      → Rest c (us ++ (vs ++ ys))
      → Rest c zs
  regroup us vs ys e f = subst (Rest _) (sym (f ∙ ap (λ ws. ws ++ ys) e ∙ append_assoc us vs ys))

  module _ {addr : ℕ} {n : Node} (above : List (Node × ℕ)) (r : read_node addr ≡ ok n) where
    leaf_step :
        n.level ≡ 0
        → descend_first read_node (suc 0) addr above
          ≡ ok (record { node = n; index = 0; above = above })
    unfolding descend_first
    leaf_step l = rw (r, at_level) refl
      where
        at_level : (n.level == 0) ≡ true
        at_level = ground arith

    interior_step :
        {level : ℕ} {p : KeyPtr}
        → n.level ≡ suc level
        → key_ptr n 0 ≡ ok p
        → descend_first read_node (suc (suc level)) addr above
          ≡ descend_first read_node (suc level) p.blockptr ((n, 0) ∷ above)
    unfolding descend_first
    interior_step {level = level} l p = rw (r, at_level, not_leaf, p) refl
      where
        at_level : (n.level == suc level) ≡ true
        at_level = ground arith

        not_leaf : (n.level == 0) ≡ false
        not_leaf = ground arith

  descend_first_lem :
      {level addr : ℕ} {above : List (Node × ℕ)} {xs ys : List Item}
      → Subtree level addr xs
      → Above level above ys
      → (c : Cursor) × (descend_first read_node (suc level) addr above ≡ ok c) × Rest c (xs ++ ys)
  descend_first_lem {above = above} (subtree r (in_leaf {n = n} l v items)) up =
      (record { node = n; index = 0; above = above }, leaf_step above r l, rest_item items up refl)
  descend_first_lem (subtree r (in_interior l v full (no_child outside))) up = absurd (omega arith)
  descend_first_lem {above = above}
        (subtree r (in_interior l v full (child {xs = us} {ys = vs} inside p t range more e))) up =
      let (c, found, rest) = descend_first_lem t (below {i = 0} l more up refl) in
      (c, interior_step above r l p ∙ found, regroup us vs _ e refl rest)

  pub advance_to_lem :
      {level : ℕ} {above : List (Node × ℕ)} {ys : List Item} (c : Cursor)
      → c.node.nr_items ≤ c.index
      → Above level above ys
      → (d : Cursor) × (advance_to read_node c (climb above) ≡ ok d) × Rest d ys
  unfolding advance_to climb
  advance_to_lem c out at_root = (c, refl, rest_end out)
  advance_to_lem c out (below {i = i} {n = n} l (no_child outside) up e) =
      let (d, found, rest) = advance_to_lem c out up in
      (d, rw (ge→ltb (i + 1) n.nr_items outside) found, subst (Rest d) (sym e) rest)
  advance_to_lem c out
        (below {i = i} {n = n} {above = above} l
          (child {p = q} {xs = us} {ys = vs} inside p t range more e)
          up
          f) =
      let (d, found, rest) = descend_first_lem t (below {i = i + 1} l more up refl) in
      (
        d,
        rw (lt→ltb (i + 1) n.nr_items inside, p)
            (ap (λ level. descend_first read_node level q.blockptr ((n, i + 1) ∷ above)) l ∙ found),
        regroup us vs _ e f rest,
      )

  -- A cursor in front of items stands on the first of them: it is valid and answers its key and its bytes,
  -- and advance takes it in front of the others, across the leaves of the tree, whatever its height; a
  -- cursor in front of none is not valid.
  pub data Steps : Cursor → List Item → Type 0 where
    past_all : {c : Cursor} → valid c ≡ false → Steps c []
    on_item :
        {c d : Cursor} {x : Item} {xs : List Item}
        → valid c ≡ true
        → key_here c ≡ ok x.0
        → data_here c ≡ ok x.1
        → advance read_node c ≡ ok d
        → Steps d xs
        → Steps c (x ∷ xs)

  advance_lem :
      {c : Cursor} {x : Item} {xs ys : List Item}
      → LeafItems c.node c.index (x ∷ xs)
      → Above 0 c.above ys
      → (d : Cursor) × (advance read_node c ≡ ok d) × Rest d (xs ++ ys)
  unfolding advance
  advance_lem {c = c} (leaf_item inside k b (leaf_end out)) up =
      let (d, found, rest) = advance_to_lem (record c { index = c.index + 1 }) out up in
      (
        d,
        rw (lt→ltb c.index c.node.nr_items inside, ge→ltb (c.index + 1) c.node.nr_items out) found,
        rest,
      )
  advance_lem {c = c} (leaf_item inside k b (leaf_item next kn bn more)) up = (
    record c { index = c.index + 1 },
    rw (lt→ltb c.index c.node.nr_items inside, lt→ltb (c.index + 1) c.node.nr_items next) refl,
    rest_item (leaf_item next kn bn more) up refl,
  )

  pub Rest-Steps : (zs : List Item) (c : Cursor) → Rest c zs → Steps c zs
  Rest-Steps [] c (rest_end out) = past_all (ge→ltb c.index c.node.nr_items out)
  Rest-Steps [] c (rest_item items up e) = cc
  Rest-Steps (z ∷ zs) c (rest_item {x = x} {xs = xs} {ys = ys} (leaf_item inside k b more) up e) =
      let (d, found, rest) = advance_lem (leaf_item inside k b more) up in
      let first : x ≡ z = ap (first_or z) (sym e) in
      on_item (lt→ltb c.index c.node.nr_items inside) (k ∙ ap (λ w. ok w.0) first)
        (b ∙ ap (λ w. ok w.1) first) found
        (Rest-Steps zs d (subst (Rest d) (sym (ap (drop 1) e)) rest))

  -- A tree whose root is read, of any height: the cursor in front of all of its items.
  pub first_cursor :
      (n : Node) (level addr : ℕ) (xs : List Item)
      → Subtree level addr xs
      → (c : Cursor) × (descend_first read_node (suc level) addr [] ≡ ok c) × Steps c xs
  first_cursor n level addr xs t =
      let (c, found, rest) = descend_first_lem t at_root in
      (c, found, Rest-Steps xs c (subst (Rest c) (append-nil xs) rest))

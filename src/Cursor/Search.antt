-- ===== src/Cursor/Search.antt =====
-- core/src/fs/btrfs/cursor.rs: the search finds the first item from a key on.
use mathlib.Core.Path.{subst}
use mathlib.Core.List.{append_assoc, append-nil}
use luks_android.Prelude.{
  if◌then◌else◌, ℕ, zero, suc, ◌+◌, ◌≤◌, ◌<◌, ◌≡◌, ◌==◌, refl, sym, ap, ◌∙◌, ltb, true, false, List,
  [], ◌∷◌, ◌++◌, All, arith, lt→ltb, ge→ltb, Bool-cases, inl, inr, All-append, Option, none, some,
}
use luks_android.Error.{Result, ok, ◌>>=◌}
use luks_android.Tree.{Key, KeyPtr, Node, key_ptr, is_lt, cmp, child_for, is_eq}
use luks_android.Tree.Order.{◌<ₖ◌, key_trans, cmp-cases, lt_of_is_lt}
use luks_android.Tree.Bound.{
  key_at, IsAscending, IsBound, IsChild, key-ok, lower_bound_lem, child_for_lem,
}
use luks_android.Cursor.{
  Cursor, valid, search_in, search, or_next_leaf, found_at, find_item, key_here,
}
use luks_android.Cursor.Walk.{
  Item, LeafItems, leaf_end, leaf_item, IsBelow, IsFrom, Subtree, subtree, NodeItems, in_leaf,
  in_interior, Children, no_child, child, Above, below, at_root, Rest, rest_item, Steps,
  advance_to_lem, Rest-Steps, past_all, on_item,
}

-- The items from a key on, in items that are in order.
unfoldable pub from_key : Key → List Item → List Item
from_key k [] = []
from_key k (x ∷ xs) = if is_lt (cmp x.0 k) then from_key k xs else x ∷ xs

ok_same : {a b : Key} → ok a ≡ ok b → a ≡ b
ok_same e = cc

-- What the first of them files under a key.
abbrev pub filed_under : Key → List Item → Option (List ℕ)
filed_under k [] = none
filed_under k (x ∷ xs) = if is_eq (cmp x.0 k) then some x.1 else none

module _ (k : Key) where
  from_key-below : (us zs : List Item) → All (IsBelow k) us → from_key k (us ++ zs) ≡ from_key k zs
  unfolding from_key
  from_key-below [] zs h = refl
  from_key-below (u ∷ us) zs h = rw h.0 (from_key-below us zs h.1)

  from_key-from : (vs : List Item) → All (IsFrom k) vs → from_key k vs ≡ vs
  unfolding from_key
  from_key-from [] h = refl
  from_key-from (v ∷ vs) h = rw h.0 refl

  from_key-append :
      (ws vs : List Item) → All (IsFrom k) vs → from_key k (ws ++ vs) ≡ from_key k ws ++ vs
  unfolding from_key
  from_key-append [] vs h = from_key-from vs h
  from_key-append (w ∷ ws) vs h = elim (Bool-cases (is_lt (cmp w.0 k))) [
    | inl less ↦ rw less (from_key-append ws vs h)
    | inr more ↦ rw more refl
  ]

  leaf_from :
      {n : Node} {i b : ℕ} {xs : List Item}
      → LeafItems n i xs
      → i ≤ b
      → IsBound n k b
      → LeafItems n b (from_key k xs)
  unfolding from_key
  leaf_from (leaf_end out) low s = leaf_end (omega (arith, s.within))
  leaf_from {n = n} {i = i} {b = b} (leaf_item {k = kx} {b = bytes} {xs = xs} inside q c more) low
        s =
      let same : key_at n i ≡ kx = ok_same (sym (key-ok n i inside) ∙ q) in
      elim (Bool-cases (ltb i b)) [
        | inl less ↦
            let under = s.below i (ground arith) in
            rw (ap (λ x. is_lt (cmp x k)) (sym same) ∙ under) (leaf_from more (ground arith) s)
        | inr here ↦
            let at : i ≡ b = ground arith in
            let over = s.above i (ground arith) inside in
            rw (ap (λ x. is_lt (cmp x k)) (sym same) ∙ over)
              (subst (λ j. LeafItems n j ((kx, bytes) ∷ xs)) at (leaf_item inside q c more))
      ]

-- Between the keys of the entries.
below_trans :
    (a b c : Key) → is_lt (cmp a b) ≡ true → is_lt (cmp c b) ≡ false → is_lt (cmp a c) ≡ true
below_trans a b c less not_less = elim (cmp-cases c b) [
  | inl l ↦ cc
  | inr (inl e) ↦ rw e less
  | inr (inr g) ↦ ap is_lt (key_trans a b c (lt_of_is_lt _ less) g)
]

from_trans : (a b c : Key) → is_lt (cmp a b) ≡ false → c <ₖ b → is_lt (cmp a c) ≡ false
from_trans a b c from less = elim (Bool-cases (is_lt (cmp a c))) [
  | inl under ↦ let both = key_trans a c b (lt_of_is_lt _ under) less in cc
  | inr over ↦ over
]

all-IsBelow :
    (b c : Key) (xs : List Item) → is_lt (cmp c b) ≡ false → All (IsBelow b) xs → All (IsBelow c) xs
all-IsBelow b c [] not_less h = tt
all-IsBelow b c (x ∷ xs) not_less h =
    (below_trans x.0 b c h.0 not_less, all-IsBelow b c xs not_less h.1)

all-IsFrom : (b c : Key) (xs : List Item) → c <ₖ b → All (IsFrom b) xs → All (IsFrom c) xs
all-IsFrom b c [] less h = tt
all-IsFrom b c (x ∷ xs) less h = (from_trans x.0 b c h.0 less, all-IsFrom b c xs less h.1)

module _ (read_node : ℕ → Result Node) (k : Key) where
  later_children :
      {level i j : ℕ} {n : Node} {xs : List Item}
      → Children read_node level n j xs
      → i < j
      → IsChild n k i
      → All (IsFrom k) xs
  later_children (no_child out) behind s = tt
  later_children {j = j} {n = n} (child {xs = xs} {ys = ys} inside p t range more e) behind s =
      subst (All (IsFrom k)) (sym e) (
        All-append (IsFrom k) xs ys (all-IsFrom (key_at n j) k xs (s.last j behind inside) range.0)
          (later_children more (omega arith) s))

  -- The items below a node, by the entry to which a key belongs: those in front have smaller keys.
  record Around (level : ℕ) (n : Node) (i : ℕ) (xs : List Item) : Type 0 where
    front : List Item
    here : List Item
    behind : List Item
    ptr : KeyPtr
    all : xs ≡ front ++ (here ++ behind)
    smaller : All (IsBelow k) front
    found : key_ptr n i ≡ ok ptr
    tree : Subtree read_node level ptr.blockptr here
    others : Children read_node level n (i + 1) behind
    larger : All (IsFrom k) behind

  not_before :
      {n : Node} {i j : ℕ}
      → IsAscending n
      → IsChild n k i
      → j < i
      → is_lt (cmp k (key_at n (j + 1))) ≡ false
  not_before {n = n} {i = i} {j = j} v s less = elim (Bool-cases (ltb (j + 1) i)) [
    | inl before ↦
        let ascending = v (j + 1) i (ground arith) s.within in
        let reached = s.reached (omega arith) in
        from_trans k (key_at n i) (key_at n (j + 1)) reached ascending
    | inr at ↦
        let same : i ≡ j + 1 = ground arith in
        subst (λ m. is_lt (cmp k (key_at n m)) ≡ false) same (s.reached (omega arith))
  ]

  around :
      {level j : ℕ} {n : Node} {xs : List Item} (i : ℕ)
      → Children read_node level n j xs
      → j ≤ i
      → IsAscending n
      → IsChild n k i
      → Around level n i xs
  around i (no_child out) low v s = absurd (omega (arith, s.within))
  around {level = level} {j = j} {n = n} i
        (child {xs = xs} {ys = ys} {zs = zs} inside p t range more e) low v s =
      elim (Bool-cases (ltb j i)) [
        | inl before ↦
            let rest = around i more (ground arith) v s in
            let less : j < i = ground arith in
            record {
              front = xs ++ rest.front;
              here = rest.here;
              behind = rest.behind;
              ptr = rest.ptr;
              all =
                  e
                  ∙ ap (λ zs. xs ++ zs) rest.all
                  ∙ sym (append_assoc xs rest.front (rest.here ++ rest.behind));
              smaller =
                  All-append (IsBelow k) xs rest.front
                    (all-IsBelow (key_at n (j + 1)) k xs (not_before v s less)
                      (range.1 (omega (arith, s.within))))
                    rest.smaller;
              found = rest.found;
              tree = rest.tree;
              others = rest.others;
              larger = rest.larger;
            }
        | inr at ↦
            let same : j ≡ i = ground arith in
            subst (λ m. Around level n m zs) same
              (record {
                front = [];
                here = xs;
                behind = ys;
                ptr = _;
                all = e;
                smaller = tt;
                found = p;
                tree = t;
                others = more;
                larger = later_children more (omega (arith, same)) s;
              })
      ]

  root_of :
      {level addr : ℕ} {xs : List Item}
      → Subtree read_node level addr xs
      → (n : Node) × (read_node addr ≡ ok n) × NodeItems read_node level n xs
  root_of (subtree {n = n} r items) = (n, r, items)

  level_of :
      {level : ℕ} {n : Node} {xs : List Item} → NodeItems read_node level n xs → n.level ≡ level
  level_of (in_leaf l v items) = l
  level_of (in_interior l v full children) = l

  or_next_leaf_lem :
      {xs ys : List Item} (c : Cursor)
      → LeafItems c.node c.index xs
      → Above read_node 0 c.above ys
      → (d : Cursor) × (or_next_leaf read_node c ≡ ok d) × Rest read_node d (xs ++ ys)
  or_next_leaf_lem c (leaf_end out) up =
      let (d, found, rest) = advance_to_lem read_node c out up in
      (d, rw (ge→ltb c.index c.node.nr_items out) found, rest)
  or_next_leaf_lem c (leaf_item inside q b more) up = (
    c,
    rw (lt→ltb c.index c.node.nr_items inside) refl,
    rest_item (leaf_item inside q b more) up refl,
  )

  into_child :
      {level i : ℕ} {m : Node} {p : KeyPtr} (n : Node) (above : List (Node × ℕ))
      → 0 < n.nr_items
      → child_for n k ≡ ok i
      → key_ptr n i ≡ ok p
      → read_node p.blockptr ≡ ok m
      → m.level ≡ level
      → search_in read_node (suc level) n above k ≡ search_in read_node level m ((n, i) ∷ above) k
  unfolding search_in
  into_child {level = level} {m = m} n above full found pointer read l =
      rw (some_entries, found, pointer, read, at_level) refl
    where
      some_entries : (n.nr_items == 0) ≡ false
      some_entries = ground arith

      at_level : (m.level == level) ≡ true
      at_level = ground arith

  -- The search below a node, with the step to the next leaf at its end.
  search_in_lem :
      (level : ℕ) {n : Node} {above : List (Node × ℕ)} {xs ys : List Item}
      → NodeItems read_node level n xs
      → Above read_node level above ys
      → (c : Cursor) × ((search_in read_node level n above k >>= λ d. or_next_leaf read_node d)
          ≡ ok c)
        × Rest read_node c (from_key k xs ++ ys)
  unfolding search_in
  search_in_lem zero {n = n} {above = above} (in_leaf l v items) up =
      let (b, found, s) = lower_bound_lem n k v in
      let (c, next, rest) =
        or_next_leaf_lem (record { node = n; index = b; above = above })
          (leaf_from k items (omega arith) s) up in
      (c, rw found next, rest)
  search_in_lem (suc level) {n = n} {above = above} {ys = ys} (in_interior l v full children) up =
      let (i, found, s) = child_for_lem n k v full in
      let a = around i children (omega arith) v s in
      let (m, read, items) = root_of a.tree in
      let (c, next, rest) = search_in_lem level items (below l a.others up refl) in
      (
        c,
        ap (λ r. r >>= λ d. or_next_leaf read_node d)
              (into_child n above full found a.found read (level_of items))
            ∙ next,
        subst (λ zs. Rest read_node c (zs ++ ys))
            (sym (
              ap (from_key k) a.all
              ∙ from_key-below k a.front (a.here ++ a.behind) a.smaller
              ∙ from_key-append k a.here a.behind a.larger))
            (subst (Rest read_node c) (sym (append_assoc (from_key k a.here) a.behind ys)) rest),
      )

  -- In a search tree of any height, the search for a key ends at the first item whose key is not smaller:
  -- from there on the cursor passes all such items of the tree and no other, in their order, each with
  -- its key and bytes; and it is not valid if there is none.
  pub search_lem :
      (root level : ℕ) (xs : List Item)
      → Subtree read_node level root xs
      → (c : Cursor) × (search read_node root k ≡ ok c) × Steps read_node c (from_key k xs)
  unfolding search
  search_lem root level xs t =
      let (n, read, items) = root_of t in
      let (c, found, rest) = search_in_lem level items at_root in
      (
        c,
        rw (read, level_of items) found,
        Rest-Steps read_node (from_key k xs) c
            (subst (Rest read_node c) (append-nil (from_key k xs)) rest),
      )

  -- In a search tree of any height, find_item gives the bytes that are filed under the key, and nothing if
  -- the first item that has no smaller key has another one, or there is none.
  pub find_item_lem :
      (root level : ℕ) (xs : List Item)
      → Subtree read_node level root xs
      → find_item read_node root k ≡ ok (filed_under k (from_key k xs))
  unfolding find_item
  find_item_lem root level xs t =
      let (c, found, steps) = search_lem root level xs t in
      rw found (answer c (from_key k xs) steps)
    where
      answer :
          (c : Cursor) (zs : List Item)
          → Steps read_node c zs
          → (if valid c then (key_here c >>= λ other. found_at read_node k c other) else ok none)
            ≡ ok (filed_under k zs)
      answer c zs (past_all v) = rw v refl
      answer c (z ∷ zs) (on_item v kz b a s) = elim (Bool-cases (is_eq (cmp z.0 k))) [
        | inl here ↦ rw (v, kz, here, b) refl
        | inr elsewhere ↦ rw (v, kz, elsewhere) refl
      ]

-- ===== src/Leaf/Refine.antt =====
-- A leaf refines a finite map from keys to bytes: each operation does to the map what its name says,
-- and keeps the items in order and within the node.
use luks_android.Prelude.{
  ℕ, ◌+◌, ◌-◌, ◌≤◌, ◌<◌, ◌≡◌, refl, ◌∙◌, ap, sym, arith, Option, none, some, List, [], length, inl,
  inr, ◌⊎◌, if◌then◌else◌, Bool-cases, ltb, ltb→lt, ltb→ge, insert_at,
}
use luks_android.Prelude.Search.{Search, found, missing}
use luks_android.Error.{Result, ok, err, already_exists, filesystem_full, btrfs_item_too_large}
use luks_android.Tree.{Key, cmp, is_eq, item_size, item_type_name}
use luks_android.Leaf.{
  LeafItem, Leaf, search_key, used_bytes, max_item_payload_bytes, free_space, insert_item,
  delete_item, replace_item, find_item, put_at, no_such_item, bytes_at,
}
use luks_android.Leaf.Items.{
  IsSorted, lookup, put, search-missing, search-found, search-missing_lookup, put-IsSorted,
  lookup-put, without-IsSorted, reset-IsSorted, lookup-without, lookup-reset, used-put,
}
use mathlib.Core.Path.{subst}

-- The map of a leaf: the bytes filed under each key.
abbrev pub view : Leaf → Key → Option (List ℕ)
view leaf k = lookup leaf.items k

-- Update of a map at one key.
abbrev pub updated : (Key → Option (List ℕ)) → Key → Option (List ℕ) → Key → Option (List ℕ)
updated m k v l = if is_eq (cmp k l) then v else m l

-- A leaf became another whose map is the update at `k`; the items are in order, and nothing of the
-- header changed.
pub record Became (leaf : Leaf) (k : Key) (v : Option (List ℕ)) (leaf' : Leaf) : Type 0 where
  pub in_order : IsSorted leaf'.items
  pub header : leaf' ≡ record leaf { items = leaf'.items }
  pub refines : (l : Key) → view leaf' l ≡ updated (view leaf) k v l

-- What `insert_item` may answer. A header takes 101 bytes and the descriptor of an item 25.
abbrev pub Inserted : Leaf → Key → List ℕ → ℕ → Result Leaf → Type 0
Inserted leaf k b size (ok leaf') =
    (view leaf k ≡ none) × Became leaf k (some b) leaf' × (used_bytes leaf'.items ≤ size)
Inserted leaf k b size (err e) =
    ((e ≡ already_exists "duplicate key in leaf") × ((old : List ℕ) × (view leaf k ≡ some old)))
    ⊎ ((e ≡ filesystem_full)
        × (length b ≤ size - (101 + 25))
        × (size < used_bytes leaf.items + item_size + length b))
    ⊎ ((e ≡ btrfs_item_too_large (item_type_name k.item_type) (length b) size)
        × (size - (101 + 25) < length b))

put_at-Inserted :
    (leaf : Leaf) (k : Key) (b : List ℕ) (size : ℕ) (s : Search)
    → IsSorted leaf.items
    → used_bytes leaf.items + item_size + length b ≤ size
    → search_key leaf.items k ≡ s
    → Inserted leaf k b size (put_at leaf k b s)
put_at-Inserted leaf k b size (found i) v fits e =
    inl (refl, (bytes_at leaf.items i, (search-found leaf.items k i b e).0))
put_at-Inserted leaf k b size (missing i) v fits e = (
  absent,
  record {
    in_order = subst IsSorted (sym placed) (put-IsSorted leaf.items x v absent);
    header = refl;
    refines = λ l. ap (λ xs. lookup xs l) placed ∙ lookup-put leaf.items x l absent;
  },
  subst (λ xs. used_bytes xs ≤ size) (sym placed) (omega (arith, used-put leaf.items x)),
)
  where
    x : LeafItem
    x = record { key = k; bytes = b }

    absent : lookup leaf.items k ≡ none
    absent = search-missing_lookup leaf.items k i v e

    placed : insert_at leaf.items i x ≡ put x leaf.items
    placed = search-missing leaf.items k i b e

-- Inserting into a leaf whose items are in order either gives a leaf with the item in addition, in
-- order and within the node, where there was none with the key; or it is refused since there is one,
-- since the room in this leaf does not suffice though an item of its size may be alone in one, or since
-- its bytes are more than a node has behind a header of 101 bytes and a descriptor of 25.
pub insert_item_lem :
    (leaf : Leaf) (k : Key) (b : List ℕ) (size : ℕ)
    → IsSorted leaf.items
    → Inserted leaf k b size (insert_item leaf k b size)
unfolding insert_item
insert_item_lem leaf k b size v = elim (Bool-cases (ltb (max_item_payload_bytes size) (length b))) [
  | inl large ↦ rw large (inr (inr (refl, omega (arith, ltb→lt _ _ large))))
  | inr small ↦ elim (Bool-cases (ltb (free_space leaf size) (item_size + length b))) [
    | inl full ↦
        rw (small, full)
          (inr (inl (refl, omega (arith, ltb→ge _ _ small), omega (arith, ltb→lt _ _ full))))
    | inr room ↦
        rw (small, room)
          (put_at-Inserted leaf k b size (search_key leaf.items k) v
            (omega (arith, ltb→ge _ _ room)) refl)
  ]
]

-- What `delete_item` may answer.
abbrev pub Deleted : Leaf → Key → Result (Leaf × List ℕ) → Type 0
Deleted leaf k (ok (leaf', b)) = (view leaf k ≡ some b) × Became leaf k none leaf'
Deleted leaf k (err e) = (e ≡ no_such_item) × (view leaf k ≡ none)

abbrev pub Replaced : Leaf → Key → List ℕ → Result Leaf → Type 0
Replaced leaf k b (ok leaf') =
    ((old : List ℕ) × (view leaf k ≡ some old)) × Became leaf k (some b) leaf'
Replaced leaf k b (err e) = (e ≡ no_such_item) × (view leaf k ≡ none)

-- Deleting from a leaf whose items are in order takes out the key and gives the bytes that were
-- filed under it; if there were none, it is refused.
pub delete_item_lem :
    (leaf : Leaf) (k : Key) → IsSorted leaf.items → Deleted leaf k (delete_item leaf k)
unfolding delete_item find_item
delete_item_lem leaf k v = go (search_key leaf.items k) refl
  where
    go : (s : Search) → search_key leaf.items k ≡ s → Deleted leaf k (delete_item leaf k)
    go (missing i) e = rw e (refl, search-missing_lookup leaf.items k i v e)
    go (found i) e =
        let (there, removed, _) = search-found leaf.items k i [] e in
        rw e (
          there,
          record {
            in_order = subst IsSorted (sym removed) (without-IsSorted leaf.items k v);
            header = refl;
            refines = λ l. ap (λ xs. lookup xs l) removed ∙ lookup-without leaf.items k l v;
          },
        )

-- Replacing in a leaf whose items are in order files the new bytes under a key that is there; if it
-- is not, this is refused.
pub replace_item_lem :
    (leaf : Leaf) (k : Key) (b : List ℕ)
    → IsSorted leaf.items
    → Replaced leaf k b (replace_item leaf k b)
unfolding replace_item find_item
replace_item_lem leaf k b v = go (search_key leaf.items k) refl
  where
    go : (s : Search) → search_key leaf.items k ≡ s → Replaced leaf k b (replace_item leaf k b)
    go (missing i) e = rw e (refl, search-missing_lookup leaf.items k i v e)
    go (found i) e =
        let (there, _, changed) = search-found leaf.items k i b e in
        rw e (
          (bytes_at leaf.items i, there),
          record {
            in_order = subst IsSorted (sym changed) (reset-IsSorted leaf.items k b v);
            header = refl;
            refines = λ l.
                ap (λ xs. lookup xs l) changed
                ∙ lookup-reset leaf.items k l b (bytes_at leaf.items i) v there;
          },
        )

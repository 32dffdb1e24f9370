-- ===== src/Cursor.antt =====
-- core/src/fs/btrfs/cursor.rs: positions in a tree, and what they offer to the code that walks it.
pub mod Walk
pub mod Search
mod Runs
use luks_android.Prelude.{
  if◌then◌else◌, ℕ, zero, suc, ◌+◌, ◌==◌, not, ltb, Bool, List, [], ◌∷◌, Option, none, some,
}
use luks_android.Prelude.Words.{saturating_sub}
use luks_android.Error.{Result, ok, err, corrupt_fs, ◌>>=◌, ◌>>◌, refuse_if, LuksError}
use luks_android.Tree.{
  Key, Node, key, key_ptr, item_data, is_leaf, is_eq, cmp, lower_bound, child_for,
}

-- What a position offers.
pub record CursorOps (S : Type 0) : Type 0 where
  pub valid : S → Bool
  pub key : S → Result Key
  pub contents : S → Result (List ℕ)
  pub advance : S → Result S

-- The path from the root: the node at its end with the index in it, and the nodes above that one,
-- the next one first.
pub record Cursor : Type 0 where
  pub node : Node
  pub index : ℕ
  pub above : List (Node × ℕ)

abbrev pub valid : Cursor → Bool
valid c = ltb c.index c.node.nr_items

abbrev pub key_here : Cursor → Result Key
key_here c = key c.node c.index

abbrev pub data_here : Cursor → Result (List ℕ)
data_here c = item_data c.node c.index

abbrev pub wrong_level : LuksError
wrong_level = corrupt_fs "btrfs child node is not one level below its parent"

-- The nearest node above that has an entry behind the one on the path, at that entry.
unfoldable pub climb : List (Node × ℕ) → Option Cursor
climb [] = none
climb ((n, i) ∷ above) =
    let higher = climb above in
    if ltb (i + 1) n.nr_items
    then some (record { node = n; index = i + 1; above = above })
    else higher

module _ (read_node : ℕ → Result Node) where
  -- The loop down to the first item below a pointer of a node. Each child is one level below.
  unfoldable pub descend_first : (level : ℕ) → (ptr : ℕ) → (above : List (Node × ℕ)) → Result Cursor
  descend_first zero ptr above = read_node ptr >>= λ child. err wrong_level
  descend_first (suc level) ptr above = read_node ptr >>= λ child.
      refuse_if (not (child.level == level)) wrong_level
      >> (if is_leaf child
          then ok (record { node = child; index = 0; above = above })
          else (key_ptr child 0 >>= λ next. descend_first level next.blockptr ((child, 0) ∷ above)))

  -- `advance_leaf` from the node that it climbs to, if there is one.
  unfoldable pub advance_to : Cursor → Option Cursor → Result Cursor
  advance_to c none = ok c
  advance_to c (some up) = key_ptr up.node up.index >>= λ ptr.
      descend_first up.node.level ptr.blockptr ((up.node, up.index) ∷ up.above)

  abbrev pub advance_leaf : Cursor → Result Cursor
  advance_leaf c = advance_to c (climb c.above)

  abbrev pub next_index : Cursor → Cursor
  next_index c = if valid c then record c { index = c.index + 1 } else c

  unfoldable pub advance : Cursor → Result Cursor
  advance c = if valid (next_index c) then ok (next_index c) else advance_leaf (next_index c)

  -- The loop down to where a key belongs. An interior node without entries ends it, too.
  unfoldable pub search_in : (level : ℕ) → Node → (above : List (Node × ℕ)) → Key → Result Cursor
  search_in zero n above k =
      lower_bound n k >>= λ i. ok (record { node = n; index = i; above = above })
  search_in (suc level) n above k =
      if n.nr_items == 0
      then (lower_bound n k >>= λ i. ok (record { node = n; index = i; above = above }))
      else (child_for n k >>= λ i. key_ptr n i >>= λ ptr. read_node ptr.blockptr >>= λ child.
          refuse_if (not (child.level == level)) wrong_level
          >> search_in level child ((n, i) ∷ above) k)

  abbrev pub or_next_leaf : Cursor → Result Cursor
  or_next_leaf c = if valid c then ok c else advance_leaf c

  unfoldable pub search : (root : ℕ) → Key → Result Cursor
  search root k = read_node root >>= λ n. search_in n.level n [] k >>= λ c. or_next_leaf c

  -- The loop down to the last item below a pointer of a node.
  unfoldable pub descend_last : (level : ℕ) → (ptr : ℕ) → (above : List (Node × ℕ)) → Result Cursor
  descend_last zero ptr above = read_node ptr >>= λ child. err wrong_level
  descend_last (suc level) ptr above = read_node ptr >>= λ child.
      refuse_if (not (child.level == level)) wrong_level
      >> refuse_if (child.nr_items == 0) (corrupt_fs "btrfs node has no items")
      >> (if is_leaf child
          then ok (record { node = child; index = saturating_sub child.nr_items 1; above = above })
          else (key_ptr child (saturating_sub child.nr_items 1) >>= λ next.
              descend_last level next.blockptr ((child, saturating_sub child.nr_items 1) ∷ above)))

  -- The loop of `retreat_leaf`: the path is popped until there is an entry in front.
  unfoldable pub retreat_leaf : Node → List (Node × ℕ) → Result Cursor
  retreat_leaf n [] = ok (record { node = n; index = n.nr_items; above = [] })
  retreat_leaf n ((p, zero) ∷ above) = retreat_leaf p above
  retreat_leaf n ((p, suc i) ∷ above) =
      key_ptr p i >>= λ ptr. descend_last p.level ptr.blockptr ((p, i) ∷ above)

  abbrev pub retreat_by : ℕ → Cursor → Result Cursor
  retreat_by zero c = retreat_leaf c.node c.above
  retreat_by (suc i) c = ok (record c { index = i })

  unfoldable pub retreat : Cursor → Result Cursor
  retreat c = retreat_by c.index c

  abbrev pub stay_at : Key → Cursor → Result Cursor
  stay_at k c =
      if valid c
      then (key_here c >>= λ found. if is_eq (cmp found k) then ok c else retreat c)
      else retreat c

  unfoldable pub search_le : (root : ℕ) → Key → Result Cursor
  search_le root k = search root k >>= λ c. stay_at k c

  abbrev pub cursor_ops : CursorOps Cursor
  cursor_ops = record { valid = valid; key = key_here; contents = data_here; advance = advance }

  abbrev pub found_at : Key → Cursor → Key → Result (Option (List ℕ))
  found_at k c found = if is_eq (cmp found k) then (data_here c >>= λ b. ok (some b)) else ok none

  unfoldable pub find_item : (root : ℕ) → Key → Result (Option (List ℕ))
  find_item root k = search root k >>= λ c.
      if valid c then (key_here c >>= λ found. found_at k c found) else ok none

-- ===== src/Cursor/Runs.antt =====
-- core/src/fs/btrfs/cursor.rs: a tree of two leaves.
use luks_android.Prelude.{
  if◌then◌else◌, ℕ, zero, suc, ◌==◌, ◌≡◌, refl, arith, List, [], ◌∷◌, ◌++◌, none, some, false,
}
use luks_android.Prelude.Bytes.{zeros, to_le}
use luks_android.Error.{Result, ok, err, corrupt_fs, ◌>>=◌}
use luks_android.Tree.{Key, Node, cmp, lower_bound, bound_from, child_for, key, key_ptr, item_data}
use luks_android.Tree.Bound.{IsAscending}
use luks_android.Cursor.{
  Cursor, search, search_in, search_le, retreat, retreat_leaf, descend_last, advance_to,
  descend_first, climb, find_item, valid, key_here,
}
use luks_android.Cursor.Walk.{
  Item, leaf_item, leaf_end, Subtree, subtree, in_leaf, in_interior, child, no_child, Steps,
}
use luks_android.Cursor.Search.{from_key, filed_under, search_lem, find_item_lem}

abbrev inode_key : ℕ → Key
inode_key n = record { objectid = n; item_type = 1; offset = 0 }

abbrev key_bytes : ℕ → List ℕ
key_bytes objectid = to_le 8 objectid ++ (1 ∷ to_le 8 0)

abbrev leaf : (objectid content : ℕ) → Node
leaf objectid content = record {
  raw = zeros 101 ++ (key_bytes objectid ++ (to_le 4 25 ++ (to_le 4 1 ++ (content ∷ []))));
  level = 0;
  nr_items = 1;
  owner = 5;
  generation = 7;
}

abbrev pointer : ℕ → ℕ → List ℕ
pointer objectid block = key_bytes objectid ++ (to_le 8 block ++ to_le 8 7)

abbrev top : Node
top = record {
  raw = zeros 101 ++ (pointer 256 4096 ++ pointer 300 8192);
  level = 1;
  nr_items = 2;
  owner = 5;
  generation = 7;
}

abbrev read_node : ℕ → Result Node
read_node block =
    if block == 16384
    then ok top
    else if block == 4096
    then ok (leaf 256 11)
    else if block == 8192
    then ok (leaf 300 22)
    else err (corrupt_fs "no such block")

top-IsAscending : IsAscending top
unfolding cmp
top-IsAscending zero (suc zero) h l = refl
top-IsAscending zero zero h l = absurd (omega arith)
top-IsAscending i (suc (suc j)) h l = absurd (omega arith)
top-IsAscending (suc i) zero h l = absurd (omega arith)
top-IsAscending (suc i) (suc zero) h l = absurd (omega arith)

leaf-IsAscending : (objectid content : ℕ) → IsAscending (leaf objectid content)
leaf-IsAscending objectid content i j h l = absurd (omega arith)

abbrev items : List Item
items = (inode_key 256, 11 ∷ []) ∷ (inode_key 300, 22 ∷ []) ∷ []

tree : Subtree read_node 1 16384 items
unfolding key key_ptr item_data cmp
tree = subtree refl (
    in_interior refl top-IsAscending (omega arith) (
      child (omega arith) refl
        (subtree refl (
          in_leaf refl (leaf-IsAscending 256 11)
            (leaf_item (omega arith) refl refl (leaf_end (omega arith)))))
        ((refl, tt), λ h. (refl, tt))
        (child (omega arith) refl
          (subtree refl (
            in_leaf refl (leaf-IsAscending 300 22)
              (leaf_item (omega arith) refl refl (leaf_end (omega arith)))))
          ((refl, tt), λ h. absurd (omega arith)) (no_child (omega arith)) refl)
        refl))

search_lem_example :
    (c : Cursor) × (search read_node 16384 (inode_key 270) ≡ ok c)
    × Steps read_node c (from_key (inode_key 270) items)
search_lem_example = search_lem read_node (inode_key 270) 16384 1 items tree

find_item_in_second_leaf :
    find_item read_node 16384 (inode_key 300)
    ≡ ok (filed_under (inode_key 300) (from_key (inode_key 300) items))
find_item_in_second_leaf = find_item_lem read_node (inode_key 300) 16384 1 items tree

found_in_second_leaf : find_item read_node 16384 (inode_key 300) ≡ ok (some (22 ∷ []))
unfolding find_item search search_in child_for lower_bound bound_from key key_ptr item_data cmp
found_in_second_leaf = refl

-- A key between the leaves: the search steps to the second one.
steps_over : find_item read_node 16384 (inode_key 270) ≡ ok none
unfolding find_item search search_in child_for lower_bound bound_from key key_ptr item_data cmp
    advance_to climb descend_first
steps_over = refl

abbrev then_retreat : Result Cursor → Result Cursor
then_retreat r = r >>= λ c. retreat read_node c

abbrev key_of : Result Cursor → Result Key
key_of r = r >>= λ c. key_here c

last_not_behind : key_of (search_le read_node 16384 (inode_key 270)) ≡ ok (inode_key 256)
unfolding search_le search search_in child_for lower_bound bound_from key key_ptr cmp advance_to
    climb descend_first retreat retreat_leaf descend_last
last_not_behind = refl

none_not_behind : (search_le read_node 16384 (inode_key 100) >>= λ c. ok (valid c)) ≡ ok false
unfolding search_le search search_in child_for lower_bound bound_from key key_ptr cmp advance_to
    climb descend_first retreat retreat_leaf descend_last
none_not_behind = refl

-- The path is left at the root, an interior node: a step back from there answers the key of a child.
back_from_the_front :
    key_of (then_retreat (search_le read_node 16384 (inode_key 100))) ≡ ok (inode_key 300)
unfolding search_le search search_in child_for lower_bound bound_from key key_ptr cmp advance_to
    climb descend_first retreat retreat_leaf descend_last
back_from_the_front = refl

-- ===== src/Leaf.antt =====
-- core/src/fs/btrfs/write/node.rs: surgery on the leaves of a tree, in memory.
pub mod Items
pub mod Refine
pub mod Emit
pub mod Halves
mod Runs
use luks_android.Prelude.{
  ℕ, zero, suc, ◌+◌, ◌*◌, ◌-◌, ◌/◌, ltb, Bool, Option, none, some, List, [], ◌∷◌, ◌++◌, length,
  take, drop, get_elem?, insert_at,
}
use luks_android.Prelude.{if◌then◌else◌}
use luks_android.Prelude.Words.{saturating_sub}
use luks_android.Prelude.Search.{Search, found, missing, search_by}
use luks_android.Error.{
  LuksError, Result, ok, err, corrupt_fs, not_found, already_exists, filesystem_full,
  btrfs_item_too_large, ◌>>=◌, ◌>>◌, ok_or, refuse_if,
}
use luks_android.Tree.{Key, cmp, header_size, item_size, item_type_name}

pub data CsumType : Type 0 where
  crc32c sha256 : CsumType

pub record LeafItem : Type 0 where
  pub key : Key
  pub bytes : List ℕ

pub record Leaf : Type 0 where
  pub bytenr : ℕ
  pub generation : ℕ
  pub owner : ℕ
  pub flags : ℕ
  pub metadata_uuid : List ℕ
  pub chunk_tree_uuid : List ℕ
  pub csum_type : CsumType
  pub items : List LeafItem

abbrev pub max_item_payload_bytes : ℕ → ℕ
max_item_payload_bytes node_size = saturating_sub (saturating_sub node_size header_size) item_size

abbrev pub sum_bytes : List LeafItem → ℕ
sum_bytes [] = 0
sum_bytes (x ∷ xs) = length x.bytes + sum_bytes xs

abbrev pub total_data_bytes : Leaf → ℕ
total_data_bytes leaf = sum_bytes leaf.items

abbrev pub used_bytes : List LeafItem → ℕ
used_bytes items = header_size + length items * item_size + sum_bytes items

abbrev pub free_space : Leaf → ℕ → ℕ
free_space leaf node_size = saturating_sub node_size (used_bytes leaf.items)

-- `self.items.binary_search_by(|it| it.key.cmp(key))`
abbrev pub search_key : List LeafItem → Key → Search
search_key items k = search_by (λ it. cmp it.key k) items

abbrev pub ok_index : Search → Option ℕ
ok_index (found i) = some i
ok_index (missing i) = none

pub find_item : Leaf → Key → Option ℕ
find_item leaf k = ok_index (search_key leaf.items k)

-- `items[i].data = bytes` and `items.remove(i)`
abbrev pub set_bytes : List LeafItem → ℕ → List ℕ → List LeafItem
set_bytes [] i bytes = []
set_bytes (x ∷ xs) zero bytes = record x { bytes = bytes } ∷ xs
set_bytes (x ∷ xs) (suc i) bytes = x ∷ set_bytes xs i bytes

abbrev pub remove_at : List LeafItem → ℕ → List LeafItem
remove_at [] i = []
remove_at (x ∷ xs) zero = xs
remove_at (x ∷ xs) (suc i) = x ∷ remove_at xs i

abbrev pub bytes_at : List LeafItem → ℕ → List ℕ
bytes_at [] i = []
bytes_at (x ∷ xs) zero = x.bytes
bytes_at (x ∷ xs) (suc i) = bytes_at xs i

abbrev pub no_such_item : LuksError
no_such_item = not_found "item key not found in leaf"

unfoldable pub replace_item : Leaf → Key → List ℕ → Result Leaf
unfolding find_item
replace_item leaf k new_bytes = ok_or (find_item leaf k) no_such_item >>= λ i.
    ok (record leaf { items = set_bytes leaf.items i new_bytes })

-- The result of the search at which an item is put in.
abbrev pub put_at : Leaf → Key → List ℕ → Search → Result Leaf
put_at leaf k bytes (found i) = err (already_exists "duplicate key in leaf")
put_at leaf k bytes (missing i) =
    ok (record leaf { items = insert_at leaf.items i (record { key = k; bytes = bytes }) })

unfoldable pub insert_item : Leaf → Key → List ℕ → ℕ → Result Leaf
insert_item leaf k bytes node_size = do
  refuse_if (ltb (max_item_payload_bytes node_size) (length bytes))
      (btrfs_item_too_large (item_type_name k.item_type) (length bytes) node_size)
  refuse_if (ltb (free_space leaf node_size) (item_size + length bytes)) filesystem_full
  put_at leaf k bytes (search_key leaf.items k)

-- The leaf without the item, and the item's bytes.
unfoldable pub delete_item : Leaf → Key → Result (Leaf × List ℕ)
unfolding find_item
delete_item leaf k = ok_or (find_item leaf k) no_such_item >>= λ i.
    ok (record leaf { items = remove_at leaf.items i }, bytes_at leaf.items i)

-- The two halves around an item, or the error if the right one is empty.
abbrev pub halves : Leaf → ℕ → List LeafItem → List LeafItem → Result (Leaf × Leaf × Key)
halves leaf right_bytenr left [] = err (corrupt_fs "cannot split leaf with fewer than 2 items")
halves leaf right_bytenr left (x ∷ right) =
    ok (
      record leaf { items = left },
      record leaf { bytenr = right_bytenr; items = x ∷ right },
      x.key,
    )

unfoldable pub split : Leaf → ℕ → Result (Leaf × Leaf × Key)
split leaf right_bytenr =
    let mid = length leaf.items / 2 in
    if ltb (length leaf.items) 2
    then err (corrupt_fs "cannot split leaf with fewer than 2 items")
    else halves leaf right_bytenr (take mid leaf.items) (drop mid leaf.items)

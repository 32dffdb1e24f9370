-- ===== src/Csum.antt =====
-- core/src/fs/btrfs/write/node.rs and csum_delete.rs: the items that hold the checksums of data.
pub mod Items
pub mod Surviving
mod Runs
use luks_android.Prelude.{
  if◌then◌else◌, ℕ, zero, suc, ◌+◌, ◌-◌, ◌*◌, ◌/◌, ◌==◌, ◌&&◌, ltb, min, max, Bool, List, [], ◌∷◌,
  ◌++◌, length, take, drop,
}
use luks_android.Prelude.Words.{saturating_sub, saturating_add}
use luks_android.Prelude.Bytes.{to_le, zeros}
use luks_android.Error.{Result, ok, err, btrfs_item_too_large, ◌>>=◌, ◌>>◌, refuse_if}
use luks_android.Tree.{header_size, item_size}

abbrev pub csum_item_leaf_headroom : ℕ
csum_item_leaf_headroom = 30

unfoldable pub max_csum_item_bytes : (node_size csum_size : ℕ) → ℕ
max_csum_item_bytes node_size csum_size =
    let usable =
      saturating_sub (saturating_sub (saturating_sub node_size header_size) item_size)
        csum_item_leaf_headroom in
    if csum_size == 0 then 0 else usable / csum_size * csum_size

-- The variables of the loop over the checksums.
pub record Building : Type 0 where
  pub items : List (ℕ × List ℕ)
  pub current_item_start : ℕ
  pub current_payload : List ℕ
  pub current_count : ℕ
  pub next_expected_bytenr : ℕ

abbrev pub nothing_built : Building
nothing_built = record {
  items = [];
  current_item_start = 0;
  current_payload = [];
  current_count = 0;
  next_expected_bytenr = 0;
}

-- A checksum that starts an item, `items` being finished.
abbrev pub start_item : List (ℕ × List ℕ) → (bytenr crc : ℕ) → Building
start_item items bytenr crc = record {
  items = items;
  current_item_start = bytenr;
  current_payload = to_le 4 crc;
  current_count = 1;
  next_expected_bytenr = saturating_add bytenr 4096;
}

abbrev pub finished : Building → List (ℕ × List ℕ)
finished b = b.items ++ ((b.current_item_start, b.current_payload) ∷ [])

abbrev pub add_more : (sectors_per_item : ℕ) → Building → (bytenr crc : ℕ) → Building
add_more sectors_per_item b bytenr crc =
    if (bytenr == b.next_expected_bytenr) && ltb b.current_count sectors_per_item
    then record b {
      current_payload = b.current_payload ++ to_le 4 crc;
      current_count = b.current_count + 1;
      next_expected_bytenr = saturating_add bytenr 4096;
    }
    else start_item (finished b) bytenr crc

-- A round of the loop, by whether the payload is empty.
abbrev pub add_by : List ℕ → (sectors_per_item : ℕ) → Building → (bytenr crc : ℕ) → Building
add_by [] sectors_per_item b bytenr crc = start_item b.items bytenr crc
add_by (x ∷ xs) sectors_per_item b bytenr crc = add_more sectors_per_item b bytenr crc

unfoldable pub add_checksum : (sectors_per_item : ℕ) → Building → ℕ × ℕ → Building
add_checksum sectors_per_item b (bytenr, crc) =
    add_by b.current_payload sectors_per_item b bytenr crc

unfoldable pub add_checksums : (sectors_per_item : ℕ) → Building → List (ℕ × ℕ) → Building
add_checksums sectors_per_item b [] = b
add_checksums sectors_per_item b (x ∷ xs) =
    add_checksums sectors_per_item (add_checksum sectors_per_item b x) xs

abbrev pub last_items : List ℕ → Building → List (ℕ × List ℕ)
last_items [] b = b.items
last_items (x ∷ xs) b = finished b

unfoldable pub build_extent_csum_items_from_checksums :
    (node_size : ℕ) → List (ℕ × ℕ) → Result (List (ℕ × List ℕ))
build_extent_csum_items_from_checksums node_size [] = ok []
build_extent_csum_items_from_checksums node_size (x ∷ xs) = do
  refuse_if (max_csum_item_bytes node_size 4 == 0)
      (btrfs_item_too_large "checksum item" 4 node_size)
  let built = add_checksums (max_csum_item_bytes node_size 4 / 4) nothing_built (x ∷ xs)
  ok (last_items built.current_payload built)

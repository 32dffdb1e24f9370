-- ===== src/Extent.antt =====
-- core/src/fs/btrfs/write/extent_tree.rs: the items of the extent tree.
pub mod RoundTrip
mod Runs
use luks_android.Prelude.{
  ℕ, zero, suc, ◌+◌, ◌%◌, ◌==◌, not, ltb, Bool, List, [], ◌∷◌, ◌++◌, length, drop,
}
use luks_android.Prelude.{if◌then◌else◌}
use luks_android.Prelude.Bytes.{to_le, u64le, u32le}
use luks_android.Error.{Result, ok, err, corrupt_fs, ◌>>=◌, ◌>>◌, refuse_if}
use luks_android.Tree.{Key}
use luks_android.Alloc.{
  InlineBackref, tree_block, extent_data, shared_block, shared_data, other, BlockGroupItem,
}

pub record ExtentItem : Type 0 where
  pub bytenr : ℕ
  pub length : ℕ
  pub refs : ℕ
  pub generation : ℕ
  pub flags : ℕ
  pub backrefs : List InlineBackref

pub record MetadataItem : Type 0 where
  pub bytenr : ℕ
  pub level : ℕ
  pub refs : ℕ
  pub generation : ℕ
  pub flags : ℕ
  pub backrefs : List InlineBackref

unfoldable pub parse_block_group : Key → List ℕ → Result BlockGroupItem
parse_block_group key bytes = do
  refuse_if (not (key.item_type == 192)) (corrupt_fs "not a block group item key")
  refuse_if (ltb (length bytes) 24) (corrupt_fs "btrfs block group item truncated")
  ok (record {
    start = key.objectid;
    length = key.offset;
    used = u64le bytes 0;
    chunk_objectid = u64le bytes 8;
    flags = u64le bytes 16;
  })

unfoldable pub emit_block_group : BlockGroupItem → Key × List ℕ
emit_block_group bg = (
  record { objectid = bg.start; item_type = 192; offset = bg.length },
  to_le 8 bg.used ++ (to_le 8 bg.chunk_objectid ++ to_le 8 bg.flags),
)

-- One reference with what follows it.
abbrev pub with_rest : InlineBackref → Result (List InlineBackref) → Result (List InlineBackref)
with_rest b rest = rest >>= λ bs. ok (b ∷ bs)

-- The loop over the bytes: each round takes one at least, so their number is fuel enough.
unfoldable pub backrefs_from : ℕ → List ℕ → Result (List InlineBackref)
backrefs_from fuel [] = ok []
backrefs_from zero (item_type ∷ b) = err (corrupt_fs "out of fuel")
backrefs_from (suc fuel) (item_type ∷ b) =
    let after_8 = backrefs_from fuel (drop 8 b) in
    let after_12 = backrefs_from fuel (drop 12 b) in
    let after_28 = backrefs_from fuel (drop 28 b) in
    if item_type == 176
    then (if ltb (length b) 8
        then err (corrupt_fs "tree block ref truncated")
        else with_rest (tree_block (u64le b 0)) after_8)
    else if item_type == 178
    then (if ltb (length b) 28
        then err (corrupt_fs "extent data ref truncated")
        else with_rest (extent_data (u64le b 0) (u64le b 8) (u64le b 16) (u32le b 24)) after_28)
    else if item_type == 182
    then (if ltb (length b) 8
        then err (corrupt_fs "shared block ref truncated")
        else with_rest (shared_block (u64le b 0)) after_8)
    else if item_type == 184
    then (if ltb (length b) 12
        then err (corrupt_fs "shared data ref truncated")
        else with_rest (shared_data (u64le b 0) (u32le b 8)) after_12)
    else ok (other item_type b ∷ [])

abbrev pub parse_inline_backrefs : List ℕ → Result (List InlineBackref)
parse_inline_backrefs b = backrefs_from (length b) b

unfoldable pub parse_extent : Key → List ℕ → Result ExtentItem
parse_extent key bytes = do
  refuse_if (not (key.item_type == 168)) (corrupt_fs "not an extent item key")
  refuse_if (ltb (length bytes) 24) (corrupt_fs "btrfs extent item truncated")
  backrefs ← parse_inline_backrefs (drop 24 bytes)
  ok (record {
    bytenr = key.objectid;
    length = key.offset;
    refs = u64le bytes 0;
    generation = u64le bytes 8;
    flags = u64le bytes 16;
    backrefs = backrefs;
  })

unfoldable pub emit_data_extent :
    (disk_bytenr disk_num_bytes generation root objectid offset : ℕ) → Key × List ℕ
emit_data_extent disk_bytenr disk_num_bytes generation root objectid offset = (
  record { objectid = disk_bytenr; item_type = 168; offset = disk_num_bytes },
  to_le 8 1
      ++ (to_le 8 generation
          ++ (to_le 8 1
              ++ (178 ∷ (to_le 8 root ++ (to_le 8 objectid ++ (to_le 8 offset ++ to_le 4 1)))))),
)

unfoldable pub parse_metadata : Key → List ℕ → Result MetadataItem
parse_metadata key bytes = do
  refuse_if (not (key.item_type == 169)) (corrupt_fs "not a metadata item key")
  refuse_if (ltb (length bytes) 24) (corrupt_fs "btrfs metadata item truncated")
  backrefs ← parse_inline_backrefs (drop 24 bytes)
  ok (record {
    bytenr = key.objectid;
    level = key.offset % 256;
    refs = u64le bytes 0;
    generation = u64le bytes 8;
    flags = u64le bytes 16;
    backrefs = backrefs;
  })

unfoldable pub emit_tree_block : (bytenr level generation owner_root : ℕ) → Key × List ℕ
emit_tree_block bytenr level generation owner_root = (
  record { objectid = bytenr; item_type = 169; offset = level },
  to_le 8 1 ++ (to_le 8 generation ++ (to_le 8 2 ++ (176 ∷ to_le 8 owner_root))),
)

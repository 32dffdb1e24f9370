-- ===== src/Extent/RoundTrip.antt =====
-- core/src/fs/btrfs/write/extent_tree.rs: what is emitted for an extent is parsed as that extent.
use luks_android.Prelude.{ℕ, ◌<◌, ◌≡◌, refl, [], ◌∷◌, arith, ◌%◌}
use luks_android.Prelude.Words.{IsU64}
use luks_android.Prelude.Bytes.{to_le, from_le, from_le-to_le}
use luks_android.Error.{ok}
use luks_android.Alloc.{tree_block, extent_data, BlockGroupItem}
use luks_android.Extent.{
  backrefs_from, parse_extent, emit_data_extent, parse_metadata, emit_tree_block, parse_block_group,
  emit_block_group,
}

u64 : (x : ℕ) → IsU64 x → from_le (to_le 8 x) ≡ x
u64 x h = from_le-to_le 8 x h

-- Whatever the addresses and numbers of 64 bits, the item of a data extent that is emitted is parsed
-- as an extent of data with one reference, from that root, file and offset, counted once.
pub parse_extent-emit :
    (disk_bytenr disk_num_bytes generation root objectid offset : ℕ)
    → IsU64 generation
    → IsU64 root
    → IsU64 objectid
    → IsU64 offset
    → parse_extent
        (emit_data_extent disk_bytenr disk_num_bytes generation root objectid offset).0
        (emit_data_extent disk_bytenr disk_num_bytes generation root objectid offset).1
      ≡ ok (record {
        bytenr = disk_bytenr;
        length = disk_num_bytes;
        refs = 1;
        generation = generation;
        flags = 1;
        backrefs = extent_data root objectid offset 1 ∷ [];
      })
unfolding parse_extent emit_data_extent backrefs_from
parse_extent-emit disk_bytenr disk_num_bytes generation root objectid offset g r o f =
    rw (u64 generation g, u64 root r, u64 objectid o, u64 offset f) refl

-- The item of a tree block that is emitted for a generation and an owner of 64 bits and a level of 8
-- is parsed as a tree block of that level with one reference, from that owner.
pub parse_metadata-emit :
    (bytenr level generation owner_root : ℕ)
    → level < 256
    → IsU64 generation
    → IsU64 owner_root
    → parse_metadata
        (emit_tree_block bytenr level generation owner_root).0
        (emit_tree_block bytenr level generation owner_root).1
      ≡ ok (record {
        bytenr = bytenr;
        level = level;
        refs = 1;
        generation = generation;
        flags = 2;
        backrefs = tree_block owner_root ∷ [];
      })
unfolding parse_metadata emit_tree_block backrefs_from
parse_metadata-emit bytenr level generation owner_root l g o =
    rw (u64 generation g, u64 owner_root o, low) refl
  where
    low : level % 256 ≡ level
    low = omega (arith, l)

-- A block group whose fields are of 64 bits is parsed from what is emitted for it.
parse_block_group-emit :
    (bg : BlockGroupItem)
    → IsU64 bg.used
    → IsU64 bg.chunk_objectid
    → IsU64 bg.flags
    → parse_block_group (emit_block_group bg).0 (emit_block_group bg).1 ≡ ok bg
unfolding parse_block_group emit_block_group
parse_block_group-emit bg u c f = rw (u64 bg.used u, u64 bg.chunk_objectid c, u64 bg.flags f) refl

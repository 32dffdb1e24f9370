-- ===== src/Chunk.antt =====
-- core/src/fs/btrfs/chunk.rs: chunk items, device extents, and the map from logical to physical
-- addresses. `Key` is that of core/src/fs/btrfs/tree.rs.
pub mod Codec
pub mod DevExtent
pub mod Map
mod Tests
use luks_android.Prelude.{ℕ, zero, suc, ◌+◌, ◌-◌, ◌*◌, Bool, true, false, Option, none, some}
use luks_android.Prelude.{
  List, [], ◌∷◌, ◌++◌, length, get_elem?, take, drop, ltb, leb, ◌==◌, not, ◌||◌,
}
use luks_android.Prelude.{if◌then◌else◌, bit_and, insert_at, splice_one}
use luks_android.Prelude.Words.{checked_add, sub64}
use luks_android.Prelude.Bytes.{to_le, slice, u16le, u32le, u64le}
use luks_android.Tree.{Key}
use luks_android.Error.{
  LuksError, Result, ok, err, corrupt_fs, unsupported_fs_feature, ◌>>=◌, ◌>>◌, ok_or, refuse_if,
}

abbrev pub first_chunk_tree_objectid : ℕ
first_chunk_tree_objectid = 256

abbrev pub chunk_item_key : ℕ
chunk_item_key = 228

abbrev pub dev_extent_key : ℕ
dev_extent_key = 204

-- RAID0, RAID10, RAID5 and RAID6, and the mirrored profiles.
abbrev pub striped : ℕ
striped = 0x1c8

abbrev pub mirrored : ℕ
mirrored = 0x630

abbrev pub chunk_item_head : ℕ
chunk_item_head = 48

abbrev pub stripe_size : ℕ
stripe_size = 32

-- A uuid is a list of 16 bytes.
pub record Stripe : Type 0 where
  pub devid : ℕ
  pub offset : ℕ
  pub dev_uuid : List ℕ

pub record Chunk : Type 0 where
  pub logical : ℕ
  pub length : ℕ
  pub owner : ℕ
  pub stripe_len : ℕ
  pub chunk_type : ℕ
  pub io_align : ℕ
  pub io_width : ℕ
  pub sector_size : ℕ
  pub sub_stripes : ℕ
  pub stripes : List Stripe

abbrev pub parse_stripe : List ℕ → ℕ → Stripe
parse_stripe bytes at = record {
  devid = u64le bytes at;
  offset = u64le bytes (at + 8);
  dev_uuid = slice bytes (at + 16) 16;
}

-- The stripes from offset `at` on; the code maps over the indices.
pub parse_stripes : ℕ → List ℕ → ℕ → List Stripe
parse_stripes zero bytes at = []
parse_stripes (suc n) bytes at = parse_stripe bytes at ∷ parse_stripes n bytes (at + stripe_size)

abbrev pub wraps : ℕ → ℕ → Bool
wraps a b = elim (checked_add a b) [ none ↦ true | some c ↦ false ]

-- The fields at their offsets, for `num_stripes` stripes.
abbrev pub parse_fields : ℕ → List ℕ → ℕ → Chunk
parse_fields logical bytes num_stripes = record {
  logical = logical;
  length = u64le bytes 0;
  owner = u64le bytes 8;
  stripe_len = u64le bytes 16;
  chunk_type = u64le bytes 24;
  io_align = u32le bytes 32;
  io_width = u32le bytes 36;
  sector_size = u32le bytes 40;
  sub_stripes = u16le bytes 46;
  stripes = parse_stripes num_stripes bytes chunk_item_head;
}

unfoldable pub parse : ℕ → List ℕ → Result Chunk
parse logical bytes = do
  refuse_if (ltb (length bytes) chunk_item_head) (corrupt_fs "btrfs chunk item truncated")
  let num_stripes = u16le bytes 44
  refuse_if (num_stripes == 0) (corrupt_fs "btrfs chunk has no stripes")
  refuse_if (ltb (length bytes) (chunk_item_head + num_stripes * stripe_size))
      (corrupt_fs "btrfs chunk stripe array truncated")
  refuse_if (u64le bytes 0 == 0) (corrupt_fs "btrfs chunk has zero length")
  refuse_if (wraps logical (u64le bytes 0)) (corrupt_fs "btrfs chunk wraps the address space")
  refuse_if (not (bit_and (u64le bytes 24) striped == 0))
      (unsupported_fs_feature "btrfs striped or parity chunk profile (RAID0/5/6/10)")
  ok (parse_fields logical bytes num_stripes)

-- The buffer is filled from the front without gaps, so its fields are put one behind the other.
abbrev pub emit_stripe : Stripe → List ℕ
emit_stripe s = to_le 8 s.devid ++ (to_le 8 s.offset ++ s.dev_uuid)

pub emit_stripes : List Stripe → List ℕ
emit_stripes [] = []
emit_stripes (s ∷ ss) = emit_stripe s ++ emit_stripes ss

abbrev pub emit_head : Chunk → List ℕ
emit_head c =
    to_le 8 c.length
    ++ (to_le 8 c.owner
        ++ (to_le 8 c.stripe_len
            ++ (to_le 8 c.chunk_type
                ++ (to_le 4 c.io_align
                    ++ (to_le 4 c.io_width
                        ++ (to_le 4 c.sector_size
                            ++ (to_le 2 (length c.stripes) ++ to_le 2 c.sub_stripes)))))))

unfoldable pub emit : Chunk → Key × List ℕ
emit c = (
  record { objectid = first_chunk_tree_objectid; item_type = chunk_item_key; offset = c.logical },
  emit_head c ++ emit_stripes c.stripes,
)

pub is_mirrored : Chunk → Bool
is_mirrored c = not (bit_and c.chunk_type mirrored == 0)

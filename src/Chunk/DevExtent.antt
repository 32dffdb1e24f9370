-- ===== src/Chunk/DevExtent.antt =====
-- core/src/fs/btrfs/chunk.rs: device extents, which map physical ranges back to chunks.
use luks_android.Prelude.{
  ℕ, ◌+◌, ◌<◌, ◌≡◌, refl, ◌==◌, not, List, [], ◌∷◌, ◌++◌, length, take, ltb, ge→ltb, sym, ap, ◌∙◌,
  arith,
}
use luks_android.Prelude.{false}
use luks_android.Prelude.Words.{IsU64}
use luks_android.Prelude.Bytes.{to_le, from_le-to_le, slice, u64le}
use luks_android.Error.{Result, ok, corrupt_fs, ◌>>◌, refuse_if}
use luks_android.Chunk.{dev_extent_key, first_chunk_tree_objectid, wraps}
use luks_android.Tree.{Key}

pub record DevExtent : Type 0 where
  pub devid : ℕ
  pub physical_offset : ℕ
  pub chunk_tree : ℕ
  pub chunk_objectid : ℕ
  pub chunk_offset : ℕ
  pub length : ℕ
  pub chunk_tree_uuid : List ℕ

abbrev pub dev_extent_size : ℕ
dev_extent_size = 48

abbrev chunk_tree_objectid : ℕ
chunk_tree_objectid = 3

abbrev pub dev_extent_fields : Key → List ℕ → DevExtent
dev_extent_fields key bytes = record {
  devid = key.objectid;
  physical_offset = key.offset;
  chunk_tree = u64le bytes 0;
  chunk_objectid = u64le bytes 8;
  chunk_offset = u64le bytes 16;
  length = u64le bytes 24;
  chunk_tree_uuid = slice bytes 32 16;
}

unfoldable pub parse : Key → List ℕ → Result DevExtent
parse key bytes = do
  refuse_if (not (key.item_type == dev_extent_key)) (corrupt_fs "not a btrfs dev extent key")
  refuse_if (ltb (length bytes) dev_extent_size) (corrupt_fs "btrfs dev extent item truncated")
  refuse_if (u64le bytes 24 == 0) (corrupt_fs "btrfs dev extent has zero length")
  refuse_if (wraps key.offset (u64le bytes 24))
      (corrupt_fs "btrfs dev extent wraps physical address space")
  ok (dev_extent_fields key bytes)

-- `DevExtent::new`
pub new_dev_extent : (devid physical_offset chunk_offset len : ℕ) → List ℕ → DevExtent
new_dev_extent devid physical_offset chunk_offset len uuid = record {
  devid = devid;
  physical_offset = physical_offset;
  chunk_tree = chunk_tree_objectid;
  chunk_objectid = first_chunk_tree_objectid;
  chunk_offset = chunk_offset;
  length = len;
  chunk_tree_uuid = uuid;
}

unfoldable pub emit : DevExtent → Key × List ℕ
emit d = (
  record { objectid = d.devid; item_type = dev_extent_key; offset = d.physical_offset },
  to_le 8 d.chunk_tree
      ++ (to_le 8 d.chunk_objectid
          ++ (to_le 8 d.chunk_offset ++ (to_le 8 d.length ++ d.chunk_tree_uuid))),
)

pub record IsDevExtent (d : DevExtent) : Type 0 where
  pub chunk_tree : IsU64 d.chunk_tree
  pub chunk_objectid : IsU64 d.chunk_objectid
  pub chunk_offset : IsU64 d.chunk_offset
  pub not_empty : 0 < d.length
  pub no_wrap : IsU64 (d.physical_offset + d.length)
  pub uuid : length d.chunk_tree_uuid ≡ 16

take_all {ℓ} : {A : Type ℓ} (xs : List A) → take (length xs) xs ≡ xs
take_all [] = refl
take_all (x ∷ xs) = ap (λ ys. x ∷ ys) (take_all xs)

pos-eq_zero : (x : ℕ) → 0 < x → (x == 0) ≡ false
pos-eq_zero x h = ground arith

no_wraps : (a b : ℕ) → IsU64 (a + b) → wraps a b ≡ false
no_wraps a b h = ground arith

parse-ok :
    (key : Key) (bytes : List ℕ)
    → key.item_type ≡ dev_extent_key
    → length bytes ≡ 48
    → 0 < u64le bytes 24
    → IsU64 (key.offset + u64le bytes 24)
    → parse key bytes ≡ ok (dev_extent_fields key bytes)
unfolding parse
parse-ok key bytes t l p u = rw (
  t,
  ge→ltb (length bytes) 48 (omega arith),
  pos-eq_zero (u64le bytes 24) p,
  no_wraps key.offset (u64le bytes 24) u,
)

-- Parsing the emitted key and bytes of a device extent gives it back, if its fields fit their
-- widths, it is not empty, and its end is a physical address of 64 bits.
pub parse_dev_extent-emit : (d : DevExtent) → IsDevExtent d → parse (emit d).0 (emit d).1 ≡ ok d
unfolding emit
parse_dev_extent-emit d v =
    parse-ok (emit d).0 (emit d).1 refl (omega (arith, v.uuid)) (rw read v.not_empty)
      (rw read v.no_wrap)
    ∙ ap ok fields
  where
    read : u64le (emit d).1 24 ≡ d.length
    read = unfold emit in from_le-to_le 8 d.length (omega (arith, v.no_wrap))

    fields : dev_extent_fields (emit d).0 (emit d).1 ≡ d
    fields =
        unfold emit in
        λ i. record {
          devid = d.devid;
          physical_offset = d.physical_offset;
          chunk_tree = from_le-to_le 8 d.chunk_tree v.chunk_tree i;
          chunk_objectid = from_le-to_le 8 d.chunk_objectid v.chunk_objectid i;
          chunk_offset = from_le-to_le 8 d.chunk_offset v.chunk_offset i;
          length = from_le-to_le 8 d.length (omega (arith, v.no_wrap)) i;
          chunk_tree_uuid =
              (ap (λ n. take n d.chunk_tree_uuid) (sym v.uuid) ∙ take_all d.chunk_tree_uuid) i;
        }

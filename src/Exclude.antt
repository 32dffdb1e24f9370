-- ===== src/Exclude.antt =====
-- core/src/fs/btrfs/write/exclude.rs: the logical ranges that must stay free of data, since a copy
-- of the superblock lies there on the device.
pub mod Merge
pub mod Mirrors
mod Tests
use luks_android.Prelude.{
  ℕ, ◌+◌, ◌-◌, min, max, ltb, leb, ◌&&◌, Bool, true, false, Option, none, some, List, [], ◌∷◌, ◌++◌,
}
use luks_android.Prelude.{if◌then◌else◌}
use luks_android.Prelude.Words.{add64, sub64, checked_add}
use luks_android.Chunk.{Stripe, Chunk}
use luks_android.Chunk.Map.{ChunkMap}

-- `Range<u64>`
pub record Range : Type 0 where
  pub start : ℕ
  pub end : ℕ

abbrev pub sb_mirror_0 : ℕ
sb_mirror_0 = 65536

abbrev pub sb_mirror_1 : ℕ
sb_mirror_1 = 67108864

abbrev pub sb_mirror_2 : ℕ
sb_mirror_2 = 274877906944

abbrev pub sb_offsets : List ℕ
sb_offsets = sb_mirror_0 ∷ sb_mirror_1 ∷ sb_mirror_2 ∷ []

abbrev pub sb_protect_len : ℕ
sb_protect_len = 65536

-- A push behind the guard `start < end`.
abbrev pub push_if_nonempty : ℕ → ℕ → List Range
push_if_nonempty start end = if ltb start end then record { start = start; end = end } ∷ [] else []

-- The range that protects a superblock at a logical address, within its chunk.
abbrev pub protect : ℕ → ℕ → List Range
protect logical_start chunk_end =
    push_if_nonempty logical_start (min (add64 logical_start sb_protect_len) chunk_end)

-- The body of the innermost loop.
unfoldable pub for_stripe : Chunk → ℕ → ℕ → Stripe → List Range
for_stripe chunk chunk_end sb_offset stripe = elim (checked_add stripe.offset chunk.length) [
  | none ↦ []
  | some stripe_end ↦
      if leb stripe.offset sb_offset && ltb sb_offset stripe_end
      then protect (add64 chunk.logical (sub64 sb_offset stripe.offset)) chunk_end
      else []
]

pub for_stripes : Chunk → ℕ → ℕ → List Stripe → List Range
for_stripes chunk chunk_end sb_offset [] = []
for_stripes chunk chunk_end sb_offset (s ∷ ss) =
    for_stripe chunk chunk_end sb_offset s ++ for_stripes chunk chunk_end sb_offset ss

pub for_mirrors : Chunk → ℕ → List ℕ → List Range
for_mirrors chunk chunk_end [] = []
for_mirrors chunk chunk_end (o ∷ os) =
    for_stripes chunk chunk_end o chunk.stripes ++ for_mirrors chunk chunk_end os

unfoldable pub for_chunk : Chunk → List Range
for_chunk chunk = elim (checked_add chunk.logical chunk.length) [
  | none ↦ []
  | some chunk_end ↦
      (if ltb chunk.logical sb_mirror_0
        then push_if_nonempty chunk.logical (min sb_mirror_0 chunk_end)
        else [])
      ++ for_mirrors chunk chunk_end sb_offsets
]

pub for_chunks : List Chunk → List Range
for_chunks [] = []
for_chunks (c ∷ cs) = for_chunk c ++ for_chunks cs

-- `sort_by_key(|r| r.start)`, a stable sort.
unfoldable pub put : Range → List Range → List Range
put r [] = r ∷ []
put r (x ∷ xs) = let rest = put r xs in if leb r.start x.start then r ∷ x ∷ xs else x ∷ rest

unfoldable pub sort : List Range → List Range
sort [] = []
sort (r ∷ rs) = put r (sort rs)

-- The loop of `merge_ranges`, with the last merged range once there is one.
pub merge_from : Range → List Range → List Range
merge_from last [] = last ∷ []
merge_from last (r ∷ rs) =
    let joined = merge_from (record last { end = max last.end r.end }) rs in
    let apart = last ∷ merge_from r rs in
    let skipped = merge_from last rs in
    if leb r.end r.start then skipped else if leb r.start last.end then joined else apart

pub merge : List Range → List Range
merge [] = []
merge (r ∷ rs) = let skipped = merge rs in if leb r.end r.start then skipped else merge_from r rs

unfoldable pub merge_ranges : List Range → List Range
merge_ranges rs = merge (sort rs)

unfoldable pub compute_sb_exclusions : ChunkMap → List Range
compute_sb_exclusions map = merge_ranges (for_chunks map.chunks)

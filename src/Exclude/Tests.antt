-- ===== src/Exclude/Tests.antt =====
-- The ranges excluded on a small file system.
use luks_android.Prelude.{ℕ, ◌≡◌, refl, true, List, [], ◌∷◌, arith, inl, inr}
use luks_android.Chunk.{Stripe, Chunk}
use luks_android.Chunk.Map.{ChunkMap}
use luks_android.Exclude.{
  Range, compute_sb_exclusions, merge_ranges, merge, merge_from, sort, put, for_chunks, for_chunk,
  for_mirrors, for_stripes, for_stripe,
}
use luks_android.Exclude.Merge.{Apart, covered, merge_ranges_lem}
use luks_android.Exclude.Mirrors.{Protected, compute_sb_exclusions_lem}

abbrev copy : ℕ → Stripe
copy offset = record { devid = 1; offset = offset; dev_uuid = [] }

-- The metadata chunk of a fresh file system of 4 GiB; its first copy holds the second superblock.
abbrev metadata : Chunk
metadata = record {
  logical = 30408704;
  length = 268435456;
  owner = 2;
  stripe_len = 65536;
  chunk_type = 36;
  io_align = 65536;
  io_width = 65536;
  sector_size = 4096;
  sub_stripes = 1;
  stripes = copy 38797312 ∷ copy 307232768 ∷ [];
}

abbrev chunk_map : ChunkMap
chunk_map = record { chunks = metadata ∷ [] }

abbrev range : ℕ → ℕ → Range
range start end = record { start = start; end = end }

excludes_mirror : compute_sb_exclusions chunk_map ≡ range 58720256 58785792 ∷ []
unfolding compute_sb_exclusions merge_ranges merge merge_from sort put for_chunks for_chunk
    for_mirrors for_stripes for_stripe
excludes_mirror = refl

abbrev unsorted : List Range
unsorted = range 30 40 ∷ range 10 20 ∷ range 20 25 ∷ range 5 5 ∷ []

merges : merge_ranges unsorted ≡ range 10 25 ∷ range 30 40 ∷ []
unfolding merge_ranges merge merge_from sort put
merges = refl

merge_ranges_lem_example :
    Apart 0 (merge_ranges unsorted) × (covered (merge_ranges unsorted) 22 ≡ covered unsorted 22)
merge_ranges_lem_example = merge_ranges_lem unsorted 22

mirror_byte : Protected metadata (copy 38797312) 67108864 4095
mirror_byte = record {
  addressable = omega arith;
  on_device = omega arith;
  starts = omega arith;
  begins_inside = omega arith;
  byte = omega arith;
  inside = omega arith;
}

compute_sb_exclusions_lem_example : covered (compute_sb_exclusions chunk_map) 58724351 ≡ true
compute_sb_exclusions_lem_example =
    compute_sb_exclusions_lem chunk_map 0 metadata 0 (copy 38797312) 67108864 4095 refl refl
      (inr (inl refl)) mirror_byte

-- ===== src/Chunk/Tests.antt =====
-- Concrete chunk items and maps.
use luks_android.Prelude.{ℕ, ◌≡◌, refl, List, [], ◌∷◌, arith, ◌<◌, ◌^◌}
use luks_android.Error.{ok, err}
use luks_android.Chunk.{Stripe, Chunk, parse, emit}
use luks_android.Chunk.Codec.{IsStripe, IsChunk, parse-emit}
use luks_android.Chunk.Map.{
  ChunkMap, insert, map, map_all_stripes, unmapped_gap, below_first, search, locate,
  stripe_addresses,
}
use luks_android.Chunk.Map.Lookup.{Sorted, Located, locate_lem}
use luks_android.Chunk.Map.Extent.{map-later}

abbrev uuid : List ℕ
uuid = 1 ∷ 2 ∷ 3 ∷ 4 ∷ 5 ∷ 6 ∷ 7 ∷ 8 ∷ 9 ∷ 10 ∷ 11 ∷ 12 ∷ 13 ∷ 14 ∷ 15 ∷ 16 ∷ []

abbrev stripe_at : ℕ → Stripe
stripe_at offset = record { devid = 1; offset = offset; dev_uuid = uuid }

-- A metadata chunk with two copies (METADATA | DUP).
abbrev dup : Chunk
dup = record {
  logical = 30000;
  length = 5000;
  owner = 2;
  stripe_len = 65536;
  chunk_type = 36;
  io_align = 4096;
  io_width = 4096;
  sector_size = 4096;
  sub_stripes = 1;
  stripes = stripe_at 70000 ∷ stripe_at 90000 ∷ [];
}

abbrev single : Chunk
single = record {
  logical = 10000;
  length = 8000;
  owner = 2;
  stripe_len = 65536;
  chunk_type = 1;
  io_align = 4096;
  io_width = 4096;
  sector_size = 4096;
  sub_stripes = 1;
  stripes = stripe_at 50000 ∷ [];
}

abbrev two_chunks : ChunkMap
two_chunks = record { chunks = single ∷ dup ∷ [] }

insert_in_order : insert (insert (record { chunks = [] }) dup) single ≡ two_chunks
unfolding insert search
insert_in_order = refl

map_inside : map two_chunks 31000 ≡ ok (71000, 4000)
unfolding map locate search
map_inside = refl

map_gap : map two_chunks 20000 ≡ err unmapped_gap
unfolding map locate search
map_gap = refl

map_below : map two_chunks 9999 ≡ err below_first
unfolding map locate search
map_below = refl

map_copies : map_all_stripes two_chunks 31000 ≡ ok (71000 ∷ 91000 ∷ [])
unfolding map_all_stripes locate search stripe_addresses
map_copies = refl

stripe_at-IsStripe : (n : ℕ) → n < 2 ^ 64 → IsStripe (stripe_at n)
stripe_at-IsStripe n h = record { devid = omega arith; offset = h; uuid = refl }

dup-IsChunk : IsChunk dup
dup-IsChunk = record {
  not_empty = omega arith;
  no_wrap = omega arith;
  owner = omega arith;
  stripe_len = omega arith;
  chunk_type = omega arith;
  io_align = omega arith;
  io_width = omega arith;
  sector_size = omega arith;
  sub_stripes = omega arith;
  some_stripe = omega arith;
  few_stripes = omega arith;
  not_striped = refl;
  all_stripes =
      (stripe_at-IsStripe 70000 (omega arith), (stripe_at-IsStripe 90000 (omega arith), tt));
}

parse-emit_example : parse (emit dup).0.offset (emit dup).1 ≡ ok dup
parse-emit_example = parse-emit dup dup-IsChunk

two_chunks-Sorted : Sorted 0 two_chunks.chunks
two_chunks-Sorted =
    (omega arith, omega arith, omega arith, (omega arith, omega arith, omega arith, tt))

locate_lem_example : Located two_chunks.chunks 31000 (locate two_chunks.chunks 31000)
locate_lem_example = locate_lem two_chunks.chunks 0 31000 two_chunks-Sorted (omega arith)

map-later_example : map two_chunks 31500 ≡ ok (71500, 3500)
map-later_example =
    map-later two_chunks 0 31000 500 71000 4000 two_chunks-Sorted (omega arith) map_inside
      (omega arith) (omega arith)

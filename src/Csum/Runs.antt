-- ===== src/Csum/Runs.antt =====
-- core/src/fs/btrfs/write/node.rs and csum_delete.rs: runs.
use luks_android.Prelude.{ℕ, ◌≡◌, refl, List, [], ◌∷◌, arith, All, ◌/◌, ◌&&◌, leb, ltb, not}
use luks_android.Prelude.Bytes.{to_le}
use luks_android.Error.{ok}
use luks_android.Exclude.{sort, put}
use luks_android.Exclude.Merge.{covered}
use luks_android.Csum.{
  max_csum_item_bytes, build_extent_csum_items_from_checksums, add_checksum, add_checksums,
}
use luks_android.Csum.Items.{all_sums, FitsLeaf, build_extent_csum_items_from_checksums_lem}
use luks_android.Csum.Surviving.{
  is_freed, freed_ranges, merged_freed, merge_freed_from, subtract_freed, leftovers, leftover,
  compute_surviving_intervals, compute_surviving_intervals_lem,
}

-- The largest items that were measured.
standard_node : max_csum_item_bytes 16384 4 ≡ 16228
unfolding max_csum_item_bytes
standard_node = refl

small_node : max_csum_item_bytes 4096 4 ≡ 3940
unfolding max_csum_item_bytes
small_node = refl

-- Two sectors side by side, and one apart.
abbrev sums : List (ℕ × ℕ)
sums = (8192, 17) ∷ (12288, 18) ∷ (40960, 19) ∷ []

build_extent_csum_items_from_checksums_lem_example :
    (items : List (ℕ × List ℕ)) × (build_extent_csum_items_from_checksums 16384 sums ≡ ok items)
    × (all_sums items ≡ sums)
    × All (FitsLeaf (max_csum_item_bytes 16384 4 / 4)) items
unfolding max_csum_item_bytes
build_extent_csum_items_from_checksums_lem_example =
    build_extent_csum_items_from_checksums_lem 16384 sums
      ((omega arith, omega arith), ((omega arith, omega arith), ((omega arith, omega arith), tt)))
      (omega arith)

two_items :
    build_extent_csum_items_from_checksums 16384 sums
    ≡ ok ((8192, 17 ∷ 0 ∷ 0 ∷ 0 ∷ 18 ∷ 0 ∷ 0 ∷ 0 ∷ []) ∷ (40960, to_le 4 19) ∷ [])
unfolding build_extent_csum_items_from_checksums add_checksums add_checksum max_csum_item_bytes
two_items = refl

-- The middle of an item and the range before it are freed.
abbrev freed : List (ℕ × ℕ)
freed = (12288, 4096) ∷ (0, 4096) ∷ (14000, 100) ∷ []

compute_surviving_intervals_lem_example :
    covered (compute_surviving_intervals 8192 24576 (merged_freed freed)) 13000
    ≡ (leb 8192 13000 && ltb 13000 24576) && not (is_freed freed 13000)
compute_surviving_intervals_lem_example =
    compute_surviving_intervals_lem 8192 24576 13000 freed (omega arith)

two_left :
    compute_surviving_intervals 8192 24576 (merged_freed freed)
    ≡ record { start = 8192; end = 12288 } ∷ record { start = 16384; end = 24576 } ∷ []
unfolding compute_surviving_intervals merged_freed freed_ranges sort put merge_freed_from
    subtract_freed leftovers leftover
two_left = refl

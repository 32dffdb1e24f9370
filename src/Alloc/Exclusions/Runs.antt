-- ===== src/Alloc/Exclusions/Runs.antt =====
-- An exclusion in the middle of a free range.
use luks_android.Prelude.{ℕ, ◌≡◌, refl, List, [], ◌∷◌, leb, ltb, ◌&&◌, not, arith}
use luks_android.Alloc.Ranges.{has}
use luks_android.Alloc.Exclusions.Cuts.{cut_ranges_lem}
use luks_android.Alloc.{FreeRange, FreeSpaceMap}
use luks_android.Alloc.Exclusions.{
  exclude_ranges, exclude_all, exclude_in_groups, exclude_in_group, exclude_from_group, cut_ranges,
  cut_range, sort_by_start, put_by_start, join_overlapping, join_overlapping_from,
}

abbrev free_range : ℕ → ℕ → FreeRange
free_range start len = record { start = start; length = len }

abbrev group_map : List FreeRange → List FreeRange → ℕ → FreeSpaceMap
group_map free excluded total = record {
  block_groups =
      record {
        block_group = record {
          start = 1000;
          length = 1000;
          used = 0;
          chunk_objectid = 256;
          flags = 1;
        };
        allocated_extents = [];
        free_ranges = free;
        pinned_freed = [];
        excluded_ranges = excluded;
        total_allocated_bytes = 0;
        total_free_bytes = total;
      }
      ∷ [];
}

splits :
    exclude_ranges
      (group_map (free_range 1000 1000 ∷ []) [] 1000)
      (record { start = 1200; end = 1300 } ∷ [])
    ≡ group_map (free_range 1000 200 ∷ free_range 1300 700 ∷ []) (free_range 1200 100 ∷ []) 900
unfolding exclude_ranges exclude_all exclude_in_groups exclude_in_group exclude_from_group
    cut_ranges cut_range sort_by_start put_by_start join_overlapping join_overlapping_from
splits = refl

abbrev two_ranges : List FreeRange
two_ranges = free_range 1000 100 ∷ free_range 1200 300 ∷ []

cut_ranges_lem_example :
    has (cut_ranges 1250 1300 two_ranges).free 1299
    ≡ (has two_ranges 1299 && not (leb 1250 1299 && ltb 1299 1300))
cut_ranges_lem_example =
    cut_ranges_lem two_ranges 1000 1500 1250 1300 1299 (omega arith) (omega arith) (omega arith)
      (omega arith)

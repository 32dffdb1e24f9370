-- ===== src/Alloc/Tests.antt =====
-- Runs of the allocator on a data group of 64 KiB, and its theorems there.
use luks_android.Prelude.{ℕ, ◌*◌, ◌≡◌, refl, arith, true, false, All}
use luks_android.Prelude.{[], ◌∷◌, ◌⊎◌, some}
use luks_android.Prelude.Bits.{align_up}
use luks_android.Error.{LuksError, ok, err, filesystem_full, out_of_bounds, ◌>>=◌}
use luks_android.Alloc.{BlockGroupItem, AllocatedExtent, ExtentTree}
use luks_android.Alloc.{FreeSpaceMap, allocate_data, allocate_from, first_fit}
use luks_android.Alloc.{bg_holds_data, allocate_metadata_for_owner}
use luks_android.Alloc.{find_free_range, find_in_groups, find_in_ranges}
use luks_android.Alloc.Groups.{IsValid}
use luks_android.Alloc.Allocate.{
  Allocated, IsFull, is_data_group, takes_block_of, allocate_data_lem,
}
use luks_android.Alloc.Allocate.{allocate_metadata_for_owner_lem}
use luks_android.Alloc.Release.{mark_allocated, mark_in_groups, mark_in_ranges, not_free, free_data}
use luks_android.Alloc.Release.{free_in_groups, free_in_group, overlaps_pinned, pin, already_pinned}
use luks_android.Alloc.Release.{join_touching_from}
use luks_android.Alloc.Release.Mark.{NotInGroup, IsTakenPartly, mark_allocated_lem}
use luks_android.Alloc.Release.FreeData.{Pinned, Refused, free_data_lem}
use luks_android.Alloc.Build.{from_extent_tree, build_groups, build_group, checked_group, scan}
use luks_android.Alloc.Build.Sound.{IsExact, from_extent_tree_lem}

abbrev data_extent : ℕ → ℕ → AllocatedExtent
data_extent bytenr len = record {
  bytenr = bytenr;
  length = len;
  refs = 1;
  generation = 7;
  is_data = true;
  is_tree_block = false;
  level = 0;
  backrefs = [];
}

abbrev data_item : BlockGroupItem
data_item = record { start = 1048576; length = 65536; used = 8192; chunk_objectid = 256; flags = 1 }

abbrev tree : ExtentTree
tree = record {
  block_groups = data_item ∷ [];
  extents = data_extent 1048576 4096 ∷ data_extent 1056768 4096 ∷ [];
}

-- The pages 1 and 3 to 15 of the group are free.
abbrev small : FreeSpaceMap
small = record {
  block_groups =
      record {
        block_group = data_item;
        allocated_extents = tree.extents;
        free_ranges =
            record { start = 1052672; length = 4096 }
            ∷ record { start = 1060864; length = 53248 }
            ∷ [];
        pinned_freed = [];
        excluded_ranges = [];
        total_allocated_bytes = 8192;
        total_free_bytes = 57344;
      }
      ∷ [];
}

small-IsValid : IsValid small
small-IsValid = omega arith

built : from_extent_tree tree ≡ ok small
unfolding from_extent_tree build_groups build_group checked_group scan
built = refl

-- The first range with room for two pages begins at page 3.
allocates : (allocate_data small 8192 4096 >>= λ found. ok found.0) ≡ ok 1060864
unfolding allocate_data allocate_from first_fit bg_holds_data align_up
allocates = refl

finds : find_free_range small 1 8192 4096 ≡ some (record { start = 1060864; length = 8192 })
unfolding find_free_range find_in_groups find_in_ranges align_up
finds = refl

marks_only_free : mark_allocated small 1052672 8192 ≡ err not_free
unfolding mark_allocated mark_in_groups mark_in_ranges
marks_only_free = refl

-- The second release of the same page is refused.
pins_once :
    (free_data small 1048576 4096 >>= λ map'. free_data map' 1048576 4096) ≡ err already_pinned
unfolding free_data free_in_groups free_in_group overlaps_pinned pin join_touching_from
pins_once = refl

allocate_data_lem_example :
    ((start : ℕ) × (map' : FreeSpaceMap) × (allocate_data small 8192 4096 ≡ ok (start, map'))
      × ((q : ℕ) × (start ≡ q * 4096))
      × Allocated is_data_group 0 8192 start small.block_groups map'.block_groups)
    ⊎ (allocate_data small 8192 4096 ≡ err filesystem_full)
      × IsFull is_data_group 8192 4096 small.block_groups
allocate_data_lem_example =
    allocate_data_lem 8192 12 52 (omega arith) (omega arith) (omega arith) small small-IsValid

allocate_metadata_for_owner_lem_example :
    ((start : ℕ) × (map' : FreeSpaceMap) × (allocate_metadata_for_owner small 16384 5
        ≡ ok (start, map'))
      × ((q : ℕ) × (start ≡ q * 16384))
      × Allocated (takes_block_of 5) 0 16384 start small.block_groups map'.block_groups)
    ⊎ (allocate_metadata_for_owner small 16384 5 ≡ err filesystem_full)
      × IsFull (takes_block_of 5) 16384 16384 small.block_groups
allocate_metadata_for_owner_lem_example =
    allocate_metadata_for_owner_lem 14 50 5 (omega arith) (omega arith) small small-IsValid

mark_allocated_lem_example :
    ((map' : FreeSpaceMap) × (mark_allocated small 1052672 4096 ≡ ok map')
      × Allocated (λ flags. true) 0 4096 1052672 small.block_groups map'.block_groups)
    ⊎ (mark_allocated small 1052672 4096 ≡ err out_of_bounds)
      × All (λ bg. NotInGroup 1052672 4096 bg) small.block_groups
    ⊎ (mark_allocated small 1052672 4096 ≡ err not_free)
      × IsTakenPartly 1052672 4096 small.block_groups
mark_allocated_lem_example = mark_allocated_lem small 1052672 4095 small-IsValid (omega arith)

free_data_lem_example :
    ((map' : FreeSpaceMap) × (free_data small 1048576 4096 ≡ ok map')
      × Pinned 0 4096 1048576 small.block_groups map'.block_groups)
    ⊎ ((e : LuksError) × (free_data small 1048576 4096 ≡ err e)
        × Refused 1048576 4096 small.block_groups e)
free_data_lem_example = free_data_lem small 1048576 4095 small-IsValid (omega arith)

from_extent_tree_lem_example : IsValid small × All (IsExact tree.extents) small.block_groups
from_extent_tree_lem_example =
    from_extent_tree_lem tree small (omega arith) (omega arith) (omega arith) (omega arith) built

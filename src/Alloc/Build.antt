-- ===== src/Alloc/Build.antt =====
-- core/src/fs/btrfs/write/alloc.rs: the free-space map of a mounted file system, from the block
-- groups and extents of its extent tree.
pub mod Gaps
pub mod Sound
use luks_android.Prelude.{ℕ, ◌+◌, ◌-◌, Bool, true, false, Option, none, some}
use luks_android.Prelude.{List, [], ◌∷◌, ◌++◌, ltb, leb, ◌==◌, ◌||◌, if◌then◌else◌}
use luks_android.Prelude.Words.{add64, sub64, checked_add}
use luks_android.Error.{LuksError, Result, ok, err, corrupt_fs, ◌>>=◌, ok_or}
use luks_android.Alloc.{FreeRange, BlockGroupItem, AllocatedExtent, ExtentTree}
use luks_android.Alloc.{BlockGroupFreeSpace, FreeSpaceMap}

-- What the loop over the extents of one block group has collected.
pub record Scan : Type 0 where
  pub extents : List AllocatedExtent
  pub free_ranges : List FreeRange
  pub total_allocated : ℕ

-- The loop and the push after it. `total` and `cursor` are the loop's variables; the vectors are
-- built from the front.
unfoldable pub scan : (bg_start bg_end total cursor : ℕ) → List AllocatedExtent → Scan
scan bg_start bg_end total cursor [] = record {
  extents = [];
  free_ranges =
      if ltb cursor bg_end
      then record { start = cursor; length = sub64 bg_end cursor } ∷ []
      else [];
  total_allocated = total;
}
scan bg_start bg_end total cursor (ext ∷ exts) =
    let outside = ltb ext.bytenr bg_start || leb bg_end ext.bytenr in
    let rest =
      scan bg_start bg_end (if outside then total else add64 total ext.length)
        (if outside then cursor else add64 ext.bytenr ext.length) exts in
    if outside then rest else record {
      extents = ext ∷ rest.extents;
      free_ranges =
          if ltb cursor ext.bytenr
          then record { start = cursor; length = sub64 ext.bytenr cursor } ∷ rest.free_ranges
          else rest.free_ranges;
      total_allocated = rest.total_allocated;
    }

-- `free_ranges.iter().map(|r| r.length).sum()`
abbrev pub sum_lengths : List FreeRange → ℕ
sum_lengths [] = 0
sum_lengths (r ∷ rs) = add64 r.length (sum_lengths rs)

abbrev pub used_mismatch : LuksError
used_mismatch = corrupt_fs "extent tree allocations do not match block group used counter"

abbrev pub length_mismatch : LuksError
length_mismatch = corrupt_fs "sum of allocated and free space does not match block group length"

-- The entry of the map for a block group.
abbrev pub entry : BlockGroupItem → Scan → ℕ → BlockGroupFreeSpace
entry bg s total_free = record {
  block_group = bg;
  allocated_extents = s.extents;
  free_ranges = s.free_ranges;
  pinned_freed = [];
  excluded_ranges = [];
  total_allocated_bytes = s.total_allocated;
  total_free_bytes = total_free;
}

-- The two consistency checks before it is pushed.
unfoldable pub checked_group : BlockGroupItem → Scan → Result BlockGroupFreeSpace
checked_group bg s =
    let total_free = sum_lengths s.free_ranges in
    if s.total_allocated == bg.used
    then if add64 s.total_allocated total_free == bg.length
      then ok (entry bg s total_free)
      else err length_mismatch
    else err used_mismatch

unfoldable pub build_group : List AllocatedExtent → BlockGroupItem → Result BlockGroupFreeSpace
build_group exts bg =
    ok_or (checked_add bg.start bg.length) (corrupt_fs "block group range overflow") >>= λ bg_end.
    checked_group bg (scan bg.start bg_end 0 bg.start exts)

unfoldable pub build_groups :
    List AllocatedExtent → List BlockGroupItem → Result (List BlockGroupFreeSpace)
build_groups exts [] = ok []
build_groups exts (bg ∷ bgs) =
    build_group exts bg >>= λ g. (build_groups exts bgs >>= λ gs. ok (g ∷ gs))

unfoldable pub from_extent_tree : ExtentTree → Result FreeSpaceMap
from_extent_tree tree =
    build_groups tree.extents tree.block_groups >>= λ gs. ok (record { block_groups = gs })

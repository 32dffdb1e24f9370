-- ===== src/Alloc/Exclusions.antt =====
-- core/src/fs/btrfs/write/alloc.rs: taking the ranges of superblock copies out of the free space.
pub mod Cuts
mod Runs
use luks_android.Prelude.{ℕ, ◌-◌, min, max, ltb, leb, ◌||◌, List, [], ◌∷◌, ◌++◌, if◌then◌else◌}
use luks_android.Prelude.Words.{add64, sub64, saturating_add}
use luks_android.Error.{Result, ok, ◌>>=◌}
use luks_android.Chunk.Map.{ChunkMap}
use luks_android.Exclude.{Range, compute_sb_exclusions}
use luks_android.Alloc.{FreeRange, ExtentTree, BlockGroupFreeSpace, FreeSpaceMap, range_end}
use luks_android.Alloc.Build.{from_extent_tree, sum_lengths}

-- What the loop over the free ranges of one block group builds.
pub record Cut : Type 0 where
  pub free : List FreeRange
  pub excluded : List FreeRange

-- A range from `start` to `end`, if that is not empty.
abbrev pub between : ℕ → ℕ → List FreeRange
between start end =
    if ltb start end then record { start = start; length = sub64 end start } ∷ [] else []

-- The body of that loop for `[e_start, e_end)`, with what the later ranges give.
pub cut_range : ℕ → ℕ → FreeRange → Cut → Cut
cut_range e_start e_end r rest =
    let r_end = saturating_add r.start r.length in
    if leb e_end r.start || leb r_end e_start
    then record { free = r ∷ rest.free; excluded = rest.excluded }
    else record {
      free = between r.start e_start ++ (between e_end r_end ++ rest.free);
      excluded = between (max e_start r.start) (min e_end r_end) ++ rest.excluded;
    }

pub cut_ranges : ℕ → ℕ → List FreeRange → Cut
cut_ranges e_start e_end [] = record { free = []; excluded = [] }
cut_ranges e_start e_end (r ∷ rs) = cut_range e_start e_end r (cut_ranges e_start e_end rs)

-- `sort_by_key(|r| r.start)`, a stable sort.
pub put_by_start : FreeRange → List FreeRange → List FreeRange
put_by_start r [] = r ∷ []
put_by_start r (x ∷ xs) =
    let rest = put_by_start r xs in if leb r.start x.start then r ∷ x ∷ xs else x ∷ rest

pub sort_by_start : List FreeRange → List FreeRange
sort_by_start [] = []
sort_by_start (r ∷ rs) = put_by_start r (sort_by_start rs)

-- Ranges that overlap or touch become one, with the last merged range once there is one.
pub join_overlapping_from : FreeRange → List FreeRange → List FreeRange
join_overlapping_from last [] = last ∷ []
join_overlapping_from last (r ∷ rs) =
    let longer = sub64 (max (range_end last) (range_end r)) last.start in
    let joined = join_overlapping_from (record last { length = longer }) rs in
    let apart = last ∷ join_overlapping_from r rs in
    if leb r.start (range_end last) then joined else apart

pub join_overlapping : List FreeRange → List FreeRange
join_overlapping [] = []
join_overlapping (r ∷ rs) = join_overlapping_from r rs

-- A block group after `[e_start, e_end)` was excluded from it.
pub exclude_from_group : BlockGroupFreeSpace → ℕ → ℕ → BlockGroupFreeSpace
exclude_from_group bg e_start e_end =
    let cut = cut_ranges e_start e_end bg.free_ranges in
    record bg {
      free_ranges = cut.free;
      total_free_bytes = sum_lengths cut.free;
      excluded_ranges = join_overlapping (sort_by_start (bg.excluded_ranges ++ cut.excluded));
    }

-- The body of the loop over the block groups, with its two guards.
pub exclude_in_group : Range → BlockGroupFreeSpace → BlockGroupFreeSpace
exclude_in_group excl bg =
    let bg_start = bg.block_group.start in
    let bg_end = saturating_add bg_start bg.block_group.length in
    let e_start = max excl.start bg_start in
    let e_end = min excl.end bg_end in
    if leb excl.end bg_start || leb bg_end excl.start || leb e_end e_start
    then bg
    else exclude_from_group bg e_start e_end

pub exclude_in_groups : Range → List BlockGroupFreeSpace → List BlockGroupFreeSpace
exclude_in_groups excl [] = []
exclude_in_groups excl (bg ∷ bgs) = exclude_in_group excl bg ∷ exclude_in_groups excl bgs

-- The loop over the exclusions.
pub exclude_all : List Range → List BlockGroupFreeSpace → List BlockGroupFreeSpace
exclude_all [] bgs = bgs
exclude_all (excl ∷ excls) bgs =
    exclude_all excls (if leb excl.end excl.start then bgs else exclude_in_groups excl bgs)

pub exclude_ranges : FreeSpaceMap → List Range → FreeSpaceMap
exclude_ranges map exclusions = record { block_groups = exclude_all exclusions map.block_groups }

unfoldable pub from_extent_tree_and_chunk_map : ExtentTree → ChunkMap → Result FreeSpaceMap
from_extent_tree_and_chunk_map tree chunk_map =
    from_extent_tree tree >>= λ map. ok (exclude_ranges map (compute_sb_exclusions chunk_map))

-- ===== src/Alloc.antt =====
-- core/src/fs/btrfs/write/alloc.rs: the free-space map of the btrfs writer, and the allocation
-- functions. The record types of extent_tree.rs that the map holds stand here too.
pub mod Ranges
pub mod Fit
pub mod Groups
pub mod Allocate
pub mod Release
pub mod Build
pub mod Exclusions
mod Tests
use Prim.Native.Nat.{ℕ}
use luks_android.Prelude.{
  zero, suc, ◌+◌, ◌-◌, ◌*◌, ◌/◌, ◌^◌, min, Bool, true, false, Option, none, some,
}
use luks_android.Prelude.{
  List, [], ◌∷◌, ◌++◌, ltb, leb, ◌==◌, ◌&&◌, ◌||◌, not, if◌then◌else◌, bit_and,
}
use luks_android.Prelude.Words.{u64_mod, add64, sub64, checked_add, saturating_add}
use luks_android.Prelude.Bits.{align_up}
use luks_android.Error.{LuksError, Result, ok, err, filesystem_full, out_of_bounds, corrupt_fs}
use luks_android.Error.{◌>>=◌, ◌>>◌}

pub record FreeRange : Type 0 where
  pub start : ℕ
  pub length : ℕ

pub record BlockGroupItem : Type 0 where
  pub start : ℕ
  pub length : ℕ
  pub used : ℕ
  pub chunk_objectid : ℕ
  pub flags : ℕ

pub data InlineBackref : Type 0 where
  tree_block : ℕ → InlineBackref
  extent_data : ℕ → ℕ → ℕ → ℕ → InlineBackref
  shared_block : ℕ → InlineBackref
  shared_data : ℕ → ℕ → InlineBackref
  other : ℕ → List ℕ → InlineBackref

pub record AllocatedExtent : Type 0 where
  pub bytenr : ℕ
  pub length : ℕ
  pub refs : ℕ
  pub generation : ℕ
  pub is_data : Bool
  pub is_tree_block : Bool
  pub level : ℕ
  pub backrefs : List InlineBackref

pub record ExtentTree : Type 0 where
  pub block_groups : List BlockGroupItem
  pub extents : List AllocatedExtent

pub record BlockGroupFreeSpace : Type 0 where
  pub block_group : BlockGroupItem
  pub allocated_extents : List AllocatedExtent
  pub free_ranges : List FreeRange
  pub pinned_freed : List FreeRange
  pub excluded_ranges : List FreeRange
  pub total_allocated_bytes : ℕ
  pub total_free_bytes : ℕ

pub record FreeSpaceMap : Type 0 where
  pub block_groups : List BlockGroupFreeSpace

-- The flags of chunk.rs and the tree number of tree.rs that the allocator tests.
abbrev pub block_group_data : ℕ
block_group_data = 0x1

abbrev pub block_group_system : ℕ
block_group_system = 0x2

abbrev pub block_group_metadata : ℕ
block_group_metadata = 0x4

abbrev pub chunk_tree_objectid : ℕ
chunk_tree_objectid = 3

unfoldable pub bg_holds_data : ℕ → Bool
bg_holds_data flags = not (bit_and flags block_group_data == 0)

-- `range.start + range.length`
abbrev pub range_end : FreeRange → ℕ
range_end r = add64 r.start r.length

-- What is left of a range in its place in the vector when `[start, start + needed)` is carved
-- out of it: the part before, if any, then the part after, if any.
abbrev pub carve : FreeRange → ℕ → ℕ → List FreeRange
carve r start needed =
    let before_len = sub64 start r.start in
    let after_len = sub64 (range_end r) (add64 start needed) in
    (if ltb 0 before_len then record { start = r.start; length = before_len } ∷ [] else [])
    ++ (if ltb 0 after_len
        then record { start = add64 start needed; length = after_len } ∷ []
        else [])

-- The result of a search in the rest of a vector, in the whole vector.
abbrev pub behind : {A : Type 0} → A → Option (ℕ × List A) → Option (ℕ × List A)
behind x none = none
behind x (some (start, xs)) = some (start, x ∷ xs)

-- The loop over `bg.free_ranges`: the first range with room at an aligned start.
pub first_fit : List FreeRange → ℕ → ℕ → Option (ℕ × List FreeRange)
first_fit [] needed alignment = none
first_fit (r ∷ rs) needed alignment =
    let rest = first_fit rs needed alignment in
    let start = align_up r.start alignment in
    if leb (add64 start needed) (range_end r)
    then some (start, carve r start needed ++ rs)
    else behind r rest

-- The counters of a block group after `n` bytes were allocated from it.
abbrev pub charge : BlockGroupFreeSpace → List FreeRange → ℕ → BlockGroupFreeSpace
charge bg free n = record bg {
  free_ranges = free;
  total_allocated_bytes = add64 bg.total_allocated_bytes n;
  total_free_bytes = sub64 bg.total_free_bytes n;
  block_group = record (bg.block_group) { used = add64 bg.block_group.used n };
}

-- The loop over the block groups, with the test on their flags as a parameter.
pub allocate_from :
    (ℕ → Bool) → ℕ → ℕ → List BlockGroupFreeSpace → Option (ℕ × List BlockGroupFreeSpace)
allocate_from matches needed alignment [] = none
allocate_from matches needed alignment (bg ∷ bgs) =
    let rest = behind bg (allocate_from matches needed alignment bgs) in
    if matches bg.block_group.flags
    then elim (first_fit bg.free_ranges needed alignment) [
      | none ↦ rest
      | some found ↦ some (found.0, charge bg found.1 needed ∷ bgs)
    ]
    else rest

-- An error leaves the map as it was.
abbrev pub or_full : Option (ℕ × List BlockGroupFreeSpace) → Result (ℕ × FreeSpaceMap)
or_full none = err filesystem_full
or_full (some (start, bgs)) = ok (start, record { block_groups = bgs })

-- Whether a block group may hold a tree block of the given owner.
abbrev pub holds_metadata_for : ℕ → ℕ → Bool
holds_metadata_for owner flags =
    let target_flag =
      if owner == chunk_tree_objectid then block_group_system else block_group_metadata in
    let mixed = block_group_data + block_group_metadata in
    not (bit_and flags target_flag == 0)
    || bit_and flags mixed == mixed && target_flag == block_group_metadata

pub allocate_metadata_for_owner : FreeSpaceMap → ℕ → ℕ → Result (ℕ × FreeSpaceMap)
allocate_metadata_for_owner map size owner =
    or_full (allocate_from (holds_metadata_for owner) size size map.block_groups)

pub allocate_metadata : FreeSpaceMap → ℕ → Result (ℕ × FreeSpaceMap)
allocate_metadata map size = allocate_metadata_for_owner map size 0

pub allocate_data : FreeSpaceMap → ℕ → ℕ → Result (ℕ × FreeSpaceMap)
allocate_data map size sector_size =
    or_full (allocate_from bg_holds_data size sector_size map.block_groups)

-- `find_free_range`: the aligned start in the first range with room, of a group with all flags.
pub find_in_ranges : List FreeRange → ℕ → ℕ → Option FreeRange
find_in_ranges [] min_bytes alignment = none
find_in_ranges (r ∷ rs) min_bytes alignment =
    let start = align_up r.start alignment in
    if leb (add64 start min_bytes) (range_end r)
    then some (record { start = start; length = min_bytes })
    else find_in_ranges rs min_bytes alignment

pub find_in_groups : List BlockGroupFreeSpace → ℕ → ℕ → ℕ → Option FreeRange
find_in_groups [] flags_mask min_bytes alignment = none
find_in_groups (bg ∷ bgs) flags_mask min_bytes alignment =
    let rest = find_in_groups bgs flags_mask min_bytes alignment in
    if bit_and bg.block_group.flags flags_mask == flags_mask
    then elim (find_in_ranges bg.free_ranges min_bytes alignment) [ none ↦ rest | some r ↦ some r ]
    else rest

pub find_free_range : FreeSpaceMap → ℕ → ℕ → ℕ → Option FreeRange
find_free_range map flags_mask min_bytes alignment =
    find_in_groups map.block_groups flags_mask min_bytes alignment

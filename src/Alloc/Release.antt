-- ===== src/Alloc/Release.antt =====
-- core/src/fs/btrfs/write/alloc.rs: marking a given range as allocated, freeing data and tree
-- blocks within a transaction, and returning what was freed after the commit.
pub mod Mark
pub mod Pin
pub mod FreeData
use luks_android.Prelude.{ℕ, zero, suc, ◌+◌, ◌-◌, max, Bool, true, false, Option, none, some}
use luks_android.Prelude.{List, [], ◌∷◌, ◌++◌, ltb, leb, ◌==◌, ◌&&◌, ◌||◌, if◌then◌else◌}
use luks_android.Prelude.{partition_point, insert_at}
use luks_android.Prelude.Words.{add64, sub64, checked_add, saturating_add, saturating_sub}
use luks_android.Error.{LuksError, Result, ok, err, out_of_bounds, corrupt_fs, ◌>>=◌, ok_or}
use luks_android.Alloc.{FreeRange, BlockGroupFreeSpace, FreeSpaceMap, range_end, charge}

-- The pieces that `mark_allocated` leaves of a range that ends at `r_end`.
abbrev pub carve_marked : FreeRange → ℕ → ℕ → ℕ → List FreeRange
carve_marked r r_end bytenr end =
    let before_len = sub64 bytenr r.start in
    let after_len = sub64 r_end end in
    (if ltb 0 before_len then record { start = r.start; length = before_len } ∷ [] else [])
    ++ (if ltb 0 after_len then record { start = end; length = after_len } ∷ [] else [])

-- The loop over the free ranges of the group that holds the range.
unfoldable pub mark_in_ranges : List FreeRange → ℕ → ℕ → Option (List FreeRange)
mark_in_ranges [] bytenr end = none
mark_in_ranges (r ∷ rs) bytenr end =
    let rest = mark_in_ranges rs bytenr end in
    let r_end = saturating_add r.start r.length in
    if leb r.start bytenr && leb end r_end
    then some (carve_marked r r_end bytenr end ++ rs)
    else elim rest [ none ↦ none | some rs' ↦ some (r ∷ rs') ]

-- The map with the groups that the loop leaves.
abbrev pub with_groups : Result (List BlockGroupFreeSpace) → Result FreeSpaceMap
with_groups (ok bgs) = ok (record { block_groups = bgs })
with_groups (err e) = err e

abbrev pub not_free : LuksError
not_free = corrupt_fs "range to mark allocated was not present in block group free ranges"

-- The loop over the block groups; it stops at the first that holds the range.
unfoldable pub mark_in_groups :
    List BlockGroupFreeSpace → ℕ → ℕ → ℕ → Result (List BlockGroupFreeSpace)
mark_in_groups [] bytenr len end = err out_of_bounds
mark_in_groups (bg ∷ bgs) bytenr len end =
    let rest = mark_in_groups bgs bytenr len end in
    let bg_end = saturating_add bg.block_group.start bg.block_group.length in
    if leb bg.block_group.start bytenr && leb end bg_end
    then elim (mark_in_ranges bg.free_ranges bytenr end) [
      | none ↦ err not_free
      | some rs ↦ ok (charge bg rs len ∷ bgs)
    ]
    else (rest >>= λ bgs'. ok (bg ∷ bgs'))

unfoldable pub mark_allocated : FreeSpaceMap → ℕ → ℕ → Result FreeSpaceMap
mark_allocated map bytenr len =
    if len == 0
    then ok map
    else (ok_or (checked_add bytenr len) out_of_bounds >>= λ end.
        with_groups (mark_in_groups map.block_groups bytenr len end))

-- `merged`, whose last element is `last`, and the rest of the vector that is drained: touching
-- neighbours are joined.
unfoldable pub join_touching_from : FreeRange → List FreeRange → List FreeRange
join_touching_from last [] = last ∷ []
join_touching_from last (r ∷ rs) =
    let touching = range_end last == r.start in
    let rest =
      join_touching_from
        (if touching then record last { length = add64 last.length r.length } else r) rs in
    if touching then rest else last ∷ rest

abbrev pub join_touching : List FreeRange → List FreeRange
join_touching [] = []
join_touching (r ∷ rs) = join_touching_from r rs

-- The range put in its place in the sorted vector, then joined with its neighbours.
unfoldable pub pin : List FreeRange → ℕ → ℕ → List FreeRange
pin pinned bytenr len = join_touching (
    insert_at pinned (partition_point (λ r. ltb r.start bytenr) pinned)
      (record { start = bytenr; length = len }))

unfoldable pub overlaps_pinned : List FreeRange → ℕ → ℕ → Bool
overlaps_pinned [] bytenr end = false
overlaps_pinned (r ∷ rs) bytenr end =
    ltb bytenr (range_end r) && ltb r.start end || overlaps_pinned rs bytenr end

abbrev pub frees_too_much : LuksError
frees_too_much = corrupt_fs "free_data would free more bytes than the block group has allocated"

abbrev pub already_pinned : LuksError
already_pinned =
    corrupt_fs "free_data range overlaps a range already pending release in this transaction"

abbrev pub in_no_group : LuksError
in_no_group = corrupt_fs "free_data range is not contained in any block group"

-- The body of the loop of `free_data`, for the group that holds the range.
unfoldable pub free_in_group : BlockGroupFreeSpace → ℕ → ℕ → ℕ → Result BlockGroupFreeSpace
free_in_group bg bytenr len end =
    if ltb bg.block_group.used len
    then err frees_too_much
    else if overlaps_pinned bg.pinned_freed bytenr end
    then err already_pinned
    else ok (record bg {
      pinned_freed = pin bg.pinned_freed bytenr len;
      block_group = record (bg.block_group) { used = sub64 bg.block_group.used len };
    })

unfoldable pub free_in_groups :
    List BlockGroupFreeSpace → ℕ → ℕ → ℕ → Result (List BlockGroupFreeSpace)
free_in_groups [] bytenr len end = err in_no_group
free_in_groups (bg ∷ bgs) bytenr len end =
    let rest = free_in_groups bgs bytenr len end in
    if leb bg.block_group.start bytenr && leb end (add64 bg.block_group.start bg.block_group.length)
    then (free_in_group bg bytenr len end >>= λ bg'. ok (bg' ∷ bgs))
    else (rest >>= λ bgs'. ok (bg ∷ bgs'))

unfoldable pub free_data : FreeSpaceMap → ℕ → ℕ → Result FreeSpaceMap
free_data map bytenr size =
    if size == 0
    then ok map
    else (ok_or (checked_add bytenr size) (corrupt_fs "free_data range overflows u64") >>= λ end.
        with_groups (free_in_groups map.block_groups bytenr size end))

-- `free_metadata` checks nothing and reports nothing.
pub free_metadata_in : List BlockGroupFreeSpace → ℕ → ℕ → List BlockGroupFreeSpace
free_metadata_in [] bytenr size = []
free_metadata_in (bg ∷ bgs) bytenr size =
    let rest = free_metadata_in bgs bytenr size in
    if leb bg.block_group.start bytenr
      && leb (add64 bytenr size) (add64 bg.block_group.start bg.block_group.length)
    then record bg {
      pinned_freed = pin bg.pinned_freed bytenr size;
      block_group = record (bg.block_group) { used = saturating_sub bg.block_group.used size };
    }
      ∷ bgs
    else bg ∷ rest

pub free_metadata : FreeSpaceMap → ℕ → ℕ → FreeSpaceMap
free_metadata map bytenr size = record {
  block_groups = free_metadata_in map.block_groups bytenr size;
}

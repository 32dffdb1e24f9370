-- ===== src/Csum/Surviving.antt =====
-- core/src/fs/btrfs/write/csum_delete.rs: which checksums are left when ranges are freed.
use luks_android.Prelude.{
  if◌then◌else◌, ℕ, ◌≡◌, refl, min, max, not, ltb, leb, ◌&&◌, ◌||◌, List, [], ◌∷◌, ◌++◌, arith,
  Bool-cases, inl, inr, ◌+◌, ◌-◌, ◌^◌, ◌<◌, Bool, false,
}
use luks_android.Prelude.Words.{saturating_add}
use luks_android.Exclude.{Range, sort}
use luks_android.Exclude.Merge.{covered, Ascending, covered-sort, sort-Ascending, Ascending-lower}

-- The ranges of the extents that are freed, those of no bytes left out.
unfoldable pub freed_ranges : List (ℕ × ℕ) → List Range
freed_ranges [] = []
freed_ranges ((bytenr, num_bytes) ∷ xs) =
    let rest = freed_ranges xs in
    if ltb 0 num_bytes
    then record { start = bytenr; end = saturating_add bytenr num_bytes } ∷ rest
    else rest

unfoldable pub merge_freed_from : Range → List Range → List Range
merge_freed_from last [] = last ∷ []
merge_freed_from last (r ∷ rs) =
    let into_last = merge_freed_from (record last { end = max last.end r.end }) rs in
    let after = merge_freed_from r rs in if leb r.start last.end then into_last else last ∷ after

abbrev pub merge_freed : List Range → List Range
merge_freed [] = []
merge_freed (r ∷ rs) = merge_freed_from r rs

unfoldable pub merged_freed : List (ℕ × ℕ) → List Range
merged_freed xs = merge_freed (sort (freed_ranges xs))

-- What a freed range leaves of an interval.
unfoldable pub leftover : Range → Range → List Range
leftover f r =
    let overlap_start = max r.start f.start in
    let overlap_end = min r.end f.end in
    if ltb overlap_start overlap_end
    then (if ltb r.start overlap_start
        then record { start = r.start; end = overlap_start } ∷ []
        else [])
      ++ (if ltb overlap_end r.end then record { start = overlap_end; end = r.end } ∷ [] else [])
    else r ∷ []

unfoldable pub leftovers : Range → List Range → List Range
leftovers f [] = []
leftovers f (r ∷ rs) = leftover f r ++ leftovers f rs

unfoldable pub subtract_freed : List Range → List Range → List Range
subtract_freed current [] = current
subtract_freed current (f ∷ fs) =
    subtract_freed (if leb f.end f.start then current else leftovers f current) fs

unfoldable pub compute_surviving_intervals : (item_start item_end : ℕ) → List Range → List Range
compute_surviving_intervals item_start item_end freed =
    if leb item_end item_start
    then []
    else subtract_freed (record { start = item_start; end = item_end } ∷ []) freed

covered-append : (xs ys : List Range) (a : ℕ) → covered (xs ++ ys) a ≡ covered xs a || covered ys a
covered-append [] ys a = refl
covered-append (x ∷ xs) ys a = let rest = covered-append xs ys a in ground arith

covered-leftover :
    (f r : Range) (a : ℕ)
    → covered (leftover f r) a
      ≡ (leb r.start a && ltb a r.end) && not (leb f.start a && ltb a f.end)
unfolding leftover
covered-leftover f r a = ground arith

covered-leftovers :
    (f : Range) (rs : List Range) (a : ℕ)
    → covered (leftovers f rs) a ≡ covered rs a && not (leb f.start a && ltb a f.end)
unfolding leftovers
covered-leftovers f [] a = refl
covered-leftovers f (r ∷ rs) a =
    let here = covered-leftover f r a in
    let rest = covered-leftovers f rs a in
    let both = covered-append (leftover f r) (leftovers f rs) a in ground arith

covered-subtract_freed :
    (fs current : List Range) (a : ℕ)
    → covered (subtract_freed current fs) a ≡ covered current a && not (covered fs a)
unfolding subtract_freed
covered-subtract_freed [] current a = ground arith
covered-subtract_freed (f ∷ fs) current a = elim (Bool-cases (leb f.end f.start)) [
  | inl empty ↦ let rest = covered-subtract_freed fs current a in rw empty (ground arith)
  | inr some ↦
      let rest = covered-subtract_freed fs (leftovers f current) a in
      let here = covered-leftovers f current a in rw some (ground arith)
]

covered-merge_freed_from :
    (last : Range) (rs : List Range) (a : ℕ)
    → Ascending last.start rs
    → covered (merge_freed_from last rs) a ≡ covered (last ∷ rs) a
unfolding merge_freed_from
covered-merge_freed_from last [] a v = refl
covered-merge_freed_from last (r ∷ rs) a v = elim (Bool-cases (leb r.start last.end)) [
  | inl joined ↦
      let longer : Range = record last { end = max last.end r.end } in
      let rest =
        covered-merge_freed_from longer rs a (Ascending-lower rs last.start r.start v.0 v.1) in
      rw joined (ground arith)
  | inr apart ↦ let rest = covered-merge_freed_from r rs a v.1 in rw apart (ground arith)
]

covered-merge_freed :
    (rs : List Range) (a : ℕ) → Ascending 0 rs → covered (merge_freed rs) a ≡ covered rs a
covered-merge_freed [] a v = refl
covered-merge_freed (r ∷ rs) a v = covered-merge_freed_from r rs a v.1

-- Whether one of the freed extents, each a first address and a number of bytes, has an address.
abbrev pub is_freed : List (ℕ × ℕ) → ℕ → Bool
is_freed [] a = false
is_freed ((bytenr, num_bytes) ∷ xs) a =
    (leb bytenr a && ltb a (bytenr + num_bytes)) || is_freed xs a

covered-freed_ranges :
    (xs : List (ℕ × ℕ)) (a : ℕ) → a < 2 ^ 64 - 1 → covered (freed_ranges xs) a ≡ is_freed xs a
unfolding freed_ranges
covered-freed_ranges [] a small = refl
covered-freed_ranges ((bytenr, num_bytes) ∷ xs) a small =
    let rest = covered-freed_ranges xs a small in ground arith

-- Whatever extents are freed, in any order, overlapping or not: at each address below 2^64 - 1, the
-- intervals of a checksum item that survive the merged ranges have the address exactly if the item has
-- it and none of the freed extents does.
pub compute_surviving_intervals_lem :
    (item_start item_end a : ℕ) (xs : List (ℕ × ℕ))
    → a < 2 ^ 64 - 1
    → covered (compute_surviving_intervals item_start item_end (merged_freed xs)) a
      ≡ (leb item_start a && ltb a item_end) && not (is_freed xs a)
unfolding compute_surviving_intervals merged_freed
compute_surviving_intervals_lem item_start item_end a xs small =
    let ranges = covered-freed_ranges xs a small in
    let freed = covered-merge_freed (sort (freed_ranges xs)) a (sort-Ascending (freed_ranges xs)) in
    let sorted = covered-sort (freed_ranges xs) a in
    elim (Bool-cases (leb item_end item_start)) [
      | inl none ↦ rw none (ground arith)
      | inr some ↦
          let rest =
            covered-subtract_freed (merge_freed (sort (freed_ranges xs)))
              (record { start = item_start; end = item_end } ∷ []) a in
          rw some (ground arith)
    ]

-- ===== src/IntervalSet.antt =====
-- core/src/fs/btrfs/write/interval_set.rs: disjoint half-open intervals, sorted by start.
pub mod Laws
pub mod Add
pub mod Insert
pub mod Remove
pub mod Canonical
mod Tests
use luks_android.Prelude.{
  ℕ, zero, suc, ◌+◌, ◌-◌, ◌<◌, Bool, true, false, Option, none, some, List, [], ◌∷◌, ◌++◌,
}
use luks_android.Prelude.{
  ltb, leb, ◌==◌, ◌&&◌, ◌||◌, if◌then◌else◌, partition_point, get_before, get_elem?, splice_one,
  length,
}
use luks_android.Prelude.Words.{checked_add}

abbrev pub Interval : Type 0
Interval = ℕ × ℕ

pub record IntervalSet : Type 0 where
  pub intervals : List Interval

abbrev pub empty : IntervalSet
empty = record { intervals = [] }

-- The index `self.intervals.partition_point(|&(s, _)| s < end)`.
abbrev pub insertion_point : List Interval → ℕ → ℕ
insertion_point xs end = partition_point (λ iv. ltb iv.0 end) xs

-- `idx > 0 && self.intervals[idx - 1].1 > start`
abbrev pub prev_overlaps : List Interval → ℕ → ℕ → Bool
prev_overlaps xs idx start = elim (get_before xs idx) [ none ↦ false | some iv ↦ ltb start iv.1 ]

pub overlaps : IntervalSet → ℕ → ℕ → Bool
overlaps set start len = if len == 0 then false else elim (checked_add start len) [
  | none ↦ true
  | some end ↦ prev_overlaps set.intervals (insertion_point set.intervals end) start
]

-- The new first end point and the first index removed: those of the previous interval if it
-- touches `start`.
unfoldable pub merge_prev : List Interval → ℕ → ℕ → ℕ × ℕ
merge_prev xs idx start = elim (get_before xs idx) [
  | none ↦ (start, idx)
  | some iv ↦ if iv.1 == start then (iv.0, idx - 1) else (start, idx)
]

-- The new last end point and the index behind the last one removed.
unfoldable pub merge_next : List Interval → ℕ → ℕ → ℕ × ℕ
merge_next xs idx end = elim (get_elem? xs idx) [
  | none ↦ (end, idx)
  | some iv ↦ if iv.0 == end then (iv.1, idx + 1) else (end, idx)
]

-- The rest of `insert`, once `end` and the insertion point `idx` are known.
unfoldable pub insert_with : List Interval → ℕ → ℕ → ℕ → Option (List Interval)
insert_with xs idx start end =
    if prev_overlaps xs idx start
    then none
    else let lo = merge_prev xs idx start in
      let hi = merge_next xs idx end in some (splice_one xs lo.1 hi.1 (lo.0, hi.0))

unfoldable pub insert_range : List Interval → ℕ → ℕ → Option (List Interval)
insert_range xs start end = insert_with xs (insertion_point xs end) start end

-- The new set, and whether the range was inserted.
unfoldable pub insert : IntervalSet → ℕ → ℕ → IntervalSet × Bool
insert set start len = if len == 0 then (set, true) else elim (checked_add start len) [
  | none ↦ (set, false)
  | some end ↦ elim (insert_range set.intervals start end) [
    | none ↦ (set, false)
    | some xs ↦ (record { intervals = xs }, true)
  ]
]

-- What the loop of `remove` pushes for one interval.
unfoldable pub cut : Interval → ℕ → ℕ → List Interval
cut iv start end =
    if leb iv.1 start || leb end iv.0
    then iv ∷ []
    else (if ltb iv.0 start then (iv.0, start) ∷ [] else [])
      ++ (if ltb end iv.1 then (end, iv.1) ∷ [] else [])

unfoldable pub remove_range : List Interval → ℕ → ℕ → List Interval
remove_range [] start end = []
remove_range (iv ∷ xs) start end = cut iv start end ++ remove_range xs start end

unfoldable pub remove : IntervalSet → ℕ → ℕ → IntervalSet
remove set start len = if len == 0 then set else elim (checked_add start len) [
  | none ↦ set
  | some end ↦ record { intervals = remove_range set.intervals start end }
]

unfoldable pub contains_range : IntervalSet → ℕ → ℕ → Bool
contains_range set start len = if len == 0 then true else elim (checked_add start len) [
  | none ↦ false
  | some end ↦
      elim (get_before set.intervals (partition_point (λ iv. leb iv.0 start) set.intervals)) [
        | none ↦ false
        | some iv ↦ leb iv.0 start && leb end iv.1
      ]
]

unfoldable pub remove_exact : IntervalSet → ℕ → ℕ → IntervalSet × Bool
remove_exact set start len =
    if len == 0
    then (set, true)
    else if contains_range set start len
    then (remove set start len, true)
    else (set, false)

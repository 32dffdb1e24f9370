-- ===== src/IntervalSet/Laws.antt =====
-- The representation invariant of an interval set, the addresses that it stands for, and
-- insertion by recursion, which the indexed code of `insert` computes.
use luks_android.Prelude.{ℕ, suc, ◌+◌, ◌≤◌, ◌<◌, ◌≡◌, refl, arith, Bool, true, false}
use luks_android.Prelude.{Option, none, some, List, [], ◌∷◌, ltb, leb, ◌==◌, ◌&&◌, ◌||◌}
use luks_android.Prelude.{if◌then◌else◌, Bool-cases, inl, inr}
use luks_android.Prelude.Words.{IsU64}
use luks_android.IntervalSet.{
  Interval, insertion_point, merge_prev, merge_next, insert_with, insert_range,
}

abbrev pub contains : Interval → ℕ → Bool
contains iv a = leb iv.0 a && ltb a iv.1

-- `a` lies in one of the intervals.
abbrev pub covers : List Interval → ℕ → Bool
covers [] a = false
covers (iv ∷ xs) a = contains iv a || covers xs a

-- Non-empty intervals, each with a gap before it, the first from `lo` on.
abbrev pub Spaced : ℕ → List Interval → Type 0
Spaced lo [] = Unit
Spaced lo (iv ∷ xs) = (lo ≤ iv.0) × (iv.0 < iv.1) × IsU64 iv.1 × Spaced (iv.1 + 1) xs

-- The interval put before a list that begins at its end or behind it.
unfoldable pub put : ℕ → ℕ → List Interval → List Interval
put start end [] = (start, end) ∷ []
put start end (iv ∷ xs) = if iv.0 == end then (start, iv.1) ∷ xs else (start, end) ∷ (iv ∷ xs)

-- Whether the first interval begins before `end`.
abbrev pub starts_below : ℕ → List Interval → Bool
starts_below end [] = false
starts_below end (iv ∷ xs) = ltb iv.0 end

-- `insert` by recursion on the intervals; `none` for an overlap.
unfoldable pub add : ℕ → ℕ → List Interval → Option (List Interval)
add start end [] = some (put start end [])
add start end (iv ∷ xs) =
    let rest = add start end xs in
    if ltb iv.0 end
    then if starts_below end xs
      then elim rest [ none ↦ none | some ys ↦ some (iv ∷ ys) ]
      else if ltb start iv.1
      then none
      else if iv.1 == start
      then some (put iv.0 end xs)
      else some (iv ∷ put start end xs)
    else some (put start end (iv ∷ xs))

point-zero :
    (xs : List Interval) (end : ℕ) → starts_below end xs ≡ false → insertion_point xs end ≡ 0
point-zero [] end h = refl
point-zero (iv ∷ xs) end h = ground arith

point-suc :
    (xs : List Interval) (end : ℕ)
    → starts_below end xs ≡ true
    → (k : ℕ) × (insertion_point xs end ≡ suc k)
point-suc [] end h = ground arith
point-suc (iv ∷ xs) end h = (insertion_point xs end, ground arith)

-- With index 0 there is no previous interval.
insert_range-front :
    (xs : List Interval) (start end : ℕ)
    → insertion_point xs end ≡ 0
    → insert_range xs start end ≡ some (put start end xs)
unfolding insert_range insert_with put merge_prev merge_next
insert_range-front [] start end h = ground arith
insert_range-front (iv ∷ xs) start end h = ground arith

insert_range-first :
    (iv : Interval) (xs : List Interval) (start end : ℕ)
    → ltb iv.0 end ≡ true
    → insertion_point xs end ≡ 0
    → insert_range (iv ∷ xs) start end ≡ (
        if ltb start iv.1
        then none
        else if iv.1 == start
        then some (put iv.0 end xs)
        else some (iv ∷ put start end xs))
unfolding insert_range insert_with put merge_prev merge_next
insert_range-first iv [] start end b h = ground arith
insert_range-first iv (jv ∷ xs) start end b h = ground arith

merge_prev-shift :
    (iv : Interval) (xs : List Interval) (k start : ℕ)
    → merge_prev (iv ∷ xs) (suc (suc k)) start
      ≡ ((merge_prev xs (suc k) start).0, suc (merge_prev xs (suc k) start).1)
unfolding merge_prev
merge_prev-shift iv xs k start = ground arith

merge_next-shift :
    (iv : Interval) (xs : List Interval) (k end : ℕ)
    → merge_next (iv ∷ xs) (suc (suc k)) end
      ≡ ((merge_next xs (suc k) end).0, suc (merge_next xs (suc k) end).1)
unfolding merge_next
merge_next-shift iv xs k end = ground arith

insert_with-shift :
    (iv : Interval) (xs : List Interval) (k start end : ℕ)
    → insert_with (iv ∷ xs) (suc (suc k)) start end
      ≡ elim (insert_with xs (suc k) start end) [ none ↦ none | some ys ↦ some (iv ∷ ys) ]
unfolding insert_with
insert_with-shift iv xs k start end = rw (merge_prev-shift, merge_next-shift) (ground arith)

insert_range-later :
    (iv : Interval) (xs : List Interval) (start end k : ℕ)
    → ltb iv.0 end ≡ true
    → insertion_point xs end ≡ suc k
    → insert_range (iv ∷ xs) start end
      ≡ elim (insert_range xs start end) [ none ↦ none | some ys ↦ some (iv ∷ ys) ]
unfolding insert_range
insert_range-later iv xs start end k b h =
    let below : insertion_point (iv ∷ xs) end ≡ suc (suc k) = rw (b, h) in
    cc (insert_with-shift iv xs k start end)

-- The indexed code is insertion by recursion.
pub insert_range-eq-add :
    (xs : List Interval) (start end : ℕ) → insert_range xs start end ≡ add start end xs
unfolding add
insert_range-eq-add [] start end = insert_range-front [] start end refl
insert_range-eq-add (iv ∷ xs) start end = elim (Bool-cases (ltb iv.0 end)) [
  | inl b ↦ elim (Bool-cases (starts_below end xs)) [
    | inl c ↦
        let (k, e) = point-suc xs end c in
        ground (arith, insert_range-later iv xs start end k, insert_range-eq-add xs start end)
    | inr c ↦ ground (arith, insert_range-first iv xs start end, point-zero xs end)
  ]
  | inr b ↦ ground (arith, insert_range-front (iv ∷ xs) start end)
]

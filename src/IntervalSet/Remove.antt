-- ===== src/IntervalSet/Remove.antt =====
-- `remove`, `contains_range` and `remove_exact` against the set of addresses.
use luks_android.Prelude.{
  ℕ, zero, suc, ◌+◌, ◌≤◌, ◌<◌, ◌≡◌, refl, sym, ap₂, ◌∙◌, arith, Bool, true, false, not, max,
}
use luks_android.Prelude.{none, some, List, [], ◌∷◌, ◌++◌, ltb, leb, ◌&&◌, ◌||◌, lt→ltb, ◌↔◌}
use luks_android.Prelude.{if◌then◌else◌, Bool-cases, inl, inr, ◌⊎◌, get_before, partition_point}
use luks_android.Prelude.Words.{IsU64, u64_mod}
use luks_android.IntervalSet.{Interval, IntervalSet, cut, remove_range, remove, contains_range}
use luks_android.IntervalSet.{remove_exact}
use luks_android.IntervalSet.Laws.{contains, covers, Spaced}
use luks_android.IntervalSet.Add.{covers-below}
use luks_android.IntervalSet.Insert.{IsValid, in_range}

Spaced-lower : (xs : List Interval) (lo lo' : ℕ) → Spaced lo xs → lo' ≤ lo → Spaced lo' xs
Spaced-lower [] lo lo' v h = v
Spaced-lower (iv ∷ xs) lo lo' v h = ground arith

cut-Spaced :
    (iv : Interval) (rest : List Interval) (lo start end : ℕ)
    → Spaced lo (iv ∷ [])
    → Spaced (iv.1 + 1) rest
    → start < end
    → Spaced lo (cut iv start end ++ rest)
unfolding cut
cut-Spaced iv rest lo start end v w h =
    ground (arith, Spaced-lower rest (iv.1 + 1) lo, Spaced-lower rest (iv.1 + 1) (start + 1))

remove_range-Spaced :
    (xs : List Interval) (lo start end : ℕ)
    → Spaced lo xs
    → start < end
    → Spaced lo (remove_range xs start end)
unfolding remove_range
remove_range-Spaced [] lo start end v h = v
remove_range-Spaced (iv ∷ xs) lo start end (a, b, u, v) h =
    cut-Spaced iv (remove_range xs start end) lo start end (a, b, u, tt)
      (remove_range-Spaced xs (iv.1 + 1) start end v h) h

covers-append : (xs ys : List Interval) (a : ℕ) → covers (xs ++ ys) a ≡ (covers xs a || covers ys a)
covers-append [] ys a = refl
covers-append (iv ∷ xs) ys a = ground (arith, covers-append xs ys a)

-- The address `a` lies in none of the pieces, or in one, by whether it is in the interval and
-- not in the range.
covers-cut :
    (iv : Interval) (start end a : ℕ)
    → start < end
    → covers (cut iv start end) a ≡ (contains iv a && not (contains (start, end) a))
unfolding cut
covers-cut iv start end a h = elim (Bool-cases (leb iv.1 start || leb end iv.0)) [
  | inl b ↦ rw b (ground arith)
  | inr b ↦ rw b (ground arith)
]

and-or : (a b c : Bool) → ((a || b) && c) ≡ (a && c || b && c)
and-or a b c = ground arith

remove_range-covers :
    (xs : List Interval) (start end a : ℕ)
    → start < end
    → covers (remove_range xs start end) a ≡ (covers xs a && not (contains (start, end) a))
unfolding remove_range
remove_range-covers [] start end a h = refl
remove_range-covers (iv ∷ xs) start end a h =
    covers-append (cut iv start end) (remove_range xs start end) a
    ∙ ap₂ ◌||◌ (covers-cut iv start end a h) (remove_range-covers xs start end a h)
    ∙ sym (and-or (contains iv a) (covers xs a) (not (contains (start, end) a)))

-- Whether the first interval begins at `start` or before.
abbrev starts_upto : ℕ → List Interval → Bool
starts_upto start [] = false
starts_upto start (iv ∷ xs) = leb iv.0 start

abbrev point : List Interval → ℕ → ℕ
point xs start = partition_point (λ iv. leb iv.0 start) xs

point-zero : (xs : List Interval) (start : ℕ) → starts_upto start xs ≡ false → point xs start ≡ 0
point-zero [] start h = refl
point-zero (iv ∷ xs) start h = ground arith

point-suc :
    (xs : List Interval) (start : ℕ)
    → starts_upto start xs ≡ true
    → (k : ℕ) × (point xs start ≡ suc k)
point-suc [] start h = ground arith
point-suc (iv ∷ xs) start h = (point xs start, ground arith)

-- The test of `contains_range`, with its index as an argument.
holds_at : List Interval → ℕ → ℕ → ℕ → Bool
holds_at xs idx start end = elim (get_before xs idx) [
  | none ↦ false
  | some iv ↦ leb iv.0 start && leb end iv.1
]

holds : List Interval → ℕ → ℕ → Bool
holds xs start end = holds_at xs (point xs start) start end

-- By recursion: the last interval of the leading run decides.
holds-cons :
    (iv : Interval) (xs : List Interval) (start end : ℕ)
    → holds (iv ∷ xs) start end ≡ (
        if leb iv.0 start
        then if starts_upto start xs then holds xs start end else leb end iv.1
        else false)
unfolding holds
holds-cons iv xs start end = elim (Bool-cases (starts_upto start xs)) [
  | inl b ↦ let (k, e) = point-suc xs start b in rw (b, e) (unfold holds_at in ground arith)
  | inr b ↦ rw (b, point-zero xs start b) (unfold holds_at in ground arith)
]

holds-covers :
    (xs : List Interval) (start end a : ℕ)
    → holds xs start end ≡ true
    → contains (start, end) a ≡ true
    → covers xs a ≡ true
holds-covers [] start end a e c = unfold holds holds_at in ground arith
holds-covers (iv ∷ xs) start end a e c =
    ground (arith, holds-cons iv xs start end, holds-covers xs start end a)

starts-above :
    (xs : List Interval) (lo start : ℕ) → Spaced lo xs → starts_upto start xs ≡ true → lo ≤ start
starts-above [] lo start v b = ground arith
starts-above (iv ∷ xs) lo start v b = ground arith

covers-upto :
    (xs : List Interval) (lo start : ℕ)
    → Spaced lo xs
    → starts_upto start xs ≡ false
    → covers xs start ≡ false
covers-upto [] lo start v b = refl
covers-upto (iv ∷ xs) lo start v b = ground (arith, covers-below xs (iv.1 + 1) start)

-- If the answer is no, an address of the range is missing.
holds-gap :
    (xs : List Interval) (lo start end : ℕ)
    → Spaced lo xs
    → start < end
    → holds xs start end ≡ false
    → (a : ℕ) × (contains (start, end) a ≡ true) × (covers xs a ≡ false)
holds-gap [] lo start end v h e = (start, ground arith, refl)
holds-gap (iv ∷ xs) lo start end v h e = elim (Bool-cases (starts_upto start xs)) [
  | inl b ↦ elim (Bool-cases (leb iv.0 start)) [
    | inl c ↦
        let (a, p, q) =
          holds-gap xs (iv.1 + 1) start end v.3 h (ground (arith, holds-cons iv xs start end)) in
        (a, p, ground (arith, starts-above xs (iv.1 + 1) start))
    | inr c ↦ (start, ground arith, ground (arith, covers-below xs (iv.1 + 1) start))
  ]
  | inr b ↦ elim (Bool-cases (leb iv.0 start)) [
    | inl c ↦ (
      max start iv.1,
      ground (arith, holds-cons iv xs start end),
      ground (arith, covers-below xs (iv.1 + 1) iv.1, covers-upto xs (iv.1 + 1) start),
    )
    | inr c ↦ (start, ground arith, ground (arith, covers-below xs (iv.1 + 1) start))
  ]
]

remove_eq :
    (set : IntervalSet) (start n : ℕ)
    → remove set start (suc n) ≡ (
        if ltb (start + suc n) u64_mod
        then record { intervals = remove_range set.intervals start (start + suc n) }
        else set)
unfolding remove
remove_eq set start n = ground arith

remove-zero : (set : IntervalSet) (start : ℕ) → remove set start 0 ≡ set
unfolding remove
remove-zero set start = refl

-- `remove` keeps the representation invariant, whatever range it is given.
pub remove-IsValid :
    (set : IntervalSet) (start len : ℕ) → IsValid set → IsValid (remove set start len)
remove-IsValid set start zero v = rw (remove-zero set start) v
remove-IsValid set start (suc n) v = elim (Bool-cases (ltb (start + suc n) u64_mod)) [
  | inl b ↦
      rw (remove_eq set start n, b)
        (remove_range-Spaced set.intervals 0 start (start + suc n) v (omega arith))
  | inr b ↦ rw (remove_eq set start n, b) v
]

-- Removing a range that ends below 2^64 takes exactly its addresses out of the set.
pub remove-covers :
    (set : IntervalSet) (start len a : ℕ)
    → IsU64 (start + len)
    → covers (remove set start len).intervals a
      ≡ (covers set.intervals a && not (in_range start len a))
remove-covers set start zero a u = rw (remove-zero set start) (ground arith)
remove-covers set start (suc n) a u =
    rw (remove_eq set start n, lt→ltb _ _ u)
      (remove_range-covers set.intervals start (start + suc n) a (omega arith))

contains_range_eq :
    (set : IntervalSet) (start n : ℕ)
    → contains_range set start (suc n)
      ≡ (if ltb (start + suc n) u64_mod then holds set.intervals start (start + suc n) else false)
unfolding contains_range holds holds_at
contains_range_eq set start n = ground arith

-- On a valid set and a non-empty range that ends below 2^64, `contains_range` answers `true`
-- exactly if every address of the range is covered.
pub contains_range_lem :
    (set : IntervalSet) (start n : ℕ)
    → IsValid set
    → IsU64 (start + suc n)
    → (contains_range set start (suc n) ≡ true)
      ↔ ((a : ℕ) → in_range start (suc n) a ≡ true → covers set.intervals a ≡ true)
contains_range_lem set start n v u = (to, from)
  where
    held : contains_range set start (suc n) ≡ holds set.intervals start (start + suc n)
    held = rw (contains_range_eq set start n, lt→ltb _ _ u)

    to :
        contains_range set start (suc n) ≡ true
        → (a : ℕ) → in_range start (suc n) a ≡ true
        → covers set.intervals a ≡ true
    to e a c = holds-covers set.intervals start (start + suc n) a (sym held ∙ e) c

    from :
        ((a : ℕ) → in_range start (suc n) a ≡ true → covers set.intervals a ≡ true)
        → contains_range set start (suc n) ≡ true
    from all = elim (Bool-cases (holds set.intervals start (start + suc n))) [
      | inl b ↦ held ∙ b
      | inr b ↦
          let (a, c, d) = holds-gap set.intervals 0 start (start + suc n) v (omega arith) b in
          cc (all a c)
    ]

-- Releasing a non-empty range that ends below 2^64 succeeds exactly if the whole range is in the
-- set, and then takes it out; otherwise the set is unchanged.
pub remove_exact_lem :
    (set : IntervalSet) (start n : ℕ)
    → IsValid set
    → IsU64 (start + suc n)
    → (((a : ℕ) → in_range start (suc n) a ≡ true → covers set.intervals a ≡ true)
        × (remove_exact set start (suc n) ≡ (remove set start (suc n), true)))
      ⊎ ((a : ℕ) × (in_range start (suc n) a ≡ true)
          × (covers set.intervals a ≡ false)
          × (remove_exact set start (suc n) ≡ (set, false)))
unfolding remove_exact
remove_exact_lem set start n v u = elim (Bool-cases (holds set.intervals start (start + suc n))) [
  | inl b ↦ inl (
    λ a c. holds-covers set.intervals start (start + suc n) a b c,
    ground (arith, contains_range_eq set start n),
  )
  | inr b ↦
      let (a, c, d) = holds-gap set.intervals 0 start (start + suc n) v (omega arith) b in
      inr (a, c, d, ground (arith, contains_range_eq set start n))
]

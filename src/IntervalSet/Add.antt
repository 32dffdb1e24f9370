-- ===== src/IntervalSet/Add.antt =====
-- What insertion by recursion does to the invariant and to the addresses covered.
use luks_android.Prelude.{ℕ, ◌+◌, ◌≤◌, ◌<◌, ◌≡◌, refl, arith, true, false}
use luks_android.Prelude.{none, some, List, [], ◌∷◌, ◌==◌, ◌||◌}
use luks_android.Prelude.{Bool-cases, Option-cases, max, inl, inr}
use luks_android.Prelude.Words.{IsU64}
use luks_android.IntervalSet.{Interval}
use luks_android.IntervalSet.Laws.{contains, covers, Spaced, put, add, starts_below}

-- Nothing below the first interval is covered.
pub covers-below : (xs : List Interval) (lo a : ℕ) → Spaced lo xs → a < lo → covers xs a ≡ false
covers-below [] lo a v h = refl
covers-below (iv ∷ xs) lo a v h = ground (arith, covers-below xs (iv.1 + 1) a)

pub covers-front :
    (xs : List Interval) (lo end a : ℕ)
    → Spaced lo xs
    → starts_below end xs ≡ false
    → a < end
    → covers xs a ≡ false
covers-front [] lo end a v s h = refl
covers-front (iv ∷ xs) lo end a v s h = ground (arith, covers-below xs (iv.1 + 1) a)

pub put-Spaced :
    (xs : List Interval) (lo lo' start end : ℕ)
    → Spaced lo' xs
    → starts_below end xs ≡ false
    → lo ≤ start
    → start < end
    → IsU64 end
    → Spaced lo (put start end xs)
unfolding put
put-Spaced [] lo lo' start end v s h k u = omega arith
put-Spaced (iv ∷ xs) lo lo' start end v s h k u = elim (Bool-cases (iv.0 == end)) [
  | inl e ↦ rw e (ground arith)
  | inr e ↦ rw e (ground arith)
]

covers-put :
    (xs : List Interval) (lo start end a : ℕ)
    → Spaced lo xs
    → start < end
    → covers (put start end xs) a ≡ (contains (start, end) a || covers xs a)
unfolding put
covers-put [] lo start end a v h = refl
covers-put (iv ∷ xs) lo start end a v h = ground arith

-- A successful insertion behind the first start keeps the gap before the first interval.
pub add-Spaced_later :
    (xs ys : List Interval) (lo start end : ℕ)
    → Spaced lo xs
    → start < end
    → IsU64 end
    → starts_below end xs ≡ true
    → add start end xs ≡ some ys
    → Spaced lo ys × (lo < start)
unfolding add
add-Spaced_later [] ys lo start end v h u s e = ground arith
add-Spaced_later (iv ∷ xs) ys lo start end v h u s e = elim (Option-cases (add start end xs)) [
  | inl n ↦
      ground
        (arith, put-Spaced xs (iv.1 + 1) (iv.1 + 1) start end, put-Spaced xs lo (iv.1 + 1) iv.0 end)
  | inr (zs, q) ↦ ground (
    arith,
    add-Spaced_later xs zs (iv.1 + 1) start end,
    put-Spaced xs (iv.1 + 1) (iv.1 + 1) start end,
    put-Spaced xs lo (iv.1 + 1) iv.0 end,
  )
]

pub add-covers :
    (xs ys : List Interval) (lo start end a : ℕ)
    → Spaced lo xs
    → start < end
    → add start end xs ≡ some ys
    → covers ys a ≡ (contains (start, end) a || covers xs a)
unfolding add
add-covers [] ys lo start end a v h e = unfold put in ground arith
add-covers (iv ∷ xs) ys lo start end a v h e = elim (Option-cases (add start end xs)) [
  | inl n ↦ ground (
    arith,
    covers-put xs (iv.1 + 1) start end a,
    covers-put xs (iv.1 + 1) iv.0 end a,
    covers-put (iv ∷ xs) lo start end a,
  )
  | inr (zs, q) ↦ ground (
    arith,
    add-covers xs zs (iv.1 + 1) start end a,
    covers-put xs (iv.1 + 1) start end a,
    covers-put xs (iv.1 + 1) iv.0 end a,
    covers-put (iv ∷ xs) lo start end a,
  )
]

-- A refused insertion meets an address that is covered already.
pub add-none :
    (xs : List Interval) (lo start end : ℕ)
    → Spaced lo xs
    → start < end
    → add start end xs ≡ none
    → (a : ℕ) × (contains (start, end) a ≡ true) × (covers xs a ≡ true)
unfolding add
add-none [] lo start end v h e = ground arith
add-none (iv ∷ xs) lo start end v h e = elim (Bool-cases (starts_below end xs)) [
  | inl b ↦
      let (a, c, d) = add-none xs (iv.1 + 1) start end v.3 h (ground arith) in (a, c, ground arith)
  | inr b ↦ (max start iv.0, ground arith, ground arith)
]

-- An accepted insertion meets none.
pub add-disjoint :
    (xs ys : List Interval) (lo start end a : ℕ)
    → Spaced lo xs
    → start < end
    → IsU64 end
    → add start end xs ≡ some ys
    → contains (start, end) a ≡ true
    → covers xs a ≡ false
unfolding add
add-disjoint [] ys lo start end a v h u e c = refl
add-disjoint (iv ∷ xs) ys lo start end a v h u e c = elim (Option-cases (add start end xs)) [
  | inl n ↦ ground (arith, covers-front xs (iv.1 + 1) end a, covers-front (iv ∷ xs) lo end a)
  | inr (zs, q) ↦ ground (
    arith,
    add-disjoint xs zs (iv.1 + 1) start end a,
    add-Spaced_later xs zs (iv.1 + 1) start end,
    covers-front xs (iv.1 + 1) end a,
    covers-front (iv ∷ xs) lo end a,
  )
]

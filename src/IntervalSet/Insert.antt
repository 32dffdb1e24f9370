-- ===== src/IntervalSet/Insert.antt =====
-- `insert` and `overlaps` against the set of addresses.
use luks_android.Prelude.{
  ℕ, zero, suc, not, ◌+◌, ◌≤◌, ◌<◌, ◌≡◌, refl, arith, Bool, true, false, ◌||◌,
}
use luks_android.Prelude.{none, some, List, [], ◌∷◌, ltb, ltb→lt}
use luks_android.Prelude.{Bool-cases, Option-cases, inl, inr, ◌⊎◌}
use luks_android.Prelude.Words.{IsU64, u64_mod}
use luks_android.IntervalSet.{Interval, IntervalSet}
use luks_android.IntervalSet.{insert_with, insert_range, insert, overlaps}
use luks_android.IntervalSet.Laws.{contains, covers, Spaced, put, add, insert_range-eq-add}
use luks_android.IntervalSet.Add.{add-Spaced_later, put-Spaced, add-covers, add-none, add-disjoint}

abbrev pub IsValid : IntervalSet → Type 0
IsValid set = Spaced 0 set.intervals

-- `a` lies in `[start, start + len)`.
abbrev pub in_range : ℕ → ℕ → ℕ → Bool
in_range start len a = contains (start, start + len) a

add-Spaced :
    (xs ys : List Interval) (start end : ℕ)
    → Spaced 0 xs
    → start < end
    → IsU64 end
    → add start end xs ≡ some ys
    → Spaced 0 ys
unfolding add
add-Spaced [] ys start end v h u e = unfold put in ground arith
add-Spaced (iv ∷ xs) ys start end v h u e = elim (Bool-cases (ltb iv.0 end)) [
  | inl b ↦ (add-Spaced_later (iv ∷ xs) ys 0 start end v h u b e).0
  | inr b ↦ ground (arith, put-Spaced (iv ∷ xs) 0 0 start end)
]

-- The two outcomes of `insert` on a valid set, in terms of what recursion does.
insert-cases :
    (set : IntervalSet) (start len : ℕ)
    → 0 < len
    → ((ys : List Interval) × (insert set start len ≡ (record { intervals = ys }, true))
        × IsU64 (start + len)
        × (add start (start + len) set.intervals ≡ some ys))
      ⊎ ((insert set start len ≡ (set, false))
          × ((u64_mod ≤ start + len) ⊎ (add start (start + len) set.intervals ≡ none)))
unfolding insert
insert-cases set start len h = elim (Bool-cases (ltb (start + len) u64_mod)) [
  | inl b ↦ elim (Option-cases (add start (start + len) set.intervals)) [
    | inl n ↦ inr (ground (arith, insert_range-eq-add set.intervals start (start + len)), inr n)
    | inr (ys, q) ↦
        inl (
          ys,
          ground (arith, insert_range-eq-add set.intervals start (start + len)),
          ltb→lt _ _ b,
          q,
        )
  ]
  | inr b ↦ inr (ground arith, inl (ground arith))
]

insert-zero : (set : IntervalSet) (start : ℕ) → insert set start 0 ≡ (set, true)
unfolding insert
insert-zero set start = refl

-- `insert` keeps the representation invariant, whatever range it is given.
pub insert-IsValid :
    (set : IntervalSet) (start len : ℕ) → IsValid set → IsValid (insert set start len).0
insert-IsValid set start zero v = rw (insert-zero set start) v
insert-IsValid set start (suc n) v = elim (insert-cases set start (suc n) (omega arith)) [
  | inl (ys, e, u, q) ↦ rw e (add-Spaced set.intervals ys start (start + suc n) v (omega arith) u q)
  | inr (e, why) ↦ rw e v
]

-- Inserting into a valid set succeeds exactly if the range ends below 2^64 and covers no address
-- of the set; then the set gains the range, and otherwise it is unchanged.
pub insert_lem :
    (set : IntervalSet) (start n : ℕ)
    → IsValid set
    → ((insert set start (suc n)).1 ≡ true)
        × IsU64 (start + suc n)
        × ((a : ℕ) → in_range start (suc n) a ≡ true → covers set.intervals a ≡ false)
        × ((a : ℕ)
            → covers (insert set start (suc n)).0.intervals a
              ≡ (in_range start (suc n) a || covers set.intervals a))
      ⊎ (insert set start (suc n) ≡ (set, false))
        × ((u64_mod ≤ start + suc n)
            ⊎ ((a : ℕ) × (in_range start (suc n) a ≡ true) × (covers set.intervals a ≡ true)))
insert_lem set start n v = elim (insert-cases set start (suc n) (omega arith)) [
  | inl (ys, e, u, q) ↦ rw e (
      inl (
        refl,
        u,
        λ a c. add-disjoint set.intervals ys 0 start (start + suc n) a v (omega arith) u q c,
        λ a. add-covers set.intervals ys 0 start (start + suc n) a v (omega arith) q,
      ))
  | inr (e, inl big) ↦ inr (e, inl big)
  | inr (e, inr q) ↦ inr (e, inr (add-none set.intervals 0 start (start + suc n) v (omega arith) q))
]

-- `overlaps` answers before an insertion what `insert` would: `true` exactly if it fails.
pub overlaps-insert :
    (set : IntervalSet) (start len : ℕ) → overlaps set start len ≡ not (insert set start len).1
unfolding overlaps insert insert_range insert_with
overlaps-insert set start len = ground arith

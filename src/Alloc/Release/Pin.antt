-- ===== src/Alloc/Release/Pin.antt =====
-- Pinning a range: its place in the sorted vector, the overlap test, and the joining of
-- neighbours keep the vector sorted and add exactly the range.
use luks_android.Prelude.{ℕ, ◌+◌, ◌≤◌, ◌<◌, ◌≡◌, refl, arith, true, false}
use luks_android.Prelude.{List, [], ◌∷◌, ltb, ◌==◌, ◌||◌}
use luks_android.Prelude.{
  Bool-cases, if◌then◌else◌, inl, inr, ◌∙◌, ap, max, insert_at, partition_point,
}
use luks_android.Prelude.Words.{u64_mod, add64}
use luks_android.Alloc.{FreeRange, range_end}
use luks_android.Alloc.Ranges.{Within, total, inside, has, Within-le}
use luks_android.Alloc.Release.{join_touching_from, join_touching, pin, overlaps_pinned}

-- Joining touching neighbours keeps the bounds, the total and the addresses.
module _ (hi : ℕ) (small : hi < u64_mod) where
  join_touching_from-Within :
      (last : FreeRange) (rs : List FreeRange) (lo : ℕ)
      → Within lo hi (last ∷ rs)
      → Within lo hi (join_touching_from last rs)
  unfolding join_touching_from
  join_touching_from-Within last [] lo v = v
  join_touching_from-Within last (r ∷ rs) lo v = elim (Bool-cases (range_end last == r.start)) [
    | inl b ↦ rw b (
        join_touching_from-Within (record last { length = add64 last.length r.length }) rs lo
          (ground (arith, Within-le rs (r.start + r.length) hi)))
    | inr b ↦
        rw b
          (v.0, v.1, ground (arith, join_touching_from-Within r rs (last.start + last.length) v.2))
  ]

  total-join_touching_from :
      (last : FreeRange) (rs : List FreeRange) (lo : ℕ)
      → Within lo hi (last ∷ rs)
      → total (join_touching_from last rs) ≡ total (last ∷ rs)
  unfolding join_touching_from
  total-join_touching_from last [] lo v = refl
  total-join_touching_from last (r ∷ rs) lo v = elim (Bool-cases (range_end last == r.start)) [
    | inl b ↦ rw b (
        ground (
          arith,
          Within-le rs (r.start + r.length) hi,
          total-join_touching_from (record last { length = add64 last.length r.length }) rs lo,
        ))
    | inr b ↦ rw b (omega (arith, total-join_touching_from r rs (last.start + last.length) v.2))
  ]

  has-join_touching_from :
      (last : FreeRange) (rs : List FreeRange) (lo a : ℕ)
      → Within lo hi (last ∷ rs)
      → has (join_touching_from last rs) a ≡ has (last ∷ rs) a
  unfolding join_touching_from
  has-join_touching_from last [] lo a v = refl
  has-join_touching_from last (r ∷ rs) lo a v = elim (Bool-cases (range_end last == r.start)) [
    | inl b ↦ rw b (
        ground (
          arith,
          Within-le rs (r.start + r.length) hi,
          has-join_touching_from (record last { length = add64 last.length r.length }) rs lo a,
        ))
    | inr b ↦ rw b (ground (arith, has-join_touching_from r rs (last.start + last.length) a))
  ]

-- The pinned ranges with the new one in its place.
place : FreeRange → List FreeRange → List FreeRange
place x [] = x ∷ []
place x (r ∷ rs) = if ltb r.start x.start then r ∷ place x rs else x ∷ (r ∷ rs)

insert_at-place :
    (x : FreeRange) (rs : List FreeRange)
    → insert_at rs (partition_point (λ r. ltb r.start x.start) rs) x ≡ place x rs
unfolding place
insert_at-place x [] = refl
insert_at-place x (r ∷ rs) = elim (Bool-cases (ltb r.start x.start)) [
  | inl b ↦ rw b (ap (λ rest. r ∷ rest) (insert_at-place x rs))
  | inr b ↦ rw b refl
]

module _ (hi start n : ℕ) (small : hi < u64_mod) (h : 0 < n) where
  place-Within :
      (rs : List FreeRange) (lo : ℕ)
      → Within lo hi rs
      → lo ≤ start
      → start + n ≤ hi
      → overlaps_pinned rs start (start + n) ≡ false
      → Within lo hi (place (record { start = start; length = n }) rs)
  unfolding place overlaps_pinned
  place-Within [] lo v from upto o = (from, h, upto)
  place-Within (r ∷ rs) lo v from upto o = elim (Bool-cases (ltb r.start start)) [
    | inl b ↦
        rw b (
          ground
            (arith, Within-le rs (r.start + r.length) hi, place-Within rs (r.start + r.length)))
    | inr b ↦ rw b (ground (arith, Within-le rs (r.start + r.length) hi))
  ]

  total-place :
      (rs : List FreeRange) → total (place (record { start = start; length = n }) rs) ≡ total rs + n
  unfolding place
  total-place [] = omega arith
  total-place (r ∷ rs) = ground (arith, total-place rs)

  has-place :
      (rs : List FreeRange) (a : ℕ)
      → has (place (record { start = start; length = n }) rs) a ≡ (has rs a || inside start n a)
  unfolding place
  has-place [] a = ground arith
  has-place (r ∷ rs) a = ground (arith, has-place rs a)

  -- The test of the code finds every overlap.
  pub overlaps_pinned-none :
      (rs : List FreeRange) (lo a : ℕ)
      → Within lo hi rs
      → overlaps_pinned rs start (start + n) ≡ false
      → inside start n a ≡ true
      → has rs a ≡ false
  unfolding overlaps_pinned
  overlaps_pinned-none [] lo a v o i = refl
  overlaps_pinned-none (r ∷ rs) lo a v o i =
      ground (
        arith,
        Within-le rs (r.start + r.length) hi,
        overlaps_pinned-none rs (r.start + r.length) a,
      )

  pub overlaps_pinned-some :
      (rs : List FreeRange) (lo : ℕ)
      → Within lo hi rs
      → overlaps_pinned rs start (start + n) ≡ true
      → (a : ℕ) × (inside start n a ≡ true) × (has rs a ≡ true)
  unfolding overlaps_pinned
  overlaps_pinned-some [] lo v o = ground arith
  overlaps_pinned-some (r ∷ rs) lo v o = elim (Bool-cases (overlaps_pinned rs start (start + n))) [
    | inl b ↦
        let (a, p, q) = overlaps_pinned-some rs (r.start + r.length) v.2 b in (a, p, ground arith)
    | inr b ↦ (
      max start r.start,
      ground (arith, Within-le rs (r.start + r.length) hi),
      ground (arith, Within-le rs (r.start + r.length) hi),
    )
  ]

  join_touching-place :
      (rs : List FreeRange) (lo : ℕ)
      → Within lo hi (place (record { start = start; length = n }) rs)
      → Within lo hi (join_touching (place (record { start = start; length = n }) rs))
        × (total (join_touching (place (record { start = start; length = n }) rs))
            ≡ total (place (record { start = start; length = n }) rs))
        × ((a : ℕ)
            → has (join_touching (place (record { start = start; length = n }) rs)) a
              ≡ has (place (record { start = start; length = n }) rs) a)
  join_touching-place rs lo v = of_list (place (record { start = start; length = n }) rs) v
    where
      of_list :
          (ps : List FreeRange)
          → Within lo hi ps
          → Within lo hi (join_touching ps)
            × (total (join_touching ps) ≡ total ps)
            × ((a : ℕ) → has (join_touching ps) a ≡ has ps a)
      of_list [] w = (w, refl, λ a. refl)
      of_list (r ∷ ps) w = (
        join_touching_from-Within hi small r ps lo w,
        total-join_touching_from hi small r ps lo w,
        λ a. has-join_touching_from hi small r ps lo a w,
      )

  -- A range that overlaps none of the pinned ones is added to them.
  pub pin_lem :
      (rs : List FreeRange) (lo : ℕ)
      → Within lo hi rs
      → lo ≤ start
      → start + n ≤ hi
      → overlaps_pinned rs start (start + n) ≡ false
      → Within lo hi (pin rs start n)
        × (total (pin rs start n) ≡ total rs + n)
        × ((a : ℕ) → has (pin rs start n) a ≡ (has rs a || inside start n a))
  unfolding pin
  pin_lem rs lo v from upto o =
      let (within, counted, same) = join_touching-place rs lo (place-Within rs lo v from upto o) in
      rw (insert_at-place (record { start = start; length = n }) rs)
        (within, counted ∙ total-place rs, λ a. same a ∙ has-place rs a)

-- ===== src/Exclude/Merge.antt =====
-- The merged ranges cover what the ranges cover, in order and apart.
use luks_android.Prelude.{
  ℕ, ◌+◌, ◌≤◌, ◌<◌, ◌≡◌, refl, ap, ◌∙◌, max, ltb, leb, ◌&&◌, ◌||◌, Bool, false, List, [], ◌∷◌,
  arith, Bool-cases, inl, inr,
}
use luks_android.Exclude.{Range, put, sort, merge_from, merge, merge_ranges}

-- Whether one of the ranges has the address.
abbrev pub covered : List Range → ℕ → Bool
covered [] a = false
covered (r ∷ rs) a = leb r.start a && ltb a r.end || covered rs a

-- In the order of their starts, none before `lo`.
abbrev pub Ascending : ℕ → List Range → Type 0
Ascending lo [] = Unit {0}
Ascending lo (r ∷ rs) = (lo ≤ r.start) × Ascending r.start rs

-- Not empty, and with a gap between one and the next.
abbrev pub Apart : ℕ → List Range → Type 0
Apart lo [] = Unit {0}
Apart lo (r ∷ rs) = (lo ≤ r.start) × (r.start < r.end) × Apart (r.end + 1) rs

covered-put : (r : Range) (xs : List Range) (a : ℕ) → covered (put r xs) a ≡ covered (r ∷ xs) a
unfolding put
covered-put r [] a = refl
covered-put r (x ∷ xs) a = let rest = covered-put r xs a in ground arith

put-Ascending :
    (r : Range) (xs : List Range) (lo : ℕ)
    → lo ≤ r.start
    → Ascending lo xs
    → Ascending lo (put r xs)
unfolding put
put-Ascending r [] lo h v = (h, tt)
put-Ascending r (x ∷ xs) lo h v = elim (Bool-cases (leb r.start x.start)) [
  | inl b ↦ rw b (h, (ground arith, v.1))
  | inr b ↦ rw b (v.0, put-Ascending r xs x.start (ground arith) v.1)
]

pub covered-sort : (rs : List Range) (a : ℕ) → covered (sort rs) a ≡ covered rs a
unfolding sort
covered-sort [] a = refl
covered-sort (r ∷ rs) a =
    covered-put r (sort rs) a ∙ ap (λ c. leb r.start a && ltb a r.end || c) (covered-sort rs a)

pub sort-Ascending : (rs : List Range) → Ascending 0 (sort rs)
unfolding sort
sort-Ascending [] = tt
sort-Ascending (r ∷ rs) = put-Ascending r (sort rs) 0 (omega arith) (sort-Ascending rs)

pub Ascending-lower : (rs : List Range) (lo lo' : ℕ) → lo ≤ lo' → Ascending lo' rs → Ascending lo rs
Ascending-lower [] lo lo' h v = tt
Ascending-lower (r ∷ rs) lo lo' h v = (omega (arith, v.0), v.1)

covered-merge_from :
    (last : Range) (rs : List Range) (a : ℕ)
    → Ascending last.start rs
    → last.start < last.end
    → covered (merge_from last rs) a ≡ covered (last ∷ rs) a
unfolding merge_from
covered-merge_from last [] a v h = refl
covered-merge_from last (r ∷ rs) a v h = elim (Bool-cases (leb r.end r.start)) [
  | inl b ↦
      let rest = covered-merge_from last rs a (Ascending-lower rs last.start r.start v.0 v.1) h in
      ground arith
  | inr b ↦ elim (Bool-cases (leb r.start last.end)) [
    | inl c ↦
        let longer : Range = record last { end = max last.end r.end } in
        let rest =
          covered-merge_from longer rs a (Ascending-lower rs last.start r.start v.0 v.1)
            (omega arith) in
        ground arith
    | inr c ↦ let rest = covered-merge_from r rs a v.1 (ground arith) in ground arith
  ]
]

merge_from-Apart :
    (last : Range) (rs : List Range) (lo : ℕ)
    → Ascending last.start rs
    → lo ≤ last.start
    → last.start < last.end
    → Apart lo (merge_from last rs)
unfolding merge_from
merge_from-Apart last [] lo v l h = (l, h, tt)
merge_from-Apart last (r ∷ rs) lo v l h = elim (Bool-cases (leb r.end r.start)) [
  | inl b ↦ rw b (merge_from-Apart last rs lo (Ascending-lower rs last.start r.start v.0 v.1) l h)
  | inr b ↦ elim (Bool-cases (leb r.start last.end)) [
    | inl c ↦
        rw (b, c)
          (merge_from-Apart (record last { end = max last.end r.end }) rs lo
            (Ascending-lower rs last.start r.start v.0 v.1) l (omega arith))
    | inr c ↦
        rw (b, c) (l, h, merge_from-Apart r rs (last.end + 1) v.1 (ground arith) (ground arith))
  ]
]

covered-merge : (rs : List Range) (a lo : ℕ) → Ascending lo rs → covered (merge rs) a ≡ covered rs a
unfolding merge
covered-merge [] a lo v = refl
covered-merge (r ∷ rs) a lo v = elim (Bool-cases (leb r.end r.start)) [
  | inl b ↦ let rest = covered-merge rs a r.start v.1 in ground arith
  | inr b ↦ let rest = covered-merge_from r rs a v.1 (ground arith) in ground arith
]

merge-Apart : (rs : List Range) (lo : ℕ) → Ascending lo rs → Apart 0 (merge rs)
unfolding merge
merge-Apart [] lo v = tt
merge-Apart (r ∷ rs) lo v = elim (Bool-cases (leb r.end r.start)) [
  | inl b ↦ rw b (merge-Apart rs r.start v.1)
  | inr b ↦ rw b (merge_from-Apart r rs 0 v.1 (omega arith) (ground arith))
]

-- `merge_ranges` answers ranges in order, none empty, with a gap between one and the next, which
-- cover exactly the addresses that the given ranges cover.
pub merge_ranges_lem :
    (rs : List Range) (a : ℕ)
    → Apart 0 (merge_ranges rs) × (covered (merge_ranges rs) a ≡ covered rs a)
unfolding merge_ranges
merge_ranges_lem rs a = (
  merge-Apart (sort rs) 0 (sort-Ascending rs),
  covered-merge (sort rs) a 0 (sort-Ascending rs) ∙ covered-sort rs a,
)

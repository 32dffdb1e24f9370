-- ===== src/IntervalSet/Canonical.antt =====
-- A valid set of addresses has one representation, so releasing what was inserted gives back the
-- very same intervals.
use luks_android.Prelude.{ℕ, suc, ◌+◌, ◌≡◌, refl, ap, ap₂, ◌∙◌, arith, true, false}
use luks_android.Prelude.{List, [], ◌∷◌, ◌||◌, inl, inr}
use luks_android.Prelude.Words.{IsU64}
use luks_android.IntervalSet.{Interval, IntervalSet, insert, remove, remove_exact}
use luks_android.IntervalSet.Laws.{covers, Spaced}
use luks_android.IntervalSet.Add.{covers-below}
use luks_android.IntervalSet.Insert.{IsValid, in_range, insert_lem, insert-IsValid}
use luks_android.IntervalSet.Remove.{remove-IsValid, remove-covers, remove_exact_lem}

-- Two non-empty valid lists that cover the same addresses: what they must share.
module _ (iv jv : Interval) (xs ys : List Interval) (lo : ℕ) (v : Spaced lo (iv ∷ xs))
    (w : Spaced lo (jv ∷ ys)) (same : (a : ℕ) → covers (iv ∷ xs) a ≡ covers (jv ∷ ys) a) where
  firsts : iv.0 ≡ jv.0
  firsts = ground (
    arith,
    same iv.0,
    same jv.0,
    covers-below ys (jv.1 + 1) iv.0,
    covers-below xs (iv.1 + 1) jv.0,
  )

  lasts : iv.1 ≡ jv.1
  lasts = ground (
    arith,
    firsts,
    same iv.1,
    same jv.1,
    covers-below ys (jv.1 + 1) jv.1,
    covers-below xs (iv.1 + 1) iv.1,
  )

  tails : (a : ℕ) → covers xs a ≡ covers ys a
  tails a =
      ground
        (arith, firsts, lasts, same a, covers-below xs (iv.1 + 1) a, covers-below ys (jv.1 + 1) a)

-- Valid lists that cover the same addresses are equal.
pub covers-injective :
    (xs ys : List Interval) (lo : ℕ)
    → Spaced lo xs
    → Spaced lo ys
    → ((a : ℕ) → covers xs a ≡ covers ys a)
    → xs ≡ ys
covers-injective [] [] lo v w same = refl
covers-injective [] (jv ∷ ys) lo v w same = ground (arith, same jv.0)
covers-injective (iv ∷ xs) [] lo v w same = ground (arith, same iv.0)
covers-injective (iv ∷ xs) (jv ∷ ys) lo v w same =
    let e = lasts iv jv xs ys lo v w same in
    let head : iv ≡ jv = ground (arith, firsts iv jv xs ys lo v w same) in
    ap₂ ◌∷◌ head (covers-injective xs ys (iv.1 + 1) v.3 (rw e w.3) (tails iv jv xs ys lo v w same))

-- Releasing the range that was just inserted succeeds and restores the set.
pub remove_exact-insert :
    (set : IntervalSet) (start n : ℕ)
    → IsValid set
    → (insert set start (suc n)).1 ≡ true
    → remove_exact (insert set start (suc n)).0 start (suc n) ≡ (set, true)
remove_exact-insert set start n v done = elim (insert_lem set start n v) [
  | inl (_, u, free, gains) ↦ elim (remove_exact_lem grown start n grown-IsValid u) [
    | inl (all, e) ↦ e ∙ ap (λ s. (s, true)) (restored u free gains)
    | inr (a, c, d, e) ↦ ground (arith, gains a)
  ]
  | inr (e, _) ↦ cc
]
  where
    grown : IntervalSet
    grown = (insert set start (suc n)).0

    grown-IsValid : IsValid grown
    grown-IsValid = insert-IsValid set start (suc n) v

    restored :
        IsU64 (start + suc n)
        → ((a : ℕ) → in_range start (suc n) a ≡ true → covers set.intervals a ≡ false)
        → ((a : ℕ)
            → covers grown.intervals a ≡ (in_range start (suc n) a || covers set.intervals a))
        → remove grown start (suc n) ≡ set
    restored u free gains =
        ap (λ xs. record { intervals = xs })
          (covers-injective (remove grown start (suc n)).intervals set.intervals 0
            (remove-IsValid grown start (suc n) grown-IsValid) v
            (λ a. remove-covers grown start (suc n) a u ∙ ground (arith, gains a, free a)))

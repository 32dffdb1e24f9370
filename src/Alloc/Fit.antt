-- ===== src/Alloc/Fit.antt =====
-- The search of one block group's free ranges: what it takes, and when it finds nothing.
use luks_android.Prelude.{ℕ, ◌+◌, ◌*◌, ◌^◌, ◌≤◌, ◌<◌, ◌≡◌, arith, true, false}
use luks_android.Prelude.{Option, none, some, List, [], ◌∷◌, ◌++◌, leb, ◌&&◌, not, All}
use luks_android.Prelude.{Bool-cases, inl, inr, leb→le, leb→gt, dec_lt}
use luks_android.Prelude.Words.{u64_mod, add64}
use luks_android.Prelude.Bits.{align_up, align_up_lem}
use luks_android.Alloc.{FreeRange, range_end, carve, behind, first_fit}
use native.Mathlib.Nat.{one-le-pow}
use luks_android.Alloc.Ranges.{Within, total, inside, has, Within-le}
use luks_android.Alloc.Ranges.{carve-Within, total-carve, has-carve}

-- `[start, start + n)` was free in `rs`, and `rs'` is what remains free.
pub record Taken (lo hi n start : ℕ) (rs rs' : List FreeRange) : Type 0 where
  pub from : lo ≤ start
  pub upto : start + n ≤ hi
  pub within : Within lo hi rs'
  pub counted : total rs' + n ≡ total rs
  pub gone : (a : ℕ) → has rs' a ≡ (has rs a && not (inside start n a))
  pub was_free : (a : ℕ) → inside start n a ≡ true → has rs a ≡ true

-- No multiple of `alignment` in the range has `n` bytes behind it.
abbrev pub NoRoom : ℕ → ℕ → FreeRange → Type 0
NoRoom n alignment r =
    (q : ℕ) → r.start ≤ q * alignment → q * alignment + n ≤ r.start + r.length → ⊥

multiple_le : (q p d x : ℕ) → q * d < x + d → x ≤ p * d → q * d ≤ p * d
multiple_le q p d x h k = elim (dec_lt p q) [ yes c ↦ absurd (grind arith) | no c ↦ grind arith ]

pub Taken-carve :
    (r : FreeRange) (rs : List FreeRange) (lo hi start n : ℕ)
    → hi < u64_mod
    → Within lo hi (r ∷ rs)
    → 0 < n
    → r.start ≤ start
    → start + n ≤ r.start + r.length
    → Taken lo hi n start (r ∷ rs) (carve r start n ++ rs)
Taken-carve r rs lo hi start n small v h from upto = record {
  from = omega arith;
  upto = omega (arith, Within-le rs (r.start + r.length) hi v.2);
  within = carve-Within r rs lo hi start n small v h from upto;
  counted = total-carve r rs lo hi start n small v h from upto;
  gone = has-carve r rs lo hi start n small v h from upto;
  was_free = λ a i. ground arith;
}

pub Taken-later :
    (r : FreeRange) (rs rs' : List FreeRange) (lo hi start n : ℕ)
    → Within lo hi (r ∷ rs)
    → Taken (r.start + r.length) hi n start rs rs'
    → Taken lo hi n start (r ∷ rs) (r ∷ rs')
Taken-later r rs rs' lo hi start n v t = record {
  from = omega arith;
  upto = t.upto;
  within = (v.0, v.1, t.within);
  counted = omega (arith, t.counted);
  gone = λ a. ground (arith, t.gone a, t.from);
  was_free = λ a i. ground (arith, t.was_free a i);
}

-- What `first_fit` may answer: an aligned start with the remaining ranges, or nothing if no range
-- has room.
abbrev pub Fits : (hi n alignment lo : ℕ) → List FreeRange → Option (ℕ × List FreeRange) → Type 0
Fits hi n alignment lo rs none = All (NoRoom n alignment) rs
Fits hi n alignment lo rs (some (start, rs')) =
    ((q : ℕ) × (start ≡ q * alignment)) × Taken lo hi n start rs rs'

Fits-behind :
    (hi n alignment : ℕ) (r : FreeRange) (rs : List FreeRange) (lo : ℕ)
    (o : Option (ℕ × List FreeRange))
    → Within lo hi (r ∷ rs)
    → NoRoom n alignment r
    → Fits hi n alignment (r.start + r.length) rs o
    → Fits hi n alignment lo (r ∷ rs) (behind r o)
Fits-behind hi n alignment r rs lo none v full f = (full, f)
Fits-behind hi n alignment r rs lo (some (start, rs')) v full (q, t) =
    (q, Taken-later r rs rs' lo hi start n v t)

module _ (hi n k w : ℕ) (e : k + w ≡ 64) (room : hi + 2 ^ k + n ≤ u64_mod) (h : 0 < n) where
  -- A range that passes the test has room where the code puts the extent.
  fits_lem :
      (r : FreeRange) (rs : List FreeRange) (lo : ℕ)
      → Within lo hi (r ∷ rs)
      → leb (add64 (align_up r.start (2 ^ k)) n) (range_end r) ≡ true
      → (q : ℕ) × (align_up r.start (2 ^ k) ≡ q * 2 ^ k)
        × (r.start ≤ align_up r.start (2 ^ k))
        × (align_up r.start (2 ^ k) + n ≤ r.start + r.length)
  fits_lem r rs lo v t =
      let (q, p, from, below) =
        align_up_lem r.start k w e (omega (arith, Within-le rs (r.start + r.length) hi v.2)) in
      (q, p, omega arith, omega (arith, leb→le _ _ t, Within-le rs (r.start + r.length) hi v.2))

  fits_no :
      (r : FreeRange) (rs : List FreeRange) (lo : ℕ)
      → Within lo hi (r ∷ rs)
      → leb (add64 (align_up r.start (2 ^ k)) n) (range_end r) ≡ false
      → NoRoom n (2 ^ k) r
  fits_no r rs lo v t p from upto =
      let (q, a, b, c) =
        align_up_lem r.start k w e (omega (arith, Within-le rs (r.start + r.length) hi v.2)) in
      omega (
        arith,
        leb→gt _ _ t,
        multiple_le q p (2 ^ k) r.start c from,
        Within-le rs (r.start + r.length) hi v.2,
      )

  pub first_fit-Fits :
      (rs : List FreeRange) (lo : ℕ)
      → Within lo hi rs
      → Fits hi n (2 ^ k) lo rs (first_fit rs n (2 ^ k))
  unfolding first_fit
  first_fit-Fits [] lo v = tt
  first_fit-Fits (r ∷ rs) lo v =
      elim (Bool-cases (leb (add64 (align_up r.start (2 ^ k)) n) (range_end r))) [
        | inl b ↦
            let (q, p, from, upto) = fits_lem r rs lo v b in
            rw b ((q, p), Taken-carve r rs lo hi (align_up r.start (2 ^ k)) n small v h from upto)
        | inr b ↦ rw b (
            Fits-behind hi n (2 ^ k) r rs lo (first_fit rs n (2 ^ k)) v (fits_no r rs lo v b)
              (first_fit-Fits rs (r.start + r.length) v.2))
      ]
    where
      small : hi < u64_mod
      small = omega (arith, one-le-pow k 2)

-- ===== src/Alloc/Ranges.antt =====
-- Sorted lists of disjoint ranges: their bounds, their total length and the addresses in them,
-- and what carving an allocation out of one does to these.
use luks_android.Prelude.{ℕ, ◌+◌, ◌≤◌, ◌<◌, ◌≡◌, refl, arith, Bool, false}
use luks_android.Prelude.{List, [], ◌∷◌, ◌++◌, ltb, leb, ◌&&◌, ◌||◌, not}
use luks_android.Prelude.Words.{u64_mod}
use luks_android.Alloc.{FreeRange, carve}

-- Non-empty ranges in `[lo, hi)`, each from the end of the one before it on.
abbrev pub Within : ℕ → ℕ → List FreeRange → Type 0
Within lo hi [] = lo ≤ hi
Within lo hi (r ∷ rs) = (lo ≤ r.start) × (0 < r.length) × Within (r.start + r.length) hi rs

abbrev pub total : List FreeRange → ℕ
total [] = 0
total (r ∷ rs) = r.length + total rs

-- `a` lies in `[start, start + len)`.
abbrev pub inside : ℕ → ℕ → ℕ → Bool
inside start len a = leb start a && ltb a (start + len)

-- `a` lies in one of the ranges.
abbrev pub has : List FreeRange → ℕ → Bool
has [] a = false
has (r ∷ rs) a = inside r.start r.length a || has rs a

pub Within-le : (rs : List FreeRange) (lo hi : ℕ) → Within lo hi rs → lo ≤ hi
Within-le [] lo hi v = v
Within-le (r ∷ rs) lo hi v = omega (arith, Within-le rs (r.start + r.length) hi v.2)

pub total-le : (rs : List FreeRange) (lo hi : ℕ) → Within lo hi rs → total rs + lo ≤ hi
total-le [] lo hi v = omega arith
total-le (r ∷ rs) lo hi v = omega (arith, total-le rs (r.start + r.length) hi v.2)

pub Within-lower :
    (rs : List FreeRange) (lo lo' hi : ℕ) → Within lo hi rs → lo' ≤ lo → Within lo' hi rs
Within-lower [] lo lo' hi v h = omega arith
Within-lower (r ∷ rs) lo lo' hi v h = ground arith

pub has-below : (rs : List FreeRange) (lo hi a : ℕ) → Within lo hi rs → a < lo → has rs a ≡ false
has-below [] lo hi a v h = refl
has-below (r ∷ rs) lo hi a v h = ground (arith, has-below rs (r.start + r.length) hi a)

pub has-above : (rs : List FreeRange) (lo hi a : ℕ) → Within lo hi rs → hi ≤ a → has rs a ≡ false
has-above [] lo hi a v h = refl
has-above (r ∷ rs) lo hi a v h =
    ground (arith, has-above rs (r.start + r.length) hi a, Within-le rs (r.start + r.length) hi)

-- Carving `[start, start + n)` out of a range that holds it.
module _ (r : FreeRange) (rs : List FreeRange) (lo hi start n : ℕ) (small : hi < u64_mod)
    (v : Within lo hi (r ∷ rs)) (some_bytes : 0 < n) (from : r.start ≤ start)
    (upto : start + n ≤ r.start + r.length) where
  end-le : r.start + r.length ≤ hi
  end-le = Within-le rs (r.start + r.length) hi v.2

  pub carve-Within : Within lo hi (carve r start n ++ rs)
  carve-Within = ground (
    arith,
    end-le,
    Within-lower rs (r.start + r.length) lo hi,
    Within-lower rs (r.start + r.length) (start) hi,
  )

  pub total-carve : total (carve r start n ++ rs) + n ≡ total (r ∷ rs)
  total-carve = ground (arith, end-le)

  pub has-carve :
      (a : ℕ) → has (carve r start n ++ rs) a ≡ (has (r ∷ rs) a && not (inside start n a))
  has-carve a = ground (arith, end-le, has-below rs (r.start + r.length) hi a)

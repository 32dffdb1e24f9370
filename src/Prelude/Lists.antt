-- ===== src/Prelude/Lists.antt =====
-- Slices and vectors as lists with native indices, and the methods of the standard library
-- that the program calls on them.
use Prim.Native.Nat.{ℕ, zero, suc, ◌+◌, ◌-◌, ◌≤◌}
use mathlib.Core.Path.{◌≡◌, refl, ap}
use mathlib.Core.Bool.{Bool}
use mathlib.Core.List.{List, [], ◌∷◌, ◌++◌}
use mathlib.Core.Option.{Option, none, some}
use native.Mathlib.Omega.{arith}
use luks_android.Prelude.Tests.{if◌then◌else◌}

module _ {ℓ} {A : Type ℓ} where
  abbrev pub length : List A → ℕ
  length [] = 0
  length (x ∷ xs) = suc (length xs)

  abbrev pub get_elem? : List A → ℕ → Option A
  get_elem? [] i = none
  get_elem? (x ∷ xs) zero = some x
  get_elem? (x ∷ xs) (suc i) = get_elem? xs i

  abbrev pub take : ℕ → List A → List A
  take zero xs = []
  take (suc n) [] = []
  take (suc n) (x ∷ xs) = x ∷ take n xs

  abbrev pub drop : ℕ → List A → List A
  drop zero xs = xs
  drop (suc n) [] = []
  drop (suc n) (x ∷ xs) = drop n xs

  pub length-append : (xs ys : List A) → length (xs ++ ys) ≡ length xs + length ys
  length-append [] ys = omega arith
  length-append (x ∷ xs) ys = omega (arith, length-append xs ys)

  pub length-take : (n : ℕ) (xs : List A) → n ≤ length xs → length (take n xs) ≡ n
  length-take zero xs h = refl
  length-take (suc n) [] h = absurd (omega arith)
  length-take (suc n) (x ∷ xs) h = ap suc (length-take n xs (omega arith))

  pub length-drop : (n : ℕ) (xs : List A) → length (drop n xs) ≡ length xs - n
  length-drop zero xs = omega arith
  length-drop (suc n) [] = omega arith
  length-drop (suc n) (x ∷ xs) = omega (arith, length-drop n xs)

  abbrev pub All {κ} : (A → Type κ) → List A → Type κ
  All P [] = Unit {κ}
  All P (x ∷ xs) = P x × All P xs

  pub All-append {κ} : (P : A → Type κ) (xs ys : List A) → All P xs → All P ys → All P (xs ++ ys)
  All-append P [] ys h k = k
  All-append P (x ∷ xs) ys h k = (h.0, All-append P xs ys h.1 k)

  -- `slice.partition_point(p)` on a slice that `p` partitions: the length of the part where it
  -- holds, which is what the binary search finds.
  abbrev pub partition_point : (A → Bool) → List A → ℕ
  partition_point p [] = 0
  partition_point p (x ∷ xs) = if p x then suc (partition_point p xs) else 0

  -- `if idx > 0 { … self.xs[idx - 1] … }`
  abbrev pub get_before : List A → ℕ → Option A
  get_before xs zero = none
  get_before xs (suc i) = get_elem? xs i

  -- `vec.splice(lo..hi, once(x))`
  abbrev pub splice_one : List A → ℕ → ℕ → A → List A
  splice_one xs lo hi x = take lo xs ++ (x ∷ drop hi xs)

  -- `vec.insert(i, x)`
  abbrev pub insert_at : List A → ℕ → A → List A
  insert_at xs i x = take i xs ++ (x ∷ drop i xs)

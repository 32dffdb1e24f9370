-- ===== src/Prelude/Windows.antt =====
-- Bytes as a function of their places, and the lists that it has from a place on.
use Prim.Native.Nat.{ℕ, zero, suc, ◌+◌, ◌-◌, ◌<◌, ◌≤◌}
use mathlib.Core.Path.{◌≡◌, refl, ap, ap₂, ◌∙◌}
use mathlib.Core.List.{List, [], ◌∷◌, ◌++◌}
use native.Mathlib.Omega.{arith}
use luks_android.Prelude.Lists.{length}
use luks_android.Prelude.Bytes.{zeros, slice}

-- The `n` bytes of `c` from an address on.
unfoldable pub window : (ℕ → ℕ) → ℕ → ℕ → List ℕ
window c a zero = []
window c a (suc n) = c a ∷ window c (suc a) n

pub length-window : (c : ℕ → ℕ) (a n : ℕ) → length (window c a n) ≡ n
unfolding window
length-window c a zero = refl
length-window c a (suc n) = ap suc (length-window c (suc a) n)

pub window-same :
    (c d : ℕ → ℕ) (a b n : ℕ)
    → ((i : ℕ) → i < n → c (a + i) ≡ d (b + i))
    → window c a n ≡ window d b n
unfolding window
window-same c d a b zero same = refl
window-same c d a b (suc n) same =
    ap₂ (λ x xs. x ∷ xs) (ap c a_zero ∙ same 0 (omega arith) ∙ ap d b_zero)
      (window-same c d (suc a) (suc b) n later)
  where
    a_zero : a ≡ a + 0
    a_zero = omega arith

    b_zero : b + 0 ≡ b
    b_zero = omega arith

    later : (i : ℕ) → i < n → c (suc a + i) ≡ d (suc b + i)
    later i less = ap c (omega arith) ∙ same (suc i) (omega arith) ∙ ap d (omega arith)

pub window-ap : (c d : ℕ → ℕ) (a n : ℕ) → ((i : ℕ) → c i ≡ d i) → window c a n ≡ window d a n
unfolding window
window-ap c d a zero h = refl
window-ap c d a (suc n) h = ap₂ (λ x xs. x ∷ xs) (h a) (window-ap c d (suc a) n h)

pub slice-window :
    (c : ℕ → ℕ) (a n w k : ℕ) → w + k ≤ n → slice (window c a n) w k ≡ window c (a + w) k
unfolding window
slice-window c a n zero zero h = refl
slice-window c a zero zero (suc k) h = absurd (omega arith)
slice-window c a (suc n) zero (suc k) h =
    ap₂ (λ x xs. x ∷ xs) (ap c (omega arith))
      (slice-window c (suc a) n zero k (omega arith) ∙ ap (λ b. window c b k) (omega arith))
slice-window c a zero (suc w) k h = absurd (omega arith)
slice-window c a (suc n) (suc w) k h =
    slice-window c (suc a) n w k (omega arith) ∙ ap (λ b. window c b k) (omega arith)

pub window-append :
    (c : ℕ → ℕ) (a m k : ℕ) → window c a m ++ window c (a + m) k ≡ window c a (m + k)
unfolding window
window-append c a zero k = ap₂ (window c) (omega arith) (omega arith)
window-append c a (suc m) k =
    ap (λ xs. c a ∷ xs)
      (ap (λ b. window c (suc a) m ++ window c b k) (omega arith) ∙ window-append c (suc a) m k)
    ∙ ap (window c a) shift
  where
    shift : suc (m + k) ≡ suc m + k
    shift = omega arith

pub window-split :
    (c : ℕ → ℕ) (a m n : ℕ) → m ≤ n → window c a m ++ window c (a + m) (n - m) ≡ window c a n
window-split c a m n h = window-append c a m (n - m) ∙ ap (window c a) (omega arith)

pub window-zeros :
    (c : ℕ → ℕ) (a n : ℕ) → ((i : ℕ) → i < n → c (a + i) ≡ 0) → window c a n ≡ zeros n
unfolding window
window-zeros c a zero zero_at = refl
window-zeros c a (suc n) zero_at =
    ap₂ (λ x xs. x ∷ xs) (ap c a_zero ∙ zero_at 0 (omega arith)) (window-zeros c (suc a) n later)
  where
    a_zero : a ≡ a + 0
    a_zero = omega arith

    later : (i : ℕ) → i < n → c (suc a + i) ≡ 0
    later i less = ap c (omega arith) ∙ zero_at (suc i) (omega arith)

pub no_window : (c : ℕ → ℕ) (a n : ℕ) → n ≡ 0 → [] ≡ window c a n
unfolding window
no_window c a zero h = refl
no_window c a (suc n) h = absurd (omega arith)

-- Byte number `j`, or another value behind the end.
unfoldable pub at_or : List ℕ → ℕ → ℕ → ℕ
at_or [] j other = other
at_or (x ∷ xs) zero other = x
at_or (x ∷ xs) (suc j) other = at_or xs j other

at_or_next : (x : ℕ) (b : List ℕ) (j k : ℕ) → suc j ≡ k → at_or b j 0 ≡ at_or (x ∷ b) k 0
unfolding at_or
at_or_next x b j k e = ap (λ i. at_or (x ∷ b) i 0) e

pub slice-at_or :
    (b : List ℕ) (o n : ℕ) → o + n ≤ length b → slice b o n ≡ window (λ i. at_or b i 0) o n
unfolding window at_or
slice-at_or b zero zero h = refl
slice-at_or [] zero (suc n) h = absurd (omega arith)
slice-at_or (x ∷ b) zero (suc n) h =
    ap (λ xs. x ∷ xs)
      (slice-at_or b 0 n (omega arith)
        ∙ window-same (λ i. at_or b i 0) (λ i. at_or (x ∷ b) i 0) 0 1 n
            λ i less. at_or_next x b (0 + i) (1 + i) (omega arith))
slice-at_or [] (suc o) n h = absurd (omega arith)
slice-at_or (x ∷ b) (suc o) n h =
    slice-at_or b o n (omega arith)
    ∙ window-same (λ i. at_or b i 0) (λ i. at_or (x ∷ b) i 0) o (suc o) n
        λ i less. at_or_next x b (o + i) (suc o + i) (omega arith)

-- ===== src/Prelude/Bytes.antt =====
-- Little-endian fields of byte slices.
use Prim.Native.Nat.{ℕ, zero, suc, ◌+◌, ◌*◌, ◌/◌, ◌%◌, ◌^◌, ◌<◌, ◌≤◌}
use mathlib.Core.Path.{◌≡◌, refl, ap, ◌∙◌, sym}
use mathlib.Core.List.{List, [], ◌∷◌, ◌++◌, reverse}
use native.Mathlib.Nat.{pow-suc}
use native.Mathlib.Omega.{arith}
use luks_android.Prelude.Lists.{length, take, drop}
use mathlib.Core.Bool.{Bool, true, false}
use luks_android.Prelude.Tests.{◌==◌, if◌then◌else◌}

-- `x.to_le_bytes()` in `k` bytes.
abbrev pub to_le : ℕ → ℕ → List ℕ
to_le zero x = []
to_le (suc k) x = x % 256 ∷ to_le k (x / 256)

abbrev pub from_le : List ℕ → ℕ
from_le [] = 0
from_le (b ∷ bs) = b + 256 * from_le bs

-- `x.to_be_bytes()` in `k` bytes, and the number of such bytes.
abbrev pub to_be : ℕ → ℕ → List ℕ
to_be k x = reverse (to_le k x)

abbrev pub from_be : List ℕ → ℕ
from_be b = from_le (reverse b)

-- `[0u8; n]`
abbrev pub zeros : ℕ → List ℕ
zeros zero = []
zeros (suc n) = 0 ∷ zeros n

pub length-zeros : (n : ℕ) → length (zeros n) ≡ n
length-zeros zero = refl
length-zeros (suc n) = ap suc (length-zeros n)

-- `b[o..o + k]`, where that is in bounds.
abbrev pub slice : List ℕ → ℕ → ℕ → List ℕ
slice b o k = take k (drop o b)

-- `b[o]`
abbrev pub byte : List ℕ → ℕ → ℕ
byte b o = from_le (slice b o 1)

-- `a == b` on byte strings.
abbrev pub same_bytes : List ℕ → List ℕ → Bool
same_bytes [] [] = true
same_bytes [] (y ∷ ys) = false
same_bytes (x ∷ xs) [] = false
same_bytes (x ∷ xs) (y ∷ ys) = if x == y then same_bytes xs ys else false

abbrev pub u16le : List ℕ → ℕ → ℕ
u16le b o = from_le (slice b o 2)

abbrev pub u32le : List ℕ → ℕ → ℕ
u32le b o = from_le (slice b o 4)

abbrev pub u64le : List ℕ → ℕ → ℕ
u64le b o = from_le (slice b o 8)

pub from_le-to_le : (k x : ℕ) → x < 256 ^ k → from_le (to_le k x) ≡ x
from_le-to_le zero x h = omega arith
from_le-to_le (suc k) x h = omega (arith, from_le-to_le k (x / 256) (omega (arith, pow-suc 256 k)))

pub drop-append {ℓ} : {A : Type ℓ} (xs ys : List A) → drop (length xs) (xs ++ ys) ≡ ys
drop-append [] ys = refl
drop-append (x ∷ xs) ys = drop-append xs ys

pub take-append {ℓ} : {A : Type ℓ} (xs ys : List A) → take (length xs) (xs ++ ys) ≡ xs
take-append [] ys = refl
take-append (x ∷ xs) ys = ap (λ zs. x ∷ zs) (take-append xs ys)

pub drop-plus : (pre xs : List ℕ) (n : ℕ) → drop (length pre + n) (pre ++ xs) ≡ drop n xs
drop-plus [] xs n = ap (λ m. drop m xs) zero_add
  where
    zero_add : 0 + n ≡ n
    zero_add = omega arith
drop-plus (x ∷ pre) xs n = ap (λ m. drop m (x ∷ (pre ++ xs))) suc_add ∙ drop-plus pre xs n
  where
    suc_add : suc (length pre) + n ≡ suc (length pre + n)
    suc_add = omega arith

take-front : (b c : List ℕ) (m n : ℕ) → m ≤ length b → n ≤ m → take n (take m b ++ c) ≡ take n b
take-front b c m zero h l = refl
take-front [] c m (suc n) h l = absurd (omega arith)
take-front (x ∷ b) c zero (suc n) h l = absurd (omega arith)
take-front (x ∷ b) c (suc m) (suc n) h l =
    ap (λ xs. x ∷ xs) (take-front b c m n (omega arith) (omega arith))

pub slice-front :
    (b c : List ℕ) (m o n : ℕ) → m ≤ length b → o + n ≤ m → slice (take m b ++ c) o n ≡ slice b o n
slice-front b c m zero n h l = take-front b c m n h (omega arith)
slice-front [] c m (suc o) n h l = absurd (omega arith)
slice-front (x ∷ b) c zero (suc o) n h l = absurd (omega arith)
slice-front (x ∷ b) c (suc m) (suc o) n h l = slice-front b c m o n (omega arith) (omega arith)

drop-nil : (n : ℕ) → drop {A = ℕ} n [] ≡ []
drop-nil zero = refl
drop-nil (suc n) = refl

pub drop-drop : (m k : ℕ) (xs : List ℕ) → drop k (drop m xs) ≡ drop (m + k) xs
drop-drop zero k xs = ap (λ n. drop n xs) (omega arith)
drop-drop (suc m) k [] = drop-nil k ∙ sym (drop-nil (suc m + k))
drop-drop (suc m) k (x ∷ xs) = drop-drop m k xs ∙ ap (λ n. drop n (x ∷ xs)) shift
  where
    shift : suc (m + k) ≡ suc m + k
    shift = omega arith

-- ===== src/Prelude/Bits.antt =====
-- Rounding up to a power of two by a mask, `(x + a - 1) & !(a - 1)`, in plain arithmetic.
use Prim.Native.Nat.{ℕ, zero, suc, ◌+◌, ◌-◌, ◌*◌, ◌/◌, ◌%◌, ◌^◌, ◌≤◌, ◌<◌, min, bit_and}
use Prim.Native.Nat.{digits, bit_and-bitwise}
use mathlib.Core.Path.{◌≡◌, refl, sym, ap, ap₂, ◌∙◌}
use native.Mathlib.Nat.{pow-suc, one-le-pow, div-add-mod', mod-lt}
use native.Mathlib.Omega.{arith}
use native.Mathlib.Decide.{dec_lt}
use luks_android.Prelude.Words.{u64_mod, add64, sub64}

-- `!x` on a u64.
abbrev pub not64 : ℕ → ℕ
not64 x = u64_mod - 1 - x

unfoldable pub align_up : ℕ → ℕ → ℕ
align_up x alignment = bit_and (sub64 (add64 x alignment) 1) (not64 (sub64 alignment 1))

-- The native operation by its lowest digit. Its fuel makes no difference once it reaches `x`.
no_digits : (fuel y : ℕ) → digits (λ z. 0) min fuel 0 y ≡ 0
no_digits zero y = refl
no_digits (suc fuel) y = refl

enough_digits :
    (x y more less : ℕ)
    → x ≤ less
    → x ≤ more
    → digits (λ z. 0) min more x y ≡ digits (λ z. 0) min less x y
enough_digits zero y more less _ _ = no_digits more y ∙ sym (no_digits less y)
enough_digits (suc x) y zero less _ above = absurd (omega arith)
enough_digits (suc x) y more zero below _ = absurd (omega arith)
enough_digits (suc x) y (suc more) (suc less) below above =
    let halves = enough_digits (suc x / 2) (y / 2) more less (omega arith) (omega arith) in
    omega arith

zero-bit_and : (y : ℕ) → bit_and 0 y ≡ 0
zero-bit_and y = bit_and-bitwise 0 y

bit_and_step : (x y : ℕ) → bit_and x y ≡ bit_and (x / 2) (y / 2) * 2 + min (x % 2) (y % 2)
bit_and_step zero y = let whole = zero-bit_and y in let halves = zero-bit_and (y / 2) in omega arith
bit_and_step (suc x) y =
    let whole = bit_and-bitwise (suc x) y in
    let halves = bit_and-bitwise (suc x / 2) (y / 2) in
    let fuel = enough_digits (suc x / 2) (y / 2) x (suc x / 2) (omega arith) (omega arith) in
    omega arith

bit_and-none : (fuel x : ℕ) → x ≤ fuel → bit_and x 0 ≡ 0
bit_and-none zero x h = ap (λ (t : ℕ). bit_and t 0) zero_x ∙ zero-bit_and 0
  where
    zero_x : x ≡ 0
    zero_x = omega arith
bit_and-none (suc fuel) zero h = zero-bit_and 0
bit_and-none (suc fuel) (suc x) h =
    omega (arith, bit_and_step (suc x) 0, bit_and-none fuel (suc x / 2) (omega arith))

-- The masks of single flags.
pub bit_and-one : (x : ℕ) → bit_and x 1 ≡ x % 2
bit_and-one x = omega (arith, bit_and_step x 1, bit_and-none (x / 2) (x / 2) (omega arith))

pub bit_and-two : (x : ℕ) → bit_and x 2 ≡ x / 2 % 2 * 2
bit_and-two x = omega (arith, bit_and_step x 2, bit_and-one (x / 2))

pub bit_and-four : (x : ℕ) → bit_and x 4 ≡ x / 4 % 2 * 4
bit_and-four x = omega (arith, bit_and_step x 4, bit_and-two (x / 2))

pub bit_and-five : (x : ℕ) → bit_and x 5 ≡ x % 2 + x / 4 % 2 * 4
bit_and-five x = omega (arith, bit_and_step x 5, bit_and-two (x / 2))

bit_and-ones : (w x : ℕ) → x < 2 ^ w → bit_and x (2 ^ w - 1) ≡ x
bit_and-ones zero x h = ap (λ (t : ℕ). bit_and t 0) zero_x ∙ zero-bit_and 0 ∙ sym zero_x
  where
    zero_x : x ≡ 0
    zero_x = omega arith
bit_and-ones (suc w) x h = omega (
  arith,
  pow-suc 2 w,
  one-le-pow w 2,
  bit_and_step x (2 ^ suc w - 1),
  ap (λ (m : ℕ). bit_and (x / 2) m) half,
  bit_and-ones w (x / 2) (omega (arith, pow-suc 2 w)),
)
  where
    half : (2 ^ suc w - 1) / 2 ≡ 2 ^ w - 1
    half = omega (arith, pow-suc 2 w, one-le-pow w 2)

double : (q k : ℕ) → q * 2 ^ suc k ≡ q * 2 ^ k * 2
double q k = omega (arith, ap (λ (t : ℕ). q * t) (pow-suc 2 k))

-- A mask of zeros below bit `k` drops the lower bits.
bit_and-fields :
    (k q r m : ℕ) → r < 2 ^ k → bit_and (q * 2 ^ k + r) (m * 2 ^ k) ≡ bit_and q m * 2 ^ k
bit_and-fields zero q r m h = ap₂ bit_and low same ∙ omega arith
  where
    low : q * 2 ^ 0 + r ≡ q
    low = omega arith

    same : m * 2 ^ 0 ≡ m
    same = omega arith
bit_and-fields (suc k) q r m h =
    bit_and_step (q * 2 ^ suc k + r) (m * 2 ^ suc k)
    ∙ omega (
      arith,
      ap₂ bit_and high masked,
      bit_and-fields k q (r / 2) m (omega (arith, pow-suc 2 k)),
      double q k,
      double m k,
      double (bit_and q m) k,
    )
  where
    high : (q * 2 ^ suc k + r) / 2 ≡ q * 2 ^ k + r / 2
    high = omega (arith, double q k)

    masked : (m * 2 ^ suc k) / 2 ≡ m * 2 ^ k
    masked = omega (arith, double m k)

pow-add : (k w : ℕ) → 2 ^ (k + w) ≡ 2 ^ w * 2 ^ k
pow-add zero w = ap (λ (t : ℕ). 2 ^ t) zero_add ∙ omega arith
  where
    zero_add : 0 + w ≡ w
    zero_add = omega arith
pow-add (suc k) w =
    ap (λ (t : ℕ). 2 ^ t) suc_add ∙ omega (arith, pow-suc 2 (k + w), pow-add k w, double (2 ^ w) k)
  where
    suc_add : suc k + w ≡ suc (k + w)
    suc_add = omega arith

pred_mul : (b p : ℕ) → 1 ≤ b → (b - 1) * p + p ≡ b * p
pred_mul zero p h = absurd (omega arith)
pred_mul (suc c) p h = ap (λ (t : ℕ). t * p + p) less ∙ omega arith
  where
    less : suc c - 1 ≡ c
    less = omega arith

factor_lt : (q b p r : ℕ) → q * p + r < b * p → q < b
factor_lt q b p r h = elim (dec_lt q b) [ yes c ↦ c | no c ↦ absurd (grind arith) ]

module _ (x k w : ℕ) (e : k + w ≡ 64) (fits : x + 2 ^ k ≤ u64_mod) where
  top : u64_mod ≡ 2 ^ w * 2 ^ k
  top = ap (λ (t : ℕ). 2 ^ t) (sym e) ∙ pow-add k w

  quotient : ℕ
  quotient = (x + 2 ^ k - 1) / 2 ^ k

  split : x + 2 ^ k - 1 ≡ quotient * 2 ^ k + (x + 2 ^ k - 1) % 2 ^ k
  unfolding quotient
  split = sym (div-add-mod' (x + 2 ^ k - 1) (2 ^ k))

  low : (x + 2 ^ k - 1) % 2 ^ k < 2 ^ k
  low = mod-lt (x + 2 ^ k - 1) (one-le-pow k 2 (omega arith))

  align_up-quotient : align_up x (2 ^ k) ≡ quotient * 2 ^ k
  unfolding align_up
  align_up-quotient =
      ap₂ bit_and rounded masked
      ∙ bit_and-fields k quotient ((x + 2 ^ k - 1) % 2 ^ k) (2 ^ w - 1) low
      ∙ ap (λ (t : ℕ). t * 2 ^ k) (bit_and-ones w quotient small)
    where
      positive : 1 ≤ 2 ^ k
      positive = one-le-pow k 2 (omega arith)

      rounded : sub64 (add64 x (2 ^ k)) 1 ≡ quotient * 2 ^ k + (x + 2 ^ k - 1) % 2 ^ k
      rounded = omega (arith, split, positive)

      masked : not64 (sub64 (2 ^ k) 1) ≡ (2 ^ w - 1) * 2 ^ k
      masked = omega (arith, top, positive, pred_mul (2 ^ w) (2 ^ k) (one-le-pow w 2 (omega arith)))

      small : quotient < 2 ^ w
      small =
          factor_lt quotient (2 ^ w) (2 ^ k) ((x + 2 ^ k - 1) % 2 ^ k)
            (omega (arith, split, top, positive))

-- What the mask computes: the first multiple of `2 ^ k` from `x` on, if that fits.
pub align_up_lem :
    (x k w : ℕ)
    → k + w ≡ 64
    → x + 2 ^ k ≤ u64_mod
    → (q : ℕ) × (align_up x (2 ^ k) ≡ q * 2 ^ k) × (x ≤ q * 2 ^ k) × (q * 2 ^ k < x + 2 ^ k)
align_up_lem x k w e fits = (
  quotient x k w e fits,
  align_up-quotient x k w e fits,
  omega (arith, split x k w e fits, low x k w e fits),
  omega (arith, split x k w e fits, one-le-pow k 2),
)

bit_and_self : (fuel x : ℕ) → x ≤ fuel → bit_and x x ≡ x
bit_and_self fuel zero h = zero-bit_and 0
bit_and_self zero (suc x) h = absurd (omega arith)
bit_and_self (suc fuel) (suc x) h =
    omega (arith, bit_and_step (suc x) (suc x), bit_and_self fuel (suc x / 2) (omega arith))

-- A number of which one bit is set is a power of two.
pub one_bit : (fuel x : ℕ) → x ≤ fuel → 0 < x → bit_and x (x - 1) ≡ 0 → (k : ℕ) × (x ≡ 2 ^ k)
one_bit zero x h p e = absurd (omega arith)
one_bit (suc fuel) x h p e = elim (dec_lt 0 (x % 2)) [
  | yes odd ↦ (
    0,
    omega (
      arith,
      odd,
      bit_and_step x (x - 1),
      ap (bit_and (x / 2)) (half odd),
      bit_and_self x (x / 2) (omega arith),
      e,
    ),
  )
  | no even ↦
      let (k, q) =
        one_bit fuel (x / 2) (omega arith) (omega (arith, even))
          (omega (arith, even, bit_and_step x (x - 1), ap (bit_and (x / 2)) (below even), e)) in
      (suc k, omega (arith, even, q, pow-suc 2 k))
]
  where
    half : 0 < x % 2 → (x - 1) / 2 ≡ x / 2
    half odd = omega arith

    below : ¬ (0 < x % 2) → (x - 1) / 2 ≡ x / 2 - 1
    below even = omega arith

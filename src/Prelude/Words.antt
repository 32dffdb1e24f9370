-- ===== src/Prelude/Words.antt =====
-- Machine integers as native numbers below their modulus. Plain `+` and `-` wrap, as in a
-- release build; the `checked_` and `saturating_` methods do what their names say.
use Prim.Native.Nat.{ℕ, ◌+◌, ◌-◌, ◌%◌, ◌^◌, ◌<◌, min}
use mathlib.Core.Option.{Option, none, some}
use luks_android.Prelude.Tests.{ltb, if◌then◌else◌}

abbrev pub u64_mod : ℕ
u64_mod = 2 ^ 64

abbrev pub IsU64 : ℕ → Type 0
IsU64 x = x < u64_mod

abbrev pub add64 : ℕ → ℕ → ℕ
add64 a b = (a + b) % u64_mod

abbrev pub sub64 : ℕ → ℕ → ℕ
sub64 a b = (a + u64_mod - b) % u64_mod

abbrev pub checked_add : ℕ → ℕ → Option ℕ
checked_add a b = if ltb (a + b) u64_mod then some (a + b) else none

abbrev pub saturating_add : ℕ → ℕ → ℕ
saturating_add a b = min (a + b) (u64_mod - 1)

abbrev pub saturating_sub : ℕ → ℕ → ℕ
saturating_sub a b = a - b

pub data ℤ : Type 0 where
  pos : ℕ → ℤ
  negsuc : ℕ → ℤ

-- `x as i64`
abbrev pub as_i64 : ℕ → ℤ
as_i64 x = if ltb x (2 ^ 63) then pos x else negsuc (u64_mod - 1 - x)

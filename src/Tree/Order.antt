-- ===== src/Tree/Order.antt =====
-- The order of keys is a strict total order, and `cmp` decides it.
use Prim.Native.Nat.{Ordering}
use luks_android.Prelude.{◌≡◌, refl, arith, ◌⊎◌, inl, inr, true}
use luks_android.Tree.{Key, cmp, is_lt}

infix 4 ◌<ₖ◌
abbrev pub ◌<ₖ◌ : Key → Key → Type 0
a <ₖ b = cmp a b ≡ Ordering.lt

pub cmp_self : (a : Key) → cmp a a ≡ Ordering.eq
unfolding cmp
cmp_self a = ground arith

pub cmp-eq : (a b : Key) → cmp a b ≡ Ordering.eq → a ≡ b
unfolding cmp
cmp-eq a b h = ground arith

pub cmp-gt : (a b : Key) → cmp a b ≡ Ordering.gt → b <ₖ a
unfolding cmp
cmp-gt a b h = ground arith

pub lt-cmp : (a b : Key) → b <ₖ a → cmp a b ≡ Ordering.gt
unfolding cmp
lt-cmp a b h = ground arith

pub key_trans : (a b c : Key) → a <ₖ b → b <ₖ c → a <ₖ c
unfolding cmp
key_trans a b c h k = ground arith

pub cmp-cases : (a b : Key) → (a <ₖ b) ⊎ (a ≡ b) ⊎ (b <ₖ a)
cmp-cases a b = go (cmp a b) refl
  where
    go : (o : Ordering) → cmp a b ≡ o → (a <ₖ b) ⊎ (a ≡ b) ⊎ (b <ₖ a)
    go Ordering.lt e = inl e
    go Ordering.eq e = inr (inl (cmp-eq a b e))
    go Ordering.gt e = inr (inr (cmp-gt a b e))

pub lt_of_is_lt : (o : Ordering) → is_lt o ≡ true → o ≡ Ordering.lt
lt_of_is_lt o h = ground arith

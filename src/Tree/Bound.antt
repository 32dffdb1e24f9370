-- ===== src/Tree/Bound.antt =====
-- The binary search of a node ends within its fuel and finds the lower bound of a key.
use Prim.Native.Nat.{Ordering}
use luks_android.Prelude.{
  ℕ, zero, suc, ◌+◌, ◌*◌, ◌-◌, ◌/◌, ◌≤◌, ◌<◌, ◌≡◌, refl, ap, arith, inl, inr, ltb, ◌==◌, true,
  false, Bool-cases, if◌then◌else◌, ltb→lt, ltb→ge,
}
use luks_android.Error.{ok}
use luks_android.Tree.{
  Key, Node, header_size, item_size, key_ptr_size, parse_key, is_leaf, is_lt, is_eq, cmp, key,
  bound_from, lower_bound, child_for, at_or_before,
}
use luks_android.Tree.Order.{◌<ₖ◌, key_trans, cmp-cases, cmp_self, cmp-eq, lt-cmp, lt_of_is_lt}

-- The key of an entry, by its place in the block.
abbrev pub key_at : Node → ℕ → Key
key_at n i = parse_key n.raw (header_size + i * (if is_leaf n then item_size else key_ptr_size))

-- The keys of a node ascend.
abbrev pub IsAscending : Node → Type 0
IsAscending n = (i j : ℕ) → i < j → j < n.nr_items → key_at n i <ₖ key_at n j

-- The entries in front of `b` have smaller keys, and those from `b` on have not.
pub record IsBound (n : Node) (k : Key) (b : ℕ) : Type 0 where
  pub within : b ≤ n.nr_items
  pub below : (i : ℕ) → i < b → is_lt (cmp (key_at n i) k) ≡ true
  pub above : (i : ℕ) → b ≤ i → i < n.nr_items → is_lt (cmp (key_at n i) k) ≡ false

pub key-ok : (n : Node) (i : ℕ) → i < n.nr_items → key n i ≡ ok (key_at n i)
unfolding key
key-ok n i h = ground arith

-- A smaller key in front of a smaller key.
smaller :
    (n : Node) (k : Key) (i mid : ℕ)
    → IsAscending n
    → i ≤ mid
    → mid < n.nr_items
    → is_lt (cmp (key_at n mid) k) ≡ true
    → is_lt (cmp (key_at n i) k) ≡ true
smaller n k i mid v p q h = elim (Bool-cases (i == mid)) [
  | inl e ↦ let same : i ≡ mid = ground arith in rw same h
  | inr e ↦
      let less : i < mid = ground arith in
      ap is_lt (key_trans (key_at n i) (key_at n mid) k (v i mid less q) (lt_of_is_lt _ h))
]

larger :
    (n : Node) (k : Key) (i mid : ℕ)
    → IsAscending n
    → mid ≤ i
    → i < n.nr_items
    → is_lt (cmp (key_at n mid) k) ≡ false
    → is_lt (cmp (key_at n i) k) ≡ false
larger n k i mid v p q h = elim (Bool-cases (is_lt (cmp (key_at n i) k))) [
  | inl e ↦ let no = smaller n k mid i v p q e in cc
  | inr e ↦ e
]

bound_from-IsBound :
    (fuel : ℕ) (n : Node) (k : Key) (lo hi : ℕ)
    → IsAscending n
    → hi < lo + fuel
    → lo ≤ hi
    → hi ≤ n.nr_items
    → ((i : ℕ) → i < lo → is_lt (cmp (key_at n i) k) ≡ true)
    → ((i : ℕ) → hi ≤ i → i < n.nr_items → is_lt (cmp (key_at n i) k) ≡ false)
    → (b : ℕ) × (bound_from fuel n k lo hi ≡ ok b) × IsBound n k b
unfolding bound_from
bound_from-IsBound zero n k lo hi v f p q below above = absurd (omega arith)
bound_from-IsBound (suc fuel) n k lo hi v f p q below above = elim (Bool-cases (ltb lo hi)) [
  | inr e ↦
      let same : lo ≡ hi = ground arith in
      (
        lo,
        rw e,
        record { within = omega arith; below = below; above = λ i l u. above i (omega arith) u },
      )
  | inl e ↦
      let mid : ℕ = lo + (hi - lo) / 2 in
      let half : (lo ≤ mid) × (mid < hi) = ground arith in
      let found = key-ok n mid (omega arith) in
      elim (Bool-cases (is_lt (cmp (key_at n mid) k))) [
        | inl less ↦
            let (b, r, s) =
              bound_from-IsBound fuel n k (mid + 1) hi v (omega arith) (omega arith) q
                (λ i l. smaller n k i mid v (omega arith) (omega arith) less) above in
            (b, rw (e, found, less) r, s)
        | inr more ↦
            let (b, r, s) =
              bound_from-IsBound fuel n k lo mid v (omega arith) (omega arith) (omega arith) below
                (λ i l u. larger n k i mid v l u more) in
            (b, rw (e, found, more) r, s)
      ]
]

-- In a node whose keys ascend, the search for a key ends with its lower bound: the entries in front
-- of it have smaller keys, and those from it on have not.
pub lower_bound_lem :
    (n : Node) (k : Key) → IsAscending n → (b : ℕ) × (lower_bound n k ≡ ok b) × IsBound n k b
unfolding lower_bound
lower_bound_lem n k v =
    bound_from-IsBound (n.nr_items + 1) n k 0 n.nr_items v (omega arith) (omega arith) (omega arith)
      (λ i l. absurd (omega arith)) (λ i l u. absurd (omega arith))

-- The child under which a key belongs: every later entry has a larger key, and the entry itself has
-- no larger key, unless it is the first.
pub record IsChild (n : Node) (k : Key) (i : ℕ) : Type 0 where
  pub within : i < n.nr_items
  pub last : (j : ℕ) → i < j → j < n.nr_items → k <ₖ key_at n j
  pub reached : 0 < i → is_lt (cmp k (key_at n i)) ≡ false

pos-eq_zero : (x : ℕ) → 0 < x → (x == 0) ≡ false
pos-eq_zero x h = ground arith

eq-is_eq : (o : Ordering) → is_eq o ≡ true → o ≡ Ordering.eq
eq-is_eq Ordering.lt h = cc
eq-is_eq Ordering.eq h = refl
eq-is_eq Ordering.gt h = cc

-- Neither smaller nor equal is larger.
not-lt-eq : (a b : Key) → is_lt (cmp a b) ≡ false → is_eq (cmp a b) ≡ false → b <ₖ a
not-lt-eq a b p q = elim (cmp-cases a b) [
  | inl l ↦ cc
  | inr (inl e) ↦ let same = cmp_self a in let at = ap (λ x. cmp a x) e in cc
  | inr (inr g) ↦ g
]

not-gt : (a b : Key) → is_lt (cmp a b) ≡ true → is_lt (cmp b a) ≡ false
not-gt a b h = let flip = lt-cmp b a (lt_of_is_lt _ h) in rw flip

from_first :
    (n : Node) (k : Key) (b j : ℕ)
    → IsAscending n
    → k <ₖ key_at n b
    → b ≤ j
    → j < n.nr_items
    → k <ₖ key_at n j
from_first n k b j v h l u = elim (Bool-cases (j == b)) [
  | inl e ↦ let same : j ≡ b = ground arith in rw same h
  | inr e ↦ key_trans k (key_at n b) (key_at n j) h (v b j (ground arith) u)
]

at_bound :
    (n : Node) (k : Key) (b : ℕ)
    → IsAscending n
    → IsBound n k b
    → 0 < n.nr_items
    → (i : ℕ) × (at_or_before n k b ≡ ok i) × IsChild n k i
at_bound n k b v s p = elim (Bool-cases (ltb b n.nr_items)) [
  | inr e ↦ (
    b - 1,
    rw e,
    record {
      within = omega (arith, ltb→ge _ _ e, s.within);
      last = λ j l u. absurd (omega (arith, ltb→ge _ _ e, s.within));
      reached = λ l. not-gt (key_at n (b - 1)) k (s.below (b - 1) (omega arith));
    },
  )
  | inl e ↦
      let inside = ltb→lt _ _ e in
      let found = key-ok n b inside in
      elim (Bool-cases (is_eq (cmp (key_at n b) k))) [
        | inl same ↦
            let equal = cmp-eq (key_at n b) k (eq-is_eq _ same) in
            (
              b,
              rw (e, found, same),
              record {
                within = inside;
                last = λ j l u. rw (← equal) (v b j l u);
                reached = λ l. rw equal (ap is_lt (cmp_self k));
              },
            )
        | inr other ↦
            let first = not-lt-eq (key_at n b) k (s.above b (omega arith) inside) other in
            (
              b - 1,
              rw (e, found, other),
              record {
                within = omega arith;
                last = λ j l u. from_first n k b j v first (omega arith) u;
                reached = λ l. not-gt (key_at n (b - 1)) k (s.below (b - 1) (omega arith));
              },
            )
      ]
]

-- In a node with children whose keys ascend, `child_for` finds the child under which a key belongs.
pub child_for_lem :
    (n : Node) (k : Key)
    → IsAscending n
    → 0 < n.nr_items
    → (i : ℕ) × (child_for n k ≡ ok i) × IsChild n k i
unfolding child_for
child_for_lem n k v p =
    let (b, r, s) = lower_bound_lem n k v in
    let (i, q, c) = at_bound n k b v s p in (i, rw (pos-eq_zero n.nr_items p, r) q, c)

-- ===== src/Leaf/Items.antt =====
-- The items of a leaf as a map from keys to bytes, and what the three operations do to it.
use Prim.Native.Nat.{Ordering}
use luks_android.Prelude.{
  ℕ, zero, suc, ◌≡◌, refl, ap, arith, true, Option, none, some, List, [], ◌∷◌, insert_at, All,
  if◌then◌else◌, ◌+◌, length,
}
use luks_android.Prelude.Search.{found, missing, search_by}
use luks_android.Tree.{Key, cmp, is_eq}
use luks_android.Tree.Order.{◌<ₖ◌, cmp_self, cmp-eq, cmp-gt, lt-cmp, key_trans}
use luks_android.Leaf.{LeafItem, search_key, set_bytes, remove_at, bytes_at, sum_bytes}

abbrev pub Above : Key → List LeafItem → Type 0
Above k items = All (λ it. k <ₖ it.key) items

-- Keys ascend, and no two are equal.
abbrev pub IsSorted : List LeafItem → Type 0
IsSorted [] = Unit {0}
IsSorted (x ∷ xs) = Above x.key xs × IsSorted xs

-- The bytes that are filed under a key.
abbrev pub lookup : List LeafItem → Key → Option (List ℕ)
lookup [] k = none
lookup (x ∷ xs) k = if is_eq (cmp x.key k) then some x.bytes else lookup xs k

-- The operations by recursion, with no index.
pub put : LeafItem → List LeafItem → List LeafItem
put x [] = x ∷ []
put x (y ∷ ys) =
    let rest = y ∷ put x ys in
    elim (cmp y.key x.key) [
      | Ordering.lt ↦ rest
      | Ordering.eq ↦ x ∷ y ∷ ys
      | Ordering.gt ↦ x ∷ y ∷ ys
    ]

-- What a search gives at an index: the item there has the key, and no item before it has.
pub search-missing :
    (items : List LeafItem) (k : Key) (i : ℕ) (b : List ℕ)
    → search_key items k ≡ missing i
    → insert_at items i (record { key = k; bytes = b }) ≡ put (record { key = k; bytes = b }) items
unfolding put search_by
search-missing [] k zero b h = refl
search-missing [] k (suc i) b h = cc
search-missing (y ∷ ys) k zero b h = ground arith
search-missing (y ∷ ys) k (suc i) b h = ground (arith, search-missing ys k i b)

pub without : Key → List LeafItem → List LeafItem
without k [] = []
without k (y ∷ ys) =
    let rest = y ∷ without k ys in
    elim (cmp y.key k) [ Ordering.lt ↦ rest | Ordering.eq ↦ ys | Ordering.gt ↦ y ∷ ys ]

pub reset : Key → List ℕ → List LeafItem → List LeafItem
reset k b [] = []
reset k b (y ∷ ys) =
    let rest = y ∷ reset k b ys in
    elim (cmp y.key k) [
      | Ordering.lt ↦ rest
      | Ordering.eq ↦ record y { bytes = b } ∷ ys
      | Ordering.gt ↦ y ∷ ys
    ]

pub search-found :
    (items : List LeafItem) (k : Key) (i : ℕ) (b : List ℕ)
    → search_key items k ≡ found i
    → (lookup items k ≡ some (bytes_at items i))
      × (remove_at items i ≡ without k items)
      × (set_bytes items i b ≡ reset k b items)
unfolding without reset search_by
search-found [] k i b h = cc
search-found (y ∷ ys) k zero b h = (ground arith, ground arith, ground arith)
search-found (y ∷ ys) k (suc i) b h = (
  ground (arith, search-found ys k i b),
  ground (arith, search-found ys k i b),
  ground (arith, search-found ys k i b),
)

pub lookup-Above : (items : List LeafItem) (k : Key) → Above k items → lookup items k ≡ none
lookup-Above [] k v = refl
lookup-Above (y ∷ ys) k v = ground (arith, lookup-Above ys k, lt-cmp y.key k)

pub Above-below : (items : List LeafItem) (k l : Key) → l <ₖ k → Above k items → Above l items
Above-below [] k l h v = tt
Above-below (y ∷ ys) k l h v = (key_trans l k y.key h v.0, Above-below ys k l h v.1)

pub search-missing_lookup :
    (items : List LeafItem) (k : Key) (i : ℕ)
    → IsSorted items
    → search_key items k ≡ missing i
    → lookup items k ≡ none
unfolding search_by
search-missing_lookup [] k i v h = refl
search-missing_lookup (y ∷ ys) k zero v h =
    ground (arith, lookup-Above ys k, Above-below ys y.key k, cmp-gt y.key k)
search-missing_lookup (y ∷ ys) k (suc i) v h = ground (arith, search-missing_lookup ys k i)

pub is_eq-eq : (a b : Key) → is_eq (cmp a b) ≡ true → a ≡ b
is_eq-eq a b h = ground (arith, cmp-eq a b)

Above-put :
    (items : List LeafItem) (x : LeafItem) (k : Key)
    → k <ₖ x.key
    → Above k items
    → Above k (put x items)
unfolding put
Above-put [] x k h v = (h, tt)
Above-put (y ∷ ys) x k h v = ground (arith, Above-put ys x k)

pub put-IsSorted :
    (items : List LeafItem) (x : LeafItem)
    → IsSorted items
    → lookup items x.key ≡ none
    → IsSorted (put x items)
unfolding put
put-IsSorted [] x v h = (tt, tt)
put-IsSorted (y ∷ ys) x v h =
    ground (
      arith,
      put-IsSorted ys x,
      Above-put ys x y.key,
      Above-below ys y.key x.key,
      cmp-gt y.key x.key,
    )

both_eq : (a b k : Key) → is_eq (cmp a k) ≡ true → is_eq (cmp b k) ≡ true → cmp a b ≡ Ordering.eq
both_eq a b k p q =
    let l : a ≡ k = is_eq-eq a k p in let r : b ≡ k = is_eq-eq b k q in rw (l, r) (cmp_self k)

-- After `put`, the key leads to the new bytes and any other to what it did.
pub lookup-put :
    (items : List LeafItem) (x : LeafItem) (k : Key)
    → lookup items x.key ≡ none
    → lookup (put x items) k ≡ (if is_eq (cmp x.key k) then some x.bytes else lookup items k)
unfolding put
lookup-put [] x k h = refl
lookup-put (y ∷ ys) x k h = ground (arith, lookup-put ys x k, both_eq y.key x.key k)

Above-without : (items : List LeafItem) (k l : Key) → Above l items → Above l (without k items)
unfolding without
Above-without [] k l v = tt
Above-without (y ∷ ys) k l v = ground (arith, Above-without ys k l)

Above-reset :
    (items : List LeafItem) (k l : Key) (b : List ℕ) → Above l items → Above l (reset k b items)
unfolding reset
Above-reset [] k l b v = tt
Above-reset (y ∷ ys) k l b v = ground (arith, Above-reset ys k l b)

pub without-IsSorted :
    (items : List LeafItem) (k : Key) → IsSorted items → IsSorted (without k items)
unfolding without
without-IsSorted [] k v = tt
without-IsSorted (y ∷ ys) k v = ground (arith, without-IsSorted ys k, Above-without ys k y.key)

pub reset-IsSorted :
    (items : List LeafItem) (k : Key) (b : List ℕ) → IsSorted items → IsSorted (reset k b items)
unfolding reset
reset-IsSorted [] k b v = tt
reset-IsSorted (y ∷ ys) k b v = ground (arith, reset-IsSorted ys k b, Above-reset ys k y.key b)

eq_of_is_eq : (o : Ordering) → is_eq o ≡ true → o ≡ Ordering.eq
eq_of_is_eq o h = ground arith

cmp_sym : (a b : Key) → is_eq (cmp a b) ≡ is_eq (cmp b a)
unfolding cmp
cmp_sym a b = ground arith

-- No later item has the key of the first.
lookup-tail :
    (ys : List LeafItem) (k l : Key) → Above k ys → is_eq (cmp k l) ≡ true → lookup ys l ≡ none
lookup-tail ys k l v h = rw (← is_eq-eq k l h) (lookup-Above ys k v)

same_is_eq : (a b l : Key) → cmp a b ≡ Ordering.eq → is_eq (cmp a l) ≡ is_eq (cmp b l)
same_is_eq a b l h = ap (λ x. is_eq (cmp x l)) (cmp-eq a b h)

pub lookup-without :
    (items : List LeafItem) (k l : Key)
    → IsSorted items
    → lookup (without k items) l ≡ (if is_eq (cmp k l) then none else lookup items l)
unfolding without
lookup-without [] k l v = ground arith
lookup-without (y ∷ ys) k l v = ground (
  arith,
  lookup-without ys k l,
  both_eq y.key k l,
  same_is_eq y.key k l,
  lookup-tail ys y.key l,
  lookup-tail (y ∷ ys) k l,
  Above-below ys y.key k,
  cmp-gt y.key k,
)

pub lookup-reset :
    (items : List LeafItem) (k l : Key) (b : List ℕ) (old : List ℕ)
    → IsSorted items
    → lookup items k ≡ some old
    → lookup (reset k b items) l ≡ (if is_eq (cmp k l) then some b else lookup items l)
unfolding reset
lookup-reset [] k l b old v h = cc
lookup-reset (y ∷ ys) k l b old v h = ground (
  arith,
  lookup-reset ys k l b old,
  both_eq y.key k l,
  same_is_eq y.key k l,
  lookup-tail (y ∷ ys) k k,
  cmp_self k,
  Above-below ys y.key k,
  cmp-gt y.key k,
)

-- The room that one more item takes.
pub used-put :
    (items : List LeafItem) (x : LeafItem)
    → (length (put x items) ≡ length items + 1)
      × (sum_bytes (put x items) ≡ sum_bytes items + length x.bytes)
unfolding put
used-put [] x = omega arith
used-put (y ∷ ys) x = ground (arith, used-put ys x)

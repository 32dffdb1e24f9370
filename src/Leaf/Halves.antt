-- ===== src/Leaf/Halves.antt =====
-- Splitting a leaf loses no item: below the pivot the left half answers, and from it on the right.
use luks_android.Prelude.{
  ℕ, zero, suc, ◌+◌, ◌/◌, ◌≤◌, ◌<◌, ◌≡◌, refl, ◌∙◌, ap, sym, arith, true, List, [], ◌∷◌, ◌++◌,
  length, take, drop, inl, inr, if◌then◌else◌, Bool-cases, ge→ltb, length-append, length-take,
}
use mathlib.Core.Path.{subst}
use luks_android.Error.{ok}
use luks_android.Tree.{Key, cmp, is_eq, is_lt}
use luks_android.Tree.Order.{lt_of_is_lt}
use luks_android.Leaf.{LeafItem, Leaf, halves, split}
use luks_android.Leaf.Items.{IsSorted, Above, lookup, lookup-Above, Above-below, is_eq-eq}
use luks_android.Leaf.Refine.{view}

take-drop : (n : ℕ) (xs : List LeafItem) → take n xs ++ drop n xs ≡ xs
take-drop zero xs = refl
take-drop (suc n) [] = refl
take-drop (suc n) (x ∷ xs) = ap (λ ys. x ∷ ys) (take-drop n xs)

Above-left : (k : Key) (xs ys : List LeafItem) → Above k (xs ++ ys) → Above k xs
Above-left k [] ys v = tt
Above-left k (x ∷ xs) ys v = (v.0, Above-left k xs ys v.1)

Above-right : (k : Key) (xs ys : List LeafItem) → Above k (xs ++ ys) → Above k ys
Above-right k [] ys v = v
Above-right k (x ∷ xs) ys v = Above-right k xs ys v.1

IsSorted-left : (xs ys : List LeafItem) → IsSorted (xs ++ ys) → IsSorted xs
IsSorted-left [] ys v = tt
IsSorted-left (x ∷ xs) ys v = (Above-left x.key xs ys v.0, IsSorted-left xs ys v.1)

IsSorted-right : (xs ys : List LeafItem) → IsSorted (xs ++ ys) → IsSorted ys
IsSorted-right [] ys v = v
IsSorted-right (x ∷ xs) ys v = IsSorted-right xs ys v.1

-- An item in front of the pivot has a smaller key.
front_lt :
    (x : LeafItem) (xs : List LeafItem) (y : LeafItem) (ys : List LeafItem) (k : Key)
    → IsSorted (x ∷ (xs ++ (y ∷ ys)))
    → is_eq (cmp x.key k) ≡ true
    → is_lt (cmp k y.key) ≡ true
front_lt x xs y ys k v h =
    rw (← is_eq-eq x.key k h) (ap is_lt (Above-right x.key xs (y ∷ ys) v.0).0)

lookup-halves :
    (xs : List LeafItem) (y : LeafItem) (ys : List LeafItem) (k : Key)
    → IsSorted (xs ++ (y ∷ ys))
    → lookup (xs ++ (y ∷ ys)) k ≡ (if is_lt (cmp k y.key) then lookup xs k else lookup (y ∷ ys) k)
lookup-halves [] y ys k v = elim (Bool-cases (is_lt (cmp k y.key))) [
  | inl e ↦
      rw e (lookup-Above (y ∷ ys) k (lt_of_is_lt _ e, Above-below ys y.key k (lt_of_is_lt _ e) v.0))
  | inr e ↦ rw e
]
lookup-halves (x ∷ xs) y ys k v = ground (arith, lookup-halves xs y ys k, front_lt x xs y ys k)

-- The two halves of a leaf.
pub record IsSplit (leaf left right : Leaf) (pivot : Key) : Type 0 where
  pub same_items : left.items ++ right.items ≡ leaf.items
  pub left_items : 0 < length left.items
  pub right_items : 0 < length right.items
  pub left_in_order : IsSorted left.items
  pub right_in_order : IsSorted right.items
  pub same_view :
      (k : Key) → view leaf k ≡ (if is_lt (cmp k pivot) then view left k else view right k)

halves-IsSplit :
    (leaf : Leaf) (at : ℕ) (xs ys : List LeafItem)
    → IsSorted leaf.items
    → xs ++ ys ≡ leaf.items
    → 0 < length xs
    → 0 < length ys
    → (left right : Leaf) × (pivot : Key) × (halves leaf at xs ys ≡ ok (left, right, pivot))
      × IsSplit leaf left right pivot
halves-IsSplit leaf at xs [] v e p q = absurd (omega arith)
halves-IsSplit leaf at xs (y ∷ ys) v e p q = (
  record leaf { items = xs },
  record leaf { bytenr = at; items = y ∷ ys },
  y.key,
  refl,
  record {
    same_items = e;
    left_items = p;
    right_items = q;
    left_in_order = IsSorted-left xs (y ∷ ys) whole;
    right_in_order = IsSorted-right xs (y ∷ ys) whole;
    same_view = λ k. ap (λ items. lookup items k) (sym e) ∙ lookup-halves xs y ys k whole;
  },
)
  where
    whole : IsSorted (xs ++ (y ∷ ys))
    whole = subst IsSorted (sym e) v

-- Splitting a leaf of two items or more, in order, gives two leaves that are not empty and in order,
-- whose items are those of the leaf; keys below the pivot are found in the left one, others in the
-- right one, as they were in the leaf.
pub split_lem :
    (leaf : Leaf) (at : ℕ)
    → IsSorted leaf.items
    → 2 ≤ length leaf.items
    → (left right : Leaf) × (pivot : Key) × (split leaf at ≡ ok (left, right, pivot))
      × IsSplit leaf left right pivot
unfolding split
split_lem leaf at v h = rw (ge→ltb (length leaf.items) 2 h) (
    halves-IsSplit leaf at (take (length leaf.items / 2) leaf.items)
      (drop (length leaf.items / 2) leaf.items) v (take-drop (length leaf.items / 2) leaf.items)
      (omega (arith, front)) (omega (arith, front, whole)))
  where
    front : length (take (length leaf.items / 2) leaf.items) ≡ length leaf.items / 2
    front = length-take (length leaf.items / 2) leaf.items (omega arith)

    whole :
        length (take (length leaf.items / 2) leaf.items)
          + length (drop (length leaf.items / 2) leaf.items)
        ≡ length leaf.items
    whole =
        sym (
          length-append (take (length leaf.items / 2) leaf.items)
            (drop (length leaf.items / 2) leaf.items))
        ∙ ap length (take-drop (length leaf.items / 2) leaf.items)

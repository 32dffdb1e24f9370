-- ===== src/Interior/Place.antt =====
-- core/src/fs/btrfs/write/node.rs: where an interior node puts a new entry.
use mathlib.Core.Path.{subst}
use Prim.Native.Nat.{Ordering}
use luks_android.Prelude.{
  ℕ, zero, suc, ◌+◌, ◌-◌, ◌*◌, ◌≤◌, ◌<◌, ◌≡◌, ◌⊎◌, inl, inr, refl, sym, ap, Bool-cases, ltb, ltb→lt,
  ltb→ge, List, [], ◌∷◌, ◌++◌, length, take, drop, All, arith,
}
use luks_android.Prelude.Search.{Search, found, missing, next_index, search_by}
use luks_android.Error.{Result, ok, err, filesystem_full}
use luks_android.Tree.{Key, cmp, header_size, key_ptr_size}
use luks_android.Tree.Order.{◌<ₖ◌, cmp-eq, cmp-gt, key_trans}
use luks_android.Interior.{InteriorEntry, InteriorNode, index_of, search_entry, insert_entry}

-- Keys ascend, and no two are equal.
abbrev pub IsSorted : List InteriorEntry → Type 0
IsSorted [] = Unit {0}
IsSorted (e ∷ es) = All (λ x. e.key <ₖ x.key) es × IsSorted es

abbrev pub Below : Key → List InteriorEntry → Type 0
Below k es = All (λ x. x.key <ₖ k) es

abbrev pub From : Key → List InteriorEntry → Type 0
From k es = All (λ x. (x.key ≡ k) ⊎ (k <ₖ x.key)) es

index_of-next : (s : Search) → index_of (next_index s) ≡ suc (index_of s)
index_of-next (found i) = refl
index_of-next (missing i) = refl

above_From :
    (k l : Key) (es : List InteriorEntry)
    → (l ≡ k) ⊎ (k <ₖ l)
    → All (λ x. l <ₖ x.key) es
    → From k es
above_From k l [] h v = tt
above_From k l (e ∷ es) (inl q) (v, w) =
    (inr (subst (λ k. k <ₖ e.key) q v), above_From k l es (inl q) w)
above_From k l (e ∷ es) (inr q) (v, w) =
    (inr (key_trans k l e.key q v), above_From k l es (inr q) w)

abbrev Around : Key → List InteriorEntry → ℕ → Type 0
Around k es i = Below k (take i es) × From k (drop i es)

-- The search by what the comparison with the first entry says.
abbrev step : Ordering → Search → Search
step Ordering.lt rest = next_index rest
step Ordering.eq rest = found 0
step Ordering.gt rest = missing 0

search_step :
    (e : InteriorEntry) (es : List InteriorEntry) (k : Key)
    → search_entry (e ∷ es) k ≡ step (cmp e.key k) (search_entry es k)
unfolding search_by
search_step e es k = go (cmp e.key k) refl
  where
    go : (o : Ordering) → cmp e.key k ≡ o → search_entry (e ∷ es) k ≡ step o (search_entry es k)
    go Ordering.lt h = rw (search_by, h) refl
    go Ordering.eq h = rw (search_by, h) refl
    go Ordering.gt h = rw (search_by, h) refl

place :
    (es : List InteriorEntry) (k : Key) → IsSorted es → Around k es (index_of (search_entry es k))
unfolding search_by
place [] k v = (tt, tt)
place (e ∷ es) k (v, w) =
    subst (λ s. Around k (e ∷ es) (index_of s)) (sym (search_step e es k))
      (go (cmp e.key k) refl (place es k w))
  where
    go :
        (o : Ordering)
        → cmp e.key k ≡ o
        → Around k es (index_of (search_entry es k))
        → Around k (e ∷ es) (index_of (step o (search_entry es k)))
    go Ordering.lt h (front, back) =
        subst (Around k (e ∷ es)) (sym (index_of-next (search_entry es k))) ((h, front), back)
    go Ordering.eq h rec =
        (tt, (inl (cmp-eq e.key k h), above_From k e.key es (inl (cmp-eq e.key k h)) v))
    go Ordering.gt h rec =
        (tt, (inr (cmp-gt e.key k h), above_From k e.key es (inr (cmp-gt e.key k h)) v))

take-drop : (n : ℕ) (xs : List InteriorEntry) → take n xs ++ drop n xs ≡ xs
take-drop zero xs = refl
take-drop (suc n) [] = refl
take-drop (suc n) (x ∷ xs) = ap (λ ys. x ∷ ys) (take-drop n xs)

-- A new entry in its place: behind the entries with smaller keys, in front of all others.
pub record Placed (k : Key) (blockptr generation : ℕ) (before after : List InteriorEntry)
    : Type 0 where
  pub lower : List InteriorEntry
  pub upper : List InteriorEntry
  pub was : before ≡ lower ++ upper
  pub is :
      after ≡ lower ++ (record { key = k; blockptr = blockptr; generation = generation } ∷ upper)
  pub smaller : Below k lower
  pub others : From k upper

-- What `insert_entry` may answer: the entry in its place, with nothing else changed and the node not
-- over its size; or there is no room for one entry more.
abbrev pub Inserted : InteriorNode → Key → ℕ → ℕ → ℕ → Result InteriorNode → Type 0
Inserted node k blockptr generation size (ok after) =
    Placed k blockptr generation node.entries after.entries
    × (record after { entries = node.entries } ≡ node)
    × (header_size + suc (length node.entries) * key_ptr_size ≤ size)
Inserted node k blockptr generation size (err e) =
    (e ≡ filesystem_full) × (size < header_size + suc (length node.entries) * key_ptr_size)

-- Inserting into an interior node whose keys ascend either puts the entry behind those with smaller
-- keys and in front of the others, with nothing else changed and the node not over its size; or the
-- node has no room for one entry more, and this is refused.
pub insert_entry_lem :
    (node : InteriorNode) (k : Key) (blockptr generation size : ℕ)
    → IsSorted node.entries
    → Inserted node k blockptr generation size (insert_entry node k blockptr generation size)
unfolding insert_entry
insert_entry_lem node k blockptr generation size v =
    elim (Bool-cases
      (ltb (size - (header_size + length node.entries * key_ptr_size)) key_ptr_size)) [
        | inl full ↦ rw full (refl, omega (arith, ltb→lt _ _ full))
        | inr room ↦ rw room (
          record {
            lower = take at node.entries;
            upper = drop at node.entries;
            was = sym (take-drop at node.entries);
            is = refl;
            smaller = (place node.entries k v).0;
            others = (place node.entries k v).1;
          },
          refl,
          omega (arith, ltb→ge _ _ room),
        )
      ]
  where
    at : ℕ
    at = index_of (search_entry node.entries k)

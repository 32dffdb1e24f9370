-- ===== src/Prelude/Search.antt =====
-- Binary search in the standard library's sorted vectors.
use Prim.Native.Nat.{ℕ, suc, Ordering}
use mathlib.Core.List.{List, [], ◌∷◌}

-- `Result<usize, usize>`: the index of a match, or the index at which it would stand.
pub data Search : Type 0 where
  found : ℕ → Search
  missing : ℕ → Search

abbrev pub next_index : Search → Search
next_index (found i) = found (suc i)
next_index (missing i) = missing (suc i)

-- What `binary_search_by(f)` answers on a vector without two matches that is sorted by `f`.
unfoldable pub search_by {ℓ} : {A : Type ℓ} → (A → Ordering) → List A → Search
search_by f [] = missing 0
search_by f (x ∷ xs) =
    let rest = next_index (search_by f xs) in
    elim (f x) [ Ordering.lt ↦ rest | Ordering.eq ↦ found 0 | Ordering.gt ↦ missing 0 ]

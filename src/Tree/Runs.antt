-- ===== src/Tree/Runs.antt =====
-- A node with two children.
use luks_android.Prelude.{ℕ, zero, suc, ◌≡◌, refl, arith, List, ◌∷◌, ◌++◌}
use luks_android.Prelude.Bytes.{zeros, to_le}
use luks_android.Error.{ok}
use luks_android.Tree.{Key, Node, cmp, lower_bound, bound_from, child_for, key}
use luks_android.Tree.Bound.{IsAscending, IsBound, lower_bound_lem}

abbrev pointer : ℕ → ℕ → List ℕ
pointer objectid block = to_le 8 objectid ++ (1 ∷ (to_le 8 0 ++ (to_le 8 block ++ to_le 8 7)))

abbrev inner : Node
inner = record {
  raw = zeros 101 ++ (pointer 256 4096 ++ pointer 300 8192);
  level = 1;
  nr_items = 2;
  owner = 5;
  generation = 7;
}

abbrev inode_key : ℕ → Key
inode_key n = record { objectid = n; item_type = 1; offset = 0 }

inner-IsAscending : IsAscending inner
unfolding cmp
inner-IsAscending zero (suc zero) h l = refl
inner-IsAscending zero zero h l = absurd (omega arith)
inner-IsAscending i (suc (suc j)) h l = absurd (omega arith)
inner-IsAscending (suc i) zero h l = absurd (omega arith)
inner-IsAscending (suc i) (suc zero) h l = absurd (omega arith)

between_goes_left : child_for inner (inode_key 299) ≡ ok 0
unfolding child_for lower_bound bound_from key cmp
between_goes_left = refl

lower_bound_lem_example :
    (b : ℕ) × (lower_bound inner (inode_key 300) ≡ ok b) × IsBound inner (inode_key 300) b
lower_bound_lem_example = lower_bound_lem inner (inode_key 300) inner-IsAscending

-- ===== src/IntervalSet/Tests.antt =====
-- Runs of the interval set, and its theorems at concrete sets.
use luks_android.Prelude.{ℕ, ◌≤◌, ◌≡◌, refl, arith, true, false}
use luks_android.Prelude.{[], ◌∷◌, ◌||◌, ◌⊎◌}
use luks_android.Prelude.Words.{IsU64, u64_mod}
use luks_android.IntervalSet.{IntervalSet, insert, insert_range, insert_with}
use luks_android.IntervalSet.{merge_prev, merge_next, cut, remove, remove_range}
use luks_android.IntervalSet.{contains_range, remove_exact}
use luks_android.IntervalSet.Laws.{covers}
use luks_android.IntervalSet.Insert.{IsValid, in_range, insert_lem}
use luks_android.IntervalSet.Canonical.{remove_exact-insert}

abbrev two : IntervalSet
two = record { intervals = (100, 150) ∷ (200, 250) ∷ [] }

two-IsValid : IsValid two
two-IsValid = omega arith

-- The gap is filled and the three intervals are merged.
insert_merges : insert two 150 50 ≡ (record { intervals = (100, 250) ∷ [] }, true)
unfolding insert insert_range insert_with merge_prev merge_next
insert_merges = refl

insert_refuses : insert two 140 20 ≡ (two, false)
unfolding insert insert_range insert_with merge_prev merge_next
insert_refuses = refl

remove_splits : remove two 110 10 ≡ record { intervals = (100, 110) ∷ (120, 150) ∷ (200, 250) ∷ [] }
unfolding remove remove_range cut
remove_splits = refl

remove_exact_once : remove_exact two 180 10 ≡ (two, false)
unfolding remove_exact contains_range
remove_exact_once = refl

insert_lem_example :
    ((insert two 150 50).1 ≡ true)
      × IsU64 200
      × ((a : ℕ) → in_range 150 50 a ≡ true → covers two.intervals a ≡ false)
      × ((a : ℕ)
          → covers (insert two 150 50).0.intervals a
            ≡ (in_range 150 50 a || covers two.intervals a))
    ⊎ (insert two 150 50 ≡ (two, false))
      × ((u64_mod ≤ 200) ⊎ ((a : ℕ) × (in_range 150 50 a ≡ true) × (covers two.intervals a ≡ true)))
insert_lem_example = insert_lem two 150 49 two-IsValid

remove_exact-insert_example : remove_exact (insert two 150 50).0 150 50 ≡ (two, true)
remove_exact-insert_example = remove_exact-insert two 150 49 two-IsValid done
  where
    done : (insert two 150 50).1 ≡ true
    done = unfold insert insert_range insert_with merge_prev merge_next in refl

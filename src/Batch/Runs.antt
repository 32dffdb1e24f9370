-- ===== src/Batch/Runs.antt =====
-- core/src/fs/btrfs/write/batch.rs: runs.
use luks_android.Prelude.{ℕ, ◌+◌, ◌≤◌, ◌≡◌, ◌⊎◌, refl, true, List, [], ◌∷◌, none, arith}
use luks_android.Prelude.Words.{u64_mod}
use luks_android.Error.{ok, err, corrupt_fs}
use luks_android.IntervalSet.{
  IntervalSet, insert, remove_exact, empty, insert_range, insert_with, merge_prev, merge_next,
  remove, remove_range, cut, contains_range,
}
use luks_android.IntervalSet.Laws.{covers}
use luks_android.IntervalSet.Insert.{in_range}
use luks_android.Batch.{Batch, mark, rollback, should_commit, record_allocation, release_allocation}
use luks_android.Batch.Ledger.{
  hand_out, give_back, Change, held, handed, given, apply_all, record_allocation_lem, apply_all_lem,
}

abbrev with_ledger : IntervalSet → Batch (Unit {0})
with_ledger set = record {
  generation = 7;
  allocator = record { block_groups = [] };
  fs_root = (4096, 0);
  csum_root = none;
  pending_blocks = [];
  pending_nodes = [];
  blocks_to_add = [];
  blocks_to_remove = [];
  data_extents_to_add = [];
  target = none;
  next_dir_index = [];
  parents = [];
  handed_out = set;
  accumulated_files = 0;
  accumulated_data_bytes = 0;
  start_time = 0;
}

abbrev some_handed_out : IntervalSet
some_handed_out = record { intervals = (4096, 12288) ∷ [] }

refused :
    (record_allocation (with_ledger some_handed_out) 8192 4096).1
    ≡ err (corrupt_fs "double allocation detected in batch allocation ledger")
unfolding record_allocation insert insert_range insert_with merge_prev merge_next
refused = refl

record_allocation_lem_example :
    ((record_allocation (with_ledger some_handed_out) 8192 4096).0 ≡ with_ledger some_handed_out)
    × ((u64_mod ≤ 8192 + 4096)
        ⊎ ((a : ℕ) × (in_range 8192 4096 a ≡ true) × (covers some_handed_out.intervals a ≡ true)))
record_allocation_lem_example =
    record_allocation_lem (with_ledger some_handed_out) 8192 4095
      (corrupt_fs "double allocation detected in batch allocation ledger")
      (omega arith, omega arith, omega arith, tt) refused

abbrev changes : List Change
changes = hand_out 16384 4096 ∷ give_back 4096 4096 ∷ hand_out 4096 4096 ∷ []

accepted : (apply_all (with_ledger some_handed_out) changes).1 ≡ ok tt
unfolding record_allocation release_allocation insert insert_range insert_with merge_prev merge_next
    remove_exact remove remove_range cut contains_range
accepted = refl

apply_all_lem_example :
    held some_handed_out 5000 + handed changes 5000
    ≡ held (apply_all (with_ledger some_handed_out) changes).0.handed_out 5000 + given changes 5000
apply_all_lem_example =
    apply_all_lem changes (with_ledger some_handed_out) 5000
      (omega arith, omega arith, omega arith, tt)
      (omega arith, ((omega arith, omega arith), (omega arith, tt))) accepted

-- A file that fails leaves nothing behind.
rolled_back :
    rollback (record_allocation (with_ledger empty) 4096 4096).0 (mark (with_ledger empty))
    ≡ with_ledger empty
unfolding rollback mark record_allocation insert insert_range insert_with merge_prev merge_next
rolled_back = refl

files_commit : should_commit (record (with_ledger empty) { accumulated_files = 16 }) 0 ≡ true
unfolding should_commit
files_commit = refl

-- ===== src/Batch.antt =====
-- core/src/fs/btrfs/write/batch.rs: the state of a batch of writes, its marks, and the ledger of the
-- ranges that it has handed out.
pub mod Ledger
mod Runs
use luks_android.Prelude.{
  if◌then◌else◌, ℕ, ◌+◌, ◌*◌, ◌||◌, not, ltb, leb, Bool, true, false, List, [], ◌∷◌, length, Option,
}
use luks_android.Error.{Result, ok, err, corrupt_fs, LuksError}
use luks_android.Tree.{Node}
use luks_android.Alloc.{FreeSpaceMap}
use luks_android.IntervalSet.{IntervalSet, insert, remove_exact}

-- A map is a list of its entries. `Target` is the type of target.rs, with the next inode number.
pub record FileMark (Target : Type 0) : Type 0 where
  pub allocator : FreeSpaceMap
  pub fs_root : ℕ × ℕ
  pub csum_root : Option (ℕ × ℕ)
  pub pending_blocks : List (ℕ × List ℕ)
  pub blocks_to_add : List (ℕ × ℕ × ℕ)
  pub blocks_to_remove : List (ℕ × ℕ × ℕ)
  pub data_extents_to_add : List (ℕ × ℕ × ℕ × ℕ × ℕ)
  pub target : Option (Target × ℕ)
  pub next_dir_index : List (ℕ × ℕ)
  pub parents : List (List ℕ × ℕ × ℕ × ℕ)
  pub handed_out : IntervalSet
  pub accumulated_files : ℕ
  pub accumulated_data_bytes : ℕ

pub record Batch (Target : Type 0) : Type 0 where
  pub generation : ℕ
  pub allocator : FreeSpaceMap
  pub fs_root : ℕ × ℕ
  pub csum_root : Option (ℕ × ℕ)
  pub pending_blocks : List (ℕ × List ℕ)
  pub pending_nodes : List (ℕ × ℕ × Node)
  pub blocks_to_add : List (ℕ × ℕ × ℕ)
  pub blocks_to_remove : List (ℕ × ℕ × ℕ)
  pub data_extents_to_add : List (ℕ × ℕ × ℕ × ℕ × ℕ)
  pub target : Option (Target × ℕ)
  pub next_dir_index : List (ℕ × ℕ)
  pub parents : List (List ℕ × ℕ × ℕ × ℕ)
  pub handed_out : IntervalSet
  pub accumulated_files : ℕ
  pub accumulated_data_bytes : ℕ
  pub start_time : ℕ

abbrev is_empty {ℓ} : {A : Type ℓ} → List A → Bool
is_empty [] = true
is_empty (x ∷ xs) = false

abbrev pub total_bytes : List (ℕ × List ℕ) → ℕ
total_bytes [] = 0
total_bytes (x ∷ xs) = length x.1 + total_bytes xs

module _ {Target : Type 0} where
  unfoldable pub mark : Batch Target → FileMark Target
  mark b = record {
    allocator = b.allocator;
    fs_root = b.fs_root;
    csum_root = b.csum_root;
    pending_blocks = b.pending_blocks;
    blocks_to_add = b.blocks_to_add;
    blocks_to_remove = b.blocks_to_remove;
    data_extents_to_add = b.data_extents_to_add;
    target = b.target;
    next_dir_index = b.next_dir_index;
    parents = b.parents;
    handed_out = b.handed_out;
    accumulated_files = b.accumulated_files;
    accumulated_data_bytes = b.accumulated_data_bytes;
  }

  unfoldable pub rollback : Batch Target → FileMark Target → Batch Target
  rollback b m = record b {
    allocator = m.allocator;
    fs_root = m.fs_root;
    csum_root = m.csum_root;
    pending_blocks = m.pending_blocks;
    pending_nodes = [];
    blocks_to_add = m.blocks_to_add;
    blocks_to_remove = m.blocks_to_remove;
    data_extents_to_add = m.data_extents_to_add;
    target = m.target;
    next_dir_index = m.next_dir_index;
    parents = m.parents;
    handed_out = m.handed_out;
    accumulated_files = m.accumulated_files;
    accumulated_data_bytes = m.accumulated_data_bytes;
  }

  pub has_uncommitted_files : Batch Target → Bool
  has_uncommitted_files b =
      ltb 0 b.accumulated_files
      || (not (is_empty b.pending_blocks)
          || (not (is_empty b.blocks_to_add)
              || (not (is_empty b.blocks_to_remove) || not (is_empty b.data_extents_to_add))))

  -- `elapsed` is the time since `start_time`, in milliseconds.
  unfoldable pub should_commit : Batch Target → (elapsed : ℕ) → Bool
  should_commit b elapsed =
      leb 16 b.accumulated_files
      || (leb (8 * 1024 * 1024) (total_bytes b.pending_blocks)
          || (leb (64 * 1024 * 1024) b.accumulated_data_bytes || leb 2000 elapsed))

  -- What a change of the ledger leaves: the batch, and how it ended.
  abbrev pub ledger_changed :
      Batch Target → LuksError → IntervalSet × Bool → Batch Target × Result (Unit {0})
  ledger_changed b e (set, true) = (record b { handed_out = set }, ok tt)
  ledger_changed b e (set, false) = (record b { handed_out = set }, err e)

  unfoldable pub record_allocation :
      Batch Target → (start len : ℕ) → Batch Target × Result (Unit {0})
  record_allocation b start len =
      ledger_changed b (corrupt_fs "double allocation detected in batch allocation ledger")
        (insert b.handed_out start len)

  unfoldable pub release_allocation :
      Batch Target → (start len : ℕ) → Batch Target × Result (Unit {0})
  release_allocation b start len =
      ledger_changed b
        (corrupt_fs "attempted to release allocation not present in reservation ledger")
        (remove_exact b.handed_out start len)

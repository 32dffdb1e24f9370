-- ===== src/Ext4/Runs.antt =====
-- core/src/fs/ext4/dirent.rs: runs.
use luks_android.Prelude.{ℕ, ◌≡◌, refl, List, [], ◌∷◌, ◌++◌, length, drop, some, arith, false}
use luks_android.Prelude.Bytes.{same_bytes}
use luks_android.Error.{err, corrupt_fs}
use luks_android.Inode.{regular}
use luks_android.Ext4.{
  record_len, new_record, type_code, validate_name, in_use, place_record, insert_from,
  insert_into_block, find_from, find_in_block,
}
use luks_android.Ext4.Live.{Entry, live}
use luks_android.Ext4.Insert.{insert_into_block_lem}
use luks_android.Ext4.Find.{find_in_block-insert_into_block}

abbrev dot : List ℕ
dot = 46 ∷ []

abbrev dot_dot : List ℕ
dot_dot = 46 ∷ 46 ∷ []

abbrev a : List ℕ
a = 97 ∷ []

-- The records of a new directory, the last one up to the end of the block.
abbrev block : List ℕ
block = new_record 11 12 2 dot ++ new_record 2 36 2 dot_dot

-- The record of `..` is cut, and the new one has what is left.
abbrev with_a : List ℕ
with_a = new_record 11 12 2 dot ++ (new_record 2 12 2 dot_dot ++ new_record 30 24 1 a)

inserted : insert_into_block a 30 regular (record_len 1) 48 block ≡ some with_a
unfolding insert_into_block insert_from place_record in_use record_len new_record type_code
inserted = refl

insert_into_block_lem_example :
    (before after : List Entry) × (live 48 block ≡ before ++ after)
    × (live 48 with_a ≡ before ++ (record { ino = 30; code = type_code regular; name = a } ∷ after))
    × (length with_a ≡ length block)
    × (drop 48 with_a ≡ drop 48 block)
unfolding new_record
insert_into_block_lem_example =
    insert_into_block_lem a 30 regular (omega arith) (omega arith) (omega arith) 48 block with_a
      inserted (omega arith) (omega arith)

-- The tail with the checksum: a record that is not in use.
abbrev tail : List ℕ
tail = 0 ∷ 0 ∷ 0 ∷ 0 ∷ 12 ∷ 0 ∷ 0 ∷ 222 ∷ 1 ∷ 2 ∷ 3 ∷ 4 ∷ []

inserted_before_tail :
    insert_into_block a 30 regular (record_len 1) 48 (block ++ tail) ≡ some (with_a ++ tail)
unfolding insert_into_block insert_from place_record in_use record_len new_record type_code
inserted_before_tail = refl

find_in_block-insert_into_block_example :
    (find_in_block a (with_a ++ tail) ≡ some 30)
    × ((other : List ℕ)
        → same_bytes a other ≡ false
        → find_in_block other (with_a ++ tail) ≡ find_in_block other (block ++ tail))
unfolding new_record find_from
find_in_block-insert_into_block_example =
    find_in_block-insert_into_block a 30 regular 48 (block ++ tail) (with_a ++ tail) (omega arith)
      (omega arith) (omega arith) inserted_before_tail (omega arith) (omega arith) refl

no_slash : validate_name (97 ∷ 47 ∷ []) ≡ err (corrupt_fs "directory entry name characters")
unfolding validate_name
no_slash = refl

again :
    insert_into_block a 30 regular (record_len 1) 48 with_a
    ≡ some (
        new_record 11 12 2 dot
        ++ (new_record 2 12 2 dot_dot ++ (new_record 30 12 1 a ++ new_record 30 12 1 a)))
unfolding insert_into_block insert_from place_record in_use record_len new_record type_code
again = refl

-- ===== src/Inode/Runs.antt =====
-- core/src/fs/btrfs/inode.rs: runs.
use luks_android.Prelude.{◌≡◌, refl, List, [], ◌∷◌, arith, map}
use luks_android.Prelude.Words.{pos}
use luks_android.Error.{ok, err, corrupt_fs}
use luks_android.Inode.{
  parse, build_empty_inode_item, parse_dir_entries, entries_from, mode_to_type, regular,
}
use luks_android.Inode.RoundTrip.{
  NewEntry, packed, entry_of, parse-build_empty_inode_item, parse_dir_entries-build,
}

parse-build_empty_inode_item_example :
    parse 300 (build_empty_inode_item 9 33188 1000 1000 1 1700000000 5)
    ≡ ok (record {
      objectid = 300;
      size = 0;
      nbytes = 0;
      nlink = 1;
      uid = 1000;
      gid = 1000;
      mode = 33188;
      rdev = 0;
      flags = 0;
      atime = pos 1700000000;
      ctime = pos 1700000000;
      mtime = pos 1700000000;
    })
parse-build_empty_inode_item_example =
    parse-build_empty_inode_item 300 9 33188 1000 1000 1 1700000000 5 (omega arith) (omega arith)
      (omega arith) (omega arith) (omega arith)

mode_to_type_run : mode_to_type 33188 ≡ regular
unfolding mode_to_type
mode_to_type_run = refl

-- Two names under one hash.
abbrev colliding : List NewEntry
colliding =
    record { child_ino = 300; transid = 9; file_type = 1; name = 97 ∷ 98 ∷ [] }
    ∷ record { child_ino = 301; transid = 9; file_type = 2; name = 99 ∷ [] }
    ∷ []

parse_dir_entries-build_example : parse_dir_entries (packed colliding) ≡ ok (map entry_of colliding)
parse_dir_entries-build_example =
    parse_dir_entries-build colliding
      ((omega arith, omega arith, omega arith), ((omega arith, omega arith, omega arith), tt))

truncated_run : parse_dir_entries (1 ∷ 2 ∷ []) ≡ err (corrupt_fs "btrfs directory entry truncated")
unfolding parse_dir_entries entries_from
truncated_run = refl

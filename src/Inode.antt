-- ===== src/Inode.antt =====
-- core/src/fs/btrfs/inode.rs: inodes and directory entries, and the payloads that
-- core/src/fs/btrfs/write/node.rs builds for them.
pub mod RoundTrip
mod Runs
use luks_android.Prelude.{
  ℕ, zero, suc, ◌+◌, ◌%◌, ◌==◌, ltb, Bool, List, [], ◌∷◌, ◌++◌, length, drop, bit_and,
}
use luks_android.Prelude.{if◌then◌else◌}
use luks_android.Prelude.Words.{ℤ, as_i64}
use luks_android.Prelude.Bytes.{to_le, u16le, u32le, u64le, byte, slice, zeros}
use luks_android.Error.{Result, ok, err, corrupt_fs, ◌>>=◌, ◌>>◌, refuse_if}
use luks_android.Tree.{Key}

-- `FileType` of core/src/fs/mod.rs.
pub data FileType : Type 0 where
  regular directory symlink char_device block_device fifo socket unknown : FileType

pub record Inode : Type 0 where
  pub objectid : ℕ
  pub size : ℕ
  pub nbytes : ℕ
  pub nlink : ℕ
  pub uid : ℕ
  pub gid : ℕ
  pub mode : ℕ
  pub rdev : ℕ
  pub flags : ℕ
  pub atime : ℤ
  pub ctime : ℤ
  pub mtime : ℤ

abbrev pub inode_item_size : ℕ
inode_item_size = 160

unfoldable pub parse : ℕ → List ℕ → Result Inode
parse objectid data_bytes = do
  refuse_if (ltb (length data_bytes) inode_item_size) (corrupt_fs "btrfs inode item truncated")
  ok (record {
    objectid = objectid;
    size = u64le data_bytes 16;
    nbytes = u64le data_bytes 24;
    nlink = u32le data_bytes 40;
    uid = u32le data_bytes 44;
    gid = u32le data_bytes 48;
    mode = u32le data_bytes 52;
    rdev = u64le data_bytes 56;
    flags = u64le data_bytes 64;
    atime = as_i64 (u64le data_bytes 112);
    ctime = as_i64 (u64le data_bytes 124);
    mtime = as_i64 (u64le data_bytes 136);
  })

-- `match mode & 0xF000`
unfoldable pub mode_to_type : ℕ → FileType
mode_to_type mode =
    let format = bit_and mode 61440 in
    if format == 32768
    then regular
    else if format == 16384
    then directory
    else if format == 40960
    then symlink
    else if format == 8192
    then char_device
    else if format == 24576
    then block_device
    else if format == 4096
    then fifo
    else if format == 49152
    then socket
    else unknown

abbrev pub file_type : Inode → FileType
file_type i = mode_to_type i.mode

-- The `type` byte of a directory entry.
unfoldable pub dir_type_to_file_type : ℕ → FileType
dir_type_to_file_type raw =
    if raw == 1
    then regular
    else if raw == 2
    then directory
    else if raw == 3
    then char_device
    else if raw == 4
    then block_device
    else if raw == 5
    then fifo
    else if raw == 6
    then socket
    else if raw == 7
    then symlink
    else unknown

pub record DirEntryItem : Type 0 where
  pub name : List ℕ
  pub location : Key
  pub file_type : FileType

abbrev pub is_subvolume : DirEntryItem → Bool
is_subvolume e = e.location.item_type == 132

abbrev pub dir_item_head : ℕ
dir_item_head = 30

abbrev pub entry_at_front : List ℕ → DirEntryItem
entry_at_front b = record {
  name = slice b dir_item_head (u16le b 27);
  location = record { objectid = u64le b 0; item_type = byte b 8; offset = u64le b 9 };
  file_type = dir_type_to_file_type (byte b 29);
}

abbrev pub entry_total : List ℕ → ℕ
entry_total b = dir_item_head + u16le b 27 + u16le b 25

-- The loop over the bytes: each round takes 30 at least, so their number is fuel enough.
unfoldable pub entries_from : ℕ → List ℕ → Result (List DirEntryItem)
entries_from fuel [] = ok []
entries_from zero (c ∷ b) = err (corrupt_fs "out of fuel")
entries_from (suc fuel) (c ∷ b) = do
  refuse_if (ltb (length (c ∷ b)) dir_item_head) (corrupt_fs "btrfs directory entry truncated")
  refuse_if (ltb (length (c ∷ b)) (entry_total (c ∷ b)))
      (corrupt_fs "btrfs directory entry overruns")
  rest ← entries_from fuel (drop (entry_total (c ∷ b)) (c ∷ b))
  ok (entry_at_front (c ∷ b) ∷ rest)

unfoldable pub parse_dir_entries : List ℕ → Result (List DirEntryItem)
parse_dir_entries b = entries_from (length b) b

-- The four time stamps, of 12 bytes each.
abbrev pub time_stamp : (sec nsec : ℕ) → List ℕ
time_stamp sec nsec = to_le 8 sec ++ to_le 4 nsec

unfoldable pub build_empty_inode_item : (generation mode uid gid nlink sec nsec : ℕ) → List ℕ
build_empty_inode_item generation mode uid gid nlink sec nsec =
    to_le 8 generation
    ++ (to_le 8 generation
        ++ (to_le 8 0
            ++ (to_le 8 0
                ++ (to_le 8 0
                    ++ (to_le 4 nlink
                        ++ (to_le 4 uid
                            ++ (to_le 4 gid
                                ++ (to_le 4 mode
                                    ++ (to_le 8 0
                                        ++ (to_le 8 0
                                            ++ (to_le 8 1
                                                ++ (zeros 32
                                                    ++ (time_stamp sec nsec
                                                        ++ (time_stamp sec nsec
                                                            ++ (time_stamp sec nsec
                                                            ++ time_stamp sec nsec)))))))))))))))

unfoldable pub build_inode_ref : (dir_index : ℕ) → (name : List ℕ) → List ℕ
build_inode_ref dir_index name = to_le 8 dir_index ++ (to_le 2 (length name) ++ name)

unfoldable pub build_dir_item : (child_ino transid file_type : ℕ) → (name : List ℕ) → List ℕ
build_dir_item child_ino transid file_type name =
    to_le 8 child_ino
    ++ (1
        ∷ (to_le 8 0
            ++ (to_le 8 transid ++ (to_le 2 0 ++ (to_le 2 (length name) ++ (file_type ∷ name))))))

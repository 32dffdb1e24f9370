-- ===== src/FileExtent/Runs.antt =====
-- core/src/fs/btrfs/extent.rs: runs.
use luks_android.Prelude.{
  ℕ, ◌%◌, ◌≡◌, refl, List, [], ◌∷◌, ◌++◌, Bool, true, false, none, some, arith,
}
use luks_android.Prelude.Bytes.{to_le}
use luks_android.Prelude.Windows.{window, at_or}
use luks_android.Error.{Result, ok, err, out_of_bounds}
use luks_android.Tree.{Key, cmp}
use luks_android.Cursor.{CursorOps}
use luks_android.FileExtent.{
  FileExtent, ExtentKind, inline_kind, regular_kind, prealloc_kind, parse,
  build_regular_file_extent, parse-build_regular_file_extent,
}
use luks_android.FileExtent.Read.{
  covering, read_inode_data, extent_bytes, read_from, from_disk, decompress_extent,
}
use luks_android.FileExtent.Read.Walk.{Passes, no_more, one_before, one_extent, byte_at}
use luks_android.FileExtent.Read.Held.{held_by, of_zeros, of_disk, of_inline, of_compressed_disk}
use luks_android.FileExtent.Read.Serve.{read_inode_data_lem}

abbrev Items : Type 0
Items = List (Key × List ℕ)

abbrev some_left : Items → Bool
some_left [] = false
some_left (x ∷ xs) = true

abbrev first_key : Items → Result Key
first_key [] = err out_of_bounds
first_key (x ∷ xs) = ok x.0

abbrev first_contents : Items → Result (List ℕ)
first_contents [] = err out_of_bounds
first_contents (x ∷ xs) = ok x.1

abbrev others : Items → Result Items
others [] = ok []
others (x ∷ xs) = ok xs

-- A cursor over a list of items.
abbrev listed : CursorOps Items
listed = record { valid = some_left; key = first_key; contents = first_contents; advance = others }

-- File 257: its inode item, two bytes in the leaf, a gap of two, four bytes on the drive, a hole of two,
-- two that are not written yet, and four that are compressed to two on the drive.
abbrev extent_key : ℕ → Key
extent_key offset = record { objectid = 257; item_type = 108; offset = offset }

abbrev inline_item : List ℕ
inline_item = to_le 8 7 ++ (to_le 8 2 ++ (0 ∷ 0 ∷ 0 ∷ 0 ∷ 0 ∷ 65 ∷ 66 ∷ []))

abbrev extent_item : (kind compression ram_bytes disk_bytenr disk_num_bytes num_bytes : ℕ) → List ℕ
extent_item kind compression ram_bytes disk_bytenr disk_num_bytes num_bytes =
    to_le 8 7
    ++ (to_le 8 ram_bytes
        ++ ((compression ∷ 0 ∷ 0 ∷ 0 ∷ kind ∷ [])
            ++ (to_le 8 disk_bytenr
                ++ (to_le 8 disk_num_bytes ++ (to_le 8 0 ++ to_le 8 num_bytes)))))

abbrev items : Items
items =
    (record { objectid = 257; item_type = 12; offset = 256 }, [])
    ∷ (extent_key 0, inline_item)
    ∷ (extent_key 4, build_regular_file_extent 7 4 4096 4096 4)
    ∷ (extent_key 8, extent_item 1 0 2 0 0 2)
    ∷ (extent_key 10, extent_item 2 0 2 8192 4096 2)
    ∷ (extent_key 12, extent_item 1 1 4 12288 2 4)
    ∷ []

abbrev disk : ℕ → ℕ
disk a = a % 251

abbrev read_data : ℕ → ℕ → Result (List ℕ)
read_data logical size = ok (window disk logical size)

abbrev decompress : ℕ → List ℕ → ℕ → Result (List ℕ)
decompress compression payload expected = ok (payload ++ payload)

abbrev plain : FileExtent → List ℕ
plain e = window disk e.disk_bytenr e.disk_num_bytes ++ window disk e.disk_bytenr e.disk_num_bytes

abbrev in_leaf : FileExtent
in_leaf = record {
  file_offset = 0;
  kind = inline_kind;
  ram_bytes = 2;
  compression = 0;
  disk_bytenr = 0;
  disk_num_bytes = 2;
  offset = 0;
  num_bytes = 2;
  inline = some (65 ∷ 66 ∷ []);
}

abbrev on_drive : FileExtent
on_drive = record {
  file_offset = 4;
  kind = regular_kind;
  ram_bytes = 4;
  compression = 0;
  disk_bytenr = 4096;
  disk_num_bytes = 4096;
  offset = 0;
  num_bytes = 4;
  inline = none;
}

abbrev extent_at :
    ExtentKind
    → (file_offset compression ram_bytes disk_bytenr disk_num_bytes num_bytes : ℕ) → FileExtent
extent_at kind file_offset compression ram_bytes disk_bytenr disk_num_bytes num_bytes = record {
  file_offset = file_offset;
  kind = kind;
  ram_bytes = ram_bytes;
  compression = compression;
  disk_bytenr = disk_bytenr;
  disk_num_bytes = disk_num_bytes;
  offset = 0;
  num_bytes = num_bytes;
  inline = none;
}

abbrev extents : List FileExtent
extents =
    in_leaf
    ∷ on_drive
    ∷ extent_at regular_kind 8 0 2 0 0 2
    ∷ extent_at prealloc_kind 10 0 2 8192 4096 2
    ∷ extent_at regular_kind 12 1 4 12288 2 4
    ∷ []

passes : Passes listed 257 6 items extents
unfolding covering parse cmp build_regular_file_extent
passes = one_before refl refl (
    one_extent refl refl (
      one_extent refl refl
        (one_extent refl refl (one_extent refl refl (one_extent refl refl (no_more refl))))))

read_inode_data_lem_example :
    read_inode_data read_data decompress listed 257 22 (λ k. ok items) 100 0 16
    ≡ ok (window (byte_at (held_by disk plain) extents) 0 16)
unfolding window
read_inode_data_lem_example =
    read_inode_data_lem read_data decompress disk plain listed 257 22 6 (λ k. ok items) items
      extents 100 0 16 refl passes
      (
        of_inline (65 ∷ 66 ∷ []) refl refl refl (omega arith) (omega arith),
        (
          of_disk refl refl refl (omega arith) (omega arith) (λ i n fits. refl),
          (
            of_zeros refl,
            (
              of_zeros refl,
              (of_compressed_disk refl refl refl refl refl (omega arith) (omega arith), tt),
            ),
          ),
        ),
      )
      (omega arith) (omega arith)

the_bytes :
    window (byte_at (held_by disk plain) extents) 0 16
    ≡ 65 ∷ 66 ∷ 0 ∷ 0 ∷ 80 ∷ 81 ∷ 82 ∷ 83 ∷ 0 ∷ 0 ∷ 0 ∷ 0 ∷ 240 ∷ 241 ∷ 240 ∷ 241 ∷ []
unfolding window byte_at held_by at_or
the_bytes = refl

the_read :
    read_inode_data read_data decompress listed 257 22 (λ k. ok items) 100 0 16
    ≡ ok (65 ∷ 66 ∷ 0 ∷ 0 ∷ 80 ∷ 81 ∷ 82 ∷ 83 ∷ 0 ∷ 0 ∷ 0 ∷ 0 ∷ 240 ∷ 241 ∷ 240 ∷ 241 ∷ [])
unfolding read_inode_data read_from covering parse cmp build_regular_file_extent extent_bytes
    from_disk decompress_extent window
the_read = refl

parse-build_regular_file_extent_example :
    parse 0 (build_regular_file_extent 7 4 4096 8192 4)
    ≡ ok (record {
      file_offset = 0;
      kind = regular_kind;
      ram_bytes = 4;
      compression = 0;
      disk_bytenr = 4096;
      disk_num_bytes = 8192;
      offset = 0;
      num_bytes = 4;
      inline = none;
    })
parse-build_regular_file_extent_example =
    parse-build_regular_file_extent 0 7 4 4096 8192 4 (omega arith) (omega arith) (omega arith)
      (omega arith)

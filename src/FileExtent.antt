-- ===== src/FileExtent.antt =====
-- core/src/fs/btrfs/extent.rs: the items that say where the bytes of a file are, and the read of a
-- file from them.
pub mod Read
mod Runs
use luks_android.Prelude.{
  if◌then◌else◌, ℕ, zero, suc, ◌+◌, ◌==◌, ◌&&◌, ◌||◌, not, ltb, leb, Bool, true, false, List, [],
  ◌∷◌, ◌++◌, length, drop, Option, none, some, ◌≡◌, refl,
}
use luks_android.Prelude.Words.{saturating_add, IsU64}
use luks_android.Prelude.Bytes.{to_le, u64le, byte, from_le-to_le}
use luks_android.Error.{Result, ok, err, corrupt_fs, unsupported_fs_feature, ◌>>=◌, ◌>>◌, refuse_if}

pub data ExtentKind : Type 0 where
  inline_kind regular_kind prealloc_kind : ExtentKind

abbrev pub is_inline : ExtentKind → Bool
is_inline inline_kind = true
is_inline regular_kind = false
is_inline prealloc_kind = false

abbrev pub is_regular : ExtentKind → Bool
is_regular inline_kind = false
is_regular regular_kind = true
is_regular prealloc_kind = false

abbrev pub is_prealloc : ExtentKind → Bool
is_prealloc inline_kind = false
is_prealloc regular_kind = false
is_prealloc prealloc_kind = true

pub record FileExtent : Type 0 where
  pub file_offset : ℕ
  pub kind : ExtentKind
  pub ram_bytes : ℕ
  pub compression : ℕ
  pub disk_bytenr : ℕ
  pub disk_num_bytes : ℕ
  pub offset : ℕ
  pub num_bytes : ℕ
  pub inline : Option (List ℕ)

abbrev pub inline_header : ℕ
inline_header = 21

abbrev pub regular_item_size : ℕ
regular_item_size = 53

abbrev pub kind_of : ℕ → Result ExtentKind
kind_of n =
    if n == 0
    then ok inline_kind
    else if n == 1
    then ok regular_kind
    else if n == 2
    then ok prealloc_kind
    else err (corrupt_fs "btrfs extent has an unknown type")

abbrev pub inline_extent : (file_offset : ℕ) → List ℕ → FileExtent
inline_extent file_offset b = record {
  file_offset = file_offset;
  kind = inline_kind;
  ram_bytes = u64le b 8;
  compression = byte b 16;
  disk_bytenr = 0;
  disk_num_bytes = length (drop inline_header b);
  offset = 0;
  num_bytes = u64le b 8;
  inline = some (drop inline_header b);
}

abbrev pub addressed_extent : (file_offset : ℕ) → ExtentKind → List ℕ → FileExtent
addressed_extent file_offset kind b = record {
  file_offset = file_offset;
  kind = kind;
  ram_bytes = u64le b 8;
  compression = byte b 16;
  disk_bytenr = u64le b 21;
  disk_num_bytes = u64le b 29;
  offset = u64le b 37;
  num_bytes = u64le b 45;
  inline = none;
}

abbrev pub addressed : (file_offset : ℕ) → ExtentKind → List ℕ → Result FileExtent
addressed file_offset kind b = do
  refuse_if (ltb (length b) regular_item_size) (corrupt_fs "btrfs extent item truncated")
  ok (addressed_extent file_offset kind b)

-- `if kind == ExtentKind::Inline { return … }`, and what follows it.
abbrev pub by_kind : (file_offset : ℕ) → ExtentKind → List ℕ → Result FileExtent
by_kind file_offset inline_kind b = ok (inline_extent file_offset b)
by_kind file_offset regular_kind b = addressed file_offset regular_kind b
by_kind file_offset prealloc_kind b = addressed file_offset prealloc_kind b

unfoldable pub parse : (file_offset : ℕ) → List ℕ → Result FileExtent
parse file_offset b = do
  refuse_if (leb (length b) 20) (corrupt_fs "btrfs extent item truncated")
  kind ← kind_of (byte b 20)
  refuse_if (not (byte b 17 == 0)) (unsupported_fs_feature "btrfs encrypted extent")
  by_kind file_offset kind b

abbrev pub end : FileExtent → ℕ
end e = saturating_add e.file_offset e.num_bytes

abbrev pub is_zeros : FileExtent → Bool
is_zeros e = (is_regular e.kind && (e.disk_bytenr == 0)) || is_prealloc e.kind

abbrev pub has_disk_bytes : FileExtent → Bool
has_disk_bytes e = not (is_inline e.kind) && (ltb 0 e.disk_bytenr && ltb 0 e.disk_num_bytes)

abbrev pub is_compressed : FileExtent → Bool
is_compressed e = not (e.compression == 0)

-- `build_regular_file_extent` of core/src/fs/btrfs/write/node.rs.
unfoldable pub build_regular_file_extent :
    (generation ram_bytes disk_bytenr disk_num_bytes num_bytes : ℕ) → List ℕ
build_regular_file_extent generation ram_bytes disk_bytenr disk_num_bytes num_bytes =
    to_le 8 generation
    ++ (to_le 8 ram_bytes
        ++ (0
            ∷ (0
                ∷ (to_le 2 0
                    ++ (1
                        ∷ (to_le 8 disk_bytenr
                            ++ (to_le 8 disk_num_bytes ++ (to_le 8 0 ++ to_le 8 num_bytes))))))))

-- Whatever the numbers of 64 bits: the item that is built for the extent of a new file is parsed as a
-- regular extent, not compressed, of that place and size, from its start on.
pub parse-build_regular_file_extent :
    (file_offset generation ram_bytes disk_bytenr disk_num_bytes num_bytes : ℕ)
    → IsU64 ram_bytes
    → IsU64 disk_bytenr
    → IsU64 disk_num_bytes
    → IsU64 num_bytes
    → parse file_offset
        (build_regular_file_extent generation ram_bytes disk_bytenr disk_num_bytes num_bytes)
      ≡ ok (record {
        file_offset = file_offset;
        kind = regular_kind;
        ram_bytes = ram_bytes;
        compression = 0;
        disk_bytenr = disk_bytenr;
        disk_num_bytes = disk_num_bytes;
        offset = 0;
        num_bytes = num_bytes;
        inline = none;
      })
unfolding parse build_regular_file_extent
parse-build_regular_file_extent file_offset generation ram_bytes disk_bytenr disk_num_bytes
      num_bytes r d s n =
    rw
      (
        from_le-to_le 8 ram_bytes r,
        from_le-to_le 8 disk_bytenr d,
        from_le-to_le 8 disk_num_bytes s,
        from_le-to_le 8 num_bytes n,
      )
      refl

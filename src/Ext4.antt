-- ===== src/Ext4.antt =====
-- core/src/fs/ext4/dirent.rs: the records of a directory block.
pub mod Live
mod Records
mod Place
pub mod Insert
pub mod Find
mod Runs
use luks_android.Prelude.{
  if◌then◌else◌, ℕ, zero, suc, ◌+◌, ◌-◌, ◌*◌, ◌/◌, ◌%◌, ◌==◌, ◌&&◌, ◌||◌, not, ltb, leb, Bool, true,
  false, List, [], ◌∷◌, ◌++◌, length, take, drop, Option, none, some,
}
use luks_android.Prelude.Bytes.{to_le, u16le, u32le, byte, slice, zeros, same_bytes}
use luks_android.Error.{Result, ok, corrupt_fs, ◌>>=◌, ◌>>◌, refuse_if}
use luks_android.Inode.{
  FileType, regular, directory, symlink, char_device, block_device, fifo, socket, unknown,
}

abbrev pub dirent_header : ℕ
dirent_header = 8

-- `(DIRENT_HEADER + name_len).div_ceil(4) * 4`
unfoldable pub record_len : ℕ → ℕ
record_len name_len = (dirent_header + name_len + 3) / 4 * 4

abbrev pub has_byte : ℕ → List ℕ → Bool
has_byte c [] = false
has_byte c (b ∷ bs) = (b == c) || has_byte c bs

unfoldable pub validate_name : List ℕ → Result (Unit {0})
validate_name name = do
  refuse_if ((length name == 0) || ltb 255 (length name)) (corrupt_fs "directory entry name length")
  refuse_if (has_byte 47 name || has_byte 0 name) (corrupt_fs "directory entry name characters")
  refuse_if (same_bytes name (46 ∷ []) || same_bytes name (46 ∷ 46 ∷ []))
      (corrupt_fs "directory entry name is . or ..")
  ok tt

unfoldable pub type_code : FileType → ℕ
type_code regular = 1
type_code directory = 2
type_code char_device = 3
type_code block_device = 4
type_code fifo = 5
type_code socket = 6
type_code symlink = 7
type_code unknown = 0

-- The fields of the record at the front of the bytes from `pos` on.
abbrev pub cur_ino : List ℕ → ℕ
cur_ino b = u32le b 0

abbrev pub rec_len : List ℕ → ℕ
rec_len b = u16le b 4

abbrev pub name_len : List ℕ → ℕ
name_len b = byte b 6

abbrev pub is_broken : (left : ℕ) → List ℕ → Bool
is_broken left b =
    ltb (rec_len b) dirent_header || (not (rec_len b % 4 == 0) || ltb left (rec_len b))

-- A live record whose name needs more bytes than the record has.
abbrev pub is_overlong : List ℕ → Bool
is_overlong b = not (cur_ino b == 0) && ltb (rec_len b) (record_len (name_len b))

unfoldable pub in_use : List ℕ → ℕ
in_use b = if cur_ino b == 0 then 0 else record_len (name_len b)

-- A record of `len` bytes, padded with zeros.
unfoldable pub new_record : (ino len code : ℕ) → (name : List ℕ) → List ℕ
new_record ino len code name =
    to_le 4 ino
    ++ (to_le 2 len
        ++ (length name % 256 ∷ (code ∷ (name ++ zeros (len - (dirent_header + length name))))))

module _ (name : List ℕ) (ino : ℕ) (file_type : FileType) (needed : ℕ) where
  -- The bytes from the record on, with the new one in its slack.
  unfoldable pub place_record : List ℕ → List ℕ
  place_record b =
      if in_use b == 0
      then new_record ino (rec_len b) (type_code file_type) name ++ drop (rec_len b) b
      else take 4 b
        ++ (to_le 2 (in_use b)
            ++ (slice b 6 (in_use b - 6)
                ++ (new_record ino (rec_len b - in_use b) (type_code file_type) name
                    ++ drop (rec_len b) b)))

  abbrev prepend : List ℕ → Option (List ℕ) → Option (List ℕ)
  prepend front none = none
  prepend front (some b) = some (front ++ b)

  -- The walk over the records, on the bytes from `pos` on, `left` being `usable - pos`. None is that
  -- there is no room; each record takes 8 bytes at least, so the bytes are fuel enough.
  unfoldable pub insert_from : (fuel left : ℕ) → List ℕ → Option (List ℕ)
  insert_from zero left b = none
  insert_from (suc fuel) left b =
      let later =
        prepend (take (rec_len b) b) (insert_from fuel (left - rec_len b) (drop (rec_len b) b)) in
      if ltb left dirent_header
      then none
      else if is_broken left b || is_overlong b
      then none
      else if leb needed (rec_len b - in_use b)
      then some (place_record b)
      else later

  unfoldable pub insert_into_block : (usable : ℕ) → List ℕ → Option (List ℕ)
  insert_into_block usable block = insert_from (suc usable) usable block

-- The walk of `find_entry` over a block.
unfoldable pub find_from : (fuel left : ℕ) → (name b : List ℕ) → Option ℕ
find_from zero left name b = none
find_from (suc fuel) left name b =
    let later = find_from fuel (left - rec_len b) name (drop (rec_len b) b) in
    if ltb left dirent_header
    then none
    else if is_broken left b
    then none
    else if not (cur_ino b == 0)
        && (leb (dirent_header + name_len b) left
            && same_bytes (slice b dirent_header (name_len b)) name)
    then some (cur_ino b)
    else later

-- The walk takes the whole block, also where the last 12 bytes are the tail with the checksum.
abbrev pub find_in_block : (name block : List ℕ) → Option ℕ
find_in_block name block = find_from (suc (length block)) (length block) name block

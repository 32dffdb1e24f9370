-- ===== src/FileExtent/Read.antt =====
-- core/src/fs/btrfs/extent.rs: the read of a file.
pub mod Walk
pub mod Held
pub mod Serve
use Prim.Native.String.{String}
use luks_android.Prelude.{
  if◌then◌else◌, ℕ, zero, suc, ◌+◌, ◌-◌, ◌==◌, ◌&&◌, ltb, leb, min, Bool, true, false, List, [],
  ◌∷◌, ◌++◌, length, Option, none, some,
}
use luks_android.Prelude.Words.{add64, checked_add}
use luks_android.Prelude.Bytes.{slice, zeros}
use luks_android.Error.{Result, ok, err, corrupt_fs, ◌>>=◌, ◌>>◌, refuse_if}
use luks_android.Tree.{Key, cmp, is_lt}
use luks_android.Cursor.{CursorOps}
use luks_android.FileExtent.{FileExtent, parse, end, is_zeros, is_compressed}

abbrev pub extent_data_key : ℕ
extent_data_key = 108

-- What the cursor stands on, for the file that is read.
pub data Covering : Type 0 where
  the_extent : FileExtent → Covering
  before_extents nothing : Covering

module _ {S : Type 0} (ops : CursorOps S) (objectid : ℕ) where
  abbrev first_extent : Key
  first_extent = record { objectid = objectid; item_type = extent_data_key; offset = 0 }

  abbrev of_file : Key → Bool
  of_file k = (k.objectid == objectid) && (k.item_type == extent_data_key)

  abbrev covering_at : S → Key → Result Covering
  covering_at s k =
      if of_file k
      then (ops.contents s >>= λ b. parse k.offset b >>= λ e. ok (the_extent e))
      else if is_lt (cmp k first_extent)
      then ok before_extents
      else ok nothing

  unfoldable pub covering : S → Result Covering
  covering s = if ops.valid s then (ops.key s >>= λ k. covering_at s k) else ok nothing

-- The reads of checked data and the decompression are other parts'.
module _ (read_data : (logical size : ℕ) → Result (List ℕ))
    (decompress : (compression : ℕ) → (payload : List ℕ) → (expected : ℕ) → Result (List ℕ)) where
  unfoldable pub decompress_extent : FileExtent → Result (List ℕ)
  decompress_extent e = elim e.inline [
    | some payload ↦ decompress e.compression payload e.ram_bytes
    | none ↦
        read_data e.disk_bytenr e.disk_num_bytes >>= λ raw. decompress e.compression raw e.ram_bytes
  ]

  -- `start.checked_add(take).filter(|e| *e <= bytes.len())`, and the bytes up to there.
  abbrev pub part_to : (too_short : String) → List ℕ → (start n : ℕ) → Option ℕ → Result (List ℕ)
  part_to too_short b start n none = err (corrupt_fs too_short)
  part_to too_short b start n (some stop) =
      if leb stop (length b) then ok (slice b start n) else err (corrupt_fs too_short)

  abbrev pub part : (too_short : String) → List ℕ → (start n : ℕ) → Result (List ℕ)
  part too_short b start n = part_to too_short b start n (checked_add start n)

  unfoldable pub from_disk : FileExtent → (within n : ℕ) → Result (List ℕ)
  from_disk e within n = do
    refuse_if (ltb e.disk_num_bytes (add64 (add64 e.offset within) n))
        (corrupt_fs "btrfs extent range falls outside the allocated extent")
    read_data (add64 e.disk_bytenr (add64 e.offset within)) n

  -- `n` bytes of an extent, for `out`.
  unfoldable pub extent_bytes : FileExtent → (within n : ℕ) → Result (List ℕ)
  extent_bytes e within n =
      if is_zeros e
      then ok (zeros n)
      else if is_compressed e
      then (decompress_extent e >>= λ plain.
          part "btrfs compressed extent is shorter than the range it covers" plain
            (add64 e.offset within) n)
      else elim e.inline [
        | some payload ↦ part "btrfs inline extent is too short" payload (add64 e.offset within) n
        | none ↦ from_disk e within n
      ]

  module _ {S : Type 0} (ops : CursorOps S) (objectid : ℕ) where
    -- A round of the loop, `rest` being the rounds that follow it.
    module _ (rest : S → (pos left : ℕ) → Result (List ℕ)) (s : S) (pos left : ℕ) where
      abbrev from_extent : FileExtent → Result (List ℕ)
      from_extent e =
          let n = min (e.num_bytes - (pos - e.file_offset)) left in
          extent_bytes e (pos - e.file_offset) n >>= λ out.
          (if leb (end e) (pos + n) then ops.advance s else ok s) >>= λ s'.
          rest s' (pos + n) (left - n) >>= λ more. ok (out ++ more)

      abbrev gap_before : FileExtent → Result (List ℕ)
      gap_before e =
          let gap = min (e.file_offset - pos) left in
          rest s (pos + gap) (left - gap) >>= λ more. ok (zeros gap ++ more)

      abbrev step_over : Result (List ℕ)
      step_over = ops.advance s >>= λ s'. rest s' pos left

      abbrev round : Covering → Result (List ℕ)
      round before_extents = step_over
      round nothing = ok (zeros left)
      round (the_extent e) =
          if ltb pos e.file_offset
          then gap_before e
          else if leb (end e) pos
          then step_over
          else from_extent e

    -- `while done < want`: `pos` is `offset + done` and `left` is `want - done`.
    unfoldable pub read_from : (fuel : ℕ) → S → (pos left : ℕ) → Result (List ℕ)
    read_from zero s pos left = if left == 0 then ok [] else err (corrupt_fs "out of fuel")
    read_from (suc fuel) s pos left =
        if left == 0
        then ok []
        else covering ops objectid s >>= λ c. round (read_from fuel) s pos left c

    -- The bytes for the front of a buffer of `len`, given the size of the file.
    unfoldable pub read_inode_data :
        (fuel : ℕ) → (search_le : Key → Result S) → (size offset len : ℕ) → Result (List ℕ)
    read_inode_data fuel search_le size offset len =
        if leb size offset
        then ok []
        else if min len (size - offset) == 0
        then ok []
        else search_le
            (record { objectid = objectid; item_type = extent_data_key; offset = offset })
          >>= λ s. read_from fuel s offset (min len (size - offset))

-- ===== src/Scsi/ByteAccess.antt =====
-- core/src/usb/scsi.rs: byte-addressed reads and writes over commands on whole blocks.
pub mod Overlay
pub mod Spans
pub mod Disk
pub mod Exchange
pub mod Commands
pub mod Writes
pub mod Reads
use luks_android.Prelude.{
  if◌then◌else◌, ℕ, zero, suc, ◌+◌, ◌-◌, ◌*◌, ◌/◌, ◌%◌, min, max, Bool, true, false, not, ◌||◌,
  Option, none, some, List, [], ◌∷◌, ◌++◌, length, take, drop, ◌==◌, ltb,
}
use luks_android.Prelude.Bytes.{zeros, slice}
use luks_android.Prelude.Words.{checked_add}
use luks_android.Error.{Result, ok, err, scsi_protocol, out_of_bounds, LuksError}
use luks_android.Scsi.{
  BulkTransport, Capacity, bytes, ScsiBlockDevice, Act, return, fail, attempt, on_ok, ◌>>=◌,
}
use luks_android.Scsi.Command.{out_of_fuel}
use luks_android.Scsi.Blocks.{read_blocks, write_blocks}

abbrev pub max_scsi_transfer : ℕ
max_scsi_transfer = 128 * 1024

abbrev pub short_data_phase : LuksError
short_data_phase = scsi_protocol "short data phase"

-- `clamp(1, READ10_MAX_BLOCKS)` of the blocks in the largest transfer.
abbrev pub max_blocks : ℕ → ℕ → ℕ
max_blocks max_transfer bs = min (max (min max_transfer max_scsi_transfer / bs) 1) 0xFFFF

-- The blocks of the next command, for `remaining` bytes from `pos` on, and the bytes it is good for.
abbrev pub blocks_at : ℕ → ℕ → ℕ → ℕ → ℕ
blocks_at bs most pos remaining = min ((pos % bs + remaining + bs - 1) / bs) most

abbrev pub taken_at : ℕ → ℕ → ℕ → ℕ → ℕ
taken_at bs most pos remaining = min (blocks_at bs most pos remaining * bs - pos % bs) remaining

-- `chunk[within..within + bytes.len()].copy_from_slice(bytes)`
abbrev pub patch : List ℕ → ℕ → List ℕ → List ℕ
patch chunk within bytes = take within chunk ++ (bytes ++ drop (within + length bytes) chunk)

module _ {S : Type 0} (t : BulkTransport S) (bs most : ℕ) where
  -- The loop of `read_at`: the bytes left, the address, the scratch buffer and what is read.
  unfoldable pub read_from : ℕ → ℕ → ℕ → List ℕ → List ℕ → Act (ScsiBlockDevice S) (List ℕ)
  read_from zero fuel pos chunk done = return done
  read_from (suc left) zero pos chunk done = fail out_of_fuel
  read_from (suc left) (suc fuel) pos chunk done =
      let blocks = blocks_at bs most pos (suc left) in
      let taken = taken_at bs most pos (suc left) in
      read_blocks t (pos / bs) blocks (take (blocks * bs) chunk) >>= λ (got, b).
      elim (ltb got (blocks * bs)) [
        | true ↦ fail short_data_phase
        | false ↦
            read_from (suc left - taken) fuel (pos + taken) (b ++ drop (blocks * bs) chunk)
              (done ++ slice b (pos % bs) taken)
      ]

  -- A command on blocks of which a part only is to change: they are read, patched and written back.
  unfoldable pub put_partial : ℕ → ℕ → ℕ → List ℕ → Act (ScsiBlockDevice S) ℕ
  put_partial lba blocks within bytes =
      read_blocks t lba blocks (zeros (blocks * bs)) >>= λ (got, chunk).
      elim (ltb got (blocks * bs)) [
        | true ↦ fail short_data_phase
        | false ↦ write_blocks t lba blocks (patch chunk within bytes)
      ]

  unfoldable pub put_blocks : ℕ → List ℕ → Act (ScsiBlockDevice S) ℕ
  put_blocks pos buf =
      let blocks = blocks_at bs most pos (length buf) in
      let taken = taken_at bs most pos (length buf) in
      if not (pos % bs == 0) || not (taken == blocks * bs)
      then put_partial (pos / bs) blocks (pos % bs) (take taken buf)
      else write_blocks t (pos / bs) blocks (take taken buf)

  -- The loop of `write_at`: the bytes left, and the address.
  unfoldable pub write_from : List ℕ → ℕ → ℕ → Act (ScsiBlockDevice S) (Unit {0})
  write_from [] fuel pos = return tt
  write_from (x ∷ xs) zero pos = fail out_of_fuel
  write_from (x ∷ xs) (suc fuel) pos =
      let taken = taken_at bs most pos (length (x ∷ xs)) in
      put_blocks pos (x ∷ xs) >>= λ put.
      elim (ltb put (blocks_at bs most pos (length (x ∷ xs)) * bs)) [
        | true ↦ fail short_data_phase
        | false ↦ write_from (drop taken (x ∷ xs)) fuel (pos + taken)
      ]

-- Whether a range of bytes ends behind the drive, or behind the numbers of 64 bits.
abbrev pub past_end : Option ℕ → ℕ → Bool
past_end none size = true
past_end (some end) size = ltb size end

module _ {S : Type 0} (t : BulkTransport S) where
  -- Each round moves a byte at least, so the number of bytes is fuel enough.
  unfoldable pub read_at : ℕ → ℕ → Act (ScsiBlockDevice S) (List ℕ)
  read_at offset zero d = (ok [], d)
  read_at offset (suc n) d =
      let bs = d.capacity.block_size in
      let most = max_blocks t.max_transfer bs in
      if past_end (checked_add offset (suc n)) (bytes d.capacity)
      then (err out_of_bounds, d)
      else read_from t bs most (suc n) (suc n) offset (zeros (most * bs)) [] d

  unfoldable pub write_at : ℕ → List ℕ → Act (ScsiBlockDevice S) (Unit {0})
  write_at offset [] d = (ok tt, d)
  write_at offset (x ∷ xs) d =
      let bs = d.capacity.block_size in
      let most = max_blocks t.max_transfer bs in
      if past_end (checked_add offset (length (x ∷ xs))) (bytes d.capacity)
      then (err out_of_bounds, d)
      else write_from t bs most (x ∷ xs) (length (x ∷ xs)) offset d

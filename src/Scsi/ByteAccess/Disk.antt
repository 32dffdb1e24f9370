-- ===== src/Scsi/ByteAccess/Disk.antt =====
-- core/src/usb/scsi.rs: what the reads and writes of blocks rely on, a disk behind the transport.
use luks_android.Prelude.{ℕ, ◌+◌, ◌*◌, ◌≤◌, ◌<◌, ◌≡◌, ◌^◌, some, List, ◌++◌, length}
use luks_android.Prelude.Bytes.{to_le, from_le, u32le, slice, zeros}
use luks_android.Prelude.Windows.{window}
use luks_android.Error.{ok}
use luks_android.Scsi.{BulkTransport, Capacity, ScsiBlockDevice}
use luks_android.Scsi.Blocks.{read_blocks, write_blocks}
use luks_android.Scsi.Blocks.Requests.{request}
use luks_android.Scsi.ByteAccess.Overlay.{overlay}

-- A command wrapper, as the drive reads it: its signature, its tag, the number of bytes of data, and a
-- command block of the given length that asks for blocks by one of two operation codes.
pub record Asks (op_10 op_16 tag n lba count : ℕ) (cbw : List ℕ) : Type 0 where
  pub whole : length cbw ≡ 31
  pub signed : u32le cbw 0 ≡ 0x43425355
  pub same_tag : u32le cbw 4 ≡ tag
  pub data_length : u32le cbw 8 ≡ n
  pub blocks : request op_10 op_16 (slice cbw 15 (from_le (slice cbw 14 1))) ≡ some (lba, count)

-- The status of a command with a tag that passed with no data left over.
abbrev pub passed_status : ℕ → List ℕ
passed_status tag = to_le 4 0x53425355 ++ (to_le 4 tag ++ zeros 5)

-- A disk behind a transport. Between commands it is in one of the states `Idle`. It takes the wrapper of
-- a read or a write of its blocks, then moves the data in one piece, answers with a status that the
-- command passed, and is idle again.
pub record IsDisk {S : Type 0} (t : BulkTransport S) (cap : Capacity) (Idle : S → Type 0)
    (contents : S → ℕ → ℕ) : Type 0 where
  pub reads :
      (s : S) (cbw : List ℕ) (tag lba count : ℕ)
      → Idle s
      → tag < 2 ^ 32
      → Asks 0x28 0x88 tag (count * cap.block_size) lba count cbw
      → 0 < count
      → lba + count ≤ cap.blocks
      → (s1 s2 s3 : S) × (t.write cbw s ≡ (ok 31, s1))
        × (t.read (count * cap.block_size) s1
            ≡ (ok (window (contents s) (lba * cap.block_size) (count * cap.block_size)), s2))
        × (t.read 13 s2 ≡ (ok (passed_status tag), s3))
        × Idle s3
        × ((i : ℕ) → contents s3 i ≡ contents s i)
  pub writes :
      (s : S) (cbw : List ℕ) (tag lba count : ℕ) (buf : List ℕ)
      → Idle s
      → tag < 2 ^ 32
      → Asks 0x2A 0x8A tag (count * cap.block_size) lba count cbw
      → 0 < count
      → lba + count ≤ cap.blocks
      → length buf ≡ count * cap.block_size
      → (s1 s2 s3 : S) × (t.write cbw s ≡ (ok 31, s1))
        × (t.write buf s1 ≡ (ok (length buf), s2))
        × (t.read 13 s2 ≡ (ok (passed_status tag), s3))
        × Idle s3
        × ((i : ℕ) → contents s3 i ≡ overlay (contents s) (lba * cap.block_size) buf i)

-- A state of the device between commands, with the given capacity and a tag of 32 bits.
pub record IsUsable {S : Type 0} (cap : Capacity) (Idle : S → Type 0) (d : ScsiBlockDevice S)
    : Type 0 where
  pub size : d.capacity ≡ cap
  pub idle : Idle d.bus
  pub small_tag : d.tag < 2 ^ 32

-- Such a state, with the given bytes behind it.
pub record Holds {S : Type 0} (cap : Capacity) (Idle : S → Type 0) (contents : S → ℕ → ℕ)
    (bytes : ℕ → ℕ) (d : ScsiBlockDevice S) : Type 0 where
  pub usable : IsUsable cap Idle d
  pub bytes_at : (i : ℕ) → contents d.bus i ≡ bytes i

-- The commands on blocks do what they ask for: they read the contents, and change them where they write.
pub record IsWorking {S : Type 0} (t : BulkTransport S) (cap : Capacity) (Idle : S → Type 0)
    (contents : S → ℕ → ℕ) : Type 0 where
  pub reads :
      (d : ScsiBlockDevice S) (lba count : ℕ) (buf : List ℕ)
      → IsUsable cap Idle d
      → lba + count ≤ cap.blocks
      → 0 < count
      → count ≤ 65535
      → length buf ≡ count * cap.block_size
      → (after : ScsiBlockDevice S) × (read_blocks t lba count buf d ≡ (
        ok (
          count * cap.block_size,
          window (contents d.bus) (lba * cap.block_size) (count * cap.block_size),
        ),
        after,
      ))
        × Holds cap Idle contents (contents d.bus) after
  pub writes :
      (d : ScsiBlockDevice S) (lba count : ℕ) (buf : List ℕ)
      → IsUsable cap Idle d
      → lba + count ≤ cap.blocks
      → 0 < count
      → count ≤ 65535
      → length buf ≡ count * cap.block_size
      → (after : ScsiBlockDevice S) × (write_blocks t lba count buf d
          ≡ (ok (count * cap.block_size), after))
        × Holds cap Idle contents (overlay (contents d.bus) (lba * cap.block_size) buf) after

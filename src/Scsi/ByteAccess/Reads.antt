-- ===== src/Scsi/ByteAccess/Reads.antt =====
-- core/src/usb/scsi.rs: `read_at` on a transport with a disk behind it.
use luks_android.Prelude.{ℕ, ◌+◌, ◌*◌, ◌≤◌, ◌<◌, ◌≡◌, ◌⊎◌, List}
use luks_android.Error.{ok, err, out_of_bounds}
use luks_android.Scsi.{Capacity, BulkTransport, ScsiBlockDevice}
use luks_android.Scsi.ByteAccess.Disk.{Holds}
use luks_android.Scsi.ByteAccess.{read_at}
use luks_android.Prelude.Windows.{window}

-- What `read_at` answers: the bytes of the drive from the offset on; or the range does not fit the
-- drive, and no command is sent.
abbrev pub WasRead :
    {S : Type 0}
    → BulkTransport S
    → Capacity
    → (S → Type 0)
    → (S → ℕ → ℕ)
    → ℕ
    → ℕ
    → ScsiBlockDevice S
    → Type 0
WasRead {S} t cap Idle contents offset n d =
    ((offset + n ≤ cap.blocks * cap.block_size)
      × (after : ScsiBlockDevice S) × (read_at t offset n d
          ≡ (ok (window (contents d.bus) offset n), after))
      × Holds cap Idle contents (contents d.bus) after)
    ⊎ ((cap.blocks * cap.block_size < offset + n) × (read_at t offset n d ≡ (err out_of_bounds, d)))

-- ===== src/Scsi/ByteAccess/Writes.antt =====
-- core/src/usb/scsi.rs: `write_at` on a transport with a disk behind it.
use luks_android.Prelude.{
  ℕ, ◌+◌, ◌*◌, ◌≤◌, ◌<◌, ◌≡◌, ◌⊎◌, inl, inr, sym, ap, List, length, ltb, lt→ltb, ltb→ge, Bool-cases,
  arith,
}
use luks_android.Prelude.Words.{checked_add, u64_mod, IsU64}
use luks_android.Error.{ok, err, out_of_bounds}
use luks_android.Scsi.{bytes, Capacity, BulkTransport, ScsiBlockDevice}
use luks_android.Scsi.ByteAccess.Disk.{Holds}
use luks_android.Scsi.ByteAccess.{past_end, write_at}
use luks_android.Scsi.ByteAccess.Overlay.{overlay}

pub past_end_lem :
    (offset n : ℕ) (cap : Capacity)
    → IsU64 (cap.blocks * cap.block_size)
    → past_end (checked_add offset n) (bytes cap) ≡ ltb (cap.blocks * cap.block_size) (offset + n)
past_end_lem offset n cap small = elim (Bool-cases (ltb (offset + n) u64_mod)) [
  | inl h ↦ rw h (ap (λ size. ltb size (offset + n)) (omega arith))
  | inr h ↦
      rw h (sym (lt→ltb (cap.blocks * cap.block_size) (offset + n) (omega (arith, ltb→ge _ _ h))))
]

-- What `write_at` does to the bytes of a drive: they are changed from the offset on, and nowhere
-- else; or the range does not fit the drive, and nothing is done.
abbrev pub Written :
    {S : Type 0}
    → BulkTransport S
    → Capacity
    → (S → Type 0)
    → (S → ℕ → ℕ)
    → ℕ
    → List ℕ
    → ScsiBlockDevice S
    → Type 0
Written {S} t cap Idle contents offset buf d =
    ((offset + length buf ≤ cap.blocks * cap.block_size)
      × (after : ScsiBlockDevice S) × (write_at t offset buf d ≡ (ok tt, after))
      × Holds cap Idle contents (overlay (contents d.bus) offset buf) after)
    ⊎ ((cap.blocks * cap.block_size < offset + length buf)
        × (write_at t offset buf d ≡ (err out_of_bounds, d)))

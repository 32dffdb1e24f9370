-- ===== src/Scsi/Open/Geometry.antt =====
-- core/src/usb/scsi.rs: what `open` makes sure of.
use Prim.Native.String.{String}
use luks_android.Prelude.{
  ℕ, ◌^◌, ◌≡◌, sym, ap, ◌∙◌, inl, inr, false, not, ◌||◌, List, ◌==◌, Bool-cases, arith,
}
use luks_android.Prelude.Bits.{one_bit}
use luks_android.Error.{ok, scsi_protocol, refuse_if}
use luks_android.Scsi.{BulkTransport, ScsiBlockDevice, lift, ◌>>◌}
use luks_android.Scsi.Command.Wire.{bind-inv, ok-inv, ok-err}
use luks_android.Scsi.Blocks.{read_capacity}
use luks_android.Scsi.Open.{
  is_power_of_two, is_block_device, inquiry, wait_ready, check_capacity, measure, open_device,
}

plausible : (x : ℕ) → (x == 0 || not (is_power_of_two x)) ≡ false → (k : ℕ) × (x ≡ 2 ^ k)
plausible x h = one_bit x x (omega arith) (ground (arith, h)) (ground (arith, h))

-- Whatever the drive answers: if `open` succeeds, the block size of the device is a power of two.
pub open_device_lem :
    {S : Type 0} (t : BulkTransport S) (text : List ℕ → String) (s : S) (d : ScsiBlockDevice S)
    → open_device t text s ≡ (ok tt, d)
    → (k : ℕ) × (d.capacity.block_size ≡ 2 ^ k)
unfolding open_device
open_device_lem {S} t text s d h =
    let (i, d1, asked, measured) = bind-inv (inquiry t text) (measure t) begun d tt h in
    let (cap, d2, was_read, checked) =
      bind-inv
        (lift
            (refuse_if (not (is_block_device i)) (scsi_protocol "not a direct-access block device"))
          >> wait_ready t 3
          >> read_capacity t)
        (check_capacity t) d1 d tt measured in
    elim (Bool-cases (cap.block_size == 0 || not (is_power_of_two cap.block_size))) [
      | inl bad ↦ absurd (
          ok-err (scsi_protocol "implausible block size") tt (record d2 { capacity = cap }) d
            (rw bad at checked))
      | inr good ↦
          let (same, still) = ok-inv tt tt (record d2 { capacity = cap }) d (rw good at checked) in
          let (k, e) = plausible cap.block_size good in
          (k, ap (λ r. r.capacity.block_size) (sym still) ∙ e)
    ]
  where
    begun : ScsiBlockDevice S
    begun = record {
      bus = s;
      capacity = record { blocks = 0; block_size = 512 };
      tag = 1;
      no_flush_command = false;
    }

-- ===== src/Scsi/Open.antt =====
-- core/src/usb/scsi.rs: the first steps on a drive: what it is, whether it is ready, how large it is.
pub mod Geometry
use Prim.Native.String.{String}
use luks_android.Prelude.{
  if◌then◌else◌, ℕ, zero, suc, ◌+◌, ◌-◌, Bool, true, false, not, ◌&&◌, ◌||◌, some, List, [], ◌∷◌,
  length, ◌==◌, ltb, bit_and,
}
use luks_android.Prelude.Bytes.{byte, zeros, slice}
use luks_android.Error.{
  LuksError, Result, ok, err, scsi_protocol, scsi_command_failed, is_disconnected, refuse_if,
}
use luks_android.Bot.{in_to_host, no_data}
use luks_android.Scsi.{
  BulkTransport, Capacity, ScsiBlockDevice, Act, return, fail, lift, attempt, on_ok, ◌>>=◌, ◌>>◌,
}
use luks_android.Scsi.Command.{command, request_sense, parse_sense}
use luks_android.Scsi.Blocks.{read_capacity}

pub record InquiryData : Type 0 where
  pub vendor : String
  pub product : String
  pub revision : String
  pub peripheral_device_type : ℕ
  pub removable : Bool

-- The decoding and trimming of a text is the standard library's.
unfoldable pub parse_inquiry : (List ℕ → String) → List ℕ → Result InquiryData
parse_inquiry text b =
    if ltb (length b) 36
    then err (scsi_protocol "INQUIRY response too short")
    else ok (record {
      vendor = text (slice b 8 8);
      product = text (slice b 16 16);
      revision = text (slice b 32 4);
      peripheral_device_type = bit_and (byte b 0) 0x1F;
      removable = not (bit_and (byte b 1) 0x80 == 0);
    })

abbrev pub is_block_device : InquiryData → Bool
is_block_device i = i.peripheral_device_type == 0

-- `x.is_power_of_two()`: one bit is set.
abbrev pub is_power_of_two : ℕ → Bool
is_power_of_two x = not (x == 0) && (bit_and x (x - 1) == 0)

abbrev pub is_waiting : ℕ → Bool
is_waiting sense_key = sense_key == 2 || sense_key == 6

module _ {S : Type 0} (t : BulkTransport S) where
  unfoldable pub inquiry : (List ℕ → String) → Act (ScsiBlockDevice S) InquiryData
  inquiry text = command t (0x12 ∷ 0 ∷ 0 ∷ 0 ∷ 36 ∷ 0 ∷ []) in_to_host (zeros 36) >>= λ r.
      lift (parse_inquiry text r.1)

  unfoldable pub test_unit_ready : Act (ScsiBlockDevice S) (Unit {0})
  test_unit_ready = command t (zeros 6) no_data [] >>= λ r. return tt

  -- A drive that is spinning up, or does not say why it is not ready, is asked again.
  abbrev pub not_ready :
      Act (ScsiBlockDevice S) (Unit {0}) → Result (List ℕ) → Act (ScsiBlockDevice S) (Unit {0})
  not_ready next (ok b) =
      if is_waiting (bit_and (byte b 2) 0x0F)
      then next
      else fail (scsi_command_failed 0x00 (some (parse_sense b)))
  not_ready next (err e) = next

  abbrev pub asked_ready :
      Act (ScsiBlockDevice S) (Unit {0}) → Result (Unit {0}) → Act (ScsiBlockDevice S) (Unit {0})
  asked_ready next (ok u) = return tt
  asked_ready next (err e) =
      if is_disconnected e then fail e else attempt (request_sense t) (not_ready next)

  unfoldable pub wait_ready : ℕ → Act (ScsiBlockDevice S) (Unit {0})
  wait_ready zero = return tt
  wait_ready (suc n) = attempt test_unit_ready (asked_ready (wait_ready n))

  abbrev pub set_capacity : Capacity → Act (ScsiBlockDevice S) (Unit {0})
  set_capacity c d = (ok tt, record d { capacity = c })

  abbrev pub check_capacity : Capacity → Act (ScsiBlockDevice S) (Unit {0})
  check_capacity c =
      set_capacity c
      >> lift (
          refuse_if (c.block_size == 0 || not (is_power_of_two c.block_size))
            (scsi_protocol "implausible block size"))

  abbrev pub measure : InquiryData → Act (ScsiBlockDevice S) (Unit {0})
  measure i =
      lift (refuse_if (not (is_block_device i)) (scsi_protocol "not a direct-access block device"))
      >> wait_ready 3
      >> read_capacity t
      >>= check_capacity

  -- The answer, and the device that it answers.
  unfoldable pub open_device : (List ℕ → String) → S → Result (Unit {0}) × ScsiBlockDevice S
  open_device text s = (inquiry text >>= measure) (record {
    bus = s;
    capacity = record { blocks = 0; block_size = 512 };
    tag = 1;
    no_flush_command = false;
  })

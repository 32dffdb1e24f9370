-- ===== src/Scsi/DiskRuns.antt =====
-- core/src/usb/scsi.rs: byte access to a disk of eight blocks of four bytes, behind its transport.
use luks_android.Prelude.{
  if◌then◌else◌, ℕ, ◌*◌, ◌≡◌, refl, ◌==◌, ◌||◌, Bool, false, Option, none, some, List, [], ◌∷◌,
  length,
}
use luks_android.Prelude.Bytes.{byte, slice, from_le, u32le}
use luks_android.Prelude.Windows.{window}
use luks_android.Error.{Result, ok, err, usb_transfer}
use luks_android.Scsi.{BulkTransport, Capacity, ScsiBlockDevice}
use luks_android.Bot.{encode, decode, new_command, status_of, flags}
use luks_android.Scsi.Command.{
  command, send, read_status, csw_from, conclude, exchange, data_phase, in_from,
}
use luks_android.Scsi.Blocks.{read_blocks, read_cdb, block_cdb}
use luks_android.Scsi.ByteAccess.{read_at, read_from}
use luks_android.Scsi.Blocks.Requests.{request}
use luks_android.Scsi.ByteAccess.Disk.{passed_status}
use luks_android.Scsi.ByteAccess.Overlay.{overlay}

-- Where a disk is in the exchange of a command.
data Phase : Type 0 where
  at_rest : Phase
  to_send to_receive : (lba tag : ℕ) → Phase
  to_report : (tag : ℕ) → Phase

record Disk : Type 0 where
  contents : ℕ → ℕ
  phase : Phase

abbrev in_phase : (ℕ → ℕ) → Phase → Disk
in_phase c p = record { contents = c; phase = p }

abbrev cdb_of : List ℕ → List ℕ
cdb_of cbw = slice cbw 15 (from_le (slice cbw 14 1))

abbrev is_read : List ℕ → Bool
is_read cdb = (byte cdb 0 == 0x28) || (byte cdb 0 == 0x88)

abbrev begun : (n : ℕ) → (ℕ → ℕ) → (ℕ → Phase) → Option (ℕ × ℕ) → Result ℕ × Disk
begun n c next none = (err (usb_transfer "no such command"), in_phase c at_rest)
begun n c next (some (lba, count)) = (ok n, in_phase c (next lba))

abbrev on_write : Phase → List ℕ → (ℕ → ℕ) → Result ℕ × Disk
on_write at_rest b c =
    if is_read (cdb_of b)
    then begun (length b) c (λ lba. to_send lba (u32le b 4)) (request 0x28 0x88 (cdb_of b))
    else begun (length b) c (λ lba. to_receive lba (u32le b 4)) (request 0x2A 0x8A (cdb_of b))
on_write (to_receive lba tag) b c =
    (ok (length b), in_phase (overlay c (lba * 4) b) (to_report tag))
on_write (to_send lba tag) b c = (err (usb_transfer "stalled"), in_phase c at_rest)
on_write (to_report tag) b c = (err (usb_transfer "stalled"), in_phase c at_rest)

abbrev on_read : Phase → ℕ → (ℕ → ℕ) → Result (List ℕ) × Disk
on_read (to_send lba tag) n c = (ok (window c (lba * 4) n), in_phase c (to_report tag))
on_read (to_report tag) n c = (ok (passed_status tag), in_phase c at_rest)
on_read at_rest n c = (err (usb_transfer "stalled"), in_phase c at_rest)
on_read (to_receive lba tag) n c = (err (usb_transfer "stalled"), in_phase c at_rest)

abbrev cable : BulkTransport Disk
cable = record {
  write = λ b s. on_write s.phase b s.contents;
  read = λ n s. on_read s.phase n s.contents;
  max_transfer = 8;
  clear_halt = λ endpoint_in s. (ok tt, s);
  reset = λ s. (ok tt, record s { phase = at_rest });
}

abbrev cap : Capacity
cap = record { blocks = 8; block_size = 4 }

abbrev IsIdle : Disk → Type 0
IsIdle s = s.phase ≡ at_rest

-- A disk whose byte at each place is the place, after three commands.
abbrev opened : ScsiBlockDevice Disk
opened = record {
  bus = in_phase (λ i. i) at_rest;
  capacity = cap;
  tag = 3;
  no_flush_command = false;
}

-- The blocks 1 and 2, and 3 and 4, and 5: two commands of two blocks, and one of one.
reads_it :
    (read_at cable 6 15 opened).0
    ≡ ok (6 ∷ 7 ∷ 8 ∷ 9 ∷ 10 ∷ 11 ∷ 12 ∷ 13 ∷ 14 ∷ 15 ∷ 16 ∷ 17 ∷ 18 ∷ 19 ∷ 20 ∷ [])
unfolding read_at read_from read_blocks command exchange send encode new_command flags data_phase
    in_from read_status csw_from decode status_of conclude read_cdb block_cdb window
reads_it = refl

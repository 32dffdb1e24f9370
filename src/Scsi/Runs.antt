-- ===== src/Scsi/Runs.antt =====
-- core/src/usb/scsi.rs: commands over a bus with a script of answers, and byte access to a memory.
use luks_android.Prelude.{
  ℕ, zero, suc, ◌≤◌, ◌≡◌, refl, sym, ap, ◌∙◌, false, some, List, [], ◌∷◌, ◌++◌, length, take, arith,
  ◌^◌,
}
use luks_android.Prelude.Bytes.{zeros}
use luks_android.Error.{LuksError, Result, ok, err, usb_transfer}
use luks_android.Bot.{flags, out_to_device, encode, decode, new_command, status_of}
use luks_android.Scsi.{BulkTransport, ScsiBlockDevice}
use luks_android.Scsi.Command.{
  command, command_out, send, out_from, read_status, csw_from, conclude, exchange, data_phase,
  in_from,
}
use luks_android.Scsi.Command.Ends.{is_corrupt, Ends, IsBus}
use luks_android.Scsi.Command.Ends.Exchange.{command_lem}
use luks_android.Scsi.Command.Wire.{IsWire, ok-inv, ok-err}
use luks_android.Scsi.Command.Wire.Writes.{Confirmed, command_out_lem}
use luks_android.Scsi.Blocks.{read_capacity, read_cdb, write_cdb}
use luks_android.Scsi.Open.{open_device, inquiry, parse_inquiry, wait_ready, test_unit_ready}
use luks_android.Scsi.Open.Geometry.{open_device_lem}
use luks_android.Scsi.Blocks.Requests.{request, block_cdb_lem}

record Bus : Type 0 where
  sent : List ℕ
  received : List ℕ
  answers : List (List ℕ)

abbrev answer : ℕ → List (List ℕ) → Bus → Result (List ℕ) × Bus
answer n [] s = (err (usb_transfer "no answer"), s)
answer n (b ∷ bs) s = (ok (take n b), record s { received = s.received ++ take n b; answers = bs })

abbrev scripted : BulkTransport Bus
scripted = record {
  write = λ b s. (ok (length b), record s { sent = s.sent ++ take (length b) b });
  read = λ n s. answer n s.answers s;
  max_transfer = 131072;
  clear_halt = λ endpoint_in s. (ok tt, s);
  reset = λ s. (ok tt, s);
}

answer-Ends : (n : ℕ) (bs : List (List ℕ)) (s : Bus) → is_corrupt (answer n bs s).0 ≡ false
answer-Ends n [] s = refl
answer-Ends n (b ∷ bs) s = refl

scripted-IsBus : IsBus scripted
scripted-IsBus = record {
  write = λ b s. refl;
  read = λ n s. answer-Ends n s.answers s;
  clear_halt = λ endpoint_in s. refl;
}

take_few : (n : ℕ) (xs : List ℕ) → length (take n xs) ≤ n
take_few zero xs = omega arith
take_few (suc n) [] = omega arith
take_few (suc n) (x ∷ xs) = omega (arith, take_few n xs)

answer-ok :
    (n : ℕ) (bs : List (List ℕ)) (s after : Bus) (b : List ℕ)
    → answer n bs s ≡ (ok b, after)
    → (after.sent ≡ s.sent) × (after.received ≡ s.received ++ b) × (length b ≤ n)
answer-ok n [] s after b h = absurd (ok-err (usb_transfer "no answer") b s after h)
answer-ok n (x ∷ xs) s after b h =
    let (same, still) =
      ok-inv (take n x) b (record s { received = s.received ++ take n x; answers = xs }) after h in
    (
      ap (λ r. r.sent) (sym still),
      ap (λ r. r.received) (sym still) ∙ ap (λ ys. s.received ++ ys) same,
      omega (arith, ap length same, take_few n x),
    )

answer-err :
    (n : ℕ) (bs : List (List ℕ)) (s after : Bus) (e : LuksError)
    → answer n bs s ≡ (err e, after)
    → (after.sent ≡ s.sent) × (after.received ≡ s.received)
answer-err n [] s after e h = (ap (λ r. r.1.sent) (sym h), ap (λ r. r.1.received) (sym h))
answer-err n (x ∷ xs) s after e h = absurd (
    ok-err e (take n x) after (record s { received = s.received ++ take n x; answers = xs })
      (sym h))

scripted-IsWire : IsWire scripted (λ s. s.sent) (λ s. s.received)
scripted-IsWire = record {
  write_ok = λ b s after n h.
      let (same, still) =
        ok-inv (length b) n (record s { sent = s.sent ++ take (length b) b }) after h in
      (
        ap (λ r. r.sent) (sym still) ∙ ap (λ k. s.sent ++ take k b) same,
        ap (λ r. r.received) (sym still),
      );
  read_ok = λ n s after b h. answer-ok n s.answers s after b h;
  read_err = λ n s after e h. answer-err n s.answers s after e h;
  halt_ok = λ endpoint_in s after h. (ap (λ r. r.1.sent) (sym h), ap (λ r. r.1.received) (sym h));
}

-- An empty answer first, then a status in two parts: passed, with tag 7 and nothing left over.
abbrev bus : Bus
bus = record {
  sent = [];
  received = [];
  answers = [] ∷ (0x55 ∷ 0x53 ∷ 0x42 ∷ 0x53 ∷ 7 ∷ []) ∷ (0 ∷ 0 ∷ 0 ∷ 0 ∷ 0 ∷ 0 ∷ 0 ∷ 0 ∷ []) ∷ [];
}

abbrev device : ScsiBlockDevice Bus
device = record {
  bus = bus;
  capacity = record { blocks = 8; block_size = 4 };
  tag = 7;
  no_flush_command = false;
}

abbrev four : List ℕ
four = 1 ∷ 2 ∷ 3 ∷ 4 ∷ []

abbrev cdb : List ℕ
cdb = 0x2A ∷ 0 ∷ 0 ∷ 0 ∷ 0 ∷ 3 ∷ 0 ∷ 0 ∷ 1 ∷ 0 ∷ []

abbrev finished : ScsiBlockDevice Bus
finished = (command_out scripted cdb four device).1

wrote : command_out scripted cdb four device ≡ (ok 4, finished)
unfolding command_out send encode new_command out_from read_status csw_from decode status_of
    conclude
wrote = refl

command_out_lem_example :
    Confirmed scripted (λ s. s.sent) (λ s. s.received) scripted-IsWire cdb four device finished 4
command_out_lem_example =
    command_out_lem scripted (λ s. s.sent) (λ s. s.received) scripted-IsWire cdb four device
      finished 4 wrote

command_lem_example :
    Ends (command scripted cdb out_to_device four) × Ends (command_out scripted cdb four)
command_lem_example = command_lem scripted scripted-IsBus cdb out_to_device four

block_cdb_lem_example :
    (request 0x28 0x88 (read_cdb 0xFFFFFFFF 2) ≡ some (0xFFFFFFFF, 2))
    × (request 0x2A 0x8A (write_cdb 0xFFFFFFFF 2) ≡ some (0xFFFFFFFF, 2))
block_cdb_lem_example = block_cdb_lem 0xFFFFFFFF 2 (omega arith) (omega arith) (omega arith)

abbrev passed_with : ℕ → List ℕ
passed_with tag = 0x55 ∷ 0x53 ∷ 0x42 ∷ 0x53 ∷ tag ∷ zeros 8

-- A drive with sixteen blocks of 512 bytes.
abbrev plugged : Bus
plugged = record {
  sent = [];
  received = [];
  answers =
      zeros 36
      ∷ passed_with 1
      ∷ passed_with 2
      ∷ (0 ∷ 0 ∷ 0 ∷ 15 ∷ 0 ∷ 0 ∷ 2 ∷ 0 ∷ [])
      ∷ passed_with 3
      ∷ [];
}

abbrev opened : ScsiBlockDevice Bus
opened = (open_device scripted (λ b. "") plugged).1

opens : open_device scripted (λ b. "") plugged ≡ (ok tt, opened)
unfolding open_device inquiry parse_inquiry command exchange send encode new_command flags
    data_phase in_from read_status csw_from decode status_of conclude wait_ready test_unit_ready
    read_capacity
opens = refl

open_device_lem_example : (k : ℕ) × (opened.capacity.block_size ≡ 2 ^ k)
open_device_lem_example = open_device_lem scripted (λ b. "") plugged opened opens

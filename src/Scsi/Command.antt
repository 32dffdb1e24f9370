-- ===== src/Scsi/Command.antt =====
-- core/src/usb/scsi.rs: one command over the transport: its command block, the data, the status.
-- The log of the commands (`forensic::record_scsi`) is left out.
pub mod Ends
pub mod Wire
use Prim.Native.String.{String}
use luks_android.Prelude.{
  if◌then◌else◌, ℕ, zero, suc, ◌+◌, ◌-◌, ◌%◌, ◌^◌, Bool, true, false, not, ◌&&◌, Option, none, some,
  List, [], ◌∷◌, ◌++◌, length, drop, ◌==◌, bit_and,
}
use luks_android.Prelude.Bytes.{byte, zeros}
use luks_android.Error.{
  LuksError, Result, ok, err, corrupt_fs, scsi_protocol, scsi_command_failed, is_disconnected,
  Sense,
}
use luks_android.Bot.{
  Direction, in_to_host, out_to_device, no_data, new_command, encode, decode, CommandStatusWrapper,
  CswStatus, passed, failed, phase_error, csw_len,
}
use luks_android.Scsi.{
  BulkTransport, ScsiBlockDevice, Act, return, fail, lift, attempt, on_ok, ◌>>=◌, ◌>>◌, on_bus,
}

abbrev pub out_of_fuel : LuksError
out_of_fuel = corrupt_fs "out of fuel"

abbrev pub no_csw : LuksError
no_csw = scsi_protocol "no CSW"

abbrev pub parse_sense : List ℕ → Sense
parse_sense b = record { key = bit_and (byte b 2) 0x0F; asc = byte b 12; ascq = byte b 13 }

abbrev pub is_out : Direction → Bool
is_out in_to_host = false
is_out out_to_device = true
is_out no_data = false

abbrev pub sense_of : Result (List ℕ) → Option Sense
sense_of (ok b) = some (parse_sense b)
sense_of (err e) = none

module _ {S : Type 0} where
  abbrev pub next_tag : Act (ScsiBlockDevice S) ℕ
  next_tag d = (ok d.tag, record d { tag = (d.tag + 1) % 2 ^ 32 })

  module _ (t : BulkTransport S) where
    -- The error after a reset, whose own failure is dropped.
    abbrev pub reset_then : {A : Type 0} → LuksError → Act (ScsiBlockDevice S) A
    reset_then e = attempt (on_bus t.reset) (λ r. fail e)

    abbrev pub recovered : {A : Type 0} → Result A → Act (ScsiBlockDevice S) A
    recovered (ok a) = return a
    recovered (err e) = reset_then e

    abbrev pub recover : {A : Type 0} → Act (ScsiBlockDevice S) A → Act (ScsiBlockDevice S) A
    recover step = attempt step recovered

    -- The loop of the data phase towards the drive: the bytes left, and how many are transferred.
    unfoldable pub out_from : List ℕ → ℕ → ℕ → Act (ScsiBlockDevice S) ℕ
    out_from [] fuel transferred = return transferred
    out_from (x ∷ xs) zero transferred = fail out_of_fuel
    out_from (x ∷ xs) (suc fuel) transferred = recover (on_bus (t.write (x ∷ xs))) >>= λ n.
        elim (n == 0) [
          | true ↦ return transferred
          | false ↦ out_from (drop n (x ∷ xs)) fuel (transferred + n)
        ]

    -- The loop of the data phase from the drive: the room left in the buffer, and what is received.
    unfoldable pub in_from : ℕ → ℕ → List ℕ → Act (ScsiBlockDevice S) (List ℕ)
    in_from zero fuel received = return received
    in_from (suc room) zero received = fail out_of_fuel
    in_from (suc room) (suc fuel) received = recover (on_bus (t.read (suc room))) >>= λ b.
        elim (length b == 0) [
          | true ↦ return received
          | false ↦ in_from (suc room - length b) fuel (received ++ b)
        ]

    -- The number of bytes transferred, and the buffer behind it. Each transfer that does not end the
    -- loop moves a byte at least.
    unfoldable pub data_phase : Direction → List ℕ → Act (ScsiBlockDevice S) (ℕ × List ℕ)
    data_phase in_to_host buf = in_from (length buf) (length buf) [] >>= λ received.
        return (length received, received ++ drop (length received) buf)
    data_phase out_to_device buf = out_from buf (length buf) 0 >>= λ n. return (n, buf)
    data_phase no_data buf = return (0, buf)

    abbrev pub halt_cleared : Result (Unit {0}) → Act (ScsiBlockDevice S) (Unit {0})
    halt_cleared (ok u) = return u
    halt_cleared (err e) = if is_disconnected e then fail e else reset_then e

    abbrev pub clear_stall : Act (ScsiBlockDevice S) (Unit {0})
    clear_stall = attempt (on_bus (t.clear_halt true)) halt_cleared

    -- What the read of the status makes of its answer: it goes on with what arrived, and clears a
    -- stall or an empty answer once, to read again.
    abbrev pub after_read :
        Act (ScsiBlockDevice S) (List ℕ)
        → (List ℕ → Act (ScsiBlockDevice S) (List ℕ))
        → Bool
        → Result (List ℕ)
        → Act (ScsiBlockDevice S) (List ℕ)
    after_read retry more true (ok []) = reset_then no_csw
    after_read retry more false (ok []) = clear_stall >> retry
    after_read retry more cleared (ok (x ∷ xs)) = more (x ∷ xs)
    after_read retry more true (err e) = if is_disconnected e then fail e else reset_then e
    after_read retry more false (err e) =
        if is_disconnected e then fail e else (clear_stall >> retry)

    -- The loop that reads the status, of which `left` bytes are missing.
    unfoldable pub csw_from : ℕ → ℕ → List ℕ → Bool → Act (ScsiBlockDevice S) (List ℕ)
    csw_from zero fuel got cleared = return got
    csw_from (suc left) zero got cleared = fail out_of_fuel
    csw_from (suc left) (suc fuel) got cleared = attempt (on_bus (t.read (suc left))) (
        after_read (csw_from (suc left) fuel got true)
          (λ b. csw_from (suc left - length b) fuel (got ++ b) cleared) cleared)

    abbrev pub check_sent : ℕ → List ℕ → ℕ → Act (ScsiBlockDevice S) ℕ
    check_sent tag encoded sent =
        if sent == length encoded then return tag else fail (scsi_protocol "short CBW write")

    abbrev pub transmit : ℕ → List ℕ → Act (ScsiBlockDevice S) ℕ
    transmit tag encoded = recover (on_bus (t.write encoded)) >>= check_sent tag encoded

    -- The command block, sent in one piece; the answer is its tag.
    unfoldable pub send : List ℕ → ℕ → Direction → Act (ScsiBlockDevice S) ℕ
    send cdb len direction = next_tag >>= λ tag.
        lift (encode (new_command tag (len % 2 ^ 32) direction cdb)) >>= transmit tag

    abbrev pub check_tag : ℕ → CommandStatusWrapper → Act (ScsiBlockDevice S) CommandStatusWrapper
    check_tag tag csw =
        if csw.tag == tag then return csw else fail (scsi_protocol "CSW tag mismatch")

    -- One byte at least arrives in each round but that which clears a stall.
    unfoldable pub read_status : ℕ → Act (ScsiBlockDevice S) CommandStatusWrapper
    read_status tag =
        csw_from csw_len (csw_len + 1) [] false >>= λ b. lift (decode b) >>= check_tag tag

    -- What the status makes of the command; `why` asks the drive for the reason of a failure, and
    -- `text` names a phase error.
    unfoldable pub conclude :
        String
        → Act (ScsiBlockDevice S) (Option Sense)
        → ℕ
        → Direction
        → ℕ
        → CommandStatusWrapper
        → Act (ScsiBlockDevice S) ℕ
    conclude text why opcode direction transferred csw = elim csw.status [
      | passed ↦
          if is_out direction && not (csw.data_residue == 0)
          then fail (scsi_protocol "drive committed less than the full data phase")
          else return transferred
      | failed ↦ why >>= λ sense. fail (scsi_command_failed opcode sense)
      | phase_error ↦ reset_then (scsi_protocol text)
    ]

    -- One exchange; the answer is the number of bytes transferred and the buffer behind it.
    unfoldable pub exchange :
        Act (ScsiBlockDevice S) (Option Sense)
        → List ℕ
        → Direction
        → List ℕ
        → Act (ScsiBlockDevice S) (ℕ × List ℕ)
    exchange why cdb direction buf = send cdb (length buf) direction >>= λ tag.
        data_phase direction buf >>= λ r. read_status tag >>= λ csw.
        conclude "phase error" why (byte cdb 0) direction r.0 csw >>= λ n. return (n, r.1)

    -- `command_inner` without the question why, for the command that asks it.
    pub request_sense : Act (ScsiBlockDevice S) (List ℕ)
    request_sense =
        exchange (return none) (0x03 ∷ 0 ∷ 0 ∷ 0 ∷ 18 ∷ 0 ∷ []) in_to_host (zeros 18) >>= λ (n, b).
        return b

    pub ask_why : Act (ScsiBlockDevice S) (Option Sense)
    ask_why = attempt request_sense (λ r. return (sense_of r))

    unfoldable pub command : List ℕ → Direction → List ℕ → Act (ScsiBlockDevice S) (ℕ × List ℕ)
    command cdb direction buf = exchange ask_why cdb direction buf

    -- `command_out_inner`, always with the question why.
    unfoldable pub command_out : List ℕ → List ℕ → Act (ScsiBlockDevice S) ℕ
    command_out cdb buf = send cdb (length buf) out_to_device >>= λ tag.
        out_from buf (length buf) 0 >>= λ transferred. read_status tag >>= λ csw.
        conclude "CSW phase error" ask_why (byte cdb 0) out_to_device transferred csw

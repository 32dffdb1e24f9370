-- ===== src/Scsi/Command/Ends/Exchange.antt =====
-- core/src/usb/scsi.rs: the loop that reads a status ends, and a whole command.
use luks_android.Prelude.{
  ℕ, zero, suc, ◌+◌, ◌-◌, ◌%◌, ◌^◌, ◌≤◌, ◌≡◌, refl, inl, inr, Bool, true, false, not, ◌&&◌, Option,
  List, [], ◌∷◌, ◌++◌, length, ◌==◌, ◌||◌, ltb, Bool-cases, arith,
}
use mathlib.Core.Bool.{true≢false}
use luks_android.Prelude.Bytes.{byte, slice, from_le, u32le}
use Prim.Native.String.{String}
use luks_android.Error as E
use luks_android.Error.{
  LuksError, Result, ok, err, corrupt_fs, scsi_protocol, scsi_command_failed, is_disconnected,
  Sense,
}
use luks_android.Bot.{
  Direction, out_to_device, new_command, encode, decode, CommandStatusWrapper, status_of,
  csw_signature, CommandBlockWrapper, CswStatus, passed, failed, phase_error, csw_len,
}
use luks_android.Scsi.{BulkTransport, ScsiBlockDevice, Act, return, fail, lift, ◌>>=◌, on_bus}
use luks_android.Scsi.Command.{
  next_tag, recover, out_from, data_phase, halt_cleared, clear_stall, after_read, csw_from,
  check_sent, transmit, check_tag, is_out, send, read_status, conclude, exchange, ask_why, command,
  command_out,
}
use luks_android.Scsi.Command.Ends.{
  is_corrupt, Ends, IsBus, attempt-Ends, bind-Ends, on_bus-Ends, recover-Ends, out_from-Ends,
  data_phase-Ends,
}

module _ {S : Type 0} (t : BulkTransport S) (bus : IsBus t) where
  clear_stall-Ends : Ends (clear_stall t)
  clear_stall-Ends =
      attempt-Ends (on_bus (t.clear_halt true)) (halt_cleared t)
        (on_bus-Ends t bus (t.clear_halt true) (bus.clear_halt true)) cases
    where
      cases : (r : Result (Unit {0})) → is_corrupt r ≡ false → Ends (halt_cleared t r)
      cases (ok u) c d = refl
      cases (err e) c d = elim (Bool-cases (is_disconnected e)) [ inl h ↦ rw h c | inr h ↦ rw h c ]

  -- The rounds that are needed for the bytes missing, with the one that may clear a stall.
  abbrev rounds : ℕ → Bool → ℕ
  rounds left true = left
  rounds left false = suc left

  after_read-Ends :
      (retry : Act (ScsiBlockDevice S) (List ℕ)) (more : List ℕ → Act (ScsiBlockDevice S) (List ℕ))
      (cleared : Bool)
      → (cleared ≡ false → Ends retry)
      → ((x : ℕ) (xs : List ℕ) → Ends (more (x ∷ xs)))
      → (r : Result (List ℕ)) → is_corrupt r ≡ false
      → Ends (after_read t retry more cleared r)
  after_read-Ends retry more true h k (ok []) c = λ d. refl
  after_read-Ends retry more false h k (ok []) c =
      bind-Ends (clear_stall t) _ clear_stall-Ends (λ u. h refl)
  after_read-Ends retry more true h k (ok (x ∷ xs)) c = k x xs
  after_read-Ends retry more false h k (ok (x ∷ xs)) c = k x xs
  after_read-Ends retry more true h k (err e) c =
      λ d. elim (Bool-cases (is_disconnected e)) [ inl q ↦ rw q c | inr q ↦ rw q c ]
  after_read-Ends retry more false h k (err e) c = λ d. elim (Bool-cases (is_disconnected e)) [
    | inl q ↦ rw q c
    | inr q ↦ rw q (bind-Ends (clear_stall t) (λ u. retry) clear_stall-Ends (λ u. h refl) d)
  ]

  csw_from-Ends :
      (left fuel : ℕ) (got : List ℕ) (cleared : Bool)
      → rounds left cleared ≤ fuel
      → Ends (csw_from t left fuel got cleared)
  unfolding csw_from
  csw_from-Ends zero fuel got cleared enough = λ d. refl
  csw_from-Ends (suc left) zero got true enough = absurd (omega arith)
  csw_from-Ends (suc left) zero got false enough = absurd (omega arith)
  csw_from-Ends (suc left) (suc fuel) got true enough =
      attempt-Ends (on_bus (t.read (suc left)))
        (after_read t (csw_from t (suc left) fuel got true)
          (λ b. csw_from t (suc left - length b) fuel (got ++ b) true) true)
        (on_bus-Ends t bus (t.read (suc left)) (bus.read (suc left)))
        (after_read-Ends (csw_from t (suc left) fuel got true)
          (λ b. csw_from t (suc left - length b) fuel (got ++ b) true) true
          (λ e. absurd (true≢false e))
          (λ x xs.
            csw_from-Ends (suc left - length (x ∷ xs)) fuel (got ++ (x ∷ xs)) true (omega arith)))
  csw_from-Ends (suc left) (suc fuel) got false enough =
      attempt-Ends (on_bus (t.read (suc left)))
        (after_read t (csw_from t (suc left) fuel got true)
          (λ b. csw_from t (suc left - length b) fuel (got ++ b) false) false)
        (on_bus-Ends t bus (t.read (suc left)) (bus.read (suc left)))
        (after_read-Ends (csw_from t (suc left) fuel got true)
          (λ b. csw_from t (suc left - length b) fuel (got ++ b) false) false
          (λ e. csw_from-Ends (suc left) fuel got true (omega arith))
          (λ x xs.
            csw_from-Ends (suc left - length (x ∷ xs)) fuel (got ++ (x ∷ xs)) false (omega arith)))

  encode-Ends : (w : CommandBlockWrapper) → is_corrupt (encode w) ≡ false
  unfolding encode
  encode-Ends w = elim (Bool-cases (length w.cdb == 0 || ltb 16 (length w.cdb))) [
    | inl h ↦ rw h refl
    | inr h ↦ rw h refl
  ]

  transmit-Ends : (tag : ℕ) (encoded : List ℕ) → Ends (transmit t tag encoded)
  transmit-Ends tag encoded =
      bind-Ends (recover t (on_bus (t.write encoded))) (check_sent t tag encoded)
        (recover-Ends t bus (on_bus (t.write encoded))
          (on_bus-Ends t bus (t.write encoded) (bus.write encoded)))
        (λ sent d. elim (Bool-cases (sent == length encoded)) [
          | inl h ↦ rw h refl
          | inr h ↦ rw h refl
        ])

  send-Ends : (cdb : List ℕ) (len : ℕ) (direction : Direction) → Ends (send t cdb len direction)
  unfolding send
  send-Ends cdb len direction =
      bind-Ends next_tag
        (λ tag. lift (encode (new_command tag (len % 2 ^ 32) direction cdb)) >>= transmit t tag)
        (λ d. refl)
        (λ tag.
          bind-Ends (lift (encode (new_command tag (len % 2 ^ 32) direction cdb))) (transmit t tag)
            (λ d. encode-Ends (new_command tag (len % 2 ^ 32) direction cdb)) (transmit-Ends tag))

  status_of-Ends : (n : ℕ) → is_corrupt (status_of n) ≡ false
  unfolding status_of
  status_of-Ends zero = refl
  status_of-Ends (suc zero) = refl
  status_of-Ends (suc (suc zero)) = refl
  status_of-Ends (suc (suc (suc n))) = refl

  decode-Ends : (b : List ℕ) → is_corrupt (decode b) ≡ false
  unfolding decode
  decode-Ends b = elim (Bool-cases (ltb (length b) 13)) [
    | inl h ↦ rw h refl
    | inr long ↦ elim (Bool-cases (not (u32le b 0 == csw_signature))) [
      | inl h ↦ rw (long, h) refl
      | inr h ↦
          rw (long, h)
            (status (status_of (from_le (slice b 12 1))) (status_of-Ends (from_le (slice b 12 1))))
    ]
  ]
    where
      status :
          (r : Result CswStatus)
          → is_corrupt r ≡ false
          → is_corrupt {A = CommandStatusWrapper} (
              E.◌>>=◌ r
                (λ s. ok (record { tag = u32le b 4; data_residue = u32le b 8; status = s })))
            ≡ false
      status (ok s) c = refl
      status (err e) c = c

  read_status-Ends : (tag : ℕ) → Ends (read_status t tag)
  unfolding read_status
  read_status-Ends tag =
      bind-Ends (csw_from t csw_len (csw_len + 1) [] false)
        (λ b. lift (decode b) >>= check_tag t tag)
        (csw_from-Ends csw_len (csw_len + 1) [] false (omega arith))
        (λ b.
          bind-Ends (lift (decode b)) (check_tag t tag) (λ d. decode-Ends b)
            (λ csw d. elim (Bool-cases (csw.tag == tag)) [ inl h ↦ rw h refl | inr h ↦ rw h refl ]))

  conclude-Ends :
      (text : String) (why : Act (ScsiBlockDevice S) (Option Sense))
      → Ends why
      → (opcode : ℕ) (direction : Direction) (transferred : ℕ) (csw : CommandStatusWrapper)
      → Ends (conclude t text why opcode direction transferred csw)
  unfolding conclude
  conclude-Ends text why h opcode direction transferred csw d = by_status csw.status
    where
      by_status :
          (status : CswStatus)
          → is_corrupt
              (conclude t text why opcode direction transferred
                (record csw { status = status })
                d).0
            ≡ false
      by_status passed = elim (Bool-cases (is_out direction && not (csw.data_residue == 0))) [
        | inl q ↦ rw q refl
        | inr q ↦ rw q refl
      ]
      by_status failed =
          bind-Ends why (λ sense. fail (scsi_command_failed opcode sense)) h (λ sense d. refl) d
      by_status phase_error = refl

  exchange-Ends :
      (why : Act (ScsiBlockDevice S) (Option Sense))
      → Ends why
      → (cdb : List ℕ) (direction : Direction) (buf : List ℕ)
      → Ends (exchange t why cdb direction buf)
  unfolding exchange
  exchange-Ends why h cdb direction buf =
      bind-Ends (send t cdb (length buf) direction)
        (λ tag. data_phase t direction buf >>= λ r. read_status t tag >>= λ csw.
          conclude t "phase error" why (byte cdb 0) direction r.0 csw >>= λ n. return (n, r.1))
        (send-Ends cdb (length buf) direction)
        (λ tag.
          bind-Ends (data_phase t direction buf)
            (λ r. read_status t tag >>= λ csw.
              conclude t "phase error" why (byte cdb 0) direction r.0 csw >>= λ n. return (n, r.1))
            (data_phase-Ends t bus direction buf)
            (λ r.
              bind-Ends (read_status t tag)
                (λ csw. conclude t "phase error" why (byte cdb 0) direction r.0 csw >>= λ n.
                  return (n, r.1))
                (read_status-Ends tag)
                (λ csw.
                  bind-Ends (conclude t "phase error" why (byte cdb 0) direction r.0 csw)
                    (λ n. return (n, r.1))
                    (conclude-Ends "phase error" why h (byte cdb 0) direction r.0 csw)
                    (λ n d. refl))))

  ask_why-Ends : Ends (ask_why t)
  unfolding ask_why
  ask_why-Ends d = refl

  -- On a bus that reports no error of a file system, a command with any block and any buffer ends:
  -- it does not run out of the rounds that the loops of its data and of its status are given, and a
  -- write does not either.
  pub command_lem :
      (cdb : List ℕ) (direction : Direction) (buf : List ℕ)
      → Ends (command t cdb direction buf) × Ends (command_out t cdb buf)
  unfolding command command_out
  command_lem cdb direction buf = (
    exchange-Ends (ask_why t) ask_why-Ends cdb direction buf,
    bind-Ends (send t cdb (length buf) out_to_device)
        (λ tag. out_from t buf (length buf) 0 >>= λ transferred. read_status t tag >>= λ csw.
          conclude t "CSW phase error" (ask_why t) (byte cdb 0) out_to_device transferred csw)
        (send-Ends cdb (length buf) out_to_device)
        (λ tag.
          bind-Ends (out_from t buf (length buf) 0)
            (λ transferred. read_status t tag >>= λ csw.
              conclude t "CSW phase error" (ask_why t) (byte cdb 0) out_to_device transferred csw)
            (out_from-Ends t bus buf (length buf) 0 (omega arith))
            (λ transferred.
              bind-Ends (read_status t tag)
                (λ csw.
                  conclude t "CSW phase error" (ask_why t) (byte cdb 0) out_to_device transferred
                    csw)
                (read_status-Ends tag)
                (λ csw.
                  conclude-Ends "CSW phase error" (ask_why t) ask_why-Ends (byte cdb 0)
                    out_to_device transferred csw))),
  )

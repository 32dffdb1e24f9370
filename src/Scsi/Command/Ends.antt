-- ===== src/Scsi/Command/Ends.antt =====
-- core/src/usb/scsi.rs: the loops of a command's data end.
pub mod Exchange
use luks_android.Prelude.{
  ℕ, zero, suc, ◌+◌, ◌-◌, ◌%◌, ◌^◌, ◌≤◌, ◌≡◌, refl, inl, inr, Bool, true, false, not, ◌&&◌, Option,
  List, [], ◌∷◌, ◌++◌, length, length-drop, drop, ◌==◌, ◌||◌, ltb, Bool-cases, arith,
}
use mathlib.Core.Bool.{true≢false}
use luks_android.Prelude.Bytes.{byte, slice, from_le, u32le}
use Prim.Native.String.{String}
use luks_android.Error as E
use luks_android.Error.{
  LuksError, Result, ok, err, corrupt_fs, scsi_protocol, scsi_command_failed, is_disconnected,
  Sense,
}
use luks_android.Bot.{
  Direction, in_to_host, out_to_device, no_data, new_command, encode, decode, CommandStatusWrapper,
  status_of, csw_signature, CommandBlockWrapper, CswStatus, passed, failed, phase_error, csw_len,
}
use luks_android.Scsi.{
  BulkTransport, ScsiBlockDevice, Act, return, fail, lift, attempt, on_ok, ◌>>=◌, on_bus,
}
use luks_android.Scsi.Command.{
  next_tag, reset_then, recovered, recover, out_from, in_from, data_phase, halt_cleared,
  clear_stall, after_read, csw_from, check_sent, transmit, check_tag, is_out, send, read_status,
  conclude, exchange, ask_why, command, command_out,
}

-- Whether an answer is an error of the file system, as the end of the fuel is one.
abbrev pub is_corrupt_error : LuksError → Bool
is_corrupt_error (corrupt_fs w) = true
is_corrupt_error e = false

abbrev pub is_corrupt : {A : Type 0} → Result A → Bool
is_corrupt (ok a) = false
is_corrupt (err e) = is_corrupt_error e

-- A step that does not run out of fuel, from any state.
abbrev pub Ends : {D A : Type 0} → Act D A → Type 0
Ends {D} step = (d : D) → is_corrupt (step d).0 ≡ false

-- A bus reports no error of a file system.
pub record IsBus {S : Type 0} (t : BulkTransport S) : Type 0 where
  pub write : (b : List ℕ) → Ends (t.write b)
  pub read : (n : ℕ) → Ends (t.read n)
  pub clear_halt : (endpoint_in : Bool) → Ends (t.clear_halt endpoint_in)

pub attempt-Ends :
    {D A B : Type 0} (step : Act D A) (next : Result A → Act D B)
    → Ends step
    → ((r : Result A) → is_corrupt r ≡ false → Ends (next r))
    → Ends (attempt step next)
attempt-Ends step next h k d = k (step d).0 (h d) (step d).1

pub bind-Ends :
    {D A B : Type 0} (step : Act D A) (next : A → Act D B)
    → Ends step
    → ((a : A) → Ends (next a))
    → Ends (step >>= next)
bind-Ends {A} {B} step next h k = attempt-Ends step (on_ok next) h cases
  where
    cases : (r : Result A) → is_corrupt r ≡ false → Ends (on_ok next r)
    cases (ok a) c = k a
    cases (err e) c = λ d. c

return-Ends : {D A : Type 0} (a : A) → Ends (return {D = D} a)
return-Ends a d = refl

module _ {S : Type 0} (t : BulkTransport S) (bus : IsBus t) where
  pub on_bus-Ends : {A : Type 0} (step : Act S A) → Ends step → Ends (on_bus step)
  on_bus-Ends step h d = h d.bus

  reset_then-Ends :
      (A : Type 0) (e : LuksError) → is_corrupt_error e ≡ false → Ends (reset_then t {A = A} e)
  reset_then-Ends A e c d = c

  pub recover-Ends :
      {A : Type 0} (step : Act (ScsiBlockDevice S) A) → Ends step → Ends (recover t step)
  recover-Ends {A} step h = attempt-Ends step (recovered t) h cases
    where
      cases : (r : Result A) → is_corrupt r ≡ false → Ends (recovered t r)
      cases (ok a) c d = refl
      cases (err e) c d = c

  pub out_from-Ends :
      (buf : List ℕ) (fuel transferred : ℕ)
      → length buf ≤ fuel
      → Ends (out_from t buf fuel transferred)
  unfolding out_from
  out_from-Ends [] fuel transferred enough = λ d. refl
  out_from-Ends (x ∷ xs) zero transferred enough = absurd (omega arith)
  out_from-Ends (x ∷ xs) (suc fuel) transferred enough =
      bind-Ends (recover t (on_bus (t.write (x ∷ xs)))) _
        (recover-Ends (on_bus (t.write (x ∷ xs)))
          (on_bus-Ends (t.write (x ∷ xs)) (bus.write (x ∷ xs))))
        (λ n. elim (Bool-cases (n == 0)) [
          | inl none_sent ↦ λ d. rw none_sent refl
          | inr some_sent ↦ λ d. rw some_sent (
              out_from-Ends (drop n (x ∷ xs)) fuel (transferred + n)
                (ground (arith, length-drop n (x ∷ xs))) d)
        ])

  pub in_from-Ends :
      (room fuel : ℕ) (received : List ℕ) → room ≤ fuel → Ends (in_from t room fuel received)
  unfolding in_from
  in_from-Ends zero fuel received enough = λ d. refl
  in_from-Ends (suc room) zero received enough = absurd (omega arith)
  in_from-Ends (suc room) (suc fuel) received enough =
      bind-Ends (recover t (on_bus (t.read (suc room)))) _
        (recover-Ends (on_bus (t.read (suc room)))
          (on_bus-Ends (t.read (suc room)) (bus.read (suc room))))
        (λ b. elim (Bool-cases (length b == 0)) [
          | inl none_came ↦ λ d. rw none_came refl
          | inr some_came ↦ λ d.
              rw some_came
                (in_from-Ends (suc room - length b) fuel (received ++ b) (ground arith) d)
        ])

  pub data_phase-Ends : (direction : Direction) (buf : List ℕ) → Ends (data_phase t direction buf)
  unfolding data_phase
  data_phase-Ends in_to_host buf =
      bind-Ends (in_from t (length buf) (length buf) []) _
        (in_from-Ends (length buf) (length buf) [] (omega arith)) (λ received d. refl)
  data_phase-Ends out_to_device buf =
      bind-Ends (out_from t buf (length buf) 0) _ (out_from-Ends buf (length buf) 0 (omega arith))
        (λ n d. refl)
  data_phase-Ends no_data buf = λ d. refl

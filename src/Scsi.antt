-- ===== src/Scsi.antt =====
-- core/src/usb/mod.rs and core/src/usb/scsi.rs: a drive behind a USB bulk transport, its state and
-- the steps that change it.
pub mod Command
pub mod Blocks
pub mod ByteAccess
pub mod Open
mod Runs
mod DiskRuns
use luks_android.Prelude.{ℕ, ◌+◌, ◌*◌, ◌%◌, ◌^◌, Bool, true, false, List, Option}
use luks_android.Prelude.Words.{u64_mod}
use luks_android.Error.{LuksError, Result, ok, err}

-- The two bulk endpoints over the state `S` of the bus. `write` answers the number of bytes that the
-- drive accepted, `read` the bytes that arrived in a buffer of the given length.
pub record BulkTransport (S : Type 0) : Type 0 where
  pub write : List ℕ → S → Result ℕ × S
  pub read : ℕ → S → Result (List ℕ) × S
  pub max_transfer : ℕ
  pub clear_halt : Bool → S → Result (Unit {0}) × S
  pub reset : S → Result (Unit {0}) × S

pub record Capacity : Type 0 where
  pub blocks : ℕ
  pub block_size : ℕ

abbrev pub bytes : Capacity → ℕ
bytes c = (c.blocks * c.block_size) % u64_mod

pub record ScsiBlockDevice (S : Type 0) : Type 0 where
  pub bus : S
  pub capacity : Capacity
  pub tag : ℕ
  pub no_flush_command : Bool

-- A step on a state, which may fail; the state is changed by a failed step also.
abbrev pub Act : Type 0 → Type 0 → Type 0
Act D A = D → Result A × D

abbrev pub return : {D A : Type 0} → A → Act D A
return a d = (ok a, d)

abbrev pub fail : {D A : Type 0} → LuksError → Act D A
fail e d = (err e, d)

abbrev pub lift : {D A : Type 0} → Result A → Act D A
lift r d = (r, d)

-- The step `next` on the result of a step, an error included.
abbrev pub attempt : {D A B : Type 0} → Act D A → (Result A → Act D B) → Act D B
attempt step next d = next (step d).0 (step d).1

abbrev pub on_ok : {D A B : Type 0} → (A → Act D B) → Result A → Act D B
on_ok next (ok a) = next a
on_ok next (err e) = fail e

infixl 5 ◌>>=◌
abbrev pub ◌>>=◌ : {D A B : Type 0} → Act D A → (A → Act D B) → Act D B
step >>= next = attempt step (on_ok next)

infixl 5 ◌>>◌
abbrev pub ◌>>◌ : {D A B : Type 0} → Act D A → Act D B → Act D B
step >> next = step >>= λ a. next

-- A step of the transport.
abbrev pub on_bus : {S A : Type 0} → Act S A → Act (ScsiBlockDevice S) A
on_bus step d = ((step d.bus).0, record d { bus = (step d.bus).1 })

-- ===== src/Error.antt =====
-- core/src/error.rs: the error values that the modelled code returns.
use Prim.Native.Nat.{ℕ}
use Prim.Native.String.{String, find, len}
use mathlib.Core.Bool.{Bool, true, false, ◌||◌}
use luks_android.Prelude.{◌==◌, leb}
use mathlib.Core.List.{List}
use mathlib.Core.Option.{Option, none, some}
use mathlib.Core.Path.{◌≡◌, refl}

-- `Sense` of core/src/usb/scsi.rs.
pub record Sense : Type 0 where
  pub key : ℕ
  pub asc : ℕ
  pub ascq : ℕ

-- The error of JSON parsing that `json_parse` wraps is left out; of an error of the system `io` keeps
-- its number.
pub data LuksError : Type 0 where
  bad_magic : List ℕ → LuksError
  unsupported_version : ℕ → LuksError
  luks1_not_implemented : LuksError
  truncated : (needed got : ℕ) → LuksError
  implausible_header_size : ℕ → LuksError
  checksum_mismatch : LuksError
  unsupported_checksum_alg : String → LuksError
  json_not_utf8 json_parse : LuksError
  bad_integer_field : (field value : String) → LuksError
  missing_field kdf_failed unsupported_hash unsupported_cipher unsupported_digest :
      String → LuksError
  bad_key_length : ℕ → LuksError
  wrong_password : LuksError
  bad_sector_size : ℕ → LuksError
  out_of_bounds : LuksError
  not_ext4 : ℕ → LuksError
  not_btrfs : List ℕ → LuksError
  unknown_fs : LuksError
  unsupported_fs : String → LuksError
  ambiguous_fs : LuksError
  fs_checksum_mismatch unsupported_fs_feature : String → LuksError
  fs_needs_recovery : LuksError
  bad_extent_header : ℕ → LuksError
  bad_extent_tree : String → LuksError
  bad_inode : ℕ → LuksError
  not_found not_a_directory is_a_directory directory_not_empty : String → LuksError
  symlink_loop corrupt_fs already_exists : String → LuksError
  writer_busy filesystem_full : LuksError
  btrfs_item_too_large : (what : String) → (item_bytes node_size : ℕ) → LuksError
  no_free_inodes : LuksError
  wrong_write_target : (path : String) → (expected : ℕ) → (detail : String) → LuksError
  unverifiable_write_target scsi_protocol : String → LuksError
  scsi_command_failed : ℕ → Option Sense → LuksError
  usb_transfer : String → LuksError
  no_partition_table : LuksError
  bad_gpt : String → LuksError
  io : (path : String) → (os_error : Option ℕ) → LuksError
  session_poisoned cancelled : LuksError
  write_session_fenced : String → LuksError
  read_only_volume : LuksError

-- Whether an error leaves the state of the drive unknown.
unfoldable pub fences_write_session : LuksError → Bool
fences_write_session (scsi_protocol w) = true
fences_write_session (scsi_command_failed opcode sense) = true
fences_write_session (usb_transfer w) = true
fences_write_session (io path os_error) = true
fences_write_session session_poisoned = true
fences_write_session (write_session_fenced w) = true
fences_write_session e = false

-- `find` answers a place behind the text if the part does not occur.
abbrev pub contains : String → String → Bool
contains text part = leb (find text part) (len text)

abbrev pub is_error_number : Option ℕ → Bool
is_error_number none = false
is_error_number (some n) = n == 19 || n == 9 || n == 108

-- Whether an error says that the drive is gone.
pub is_disconnected : LuksError → Bool
is_disconnected (usb_transfer text) =
    contains text "No such device"
    || contains text "Bad file descriptor"
    || contains text "endpoint shutdown"
    || contains text "errno 108"
    || contains text "ESHUTDOWN"
    || contains text "dead"
is_disconnected (io path os_error) = is_error_number os_error
is_disconnected e = false

pub data Result {ℓ} (A : Type ℓ) : Type ℓ where
  ok : A → Result A
  err : LuksError → Result A

-- The `?` operator: the first error ends the computation.
infixl 5 ◌>>=◌
abbrev pub ◌>>=◌ {ℓ κ} : {T : Type ℓ} {U : Type κ} → Result T → (T → Result U) → Result U
err why >>= next = err why
ok value >>= next = next value

infixl 5 ◌>>◌
abbrev pub ◌>>◌ {κ} : {U : Type κ} → Result (Unit {0}) → Result U → Result U
check >> next = check >>= λ passed. next

-- The test of a guard, and the error if it holds.
abbrev pub refuse_if : Bool → LuksError → Result (Unit {0})
refuse_if true e = err e
refuse_if false e = ok tt

-- `opt.ok_or(e)`
abbrev pub ok_or {ℓ} : {A : Type ℓ} → Option A → LuksError → Result A
ok_or none e = err e
ok_or (some a) e = ok a

-- What a computation that succeeds went through.
pub >>=-eq-ok {ℓ κ} :
    {T : Type ℓ} {U : Type κ} (r : Result T) (next : T → Result U) {value : U}
    → (r >>= next) ≡ ok value
    → (between : T) × (r ≡ ok between) × (next between ≡ ok value)
>>=-eq-ok (err why) next done = cc
>>=-eq-ok (ok between) next done = (between, refl, done)

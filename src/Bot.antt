-- ===== src/Bot.antt =====
-- core/src/usb/bot.rs: the command and status wrappers of the USB bulk-only transport.
mod Tests
use luks_android.Prelude.{
  ℕ, zero, suc, ◌+◌, ◌*◌, ◌-◌, ◌%◌, ◌^◌, ◌≤◌, ◌<◌, ◌≡◌, refl, sym, ap, ◌∙◌, ◌==◌, ◌||◌, not, ltb,
  ge→ltb, Bool, true, false, List, [], ◌∷◌, ◌++◌, length, length-append, take, drop, bit_and, arith,
}
use luks_android.Prelude.{if◌then◌else◌}
use luks_android.Prelude.Bytes.{
  zeros, to_le, from_le, from_le-to_le, slice, u32le, take-append, length-zeros,
}
use luks_android.Error.{Result, ok, err, scsi_protocol, ◌>>=◌, ◌>>◌}

abbrev pub cbw_signature : ℕ
cbw_signature = 0x43425355

abbrev pub csw_signature : ℕ
csw_signature = 0x53425355

abbrev pub cbw_len : ℕ
cbw_len = 31

abbrev pub csw_len : ℕ
csw_len = 13

abbrev pub max_cdb_len : ℕ
max_cdb_len = 16

pub data Direction : Type 0 where
  in_to_host out_to_device no_data : Direction

unfoldable pub flags : Direction → ℕ
flags in_to_host = 0x80
flags out_to_device = 0
flags no_data = 0

pub record CommandBlockWrapper : Type 0 where
  pub tag : ℕ
  pub data_transfer_length : ℕ
  pub direction : Direction
  pub lun : ℕ
  pub cdb : List ℕ

unfoldable pub new_command : ℕ → ℕ → Direction → List ℕ → CommandBlockWrapper
new_command tag data_transfer_length direction cdb = record {
  tag = tag;
  data_transfer_length = data_transfer_length;
  direction = direction;
  lun = 0;
  cdb = cdb;
}

-- The 15 bytes in front of the command block.
abbrev pub cbw_head : CommandBlockWrapper → List ℕ
cbw_head w =
    to_le 4 cbw_signature
    ++ (to_le 4 w.tag
        ++ (to_le 4 w.data_transfer_length
            ++ (flags w.direction ∷ bit_and w.lun 0x0F ∷ length w.cdb % 256 ∷ [])))

unfoldable pub encode : CommandBlockWrapper → Result (List ℕ)
encode w =
    if length w.cdb == 0 || ltb max_cdb_len (length w.cdb)
    then err (scsi_protocol "CDB length out of range")
    else ok (cbw_head w ++ (w.cdb ++ zeros (max_cdb_len - length w.cdb)))

pub data CswStatus : Type 0 where
  passed failed phase_error : CswStatus

pub record CommandStatusWrapper : Type 0 where
  pub tag : ℕ
  pub data_residue : ℕ
  pub status : CswStatus

unfoldable pub status_of : ℕ → Result CswStatus
status_of zero = ok passed
status_of (suc zero) = ok failed
status_of (suc (suc zero)) = ok phase_error
status_of (suc (suc (suc n))) = err (scsi_protocol "reserved CSW status")

unfoldable pub decode : List ℕ → Result CommandStatusWrapper
decode b =
    if ltb (length b) csw_len
    then err (scsi_protocol "CSW too short")
    else if not (u32le b 0 == csw_signature)
    then err (scsi_protocol "bad CSW signature")
    else (status_of (from_le (slice b 12 1)) >>= λ status.
        ok (record { tag = u32le b 4; data_residue = u32le b 8; status = status }))

-- A command wrapper as the device reads it.
pub record IsEncoded (w : CommandBlockWrapper) (b : List ℕ) : Type 0 where
  pub whole : length b ≡ cbw_len
  pub signed : u32le b 0 ≡ cbw_signature
  pub same_tag : u32le b 4 ≡ w.tag
  pub same_length : u32le b 8 ≡ w.data_transfer_length
  pub cdb_length : from_le (slice b 14 1) ≡ length w.cdb
  pub same_cdb : slice b 15 (length w.cdb) ≡ w.cdb

-- A wrapper with a command block of 1 to 16 bytes and fields of 32 bits is encoded in 31 bytes, from
-- which the signature, the tag, the transfer length, and the command block are read back.
pub encode_lem :
    (w : CommandBlockWrapper)
    → w.tag < 2 ^ 32
    → w.data_transfer_length < 2 ^ 32
    → 0 < length w.cdb
    → length w.cdb ≤ max_cdb_len
    → (b : List ℕ) × (encode w ≡ ok b) × IsEncoded w b
unfolding encode
encode_lem w t d p q = (
  cbw_head w ++ (w.cdb ++ zeros (max_cdb_len - length w.cdb)),
  ground arith,
  record {
    whole = omega (
      arith,
      length-append w.cdb (zeros (max_cdb_len - length w.cdb)),
      length-zeros (max_cdb_len - length w.cdb),
    );
    signed = refl;
    same_tag = from_le-to_le 4 w.tag t;
    same_length = from_le-to_le 4 w.data_transfer_length d;
    cdb_length = omega arith;
    same_cdb = take-append w.cdb (zeros (max_cdb_len - length w.cdb));
  },
)

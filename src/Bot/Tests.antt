-- ===== src/Bot/Tests.antt =====
-- Concrete command and status wrappers.
use luks_android.Prelude.{ℕ, ◌≡◌, refl, List, [], ◌∷◌, arith}
use luks_android.Error.{ok, err, scsi_protocol}
use luks_android.Bot.{
  CommandBlockWrapper, in_to_host, encode, IsEncoded, encode_lem, decode, failed, status_of,
}

-- READ CAPACITY (10)
abbrev read_capacity : CommandBlockWrapper
read_capacity = record {
  tag = 1;
  data_transfer_length = 8;
  direction = in_to_host;
  lun = 0;
  cdb = 0x25 ∷ 0 ∷ 0 ∷ 0 ∷ 0 ∷ 0 ∷ 0 ∷ 0 ∷ 0 ∷ 0 ∷ [];
}

encode_lem_example : (b : List ℕ) × (encode read_capacity ≡ ok b) × IsEncoded read_capacity b
encode_lem_example =
    encode_lem read_capacity (omega arith) (omega arith) (omega arith) (omega arith)

decodes :
    decode (0x55 ∷ 0x53 ∷ 0x42 ∷ 0x53 ∷ 7 ∷ 0 ∷ 0 ∷ 0 ∷ 2 ∷ 1 ∷ 0 ∷ 0 ∷ 1 ∷ [])
    ≡ ok (record { tag = 7; data_residue = 258; status = failed })
unfolding decode status_of
decodes = refl

too_short : decode (0x55 ∷ []) ≡ err (scsi_protocol "CSW too short")
unfolding decode
too_short = refl

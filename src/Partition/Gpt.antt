-- ===== src/Partition/Gpt.antt =====
-- core/src/partition/gpt.rs: the GUID partition table, with its backup. The checksum is that of
-- crc32fast, and names are decoded by the standard library; both are parameters.
pub mod Verified
use Prim.Native.String.{String}
use luks_android.Prelude.{
  ℕ, zero, suc, ◌+◌, ◌*◌, ◌/◌, ◌%◌, ◌==◌, ◌||◌, ltb, Bool, true, false, not, Option, none, some,
  List, [], ◌∷◌, ◌++◌,
}
use luks_android.Prelude.{if◌then◌else◌, length, take, drop}
use luks_android.Prelude.Words.{sub64}
use luks_android.Prelude.Bytes.{zeros, slice, u16le, u32le, u64le, same_bytes}
use luks_android.Error.{LuksError, Result, ok, err, bad_gpt, ◌>>=◌, ◌>>◌, ok_or}
use luks_android.Partition.{Partition, PartitionTable, gpt, ReadAt, mul64}

pub record Header : Type 0 where
  pub header_size : ℕ
  pub backup_lba : ℕ
  pub entry_lba : ℕ
  pub num_entries : ℕ
  pub entry_size : ℕ
  pub entries_crc : ℕ

-- "EFI PART"
abbrev pub signature : List ℕ
signature = 69 ∷ 70 ∷ 73 ∷ 32 ∷ 80 ∷ 65 ∷ 82 ∷ 84 ∷ []

-- The header's bytes with its own checksum field zeroed.
abbrev pub without_crc : List ℕ → ℕ → List ℕ
without_crc raw size = take 16 raw ++ (zeros 4 ++ slice raw 20 (sub64 size 20))

abbrev pub header_fields : List ℕ → Header
header_fields raw = record {
  header_size = u32le raw 12;
  backup_lba = u64le raw 32;
  entry_lba = u64le raw 72;
  num_entries = u32le raw 80;
  entry_size = u32le raw 84;
  entries_crc = u32le raw 88;
}

-- The UTF-16 code units of a name, up to the first that is zero.
abbrev pub name_units : ℕ → List ℕ → List ℕ
name_units zero b = []
name_units (suc n) b =
    let rest = name_units n (drop 2 b) in if u16le b 0 == 0 then [] else u16le b 0 ∷ rest

-- The first error of the tests that hold.
abbrev pub refuse_first : List (Bool × LuksError) → Result (Unit {0})
refuse_first [] = ok tt
refuse_first (g ∷ gs) = if g.0 then err g.1 else refuse_first gs

-- An entry's partition in front of the rest, unless the slot is unused or the entry ends before it
-- starts.
abbrev pub keep_entry : Bool → Bool → Partition → Result (List Partition) → Result (List Partition)
keep_entry true backwards p rest = rest
keep_entry false true p rest = err (bad_gpt "entry ends before it starts")
keep_entry false false p rest = rest >>= λ ps. ok (p ∷ ps)

module _ (hash : List ℕ → ℕ) (from_utf16_lossy : List ℕ → String) where
  -- The tests on a header, in their order, with the errors that they lead to.
  unfoldable pub header_guards : List ℕ → List (Bool × LuksError)
  header_guards raw =
      (ltb (length raw) 92, bad_gpt "header too short")
      ∷ (not (same_bytes (slice raw 0 8) signature), bad_gpt "bad signature")
      ∷ (
        ltb (u32le raw 12) 92 || ltb (length raw) (u32le raw 12),
        bad_gpt "implausible header size",
      )
      ∷ (not (hash (without_crc raw (u32le raw 12)) == u32le raw 16), bad_gpt "header CRC mismatch")
      ∷ (u32le raw 80 == 0 || ltb 4096 (u32le raw 80), bad_gpt "implausible entry count")
      ∷ (
        ltb (u32le raw 84) 128 || ltb 4096 (u32le raw 84) || not (u32le raw 84 % 8 == 0),
        bad_gpt "implausible entry size",
      )
      ∷ []

  unfoldable pub parse_header : List ℕ → Result Header
  parse_header raw = refuse_first (header_guards raw) >>= λ passed. ok (header_fields raw)

  abbrev pub partition_at : ℕ → List ℕ → ℕ → Partition
  partition_at sector_size e i = record {
    index = i + 1;
    start_lba = u64le e 32;
    end_lba = u64le e 40;
    sector_size = sector_size;
    type_guid = some (slice e 0 16);
    mbr_type = none;
    name = from_utf16_lossy (name_units 36 (slice e 56 72));
    is_luks = false;
    luks_version = none;
  }

  -- The loop, for the `n` entries from number `i` on.
  unfoldable pub entries : ℕ → List ℕ → ℕ → ℕ → ℕ → Result (List Partition)
  entries sector_size raw entry_size i zero = ok []
  entries sector_size raw entry_size i (suc n) =
      let e = slice raw (i * entry_size) entry_size in
      keep_entry (same_bytes (slice e 0 16) (zeros 16)) (ltb (u64le e 40) (u64le e 32))
        (partition_at sector_size e i) (entries sector_size raw entry_size (i + 1) n)

  -- The product of the two header fields is at most 2^24, so `checked_mul` does not fail.
  unfoldable pub read_entries : ReadAt → Header → ℕ → Result (List Partition)
  read_entries device header sector_size =
      device.read_at (mul64 header.entry_lba sector_size) (header.num_entries * header.entry_size)
      >>= λ raw.
          if hash raw == header.entries_crc
          then entries sector_size raw header.entry_size 0 header.num_entries
          else err (bad_gpt "entry array CRC mismatch")

  abbrev pub table : List Partition → PartitionTable
  table ps = record { kind = gpt; partitions = ps }

  unfoldable pub parse_at : ReadAt → ℕ → ℕ → Result PartitionTable
  parse_at device sector_size lba = device.read_at (mul64 lba sector_size) sector_size >>= λ buf.
      (parse_header buf >>= λ header.
      (read_entries device header sector_size >>= λ ps. ok (table ps)))

  -- The last sector, where the backup stands, if the size of the device is known.
  abbrev pub at_end : ReadAt → ℕ → Result PartitionTable
  at_end device sector_size = elim device.len [
    | none ↦ err (bad_gpt "no primary header and unknown device size")
    | some n ↦ parse_at device sector_size (sub64 (n / sector_size) 1)
  ]

  -- A value if it is one, and else what comes next.
  abbrev pub or_next : Result PartitionTable → Result PartitionTable → Result PartitionTable
  or_next (ok t) next = ok t
  or_next (err e) next = next

  -- What a sound primary header leads to: its entries, or the backup that it names.
  abbrev pub from_primary :
      ReadAt → ℕ → Result PartitionTable → Result Header → Result PartitionTable
  from_primary device sector_size next (err e) = next
  from_primary device sector_size next (ok h) =
      or_next (read_entries device h sector_size >>= λ ps. ok (table ps))
        (or_next (parse_at device sector_size h.backup_lba) next)

  unfoldable pub parse : ReadAt → ℕ → Result PartitionTable
  parse device sector_size =
      from_primary device sector_size (at_end device sector_size)
        (device.read_at sector_size sector_size >>= parse_header)

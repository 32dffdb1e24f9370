-- ===== src/Partition/Scan.antt =====
-- core/src/partition/mod.rs: the scan of a device, with the search for LUKS headers by
-- `detect_version` of core/src/luks/header.rs.
use Prim.Native.String.{String}
use luks_android.Prelude.{
  ℕ, ◌+◌, ◌*◌, ◌==◌, ltb, true, not, Option, none, some, List, [], ◌∷◌, map, length,
}
use luks_android.Prelude.{if◌then◌else◌}
use luks_android.Prelude.Bytes.{slice, byte, same_bytes}
use luks_android.Error.{Result, ok, err, truncated, bad_magic, unsupported_version, ◌>>=◌}
use luks_android.Partition.{Partition, PartitionTable, ReadAt, offset_bytes}
use luks_android.Partition.Gpt
use luks_android.Partition.Mbr

pub data LuksVersion : Type 0 where
  v1 v2 : LuksVersion

-- "LUKS", 0xba, 0xbe
abbrev pub magic_primary : List ℕ
magic_primary = 76 ∷ 85 ∷ 75 ∷ 83 ∷ 0xba ∷ 0xbe ∷ []

pub detect_version : List ℕ → Result LuksVersion
detect_version bytes =
    let version = 256 * byte bytes 6 + byte bytes 7 in
    if ltb (length bytes) 8
    then err (truncated 8 (length bytes))
    else if not (same_bytes (slice bytes 0 6) magic_primary)
    then err (bad_magic (slice bytes 0 6))
    else if version == 1
    then ok v1
    else if version == 2
    then ok v2
    else err (unsupported_version version)

abbrev pub version_number : Result LuksVersion → Option ℕ
version_number (err e) = none
version_number (ok v1) = some 1
version_number (ok v2) = some 2

unfoldable pub probe_luks : ReadAt → ℕ → Option ℕ
probe_luks device offset = version_number (device.read_at offset 8 >>= detect_version)

abbrev pub marked : Partition → Option ℕ → Partition
marked p none = p
marked p (some version) = record p { is_luks = true; luks_version = some version }

abbrev pub probed : ReadAt → Partition → Partition
probed device p = marked p (probe_luks device (offset_bytes p))

abbrev pub or_mbr : ReadAt → ℕ → Result PartitionTable → Result PartitionTable
or_mbr device sector_size (ok t) = ok t
or_mbr device sector_size (err e) = Mbr.parse device sector_size

unfoldable pub scan : (List ℕ → ℕ) → (List ℕ → String) → ReadAt → ℕ → Result PartitionTable
scan hash from_utf16_lossy device sector_size =
    or_mbr device sector_size (Gpt.parse hash from_utf16_lossy device sector_size) >>= λ t.
    ok (record t { partitions = map (probed device) t.partitions })

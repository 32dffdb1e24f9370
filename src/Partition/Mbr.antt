-- ===== src/Partition/Mbr.antt =====
-- core/src/partition/mbr.rs: the four primary entries of a master boot record.
use luks_android.Prelude.{ℕ, zero, suc, ◌+◌, ◌*◌, ◌==◌, ◌||◌, false, none, some, List, [], ◌∷◌}
use luks_android.Prelude.{if◌then◌else◌}
use luks_android.Prelude.Words.{add64, sub64}
use luks_android.Prelude.Bytes.{slice, u16le, u32le, byte}
use luks_android.Error.{Result, ok, err, no_partition_table, bad_gpt, ◌>>=◌}
use luks_android.Partition.{Partition, PartitionTable, mbr, ReadAt}

abbrev boot_signature : ℕ
boot_signature = 0xAA55

abbrev table_offset : ℕ
table_offset = 446

abbrev entry_size : ℕ
entry_size = 16

abbrev pub type_protective_gpt : ℕ
type_protective_gpt = 0xEE

abbrev pub partition_at : ℕ → List ℕ → ℕ → Partition
partition_at sector_size e i = record {
  index = i + 1;
  start_lba = u32le e 8;
  end_lba = sub64 (add64 (u32le e 8) (u32le e 12)) 1;
  sector_size = sector_size;
  type_guid = none;
  mbr_type = some (byte e 4);
  name = "";
  is_luks = false;
  luks_version = none;
}

-- The loop, for the `n` entries from number `i` on.
unfoldable pub entries : ℕ → List ℕ → ℕ → ℕ → Result (List Partition)
entries sector_size sector i zero = ok []
entries sector_size sector i (suc n) =
    let e = slice sector (table_offset + i * entry_size) entry_size in
    let rest = entries sector_size sector (i + 1) n in
    if byte e 4 == 0 || u32le e 12 == 0
    then rest
    else if byte e 4 == type_protective_gpt
    then err (bad_gpt "protective MBR present but GPT unreadable")
    else (rest >>= λ ps. ok (partition_at sector_size e i ∷ ps))

abbrev pub some_partitions : List Partition → Result PartitionTable
some_partitions [] = err no_partition_table
some_partitions (p ∷ ps) = ok (record { kind = mbr; partitions = p ∷ ps })

unfoldable pub parse : ReadAt → ℕ → Result PartitionTable
parse device sector_size = device.read_at 0 512 >>= λ sector.
    if u16le sector 510 == boot_signature
    then (entries sector_size sector 0 4 >>= some_partitions)
    else err no_partition_table

-- ===== src/Partition/Tests.antt =====
-- A device with one sound partition table. The checksum of anything is 7 here, and names are not
-- decoded.
use Prim.Native.String.{String}
use luks_android.Prelude.{
  ℕ, ◌==◌, ◌≡◌, refl, false, none, some, List, [], ◌∷◌, ◌++◌, arith, if◌then◌else◌,
}
use luks_android.Prelude.Bytes.{zeros, to_le}
use luks_android.Error.{ok}
use luks_android.Partition.{PartitionTable, ReadAt, gpt}
use luks_android.Partition.Gpt.{
  signature, parse, parse_header, header_guards, read_entries, entries,
}
use luks_android.Partition.Gpt.Verified.{Verified, parse_lem}

abbrev constant_hash : List ℕ → ℕ
constant_hash bytes = 7

abbrev no_name : List ℕ → String
no_name units = ""

abbrev header_block : List ℕ
header_block =
    signature
    ++ (to_le 4 0
        ++ (to_le 4 92
            ++ (to_le 4 7
                ++ (zeros 12
                    ++ (to_le 8 9
                        ++ (zeros 32
                            ++ (to_le 8 2 ++ (to_le 4 1 ++ (to_le 4 128 ++ to_le 4 7)))))))))

abbrev guid : List ℕ
guid = 1 ∷ 1 ∷ 1 ∷ 1 ∷ 1 ∷ 1 ∷ 1 ∷ 1 ∷ 1 ∷ 1 ∷ 1 ∷ 1 ∷ 1 ∷ 1 ∷ 1 ∷ 1 ∷ []

abbrev one_entry : List ℕ
one_entry = guid ++ (zeros 16 ++ (to_le 8 10 ++ (to_le 8 20 ++ zeros 80)))

-- Sectors of 92 bytes: the header is the second.
abbrev device : ReadAt
device = record {
  read_at = λ offset size. if offset == 92 then ok header_block else ok one_entry;
  len = none;
}

abbrev one_partition : PartitionTable
one_partition = record {
  kind = gpt;
  partitions =
      record {
        index = 1;
        start_lba = 10;
        end_lba = 20;
        sector_size = 92;
        type_guid = some guid;
        mbr_type = none;
        name = "";
        is_luks = false;
        luks_version = none;
      }
      ∷ [];
}

reads_one : parse constant_hash no_name device 92 ≡ ok one_partition
unfolding parse parse_header header_guards read_entries entries
reads_one = refl

parse_lem_example : (lba : ℕ) × Verified constant_hash no_name device 92 lba one_partition
parse_lem_example = parse_lem constant_hash no_name device 92 one_partition (omega arith) reads_one

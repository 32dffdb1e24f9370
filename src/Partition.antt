-- ===== src/Partition.antt =====
-- core/src/partition/mod.rs: partitions and partition tables, and the device they are read from.
pub mod Mbr
pub mod Gpt
pub mod Scan
mod Tests
use Prim.Native.String.{String}
use luks_android.Prelude.{ℕ, ◌+◌, ◌*◌, ◌%◌, ◌==◌, Bool, Option, List}
use luks_android.Prelude.Words.{u64_mod, add64, sub64}
use luks_android.Prelude.Bytes.{slice, from_le}
use luks_android.Error.{Result}

pub data TableKind : Type 0 where
  gpt mbr : TableKind

pub record Partition : Type 0 where
  pub index : ℕ
  pub start_lba : ℕ
  pub end_lba : ℕ
  pub sector_size : ℕ
  pub type_guid : Option (List ℕ)
  pub mbr_type : Option ℕ
  pub name : String
  pub is_luks : Bool
  pub luks_version : Option ℕ

pub record PartitionTable : Type 0 where
  pub kind : TableKind
  pub partitions : List Partition

-- The trait `ReadAt` of core/src/device.rs: the bytes at an offset, as many as asked for, and the
-- length of the device if it is known.
pub record ReadAt : Type 0 where
  pub read_at : ℕ → ℕ → Result (List ℕ)
  pub len : Option ℕ

abbrev pub mul64 : ℕ → ℕ → ℕ
mul64 a b = (a * b) % u64_mod

pub offset_bytes : Partition → ℕ
offset_bytes p = mul64 p.start_lba p.sector_size

pub size_bytes : Partition → ℕ
size_bytes p = mul64 (sub64 (add64 p.end_lba 1) p.start_lba) p.sector_size

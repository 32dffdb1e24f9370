-- ===== src/Scsi/Blocks/Requests.antt =====
-- core/src/usb/scsi.rs: the command blocks of reads and writes, as the drive understands them.
use luks_android.Prelude.{
  if◌then◌else◌, ℕ, ◌+◌, ◌%◌, ◌^◌, ◌<◌, ◌≡◌, refl, sym, ap₂, ◌∙◌, inl, inr, false, ltb, ltb→ge,
  Bool-cases, Option, none, some, List, length, ◌==◌, arith,
}
use mathlib.Core.Bool.{true≢false}
use luks_android.Prelude.Bytes.{byte, slice, from_be, to_le, from_le, from_le-to_le}
use luks_android.Prelude.Words.{IsU64, u64_mod}
use luks_android.Scsi.Blocks.{block_cdb, needs_16, read_cdb, write_cdb}

-- A command block as the standard of the drive lays it out: a 10-byte form with an address of 32
-- bits and a count of 16, and a 16-byte form with 64 and 32. It has the operation codes of the two
-- forms as its first arguments.
abbrev pub request : ℕ → ℕ → List ℕ → Option (ℕ × ℕ)
request op_10 op_16 cdb =
    if byte cdb 0 == op_10
    then (if length cdb == 10
        then some (from_be (slice cdb 2 4), from_be (slice cdb 7 2))
        else none)
    else if byte cdb 0 == op_16
    then (if length cdb == 16
        then some (from_be (slice cdb 2 8), from_be (slice cdb 10 4))
        else none)
    else none

-- What the 10-byte form is chosen for fits it.
small_lem :
    (lba count : ℕ) → 0 < count → needs_16 lba count ≡ false → (lba < 2 ^ 32) × (count < 2 ^ 16)
small_lem lba count some_block h = elim (Bool-cases (ltb 65535 count)) [
  | inl many ↦ absurd (true≢false (sym (rw many refl) ∙ h))
  | inr few ↦ elim (Bool-cases (ltb (lba + count) u64_mod)) [
    | inl fits ↦ elim (Bool-cases (ltb 4294967296 (lba + count))) [
      | inl far ↦ absurd (true≢false (sym (rw (few, fits, far) refl) ∙ h))
      | inr near ↦ (omega (arith, ltb→ge _ _ near), omega (arith, ltb→ge _ _ few))
    ]
    | inr past ↦ absurd (true≢false (sym (rw (few, past) refl) ∙ h))
  ]
]

module _ (lba count : ℕ) (some_block : 0 < count) (h : IsU64 lba) (k : count < 2 ^ 32) where
  wide :
      Path
        (Option (ℕ × ℕ))
        (some (from_le (to_le 8 lba), from_le (to_le 4 count)))
        (some (lba, count))
  wide = ap₂ (λ x y. some (x, y)) (from_le-to_le 8 lba h) (from_le-to_le 4 count k)

  narrow :
      needs_16 lba count ≡ false
      → Path
          (Option (ℕ × ℕ))
          (some (from_le (to_le 4 (lba % 2 ^ 32)), from_le (to_le 2 (count % 2 ^ 16))))
          (some (lba, count))
  narrow small =
      let (a, b) = small_lem lba count some_block small in
      ap₂ (λ x y. some (x, y)) (from_le-to_le 4 (lba % 2 ^ 32) (omega arith) ∙ omega (arith, a))
        (from_le-to_le 2 (count % 2 ^ 16) (omega arith) ∙ omega (arith, b))

-- Whatever the address of 64 bits and the count of 32 bits, one block or more: a drive that
-- understands the two forms takes the command block of a read, and that of a write, for exactly that
-- address and that count.
pub block_cdb_lem :
    (lba count : ℕ)
    → 0 < count
    → IsU64 lba
    → count < 2 ^ 32
    → (request 0x28 0x88 (read_cdb lba count) ≡ some (lba, count))
      × (request 0x2A 0x8A (write_cdb lba count) ≡ some (lba, count))
unfolding read_cdb write_cdb block_cdb
block_cdb_lem lba count p h k = elim (Bool-cases (needs_16 lba count)) [
  | inl large ↦ (rw large (wide lba count p h k), rw large (wide lba count p h k))
  | inr small ↦ (rw small (narrow lba count p h k small), rw small (narrow lba count p h k small))
]

-- ===== src/FileExtent/Read/Held.antt =====
-- core/src/fs/btrfs/extent.rs: which extents can be read, and what they hold.
use luks_android.Prelude.{
  if◌then◌else◌, ℕ, ◌+◌, ◌≤◌, ◌<◌, ◌≡◌, refl, true, false, List, length, none, some, arith, not,
  ◌==◌, ◌&&◌, ◌||◌, Bool,
}
use luks_android.Prelude.Words.{IsU64, u64_mod}
use luks_android.Prelude.Windows.{window, at_or}
use luks_android.Error.{Result, ok}
use luks_android.FileExtent.{
  FileExtent, ExtentKind, inline_kind, regular_kind, prealloc_kind, is_regular, is_prealloc,
  is_zeros,
}
use luks_android.FileExtent.Read.{decompress_extent}

-- Whether an extent of a kind and an address has bytes: one in the leaf has, one that is not written yet
-- has none, and a regular one has, unless it is a hole, whose address is zero.
abbrev pub has_bytes : ExtentKind → ℕ → Bool
has_bytes inline_kind disk_bytenr = true
has_bytes prealloc_kind disk_bytenr = false
has_bytes regular_kind disk_bytenr = not (disk_bytenr == 0)

abbrev pub is_stored : FileExtent → Bool
is_stored e = has_bytes e.kind e.disk_bytenr

no_bytes :
    (kind : ExtentKind) (disk_bytenr : ℕ)
    → ((is_regular kind && (disk_bytenr == 0)) || is_prealloc kind)
      ≡ not (has_bytes kind disk_bytenr)
no_bytes inline_kind disk_bytenr = refl
no_bytes prealloc_kind disk_bytenr = ground arith
no_bytes regular_kind disk_bytenr = ground arith

pub is_zeros-stored : (e : FileExtent) → is_zeros e ≡ not (is_stored e)
is_zeros-stored e = no_bytes e.kind e.disk_bytenr

-- What an extent holds at a place of its range of the file, by the bytes of the drive and those that
-- compressed extents expand to.
unfoldable pub held_by : (disk : ℕ → ℕ) → (plain : FileExtent → List ℕ) → FileExtent → ℕ → ℕ
held_by disk plain e i =
    if is_stored e
    then (if e.compression == 0
        then elim e.inline [
          | some payload ↦ at_or payload (e.offset + i) 0
          | none ↦ disk (e.disk_bytenr + (e.offset + i))
        ]
        else at_or (plain e) (e.offset + i) 0)
    else 0

module _ (read_data : (logical size : ℕ) → Result (List ℕ))
    (decompress : (compression : ℕ) → (payload : List ℕ) → (expected : ℕ) → Result (List ℕ))
    (disk : ℕ → ℕ) (plain : FileExtent → List ℕ) where
  -- An extent whose range lies in what it refers to, which can be read.
  pub data IsReadable (e : FileExtent) : Type 0 where
    of_zeros : is_stored e ≡ false → IsReadable e
    of_compressed_inline :
        (payload : List ℕ)
        → is_stored e ≡ true
        → (e.compression == 0) ≡ false
        → e.inline ≡ some payload
        → decompress e.compression payload e.ram_bytes ≡ ok (plain e)
        → e.offset + e.num_bytes ≤ length (plain e)
        → IsU64 (length (plain e))
        → IsReadable e
    of_compressed_disk :
        is_stored e ≡ true
        → (e.compression == 0) ≡ false
        → e.inline ≡ none
        → read_data e.disk_bytenr e.disk_num_bytes ≡ ok (window disk e.disk_bytenr e.disk_num_bytes)
        → decompress e.compression (window disk e.disk_bytenr e.disk_num_bytes) e.ram_bytes
          ≡ ok (plain e)
        → e.offset + e.num_bytes ≤ length (plain e)
        → IsU64 (length (plain e))
        → IsReadable e
    of_inline :
        (payload : List ℕ)
        → is_stored e ≡ true
        → (e.compression == 0) ≡ true
        → e.inline ≡ some payload
        → e.offset + e.num_bytes ≤ length payload
        → IsU64 (length payload)
        → IsReadable e
    of_disk :
        is_stored e ≡ true
        → (e.compression == 0) ≡ true
        → e.inline ≡ none
        → e.offset + e.num_bytes ≤ e.disk_num_bytes
        → e.disk_bytenr + e.disk_num_bytes < u64_mod
        → ((i n : ℕ)
            → i + n ≤ e.disk_num_bytes
            → read_data (e.disk_bytenr + i) n ≡ ok (window disk (e.disk_bytenr + i) n))
        → IsReadable e

  pub expand_inline :
      (e : FileExtent) (payload b : List ℕ)
      → e.inline ≡ some payload
      → decompress e.compression payload e.ram_bytes ≡ ok b
      → decompress_extent read_data decompress e ≡ ok b
  unfolding decompress_extent
  expand_inline e payload b i d = rw i d

  pub expand_disk :
      (e : FileExtent) (b : List ℕ)
      → e.inline ≡ none
      → read_data e.disk_bytenr e.disk_num_bytes ≡ ok (window disk e.disk_bytenr e.disk_num_bytes)
      → decompress e.compression (window disk e.disk_bytenr e.disk_num_bytes) e.ram_bytes ≡ ok b
      → decompress_extent read_data decompress e ≡ ok b
  unfolding decompress_extent
  expand_disk e b i r d = rw (i, r) d

-- ===== src/FileExtent/Read/Serve.antt =====
-- core/src/fs/btrfs/extent.rs: the extents that can be read are read as they are.
use luks_android.Prelude.{
  ℕ, ◌+◌, ◌-◌, ◌≤◌, ◌<◌, ◌≡◌, refl, sym, ap, ◌∙◌, true, false, List, length, none, some, arith,
  le→leb, lt→ltb, ge→ltb, All, min, [], ◌∷◌, not,
}
use luks_android.Prelude.Words.{IsU64, u64_mod, add64}
use luks_android.Prelude.Bytes.{slice}
use luks_android.Prelude.Windows.{window, window-zeros, window-same, at_or, slice-at_or, window-ap}
use luks_android.Error.{Result, ok}
use luks_android.FileExtent.{FileExtent, is_zeros, is_compressed}
use luks_android.FileExtent.Read.Held.{
  held_by, is_zeros-stored, IsReadable, of_zeros, of_compressed_inline, of_compressed_disk,
  of_inline, of_disk, expand_inline, expand_disk,
}
use luks_android.FileExtent.Read.{
  decompress_extent, extent_bytes, part, from_disk, read_inode_data, extent_data_key,
}
use luks_android.FileExtent.Read.Walk.{Serves, Passes, byte_at, read_inode_data-window}
use Prim.Native.String.{String}
use luks_android.Cursor.{CursorOps}
use luks_android.Tree.{Key}

add64-small : (a b : ℕ) → a + b < u64_mod → add64 a b ≡ a + b
add64-small a b h = omega arith

module _ (read_data : (logical size : ℕ) → Result (List ℕ))
    (decompress : (compression : ℕ) → (payload : List ℕ) → (expected : ℕ) → Result (List ℕ))
    (disk : ℕ → ℕ) (plain : FileExtent → List ℕ) where
  part-slice :
      (what : String) (b : List ℕ) (start n : ℕ)
      → start + n ≤ length b
      → IsU64 (length b)
      → part read_data decompress what b start n ≡ ok (slice b start n)
  part-slice what b start n fits small =
      rw (lt→ltb (start + n) u64_mod (omega arith), le→leb (start + n) (length b) fits) refl

  part-window :
      (what : String) (b : List ℕ) (offset within n : ℕ)
      → offset + within + n ≤ length b
      → IsU64 (length b)
      → part read_data decompress what b (add64 offset within) n
        ≡ ok (window (λ i. at_or b (offset + i) 0) within n)
  part-window what b offset within n fits small =
      ap (λ start. part read_data decompress what b start n)
        (add64-small offset within (omega arith))
      ∙ part-slice what b (offset + within) n fits small
      ∙ ap ok (slice-at_or b (offset + within) n fits ∙ shifted)
    where
      shifted :
          window (λ i. at_or b i 0) (offset + within) n
          ≡ window (λ i. at_or b (offset + i) 0) within n
      shifted =
          window-same (λ i. at_or b i 0) (λ i. at_or b (offset + i) 0) (offset + within) within n
            λ i less. ap (λ j. at_or b j 0) (omega arith)

  module _ (e : FileExtent) (within n : ℕ) where
    holding :
        (c : ℕ → ℕ)
        → ((i : ℕ) → c i ≡ held_by disk plain e i)
        → window c within n ≡ window (held_by disk plain e) within n
    holding c same = window-ap c (held_by disk plain e) within n same

    from_plain :
        is_zeros e ≡ false
        → is_compressed e ≡ true
        → decompress_extent read_data decompress e ≡ ok (plain e)
        → e.offset + within + n ≤ length (plain e)
        → IsU64 (length (plain e))
        → extent_bytes read_data decompress e within n
          ≡ ok (window (λ i. at_or (plain e) (e.offset + i) 0) within n)
    unfolding extent_bytes from_disk
    from_plain z c d room small =
        rw (z, c, d) (part-window _ (plain e) e.offset within n room small)

    from_inline :
        (payload : List ℕ)
        → is_zeros e ≡ false
        → is_compressed e ≡ false
        → e.inline ≡ some payload
        → e.offset + within + n ≤ length payload
        → IsU64 (length payload)
        → extent_bytes read_data decompress e within n
          ≡ ok (window (λ i. at_or payload (e.offset + i) 0) within n)
    unfolding extent_bytes from_disk
    from_inline payload z c i room small =
        rw (z, c, i) (part-window _ payload e.offset within n room small)

    from_disk-window :
        e.offset + within + n ≤ e.disk_num_bytes
        → e.disk_bytenr + e.disk_num_bytes < u64_mod
        → read_data (e.disk_bytenr + (e.offset + within)) n
          ≡ ok (window disk (e.disk_bytenr + (e.offset + within)) n)
        → from_disk read_data decompress e within n
          ≡ ok (window (λ i. disk (e.disk_bytenr + (e.offset + i))) within n)
    unfolding from_disk
    from_disk-window room small read =
        rw
          (
            add64-small e.offset within (omega arith),
            add64-small (e.offset + within) n (omega arith),
            add64-small e.disk_bytenr (e.offset + within) (omega arith),
            ge→ltb e.disk_num_bytes (e.offset + within + n) room,
            read,
          )
          (ap ok (
            window-same disk (λ i. disk (e.disk_bytenr + (e.offset + i)))
              (e.disk_bytenr + (e.offset + within)) within n λ i less. ap disk (omega arith)))

    from_none :
        is_zeros e ≡ false
        → is_compressed e ≡ false
        → e.inline ≡ none
        → extent_bytes read_data decompress e within n ≡ from_disk read_data decompress e within n
    unfolding extent_bytes from_disk
    from_none z c i = rw (z, c, i) refl

  -- An extent that is compressed, in the leaf or on the drive, or a hole, or not written yet: each part of
  -- its range can be read and is what the extent holds there.
  pub extent_bytes-window :
      (e : FileExtent)
      → IsReadable read_data decompress disk plain e
      → Serves read_data decompress (held_by disk plain) e
  unfolding extent_bytes held_by
  extent_bytes-window e (of_zeros z) within n fits =
      rw (is_zeros-stored e ∙ ap not z)
        (ap ok (sym (window-zeros (held_by disk plain e) within n λ i less. rw z refl)))
  extent_bytes-window e (of_compressed_inline payload z c i d room small) within n fits =
      from_plain e within n (is_zeros-stored e ∙ ap not z) (ap not c)
        (expand_inline read_data decompress disk plain e payload (plain e) i d) (omega arith) small
      ∙ ap ok (holding e within n (λ j. at_or (plain e) (e.offset + j) 0) λ j. rw (z, c) refl)
  extent_bytes-window e (of_compressed_disk z c i r d room small) within n fits =
      from_plain e within n (is_zeros-stored e ∙ ap not z) (ap not c)
        (expand_disk read_data decompress disk plain e (plain e) i r d) (omega arith) small
      ∙ ap ok (holding e within n (λ j. at_or (plain e) (e.offset + j) 0) λ j. rw (z, c) refl)
  extent_bytes-window e (of_inline payload z c i room small) within n fits =
      from_inline e within n payload (is_zeros-stored e ∙ ap not z) (ap not c) i (omega arith) small
      ∙ ap ok (holding e within n (λ j. at_or payload (e.offset + j) 0) λ j. rw (z, c, i) refl)
  extent_bytes-window e (of_disk z c i room small read) within n fits =
      from_none e within n (is_zeros-stored e ∙ ap not z) (ap not c) i
      ∙ from_disk-window e within n (omega arith) small (read (e.offset + within) n (omega arith))
      ∙ ap ok
          (holding e within n (λ j. disk (e.disk_bytenr + (e.offset + j))) λ j. rw (z, c, i) refl)

  all_serve :
      (es : List FileExtent)
      → All (IsReadable read_data decompress disk plain) es
      → All (Serves read_data decompress (held_by disk plain)) es
  all_serve [] readable = tt
  all_serve (e ∷ es) readable = (extent_bytes-window e readable.0, all_serve es readable.1)

  -- Let the cursor that the search for an offset of the file answers pass certain extents of the file, each
  -- with no bytes (not written yet, or a hole, of address zero), in the leaf or on the drive. Let those with
  -- bytes have a range that lies in what they refer to: the bytes in the leaf, or on the drive, which are
  -- read as they stand there, or, if the extent is compressed, what these expand to, which is below 2^64
  -- bytes. Given as many rounds as the cursor passes items, and one for each byte asked for, the read ends
  -- and delivers the bytes of the file from the offset on, as many as the buffer takes and the file has: at
  -- each place the byte that the first extent which ends behind it holds there, and zero where this extent
  -- has no bytes and in the gaps before, between and behind the extents.
  pub read_inode_data_lem :
      {S : Type 0} (ops : CursorOps S) (objectid fuel rounds : ℕ) (search_le : Key → Result S)
      (s : S) (es : List FileExtent) (size offset len : ℕ)
      → search_le (record { objectid = objectid; item_type = extent_data_key; offset = offset })
        ≡ ok s
      → Passes ops objectid rounds s es
      → All (IsReadable read_data decompress disk plain) es
      → IsU64 size
      → rounds + len ≤ fuel
      → read_inode_data read_data decompress ops objectid fuel search_le size offset len
        ≡ ok (window (byte_at (held_by disk plain) es) offset (min len (size - offset)))
  read_inode_data_lem ops objectid fuel rounds search_le s es size offset len found p readable small
        enough =
      read_inode_data-window read_data decompress ops objectid (held_by disk plain) fuel search_le s
        es size offset len found p (all_serve es readable) small enough

-- ===== src/Partition/Gpt/Verified.antt =====
-- Which tables the parser accepts.
use Prim.Native.String.{String}
use luks_android.Prelude.{
  ℕ, zero, suc, ◌+◌, ◌*◌, ◌/◌, ◌≤◌, ◌==◌, ◌≡◌, refl, ap, ◌∙◌, ltb, Bool, true, false, not, Option,
  none, some, List, [], ◌∷◌, All, arith, ltb→ge, inl, inr, ◌⊎◌, if◌then◌else◌,
}
use luks_android.Prelude.Bytes.{zeros, u32le, u64le, slice, same_bytes}
use luks_android.Prelude.Words.{IsU64, sub64}
use mathlib.Core.Path.{subst}
use luks_android.Error.{LuksError, bad_gpt, Result, ok, err, ◌>>=◌, >>=-eq-ok}
use luks_android.Partition.{Partition, PartitionTable, ReadAt, mul64}
use luks_android.Partition.Gpt.{
  Header, keep_entry, refuse_first, header_guards, without_crc, header_fields, parse_header,
  entries, read_entries, parse_at, table, partition_at, at_end, or_next, from_primary, parse,
}

refuse_first-ok :
    (gs : List (Bool × LuksError)) (u : Unit {0})
    → refuse_first gs ≡ ok u
    → All (λ g. g.0 ≡ false) gs
refuse_first-ok [] u h = tt
refuse_first-ok ((true, e) ∷ gs) u h = cc
refuse_first-ok ((false, e) ∷ gs) u h = (refl, refuse_first-ok gs u h)

not-false : (a b : ℕ) → not (a == b) ≡ false → a ≡ b
not-false a b h = ground arith

abbrev pub IsForward : Partition → Type 0
IsForward p = p.start_lba ≤ p.end_lba

keep_entry-IsForward :
    (unused backwards : Bool) (p : Partition) (rest : Result (List Partition)) (ps : List Partition)
    → (backwards ≡ false → IsForward p)
    → ((qs : List Partition) → rest ≡ ok qs → All IsForward qs)
    → keep_entry unused backwards p rest ≡ ok ps
    → All IsForward ps
keep_entry-IsForward true backwards p rest ps one others e = others ps e
keep_entry-IsForward false true p rest ps one others e = cc
keep_entry-IsForward false false p (err why) ps one others e = cc
keep_entry-IsForward false false p (ok qs) ps one others e =
    let cons : (p ∷ qs) ≡ ps = cc in subst (All IsForward) cons (one refl, others qs refl)

module _ (hash : List ℕ → ℕ) (from_utf16_lossy : List ℕ → String) where
  -- A header block with the checksum that it states, and what it says.
  pub record IsHeader (raw : List ℕ) (h : Header) : Type 0 where
    pub checksum : hash (without_crc raw (u32le raw 12)) ≡ u32le raw 16
    pub fields : header_fields raw ≡ h

  parse_header-IsHeader :
      (raw : List ℕ) (h : Header) → parse_header hash from_utf16_lossy raw ≡ ok h → IsHeader raw h
  unfolding parse_header header_guards
  parse_header-IsHeader raw h e =
      let (u, guards, same) =
        >>=-eq-ok (refuse_first (header_guards hash from_utf16_lossy raw))
          (λ passed. ok (header_fields raw)) e in
      let all = refuse_first-ok (header_guards hash from_utf16_lossy raw) u guards in
      let fields : header_fields raw ≡ h = cc same in
      record {
        checksum = not-false (hash (without_crc raw (u32le raw 12))) (u32le raw 16) all.1.1.1.0;
        fields = fields;
      }

  entries-IsForward :
      (ss : ℕ) (raw : List ℕ) (size i n : ℕ) (ps : List Partition)
      → entries hash from_utf16_lossy ss raw size i n ≡ ok ps
      → All IsForward ps
  unfolding entries
  entries-IsForward ss raw size i zero ps e = let nil : [] ≡ ps = cc in subst (All IsForward) nil tt
  entries-IsForward ss raw size i (suc n) ps e =
      let slot = slice raw (i * size) size in
      keep_entry-IsForward (same_bytes (slice slot 0 16) (zeros 16))
        (ltb (u64le slot 40) (u64le slot 32)) (partition_at hash from_utf16_lossy ss slot i)
        (entries hash from_utf16_lossy ss raw size (i + 1) n) ps (λ h. ltb→ge _ _ h)
        (λ qs q. entries-IsForward ss raw size (i + 1) n qs q) e

  -- A table that stands behind a sound header at sector `lba`: the header block and the entry array
  -- read from the device have the checksums stated, and no entry ends before it starts.
  pub record Verified (device : ReadAt) (sector_size lba : ℕ) (t : PartitionTable) : Type 0 where
    pub block : List ℕ
    pub header : Header
    pub raw : List ℕ
    pub block_read : device.read_at (mul64 lba sector_size) sector_size ≡ ok block
    pub sound : IsHeader block header
    pub raw_read :
        device.read_at (mul64 header.entry_lba sector_size) (header.num_entries * header.entry_size)
        ≡ ok raw
    pub checksum : hash raw ≡ header.entries_crc
    pub parsed :
        entries hash from_utf16_lossy sector_size raw header.entry_size 0 header.num_entries
        ≡ ok t.partitions
    pub forward : All IsForward t.partitions

  checked :
      (b : Bool) (r : Result (List Partition)) (why : LuksError) (ps : List Partition)
      → (if b then r else err why) ≡ ok ps
      → (b ≡ true) × (r ≡ ok ps)
  checked true r why ps e = (refl, e)
  checked false r why ps e = cc

  -- From the block at a sector on, as the code goes.
  from_block :
      (device : ReadAt) (ss lba : ℕ) (block : List ℕ) (h : Header) (ps : List Partition)
      → device.read_at (mul64 lba ss) ss ≡ ok block
      → parse_header hash from_utf16_lossy block ≡ ok h
      → read_entries hash from_utf16_lossy device h ss ≡ ok ps
      → Verified device ss lba (table hash from_utf16_lossy ps)
  unfolding read_entries
  from_block device ss lba block h ps got parsed_header e =
      let (raw, got_raw, rest) =
        >>=-eq-ok (device.read_at (mul64 h.entry_lba ss) (h.num_entries * h.entry_size)) _ e in
      let (crc, entries_ok) = checked (hash raw == h.entries_crc) _ _ ps rest in
      record {
        block = block;
        header = h;
        raw = raw;
        block_read = got;
        sound = parse_header-IsHeader block h parsed_header;
        raw_read = got_raw;
        checksum = eq_of crc;
        parsed = entries_ok;
        forward = entries-IsForward ss raw h.entry_size 0 h.num_entries ps entries_ok;
      }
    where
      eq_of : {a b : ℕ} → (a == b) ≡ true → a ≡ b
      eq_of h = ground arith

  parse_at-Verified :
      (device : ReadAt) (ss lba : ℕ) (t : PartitionTable)
      → parse_at hash from_utf16_lossy device ss lba ≡ ok t
      → Verified device ss lba t
  unfolding parse_at
  parse_at-Verified device ss lba t e =
      let (block, got, e1) = >>=-eq-ok (device.read_at (mul64 lba ss) ss) _ e in
      let (h, parsed_header, e2) = >>=-eq-ok (parse_header hash from_utf16_lossy block) _ e1 in
      let (ps, read, e3) = >>=-eq-ok (read_entries hash from_utf16_lossy device h ss) _ e2 in
      let same : table hash from_utf16_lossy ps ≡ t = cc e3 in
      subst (Verified device ss lba) same
        (from_block device ss lba block h ps got parsed_header read)

  or_next-ok :
      (r next : Result PartitionTable) (t : PartitionTable)
      → or_next hash from_utf16_lossy r next ≡ ok t
      → (r ≡ ok t) ⊎ (next ≡ ok t)
  or_next-ok (ok t') next t e = inl e
  or_next-ok (err why) next t e = inr e

  at_end-Verified :
      (device : ReadAt) (ss : ℕ) (t : PartitionTable)
      → at_end hash from_utf16_lossy device ss ≡ ok t
      → (lba : ℕ) × Verified device ss lba t
  at_end-Verified device ss t e = go device.len e
    where
      go :
          (o : Option ℕ)
          → (elim o [
            | none ↦ err (bad_gpt "no primary header and unknown device size")
            | some n ↦ parse_at hash from_utf16_lossy device ss (sub64 (n / ss) 1)
          ])
            ≡ ok t
          → (lba : ℕ) × Verified device ss lba t
      go none e = cc
      go (some n) e = (sub64 (n / ss) 1, parse_at-Verified device ss (sub64 (n / ss) 1) t e)

  -- Whatever table the parser returns stands behind a sound header: at sector 1, at the sector that
  -- a sound header at sector 1 names, or at the end of the device. The sector size is one of 64 bits.
  pub parse_lem :
      (device : ReadAt) (ss : ℕ) (t : PartitionTable)
      → IsU64 ss
      → parse hash from_utf16_lossy device ss ≡ ok t
      → (lba : ℕ) × Verified device ss lba t
  unfolding parse
  parse_lem device ss t w e = go (device.read_at ss ss) refl e
    where
      first : mul64 1 ss ≡ ss
      first = omega arith

      go :
          (r : Result (List ℕ))
          → device.read_at ss ss ≡ r
          → from_primary hash from_utf16_lossy device ss
              (at_end hash from_utf16_lossy device ss)
              (r >>= parse_header hash from_utf16_lossy)
            ≡ ok t
          → (lba : ℕ) × Verified device ss lba t
      go (err why) got e = at_end-Verified device ss t e
      go (ok block) got e = with_header (parse_header hash from_utf16_lossy block) refl e
        where
          with_header :
              (r : Result Header)
              → parse_header hash from_utf16_lossy block ≡ r
              → from_primary hash from_utf16_lossy device ss
                  (at_end hash from_utf16_lossy device ss)
                  r
                ≡ ok t
              → (lba : ℕ) × Verified device ss lba t
          with_header (err why) h e = at_end-Verified device ss t e
          with_header (ok h) p e =
              elim (or_next-ok
                (read_entries hash from_utf16_lossy device h ss >>= λ ps.
                  ok (table hash from_utf16_lossy ps))
                (or_next hash from_utf16_lossy
                  (parse_at hash from_utf16_lossy device ss h.backup_lba)
                  (at_end hash from_utf16_lossy device ss))
                t e) [
                  | inl primary ↦
                      let (ps, read, e3) =
                        >>=-eq-ok (read_entries hash from_utf16_lossy device h ss)
                          (λ ps. ok (table hash from_utf16_lossy ps)) primary in
                      let same : table hash from_utf16_lossy ps ≡ t = cc e3 in
                      (
                        1,
                        subst (Verified device ss 1) same (
                            from_block device ss 1 block h ps
                              (ap (λ n. device.read_at n ss) first ∙ got) p read),
                      )
                  | inr later ↦
                      elim (or_next-ok (parse_at hash from_utf16_lossy device ss h.backup_lba)
                        (at_end hash from_utf16_lossy device ss) t later) [
                          | inl backup ↦
                              (h.backup_lba, parse_at-Verified device ss h.backup_lba t backup)
                          | inr last ↦ at_end-Verified device ss t last
                        ]
                ]

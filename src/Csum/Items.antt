-- ===== src/Csum/Items.antt =====
-- core/src/fs/btrfs/write/node.rs: the items hold the checksums that they are built of.
use mathlib.Core.List.{append_assoc, append-nil}
use luks_android.Prelude.{
  ℕ, zero, suc, ◌+◌, ◌*◌, ◌/◌, ◌≤◌, ◌<◌, ◌≡◌, ◌==◌, ◌&&◌, ◌^◌, refl, sym, ap, ◌∙◌, ltb, true, false,
  List, [], ◌∷◌, ◌++◌, length, length-append, All, All-append, arith, Bool-cases, inl, inr, ap₂,
}
use luks_android.Prelude.Words.{u64_mod, saturating_add}
use luks_android.Prelude.Bytes.{to_le, from_le, from_le-to_le}
use luks_android.Error.{ok}
use luks_android.Csum.{
  Building, start_item, finished, add_more, add_by, add_checksum, add_checksums, last_items,
  nothing_built, max_csum_item_bytes, build_extent_csum_items_from_checksums,
}

-- The checksums in the payload of an item, each with the address of its sector.
unfoldable pub sums_from : (bytenr : ℕ) → List ℕ → List (ℕ × ℕ)
sums_from bytenr (a ∷ b ∷ c ∷ d ∷ more) =
    (bytenr, from_le (a ∷ b ∷ c ∷ d ∷ [])) ∷ sums_from (bytenr + 4096) more
sums_from bytenr short = []

unfoldable pub all_sums : List (ℕ × List ℕ) → List (ℕ × ℕ)
all_sums [] = []
all_sums (item ∷ items) = sums_from item.0 item.1 ++ all_sums items

-- The address of a sector of 4096 bytes below the last one, and a checksum of 32 bits.
abbrev pub IsSum : ℕ × ℕ → Type 0
IsSum s = (s.0 + 4096 < u64_mod) × (s.1 < 2 ^ 32)

abbrev pub FitsLeaf : (sectors_per_item : ℕ) → ℕ × List ℕ → Type 0
FitsLeaf sectors_per_item item = (0 < length item.1) × (length item.1 ≤ 4 * sectors_per_item)

all_sums-append : (xs ys : List (ℕ × List ℕ)) → all_sums (xs ++ ys) ≡ all_sums xs ++ all_sums ys
unfolding all_sums
all_sums-append [] ys = refl
all_sums-append (x ∷ xs) ys =
    ap (λ zs. sums_from x.0 x.1 ++ zs) (all_sums-append xs ys)
    ∙ sym (append_assoc (sums_from x.0 x.1) (all_sums xs) (all_sums ys))

sums_from-append :
    (bytenr count : ℕ) (payload : List ℕ) (crc : ℕ)
    → length payload ≡ 4 * count
    → crc < 2 ^ 32
    → sums_from bytenr (payload ++ to_le 4 crc)
      ≡ sums_from bytenr payload ++ ((bytenr + 4096 * count, crc) ∷ [])
unfolding sums_from
sums_from-append bytenr zero [] crc whole small =
    ap₂ (λ at value. (at, value) ∷ []) (omega arith) (from_le-to_le 4 crc small)
sums_from-append bytenr (suc count) (a ∷ b ∷ c ∷ d ∷ more) crc whole small =
    ap (λ sums. (bytenr, from_le (a ∷ b ∷ c ∷ d ∷ [])) ∷ sums)
      (sums_from-append (bytenr + 4096) count more crc (omega arith) small
        ∙ ap (λ at. sums_from (bytenr + 4096) more ++ ((at, crc) ∷ [])) (omega arith))
sums_from-append bytenr count payload crc whole small = absurd (omega arith)

-- What the variables of the loop stand for.
abbrev held : Building → List (ℕ × ℕ)
held b = all_sums b.items ++ sums_from b.current_item_start b.current_payload

record IsBuilding (sectors_per_item : ℕ) (b : Building) : Type 0 where
  whole : length b.current_payload ≡ 4 * b.current_count
  room : b.current_count ≤ sectors_per_item
  next : b.next_expected_bytenr ≡ b.current_item_start + 4096 * b.current_count
  fits : All (FitsLeaf sectors_per_item) b.items

module _ (sectors_per_item : ℕ) (some_room : 0 < sectors_per_item) where
  -- Adding one checksum keeps the invariant, and adds it to those held.
  abbrev Added : Building → ℕ × ℕ → Building → Type 0
  Added b x after = IsBuilding sectors_per_item after × (held after ≡ held b ++ (x ∷ []))

  start_sum : (bytenr crc : ℕ) → crc < 2 ^ 32 → sums_from bytenr (to_le 4 crc) ≡ (bytenr, crc) ∷ []
  unfolding sums_from
  start_sum bytenr crc small = sums_from-append bytenr 0 [] crc (omega arith) small ∙ no_sums
    where
      no_sums : sums_from bytenr [] ++ ((bytenr + 4096 * 0, crc) ∷ []) ≡ (bytenr, crc) ∷ []
      no_sums = ap (λ at. (at, crc) ∷ []) (omega arith)

  start_item_lem :
      (b : Building) (items : List (ℕ × List ℕ)) (x : ℕ × ℕ)
      → All (FitsLeaf sectors_per_item) items
      → all_sums items ≡ held b
      → IsSum x
      → Added b x (start_item items x.0 x.1)
  start_item_lem b items x fits same sum = (
    record { whole = omega arith; room = omega arith; next = omega (arith, sum.0); fits = fits },
    ap₂ (λ xs ys. xs ++ ys) same (start_sum x.0 x.1 sum.1),
  )

  finished-fits :
      (b : Building)
      → IsBuilding sectors_per_item b
      → 0 < length b.current_payload
      → All (FitsLeaf sectors_per_item) (finished b)
  finished-fits b i some =
      All-append (FitsLeaf sectors_per_item) b.items _ i.fits
        ((some, omega (arith, i.whole, i.room)), tt)

  finished-held : (b : Building) → all_sums (finished b) ≡ held b
  unfolding all_sums
  finished-held b =
      all_sums-append b.items ((b.current_item_start, b.current_payload) ∷ [])
      ∙ ap (λ xs. all_sums b.items ++ xs) one
    where
      one :
          all_sums ((b.current_item_start, b.current_payload) ∷ [])
          ≡ sums_from b.current_item_start b.current_payload
      one = append-nil (sums_from b.current_item_start b.current_payload)

  contiguous :
      (at next count most : ℕ)
      → ((at == next) && ltb count most) ≡ true
      → (at ≡ next) × (count < most)
  contiguous at next count most both = (ground arith, ground arith)

  extended :
      (b : Building) (x : ℕ × ℕ)
      → IsBuilding sectors_per_item b
      → x.0 ≡ b.next_expected_bytenr
      → b.current_count < sectors_per_item
      → IsSum x
      → Added b x (record b {
        current_payload = b.current_payload ++ to_le 4 x.1;
        current_count = b.current_count + 1;
        next_expected_bytenr = saturating_add x.0 4096;
      })
  extended b x i at less sum = (
    record {
      whole = omega (arith, length-append b.current_payload (to_le 4 x.1), i.whole);
      room = omega arith;
      next = omega (arith, i.next, sum.0);
      fits = i.fits;
    },
    ap (λ xs. all_sums b.items ++ xs)
          (sums_from-append b.current_item_start b.current_count b.current_payload x.1 i.whole sum.1
            ∙ ap (λ at. sums_from b.current_item_start b.current_payload ++ ((at, x.1) ∷ []))
                (omega (arith, i.next)))
        ∙ sym (
            append_assoc (all_sums b.items) (sums_from b.current_item_start b.current_payload)
              (x ∷ [])),
  )

  add_more_lem :
      (b : Building) (x : ℕ × ℕ)
      → IsBuilding sectors_per_item b
      → 0 < length b.current_payload
      → IsSum x
      → Added b x (add_more sectors_per_item b x.0 x.1)
  add_more_lem b x i some sum =
      elim (Bool-cases ((x.0 == b.next_expected_bytenr) && ltb b.current_count sectors_per_item)) [
        | inl here ↦ rw here (
            extended b x i
              (contiguous x.0 b.next_expected_bytenr b.current_count sectors_per_item here).0
              (contiguous x.0 b.next_expected_bytenr b.current_count sectors_per_item here).1 sum)
        | inr elsewhere ↦
            rw elsewhere
              (start_item_lem b (finished b) x (finished-fits b i some) (finished-held b) sum)
      ]

  add_by_lem :
      (payload : List ℕ) (b : Building) (x : ℕ × ℕ)
      → b.current_payload ≡ payload
      → IsBuilding sectors_per_item b
      → IsSum x
      → Added b x (add_by payload sectors_per_item b x.0 x.1)
  unfolding sums_from
  add_by_lem [] b x empty i sum = start_item_lem b b.items x i.fits nothing_held sum
    where
      nothing_held : all_sums b.items ≡ held b
      nothing_held = sym (
          ap (λ p. all_sums b.items ++ sums_from b.current_item_start p) empty
          ∙ append-nil (all_sums b.items))
  add_by_lem (y ∷ ys) b x full i sum = add_more_lem b x i (omega (arith, ap length full)) sum

  add_checksums_lem :
      (xs : List (ℕ × ℕ)) (b : Building)
      → IsBuilding sectors_per_item b
      → All IsSum xs
      → IsBuilding sectors_per_item (add_checksums sectors_per_item b xs)
        × (held (add_checksums sectors_per_item b xs) ≡ held b ++ xs)
  unfolding add_checksums add_checksum
  add_checksums_lem [] b i sums = (i, sym (append-nil (held b)))
  add_checksums_lem (x ∷ xs) b i sums =
      let added = add_by_lem b.current_payload b x refl i sums.0 in
      let later =
        add_checksums_lem xs (add_by b.current_payload sectors_per_item b x.0 x.1) added.0 sums.1 in
      (later.0, later.1 ∙ ap (λ ys. ys ++ xs) added.1 ∙ append_assoc (held b) (x ∷ []) xs)

  last_items_lem :
      (payload : List ℕ) (b : Building)
      → b.current_payload ≡ payload
      → IsBuilding sectors_per_item b
      → All (FitsLeaf sectors_per_item) (last_items payload b)
        × (all_sums (last_items payload b) ≡ held b)
  unfolding sums_from
  last_items_lem [] b empty i = (i.fits, nothing_held)
    where
      nothing_held : all_sums b.items ≡ held b
      nothing_held = sym (
          ap (λ p. all_sums b.items ++ sums_from b.current_item_start p) empty
          ∙ append-nil (all_sums b.items))
  last_items_lem (y ∷ ys) b full i =
      (finished-fits b i (omega (arith, ap length full)), finished-held b)

-- Given checksums of sectors of 4096 bytes, none of them the last of the address space, for a node that
-- has room for one checksum: items are built which, read back each from the address that it is filed
-- under, hold these checksums, all of them and in order; none is empty, or larger than
-- max_csum_item_bytes.
pub build_extent_csum_items_from_checksums_lem :
    (node_size : ℕ) (xs : List (ℕ × ℕ))
    → All IsSum xs
    → 4 ≤ max_csum_item_bytes node_size 4
    → (items : List (ℕ × List ℕ)) × (build_extent_csum_items_from_checksums node_size xs ≡ ok items)
      × (all_sums items ≡ xs)
      × All (FitsLeaf (max_csum_item_bytes node_size 4 / 4)) items
unfolding build_extent_csum_items_from_checksums all_sums sums_from
build_extent_csum_items_from_checksums_lem node_size [] sums room = ([], refl, refl, tt)
build_extent_csum_items_from_checksums_lem node_size (x ∷ xs) sums room =
    let most = max_csum_item_bytes node_size 4 / 4 in
    let built = add_checksums most nothing_built (x ∷ xs) in
    let done = add_checksums_lem most (omega arith) (x ∷ xs) nothing_built start sums in
    let last = last_items_lem most (omega arith) built.current_payload built refl done.0 in
    (last_items built.current_payload built, found, last.1 ∙ done.1, last.0)
  where
    start : IsBuilding (max_csum_item_bytes node_size 4 / 4) nothing_built
    start = record { whole = refl; room = omega arith; next = omega arith; fits = tt }

    some_bytes : (max_csum_item_bytes node_size 4 == 0) ≡ false
    some_bytes = ground arith

    found :
        build_extent_csum_items_from_checksums node_size (x ∷ xs)
        ≡ ok (
            last_items
              (add_checksums
                (max_csum_item_bytes node_size 4 / 4)
                nothing_built
                (x ∷ xs)).current_payload
              (add_checksums (max_csum_item_bytes node_size 4 / 4) nothing_built (x ∷ xs)))
    found = rw some_bytes refl

-- ===== src/Ext4/Find.antt =====
-- core/src/fs/ext4/dirent.rs: what is found in a block, and what after an insertion.
use luks_android.Prelude.{
  if◌then◌else◌, ℕ, zero, suc, ◌+◌, ◌-◌, ◌≤◌, ◌<◌, ◌≡◌, ◌==◌, ◌^◌, refl, sym, ap, ◌∙◌, ltb, leb,
  true, false, List, [], ◌∷◌, ◌++◌, length, drop, Option, none, some, arith, Bool-cases, inl, inr,
  Option-cases, ◌||◌,
}
use luks_android.Prelude.Bytes.{slice, same_bytes}
use luks_android.Inode.{FileType}
use luks_android.Ext4.{
  dirent_header, record_len, type_code, cur_ino, rec_len, name_len, is_broken, insert_into_block,
  is_overlong, in_use, insert_from, find_from, find_in_block,
}
use luks_android.Ext4.Live.{Entry, live_from, live}
use luks_android.Ext4.Insert.{insert_into_block_lem}

-- The inode of the first record with a name.
abbrev pub lookup : List ℕ → List Entry → Option ℕ
lookup name [] = none
lookup name (e ∷ es) = if same_bytes e.name name then some e.ino else lookup name es

find_from_lem :
    (fuel left : ℕ) (name b : List ℕ)
    → find_from fuel left name b ≡ lookup name (live_from fuel left b)
unfolding find_from live_from
find_from_lem zero left name b = refl
find_from_lem (suc fuel) left name b =
    let later = find_from_lem fuel (left - rec_len b) name (drop (rec_len b) b) in
    elim (Bool-cases (ltb left dirent_header)) [
      | inl short ↦ rw short refl
      | inr long ↦ elim (Bool-cases (is_broken left b)) [
        | inl broken ↦ rw (long, broken) refl
        | inr whole ↦ elim (Bool-cases (cur_ino b == 0)) [
          | inl unused ↦ rw (long, whole, unused) later
          | inr used ↦ elim (Bool-cases (ltb left (dirent_header + name_len b))) [
            | inl overlong ↦
                rw (long, whole, used, overlong, outside left (dirent_header + name_len b) overlong)
                  later
            | inr inside ↦
                rw (long, whole, used, inside, fits left (dirent_header + name_len b) inside)
                  (ap
                    (λ r.
                      if same_bytes (slice b dirent_header (name_len b)) name
                      then some (cur_ino b)
                      else r)
                    later)
          ]
        ]
      ]
    ]
  where
    outside : (x y : ℕ) → ltb x y ≡ true → leb y x ≡ false
    outside x y h = ground arith

    fits : (x y : ℕ) → ltb x y ≡ false → leb y x ≡ true
    fits x y h = ground arith

same_name : (name : List ℕ) → same_bytes name name ≡ true
same_name [] = refl
same_name (c ∷ cs) = rw same (same_name cs)
  where
    same : (c == c) ≡ true
    same = ground arith

lookup-added :
    (name : List ℕ) (before after : List Entry) (e : Entry)
    → lookup name (before ++ after) ≡ none
    → same_bytes e.name name ≡ true
    → lookup name (before ++ (e ∷ after)) ≡ some e.ino
lookup-added name [] after e absent same = rw same refl
lookup-added name (x ∷ before) after e absent same = elim (Bool-cases (same_bytes x.name name)) [
  | inl here ↦ let h = rw here at absent in cc
  | inr elsewhere ↦
      let h = rw elsewhere at absent in rw elsewhere (lookup-added name before after e h same)
]

lookup-others :
    (name : List ℕ) (before after : List Entry) (e : Entry)
    → same_bytes e.name name ≡ false
    → lookup name (before ++ (e ∷ after)) ≡ lookup name (before ++ after)
lookup-others name [] after e other = rw other refl
lookup-others name (x ∷ before) after e other = elim (Bool-cases (same_bytes x.name name)) [
  | inl here ↦ rw here refl
  | inr elsewhere ↦ rw elsewhere (lookup-others name before after e other)
]

-- The walk of an insertion that finds room with some limit finds the same with a larger one.
module _ (name : List ℕ) (ino : ℕ) (file_type : FileType) (needed : ℕ) where
  abbrev walk : (fuel left : ℕ) → List ℕ → Option (List ℕ)
  walk fuel left b = insert_from name ino file_type needed fuel left b

  still_right :
      (left more : ℕ) (b : List ℕ)
      → left ≤ more
      → (is_broken left b || is_overlong b) ≡ false
      → (is_broken more b || is_overlong b) ≡ false
  still_right left more b l h = ground arith

  insert_from-more :
      (f g left more : ℕ) (b b' : List ℕ)
      → left ≤ more
      → f ≤ g
      → walk f left b ≡ some b'
      → walk g more b ≡ some b'
  unfolding insert_from
  insert_from-more zero g left more b b' l k done = cc
  insert_from-more (suc f) zero left more b b' l k done = absurd (omega arith)
  insert_from-more (suc f) (suc g) left more b b' l k done =
      elim (Bool-cases (ltb left dirent_header)) [
        | inl no_room ↦ let h = rw no_room at done in cc
        | inr some_room ↦ elim (Bool-cases (is_broken left b || is_overlong b)) [
          | inl wrong ↦ let h = rw (some_room, wrong) at done in cc
          | inr right ↦
              let larger : ltb more dirent_header ≡ false = ground arith in
              let also = still_right left more b l right in
              elim (Bool-cases (leb needed (rec_len b - in_use b))) [
                | inl here ↦
                    let h = rw (some_room, right, here) at done in rw (larger, also, here) h
                | inr later ↦
                    let h = rw (some_room, right, later) at done in
                    elim (Option-cases (walk f (left - rec_len b) (drop (rec_len b) b))) [
                      | inl nowhere ↦ let no = rw nowhere at h in cc
                      | inr (c, found) ↦
                          let same = rw found at h in
                          let there =
                            insert_from-more f g (left - rec_len b) (more - rec_len b)
                              (drop (rec_len b) b) c (omega arith) (omega arith) found in
                          rw (larger, also, later, there) same
                    ]
              ]
        ]
      ]

-- If insert_into_block finds room for a record in the front of a block of less than 64 KiB, which is all
-- of it or ends before the tail with the checksum, the name being below 256 bytes and not found in the
-- block, and the inode of 32 bits and not zero: then the walk of find_entry, over the whole block, finds
-- this inode under the name, and under any other name what it found before.
pub find_in_block-insert_into_block :
    (name : List ℕ) (ino : ℕ) (file_type : FileType) (usable : ℕ) (b b' : List ℕ)
    → 0 < ino
    → ino < 2 ^ 32
    → length name < 256
    → insert_into_block name ino file_type (record_len (length name)) usable b ≡ some b'
    → usable ≤ length b
    → length b < 2 ^ 16
    → find_in_block name b ≡ none
    → (find_in_block name b' ≡ some ino)
      × ((other : List ℕ)
          → same_bytes name other ≡ false
          → find_in_block other b' ≡ find_in_block other b)
unfolding live insert_into_block
find_in_block-insert_into_block name ino file_type usable b b' some_ino small short done long low
      absent =
    let n = length b in
    let (before, after, was, is_now, size, behind) =
      insert_into_block_lem name ino file_type some_ino small short n b b'
        (insert_from-more name ino file_type (record_len (length name)) (suc usable) (suc n) usable
          n b b' long (omega arith) done)
        (omega arith) low in
    let e : Entry = record { ino = ino; code = type_code file_type; name = name } in
    let missing = sym (find_from_lem (suc n) n name b ∙ ap (lookup name) was) ∙ absent in
    (
      rw size (
          find_from_lem (suc n) n name b'
          ∙ ap (lookup name) is_now
          ∙ lookup-added name before after e missing (same_name name)),
      λ other differs. rw size (
          find_from_lem (suc n) n other b'
          ∙ ap (lookup other) is_now
          ∙ lookup-others other before after e differs
          ∙ sym (find_from_lem (suc n) n other b ∙ ap (lookup other) was)),
    )

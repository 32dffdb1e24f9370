-- ===== src/Ext4/Insert.antt =====
-- core/src/fs/ext4/dirent.rs: a record that is inserted is added to those of the block.
use mathlib.Core.Path.{subst}
use mathlib.Core.List.{append_assoc}
use luks_android.Prelude.{
  ℕ, zero, suc, ◌+◌, ◌-◌, ◌≤◌, ◌<◌, ◌≡◌, ◌==◌, ◌^◌, ◌||◌, refl, sym, ap, ◌∙◌, ltb, leb, Bool, true,
  false, List, ◌∷◌, ◌++◌, length, take, drop, some, arith, leb→le, ltb→ge, Bool-cases, inl, inr,
  length-append, length-take, length-drop, Option-cases,
}
use luks_android.Prelude.Bytes.{from_le, drop-append, drop-plus}
use luks_android.Inode.{FileType}
use luks_android.Ext4.{
  dirent_header, record_len, type_code, cur_ino, rec_len, name_len, is_broken, is_overlong, in_use,
  place_record, insert_from, insert_into_block,
}
use luks_android.Ext4.Live.{
  Entry, entry_here, live, whole_record, more_fuel, live_step, pass_step, same_here,
}
use luks_android.Prelude.Bytes.{slice-front, drop-drop}
use luks_android.Ext4.Place.{Adds, into_free, into_slack}

module _ (name : List ℕ) (ino : ℕ) (file_type : FileType) (some_ino : 0 < ino)
    (small_ino : ino < 2 ^ 32) (short : length name < 256) where
  abbrev entry : Entry
  entry = record { ino = ino; code = type_code file_type; name = name }

  abbrev needed : ℕ
  needed = record_len (length name)

  -- A record that is passed: what was put behind it is behind it.
  passed :
      (left : ℕ) (b b' : List ℕ)
      → is_broken left b ≡ false
      → is_overlong b ≡ false
      → left ≤ length b
      → 8 ≤ left
      → Adds (left - rec_len b) (drop (rec_len b) b) b' entry
      → Adds left b (take (rec_len b) b ++ b') entry
  unfolding record_len
  passed left b b' whole proper long some_left added =
      let (p8, p4, pl) = whole_record (rec_len b) left whole in
      let len = rec_len b in
      let same =
        λ (o n : ℕ) (inside : o + n ≤ len). slice-front b b' len o n (omega arith) inside in
      record {
        before = entry_here left b ++ added.before;
        after = added.after;
        was =
            live_step left left b some_left whole
            ∙ ap (λ es. entry_here left b ++ es)
                (more_fuel left (suc (left - len)) (left - len) (drop len b) (omega arith)
                    (omega arith)
                  ∙ added.was)
            ∙ sym (append_assoc (entry_here left b) added.before added.after);
        is_now =
            pass_step left left (take len b ++ b') b b' (ap from_le (same 4 2 (omega arith))) whole
              some_left
              (same_here left (take len b ++ b') b proper (λ o n inside. same o n (omega arith)))
              (rest len (omega arith))
            ∙ ap (λ es. entry_here left b ++ es)
                (more_fuel left (suc (left - len)) (left - len) b' (omega arith) (omega arith)
                  ∙ added.is_now)
            ∙ sym (append_assoc (entry_here left b) added.before (entry ∷ added.after));
        same_length = omega (
          arith,
          length-append (take len b) b',
          added.same_length,
          length-take len b (omega arith),
          length-drop len b,
        );
        same_behind =
            ap (λ n. drop n (take len b ++ b')) (omega (arith, length-take len b (omega arith)))
            ∙ drop-plus (take len b) b' (left - len)
            ∙ added.same_behind
            ∙ drop-drop len (left - len) b
            ∙ ap (λ n. drop n b) (omega arith);
      }
    where
      rest : (len : ℕ) → len ≤ length b → drop len (take len b ++ b') ≡ b'
      rest len inside =
          ap (λ n. drop n (take len b ++ b')) (sym (length-take len b inside))
          ∙ drop-append (take len b) b'

  neither : (x y : Bool) → (x || y) ≡ false → (x ≡ false) × (y ≡ false)
  neither false false h = (refl, refl)
  neither false true h = cc
  neither true y h = cc

  some_same : {b c : List ℕ} → some b ≡ some c → b ≡ c
  some_same e = cc

  place_record_lem :
      (left : ℕ) (b : List ℕ)
      → is_broken left b ≡ false
      → is_overlong b ≡ false
      → needed ≤ rec_len b - in_use b
      → left ≤ length b
      → left < 2 ^ 16
      → 8 ≤ left
      → Adds left b (place_record name ino file_type needed b) entry
  unfolding place_record in_use record_len
  place_record_lem left b whole proper room long low some_left =
      elim (Bool-cases (cur_ino b == 0)) [
        | inl unused ↦ rw unused (
            into_free name ino file_type some_ino small_ino short left b whole (ground arith)
              (ground arith) long low some_left)
        | inr used ↦
            rw (used, some_bytes (name_len b))
              (into_slack name ino file_type some_ino small_ino short left b whole (ground arith)
                (ground arith) (ground arith) long low some_left)
      ]
    where
      some_bytes : (n : ℕ) → (record_len n == 0) ≡ false
      some_bytes n = ground arith

  insert_from_lem :
      (fuel left : ℕ) (b b' : List ℕ)
      → insert_from name ino file_type needed fuel left b ≡ some b'
      → left ≤ length b
      → left < 2 ^ 16
      → Adds left b b' entry
  unfolding insert_from
  insert_from_lem zero left b b' done long low = cc
  insert_from_lem (suc fuel) left b b' done long low = elim (Bool-cases (ltb left dirent_header)) [
    | inl no_room ↦ let h = rw no_room at done in cc
    | inr some_room ↦ elim (Bool-cases (is_broken left b || is_overlong b)) [
      | inl wrong ↦ let h = rw (some_room, wrong) at done in cc
      | inr right ↦
          let parts : (is_broken left b ≡ false) × (is_overlong b ≡ false) = neither _ _ right in
          elim (Bool-cases (leb needed (rec_len b - in_use b))) [
            | inl here ↦
                let h = rw (some_room, right, here) at done in
                subst (λ c. Adds left b c entry) (some_same h)
                  (place_record_lem left b parts.0 parts.1 (leb→le _ _ here) long low
                    (ltb→ge _ _ some_room))
            | inr later ↦
                let h = rw (some_room, right, later) at done in
                elim (Option-cases (
                  insert_from name ino file_type needed fuel (left - rec_len b)
                    (drop (rec_len b) b))) [
                      | inl nowhere ↦ let g = rw nowhere at h in cc
                      | inr (c, found) ↦
                          let g = rw found at h in
                          subst (λ d. Adds left b d entry) (some_same g)
                            (passed left b c parts.0 parts.1 long (ltb→ge _ _ some_room) (
                              insert_from_lem fuel (left - rec_len b) (drop (rec_len b) b) c found
                                (omega (arith, length-drop (rec_len b) b)) (omega arith)))
                    ]
          ]
    ]
  ]

  -- If insert_into_block finds room for a record of a name below 256 bytes and an inode of 32 bits that is
  -- not zero, in a block whose records end below 64 KiB: the records in use are those of before, in order,
  -- with the new one in addition; the length of the block, and its bytes behind the records, stay.
  pub insert_into_block_lem :
      (usable : ℕ) (b b' : List ℕ)
      → insert_into_block name ino file_type (record_len (length name)) usable b ≡ some b'
      → usable ≤ length b
      → usable < 2 ^ 16
      → (before after : List Entry) × (live usable b ≡ before ++ after)
        × (live usable b' ≡ before ++ (entry ∷ after))
        × (length b' ≡ length b)
        × (drop usable b' ≡ drop usable b)
  unfolding insert_into_block live
  insert_into_block_lem usable b b' done long low =
      let a = insert_from_lem (suc usable) usable b b' done long low in
      (a.before, a.after, a.was, a.is_now, a.same_length, a.same_behind)

-- ===== src/Ext4/Place.antt =====
-- core/src/fs/ext4/dirent.rs: a new record in a free one, and in the slack of one in use.
use luks_android.Prelude.{
  ℕ, suc, ◌+◌, ◌-◌, ◌%◌, ◌≤◌, ◌<◌, ◌≡◌, ◌==◌, ◌^◌, refl, ap, ◌∙◌, false, List, [], ◌∷◌, ◌++◌,
  length, drop, arith, ge→ltb, length-append, length-take, length-drop,
}
use luks_android.Prelude.Bytes.{byte, slice, zeros, length-zeros, drop-plus}
use luks_android.Inode.{FileType}
use luks_android.Ext4.{
  dirent_header, record_len, type_code, cur_ino, rec_len, name_len, is_broken, new_record,
}
use luks_android.Ext4.Live.{
  Entry, entry_here, live_from, whole_record, more_fuel, live_step, live_record,
}
use luks_android.Prelude.Bytes.{drop-drop}
use luks_android.Ext4.Records.{
  new_record-HasFields, shortened, shortened-HasFields, shortened-drop, length-shortened,
}

-- What is true of a block in which a new record was put.
pub record Adds (left : ℕ) (b b' : List ℕ) (e : Entry) : Type 0 where
  pub before : List Entry
  pub after : List Entry
  pub was : live_from (suc left) left b ≡ before ++ after
  pub is_now : live_from (suc left) left b' ≡ before ++ (e ∷ after)
  pub same_length : length b' ≡ length b
  pub same_behind : drop left b' ≡ drop left b

module _ (name : List ℕ) (ino : ℕ) (file_type : FileType) (some_ino : 0 < ino)
    (small_ino : ino < 2 ^ 32) (short : length name < 256) where
  abbrev entry : Entry
  entry = record { ino = ino; code = type_code file_type; name = name }

  abbrev needed : ℕ
  needed = record_len (length name)

  -- Room for the record, in a length that is a multiple of four.
  new_live :
      (f left len : ℕ) (more : List ℕ)
      → 8 + length name ≤ len
      → len % 4 ≡ 0
      → len ≤ left
      → left < 2 ^ 16
      → live_from (suc f) left (new_record ino len (type_code file_type) name ++ more)
        ≡ entry ∷ live_from f (left - len) more
  new_live f left len more room four fits low =
      live_record f left _ more entry len
        (new_record-HasFields ino len (type_code file_type) name more small_ino (omega arith) short
          room)
        some_ino four room fits

  length-new_record :
      (len : ℕ)
      → 8 + length name ≤ len
      → length (new_record ino len (type_code file_type) name) ≡ len
  unfolding new_record
  length-new_record len room = omega (
    arith,
    length-append name (zeros (len - (dirent_header + length name))),
    length-zeros (len - (dirent_header + length name)),
  )

  drop_same :
      (k len : ℕ) (xs b : List ℕ) → length xs ≡ len → len ≤ k → drop k (xs ++ drop len b) ≡ drop k b
  drop_same k len xs b size fits =
      ap (λ n. drop n (xs ++ drop len b)) split
      ∙ drop-plus xs (drop len b) (k - len)
      ∙ drop-drop len (k - len) b
      ∙ ap (λ n. drop n b) (omega arith)
    where
      split : k ≡ length xs + (k - len)
      split = omega (arith, size)

  -- Into a record that is not in use.
  pub into_free :
      (left : ℕ) (b : List ℕ)
      → is_broken left b ≡ false
      → cur_ino b ≡ 0
      → needed ≤ rec_len b
      → left ≤ length b
      → left < 2 ^ 16
      → 8 ≤ left
      → Adds left b
          (new_record ino (rec_len b) (type_code file_type) name ++ drop (rec_len b) b)
          entry
  unfolding record_len
  into_free left b whole free room long low some_left =
      let (p8, p4, pl) = whole_record (rec_len b) left whole in
      record {
        before = [];
        after = live_from left (left - rec_len b) (drop (rec_len b) b);
        was =
            live_step left left b some_left whole
            ∙ ap (λ es. es ++ live_from left (left - rec_len b) (drop (rec_len b) b)) unused;
        is_now = new_live left left (rec_len b) (drop (rec_len b) b) (omega arith) p4 pl low;
        same_length = omega (
          arith,
          length-append (new_record ino (rec_len b) (type_code file_type) name)
              (drop (rec_len b) b),
          length-new_record (rec_len b) (omega arith),
          length-drop (rec_len b) b,
        );
        same_behind =
            drop_same left (rec_len b) (new_record ino (rec_len b) (type_code file_type) name) b
              (length-new_record (rec_len b) (omega arith)) pl;
      }
    where
      unused : entry_here left b ≡ []
      unused = rw free refl

  -- Into the slack of a record in use.
  pub into_slack :
      (left : ℕ) (b : List ℕ)
      → is_broken left b ≡ false
      → 0 < cur_ino b
      → record_len (name_len b) ≤ rec_len b
      → needed ≤ rec_len b - record_len (name_len b)
      → left ≤ length b
      → left < 2 ^ 16
      → 8 ≤ left
      → Adds left b
          (shortened b
            (new_record ino (rec_len b - record_len (name_len b)) (type_code file_type) name
              ++ drop (rec_len b) b)
            (record_len (name_len b)))
          entry
  unfolding record_len
  into_slack left b whole live_ino fits room long low some_left =
      let (p8, p4, pl) = whole_record (rec_len b) left whole in
      let used = record_len (name_len b) in
      let len = rec_len b - used in
      let added = new_record ino len (type_code file_type) name in
      let more = added ++ drop (rec_len b) b in
      let old : Entry = record {
        ino = cur_ino b;
        code = byte b 7;
        name = slice b 8 (name_len b);
      } in
      let named : length (slice b 8 (name_len b)) ≡ name_len b =
        length-take (name_len b) (drop 8 b) (omega (arith, length-drop 8 b)) in
      record {
        before = old ∷ [];
        after = live_from left (left - rec_len b) (drop (rec_len b) b);
        was =
            live_step left left b some_left whole
            ∙ ap (λ es. es ++ live_from left (left - rec_len b) (drop (rec_len b) b))
                (in_use_here (omega arith));
        is_now =
            live_record left left (shortened b more used) more old used
              (shortened-HasFields b more used (name_len b) (omega arith) (omega arith)
                (omega arith) refl)
              live_ino (omega arith) (omega (arith, named)) (omega arith)
            ∙ ap (λ es. old ∷ es)
                (more_fuel left (suc left) (left - used) more (omega arith) (omega arith)
                  ∙ new_live left (left - used) len (drop (rec_len b) b) (omega arith) (omega arith)
                      (omega arith) (omega arith)
                  ∙ ap (λ n. entry ∷ live_from left n (drop (rec_len b) b)) (omega arith));
        same_length = omega (
          arith,
          length-shortened b more used (name_len b) (omega arith) (omega arith) (omega arith),
          length-append added (drop (rec_len b) b),
          length-new_record len (omega arith),
          length-drop (rec_len b) b,
        );
        same_behind =
            ap (λ n. drop n (shortened b more used)) (omega arith)
            ∙ shortened-drop b more used (name_len b) (omega arith) (omega arith) (omega arith)
                (left - used)
            ∙ ap (λ n. drop n more) (omega (arith, length-new_record len (omega arith)))
            ∙ drop-plus added (drop (rec_len b) b) (left - rec_len b)
            ∙ drop-drop (rec_len b) (left - rec_len b) b
            ∙ ap (λ n. drop n b) (omega arith);
      }
    where
      in_use_here :
          8 + name_len b ≤ left
          → entry_here left b
            ≡ record { ino = cur_ino b; code = byte b 7; name = slice b 8 (name_len b) } ∷ []
      in_use_here inside = rw (used, ge→ltb left (dirent_header + name_len b) inside) refl
        where
          used : (cur_ino b == 0) ≡ false
          used = ground arith

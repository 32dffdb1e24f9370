-- ===== src/Ext4/Records.antt =====
-- core/src/fs/ext4/dirent.rs: the fields of a record that is written, and of one that is shortened.
use mathlib.Core.List.{append_assoc}
use luks_android.Prelude.{
  ℕ, ◌+◌, ◌-◌, ◌%◌, ◌≤◌, ◌<◌, ◌≡◌, ◌^◌, sym, ap, ◌∙◌, List, [], ◌∷◌, ◌++◌, length, take, drop,
  arith, length-append, length-take, length-drop,
}
use luks_android.Prelude.Bytes.{
  to_le, from_le, from_le-to_le, byte, slice, zeros, length-zeros, take-append, drop-append,
  drop-plus,
}
use luks_android.Ext4.{dirent_header, cur_ino, rec_len, name_len, new_record}
use luks_android.Ext4.Live.{HasFields}
use luks_android.Prelude.Bytes.{slice-front, drop-drop}

module _ (ino len code : ℕ) (name more : List ℕ) (small_ino : ino < 2 ^ 32)
    (small_len : len < 2 ^ 16) (short : length name < 256) (room : 8 + length name ≤ len) where
  abbrev bytes : List ℕ
  bytes = new_record ino len code name ++ more

  abbrev before_name : List ℕ
  before_name = to_le 4 ino ++ (to_le 2 len ++ (length name % 256 ∷ (code ∷ [])))

  new_ino : cur_ino bytes ≡ ino
  unfolding new_record
  new_ino = from_le-to_le 4 ino small_ino

  new_size : rec_len bytes ≡ len
  unfolding new_record
  new_size = from_le-to_le 2 len small_len

  new_name_size : name_len bytes ≡ length name
  unfolding new_record
  new_name_size = omega arith

  new_code : byte bytes 7 ≡ code
  unfolding new_record
  new_code = omega arith

  abbrev padding : List ℕ
  padding = zeros (len - (dirent_header + length name))

  new_name : slice bytes 8 (length name) ≡ name
  unfolding new_record
  new_name =
      ap (take (length name)) (append_assoc name padding more) ∙ take-append name (padding ++ more)

  new_rest : drop len bytes ≡ more
  unfolding new_record
  new_rest =
      ap (λ n. drop n bytes) size
      ∙ drop-plus before_name ((name ++ padding) ++ more) (length (name ++ padding))
      ∙ drop-append (name ++ padding) more
    where
      size : len ≡ 8 + length (name ++ padding)
      size =
          omega
            (arith, length-append name padding, length-zeros (len - (dirent_header + length name)))

  pub new_record-HasFields :
      HasFields bytes more (record { ino = ino; code = code; name = name }) len
  new_record-HasFields = record {
    ino = new_ino;
    size = new_size;
    name_size = new_name_size;
    code = new_code;
    name = new_name;
    rest = new_rest;
  }

-- The record at the front, shortened to `used` bytes, with other bytes behind it.
module _ (b more : List ℕ) (used : ℕ) where
  abbrev front : List ℕ
  front = take 4 b

  abbrev kept : List ℕ
  kept = slice b 6 (used - 6) ++ more

  abbrev pub shortened : List ℕ
  shortened = front ++ (to_le 2 used ++ kept)

  module _ (n : ℕ) (small : used < 2 ^ 16) (room : 8 + n ≤ used) (long : used ≤ length b) where
    length-front : length front ≡ 4
    length-front = length-take 4 b (omega arith)

    shortened-size : rec_len shortened ≡ used
    shortened-size =
        ap (λ at. from_le (take 2 (drop at shortened))) (sym length-front)
        ∙ ap (λ xs. from_le (take 2 xs)) (drop-append front (to_le 2 used ++ kept))
        ∙ from_le-to_le 2 used small

    shortened-behind : (k : ℕ) → drop (6 + k) shortened ≡ drop k kept
    shortened-behind k =
        ap (λ at. drop at shortened) at_six
        ∙ drop-plus front (to_le 2 used ++ kept) (2 + k)
        ∙ drop-plus (to_le 2 used) kept k
      where
        at_six : 6 + k ≡ length front + (2 + k)
        at_six = omega (arith, length-front)

    shortened-slice : (k w : ℕ) → 6 + k + w ≤ used → slice shortened (6 + k) w ≡ slice b (6 + k) w
    shortened-slice k w fits =
        ap (take w) (shortened-behind k)
        ∙ slice-front (drop 6 b) more (used - 6) k w (omega (arith, length-drop 6 b)) (omega arith)
        ∙ ap (take w) (drop-drop 6 k b)

    shortened-rest : drop used shortened ≡ more
    shortened-rest =
        ap (λ at. drop at shortened) the_end
        ∙ shortened-behind (length (slice b 6 (used - 6)))
        ∙ drop-append (slice b 6 (used - 6)) more
      where
        the_end : used ≡ 6 + length (slice b 6 (used - 6))
        the_end = omega (arith, length-take (used - 6) (drop 6 b) (omega (arith, length-drop 6 b)))

    pub shortened-drop : (k : ℕ) → drop (used + k) shortened ≡ drop k more
    shortened-drop k = sym (drop-drop used k shortened) ∙ ap (drop k) shortened-rest

    pub length-shortened : length shortened ≡ used + length more
    length-shortened = omega (
      arith,
      length-append front (to_le 2 used ++ kept),
      length-front,
      length-append (slice b 6 (used - 6)) more,
      length-take (used - 6) (drop 6 b) (omega (arith, length-drop 6 b)),
    )

    pub shortened-HasFields :
        name_len b ≡ n
        → HasFields shortened more
            (record { ino = cur_ino b; code = byte b 7; name = slice b 8 n })
            used
    shortened-HasFields at_n = record {
      ino = ap from_le (slice-front b (to_le 2 used ++ kept) 4 0 4 (omega arith) (omega arith));
      size = shortened-size;
      name_size = ap from_le (shortened-slice 0 1 (omega arith)) ∙ at_n ∙ sym named;
      code = ap from_le (shortened-slice 1 1 (omega arith));
      name = ap (λ w. slice shortened 8 w) named ∙ shortened-slice 2 n (omega arith);
      rest = shortened-rest;
    }
      where
        named : length (slice b 8 n) ≡ n
        named = length-take n (drop 8 b) (omega (arith, length-drop 8 b))

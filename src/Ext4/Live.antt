-- ===== src/Ext4/Live.antt =====
-- core/src/fs/ext4/dirent.rs: the records of a block that are in use.
use luks_android.Prelude.{
  if◌then◌else◌, ℕ, zero, suc, ◌+◌, ◌-◌, ◌%◌, ◌≤◌, ◌<◌, ◌≡◌, ◌==◌, ◌||◌, refl, ap, not, ltb, false,
  List, [], ◌∷◌, ◌++◌, length, drop, arith, ge→ltb, Bool-cases, inl, inr, max,
}
use luks_android.Prelude.Bytes.{from_le, byte, slice}
use luks_android.Ext4.{
  dirent_header, record_len, cur_ino, rec_len, name_len, is_broken, is_overlong,
}

-- A record in use, as the walks see it.
pub record Entry : Type 0 where
  pub ino : ℕ
  pub code : ℕ
  pub name : List ℕ

abbrev pub entry_here : (left : ℕ) → List ℕ → List Entry
entry_here left b =
    if (cur_ino b == 0) || ltb left (dirent_header + name_len b)
    then []
    else record { ino = cur_ino b; code = byte b 7; name = slice b dirent_header (name_len b) } ∷ []

-- The records in use, up to the end or the first broken one.
unfoldable pub live_from : (fuel left : ℕ) → List ℕ → List Entry
live_from zero left b = []
live_from (suc fuel) left b =
    let later = live_from fuel (left - rec_len b) (drop (rec_len b) b) in
    if ltb left dirent_header
    then []
    else if is_broken left b
    then []
    else entry_here left b ++ later

unfoldable pub live : (usable : ℕ) → List ℕ → List Entry
live usable b = live_from (suc usable) usable b

-- What a record that is not broken has.
pub whole_record :
    (r left : ℕ)
    → (ltb r dirent_header || (not (r % 4 == 0) || ltb left r)) ≡ false
    → (8 ≤ r) × (r % 4 ≡ 0) × (r ≤ left)
whole_record r left h = (ground arith, ground arith, ground arith)

unbroken :
    (r left : ℕ)
    → 8 ≤ r
    → r % 4 ≡ 0
    → r ≤ left
    → (ltb r dirent_header || (not (r % 4 == 0) || ltb left r)) ≡ false
unbroken r left p q l = ground arith

pub more_fuel :
    (f g left : ℕ) (b : List ℕ) → left < f → left < g → live_from f left b ≡ live_from g left b
unfolding live_from
more_fuel zero g left b p q = absurd (omega arith)
more_fuel (suc f) zero left b p q = absurd (omega arith)
more_fuel (suc f) (suc g) left b p q = elim (Bool-cases (ltb left dirent_header)) [
  | inl short ↦ rw short refl
  | inr long ↦ elim (Bool-cases (is_broken left b)) [
    | inl broken ↦ rw (long, broken) refl
    | inr whole ↦
        let (p8, p4, pl) = whole_record (rec_len b) left whole in
        rw (long, whole)
          (ap (λ es. entry_here left b ++ es)
            (more_fuel f g (left - rec_len b) (drop (rec_len b) b) (omega arith) (omega arith)))
  ]
]

pub live_step :
    (f left : ℕ) (b : List ℕ)
    → 8 ≤ left
    → is_broken left b ≡ false
    → live_from (suc f) left b
      ≡ entry_here left b ++ live_from f (left - rec_len b) (drop (rec_len b) b)
unfolding live_from
live_step f left b some_left whole = rw (ge→ltb left dirent_header some_left, whole) refl

-- A record whose fields another one has, too, and the bytes behind it.
pub pass_step :
    (f left : ℕ) (c b b' : List ℕ)
    → rec_len c ≡ rec_len b
    → is_broken left b ≡ false
    → 8 ≤ left
    → entry_here left c ≡ entry_here left b
    → drop (rec_len b) c ≡ b'
    → live_from (suc f) left c ≡ entry_here left b ++ live_from f (left - rec_len b) b'
unfolding live_from
pass_step f left c b b' size whole some_left here rest =
    rw (size, ge→ltb left dirent_header some_left, whole, here, rest) refl

pub same_here :
    (left : ℕ) (c b : List ℕ)
    → is_overlong b ≡ false
    → ((o n : ℕ) → o + n ≤ max 8 (rec_len b) → slice c o n ≡ slice b o n)
    → entry_here left c ≡ entry_here left b
unfolding record_len
same_here left c b proper same =
    rw
      (
        ap from_le (same 0 4 (omega arith)),
        ap from_le (same 6 1 (omega arith)),
        ap from_le (same 7 1 (omega arith)),
      )
      (elim (Bool-cases (cur_ino b == 0)) [
        | inl unused ↦ rw unused refl
        | inr used ↦ rw (used, same 8 (name_len b) (ground arith)) refl
      ])

-- A record with its fields, and the bytes behind it.
pub record HasFields (b more : List ℕ) (e : Entry) (len : ℕ) : Type 0 where
  pub ino : cur_ino b ≡ e.ino
  pub size : rec_len b ≡ len
  pub name_size : name_len b ≡ length e.name
  pub code : byte b 7 ≡ e.code
  pub name : slice b 8 (length e.name) ≡ e.name
  pub rest : drop len b ≡ more

pub live_record :
    (f left : ℕ) (b more : List ℕ) (e : Entry) (len : ℕ)
    → HasFields b more e len
    → 0 < e.ino
    → len % 4 ≡ 0
    → 8 + length e.name ≤ len
    → len ≤ left
    → live_from (suc f) left b ≡ e ∷ live_from f (left - len) more
unfolding live_from
live_record f left b more e len r some_ino four room fits =
    rw
      (
        r.size,
        ge→ltb left dirent_header (omega arith),
        unbroken len left (omega arith) four fits,
        r.ino,
        used,
        r.name_size,
        ge→ltb left (dirent_header + length e.name) (omega arith),
        r.code,
        r.name,
        r.rest,
      )
      refl
  where
    used : (e.ino == 0) ≡ false
    used = ground arith

-- ===== src/FileExtent/Read/Walk.antt =====
-- core/src/fs/btrfs/extent.rs: the bytes that the read of a file delivers.
use luks_android.Prelude.{
  if◌then◌else◌, ℕ, zero, suc, ◌+◌, ◌-◌, ◌≤◌, ◌<◌, ◌==◌, ◌≡◌, refl, sym, ap, ◌∙◌, ltb, leb, min,
  false, List, [], ◌∷◌, ◌++◌, arith, All, lt→ltb, ge→ltb, le→leb, Bool-cases, inl, inr, ltb→lt,
  ltb→ge, leb→le, leb→gt, gt→leb,
}
use luks_android.Prelude.Words.{IsU64, u64_mod}
use luks_android.Prelude.Bytes.{zeros}
use luks_android.Error.{Result, ok, ◌>>=◌}
use luks_android.Tree.{Key}
use luks_android.Cursor.{CursorOps}
use luks_android.FileExtent.{FileExtent, end}
use luks_android.FileExtent.Read.{
  the_extent, before_extents, nothing, extent_bytes, covering, read_from, read_inode_data,
  extent_data_key, round, from_extent,
}
use luks_android.Prelude.Windows.{window, window-same, window-zeros, window-split, no_window}

-- The bytes of the file, by the extents in the order of their items and what each of them holds: the
-- first that ends behind a place says what stands there, which is zero if it starts behind the place,
-- or if none is left.
unfoldable pub byte_at : (FileExtent → ℕ → ℕ) → List FileExtent → ℕ → ℕ
byte_at held [] p = 0
byte_at held (e ∷ es) p =
    if leb (end e) p
    then byte_at held es p
    else if ltb p e.file_offset
    then 0
    else held e (p - e.file_offset)

module _ {S : Type 0} (ops : CursorOps S) (objectid : ℕ) where
  -- From a place of the cursor on there are these extents of the file, `rounds` items being passed.
  pub data Passes : (rounds : ℕ) → S → List FileExtent → Type 0 where
    no_more : {s : S} → covering ops objectid s ≡ ok nothing → Passes 0 s []
    one_before :
        {rounds : ℕ} {s t : S} {es : List FileExtent}
        → covering ops objectid s ≡ ok before_extents
        → ops.advance s ≡ ok t
        → Passes rounds t es
        → Passes (suc rounds) s es
    one_extent :
        {rounds : ℕ} {s t : S} {e : FileExtent} {es : List FileExtent}
        → covering ops objectid s ≡ ok (the_extent e)
        → ops.advance s ≡ ok t
        → Passes rounds t es
        → Passes (suc rounds) s (e ∷ es)

-- Places in the gap before an extent, in it, and behind it.
module _ (held : FileExtent → ℕ → ℕ) (e : FileExtent) (es : List FileExtent) (p : ℕ) where
  byte_at-gap : p < e.file_offset → p + 1 < u64_mod → byte_at held (e ∷ es) p ≡ 0
  unfolding byte_at
  byte_at-gap before low = rw (gt→leb (end e) p (omega arith), lt→ltb p e.file_offset before) refl

  byte_at-in : e.file_offset ≤ p → p < end e → byte_at held (e ∷ es) p ≡ held e (p - e.file_offset)
  unfolding byte_at
  byte_at-in from below = rw (gt→leb (end e) p below, ge→ltb p e.file_offset from) refl

  byte_at-behind : end e ≤ p → byte_at held (e ∷ es) p ≡ byte_at held es p
  unfolding byte_at
  byte_at-behind behind = rw (le→leb (end e) p behind) refl

-- The parts that the rounds read, put together.
module _ (held : FileExtent → ℕ → ℕ) (e : FileExtent) (es : List FileExtent) (pos : ℕ) where
  gap_window :
      (left : ℕ)
      → pos < e.file_offset
      → pos + left < u64_mod
      → (let gap = min (e.file_offset - pos) left in
          zeros gap ++ window (byte_at held (e ∷ es)) (pos + gap) (left - gap)
          ≡ window (byte_at held (e ∷ es)) pos left)
  gap_window left before low =
      let gap = min (e.file_offset - pos) left in
      let all =
        window-zeros (byte_at held (e ∷ es)) pos gap
          (λ i less. byte_at-gap held e es (pos + i) (omega arith) (omega arith)) in
      rw (sym all) (window-split (byte_at held (e ∷ es)) pos gap left (omega arith))

  extent_window :
      (left n : ℕ)
      → e.file_offset ≤ pos
      → pos + n ≤ e.file_offset + e.num_bytes
      → n ≤ left
      → pos + left < u64_mod
      → window (held e) (pos - e.file_offset) n
          ++ window (byte_at held (e ∷ es)) (pos + n) (left - n)
        ≡ window (byte_at held (e ∷ es)) pos left
  extent_window left n from fits some_left low =
      ap (λ xs. xs ++ window (byte_at held (e ∷ es)) (pos + n) (left - n))
        (window-same (held e) (byte_at held (e ∷ es)) (pos - e.file_offset) pos n same)
      ∙ window-split (byte_at held (e ∷ es)) pos n left some_left
    where
      same : (i : ℕ) → i < n → held e (pos - e.file_offset + i) ≡ byte_at held (e ∷ es) (pos + i)
      same i less =
          ap (held e) (omega arith)
          ∙ sym (byte_at-in held e es (pos + i) (omega arith) (omega arith))

  behind_window :
      (n : ℕ) → end e ≤ pos → window (byte_at held es) pos n ≡ window (byte_at held (e ∷ es)) pos n
  behind_window n behind =
      window-same (byte_at held es) (byte_at held (e ∷ es)) pos pos n
        λ i less. sym (byte_at-behind held e es (pos + i) (omega arith))

module _ (read_data : (logical size : ℕ) → Result (List ℕ))
    (decompress : (compression : ℕ) → (payload : List ℕ) → (expected : ℕ) → Result (List ℕ)) where
  -- Each part of an extent can be read, and is what the extent holds there.
  abbrev pub Serves : (FileExtent → ℕ → ℕ) → FileExtent → Type 0
  Serves held e =
      (within n : ℕ)
      → within + n ≤ e.num_bytes
      → extent_bytes read_data decompress e within n ≡ ok (window (held e) within n)

  module _ {S : Type 0} (ops : CursorOps S) (objectid : ℕ) (held : FileExtent → ℕ → ℕ) where
    -- A round at an extent, if the rounds that follow it do what they should.
    module _ (rest : S → (pos left : ℕ) → Result (List ℕ)) (s t : S) (e : FileExtent)
        (es : List FileExtent) (pos left : ℕ) (a : ops.advance s ≡ ok t) (serve : Serves held e)
        (low : pos + left < u64_mod) (some_left : 0 < left)
        (same : (p l : ℕ)
          → l < left
          → p + l < u64_mod
          → rest s p l ≡ ok (window (byte_at held (e ∷ es)) p l))
        (next : (p l : ℕ)
          → l ≤ left
          → p + l < u64_mod
          → rest t p l ≡ ok (window (byte_at held es) p l)) where
      from_extent_lem :
          e.file_offset ≤ pos
          → pos < end e
          → from_extent read_data decompress ops objectid rest s pos left e
            ≡ ok (window (byte_at held (e ∷ es)) pos left)
      from_extent_lem from below =
          let within = pos - e.file_offset in
          let n = min (e.num_bytes - within) left in
          let whole = λ (m : ℕ) (fits : pos + m ≤ e.file_offset + e.num_bytes) (some : m ≤ left).
            extent_window held e es pos left m from fits some low in
          rw (serve within n (omega arith)) (elim (Bool-cases (leb (end e) (pos + n))) [
            | inl done ↦
                rw (done, a, next (pos + n) (left - n) (omega arith) (omega arith))
                  (ap ok (
                    ap (λ xs. window (held e) within n ++ xs)
                      (behind_window held e es (pos + n) (left - n) (leb→le (end e) (pos + n) done))
                    ∙ whole n (omega arith) (omega arith)))
            | inr inside ↦
                rw (inside, same (pos + n) (left - n) (omega arith) (omega arith))
                  (ap ok (whole n (omega arith) (omega arith)))
          ])

      extent_round :
          round read_data decompress ops objectid rest s pos left (the_extent e)
          ≡ ok (window (byte_at held (e ∷ es)) pos left)
      extent_round = elim (Bool-cases (ltb pos e.file_offset)) [
        | inl before ↦
            let less = ltb→lt pos e.file_offset before in
            let gap = min (e.file_offset - pos) left in
            rw (before, same (pos + gap) (left - gap) (omega arith) (omega arith))
              (ap ok (gap_window held e es pos left less low))
        | inr from ↦ elim (Bool-cases (leb (end e) pos)) [
          | inl behind ↦
              rw (from, behind, a, next pos left (omega arith) low)
                (ap ok (behind_window held e es pos left (leb→le (end e) pos behind)))
          | inr below ↦
              rw (from, below)
                (from_extent_lem (ltb→ge pos e.file_offset from) (leb→gt (end e) pos below))
        ]
      ]

    read_from_step :
        (fuel : ℕ) (s : S) (pos left : ℕ)
        → read_from read_data decompress ops objectid (suc fuel) s pos (suc left) ≡ (
            covering ops objectid s >>= λ c.
            round read_data decompress ops objectid
              (read_from read_data decompress ops objectid fuel)
              s
              pos
              (suc left)
              c)
    unfolding read_from
    read_from_step fuel s pos left = rw positive refl
      where
        positive : (suc left == 0) ≡ false
        positive = ground arith

    read_from-window :
        (fuel : ℕ) {rounds : ℕ} {s : S} {es : List FileExtent} (pos left : ℕ)
        → Passes ops objectid rounds s es
        → All (Serves held) es
        → rounds + left ≤ fuel
        → pos + left < u64_mod
        → read_from read_data decompress ops objectid fuel s pos left
          ≡ ok (window (byte_at held es) pos left)
    unfolding read_from window byte_at
    read_from-window zero pos zero p serve enough low = refl
    read_from-window zero pos (suc left) p serve enough low = absurd (omega arith)
    read_from-window (suc fuel) pos zero p serve enough low = refl
    read_from-window (suc fuel) {s = s} pos (suc left) (no_more c) serve enough low =
        read_from_step fuel s pos left
        ∙ rw c (ap ok (sym (window-zeros (byte_at held []) pos (suc left) λ i less. refl)))
    read_from-window (suc fuel) {s = s} pos (suc left) (one_before c a p) serve enough low =
        read_from_step fuel s pos left
        ∙ rw (c, a) (read_from-window fuel pos (suc left) p serve (omega arith) low)
    read_from-window (suc fuel) {s = s} pos (suc left) (one_extent c a p) serve enough low =
        read_from_step fuel s pos left
        ∙ rw c (
            extent_round (read_from read_data decompress ops objectid fuel) s _ _ _ pos (suc left) a
              serve.0 low (omega arith)
              (λ n l less fits.
                read_from-window fuel n l (one_extent c a p) serve (omega arith) fits)
              (λ n l less fits. read_from-window fuel n l p serve.1 (omega arith) fits))

    -- The same from the search on, with what the file has from there.
    pub read_inode_data-window :
        (fuel : ℕ) {rounds : ℕ} (search_le : Key → Result S) (s : S) (es : List FileExtent)
        (size offset len : ℕ)
        → search_le (record { objectid = objectid; item_type = extent_data_key; offset = offset })
          ≡ ok s
        → Passes ops objectid rounds s es
        → All (Serves held) es
        → IsU64 size
        → rounds + len ≤ fuel
        → read_inode_data read_data decompress ops objectid fuel search_le size offset len
          ≡ ok (window (byte_at held es) offset (min len (size - offset)))
    unfolding read_inode_data
    read_inode_data-window fuel search_le s es size offset len found p serve small enough =
        elim (Bool-cases (leb size offset)) [
          | inl past ↦ rw past (
              ap ok (
                no_window (byte_at held es) offset (min len (size - offset))
                  (omega (arith, leb→le size offset past))))
          | inr inside ↦ elim (Bool-cases (min len (size - offset) == 0)) [
            | inl nothing_asked ↦
                rw (inside, nothing_asked)
                  (ap ok
                    (no_window (byte_at held es) offset (min len (size - offset)) (ground arith)))
            | inr some_asked ↦
                rw (inside, some_asked, found)
                  (read_from-window fuel offset (min len (size - offset)) p serve (omega arith)
                    (omega (arith, leb→gt size offset inside)))
          ]
        ]

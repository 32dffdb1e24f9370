-- ===== src/Exclude/Mirrors.antt =====
-- No copy of the superblock lies outside the excluded ranges.
use luks_android.Prelude.{
  ℕ, zero, suc, ◌+◌, ◌-◌, ◌≤◌, ◌<◌, ◌≡◌, refl, sym, inl, inr, ◌⊎◌, ap, ◌∙◌, ltb, ◌||◌, true, some,
  List, [], ◌∷◌, ◌++◌, arith, get_elem?, lt→ltb, le→leb, min, if◌then◌else◌,
}
use luks_android.Prelude.Words.{u64_mod, IsU64, add64, sub64}
use luks_android.Chunk.{Stripe, Chunk}
use luks_android.Chunk.Map.{ChunkMap}
use luks_android.Exclude.{
  Range, for_stripe, for_stripes, for_mirrors, for_chunk, for_chunks, sb_offsets, sb_protect_len,
  compute_sb_exclusions, protect, push_if_nonempty, sb_mirror_0,
}
use luks_android.Exclude.Merge.{covered, merge_ranges_lem}

covered-append :
    (xs ys : List Range) (a : ℕ) → covered (xs ++ ys) a ≡ (covered xs a || covered ys a)
covered-append [] ys a = refl
covered-append (x ∷ xs) ys a = let rest = covered-append xs ys a in ground arith

covered-left : (xs ys : List Range) (a : ℕ) → covered xs a ≡ true → covered (xs ++ ys) a ≡ true
covered-left xs ys a h = let both = covered-append xs ys a in ground arith

covered-right : (xs ys : List Range) (a : ℕ) → covered ys a ≡ true → covered (xs ++ ys) a ≡ true
covered-right xs ys a h = let both = covered-append xs ys a in ground arith

-- The three places of a superblock on a device: at 64 KiB, 64 MiB and 256 GiB.
abbrev pub IsMirror : ℕ → Type 0
IsMirror o = (o ≡ 65536) ⊎ ((o ≡ 67108864) ⊎ (o ≡ 274877906944))

-- The byte `k` of the region that starts at the physical offset `o`, in the stripe `s` of the
-- chunk `c`.
pub record Protected (c : Chunk) (s : Stripe) (o k : ℕ) : Type 0 where
  pub addressable : IsU64 (c.logical + c.length + 65536)
  pub on_device : IsU64 (s.offset + c.length)
  pub starts : s.offset ≤ o
  pub begins_inside : o < s.offset + c.length
  pub byte : k < 65536
  pub inside : o + k < s.offset + c.length

abbrev pub logical_of : Chunk → Stripe → ℕ → ℕ
logical_of c s at = c.logical + (at - s.offset)

covered-protect :
    (start k end : ℕ)
    → IsU64 (start + sb_protect_len)
    → k < sb_protect_len
    → start + k < end
    → covered (protect start end) (start + k) ≡ true
covered-protect start k end u h l = ground arith

covered-for_stripe :
    (c : Chunk) (s : Stripe) (o k : ℕ)
    → Protected c s o k
    → covered (for_stripe c (c.logical + c.length) o s) (logical_of c s (o + k)) ≡ true
unfolding for_stripe
covered-for_stripe c s o k v =
    let start : add64 c.logical (sub64 o s.offset) ≡ c.logical + (o - s.offset) = omega arith in
    let at : logical_of c s (o + k) ≡ c.logical + (o - s.offset) + k = omega arith in
    rw
      (
        for_stripe,
        lt→ltb (s.offset + c.length) u64_mod v.on_device,
        le→leb s.offset o v.starts,
        lt→ltb o (s.offset + c.length) v.begins_inside,
        start,
        at,
      )
      (covered-protect (c.logical + (o - s.offset)) k (c.logical + c.length) (omega arith) v.byte
        (omega arith))

covered-for_stripes :
    (c : Chunk) (end o a : ℕ) (ss : List Stripe) (i : ℕ) (s : Stripe)
    → get_elem? ss i ≡ some s
    → covered (for_stripe c end o s) a ≡ true
    → covered (for_stripes c end o ss) a ≡ true
unfolding for_stripes
covered-for_stripes c end o a [] i s g h = cc
covered-for_stripes c end o a (t ∷ ss) zero s g h =
    let same : t ≡ s = cc in
    covered-left (for_stripe c end o t) (for_stripes c end o ss) a
      (ap (λ x. covered (for_stripe c end o x) a) same ∙ h)
covered-for_stripes c end o a (t ∷ ss) (suc i) s g h =
    covered-right (for_stripe c end o t) (for_stripes c end o ss) a
      (covered-for_stripes c end o a ss i s g h)

covered-for_mirrors :
    (c : Chunk) (end a : ℕ) (os : List ℕ) (j o : ℕ)
    → get_elem? os j ≡ some o
    → covered (for_stripes c end o c.stripes) a ≡ true
    → covered (for_mirrors c end os) a ≡ true
unfolding for_mirrors
covered-for_mirrors c end a [] j o g h = cc
covered-for_mirrors c end a (p ∷ os) zero o g h =
    let same : p ≡ o = cc in
    covered-left (for_stripes c end p c.stripes) (for_mirrors c end os) a
      (ap (λ x. covered (for_stripes c end x c.stripes) a) same ∙ h)
covered-for_mirrors c end a (p ∷ os) (suc j) o g h =
    covered-right (for_stripes c end p c.stripes) (for_mirrors c end os) a
      (covered-for_mirrors c end a os j o g h)

covered-for_chunks :
    (cs : List Chunk) (i : ℕ) (c : Chunk) (a : ℕ)
    → get_elem? cs i ≡ some c
    → covered (for_chunk c) a ≡ true
    → covered (for_chunks cs) a ≡ true
unfolding for_chunks
covered-for_chunks [] i c a g h = cc
covered-for_chunks (d ∷ cs) zero c a g h =
    let same : d ≡ c = cc in
    covered-left (for_chunk d) (for_chunks cs) a (ap (λ x. covered (for_chunk x) a) same ∙ h)
covered-for_chunks (d ∷ cs) (suc i) c a g h =
    covered-right (for_chunk d) (for_chunks cs) a (covered-for_chunks cs i c a g h)

-- The part of `for_chunk` that looks at the mirrors.
covered-for_chunk :
    (c : Chunk) (a : ℕ)
    → IsU64 (c.logical + c.length)
    → covered (for_mirrors c (c.logical + c.length) sb_offsets) a ≡ true
    → covered (for_chunk c) a ≡ true
unfolding for_chunk
covered-for_chunk c a u h =
    rw (for_chunk, lt→ltb (c.logical + c.length) u64_mod u)
      (covered-right
        (if ltb c.logical sb_mirror_0
          then push_if_nonempty c.logical (min sb_mirror_0 (c.logical + c.length))
          else [])
        (for_mirrors c (c.logical + c.length) sb_offsets) a h)

IsMirror-offset : (o : ℕ) → IsMirror o → (j : ℕ) × (get_elem? sb_offsets j ≡ some o)
IsMirror-offset o (inl first) = (0, ap some (sym first))
IsMirror-offset o (inr (inl second)) = (1, ap some (sym second))
IsMirror-offset o (inr (inr third)) = (2, ap some (sym third))

-- For each offset 64 KiB, 64 MiB or 256 GiB that lies in a stripe of a chunk of the map, the end of the
-- stripe on the device and the logical addresses up to 64 KiB behind the chunk fitting 64 bits: of the
-- 65536 bytes from the offset on, each that lies in that stripe has its logical address in an excluded
-- range.
pub compute_sb_exclusions_lem :
    (m : ChunkMap) (i : ℕ) (c : Chunk) (n : ℕ) (s : Stripe) (o k : ℕ)
    → get_elem? m.chunks i ≡ some c
    → get_elem? c.stripes n ≡ some s
    → IsMirror o
    → Protected c s o k
    → covered (compute_sb_exclusions m) (logical_of c s (o + k)) ≡ true
unfolding compute_sb_exclusions
compute_sb_exclusions_lem m i c n s o k chunk stripe mirror v =
    let (j, offset) = IsMirror-offset o mirror in
    (merge_ranges_lem (for_chunks m.chunks) (logical_of c s (o + k))).1
    ∙ covered-for_chunks m.chunks i c (logical_of c s (o + k)) chunk (
        covered-for_chunk c (logical_of c s (o + k)) (omega (arith, v.addressable)) (
          covered-for_mirrors c (c.logical + c.length) (logical_of c s (o + k)) sb_offsets j o
            offset
            (covered-for_stripes c (c.logical + c.length) o (logical_of c s (o + k)) c.stripes n s
              stripe (covered-for_stripe c s o k v))))

-- ===== src/Alloc/Build/Gaps.antt =====
-- The scan of one block group: lengths and gaps add up to the group only if the extents in it
-- follow one another without overlap.
use luks_android.Prelude.{ℕ, ◌+◌, ◌^◌, ◌≤◌, ◌<◌, ◌≡◌, refl, arith, Bool, true, false}
use luks_android.Prelude.{List, [], ◌∷◌, ltb, leb, ◌||◌, ◌&&◌, not, Bool-cases, if◌then◌else◌}
use luks_android.Prelude.{inl, inr, max}
use luks_android.Prelude.Words.{u64_mod, add64, sub64}
use luks_android.Alloc.{AllocatedExtent}
use luks_android.Alloc.Ranges.{Within, total, inside, has, has-below, Within-lower}
use luks_android.Alloc.Build.{Scan, scan}

-- Extents end within the address space, and are not empty.
abbrev pub Bounded : List AllocatedExtent → Type 0
Bounded [] = Unit {0}
Bounded (ext ∷ exts) = (ext.bytenr + ext.length ≤ 2 ^ 63) × (0 < ext.length) × Bounded exts

-- Extents in the order of their addresses, as the tree holds them.
abbrev pub Ordered : ℕ → List AllocatedExtent → Type 0
Ordered lo [] = Unit {0}
Ordered lo (ext ∷ exts) = (lo ≤ ext.bytenr) × Ordered ext.bytenr exts

abbrev pub lengths : List AllocatedExtent → ℕ
lengths [] = 0
lengths (ext ∷ exts) = ext.length + lengths exts

-- `a` lies in one of the extents.
abbrev pub allocated_at : List AllocatedExtent → ℕ → Bool
allocated_at [] a = false
allocated_at (ext ∷ exts) a = inside ext.bytenr ext.length a || allocated_at exts a

-- `a` lies in one of the extents that start at `lo` or behind it.
abbrev pub held_from : (lo : ℕ) → List AllocatedExtent → ℕ → Bool
held_from lo [] a = false
held_from lo (ext ∷ exts) a =
    (leb lo ext.bytenr && inside ext.bytenr ext.length a) || held_from lo exts a

module _ (bg_start bg_end : ℕ) (small : bg_end ≤ 2 ^ 63) where
  -- The extents that a scan keeps, among those of the tree.
  pub allocated_at-scan :
      (exts : List AllocatedExtent) (sum cursor a : ℕ)
      → a < bg_end
      → allocated_at (scan bg_start bg_end sum cursor exts).extents a ≡ held_from bg_start exts a
  unfolding scan
  allocated_at-scan [] sum cursor a h = refl
  allocated_at-scan (ext ∷ exts) sum cursor a h =
      elim (Bool-cases (ltb ext.bytenr bg_start || leb bg_end ext.bytenr)) [
        | inl o ↦ let rest = allocated_at-scan exts sum cursor a h in rw (o, rest) (ground arith)
        | inr o ↦
            let rest =
              allocated_at-scan exts (add64 sum ext.length) (add64 ext.bytenr ext.length) a h in
            rw (o, rest) (ground arith)
      ]

  -- Lengths and gaps reach from the cursor to the end of the group at least.
  pub scan-total :
      (exts : List AllocatedExtent) (sum cursor : ℕ)
      → Bounded exts
      → sum + lengths exts < u64_mod
      → cursor ≤ 2 ^ 63
      → let s = scan bg_start bg_end sum cursor exts in
        (sum ≤ s.total_allocated)
        × (s.total_allocated ≤ sum + lengths exts)
        × (bg_end + sum ≤ s.total_allocated + total s.free_ranges + cursor)
  unfolding scan
  scan-total [] sum cursor b u c = ground arith
  scan-total (ext ∷ exts) sum cursor b u c =
      elim (Bool-cases (ltb ext.bytenr bg_start || leb bg_end ext.bytenr)) [
        | inl o ↦ rw o (ground (arith, scan-total exts sum cursor))
        | inr o ↦
            rw (o, sums, ends)
              (ground (arith, scan-total exts (sum + ext.length) (ext.bytenr + ext.length)))
      ]
    where
      sums : add64 sum ext.length ≡ sum + ext.length
      sums = omega arith

      ends : add64 ext.bytenr ext.length ≡ ext.bytenr + ext.length
      ends = omega arith

  -- The gaps of extents in the order of their addresses are disjoint.
  pub scan-gaps :
      (exts : List AllocatedExtent) (sum cursor lo base : ℕ)
      → Bounded exts
      → Ordered lo exts
      → base ≤ max bg_start lo
      → base ≤ cursor
      → base ≤ bg_end
      → cursor ≤ 2 ^ 63
      → total (scan bg_start bg_end sum cursor exts).free_ranges + base ≤ bg_end
  unfolding scan
  scan-gaps [] sum cursor lo base b o m c d f = ground arith
  scan-gaps (ext ∷ exts) sum cursor lo base b o m c d f =
      elim (Bool-cases (ltb ext.bytenr bg_start || leb bg_end ext.bytenr)) [
        | inl t ↦ rw t (scan-gaps exts sum cursor ext.bytenr base b.2 o.1 (omega arith) c d f)
        | inr t ↦
            rw (t, ends)
              (ground (
                arith,
                scan-gaps exts (add64 sum ext.length) (ext.bytenr + ext.length) ext.bytenr
                    ext.bytenr,
              ))
      ]
    where
      ends : add64 ext.bytenr ext.length ≡ ext.bytenr + ext.length
      ends = omega arith

  -- Gaps and extents share the group from the cursor on.
  pub record Tight (cursor : ℕ) (s : Scan) : Type 0 where
    pub within : Within cursor bg_end s.free_ranges
    pub exact :
        (a : ℕ) → cursor ≤ a → a < bg_end → has s.free_ranges a ≡ not (allocated_at s.extents a)
    pub below : (a : ℕ) → a < cursor → allocated_at s.extents a ≡ false

  scan-skip :
      (ext : AllocatedExtent) (exts : List AllocatedExtent) (sum cursor : ℕ)
      → (ltb ext.bytenr bg_start || leb bg_end ext.bytenr) ≡ true
      → scan bg_start bg_end sum cursor (ext ∷ exts) ≡ scan bg_start bg_end sum cursor exts
  unfolding scan
  scan-skip ext exts sum cursor t = rw t

  -- What the body of the loop adds to the rest for an extent of the group.
  abbrev keep : AllocatedExtent → ℕ → Scan → Scan
  keep ext cursor rest = record {
    extents = ext ∷ rest.extents;
    free_ranges =
        if ltb cursor ext.bytenr
        then record { start = cursor; length = sub64 ext.bytenr cursor } ∷ rest.free_ranges
        else rest.free_ranges;
    total_allocated = rest.total_allocated;
  }

  scan-keep :
      (ext : AllocatedExtent) (exts : List AllocatedExtent) (sum cursor : ℕ)
      → (ltb ext.bytenr bg_start || leb bg_end ext.bytenr) ≡ false
      → sum + ext.length < u64_mod
      → ext.bytenr + ext.length < u64_mod
      → scan bg_start bg_end sum cursor (ext ∷ exts)
        ≡ keep ext cursor (scan bg_start bg_end (sum + ext.length) (ext.bytenr + ext.length) exts)
  unfolding scan
  scan-keep ext exts sum cursor t u b = rw (t, sums, ends)
    where
      sums : add64 sum ext.length ≡ sum + ext.length
      sums = omega arith

      ends : add64 ext.bytenr ext.length ≡ ext.bytenr + ext.length
      ends = omega arith

  Tight-keep :
      (ext : AllocatedExtent) (cursor : ℕ) (rest : Scan)
      → ext.bytenr + ext.length ≤ 2 ^ 63
      → 0 < ext.length
      → cursor ≤ ext.bytenr
      → Tight (ext.bytenr + ext.length) rest
      → Tight cursor (keep ext cursor rest)
  Tight-keep ext cursor rest b p h t = record {
    within = ground (
      arith,
      t.within,
      Within-lower rest.free_ranges (ext.bytenr + ext.length) ext.bytenr bg_end,
      Within-lower rest.free_ranges (ext.bytenr + ext.length) cursor bg_end,
    );
    exact = λ a l u. ground (
      arith,
      t.exact a,
      t.below a,
      has-below rest.free_ranges (ext.bytenr + ext.length) bg_end a t.within,
    );
    below = λ a l. ground (arith, t.below a);
  }

  pub scan-Tight :
      (exts : List AllocatedExtent) (sum cursor : ℕ)
      → Bounded exts
      → sum + lengths exts < u64_mod
      → cursor ≤ 2 ^ 63
      → let s = scan bg_start bg_end sum cursor exts in
        s.total_allocated + total s.free_ranges + cursor ≡ bg_end + sum → Tight cursor s
  scan-Tight [] sum cursor b u c e =
      unfold scan in
      record { within = ground arith; exact = λ a p q. ground arith; below = λ a p. refl }
  scan-Tight (ext ∷ exts) sum cursor b u c e =
      elim (Bool-cases (ltb ext.bytenr bg_start || leb bg_end ext.bytenr)) [
        | inl t ↦
            let skip = scan-skip ext exts sum cursor t in
            rw skip (scan-Tight exts sum cursor b.2 (omega arith) c (rw skip at e))
        | inr t ↦
            let take = scan-keep ext exts sum cursor t (omega arith) (omega arith) in
            let rest =
              scan-total exts (sum + ext.length) (ext.bytenr + ext.length) b.2 (omega arith) b.0 in
            let e' = rw take at e in
            rw take (
              Tight-keep ext cursor _ b.0 b.1 (ground (arith, rest, e')) (
                scan-Tight exts (sum + ext.length) (ext.bytenr + ext.length) b.2 (omega arith) b.0
                  (ground (arith, rest, e'))))
      ]

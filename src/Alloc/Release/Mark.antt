-- ===== src/Alloc/Release/Mark.antt =====
-- `mark_allocated`: the range is taken exactly if one free range of its group holds it.
use luks_android.Prelude.{ℕ, suc, ◌+◌, ◌≤◌, ◌<◌, ◌≡◌, refl, arith, true}
use luks_android.Prelude.{Option, none, some, List, [], ◌∷◌, leb, ◌&&◌, All}
use luks_android.Prelude.{Bool-cases, inl, inr, ◌⊎◌, ap}
use luks_android.Prelude.Words.{u64_mod, IsU64, add64, saturating_add}
use luks_android.Error.{Result, ok, err, out_of_bounds, ◌>>=◌}
use luks_android.Alloc.{FreeRange, BlockGroupFreeSpace, FreeSpaceMap, charge, carve}
use luks_android.Alloc.Ranges.{Within, Within-le}
use luks_android.Alloc.Fit.{Taken, Taken-carve, Taken-later}
use luks_android.Alloc.Groups.{group_end, Groups, IsValid}
use luks_android.Alloc.Allocate.{Allocated, Allocated-here, Allocated-later}
use luks_android.Alloc.Release.{
  carve_marked, mark_in_ranges, mark_in_groups, mark_allocated, not_free, with_groups,
}

-- The range `[start, start + n)` does not lie in the given one.
abbrev pub NotIn : ℕ → ℕ → FreeRange → Type 0
NotIn start n r = ¬ ((r.start ≤ start) × (start + n ≤ r.start + r.length))

carve_marked-carve :
    (r : FreeRange) (start n : ℕ)
    → IsU64 (r.start + r.length)
    → r.start ≤ start
    → start + n ≤ r.start + r.length
    → carve_marked r (saturating_add r.start r.length) start (start + n) ≡ carve r start n
carve_marked-carve r start n u from upto = rw (sum, capped) refl
  where
    sum : add64 start n ≡ start + n
    sum = omega arith

    capped : saturating_add r.start r.length ≡ add64 r.start r.length
    capped = omega arith

abbrev pub Marks : (hi start n lo : ℕ) → List FreeRange → Option (List FreeRange) → Type 0
Marks hi start n lo rs none = All (NotIn start n) rs
Marks hi start n lo rs (some rs') = Taken lo hi n start rs rs'

module _ (hi start n : ℕ) (small : hi < u64_mod) (h : 0 < n) where
  Marks-behind :
      (r : FreeRange) (rs : List FreeRange) (lo : ℕ) (o : Option (List FreeRange))
      → Within lo hi (r ∷ rs)
      → NotIn start n r
      → Marks hi start n (r.start + r.length) rs o
      → Marks hi start n lo (r ∷ rs) (elim o [ none ↦ none | some rs' ↦ some (r ∷ rs') ])
  Marks-behind r rs lo none v out f = (out, f)
  Marks-behind r rs lo (some rs') v out t = Taken-later r rs rs' lo hi start n v t

  pub mark_in_ranges-Marks :
      (rs : List FreeRange) (lo : ℕ)
      → Within lo hi rs
      → Marks hi start n lo rs (mark_in_ranges rs start (start + n))
  unfolding mark_in_ranges
  mark_in_ranges-Marks [] lo v = tt
  mark_in_ranges-Marks (r ∷ rs) lo v =
      elim (Bool-cases (leb r.start start && leb (start + n) (saturating_add r.start r.length))) [
        | inl b ↦
            rw
              (
                b,
                carve_marked-carve r start n (omega (arith, below)) (ground (arith, below))
                    (ground (arith, below)),
              )
              (Taken-carve r rs lo hi start n small v h (ground (arith, below))
                (ground (arith, below)))
        | inr b ↦ rw b (
            Marks-behind r rs lo (mark_in_ranges rs start (start + n)) v
              (λ p. ground (arith, below)) (mark_in_ranges-Marks rs (r.start + r.length) v.2))
      ]
    where
      below : r.start + r.length < u64_mod
      below = omega (arith, Within-le rs (r.start + r.length) hi v.2)

-- The range does not lie in the group.
abbrev pub NotInGroup : ℕ → ℕ → BlockGroupFreeSpace → Type 0
NotInGroup start n bg = ¬ ((bg.block_group.start ≤ start) × (start + n ≤ group_end bg))

-- The range lies in a group, and in none of its free ranges.
abbrev pub IsTakenPartly : ℕ → ℕ → List BlockGroupFreeSpace → Type 0
IsTakenPartly start n [] = ⊥
IsTakenPartly start n (bg ∷ bgs) =
    (bg.block_group.start ≤ start) × (start + n ≤ group_end bg) × All (NotIn start n) bg.free_ranges
    ⊎ IsTakenPartly start n bgs

-- Which errors `mark_allocated` may report, and what it does otherwise.
abbrev Outcome :
    (lo start n : ℕ) → List BlockGroupFreeSpace → Result (List BlockGroupFreeSpace) → Type 0
Outcome lo start n bgs (ok bgs') = Allocated (λ flags. true) lo n start bgs bgs'
Outcome lo start n bgs (err e) =
    (e ≡ out_of_bounds) × All (λ bg. NotInGroup start n bg) bgs
    ⊎ (e ≡ not_free) × IsTakenPartly start n bgs

module _ (start n : ℕ) (h : 0 < n) where
  Outcome-group :
      (bg : BlockGroupFreeSpace) (bgs : List BlockGroupFreeSpace) (lo : ℕ)
      (o : Option (List FreeRange))
      → Groups lo (bg ∷ bgs)
      → bg.block_group.start ≤ start
      → start + n ≤ group_end bg
      → Marks (group_end bg) start n bg.block_group.start bg.free_ranges o
      → Outcome lo start n
          (bg ∷ bgs)
          (elim o [ none ↦ err not_free | some rs ↦ ok (charge bg rs n ∷ bgs) ])
  Outcome-group bg bgs lo none v from upto f = inr (refl, inl (from, upto, f))
  Outcome-group bg bgs lo (some rs) v from upto t =
      Allocated-here (λ flags. true) n bg bgs lo start rs v refl t

  Outcome-behind :
      (bg : BlockGroupFreeSpace) (bgs : List BlockGroupFreeSpace) (lo : ℕ)
      (o : Result (List BlockGroupFreeSpace))
      → Groups lo (bg ∷ bgs)
      → NotInGroup start n bg
      → Outcome (group_end bg) start n bgs o
      → Outcome lo start n (bg ∷ bgs) (o >>= λ bgs'. ok (bg ∷ bgs'))
  Outcome-behind bg bgs lo (err e) v out (inl (p, f)) = inl (p, (out, f))
  Outcome-behind bg bgs lo (err e) v out (inr (p, f)) = inr (p, inr f)
  Outcome-behind bg bgs lo (ok bgs') v out t =
      Allocated-later (λ flags. true) n bg bgs bgs' lo start v t

  mark_in_groups-Outcome :
      (bgs : List BlockGroupFreeSpace) (lo : ℕ)
      → Groups lo bgs
      → Outcome lo start n bgs (mark_in_groups bgs start n (start + n))
  unfolding mark_in_groups
  mark_in_groups-Outcome [] lo v = inl (refl, tt)
  mark_in_groups-Outcome (bg ∷ bgs) lo (lower, b, v) =
      elim (Bool-cases (
        leb bg.block_group.start start
        && leb (start + n) (saturating_add bg.block_group.start bg.block_group.length))) [
          | inl c ↦ rw c (
              Outcome-group bg bgs lo (mark_in_ranges bg.free_ranges start (start + n))
                (lower, b, v) (ground (arith, b.addressable)) (ground (arith, b.addressable))
                (mark_in_ranges-Marks (group_end bg) start n (omega (arith, b.addressable)) h
                  bg.free_ranges bg.block_group.start b.free))
          | inr c ↦ rw c (
              Outcome-behind bg bgs lo (mark_in_groups bgs start n (start + n)) (lower, b, v)
                (λ p. ground (arith, b.addressable)) (mark_in_groups-Outcome bgs (group_end bg) v))
        ]

mark_allocated_eq :
    (map : FreeSpaceMap) (start n : ℕ)
    → IsU64 (start + suc n)
    → mark_allocated map start (suc n)
      ≡ with_groups (mark_in_groups map.block_groups start (suc n) (start + suc n))
unfolding mark_allocated
mark_allocated_eq map start n u = ground arith

-- Marking a non-empty range of a valid map as allocated either succeeds, and then all of it was
-- free and exactly it is no longer free; or no group holds it; or one group holds it and none of
-- that group's free ranges does.
pub mark_allocated_lem :
    (map : FreeSpaceMap) (start n : ℕ)
    → IsValid map
    → IsU64 (start + suc n)
    → ((map' : FreeSpaceMap) × (mark_allocated map start (suc n) ≡ ok map')
        × Allocated (λ flags. true) 0 (suc n) start map.block_groups map'.block_groups)
      ⊎ (mark_allocated map start (suc n) ≡ err out_of_bounds)
        × All (λ bg. NotInGroup start (suc n) bg) map.block_groups
      ⊎ (mark_allocated map start (suc n) ≡ err not_free)
        × IsTakenPartly start (suc n) map.block_groups
mark_allocated_lem map start n v u = rw (mark_allocated_eq map start n u) (
    answer (mark_in_groups map.block_groups start (suc n) (start + suc n))
      (mark_in_groups-Outcome start (suc n) (omega arith) map.block_groups 0 v))
  where
    answer :
        (o : Result (List BlockGroupFreeSpace))
        → Outcome 0 start (suc n) map.block_groups o
        → ((map' : FreeSpaceMap) × (with_groups o ≡ ok map')
            × Allocated (λ flags. true) 0 (suc n) start map.block_groups map'.block_groups)
          ⊎ (with_groups o ≡ err out_of_bounds)
            × All (λ bg. NotInGroup start (suc n) bg) map.block_groups
          ⊎ (with_groups o ≡ err not_free) × IsTakenPartly start (suc n) map.block_groups
    answer (ok bgs) t = inl (record { block_groups = bgs }, refl, t)
    answer (err e) (inl (p, f)) = inr (inl (ap err p, f))
    answer (err e) (inr (p, f)) = inr (inr (ap err p, f))

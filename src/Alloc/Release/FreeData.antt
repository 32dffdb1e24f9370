-- ===== src/Alloc/Release/FreeData.antt =====
-- `free_data`: a range is pinned once, its bytes leave `used`, and it stays out of the free ranges.
use luks_android.Prelude.{ℕ, suc, ◌+◌, ◌≤◌, ◌<◌, ◌≡◌, refl, arith, Bool, true, false}
use luks_android.Prelude.{List, [], ◌∷◌, ltb, leb, ◌||◌, ◌&&◌, All}
use luks_android.Prelude.{Bool-cases, inl, inr, ◌⊎◌}
use luks_android.Prelude.Words.{IsU64, add64}
use luks_android.Error.{LuksError, Result, ok, err, ◌>>=◌}
use luks_android.Alloc.{BlockGroupFreeSpace, FreeSpaceMap}
use luks_android.Alloc.Ranges.{inside, has-above}
use luks_android.Alloc.Groups.{group_end, Groups, IsValid, free_at, pinned_at}
use luks_android.Alloc.Groups.{pinned_at-below, used_total}
use luks_android.Alloc.Release.{overlaps_pinned, free_in_group, free_in_groups, free_data}
use luks_android.Alloc.Release.{with_groups, frees_too_much, already_pinned, in_no_group}
use luks_android.Alloc.Release.Pin.{pin_lem, overlaps_pinned-none, overlaps_pinned-some}
use luks_android.Alloc.Release.Mark.{NotInGroup}

-- What freeing `[start, start + n)` does to the groups.
pub record Pinned (lo n start : ℕ) (bgs bgs' : List BlockGroupFreeSpace) : Type 0 where
  pub from : lo ≤ start
  pub valid : Groups lo bgs'
  pub fresh : (a : ℕ) → inside start n a ≡ true → pinned_at bgs a ≡ false
  pub added : (a : ℕ) → pinned_at bgs' a ≡ (pinned_at bgs a || inside start n a)
  pub kept : (a : ℕ) → free_at bgs' a ≡ free_at bgs a
  pub paid : used_total bgs' + n ≡ used_total bgs

-- The group of the range uses fewer bytes than the range has.
abbrev pub FreesTooMuch : ℕ → ℕ → List BlockGroupFreeSpace → Type 0
FreesTooMuch start n [] = ⊥
FreesTooMuch start n (bg ∷ bgs) =
    (bg.block_group.start ≤ start) × (start + n ≤ group_end bg) × (bg.block_group.used < n)
    ⊎ FreesTooMuch start n bgs

-- Some byte of the range is pinned already.
abbrev pub IsPinnedPartly : ℕ → ℕ → List BlockGroupFreeSpace → Type 0
IsPinnedPartly start n bgs = (a : ℕ) × (inside start n a ≡ true) × (pinned_at bgs a ≡ true)

abbrev pub Refused : ℕ → ℕ → List BlockGroupFreeSpace → LuksError → Type 0
Refused start n bgs e =
    (e ≡ in_no_group) × All (λ bg. NotInGroup start n bg) bgs
    ⊎ (e ≡ frees_too_much) × FreesTooMuch start n bgs
    ⊎ (e ≡ already_pinned) × IsPinnedPartly start n bgs

abbrev Outcome :
    (lo start n : ℕ) → List BlockGroupFreeSpace → Result (List BlockGroupFreeSpace) → Type 0
Outcome lo start n bgs (ok bgs') = Pinned lo n start bgs bgs'
Outcome lo start n bgs (err e) = Refused start n bgs e

module _ (start n : ℕ) (h : 0 < n) where
  module _ (bg : BlockGroupFreeSpace) (bgs : List BlockGroupFreeSpace) (lo : ℕ)
      (v : Groups lo (bg ∷ bgs)) where
    Pinned-later :
        (bgs' : List BlockGroupFreeSpace)
        → Pinned (group_end bg) n start bgs bgs'
        → Pinned lo n start (bg ∷ bgs) (bg ∷ bgs')
    Pinned-later bgs' p = record {
      from = omega (arith, v.0, p.from);
      valid = (v.0, v.1, p.valid);
      fresh = λ a i. ground (
        arith,
        p.fresh a i,
        p.from,
        has-above bg.pinned_freed bg.block_group.start (group_end bg) a v.1.pinned,
      );
      added = λ a. ground (arith, p.added a);
      kept = λ a. ground (arith, p.kept a);
      paid = omega (arith, p.paid);
    }

    Outcome-behind :
        (o : Result (List BlockGroupFreeSpace))
        → NotInGroup start n bg
        → Outcome (group_end bg) start n bgs o
        → Outcome lo start n (bg ∷ bgs) (o >>= λ bgs'. ok (bg ∷ bgs'))
    Outcome-behind (ok bgs') out p = Pinned-later bgs' p
    Outcome-behind (err e) out (inl (p, f)) = inl (p, (out, f))
    Outcome-behind (err e) out (inr (inl (p, f))) = inr (inl (p, inr f))
    Outcome-behind (err e) out (inr (inr (p, (a, i, q)))) = inr (inr (p, (a, i, ground arith)))

    Outcome-group :
        bg.block_group.start ≤ start
        → start + n ≤ group_end bg
        → Outcome lo start n
            (bg ∷ bgs)
            (free_in_group bg start n (start + n) >>= λ bg'. ok (bg' ∷ bgs))
    unfolding free_in_group
    Outcome-group from upto = elim (Bool-cases (ltb bg.block_group.used n)) [
      | inl c ↦ rw c (inr (inl (refl, inl (from, upto, ground arith))))
      | inr c ↦ elim (Bool-cases (overlaps_pinned bg.pinned_freed start (start + n))) [
        | inl d ↦
            let (a, i, q) =
              overlaps_pinned-some (group_end bg) start n (omega (arith, v.1.addressable)) h
                bg.pinned_freed bg.block_group.start v.1.pinned d in
            rw (c, d) (inr (inr (refl, (a, i, ground arith))))
        | inr d ↦
            let (within, counted, has_pin) =
              pin_lem (group_end bg) start n (omega (arith, v.1.addressable)) h bg.pinned_freed
                bg.block_group.start v.1.pinned from upto d in
            rw (c, d)
              record {
                from = omega (arith, v.0);
                valid = (
                  v.0,
                  record {
                    addressable = v.1.addressable;
                    free = v.1.free;
                    pinned = within;
                    counted = v.1.counted;
                    balanced = ground (arith, v.1.balanced, v.1.addressable);
                  },
                  v.2,
                );
                fresh = λ a i. ground (
                  arith,
                  overlaps_pinned-none (group_end bg) start n (omega (arith, v.1.addressable)) h
                      bg.pinned_freed bg.block_group.start a v.1.pinned d i,
                  pinned_at-below bgs (group_end bg) a v.2,
                );
                added = λ a. ground (arith, has_pin a);
                kept = λ a. refl;
                paid = ground (arith, v.1.balanced, v.1.addressable);
              }
      ]
    ]

  abbrev in_group : BlockGroupFreeSpace → Bool
  in_group bg =
      leb bg.block_group.start start
      && leb (start + n) (add64 bg.block_group.start bg.block_group.length)

  free_in_groups-Outcome :
      (bgs : List BlockGroupFreeSpace) (lo : ℕ)
      → Groups lo bgs
      → Outcome lo start n bgs (free_in_groups bgs start n (start + n))
  unfolding free_in_groups
  free_in_groups-Outcome [] lo v = inl (refl, tt)
  free_in_groups-Outcome (bg ∷ bgs) lo v = elim (Bool-cases (in_group bg)) [
    | inl c ↦ rw c (
        Outcome-group bg bgs lo v (ground (arith, v.1.addressable))
          (ground (arith, v.1.addressable)))
    | inr c ↦ rw c (
        Outcome-behind bg bgs lo v (free_in_groups bgs start n (start + n))
          (λ p. ground (arith, v.1.addressable)) (free_in_groups-Outcome bgs (group_end bg) v.2))
  ]

free_data_eq :
    (map : FreeSpaceMap) (start n : ℕ)
    → IsU64 (start + suc n)
    → free_data map start (suc n)
      ≡ with_groups (free_in_groups map.block_groups start (suc n) (start + suc n))
unfolding free_data
free_data_eq map start n u = ground arith

-- Freeing a non-empty range in a valid map either succeeds, and then no byte of it was pinned
-- before, exactly it is pinned in addition, the free ranges are what they were, the bytes in use
-- fall by its length and the map stays valid; or it fails because no group holds the range, the
-- group that holds it uses fewer bytes, or a byte of it is pinned already.
pub free_data_lem :
    (map : FreeSpaceMap) (start n : ℕ)
    → IsValid map
    → IsU64 (start + suc n)
    → ((map' : FreeSpaceMap) × (free_data map start (suc n) ≡ ok map')
        × Pinned 0 (suc n) start map.block_groups map'.block_groups)
      ⊎ ((e : LuksError) × (free_data map start (suc n) ≡ err e)
          × Refused start (suc n) map.block_groups e)
free_data_lem map start n v u = rw (free_data_eq map start n u) (
    answer (free_in_groups map.block_groups start (suc n) (start + suc n))
      (free_in_groups-Outcome start (suc n) (omega arith) map.block_groups 0 v))
  where
    answer :
        (o : Result (List BlockGroupFreeSpace))
        → Outcome 0 start (suc n) map.block_groups o
        → ((map' : FreeSpaceMap) × (with_groups o ≡ ok map')
            × Pinned 0 (suc n) start map.block_groups map'.block_groups)
          ⊎ ((e : LuksError) × (with_groups o ≡ err e) × Refused start (suc n) map.block_groups e)
    answer (ok bgs) p = inl (record { block_groups = bgs }, refl, p)
    answer (err e) f = inr (e, refl, f)

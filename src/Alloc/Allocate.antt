-- ===== src/Alloc/Allocate.antt =====
-- `allocate_metadata_for_owner` and `allocate_data`: an allocation takes an aligned extent that
-- was free in a group of the right kind, and nothing else; it fails only if there is no room.
use luks_android.Prelude.{ℕ, ◌+◌, ◌*◌, ◌^◌, ◌≤◌, ◌<◌, ◌≡◌, refl, arith, Bool, true}
use luks_android.Prelude.{Option, none, some, List, [], ◌∷◌, ◌&&◌, not, All, Bool-cases}
use luks_android.Prelude.{inl, inr, ◌⊎◌, if◌then◌else◌, ◌==◌, ◌/◌, ◌%◌}
use luks_android.Prelude.Bits.{bit_and-one, bit_and-two, bit_and-four, bit_and-five}
use mathlib.Core.Path.{fun_ext}
use native.Mathlib.Nat.{one-le-pow, pow-le-pow_right}
use luks_android.Error.{Result, ok, err, filesystem_full}
use luks_android.Alloc.{FreeRange, BlockGroupFreeSpace, FreeSpaceMap, first_fit, charge, behind}
use luks_android.Alloc.{allocate_from, or_full, allocate_data, bg_holds_data}
use luks_android.Alloc.{allocate_metadata_for_owner, holds_metadata_for}
use luks_android.Alloc.Ranges.{inside}
use luks_android.Alloc.Fit.{Taken, NoRoom, Fits, first_fit-Fits}
use luks_android.Alloc.Groups.{group_end, IsBalanced, Groups, IsValid, free_where, free_at}
use luks_android.Alloc.Groups.{free_at-below, free_at-above}

-- What an allocation of `[start, start + n)` does to the groups.
pub record Allocated (matches : ℕ → Bool) (lo n start : ℕ) (bgs bgs' : List BlockGroupFreeSpace)
    : Type 0 where
  pub from : lo ≤ start
  pub valid : Groups lo bgs'
  pub gone : (a : ℕ) → free_at bgs' a ≡ (free_at bgs a && not (inside start n a))
  pub was_free : (a : ℕ) → inside start n a ≡ true → free_where matches bgs a ≡ true

-- No group of the right kind has a free range with room.
abbrev pub IsFull : (ℕ → Bool) → ℕ → ℕ → List BlockGroupFreeSpace → Type 0
IsFull matches n alignment [] = Unit {0}
IsFull matches n alignment (bg ∷ bgs) =
    (matches bg.block_group.flags ≡ true → All (NoRoom n alignment) bg.free_ranges)
    × IsFull matches n alignment bgs

module _ (matches : ℕ → Bool) (n : ℕ) where
  charge-IsBalanced :
      (bg : BlockGroupFreeSpace) (start : ℕ) (rs : List FreeRange)
      → IsBalanced bg
      → Taken bg.block_group.start (group_end bg) n start bg.free_ranges rs
      → IsBalanced (charge bg rs n)
  charge-IsBalanced bg start rs b t = record {
    addressable = b.addressable;
    free = t.within;
    pinned = b.pinned;
    counted = omega (arith, b.counted, t.counted, b.balanced, b.addressable);
    balanced = omega (arith, b.balanced, t.counted, b.addressable);
  }

  pub Allocated-here :
      (bg : BlockGroupFreeSpace) (bgs : List BlockGroupFreeSpace) (lo start : ℕ)
      (rs : List FreeRange)
      → Groups lo (bg ∷ bgs)
      → matches bg.block_group.flags ≡ true
      → Taken bg.block_group.start (group_end bg) n start bg.free_ranges rs
      → Allocated matches lo n start (bg ∷ bgs) (charge bg rs n ∷ bgs)
  Allocated-here bg bgs lo start rs (lower, b, v) m t = record {
    from = omega (arith, t.from);
    valid = (lower, charge-IsBalanced bg start rs b t, v);
    gone = λ a. ground (arith, t.gone a, t.upto, free_at-below bgs (group_end bg) a v);
    was_free = λ a i. ground (arith, t.was_free a i);
  }

  pub Allocated-later :
      (bg : BlockGroupFreeSpace) (bgs bgs' : List BlockGroupFreeSpace) (lo start : ℕ)
      → Groups lo (bg ∷ bgs)
      → Allocated matches (group_end bg) n start bgs bgs'
      → Allocated matches lo n start (bg ∷ bgs) (bg ∷ bgs')
  Allocated-later bg bgs bgs' lo start (lower, b, v) t = record {
    from = omega (arith, t.from);
    valid = (lower, b, t.valid);
    gone = λ a. ground (arith, t.gone a, t.from, free_at-above bg a b);
    was_free = λ a i. ground (arith, t.was_free a i);
  }

module _ (matches : ℕ → Bool) (n k w : ℕ) (e : k + w ≡ 64) (room : 2 ^ k + n ≤ 2 ^ 63)
    (h : 0 < n) where
  abbrev Outcome : ℕ → List BlockGroupFreeSpace → Option (ℕ × List BlockGroupFreeSpace) → Type 0
  Outcome lo bgs none = IsFull matches n (2 ^ k) bgs
  Outcome lo bgs (some (start, bgs')) =
      ((q : ℕ) × (start ≡ q * 2 ^ k)) × Allocated matches lo n start bgs bgs'

  Outcome-behind :
      (bg : BlockGroupFreeSpace) (bgs : List BlockGroupFreeSpace) (lo : ℕ)
      (o : Option (ℕ × List BlockGroupFreeSpace))
      → Groups lo (bg ∷ bgs)
      → (matches bg.block_group.flags ≡ true → All (NoRoom n (2 ^ k)) bg.free_ranges)
      → Outcome (group_end bg) bgs o
      → Outcome lo (bg ∷ bgs) (behind bg o)
  Outcome-behind bg bgs lo none v full r = (full, r)
  Outcome-behind bg bgs lo (some (start, bgs')) v full (q, t) =
      (q, Allocated-later matches n bg bgs bgs' lo start v t)

  -- What the body of the loop answers for a group of the right kind.
  Outcome-group :
      (bg : BlockGroupFreeSpace) (bgs : List BlockGroupFreeSpace) (lo : ℕ)
      (o : Option (ℕ × List FreeRange)) (rest : Option (ℕ × List BlockGroupFreeSpace))
      → Groups lo (bg ∷ bgs)
      → matches bg.block_group.flags ≡ true
      → Fits (group_end bg) n (2 ^ k) bg.block_group.start bg.free_ranges o
      → Outcome (group_end bg) bgs rest
      → Outcome lo (bg ∷ bgs) (elim o [
        | none ↦ behind bg rest
        | some found ↦ some (found.0, charge bg found.1 n ∷ bgs)
      ])
  Outcome-group bg bgs lo none rest v m f r = Outcome-behind bg bgs lo rest v (λ m'. f) r
  Outcome-group bg bgs lo (some (start, rs)) rest v m (q, t) r =
      (q, Allocated-here matches n bg bgs lo start rs v m t)

  allocate_from-Outcome :
      (bgs : List BlockGroupFreeSpace) (lo : ℕ)
      → Groups lo bgs
      → Outcome lo bgs (allocate_from matches n (2 ^ k) bgs)
  unfolding allocate_from
  allocate_from-Outcome [] lo v = tt
  allocate_from-Outcome (bg ∷ bgs) lo v = elim (Bool-cases (matches bg.block_group.flags)) [
    | inl m ↦ rw m (
        Outcome-group bg bgs lo (first_fit bg.free_ranges n (2 ^ k))
          (allocate_from matches n (2 ^ k) bgs) v m
          (first_fit-Fits (group_end bg) n k w e (omega (arith, v.1.addressable)) h bg.free_ranges
            bg.block_group.start v.1.free)
          (allocate_from-Outcome bgs (group_end bg) v.2))
    | inr m ↦ rw m (
        Outcome-behind bg bgs lo (allocate_from matches n (2 ^ k) bgs) v (λ m'. cc)
          (allocate_from-Outcome bgs (group_end bg) v.2))
  ]

  -- The answer of an allocation function, from that of its loop.
  abbrev pub Answer : FreeSpaceMap → Result (ℕ × FreeSpaceMap) → Type 0
  Answer map r =
      ((start : ℕ) × (map' : FreeSpaceMap) × (r ≡ ok (start, map'))
        × ((q : ℕ) × (start ≡ q * 2 ^ k))
        × Allocated matches 0 n start map.block_groups map'.block_groups)
      ⊎ (r ≡ err filesystem_full) × IsFull matches n (2 ^ k) map.block_groups

  answer :
      (map : FreeSpaceMap) (o : Option (ℕ × List BlockGroupFreeSpace))
      → Outcome 0 map.block_groups o
      → Answer map (or_full o)
  answer map none f = inr (refl, f)
  answer map (some (start, bgs)) (q, t) = inl (start, record { block_groups = bgs }, refl, q, t)

  pub allocate_from-Answer :
      (map : FreeSpaceMap)
      → IsValid map
      → Answer map (or_full (allocate_from matches n (2 ^ k) map.block_groups))
  allocate_from-Answer map v = answer map _ (allocate_from-Outcome map.block_groups 0 v)

-- Whether a group is for data: bit 0 of its flags.
abbrev pub is_data_group : ℕ → Bool
is_data_group flags = flags % 2 == 1

-- Whether a group takes a tree block of an owner: for the chunk tree, 3, a system group, by bit 1 of its
-- flags; for any other tree a metadata group, by bit 2.
abbrev pub takes_block_of : ℕ → ℕ → Bool
takes_block_of owner flags = if owner == 3 then flags / 2 % 2 == 1 else flags / 4 % 2 == 1

bg_holds_data_lem : bg_holds_data ≡ is_data_group
unfolding bg_holds_data
bg_holds_data_lem = fun_ext λ flags. let low = bit_and-one flags in ground arith

holds_metadata_for_lem : (owner : ℕ) → holds_metadata_for owner ≡ takes_block_of owner
holds_metadata_for_lem owner = fun_ext λ flags.
    let system = bit_and-two flags in
    let metadata = bit_and-four flags in let mixed = bit_and-five flags in ground arith

-- From a valid map, allocating `n` bytes of data, 0 < n, aligned to a sector of 2^k bytes, where
-- k ≤ 64 and 2^k + n is at most 2^63, either returns an aligned extent, all of which was free in a data
-- group, one with bit 0 of its flags, and a valid map in which exactly that extent is no longer free; or
-- it reports a full file system, and then no free range of a data group has room for `n` bytes at an
-- aligned address.
pub allocate_data_lem :
    (n k w : ℕ)
    → k + w ≡ 64
    → 2 ^ k + n ≤ 2 ^ 63
    → 0 < n
    → (map : FreeSpaceMap) → IsValid map
    → ((start : ℕ) × (map' : FreeSpaceMap) × (allocate_data map n (2 ^ k) ≡ ok (start, map'))
        × ((q : ℕ) × (start ≡ q * 2 ^ k))
        × Allocated is_data_group 0 n start map.block_groups map'.block_groups)
      ⊎ (allocate_data map n (2 ^ k) ≡ err filesystem_full)
        × IsFull is_data_group n (2 ^ k) map.block_groups
unfolding allocate_data
allocate_data_lem n k w e room h map v =
    rw bg_holds_data_lem (allocate_from-Answer is_data_group n k w e room h map v)

-- From a valid map, allocating a tree block of 2^k bytes, k < 32, for an owner either returns an extent
-- aligned to 2^k, all of which was free in a group that takes such blocks, a system group for the chunk
-- tree and a metadata group for any other, by the bits 1 and 2 of its flags, and a valid map in which
-- exactly that extent is no longer free; or it reports a full file system, and then no free range of
-- such a group has room for 2^k bytes at an aligned address.
pub allocate_metadata_for_owner_lem :
    (k w owner : ℕ)
    → k + w ≡ 64
    → k < 32
    → (map : FreeSpaceMap) → IsValid map
    → ((start : ℕ) × (map' : FreeSpaceMap) × (allocate_metadata_for_owner map (2 ^ k) owner
          ≡ ok (start, map'))
        × ((q : ℕ) × (start ≡ q * 2 ^ k))
        × Allocated (takes_block_of owner) 0 (2 ^ k) start map.block_groups map'.block_groups)
      ⊎ (allocate_metadata_for_owner map (2 ^ k) owner ≡ err filesystem_full)
        × IsFull (takes_block_of owner) (2 ^ k) (2 ^ k) map.block_groups
unfolding allocate_metadata_for_owner
allocate_metadata_for_owner_lem k w owner e small map v = rw (holds_metadata_for_lem owner) (
    allocate_from-Answer (takes_block_of owner) (2 ^ k) k w e half (one-le-pow k 2 (omega arith))
      map v)
  where
    half : 2 ^ k + 2 ^ k ≤ 2 ^ 63
    half = omega (arith, pow-le-pow_right {n = 2} (omega arith) {i = k} {j = 31} (omega arith))

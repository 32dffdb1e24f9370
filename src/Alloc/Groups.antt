-- ===== src/Alloc/Groups.antt =====
-- The invariant of a free-space map.
use luks_android.Prelude.{ℕ, ◌+◌, ◌^◌, ◌≤◌, ◌<◌, ◌≡◌, refl, arith, Bool, true, false}
use luks_android.Prelude.{List, [], ◌∷◌, ◌||◌, ◌&&◌}
use luks_android.Alloc.{BlockGroupFreeSpace, FreeSpaceMap}
use luks_android.Alloc.Ranges.{Within, total, has, has-below, has-above}

abbrev pub group_end : BlockGroupFreeSpace → ℕ
group_end bg = bg.block_group.start + bg.block_group.length

-- The bytes of a group are used, free, pinned until the commit, or excluded.
pub record IsBalanced (bg : BlockGroupFreeSpace) : Type 0 where
  pub addressable : group_end bg ≤ 2 ^ 63
  pub free : Within bg.block_group.start (group_end bg) bg.free_ranges
  pub pinned : Within bg.block_group.start (group_end bg) bg.pinned_freed
  pub counted : bg.total_free_bytes ≡ total bg.free_ranges
  pub balanced :
      bg.block_group.used + total bg.free_ranges + total bg.pinned_freed + total bg.excluded_ranges
      ≡ bg.block_group.length

-- Balanced groups, one behind the other, from `lo` on.
abbrev pub Groups : ℕ → List BlockGroupFreeSpace → Type 0
Groups lo [] = Unit
Groups lo (bg ∷ bgs) = (lo ≤ bg.block_group.start) × IsBalanced bg × Groups (group_end bg) bgs

abbrev pub IsValid : FreeSpaceMap → Type 0
IsValid map = Groups 0 map.block_groups

-- `a` is free in one of the groups whose flags pass the test.
abbrev pub free_where : (ℕ → Bool) → List BlockGroupFreeSpace → ℕ → Bool
free_where matches [] a = false
free_where matches (bg ∷ bgs) a =
    matches bg.block_group.flags && has bg.free_ranges a || free_where matches bgs a

-- `a` is free.
abbrev pub free_at : List BlockGroupFreeSpace → ℕ → Bool
free_at bgs a = free_where (λ flags. true) bgs a

pub free_at-below :
    (bgs : List BlockGroupFreeSpace) (lo a : ℕ) → Groups lo bgs → a < lo → free_at bgs a ≡ false
free_at-below [] lo a v h = refl
free_at-below (bg ∷ bgs) lo a (from, b, v) h = ground (
  arith,
  has-below bg.free_ranges bg.block_group.start (group_end bg) a b.free,
  free_at-below bgs (group_end bg) a v,
)

pub free_at-above :
    (bg : BlockGroupFreeSpace) (a : ℕ)
    → IsBalanced bg
    → group_end bg ≤ a
    → has bg.free_ranges a ≡ false
free_at-above bg a b h = has-above bg.free_ranges bg.block_group.start (group_end bg) a b.free h

-- `a` was freed in this transaction.
abbrev pub pinned_at : List BlockGroupFreeSpace → ℕ → Bool
pinned_at [] a = false
pinned_at (bg ∷ bgs) a = has bg.pinned_freed a || pinned_at bgs a

pub pinned_at-below :
    (bgs : List BlockGroupFreeSpace) (lo a : ℕ) → Groups lo bgs → a < lo → pinned_at bgs a ≡ false
pinned_at-below [] lo a v h = refl
pinned_at-below (bg ∷ bgs) lo a (from, b, v) h = ground (
  arith,
  has-below bg.pinned_freed bg.block_group.start (group_end bg) a b.pinned,
  pinned_at-below bgs (group_end bg) a v,
)

-- The bytes in use.
abbrev pub used_total : List BlockGroupFreeSpace → ℕ
used_total [] = 0
used_total (bg ∷ bgs) = bg.block_group.used + used_total bgs

-- ===== src/Alloc/Build/Sound.antt =====
-- What a map built from an extent tree says of the free addresses of each block group.
use luks_android.Prelude.{ℕ, ◌+◌, ◌^◌, ◌≤◌, ◌<◌, ◌≡◌, refl, arith}
use luks_android.Prelude.{List, [], ◌∷◌, ◌==◌, not, All, Bool-cases}
use luks_android.Prelude.{inl, inr, sym, ap, some, ◌∙◌}
use luks_android.Prelude.Words.{u64_mod, IsU64, add64, checked_add}
use luks_android.Error.{ok, >>=-eq-ok}
use luks_android.Alloc.{FreeRange, BlockGroupItem, AllocatedExtent, ExtentTree}
use luks_android.Alloc.{BlockGroupFreeSpace, FreeSpaceMap}
use luks_android.Alloc.Ranges.{total, has}
use luks_android.Alloc.Groups.{group_end, IsBalanced, Groups, IsValid}
use mathlib.Core.Path.{subst}
use luks_android.Alloc.Build.{
  Scan, scan, entry, sum_lengths, checked_group, build_group, build_groups,
}
use luks_android.Alloc.Build.{from_extent_tree}
use luks_android.Alloc.Build.Gaps.{Bounded, Ordered, lengths, scan-Tight}
use luks_android.Alloc.Build.Gaps.{scan-total, scan-gaps, allocated_at-scan, held_from}

-- Block groups one behind the other, from `lo` on.
abbrev pub GroupItems : ℕ → List BlockGroupItem → Type 0
GroupItems lo [] = Unit {0}
GroupItems lo (bg ∷ bgs) =
    (lo ≤ bg.start) × (bg.start + bg.length ≤ 2 ^ 63) × GroupItems (bg.start + bg.length) bgs

-- In the group an address is free exactly if none of the extents that start in it or behind it holds it.
abbrev pub IsExact : List AllocatedExtent → BlockGroupFreeSpace → Type 0
IsExact exts g =
    (a : ℕ)
    → g.block_group.start ≤ a
    → a < group_end g
    → has g.free_ranges a ≡ not (held_from g.block_group.start exts a)

sum_lengths-total : (rs : List FreeRange) → total rs < u64_mod → sum_lengths rs ≡ total rs
sum_lengths-total [] h = refl
sum_lengths-total (r ∷ rs) h = omega (arith, sum_lengths-total rs (omega arith))

-- What the two checks let through.
checked_group-ok :
    (bg : BlockGroupItem) (s : Scan) (g : BlockGroupFreeSpace)
    → checked_group bg s ≡ ok g
    → (entry bg s (sum_lengths s.free_ranges) ≡ g)
      × (s.total_allocated ≡ bg.used)
      × (add64 s.total_allocated (sum_lengths s.free_ranges) ≡ bg.length)
unfolding checked_group
checked_group-ok bg s g e = elim (Bool-cases (s.total_allocated == bg.used)) [
  | inl p ↦ elim (Bool-cases (add64 s.total_allocated (sum_lengths s.free_ranges) == bg.length)) [
    | inl q ↦ (cc (rw (p, q) at e), ground arith, ground arith)
    | inr q ↦ cc (rw (p, q) at e)
  ]
  | inr p ↦ cc (rw p at e)
]

module _ (exts : List AllocatedExtent) (b : Bounded exts) (o : Ordered 0 exts)
    (u : IsU64 (lengths exts)) where
  entry_sound :
      (bg : BlockGroupItem)
      → bg.start + bg.length ≤ 2 ^ 63
      → let s = scan bg.start (bg.start + bg.length) 0 bg.start exts in
        s.total_allocated ≡ bg.used
        → add64 s.total_allocated (sum_lengths s.free_ranges) ≡ bg.length
        → IsBalanced (entry bg s (sum_lengths s.free_ranges))
          × IsExact exts (entry bg s (sum_lengths s.free_ranges))
  entry_sound bg small p q =
      let end = bg.start + bg.length in
      let s = scan bg.start end 0 bg.start exts in
      let all = scan-total bg.start end small exts 0 bg.start b (omega arith) (omega arith) in
      let gaps =
        scan-gaps bg.start end small exts 0 bg.start 0 bg.start b o (omega arith) (omega arith)
          (omega arith) (omega arith) in
      let sums : sum_lengths s.free_ranges ≡ total s.free_ranges =
        sum_lengths-total s.free_ranges (omega (arith, gaps)) in
      let exact : s.total_allocated + total s.free_ranges ≡ bg.length =
        omega (arith, all, gaps, sums, q) in
      let tight =
        scan-Tight bg.start end small exts 0 bg.start b (omega arith) (omega arith)
          (omega (arith, exact)) in
      (
        record {
          addressable = small;
          free = tight.within;
          pinned = omega arith;
          counted = sums;
          balanced = omega (arith, exact, p);
        },
        (λ a l u.
            tight.exact a l u ∙ ap not (allocated_at-scan bg.start end small exts 0 bg.start a u)),
      )

  build_group_sound :
      (bg : BlockGroupItem) (g : BlockGroupFreeSpace)
      → bg.start + bg.length ≤ 2 ^ 63
      → build_group exts bg ≡ ok g
      → (g.block_group ≡ bg) × IsBalanced g × IsExact exts g
  unfolding build_group
  build_group_sound bg g small e =
      let fits : checked_add bg.start bg.length ≡ some (bg.start + bg.length) = ground arith in
      let (same, p, q) =
        checked_group-ok bg (scan bg.start (bg.start + bg.length) 0 bg.start exts) g
          (rw fits at e) in
      let (balanced, exact) = entry_sound bg small p q in
      (
        sym (ap (λ (h : BlockGroupFreeSpace). h.block_group) same),
        subst IsBalanced same balanced,
        subst (IsExact exts) same exact,
      )

  build_groups_sound :
      (bgs : List BlockGroupItem) (gs : List BlockGroupFreeSpace) (lo : ℕ)
      → GroupItems lo bgs
      → build_groups exts bgs ≡ ok gs
      → Groups lo gs × All (IsExact exts) gs
  unfolding build_groups
  build_groups_sound [] gs lo v e =
      let nil : [] ≡ gs = cc in subst (λ xs. Groups lo xs × All (IsExact exts) xs) nil (tt, tt)
  build_groups_sound (bg ∷ bgs) gs lo v e =
      let (g, p, rest) = >>=-eq-ok (build_group exts bg) _ e in
      let (gs', q, r) = >>=-eq-ok (build_groups exts bgs) _ rest in
      let (same, balanced, exact) = build_group_sound bg g v.1 p in
      let (groups, exacts) = build_groups_sound bgs gs' (bg.start + bg.length) v.2 q in
      let cons : (g ∷ gs') ≡ gs = cc r in
      subst (λ xs. Groups lo xs × All (IsExact exts) xs) cons
        ((rw same v.0, balanced, rw same groups), (exact, exacts))

-- A map built from an extent tree whose extents are in the order of their addresses, not empty, up to
-- 2^63 and with lengths that are together below 2^64, with block groups one behind the other up to 2^63,
-- is valid: its groups are disjoint and balanced. In each group an address is free exactly if no extent
-- of the tree that starts in the group holds it.
pub from_extent_tree_lem :
    (tree : ExtentTree) (map : FreeSpaceMap)
    → Bounded tree.extents
    → Ordered 0 tree.extents
    → IsU64 (lengths tree.extents)
    → GroupItems 0 tree.block_groups
    → from_extent_tree tree ≡ ok map
    → IsValid map × All (IsExact tree.extents) map.block_groups
unfolding from_extent_tree
from_extent_tree_lem tree map b o u v e =
    let (gs, p, q) = >>=-eq-ok (build_groups tree.extents tree.block_groups) _ e in
    let same : record { block_groups = gs } ≡ map = cc q in
    subst (λ (m : FreeSpaceMap). IsValid m × All (IsExact tree.extents) m.block_groups) same
      (build_groups_sound tree.extents b o u tree.block_groups gs 0 v p)

-- ===== src/Alloc/Exclusions/Cuts.antt =====
-- Which addresses an exclusion leaves free.
use luks_android.Prelude.{
  ℕ, ◌+◌, ◌<◌, ◌≡◌, refl, not, ◌&&◌, ◌||◌, leb, ltb, List, [], ◌∷◌, ◌++◌, arith,
}
use luks_android.Prelude.Words.{IsU64, saturating_add}
use luks_android.Alloc.{FreeRange}
use luks_android.Alloc.Ranges.{Within, has, inside, Within-le}
use luks_android.Alloc.Exclusions.{Cut, between, cut_range, cut_ranges}

has-between :
    (start end a : ℕ) (rs : List FreeRange)
    → IsU64 end
    → has (between start end ++ rs) a ≡ (leb start a && ltb a end || has rs a)
has-between start end a rs u = ground arith

saturating_add_small : (a b : ℕ) → IsU64 (a + b) → saturating_add a b ≡ a + b
saturating_add_small a b u = omega arith

has-cut_range :
    (s e a : ℕ) (r : FreeRange) (rest : Cut)
    → IsU64 (r.start + r.length)
    → IsU64 s
    → 0 < r.length
    → s < e
    → has (cut_range s e r rest).free a
      ≡ (inside r.start r.length a && not (leb s a && ltb a e) || has rest.free a)
unfolding cut_range
has-cut_range s e a r rest u us p h =
    let sum = saturating_add_small r.start r.length u in
    let front = has-between r.start s a (between e (r.start + r.length) ++ rest.free) us in
    let back = has-between e (r.start + r.length) a rest.free u in ground arith

-- When the non-empty range from `s` to `e` is cut out of free ranges that are in order and below
-- `hi`, an address is left free exactly if it was free and is not in that range.
pub cut_ranges_lem :
    (rs : List FreeRange) (lo hi s e a : ℕ)
    → Within lo hi rs
    → IsU64 hi
    → IsU64 s
    → s < e
    → has (cut_ranges s e rs).free a ≡ (has rs a && not (leb s a && ltb a e))
unfolding cut_ranges
cut_ranges_lem [] lo hi s e a v u us h = refl
cut_ranges_lem (r ∷ rs) lo hi s e a v u us h =
    let rest = cut_ranges_lem rs (r.start + r.length) hi s e a v.2 u us h in
    let fits = Within-le rs (r.start + r.length) hi v.2 in
    let one = has-cut_range s e a r (cut_ranges s e rs) (omega arith) us v.1 h in ground arith

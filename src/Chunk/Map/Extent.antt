-- ===== src/Chunk/Map/Extent.antt =====
-- What a mapped address says of the addresses behind it: the bytes to the end of the chunk are
-- contiguous on the device.
use luks_android.Prelude.{
  ℕ, suc, ◌+◌, ◌-◌, ◌≤◌, ◌<◌, ◌≡◌, refl, arith, true, false, Option, none, some,
}
use luks_android.Prelude.{List, [], ◌∷◌, ltb, inl, inr, ◌∙◌, sym, ap, ap₂}
use luks_android.Prelude.{Bool-cases, get_elem?, lt→ltb}
use luks_android.Prelude.Words.{IsU64, u64_mod, checked_add, sub64}
use mathlib.Core.Path.{subst}
use luks_android.Error.{Result, ok, err, ◌>>=◌, ok_or, >>=-eq-ok}
use luks_android.Chunk.{Stripe, Chunk}
use luks_android.Chunk.Map.{ChunkMap, locate, map, physical_overflow}
use luks_android.Chunk.Map.Lookup.{Sorted, holds, find, Located, locate_lem, find-before, sub64_lem}

some-injective {ℓ} : {A : Type ℓ} {x y : A} → some x ≡ some y → x ≡ y
some-injective h = cc

find-some-lo : (cs : List Chunk) (lo a : ℕ) (c : Chunk) → Sorted lo cs → find cs a ≡ some c → lo ≤ a
find-some-lo cs lo a c v f = elim (Bool-cases (ltb a lo)) [
  | inl b ↦ let never = find-before cs lo a v (ground arith) in cc
  | inr b ↦ ground arith
]

find-held : (x : Chunk) (cs : List Chunk) (a : ℕ) → holds x a ≡ true → find (x ∷ cs) a ≡ some x
unfolding find
find-held x cs a h = rw h

find-other : (x : Chunk) (cs : List Chunk) (a : ℕ) → holds x a ≡ false → find (x ∷ cs) a ≡ find cs a
unfolding find
find-other x cs a h = rw h

same_end : (x c : Chunk) → x ≡ c → x.logical + x.length ≡ c.logical + c.length
same_end x c e = ap (λ d. d.logical + d.length) e

find-holds : (cs : List Chunk) (a : ℕ) (c : Chunk) → find cs a ≡ some c → holds c a ≡ true
find-holds [] a c f = let nil : find [] a ≡ none = find-before [] (suc a) a tt (omega arith) in cc
find-holds (x ∷ cs) a c f = elim (Bool-cases (holds x a)) [
  | inl b ↦
      let x≡c = some-injective (sym (find-held x cs a b) ∙ f) in ap (λ d. holds d a) (sym x≡c) ∙ b
  | inr b ↦ find-holds cs a c (sym (find-other x cs a b) ∙ f)
]

find-later :
    (cs : List Chunk) (lo a k : ℕ) (c : Chunk)
    → Sorted lo cs
    → find cs a ≡ some c
    → a + k < c.logical + c.length
    → find cs (a + k) ≡ some c
find-later [] lo a k c v f h =
    let nil : find [] a ≡ none = find-before [] (suc a) a tt (omega arith) in cc
find-later (x ∷ cs) lo a k c v f h = elim (Bool-cases (holds x a)) [
  | inl b ↦
      let x≡c = some-injective (sym (find-held x cs a b) ∙ f) in
      let end = same_end x c x≡c in find-held x cs (a + k) (ground arith) ∙ ap some x≡c
  | inr b ↦
      let f' = sym (find-other x cs a b) ∙ f in
      let above = find-some-lo cs (x.logical + x.length) a c v.3 f' in
      find-other x cs (a + k) (ground arith) ∙ find-later cs (x.logical + x.length) a k c v.3 f' h
]

locate-find :
    (cs : List Chunk) (a : ℕ) (c : Chunk) (r : Result (Chunk × ℕ))
    → Located cs a r
    → find cs a ≡ some c
    → r ≡ ok (c, a - c.logical)
locate-find cs a c (ok (d, w)) (e, sum) f =
    let d≡c = some-injective (sym e ∙ f) in
    let start = ap (λ x. x.logical) d≡c in ap₂ (λ x n. ok (x, n)) d≡c (omega arith)
locate-find cs a c (err e) (n, which) f = cc

-- The rest of `map`, once the chunk is found: with its first stripe and its length.
abbrev translate : Option Stripe → ℕ → ℕ → Result (ℕ × ℕ)
translate o len w = ok_or o physical_overflow >>= λ stripe.
    (ok_or (checked_add stripe.offset w) physical_overflow >>= λ physical.
    ok (physical, sub64 len w))

translate-ok :
    (o : Option Stripe) (len w p left : ℕ)
    → translate o len w ≡ ok (p, left)
    → (s : Stripe) × (o ≡ some s) × (p ≡ s.offset + w) × (left ≡ sub64 len w)
translate-ok none len w p left e = cc
translate-ok (some s) len w p left e = (s, refl, ground arith, ground arith)

translate-fits :
    (s : Stripe) (len w : ℕ)
    → w ≤ len
    → IsU64 len
    → IsU64 (s.offset + w)
    → translate (some s) len w ≡ ok (s.offset + w, len - w)
translate-fits s len w h u fits =
    let left = sub64_lem len w h u in
    let no_wrap = lt→ltb (s.offset + w) u64_mod fits in rw (no_wrap, left)

map-find :
    (m : ChunkMap) (lo a : ℕ) (c : Chunk)
    → Sorted lo m.chunks
    → IsU64 a
    → find m.chunks a ≡ some c
    → map m a ≡ translate (get_elem? c.stripes 0) c.length (a - c.logical)
unfolding map
map-find m lo a c v u f =
    ap (λ r. r >>= λ at. translate (get_elem? at.0.stripes 0) at.0.length at.1)
      (locate-find m.chunks a c (locate m.chunks a) (locate_lem m.chunks lo a v u) f)

-- A successful `map` found a chunk.
map-ok :
    (m : ChunkMap) (lo a p left : ℕ)
    → Sorted lo m.chunks
    → IsU64 a
    → map m a ≡ ok (p, left)
    → (c : Chunk) × (find m.chunks a ≡ some c)
unfolding map
map-ok m lo a p left v u e =
    let ((d, w), located, rest) =
      >>=-eq-ok (locate m.chunks a) (λ at. translate (get_elem? at.0.stripes 0) at.0.length at.1)
        e in
    let spec = subst (Located m.chunks a) located (locate_lem m.chunks lo a v u) in (d, spec.0)

chunk-IsU64 :
    (cs : List Chunk) (lo a : ℕ) (c : Chunk)
    → Sorted lo cs
    → find cs a ≡ some c
    → IsU64 (c.logical + c.length)
chunk-IsU64 [] lo a c v f =
    let nil : find [] a ≡ none = find-before [] (suc a) a tt (omega arith) in cc
chunk-IsU64 (x ∷ cs) lo a c v f = elim (Bool-cases (holds x a)) [
  | inl b ↦
      let end = same_end x c (some-injective (sym (find-held x cs a b) ∙ f)) in omega (arith, v.2)
  | inr b ↦ chunk-IsU64 cs (x.logical + x.length) a c v.3 (sym (find-other x cs a b) ∙ f)
]

-- In a map whose chunks are sorted, non-empty and disjoint: when `map` sends the address `a` to
-- `(p, left)`, then each of the `left` addresses from `a` on is mapped to the physical address as
-- far behind `p`, with as many bytes fewer left, if that physical address is one of 64 bits.
pub map-later :
    (m : ChunkMap) (lo a k p left : ℕ)
    → Sorted lo m.chunks
    → IsU64 a
    → map m a ≡ ok (p, left)
    → k < left
    → IsU64 (p + k)
    → map m (a + k) ≡ ok (p + k, left - k)
map-later m lo a k p left v u e less fits =
    let (c, f) = map-ok m lo a p left v u e in
    let (s, stripe, at, rest) =
      translate-ok (get_elem? c.stripes 0) c.length (a - c.logical) p left
        (sym (map-find m lo a c v u f) ∙ e) in
    let held = find-holds m.chunks a c f in
    let top = chunk-IsU64 m.chunks lo a c v f in
    let inside : (c.logical ≤ a) × (a < c.logical + c.length) = ground (arith, held) in
    let left≡ : left ≡ c.length - (a - c.logical) =
      rest ∙ sub64_lem c.length (a - c.logical) (omega (arith, inside)) (omega arith) in
    let f' = find-later m.chunks lo a k c v f (omega (arith, inside)) in
    map-find m lo (a + k) c v (omega (arith, inside)) f'
    ∙ ap (λ o. translate o c.length (a + k - c.logical)) stripe
    ∙ translate-fits s c.length (a + k - c.logical) (omega (arith, inside)) (omega arith)
        (omega (arith, inside))
    ∙ ap₂ (λ x y. ok (x, y)) (omega (arith, inside)) (omega (arith, inside))

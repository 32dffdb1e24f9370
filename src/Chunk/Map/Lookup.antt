-- ===== src/Chunk/Map/Lookup.antt =====
-- The lookup by binary search finds the chunk that holds the address, and only such a chunk.
use luks_android.Prelude.{
  ℕ, zero, suc, ◌+◌, ◌-◌, ◌≤◌, ◌<◌, ◌≡◌, refl, arith, Bool, true, false, Option, none, some,
}
use luks_android.Prelude.{List, [], ◌∷◌, ltb, leb, ◌&&◌, inl, inr, ◌⊎◌, ◌∙◌, sym, ap}
use luks_android.Prelude.{if◌then◌else◌, Bool-cases, Option-cases, ◌≢◌}
use luks_android.Prelude.Words.{IsU64, sub64}
use mathlib.Core.Path.{subst}
use luks_android.Error.{Result, ok, err, ◌>>=◌, ok_or}
use luks_android.Chunk.{Chunk}
use luks_android.Prelude.Search.{Search, found, missing, next_index}
use luks_android.Chunk.Map.{search, chunk_for}
use luks_android.Chunk.Map.{below_first, unmapped_gap, locate}

-- Non-empty chunks one behind the other, from `lo` on, each with a stripe.
abbrev pub Sorted : ℕ → List Chunk → Type 0
Sorted lo [] = Unit {0}
Sorted lo (c ∷ cs) =
    (lo ≤ c.logical)
    × (0 < c.length)
    × IsU64 (c.logical + c.length)
    × Sorted (c.logical + c.length) cs

abbrev pub holds : Chunk → ℕ → Bool
holds c a = leb c.logical a && ltb a (c.logical + c.length)

-- The first chunk that holds the address, by a scan of the whole list.
unfoldable pub find : List Chunk → ℕ → Option Chunk
find [] a = none
find (c ∷ cs) a = if holds c a then some c else find cs a

-- What the scan answers, as the code would report it.
abbrev pub Located : List Chunk → ℕ → Result (Chunk × ℕ) → Type 0
Located cs a (ok (c, within)) = (find cs a ≡ some c) × (c.logical + within ≡ a)
Located cs a (err e) = (find cs a ≡ none) × ((e ≡ below_first) ⊎ (e ≡ unmapped_gap))

-- The chunk that the code looks into: the last that begins at the address or before it.
candidate : List Chunk → ℕ → Option Chunk
candidate [] a = none
candidate (c ∷ cs) a =
    if leb c.logical a then elim (candidate cs a) [ none ↦ some c | some d ↦ some d ] else none

-- Whether the first chunk begins at the address or before it.
abbrev first_upto : List Chunk → ℕ → Bool
first_upto [] a = false
first_upto (c ∷ cs) a = leb c.logical a

candidate-front : (cs : List Chunk) (a : ℕ) → first_upto cs a ≡ false → candidate cs a ≡ none
unfolding candidate
candidate-front [] a h = refl
candidate-front (c ∷ cs) a h = rw h

search-front : (cs : List Chunk) (a : ℕ) → first_upto cs a ≡ false → search cs a ≡ missing 0
unfolding search
search-front [] a h = refl
search-front (c ∷ cs) a h = ground arith

candidate-later :
    (cs : List Chunk) (a : ℕ) → first_upto cs a ≡ true → (d : Chunk) × (candidate cs a ≡ some d)
unfolding candidate
candidate-later [] a h = cc
candidate-later (c ∷ cs) a h = elim (Option-cases (candidate cs a)) [
  | inl n ↦ (c, rw (h, n))
  | inr (d, e) ↦ (d, rw (h, e))
]

starts_above : (cs : List Chunk) (lo a : ℕ) → Sorted lo cs → first_upto cs a ≡ true → lo ≤ a
starts_above [] lo a v h = cc
starts_above (c ∷ cs) lo a v h = ground arith

-- One chunk more in front, and the index moved by one.
chunk_for-next :
    (c : Chunk) (cs : List Chunk) (a : ℕ) (s : Search)
    → chunk_for cs s ≢ err below_first
    → chunk_for (c ∷ cs) (next_index s) ≡ chunk_for cs s
chunk_for-next c cs a (found i) h = refl
chunk_for-next c cs a (missing zero) h = absurd (h refl)
chunk_for-next c cs a (missing (suc i)) h = refl

chunk_for-candidate :
    (cs : List Chunk) (lo a : ℕ)
    → Sorted lo cs
    → chunk_for cs (search cs a) ≡ ok_or (candidate cs a) below_first
unfolding candidate search
chunk_for-candidate [] lo a v = refl
chunk_for-candidate (c ∷ cs) lo a v = elim (Bool-cases (first_upto cs a)) [
  | inl b ↦
      let (d, e) = candidate-later cs a b in
      let ih : chunk_for cs (search cs a) ≡ ok d =
        chunk_for-candidate cs (c.logical + c.length) a v.3 ∙ rw e in
      let next = chunk_for-next c cs a (search cs a) (λ q. cc) in
      ground (arith, starts_above cs (c.logical + c.length) a v.3 b)
  | inr b ↦ ground (arith, candidate-front cs a b, search-front cs a b)
]

pub find-before : (cs : List Chunk) (lo a : ℕ) → Sorted lo cs → a < lo → find cs a ≡ none
unfolding find
find-before [] lo a v h = refl
find-before (c ∷ cs) lo a v h =
    let rest : find cs a ≡ none = find-before cs (c.logical + c.length) a v.3 (omega arith) in
    ground arith

find-front :
    (cs : List Chunk) (lo a : ℕ) → Sorted lo cs → first_upto cs a ≡ false → find cs a ≡ none
find-front [] lo a v h = find-before [] (suc a) a tt (omega arith)
find-front (c ∷ cs) lo a v h =
    find-before (c ∷ cs) c.logical a (omega arith, v.1, v.2, v.3) (ground arith)

-- What the code finds: the chunk that it looks into, if that holds the address.
abbrev only_if_held : ℕ → Option Chunk → Option Chunk
only_if_held a none = none
only_if_held a (some c) = if holds c a then some c else none

-- The chunk that the code looks into holds the address if any chunk does.
find-candidate :
    (cs : List Chunk) (lo a : ℕ) → Sorted lo cs → find cs a ≡ only_if_held a (candidate cs a)
unfolding find candidate
find-candidate [] lo a v = refl
find-candidate (c ∷ cs) lo a v = elim (Bool-cases (first_upto cs a)) [
  | inl b ↦
      let (d, e) = candidate-later cs a b in
      let rest = find-candidate cs (c.logical + c.length) a v.3 in
      let above = starts_above cs (c.logical + c.length) a v.3 b in
      let looked : only_if_held a (candidate cs a) ≡ only_if_held a (some d) =
        ap (only_if_held a) e in
      ground arith
  | inr b ↦
      let rest = find-front cs (c.logical + c.length) a v.3 b in
      let none_later = candidate-front cs a b in ground arith
]

-- It begins at the address or before it, and ends within the address space.
abbrev Reaches : ℕ → Option Chunk → Type 0
Reaches a none = Unit {0}
Reaches a (some d) = (d.logical ≤ a) × IsU64 (d.logical + d.length)

candidate-Reaches : (cs : List Chunk) (lo a : ℕ) → Sorted lo cs → Reaches a (candidate cs a)
unfolding candidate
candidate-Reaches [] lo a v = tt
candidate-Reaches (c ∷ cs) lo a v =
    let rest = candidate-Reaches cs (c.logical + c.length) a v.3 in ground arith

-- The second half of `locate`.
abbrev within : ℕ → Chunk → Result (Chunk × ℕ)
within a d =
    if leb d.length (sub64 a d.logical) then err unmapped_gap else ok (d, sub64 a d.logical)

pub sub64_lem : (a b : ℕ) → b ≤ a → IsU64 a → sub64 a b ≡ a - b
sub64_lem a b h w = omega arith

held-Located :
    (cs : List Chunk) (a : ℕ) (d : Chunk) (far : Bool)
    → find cs a ≡ only_if_held a (some d)
    → d.logical ≤ a
    → leb d.length (a - d.logical) ≡ far
    → Located cs a (if far then err unmapped_gap else ok (d, a - d.logical))
held-Located cs a d true f below e = (ground arith, inr refl)
held-Located cs a d false f below e = (ground arith, omega arith)

within-Located :
    (cs : List Chunk) (a : ℕ) (o : Option Chunk)
    → find cs a ≡ only_if_held a o
    → Reaches a o
    → IsU64 a
    → Located cs a (ok_or o below_first >>= within a)
within-Located cs a none f r w = (f, inl refl)
within-Located cs a (some d) f r w =
    subst (λ n. Located cs a (if leb d.length n then err unmapped_gap else ok (d, n)))
      (sym (sub64_lem a d.logical r.0 w))
      (held-Located cs a d (leb d.length (a - d.logical)) f r.0 refl)

-- In a map whose chunks are sorted, non-empty and disjoint, and for an address of 64 bits, `locate`
-- answers as a scan of all chunks does: the first chunk that holds the address with the distance
-- from its start, or, when no chunk holds it, one of the two errors for an unmapped address.
pub locate_lem : (cs : List Chunk) (lo a : ℕ) → Sorted lo cs → IsU64 a → Located cs a (locate cs a)
unfolding locate
locate_lem cs lo a v w =
    subst (λ r. Located cs a (r >>= within a)) (sym (chunk_for-candidate cs lo a v))
      (within-Located cs a (candidate cs a) (find-candidate cs lo a v) (candidate-Reaches cs lo a v)
        w)

-- ===== src/Chunk/Map/Stripes.antt =====
-- The addresses of all copies, which the writers use, against the address that the readers use.
use luks_android.Prelude.{ℕ, ◌≡◌, refl, some}
use luks_android.Prelude.{List, [], ◌∷◌, ◌∙◌, ap, get_elem?}
use luks_android.Prelude.Words.{checked_add, sub64}
use luks_android.Error.{ok, ◌>>=◌, ok_or, >>=-eq-ok}
use luks_android.Chunk.{Stripe}
use luks_android.Chunk.Map.{
  ChunkMap, locate, map, physical_overflow, stripe_addresses, map_all_stripes,
}

stripe_addresses-first :
    (ss : List Stripe) (w p : ℕ) (ps : List ℕ)
    → stripe_addresses ss w ≡ ok (p ∷ ps)
    → (s : Stripe) × (get_elem? ss 0 ≡ some s)
      × (ok_or (checked_add s.offset w) physical_overflow ≡ ok p)
unfolding stripe_addresses
stripe_addresses-first [] w p ps e = cc
stripe_addresses-first (s ∷ ss) w p ps e =
    let (phys, first, e') =
      >>=-eq-ok (ok_or (checked_add s.offset w) physical_overflow)
        (λ phys. stripe_addresses ss w >>= λ rest. ok (phys ∷ rest)) e in
    let (rest, _, e'') = >>=-eq-ok (stripe_addresses ss w) (λ rest. ok (phys ∷ rest)) e' in
    let same : phys ≡ p = cc in (s, refl, first ∙ ap ok same)

-- When `map_all_stripes` answers, its first address is the one that `map` gives.
pub map_all_stripes-map :
    (m : ChunkMap) (a p : ℕ) (ps : List ℕ)
    → map_all_stripes m a ≡ ok (p ∷ ps)
    → (left : ℕ) × (map m a ≡ ok (p, left))
unfolding map_all_stripes map
map_all_stripes-map m a p ps e =
    let ((c, w), located, e') =
      >>=-eq-ok (locate m.chunks a) (λ at. stripe_addresses at.0.stripes at.1) e in
    let (s, stripe, sum) = stripe_addresses-first c.stripes w p ps e' in
    (sub64 c.length w, rw (located, stripe, sum))

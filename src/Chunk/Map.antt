-- ===== src/Chunk/Map.antt =====
-- core/src/fs/btrfs/chunk.rs: the chunk map, sorted by logical address.
pub mod Extent
pub mod Lookup
pub mod Stripes
use luks_android.Prelude.{ℕ, zero, suc, ◌+◌, ◌-◌, Bool, true, false, Option, none, some}
use luks_android.Prelude.{List, [], ◌∷◌, ◌++◌, get_elem?, length, ltb, leb, ◌==◌, not, ◌||◌}
use luks_android.Prelude.{if◌then◌else◌, insert_at, splice_one}
use luks_android.Prelude.Words.{checked_add, sub64}
use luks_android.Prelude.Search.{Search, found, missing, next_index}
use luks_android.Error.{
  LuksError, Result, ok, err, corrupt_fs, unsupported_fs_feature, ◌>>=◌, ok_or,
}
use luks_android.Chunk.{Stripe, Chunk}

pub record ChunkMap : Type 0 where
  pub chunks : List Chunk

-- `binary_search_by_key(&logical, |c| c.logical)` on a vector that is sorted by the key: the index
-- of the element with that key, or the index at which it would stand.
unfoldable pub search : List Chunk → ℕ → Search
search [] logical = missing 0
search (c ∷ cs) logical =
    let rest = search cs logical in
    if c.logical == logical
    then found 0
    else if ltb c.logical logical
    then next_index rest
    else missing 0

-- A chunk with the same address is replaced.
unfoldable pub insert : ChunkMap → Chunk → ChunkMap
insert map chunk = record {
  chunks = elim (search map.chunks chunk.logical) [
    | found i ↦ splice_one map.chunks i (suc i) chunk
    | missing i ↦ insert_at map.chunks i chunk
  ];
}

abbrev pub below_first : LuksError
below_first = corrupt_fs "btrfs logical address below the first chunk"

abbrev pub unmapped_gap : LuksError
unmapped_gap = corrupt_fs "btrfs logical address falls in an unmapped gap"

abbrev pub physical_overflow : LuksError
physical_overflow = corrupt_fs "btrfs physical address overflows"

-- `&self.chunks[i]`; the index is always in bounds.
abbrev pub chunk_at : List Chunk → ℕ → Result Chunk
chunk_at cs i = ok_or (get_elem? cs i) below_first

abbrev pub chunk_for : List Chunk → Search → Result Chunk
chunk_for cs (found i) = chunk_at cs i
chunk_for cs (missing zero) = err below_first
chunk_for cs (missing (suc i)) = chunk_at cs i

-- The chunk, and how far into it the address lies: the common first half of `map` and
-- `map_all_stripes`.
unfoldable pub locate : List Chunk → ℕ → Result (Chunk × ℕ)
locate cs logical = chunk_for cs (search cs logical) >>= λ chunk.
    let within = sub64 logical chunk.logical in
    if leb chunk.length within then err unmapped_gap else ok (chunk, within)

-- `&chunk.stripes[0]`; a parsed chunk has a stripe.
abbrev pub first_stripe : Chunk → Result Stripe
first_stripe c = ok_or (get_elem? c.stripes 0) physical_overflow

-- The physical address, and how many bytes of the chunk are left from there.
unfoldable pub map : ChunkMap → ℕ → Result (ℕ × ℕ)
map m logical = locate m.chunks logical >>= λ at.
    (first_stripe at.0 >>= λ stripe.
    (ok_or (checked_add stripe.offset at.1) physical_overflow >>= λ physical.
    ok (physical, sub64 at.0.length at.1)))

unfoldable pub stripe_addresses : List Stripe → ℕ → Result (List ℕ)
stripe_addresses [] within = ok []
stripe_addresses (s ∷ ss) within = ok_or (checked_add s.offset within) physical_overflow >>= λ phys.
    (stripe_addresses ss within >>= λ rest. ok (phys ∷ rest))

unfoldable pub map_all_stripes : ChunkMap → ℕ → Result (List ℕ)
map_all_stripes m logical = locate m.chunks logical >>= λ at. stripe_addresses at.0.stripes at.1

abbrev pub any_other_device : List Stripe → ℕ → Bool
any_other_device [] devid = false
any_other_device (s ∷ ss) devid = not (s.devid == devid) || any_other_device ss devid

unfoldable pub check_devices : List Chunk → ℕ → Result (Unit {0})
check_devices [] devid = ok tt
check_devices (c ∷ cs) devid =
    let rest = check_devices cs devid in
    if any_other_device c.stripes devid
    then err (unsupported_fs_feature "btrfs chunk refers to a device that is not this one")
    else rest

unfoldable pub check_single_device : ChunkMap → ℕ → Result (Unit {0})
check_single_device m devid = check_devices m.chunks devid

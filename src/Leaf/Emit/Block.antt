-- ===== src/Leaf/Emit/Block.antt =====
-- The whole block of a leaf: it passes the checks of the node parser, and gives the leaf back.
use luks_android.Prelude.{
  ℕ, ◌+◌, ◌*◌, ◌-◌, ◌^◌, ◌≤◌, ◌<◌, ◌≡◌, refl, ◌∙◌, ap, ap₂, sym, arith, ltb, Bool, true, false,
  List, [], ◌∷◌, ◌++◌, length, take, drop, All, length-append, ge→ltb, ◌==◌,
}
use luks_android.Prelude.Words.{IsU64}
use luks_android.Prelude.Bytes.{
  to_le, from_le, from_le-to_le, zeros, slice, u32le, u64le, byte, drop-append, take-append,
  same_bytes, length-zeros,
}
use luks_android.Error.{ok}
use luks_android.Tree.{Node, header_size, item_size, parse}
use luks_android.Leaf.{Leaf, CsumType, used_bytes}
use luks_android.Leaf.Emit.{descriptors, payloads, body, emit, from_node, items_from}
use luks_android.Leaf.Emit.RoundTrip.{
  IsItem, read_at, items_from-emit, length-descriptors, length-payloads,
}
use mathlib.Core.List.{append_assoc, append-nil}

-- The fields of a leaf fit their widths, and the leaf fits a block of `size` bytes.
pub record IsBlock (leaf : Leaf) (size : ℕ) : Type 0 where
  pub bytenr : IsU64 leaf.bytenr
  pub generation : IsU64 leaf.generation
  pub owner : IsU64 leaf.owner
  pub flags : IsU64 leaf.flags
  pub metadata_uuid : length leaf.metadata_uuid ≡ 16
  pub chunk_tree_uuid : length leaf.chunk_tree_uuid ≡ 16
  pub items : All IsItem leaf.items
  pub fits : used_bytes leaf.items ≤ size
  pub small : size < 2 ^ 32

same_bytes_self : (b : List ℕ) → same_bytes b b ≡ true
same_bytes_self [] = refl
same_bytes_self (x ∷ b) = ground (arith, same_bytes_self b)

eq_self : (n : ℕ) → (n == n) ≡ true
eq_self n = ground arith

-- A field of `k` bytes that stands `n` bytes behind `pre`.
field :
    (raw pre xs : List ℕ) (at n k : ℕ)
    → raw ≡ pre ++ xs
    → length pre + n ≡ at
    → slice raw at k ≡ slice xs n k
field raw pre xs at n k e l = ap₂ (λ r m. slice r m k) e (sym l) ∙ read_at pre xs n k

take_front : (xs post : List ℕ) (n : ℕ) → length xs ≡ n → take n (xs ++ post) ≡ xs
take_front xs post n e = ap (λ m. take m (xs ++ post)) (sym e) ∙ take-append xs post

module _ (leaf : Leaf) (size : ℕ) (v : IsBlock leaf size) (csum : List ℕ)
    (digest : length csum ≡ 32) where
  -- What stands behind the header, behind the chunk tree's uuid, and behind that of the file system.
  rest : List ℕ
  rest =
      descriptors (size - header_size) leaf.items
      ++ (zeros (size - used_bytes leaf.items) ++ payloads leaf.items)

  from_80 : List ℕ
  from_80 =
      to_le 8 leaf.generation ++ (to_le 8 leaf.owner ++ (to_le 4 (length leaf.items) ++ (0 ∷ rest)))

  from_48 : List ℕ
  from_48 = to_le 8 leaf.bytenr ++ (to_le 8 leaf.flags ++ (leaf.chunk_tree_uuid ++ from_80))

  block : List ℕ
  block = csum ++ body leaf size

  body-parts : body leaf size ≡ leaf.metadata_uuid ++ from_48
  unfolding body from_48 from_80 rest
  body-parts = simp append_assoc

  up_to_48 : List ℕ
  up_to_48 = csum ++ leaf.metadata_uuid

  up_to_80 : List ℕ
  up_to_80 = up_to_48 ++ (to_le 8 leaf.bytenr ++ (to_le 8 leaf.flags ++ leaf.chunk_tree_uuid))

  block-48 : block ≡ up_to_48 ++ from_48
  unfolding block up_to_48
  block-48 = ap (λ b. csum ++ b) body-parts ∙ simp append_assoc

  block-80 : block ≡ up_to_80 ++ from_80
  unfolding up_to_80 from_48
  block-80 = block-48 ∙ simp append_assoc

  length-up_to_48 : length up_to_48 ≡ 48
  unfolding up_to_48
  length-up_to_48 = omega (arith, length-append csum leaf.metadata_uuid, v.metadata_uuid)

  length-up_to_80 : length up_to_80 ≡ 80
  unfolding up_to_80
  length-up_to_80 = omega (
    arith,
    length-append up_to_48 (to_le 8 leaf.bytenr ++ (to_le 8 leaf.flags ++ leaf.chunk_tree_uuid)),
    length-up_to_48,
    v.chunk_tree_uuid,
  )

  length-block : length block ≡ size
  unfolding from_80 rest
  length-block = omega (
    arith,
    ap length block-80,
    length-append up_to_80 from_80,
    length-up_to_80,
    length-append (descriptors (size - header_size) leaf.items)
        (zeros (size - used_bytes leaf.items) ++ payloads leaf.items),
    length-append (zeros (size - used_bytes leaf.items)) (payloads leaf.items),
    length-zeros (size - used_bytes leaf.items),
    length-descriptors (size - header_size) leaf.items,
    length-payloads leaf.items,
    v.fits,
  )

  few_items : length leaf.items < 2 ^ 32
  few_items = omega (arith, v.fits, v.small)

  uuid-block : slice block 32 16 ≡ leaf.metadata_uuid
  unfolding block
  uuid-block =
      field (csum ++ body leaf size) csum (body leaf size) 32 0 16 refl (omega arith)
      ∙ (ap (λ b. take 16 b) body-parts ∙ take_front leaf.metadata_uuid from_48 16 v.metadata_uuid)

  bytenr-block : u64le block 48 ≡ leaf.bytenr
  unfolding from_48
  bytenr-block =
      ap from_le (field block up_to_48 from_48 48 0 8 block-48 (omega (arith, length-up_to_48)))
      ∙ from_le-to_le 8 leaf.bytenr v.bytenr

  flags-block : u64le block 56 ≡ leaf.flags
  unfolding from_48
  flags-block =
      ap from_le (field block up_to_48 from_48 56 8 8 block-48 (omega (arith, length-up_to_48)))
      ∙ from_le-to_le 8 leaf.flags v.flags

  chunk_uuid-block : slice block 64 16 ≡ leaf.chunk_tree_uuid
  unfolding from_48
  chunk_uuid-block =
      field block up_to_48 from_48 64 16 16 block-48 (omega (arith, length-up_to_48))
      ∙ take_front leaf.chunk_tree_uuid from_80 16 v.chunk_tree_uuid

  generation-block : u64le block 80 ≡ leaf.generation
  unfolding from_80
  generation-block =
      ap from_le (field block up_to_80 from_80 80 0 8 block-80 (omega (arith, length-up_to_80)))
      ∙ from_le-to_le 8 leaf.generation v.generation

  owner-block : u64le block 88 ≡ leaf.owner
  unfolding from_80
  owner-block =
      ap from_le (field block up_to_80 from_80 88 8 8 block-80 (omega (arith, length-up_to_80)))
      ∙ from_le-to_le 8 leaf.owner v.owner

  count-block : u32le block 96 ≡ length leaf.items
  unfolding from_80
  count-block =
      ap from_le (field block up_to_80 from_80 96 16 4 block-80 (omega (arith, length-up_to_80)))
      ∙ from_le-to_le 4 (length leaf.items) few_items

  level-block : byte block 100 ≡ 0
  unfolding from_80
  level-block =
      ap from_le (field block up_to_80 from_80 100 20 1 block-80 (omega (arith, length-up_to_80)))

  node : Node
  node = record {
    raw = block;
    level = 0;
    nr_items = length leaf.items;
    owner = leaf.owner;
    generation = leaf.generation;
  }

  csum-block : slice block 0 32 ≡ csum
  unfolding block
  csum-block = take_front csum (body leaf size) 32 digest

  body-block : drop 32 block ≡ body leaf size
  unfolding block
  body-block =
      ap (λ n. drop n (csum ++ body leaf size)) (sym digest) ∙ drop-append csum (body leaf size)

  room-block : ltb (length block) (header_size + length leaf.items * item_size) ≡ false
  room-block =
      ge→ltb (length block) (header_size + length leaf.items * item_size)
        (omega (arith, length-block, v.fits))

  parse-block :
      (verify : List ℕ → List ℕ → Bool)
      → verify csum (body leaf size) ≡ true
      → parse verify block leaf.bytenr leaf.metadata_uuid ≡ ok node
  unfolding parse node
  parse-block verify checks = rw (
    uuid-block,
    bytenr-block,
    level-block,
    count-block,
    generation-block,
    owner-block,
    csum-block,
    body-block,
    checks,
    room-block,
    same_bytes_self leaf.metadata_uuid,
    eq_self leaf.bytenr,
    ge→ltb (length block) header_size (omega (arith, length-block, v.fits)),
  )

  up_to_101 : List ℕ
  up_to_101 =
      up_to_80
      ++ (to_le 8 leaf.generation
          ++ (to_le 8 leaf.owner ++ (to_le 4 (length leaf.items) ++ (0 ∷ []))))

  length-up_to_101 : length up_to_101 ≡ header_size + 0 * item_size
  unfolding up_to_101
  length-up_to_101 = omega (
    arith,
    length-up_to_80,
    length-append up_to_80 (
        to_le 8 leaf.generation
        ++ (to_le 8 leaf.owner ++ (to_le 4 (length leaf.items) ++ (0 ∷ [])))),
  )

  behind :
      up_to_80 ++ from_80
      ≡ up_to_101
        ++ (descriptors (size - header_size) leaf.items
            ++ (zeros (size - used_bytes leaf.items) ++ (payloads leaf.items ++ [])))
  unfolding up_to_101 from_80 rest
  behind = simp (append_assoc, append-nil)

  items-block : items_from node 0 (length leaf.items) ≡ ok leaf.items
  unfolding node
  items-block =
      items_from-emit node leaf.items 0 (size - header_size) up_to_101
        (zeros (size - used_bytes leaf.items)) [] refl (omega arith) length-up_to_101
        (block-80 ∙ behind)
        (omega (arith, length-up_to_101, length-zeros (size - used_bytes leaf.items), v.fits))
        (omega (arith, v.small)) v.items

  from_node-block : from_node node leaf.csum_type ≡ ok leaf
  unfolding from_node node
  from_node-block = rw (items-block) (λ i. ok (record leaf {
    bytenr = bytenr-block i;
    flags = flags-block i;
    metadata_uuid = uuid-block i;
    chunk_tree_uuid = chunk_uuid-block i;
  }))

module _ (calculate : CsumType → List ℕ → List ℕ) (verify : CsumType → List ℕ → List ℕ → Bool)
    (digest_size : (t : CsumType) (b : List ℕ) → length (calculate t b) ≡ 32)
    (verifies : (t : CsumType) (b : List ℕ) → verify t (calculate t b) b ≡ true) where
  -- With a checksum of 32 bytes that verifies what it was calculated of: a leaf whose fields fit
  -- their widths and which fits its node is emitted as a block of the node's size, the node parser
  -- accepts the block at the leaf's address, and the node gives back the leaf, every item included.
  pub emit_lem :
      (leaf : Leaf) (size : ℕ)
      → IsBlock leaf size
      → (b : List ℕ) × (n : Node) × (emit calculate leaf size ≡ ok b)
        × (length b ≡ size)
        × (parse (verify leaf.csum_type) b leaf.bytenr leaf.metadata_uuid ≡ ok n)
        × (from_node n leaf.csum_type ≡ ok leaf)
  unfolding emit block
  emit_lem leaf size v = (
    block leaf size v (calculate leaf.csum_type (body leaf size))
        (digest_size leaf.csum_type (body leaf size)),
    node leaf size v (calculate leaf.csum_type (body leaf size))
        (digest_size leaf.csum_type (body leaf size)),
    rw (ge→ltb size (used_bytes leaf.items) v.fits) refl,
    length-block leaf size v (calculate leaf.csum_type (body leaf size))
        (digest_size leaf.csum_type (body leaf size)),
    parse-block leaf size v (calculate leaf.csum_type (body leaf size))
        (digest_size leaf.csum_type (body leaf size)) (verify leaf.csum_type)
        (verifies leaf.csum_type (body leaf size)),
    from_node-block leaf size v (calculate leaf.csum_type (body leaf size))
        (digest_size leaf.csum_type (body leaf size)),
  )

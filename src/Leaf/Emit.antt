-- ===== src/Leaf/Emit.antt =====
-- core/src/fs/btrfs/write/node.rs: a leaf as a block of bytes, and a leaf read back from a node.
-- The checksum is a digest of another library, a parameter.
pub mod RoundTrip
pub mod Block
use luks_android.Prelude.{
  if◌then◌else◌, ℕ, zero, suc, ◌+◌, ◌*◌, ◌-◌, ltb, Bool, List, [], ◌∷◌, ◌++◌, length, drop, not,
}
use luks_android.Prelude.Bytes.{to_le, zeros, slice, u64le}
use luks_android.Error.{Result, ok, err, filesystem_full, corrupt_fs, ◌>>=◌, ◌>>◌, refuse_if}
use luks_android.Tree.{Key, Node, header_size, item_size, is_leaf, key, item_data}
use luks_android.Leaf.{LeafItem, Leaf, CsumType, sum_bytes, used_bytes}

abbrev pub key_bytes : Key → List ℕ
key_bytes k = to_le 8 k.objectid ++ (k.item_type ∷ to_le 8 k.offset)

-- The bytes 32 to 101 of the block.
abbrev pub leaf_header : Leaf → List ℕ
leaf_header leaf =
    leaf.metadata_uuid
    ++ (to_le 8 leaf.bytenr
        ++ (to_le 8 leaf.flags
            ++ (leaf.chunk_tree_uuid
                ++ (to_le 8 leaf.generation
                    ++ (to_le 8 leaf.owner ++ (to_le 4 (length leaf.items) ++ (0 ∷ [])))))))

abbrev pub descriptor : LeafItem → ℕ → List ℕ
descriptor x data_offset = key_bytes x.key ++ (to_le 4 data_offset ++ to_le 4 (length x.bytes))

-- The descriptors, one behind the other from the front. The payloads go from the end of the block
-- to the front, `data_offset` at the end of what is free.
pub descriptors : ℕ → List LeafItem → List ℕ
descriptors data_offset [] = []
descriptors data_offset (x ∷ xs) =
    let at = data_offset - length x.bytes in descriptor x at ++ descriptors at xs

pub payloads : List LeafItem → List ℕ
payloads [] = []
payloads (x ∷ xs) = payloads xs ++ x.bytes

-- The block behind its checksum: what is written to no byte stays zero.
unfoldable pub body : Leaf → ℕ → List ℕ
body leaf size =
    leaf_header leaf
    ++ (descriptors (size - header_size) leaf.items
        ++ (zeros (size - used_bytes leaf.items) ++ payloads leaf.items))

unfoldable pub emit : (CsumType → List ℕ → List ℕ) → Leaf → ℕ → Result (List ℕ)
emit calculate leaf size =
    if ltb size (used_bytes leaf.items)
    then err filesystem_full
    else ok (calculate leaf.csum_type (body leaf size) ++ body leaf size)

-- The loop of `from_node`, for the `n` items from number `i` on.
unfoldable pub items_from : Node → ℕ → ℕ → Result (List LeafItem)
items_from node i zero = ok []
items_from node i (suc n) = do
  k ← key node i
  b ← item_data node i
  rest ← items_from node (i + 1) n
  ok (record { key = k; bytes = b } ∷ rest)

unfoldable pub from_node : Node → CsumType → Result Leaf
from_node node csum_type = do
  refuse_if (not (is_leaf node)) (corrupt_fs "cannot convert interior node to leaf")
  items ← items_from node 0 node.nr_items
  ok (record {
    bytenr = u64le node.raw 48;
    generation = node.generation;
    owner = node.owner;
    flags = u64le node.raw 56;
    metadata_uuid = slice node.raw 32 16;
    chunk_tree_uuid = slice node.raw 64 16;
    csum_type = csum_type;
    items = items;
  })

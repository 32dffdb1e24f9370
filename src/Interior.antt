-- ===== src/Interior.antt =====
-- core/src/fs/btrfs/write/node.rs: surgery on the interior nodes of a tree, in memory.
pub mod Place
mod Runs
use luks_android.Prelude.{
  if◌then◌else◌, ℕ, zero, suc, ◌+◌, ◌*◌, ◌/◌, ltb, ◌==◌, not, Option, none, some, List, [], ◌∷◌,
  ◌++◌, length, take, drop, insert_at,
}
use luks_android.Prelude.Words.{saturating_sub}
use luks_android.Prelude.Bytes.{to_le, zeros, slice, u64le}
use luks_android.Prelude.Search.{Search, found, missing, search_by}
use luks_android.Error.{
  LuksError, Result, ok, err, corrupt_fs, not_found, filesystem_full, ◌>>=◌, ◌>>◌, refuse_if,
}
use luks_android.Tree.{Key, Node, cmp, is_lt, header_size, key_ptr_size, is_leaf, key_ptr}
use luks_android.Leaf.{CsumType}
use luks_android.Leaf.Emit.{key_bytes}

pub record InteriorEntry : Type 0 where
  pub key : Key
  pub blockptr : ℕ
  pub generation : ℕ

pub record InteriorNode : Type 0 where
  pub bytenr : ℕ
  pub generation : ℕ
  pub owner : ℕ
  pub level : ℕ
  pub flags : ℕ
  pub metadata_uuid : List ℕ
  pub chunk_tree_uuid : List ℕ
  pub csum_type : CsumType
  pub entries : List InteriorEntry

unfoldable pub new_interior : ℕ → ℕ → ℕ → ℕ → List ℕ → CsumType → Result InteriorNode
new_interior bytenr generation owner level metadata_uuid csum_type =
    if level == 0
    then err (corrupt_fs "interior node level must be greater than 0")
    else ok (record {
      bytenr = bytenr;
      generation = generation;
      owner = owner;
      level = level;
      flags = 1;
      metadata_uuid = metadata_uuid;
      chunk_tree_uuid = zeros 16;
      csum_type = csum_type;
      entries = [];
    })

-- The loop of `from_node`, for the `n` entries from number `i` on.
unfoldable pub entries_from : Node → ℕ → ℕ → Result (List InteriorEntry)
entries_from node i zero = ok []
entries_from node i (suc n) = do
  ptr ← key_ptr node i
  rest ← entries_from node (i + 1) n
  ok (record { key = ptr.key; blockptr = ptr.blockptr; generation = ptr.generation } ∷ rest)

unfoldable pub interior_from_node : Node → CsumType → Result InteriorNode
interior_from_node node csum_type = do
  refuse_if (is_leaf node) (corrupt_fs "cannot convert leaf to interior node")
  entries ← entries_from node 0 node.nr_items
  ok (record {
    bytenr = u64le node.raw 48;
    generation = node.generation;
    owner = node.owner;
    level = node.level;
    flags = u64le node.raw 56;
    metadata_uuid = slice node.raw 32 16;
    chunk_tree_uuid = slice node.raw 64 16;
    csum_type = csum_type;
    entries = entries;
  })

abbrev pub room_left : InteriorNode → ℕ → ℕ
room_left node node_size =
    saturating_sub node_size (header_size + length node.entries * key_ptr_size)

abbrev pub index_of : Search → ℕ
index_of (found i) = i
index_of (missing i) = i

abbrev pub search_entry : List InteriorEntry → Key → Search
search_entry entries k = search_by (λ e. cmp e.key k) entries

unfoldable pub insert_entry : InteriorNode → Key → ℕ → ℕ → ℕ → Result InteriorNode
insert_entry node k blockptr generation node_size =
    if ltb (room_left node node_size) key_ptr_size
    then err filesystem_full
    else ok (record node {
      entries =
          insert_at node.entries (index_of (search_entry node.entries k))
            (record { key = k; blockptr = blockptr; generation = generation });
    })

-- `sort_by_key(|e| e.key)`, a stable sort.
pub put_entry : InteriorEntry → List InteriorEntry → List InteriorEntry
put_entry e [] = e ∷ []
put_entry e (x ∷ xs) =
    let rest = put_entry e xs in if is_lt (cmp x.key e.key) then x ∷ rest else e ∷ x ∷ xs

pub sort_entries : List InteriorEntry → List InteriorEntry
sort_entries [] = []
sort_entries (e ∷ es) = put_entry e (sort_entries es)

abbrev pub new_key_or : Option Key → Key → Key
new_key_or none k = k
new_key_or (some new_key) k = new_key

-- The first entry that points to the old block, changed.
unfoldable pub redirect : List InteriorEntry → ℕ → Option Key → ℕ → ℕ → Result (List InteriorEntry)
redirect [] old new_key blockptr generation =
    err (not_found "interior node block pointer not found")
redirect (e ∷ es) old new_key blockptr generation =
    let rest = redirect es old new_key blockptr generation in
    if e.blockptr == old
    then ok (
        record { key = new_key_or new_key e.key; blockptr = blockptr; generation = generation }
        ∷ es)
    else (rest >>= λ changed. ok (e ∷ changed))

unfoldable pub update_entry_by_blockptr :
    InteriorNode → ℕ → Option Key → ℕ → ℕ → Result InteriorNode
update_entry_by_blockptr node old new_key blockptr generation =
    redirect node.entries old new_key blockptr generation >>= λ changed.
    ok (record node { entries = sort_entries changed })

-- The two halves around an entry, or the error if the right one is empty.
abbrev pub interior_halves :
    InteriorNode
    → ℕ
    → List InteriorEntry
    → List InteriorEntry
    → Result (InteriorNode × InteriorNode × Key)
interior_halves node right_bytenr left [] =
    err (corrupt_fs "cannot split interior node with fewer than 2 entries")
interior_halves node right_bytenr left (e ∷ right) = ok (
  record node { entries = left },
  record node { bytenr = right_bytenr; entries = e ∷ right },
  e.key,
)

unfoldable pub split_interior : InteriorNode → ℕ → Result (InteriorNode × InteriorNode × Key)
split_interior node right_bytenr =
    let mid = length node.entries / 2 in
    if ltb (length node.entries) 2
    then err (corrupt_fs "cannot split interior node with fewer than 2 entries")
    else interior_halves node right_bytenr (take mid node.entries) (drop mid node.entries)

abbrev pub entry_bytes : InteriorEntry → List ℕ
entry_bytes e = key_bytes e.key ++ (to_le 8 e.blockptr ++ to_le 8 e.generation)

abbrev pub entries_bytes : List InteriorEntry → List ℕ
entries_bytes [] = []
entries_bytes (e ∷ es) = entry_bytes e ++ entries_bytes es

abbrev pub interior_header : InteriorNode → List ℕ
interior_header node =
    node.metadata_uuid
    ++ (to_le 8 node.bytenr
        ++ (to_le 8 node.flags
            ++ (node.chunk_tree_uuid
                ++ (to_le 8 node.generation
                    ++ (to_le 8 node.owner
                        ++ (to_le 4 (length node.entries) ++ (node.level ∷ [])))))))

-- The block behind its checksum: what is written to no byte stays zero.
unfoldable pub interior_body : InteriorNode → ℕ → List ℕ
interior_body node size =
    interior_header node
    ++ (entries_bytes node.entries
        ++ zeros (saturating_sub size (header_size + length node.entries * key_ptr_size)))

-- The checksum is a digest of another library, a parameter.
unfoldable pub emit_interior : (CsumType → List ℕ → List ℕ) → InteriorNode → ℕ → Result (List ℕ)
emit_interior calculate node size =
    if ltb size (header_size + length node.entries * key_ptr_size)
    then err filesystem_full
    else ok (calculate node.csum_type (interior_body node size) ++ interior_body node size)

-- ===== src/Tree.antt =====
-- core/src/fs/btrfs/tree.rs: keys with their order, and verified tree nodes as read from the device.
pub mod Order
pub mod Bound
mod Runs
use Prim.Native.Nat.{Ordering, compare}
use Prim.Native.String.{String}
use luks_android.Prelude.{
  ℕ, zero, suc, ◌+◌, ◌*◌, ◌-◌, ◌/◌, ◌==◌, ◌&&◌, not, ltb, leb, Bool, true, false, List, [], ◌∷◌,
  length, take, drop,
}
use luks_android.Prelude.{if◌then◌else◌}
use luks_android.Prelude.Words.{saturating_sub}
use luks_android.Prelude.Bytes.{slice, from_le, u32le, u64le, same_bytes, byte}
use luks_android.Error.{
  Result, ok, err, corrupt_fs, truncated, fs_checksum_mismatch, ◌>>=◌, ◌>>◌, refuse_if,
}

pub record Key : Type 0 where
  pub objectid : ℕ
  pub item_type : ℕ
  pub offset : ℕ

abbrev pub header_size : ℕ
header_size = 101

abbrev pub key_size : ℕ
key_size = 17

abbrev pub item_size : ℕ
item_size = 25

abbrev pub key_ptr_size : ℕ
key_ptr_size = 33

abbrev pub then_by : Ordering → Ordering → Ordering
then_by Ordering.lt next = Ordering.lt
then_by Ordering.eq next = next
then_by Ordering.gt next = Ordering.gt

-- The derived order: by object, then by type, then by offset.
unfoldable pub cmp : Key → Key → Ordering
cmp a b =
    then_by (compare a.objectid b.objectid)
      (then_by (compare a.item_type b.item_type) (compare a.offset b.offset))

abbrev pub is_lt : Ordering → Bool
is_lt Ordering.lt = true
is_lt Ordering.eq = false
is_lt Ordering.gt = false

abbrev pub is_eq : Ordering → Bool
is_eq Ordering.lt = false
is_eq Ordering.eq = true
is_eq Ordering.gt = false

-- The names of item types, for errors.
abbrev pub type_names : List (ℕ × String)
type_names =
    (1, "inode item")
    ∷ (12, "inode ref")
    ∷ (24, "xattr item")
    ∷ (84, "directory item")
    ∷ (96, "directory index")
    ∷ (108, "file extent item")
    ∷ (128, "checksum item")
    ∷ (132, "root item")
    ∷ (144, "root backref")
    ∷ (156, "root ref")
    ∷ (168, "extent item")
    ∷ (169, "metadata item")
    ∷ (176, "tree block ref")
    ∷ (178, "extent data ref")
    ∷ (182, "shared block ref")
    ∷ (184, "shared data ref")
    ∷ (192, "block group item")
    ∷ (198, "free space info")
    ∷ (199, "free space extent")
    ∷ (200, "free space bitmap")
    ∷ (204, "device extent")
    ∷ (216, "device item")
    ∷ (228, "chunk item")
    ∷ []

abbrev pub name_in : List (ℕ × String) → ℕ → String
name_in [] item_type = "tree item"
name_in ((t, name) ∷ rest) item_type = if t == item_type then name else name_in rest item_type

pub item_type_name : ℕ → String
item_type_name item_type = name_in type_names item_type

abbrev pub parse_key : List ℕ → ℕ → Key
parse_key b at = record {
  objectid = u64le b at;
  item_type = byte b (at + 8);
  offset = u64le b (at + 9);
}

pub record KeyPtr : Type 0 where
  pub key : Key
  pub blockptr : ℕ
  pub generation : ℕ

pub record Node : Type 0 where
  pub raw : List ℕ
  pub level : ℕ
  pub nr_items : ℕ
  pub owner : ℕ
  pub generation : ℕ

-- The checksum of the file system, a digest of another library: `csum_type.verify`.
unfoldable pub parse : (List ℕ → List ℕ → Bool) → List ℕ → ℕ → List ℕ → Result Node
parse verify raw bytenr metadata_uuid = do
  refuse_if (ltb (length raw) header_size) (truncated header_size (length raw))
  refuse_if (not (verify (slice raw 0 32) (drop 32 raw))) (fs_checksum_mismatch "btrfs tree node")
  refuse_if (not (u64le raw 48 == bytenr))
      (corrupt_fs "btrfs tree node is not at the address that pointed to it")
  refuse_if (not (same_bytes (slice raw 32 16) metadata_uuid))
      (corrupt_fs "btrfs tree node belongs to a different filesystem")
  refuse_if
      (ltb (length raw)
        (header_size + u32le raw 96 * (if byte raw 100 == 0 then item_size else key_ptr_size)))
      (corrupt_fs "btrfs node item count overruns")
  ok (record {
    raw = raw;
    level = byte raw 100;
    nr_items = u32le raw 96;
    owner = u64le raw 88;
    generation = u64le raw 80;
  })

abbrev pub is_leaf : Node → Bool
is_leaf n = n.level == 0

unfoldable pub key : Node → ℕ → Result Key
key n i =
    if leb n.nr_items i
    then err (corrupt_fs "btrfs node index out of range")
    else ok (parse_key n.raw (header_size + i * (if is_leaf n then item_size else key_ptr_size)))

unfoldable pub key_ptr : Node → ℕ → Result KeyPtr
key_ptr n i =
    let at = header_size + i * key_ptr_size in
    if is_leaf n
    then err (corrupt_fs "btrfs leaf has no child pointers")
    else (key n i >>= λ k. ok (record {
      key = k;
      blockptr = u64le n.raw (at + key_size);
      generation = u64le n.raw (at + key_size + 8);
    }))

-- The sums of two 32-bit numbers do not overflow an address of 64 bits.
unfoldable pub item_data : Node → ℕ → Result (List ℕ)
item_data n i =
    let at = header_size + i * item_size in
    let start = header_size + u32le n.raw (at + key_size) in
    let size = u32le n.raw (at + key_size + 4) in
    if not (is_leaf n)
    then err (corrupt_fs "btrfs interior node has no item data")
    else if leb n.nr_items i
    then err (corrupt_fs "btrfs node index out of range")
    else if ltb (length n.raw) (start + size)
    then err (corrupt_fs "btrfs item data past end of node")
    else ok (slice n.raw start size)

-- The loop of `lower_bound`, on fuel.
unfoldable pub bound_from : ℕ → Node → Key → ℕ → ℕ → Result ℕ
bound_from zero n k lo hi = err (corrupt_fs "out of fuel")
bound_from (suc fuel) n k lo hi =
    let mid = lo + (hi - lo) / 2 in
    let right = bound_from fuel n k (mid + 1) hi in
    let left = bound_from fuel n k lo mid in
    if ltb lo hi
    then (key n mid >>= λ found. if is_lt (cmp found k) then right else left)
    else ok lo

-- The interval of indices loses one at least in each round.
unfoldable pub lower_bound : Node → Key → Result ℕ
lower_bound n k = bound_from (n.nr_items + 1) n k 0 n.nr_items

-- The entry at the bound if it has the key itself, else the one before it.
abbrev pub at_or_before : Node → Key → ℕ → Result ℕ
at_or_before n k bound =
    if ltb bound n.nr_items
    then (key n bound >>= λ found.
        if is_eq (cmp found k) then ok bound else ok (saturating_sub bound 1))
    else ok (saturating_sub bound 1)

unfoldable pub child_for : Node → Key → Result ℕ
child_for n k = do
  refuse_if (n.nr_items == 0) (corrupt_fs "btrfs interior node has no child pointers")
  bound ← lower_bound n k
  at_or_before n k bound

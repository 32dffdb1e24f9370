-- ===== src/Leaf/Emit/RoundTrip.antt =====
-- A leaf that was emitted is read back as it was.
use luks_android.Prelude.{
  ℕ, ◌+◌, ◌*◌, ◌-◌, ◌^◌, ◌≤◌, ◌<◌, ◌≡◌, refl, ◌∙◌, ap, ap₂, sym, arith, ltb, leb, true, false, List,
  [], ◌∷◌, ◌++◌, length, take, All, length-append, ge→ltb, ◌==◌,
}
use mathlib.Core.List.{append_assoc}
use luks_android.Prelude.Words.{IsU64}
use luks_android.Prelude.Bytes.{
  to_le, from_le, from_le-to_le, slice, u32le, u64le, byte, drop-append, take-append, drop-plus,
}
use luks_android.Error.{ok}
use luks_android.Tree.{Key, Node, header_size, item_size, parse_key, key, item_data}
use luks_android.Leaf.{LeafItem, sum_bytes}
use luks_android.Leaf.Emit.{key_bytes, descriptor, descriptors, payloads, items_from}

-- The fields of a key fit their widths.
pub record IsKey (k : Key) : Type 0 where
  pub objectid : IsU64 k.objectid
  pub item_type : k.item_type < 256
  pub offset : IsU64 k.offset

pub read_at :
    (pre xs : List ℕ) (n : ℕ) (k : ℕ) → slice (pre ++ xs) (length pre + n) k ≡ slice xs n k
read_at pre xs n k = ap (λ d. take k d) (drop-plus pre xs n)

-- A key that stands behind `pre`.
parse_key-bytes :
    (pre post : List ℕ) (k : Key)
    → IsKey k
    → parse_key (pre ++ (key_bytes k ++ post)) (length pre) ≡ k
parse_key-bytes pre post k v =
    λ i. record { objectid = objectid i; item_type = item_type i; offset = offset i }
  where
    all : List ℕ
    all = pre ++ (key_bytes k ++ post)

    objectid : u64le (pre ++ (key_bytes k ++ post)) (length pre) ≡ k.objectid
    objectid =
        ap (λ d. from_le (take 8 d)) (drop-append pre (key_bytes k ++ post))
        ∙ from_le-to_le 8 k.objectid v.objectid

    item_type : byte (pre ++ (key_bytes k ++ post)) (length pre + 8) ≡ k.item_type
    item_type = ap from_le (read_at pre (key_bytes k ++ post) 8 1) ∙ omega arith

    offset : u64le (pre ++ (key_bytes k ++ post)) (length pre + 9) ≡ k.offset
    offset = ap from_le (read_at pre (key_bytes k ++ post) 9 8) ∙ from_le-to_le 8 k.offset v.offset

pub length-descriptors :
    (off : ℕ) (xs : List LeafItem) → length (descriptors off xs) ≡ length xs * item_size
unfolding descriptors
length-descriptors off [] = refl
length-descriptors off (x ∷ xs) = omega (arith, length-descriptors (off - length x.bytes) xs)

pub length-payloads : (xs : List LeafItem) → length (payloads xs) ≡ sum_bytes xs
unfolding payloads
length-payloads [] = refl
length-payloads (x ∷ xs) = omega (arith, length-append (payloads xs) x.bytes, length-payloads xs)

-- An item whose descriptor stands behind `pre`.
item_at :
    (node : Node) (i : ℕ) (x : LeafItem) (off : ℕ) (pre post : List ℕ)
    → node.level ≡ 0
    → i < node.nr_items
    → length pre ≡ header_size + i * item_size
    → node.raw ≡ pre ++ (descriptor x off ++ post)
    → IsKey x.key
    → off < 2 ^ 32
    → length x.bytes < 2 ^ 32
    → header_size + off + length x.bytes ≤ length node.raw
    → slice node.raw (header_size + off) (length x.bytes) ≡ x.bytes
    → (key node i ≡ ok x.key) × (item_data node i ≡ ok x.bytes)
unfolding key item_data
item_at node i x off pre post leaf inside at raw v o l fits payload = (
  rw (ge_leb, level) (ap ok key_read),
  rw (level, ge_leb, off_read, len_read, room) (ap ok payload),
)
  where
    level : (node.level == 0) ≡ true
    level = rw leaf

    ge_leb : leb node.nr_items i ≡ false
    ge_leb = ground arith

    rest : List ℕ
    rest = to_le 4 off ++ (to_le 4 (length x.bytes) ++ post)

    key_read : parse_key node.raw (header_size + i * item_size) ≡ x.key
    key_read =
        ap₂ parse_key raw (sym at)
        ∙ parse_key-bytes pre (to_le 4 off ++ (to_le 4 (length x.bytes) ++ post)) x.key v

    off_read : u32le node.raw (header_size + i * item_size + 17) ≡ off
    off_read =
        ap₂ (λ b n. u32le b (n + 17)) raw (sym at)
        ∙ (ap from_le (read_at pre (descriptor x off ++ post) 17 4) ∙ from_le-to_le 4 off o)

    len_read : u32le node.raw (header_size + i * item_size + 17 + 4) ≡ length x.bytes
    len_read =
        ap (λ n. u32le node.raw n) twenty_one
        ∙ (ap₂ (λ b n. u32le b (n + 21)) raw (sym at)
            ∙ (ap from_le (read_at pre (descriptor x off ++ post) 21 4)
                ∙ from_le-to_le 4 (length x.bytes) l))
      where
        twenty_one : header_size + i * item_size + 17 + 4 ≡ header_size + i * item_size + 21
        twenty_one = omega arith

    room : ltb (length node.raw) (header_size + off + length x.bytes) ≡ false
    room = ge→ltb (length node.raw) (header_size + off + length x.bytes) fits

-- The items' fields fit their widths.
pub record IsItem (x : LeafItem) : Type 0 where
  pub key : IsKey x.key
  pub size : length x.bytes < 2 ^ 32

-- The block around the payload `b` of the first item, and around the next item's descriptor.
to_payload :
    (pre d ds gap ps b tail : List ℕ)
    → pre ++ (d ++ (ds ++ (gap ++ ((ps ++ b) ++ tail))))
      ≡ (pre ++ (d ++ (ds ++ (gap ++ ps)))) ++ (b ++ tail)
to_payload pre d ds gap ps b tail = simp append_assoc

to_next :
    (pre d ds gap ps b tail : List ℕ)
    → pre ++ (d ++ (ds ++ (gap ++ ((ps ++ b) ++ tail))))
      ≡ (pre ++ d) ++ (ds ++ (gap ++ (ps ++ (b ++ tail))))
to_next pre d ds gap ps b tail = simp append_assoc

length-front :
    (pre d ds gap ps : List ℕ)
    → length (pre ++ (d ++ (ds ++ (gap ++ ps))))
      ≡ length pre + length d + length ds + length gap + length ps
length-front pre d ds gap ps = omega (
  arith,
  length-append pre (d ++ (ds ++ (gap ++ ps))),
  length-append d (ds ++ (gap ++ ps)),
  length-append ds (gap ++ ps),
  length-append gap ps,
)

slice_at :
    (raw front b tail : List ℕ) (n : ℕ)
    → raw ≡ front ++ (b ++ tail)
    → length front ≡ n
    → slice raw n (length b) ≡ b
slice_at raw front b tail n e l =
    ap₂ (λ r m. slice r m (length b)) e (sym l)
    ∙ (ap (λ d. take (length b) d) (drop-append front (b ++ tail)) ∙ take-append b tail)

-- The first of the items whose descriptors stand behind `pre` and whose payloads stand in front of
-- `tail`.
first_item :
    (node : Node) (i : ℕ) (x : LeafItem) (off : ℕ) (pre ds gap ps tail : List ℕ)
    → node.level ≡ 0
    → i < node.nr_items
    → length pre ≡ header_size + i * item_size
    → node.raw ≡ pre ++ (descriptor x off ++ (ds ++ (gap ++ ((ps ++ x.bytes) ++ tail))))
    → header_size + off ≡ length pre + item_size + length ds + length gap + length ps
    → off < 2 ^ 32
    → IsItem x
    → (key node i ≡ ok x.key) × (item_data node i ≡ ok x.bytes)
first_item node i x off pre ds gap ps tail leaf inside at raw sum o v =
    item_at node i x off pre (ds ++ (gap ++ ((ps ++ x.bytes) ++ tail))) leaf inside at raw v.key o
      v.size (omega (arith, whole, place))
      (slice_at node.raw front x.bytes tail (header_size + off) payload place)
  where
    front : List ℕ
    front = pre ++ (descriptor x off ++ (ds ++ (gap ++ ps)))

    payload : node.raw ≡ (pre ++ (descriptor x off ++ (ds ++ (gap ++ ps)))) ++ (x.bytes ++ tail)
    payload = raw ∙ to_payload pre (descriptor x off) ds gap ps x.bytes tail

    place : length (pre ++ (descriptor x off ++ (ds ++ (gap ++ ps)))) ≡ header_size + off
    place = omega (arith, length-front pre (descriptor x off) ds gap ps)

    whole :
        length node.raw
        ≡ length (pre ++ (descriptor x off ++ (ds ++ (gap ++ ps)))) + (length x.bytes + length tail)
    whole =
        ap length payload
        ∙ (length-append (pre ++ (descriptor x off ++ (ds ++ (gap ++ ps)))) (x.bytes ++ tail)
            ∙ ap (λ n. length (pre ++ (descriptor x off ++ (ds ++ (gap ++ ps)))) + n)
                (length-append x.bytes tail))

pub items_from-emit :
    (node : Node) (items : List LeafItem) (i off : ℕ) (pre gap tail : List ℕ)
    → node.level ≡ 0
    → node.nr_items ≡ i + length items
    → length pre ≡ header_size + i * item_size
    → node.raw ≡ pre ++ (descriptors off items ++ (gap ++ (payloads items ++ tail)))
    → header_size + off ≡ length pre + length items * item_size + length gap + sum_bytes items
    → off < 2 ^ 32
    → All IsItem items
    → items_from node i (length items) ≡ ok items
unfolding items_from descriptors payloads
items_from-emit node [] i off pre gap tail leaf n at raw sum o v = refl
items_from-emit node (x ∷ xs) i off pre gap tail leaf n at raw sum o v =
    let off' : ℕ = off - length x.bytes in
    let d = descriptor x off' in
    let ds = descriptors off' xs in
    let first =
      first_item node i x off' pre ds gap (payloads xs) tail leaf (omega arith) at raw
        (omega (arith, length-descriptors off' xs, length-payloads xs)) (omega arith) v.0 in
    let longer = length-append pre d in
    let others : items_from node (i + 1) (length xs) ≡ ok xs =
      items_from-emit node xs (i + 1) off' (pre ++ d) gap (x.bytes ++ tail) leaf (omega arith)
        (omega arith) (raw ∙ to_next pre d ds gap (payloads xs) x.bytes tail) (omega arith)
        (omega arith) v.1 in
    rw (first.0, first.1, others) refl

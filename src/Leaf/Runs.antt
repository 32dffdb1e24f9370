-- ===== src/Leaf/Runs.antt =====
-- A leaf of two items.
use luks_android.Prelude.{ℕ, ◌≡◌, refl, arith, true, Bool, List, [], ◌∷◌, length, ◌<◌, ◌^◌}
use luks_android.Prelude.Bytes.{zeros}
use luks_android.Error.{ok, err, already_exists}
use luks_android.Tree.{Key, Node, cmp, parse}
use luks_android.Leaf.{CsumType, crc32c, Leaf, LeafItem, insert_item, delete_item, split}
use luks_android.Leaf.Items.{IsSorted}
use luks_android.Leaf.Refine.{Inserted, Deleted, insert_item_lem, delete_item_lem}
use luks_android.Leaf.Halves.{IsSplit, split_lem}
use luks_android.Leaf.Emit.{emit, from_node}
use luks_android.Leaf.Emit.RoundTrip.{IsItem}
use luks_android.Leaf.Emit.Block.{IsBlock, emit_lem}
use luks_android.Prelude.Search.{search_by}

abbrev inode_key : ℕ → Key
inode_key n = record { objectid = n; item_type = 1; offset = 0 }

abbrev item : ℕ → List ℕ → LeafItem
item n b = record { key = inode_key n; bytes = b }

abbrev leaf_of : List LeafItem → Leaf
leaf_of xs = record {
  bytenr = 30408704;
  generation = 7;
  owner = 5;
  flags = 1;
  metadata_uuid = zeros 16;
  chunk_tree_uuid = zeros 16;
  csum_type = crc32c;
  items = xs;
}

abbrev two : Leaf
two = leaf_of (item 256 (1 ∷ 2 ∷ []) ∷ item 258 (3 ∷ []) ∷ [])

two-IsSorted : IsSorted two.items
unfolding cmp
two-IsSorted = ((refl, tt), (tt, tt))

inserts_between :
    insert_item two (inode_key 257) (9 ∷ []) 4096
    ≡ ok (leaf_of (item 256 (1 ∷ 2 ∷ []) ∷ item 257 (9 ∷ []) ∷ item 258 (3 ∷ []) ∷ []))
unfolding insert_item search_by cmp
inserts_between = refl

no_duplicate :
    insert_item two (inode_key 258) [] 4096 ≡ err (already_exists "duplicate key in leaf")
unfolding insert_item search_by cmp
no_duplicate = refl

insert_item_lem_example :
    Inserted two (inode_key 257) (9 ∷ []) 4096 (insert_item two (inode_key 257) (9 ∷ []) 4096)
insert_item_lem_example = insert_item_lem two (inode_key 257) (9 ∷ []) 4096 two-IsSorted

delete_item_lem_example : Deleted two (inode_key 258) (delete_item two (inode_key 258))
delete_item_lem_example = delete_item_lem two (inode_key 258) two-IsSorted

split_lem_example :
    (left right : Leaf) × (pivot : Key) × (split two 30425088 ≡ ok (left, right, pivot))
    × IsSplit two left right pivot
split_lem_example = split_lem two 30425088 two-IsSorted (omega arith)

abbrev zero_sum : CsumType → List ℕ → List ℕ
zero_sum t b = zeros 32

abbrev accept : CsumType → List ℕ → List ℕ → Bool
accept t sum b = true

item-IsItem : (n : ℕ) (b : List ℕ) → n < 2 ^ 64 → length b < 2 ^ 32 → IsItem (item n b)
item-IsItem n b h l = record {
  key = record { objectid = h; item_type = omega arith; offset = omega arith };
  size = l;
}

two-IsBlock : IsBlock two 4096
two-IsBlock = record {
  bytenr = omega arith;
  generation = omega arith;
  owner = omega arith;
  flags = omega arith;
  metadata_uuid = refl;
  chunk_tree_uuid = refl;
  items = (
    item-IsItem 256 (1 ∷ 2 ∷ []) (omega arith) (omega arith),
    (item-IsItem 258 (3 ∷ []) (omega arith) (omega arith), tt),
  );
  fits = omega arith;
  small = omega arith;
}

emit_lem_example :
    (b : List ℕ) × (n : Node) × (emit zero_sum two 4096 ≡ ok b)
    × (length b ≡ 4096)
    × (parse (accept crc32c) b 30408704 (zeros 16) ≡ ok n)
    × (from_node n crc32c ≡ ok two)
emit_lem_example = emit_lem zero_sum accept (λ t b. refl) (λ t b. refl) two 4096 two-IsBlock

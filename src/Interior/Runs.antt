-- ===== src/Interior/Runs.antt =====
-- core/src/fs/btrfs/write/node.rs: runs of interior nodes.
use luks_android.Prelude.{ℕ, [], ◌∷◌, refl}
use luks_android.Prelude.Bytes.{zeros}
use luks_android.Tree.{Key, cmp}
use luks_android.Leaf.{crc32c}
use luks_android.Interior.{InteriorNode, insert_entry}
use luks_android.Interior.Place.{Inserted, insert_entry_lem}

abbrev at_object : ℕ → Key
at_object n = record { objectid = n; item_type = 1; offset = 0 }

abbrev node : InteriorNode
node = record {
  bytenr = 65536;
  generation = 7;
  owner = 5;
  level = 1;
  flags = 1;
  metadata_uuid = zeros 16;
  chunk_tree_uuid = zeros 16;
  csum_type = crc32c;
  entries =
      record { key = at_object 256; blockptr = 4096; generation = 6 }
      ∷ record { key = at_object 300; blockptr = 8192; generation = 7 }
      ∷ [];
}

insert_entry_lem_example :
    Inserted node (at_object 280) 12288 8 16384 (insert_entry node (at_object 280) 12288 8 16384)
unfolding cmp
insert_entry_lem_example =
    insert_entry_lem node (at_object 280) 12288 8 16384 ((refl, tt), (tt, tt))

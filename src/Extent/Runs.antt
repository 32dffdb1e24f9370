-- ===== src/Extent/Runs.antt =====
-- core/src/fs/btrfs/write/extent_tree.rs: runs of the items of the extent tree.
use luks_android.Prelude.{◌≡◌, [], ◌∷◌, arith}
use luks_android.Error.{ok}
use luks_android.Alloc.{tree_block, extent_data}
use luks_android.Extent.{parse_extent, emit_data_extent, parse_metadata, emit_tree_block}
use luks_android.Extent.RoundTrip.{parse_extent-emit, parse_metadata-emit}

parse_extent-emit_example :
    parse_extent
      (emit_data_extent 1048576 4096 9 5 257 0).0
      (emit_data_extent 1048576 4096 9 5 257 0).1
    ≡ ok (record {
      bytenr = 1048576;
      length = 4096;
      refs = 1;
      generation = 9;
      flags = 1;
      backrefs = extent_data 5 257 0 1 ∷ [];
    })
parse_extent-emit_example =
    parse_extent-emit 1048576 4096 9 5 257 0 (omega arith) (omega arith) (omega arith) (omega arith)

parse_metadata-emit_example :
    parse_metadata (emit_tree_block 65536 1 9 5).0 (emit_tree_block 65536 1 9 5).1
    ≡ ok (record {
      bytenr = 65536;
      level = 1;
      refs = 1;
      generation = 9;
      flags = 2;
      backrefs = tree_block 5 ∷ [];
    })
parse_metadata-emit_example =
    parse_metadata-emit 65536 1 9 5 (omega arith) (omega arith) (omega arith)

-- ===== src/Lib.antt =====
-- A model of the storage core of luks-android: an application that opens an encrypted USB drive
-- and reads and writes its file system without the kernel's help.
--
-- The layers are, from the drive up: USB bulk transport and SCSI commands (usbfs/,
-- core/src/usb/), partition tables (core/src/partition/), the encrypted volume
-- (core/src/luks/), and the file systems btrfs and ext4 (core/src/fs/). A btrfs write
-- transaction reserves space in a map of the free space, translates logical addresses by the
-- chunk map, and writes. The files here model the parts that decide which bytes of the drive
-- are written:
--
-- - IntervalSet: core/src/fs/btrfs/write/interval_set.rs. `insert`, `remove`, `overlaps`,
--   `contains_range` and `remove_exact` have the methods' names; a `&mut self` method returns
--   the new set with its result. A set is valid (IsValid) if its intervals are sorted, not empty
--   and apart; `covers` is its abstract view, a predicate on addresses.
-- - Alloc: core/src/fs/btrfs/write/alloc.rs, with the types of write/extent_tree.rs that it
--   reads. `allocate_data`, `allocate_metadata_for_owner` and `find_free_range` stand in Alloc,
--   `mark_allocated`, `free_data` and `free_metadata` in Alloc.Release, `from_extent_tree` in
--   Alloc.Build, `exclude_ranges` in Alloc.Exclusions. Alloc.Groups says which maps are valid,
--   and describes a map by the addresses that are free and those that are pinned.
-- - Chunk: core/src/fs/btrfs/chunk.rs, and `Key` of tree.rs: chunk items with `parse` and
--   `emit`, and in Chunk.Map the map of logical to physical addresses.
-- - Tree: core/src/fs/btrfs/tree.rs: keys with their order, and a node of a tree as it is read, with
--   `parse`, `key`, `key_ptr`, `item_data`, `lower_bound` and `child_for`. A node holds its block.
-- - Cursor: core/src/fs/btrfs/cursor.rs: `search`, `advance`, `retreat` and the functions on them. The
--   path is kept from its end, the node at the end apart from those above it. The reading of a node,
--   checked and cached, is a parameter. Cursor.Walk says what a search tree holds.
-- - Inode: core/src/fs/btrfs/inode.rs, and from write/node.rs the builders of inode items, inode
--   references and directory items. A name is a list of bytes.
-- - FileExtent: core/src/fs/btrfs/extent.rs, the extents of files with their builder, and in
--   FileExtent.Read the read of a file. The cursor comes as a record of operations (CursorOps), and the
--   reading of checked data and the decompression are parameters.
-- - Csum: from core/src/fs/btrfs/write/node.rs the items for given checksums, and from
--   write/csum_delete.rs the parts of an item that survive when ranges are freed (Csum.Surviving).
-- - Leaf: core/src/fs/btrfs/write/node.rs, the leaves: `find_item`, `insert_item`, `replace_item`,
--   `delete_item` and `split` change a list of items, and Leaf.Emit writes a leaf as a block
--   (`emit`) and reads it from a node (`from_node`). Leaf.Items describes a leaf as a finite map
--   from keys to bytes. The digest of a block is a parameter.
-- - Interior: the same file, the interior nodes: `insert_entry`, `update_entry_by_blockptr`, `split`
--   and `emit`, with `interior` in the names that Leaf has too.
-- - Ext4: core/src/fs/ext4/dirent.rs, the records of a directory block: `insert_into_block`, and the walk
--   of `find_entry` over a block as `find_in_block`. The walks run on the bytes from the source's `pos`
--   on, with the number of bytes left. Ext4.Live says which records are in use.
-- - Batch: core/src/fs/btrfs/write/batch.rs, the state of a batch with `mark` and `rollback`, and the
--   ledger of the ranges that it handed out, on IntervalSet. The time since its start is an argument.
-- - Extent: core/src/fs/btrfs/write/extent_tree.rs, the items of the extent tree: `parse` and the
--   emitters of block groups, extents and tree blocks, with their inline references.
-- - Exclude: core/src/fs/btrfs/write/exclude.rs, the logical ranges on which a copy of the
--   superblock lies. `sort_by_key` is an insertion sort.
-- - Partition: core/src/partition/: `parse` of mbr.rs and gpt.rs, and `scan`. The device is a
--   record of functions (`ReadAt`); the checksum crc32fast and the decoding of UTF-16 are
--   parameters.
-- - Bot: core/src/usb/bot.rs, the command and status wrappers.
-- - Scsi: core/src/usb/scsi.rs over `BulkTransport` of core/src/usb/mod.rs. The transport is a record
--   of functions on the state of the bus, and a method of the drive is a step on the drive's state,
--   which a failed step changes too. Scsi.Command has one exchange of command, data and status with
--   its retries and resets, Scsi.Blocks the commands, Scsi.ByteAccess `read_at` and `write_at`,
--   Scsi.Open `open` as `open_device`. Scsi.ByteAccess.Disk says what a disk behind the transport does
--   with the wrapper of a command; the disk is a parameter, as the bus is.
-- - Error: core/src/error.rs. `Result` has the errors of the source; `?` is `>>=`.
-- - Prelude: numbers, lists, bytes and machine words.
--
-- Machine integers are natural numbers; plain `+` and `-` wrap around at 2^64, as in a build with
-- the release profile, and `checked_add` answers none. A byte string is a list of numbers. Loops are
-- recursions on lists or on a count where the source runs over them. Some take fuel, and answer an
-- error without it: the binary search of Tree gets the number of indices and one more, since each
-- round leaves fewer; the data phases of Scsi get the length of the buffer, since each round moves a
-- byte or is the last; the loop of the status gets 14, for 13 bytes and one stall that is cleared;
-- `read_at` and `write_at` get the number of bytes, and the references of Extent and the entries of
-- Inode that of the bytes to parse, since each round takes one at least. The read of a file takes the
-- fuel as an argument: the bytes asked for and the items that the cursor passes are enough, since
-- each round delivers a byte or passes an item. The descent of Cursor recurs on the level of a node.
-- The walks of Ext4 get the bytes of the block, since a record has 8 at least.
--
-- Not modelled: in alloc.rs the end of a transaction (`unpin_freed`) and `allocate_data_chunk`; in
-- node.rs the builders that calculate checksums; in csum_delete.rs the changes of the items; in
-- extent_tree.rs the changes of references in the tree; in scsi.rs the probe for write commands;
-- the transaction on the trees of btrfs; ext4 beyond the records of a directory block; LUKS beyond
-- the version; the USB file system. The log of the commands (`forensic`) has no effect on them.
-- Cryptography, decompression and JSON are third-party code; the Android application and the JNI
-- bindings are glue.
pub mod Prelude
pub mod Error
pub mod IntervalSet
pub mod Alloc
pub mod Tree
pub mod Cursor
pub mod Inode
pub mod FileExtent
pub mod Csum
pub mod Ext4
pub mod Leaf
pub mod Interior
pub mod Extent
pub mod Chunk
pub mod Exclude
pub mod Partition
pub mod Bot
pub mod Scsi
pub mod Batch

-- ===== src/Inode/RoundTrip.antt =====
-- core/src/fs/btrfs/inode.rs: what write/node.rs builds for a new file is parsed as that file.
use luks_android.Prelude.{
  ℕ, zero, suc, ◌+◌, ◌<◌, ◌≤◌, ◌^◌, ◌≡◌, refl, ap, List, [], ◌∷◌, ◌++◌, arith, length, drop, All,
  map, length-append, ge→ltb, lt→ltb, ◌∙◌,
}
use luks_android.Prelude.Words.{IsU64, pos}
use luks_android.Prelude.Bytes.{
  to_le, from_le-to_le, take-append, drop-append, drop-plus, u16le, byte,
}
use luks_android.Error.{ok, ◌>>=◌}
use luks_android.Inode.{
  parse, build_empty_inode_item, build_dir_item, entries_from, parse_dir_entries, DirEntryItem,
  dir_type_to_file_type, entry_total, entry_at_front, dir_item_head,
}

-- Whatever the numbers, of the widths that the fields have and the time not negative: the item that is
-- built for a new inode is parsed as an empty inode with that owner, mode, number of links and time.
pub parse-build_empty_inode_item :
    (objectid generation mode uid gid nlink sec nsec : ℕ)
    → mode < 2 ^ 32
    → uid < 2 ^ 32
    → gid < 2 ^ 32
    → nlink < 2 ^ 32
    → sec < 2 ^ 63
    → parse objectid (build_empty_inode_item generation mode uid gid nlink sec nsec)
      ≡ ok (record {
        objectid = objectid;
        size = 0;
        nbytes = 0;
        nlink = nlink;
        uid = uid;
        gid = gid;
        mode = mode;
        rdev = 0;
        flags = 0;
        atime = pos sec;
        ctime = pos sec;
        mtime = pos sec;
      })
unfolding parse build_empty_inode_item
parse-build_empty_inode_item objectid generation mode uid gid nlink sec nsec m u g l s =
    rw
      (
        from_le-to_le 4 mode m,
        from_le-to_le 4 uid u,
        from_le-to_le 4 gid g,
        from_le-to_le 4 nlink l,
        from_le-to_le 8 sec (omega arith),
        lt→ltb sec (2 ^ 63) s,
      )
      refl

-- An entry as `build_dir_item` takes it.
pub record NewEntry : Type 0 where
  pub child_ino : ℕ
  pub transid : ℕ
  pub file_type : ℕ
  pub name : List ℕ

abbrev pub IsNewEntry : NewEntry → Type 0
IsNewEntry e = IsU64 e.child_ino × (e.file_type < 256) × (length e.name < 2 ^ 16)

abbrev pub packed : List NewEntry → List ℕ
packed [] = []
packed (e ∷ es) = build_dir_item e.child_ino e.transid e.file_type e.name ++ packed es

abbrev pub entry_of : NewEntry → DirEntryItem
entry_of e = record {
  name = e.name;
  location = record { objectid = e.child_ino; item_type = 1; offset = 0 };
  file_type = dir_type_to_file_type e.file_type;
}

entries_step :
    (c : ℕ) (b : List ℕ) (fuel total : ℕ) (more : List ℕ) (e : DirEntryItem)
    → entry_total (c ∷ b) ≡ total
    → dir_item_head ≤ total
    → total ≤ length (c ∷ b)
    → drop total (c ∷ b) ≡ more
    → entry_at_front (c ∷ b) ≡ e
    → entries_from (suc fuel) (c ∷ b) ≡ (entries_from fuel more >>= λ es. ok (e ∷ es))
unfolding entries_from
entries_step c b fuel total more e t head whole rest front =
    rw
      (
        ge→ltb (length (c ∷ b)) dir_item_head (omega arith),
        t,
        ge→ltb (length (c ∷ b)) total whole,
        rest,
        front,
      )
      refl

module _ (e : NewEntry) (more : List ℕ) (i : IsU64 e.child_ino) (n : length e.name < 2 ^ 16) where
  abbrev bytes : List ℕ
  bytes = build_dir_item e.child_ino e.transid e.file_type e.name ++ more

  abbrev before_name : List ℕ
  before_name =
      to_le 8 e.child_ino
      ++ (1
          ∷ (to_le 8 0
              ++ (to_le 8 e.transid
                  ++ (to_le 2 0 ++ (to_le 2 (length e.name) ++ (e.file_type ∷ []))))))

  name_size : u16le bytes 27 ≡ length e.name
  unfolding build_dir_item
  name_size = from_le-to_le 2 (length e.name) n

  total : entry_total bytes ≡ 30 + length e.name
  unfolding build_dir_item
  total = omega (arith, name_size)

  bytes-length : length bytes ≡ 30 + length e.name + length more
  unfolding build_dir_item
  bytes-length = omega (arith, length-append e.name more)

  rest : drop (30 + length e.name) bytes ≡ more
  unfolding build_dir_item
  rest = drop-plus before_name (e.name ++ more) (length e.name) ∙ drop-append e.name more

  type_byte : byte bytes 29 ≡ e.file_type
  unfolding build_dir_item
  type_byte = omega arith

  front : entry_at_front bytes ≡ entry_of e
  unfolding build_dir_item
  front =
      rw
        (
          from_le-to_le 2 (length e.name) n,
          from_le-to_le 8 e.child_ino i,
          take-append e.name more,
          type_byte,
        )
        refl

  first_entry :
      (fuel : ℕ)
      → entries_from (suc fuel) bytes ≡ (entries_from fuel more >>= λ es. ok (entry_of e ∷ es))
  unfolding build_dir_item
  first_entry fuel =
      entries_step _ _ fuel (30 + length e.name) more (entry_of e) total (omega arith)
        (omega (arith, bytes-length)) rest front

entries_from-packed :
    (es : List NewEntry) (fuel : ℕ)
    → All IsNewEntry es
    → length es ≤ fuel
    → entries_from fuel (packed es) ≡ ok (map entry_of es)
unfolding entries_from
entries_from-packed [] fuel h enough = refl
entries_from-packed (e ∷ es) zero h enough = absurd (omega arith)
entries_from-packed (e ∷ es) (suc fuel) ((i, t, n), later) enough =
    first_entry e (packed es) i n fuel
    ∙ ap (λ r. r >>= λ more. ok (entry_of e ∷ more))
        (entries_from-packed es fuel later (omega arith))

length-packed : (es : List NewEntry) → length es ≤ length (packed es)
unfolding build_dir_item
length-packed [] = omega arith
length-packed (e ∷ es) = omega (arith, length-packed es, length-append e.name (packed es))

-- Whatever entries share one item, packed end to end as build_dir_item builds each (names below 64 KiB,
-- inode numbers of 64 bits): they are parsed as these entries, all of them and in order, each at the
-- inode it was built for.
pub parse_dir_entries-build :
    (es : List NewEntry) → All IsNewEntry es → parse_dir_entries (packed es) ≡ ok (map entry_of es)
unfolding parse_dir_entries
parse_dir_entries-build es h = entries_from-packed es (length (packed es)) h (length-packed es)

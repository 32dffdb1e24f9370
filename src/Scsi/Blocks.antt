-- ===== src/Scsi/Blocks.antt =====
-- core/src/usb/scsi.rs: the commands on whole blocks, the capacity of the drive and its caches.
pub mod Requests
use luks_android.Prelude.{
  if◌then◌else◌, ℕ, zero, suc, ◌+◌, ◌-◌, ◌*◌, ◌%◌, ◌^◌, Bool, true, false, not, ◌&&◌, ◌||◌, Option,
  none, some, List, [], ◌∷◌, ◌++◌, length, take, drop, ◌==◌, ltb, bit_and,
}
use luks_android.Prelude.Bytes.{byte, zeros, slice, to_be, from_be}
use luks_android.Prelude.Words.{u64_mod, checked_add}
use luks_android.Error.{
  LuksError, Result, ok, err, scsi_protocol, scsi_command_failed, Sense, refuse_if, ok_or,
}
use luks_android.Bot.{Direction, in_to_host, out_to_device, no_data}
use luks_android.Scsi.{
  BulkTransport, Capacity, ScsiBlockDevice, Act, return, fail, lift, attempt, on_ok, ◌>>=◌, ◌>>◌,
}
use luks_android.Scsi.Command.{command, command_out}

abbrev pub read10_max_blocks : ℕ
read10_max_blocks = 0xFFFF

abbrev pub read10_max_lba : ℕ
read10_max_lba = 0xFFFFFFFF

abbrev pub beyond : Option ℕ → ℕ → Bool
beyond none limit = true
beyond (some end) limit = ltb limit end

-- Whether a range of blocks does not fit the 10-byte form of a command.
abbrev pub needs_16 : ℕ → ℕ → Bool
needs_16 lba count =
    ltb read10_max_blocks count || beyond (checked_add lba count) (read10_max_lba + 1)

-- The command block that reads or writes blocks, by the operation codes of the two forms.
unfoldable pub block_cdb : ℕ → ℕ → ℕ → ℕ → List ℕ
block_cdb op_10 op_16 lba count =
    if needs_16 lba count
    then op_16 ∷ 0 ∷ (to_be 8 lba ++ (to_be 4 count ++ (0 ∷ 0 ∷ [])))
    else op_10 ∷ 0 ∷ (to_be 4 (lba % 2 ^ 32) ++ (0 ∷ (to_be 2 (count % 2 ^ 16) ++ (0 ∷ []))))

unfoldable pub read_cdb : ℕ → ℕ → List ℕ
read_cdb lba count = block_cdb 0x28 0x88 lba count

unfoldable pub write_cdb : ℕ → ℕ → List ℕ
write_cdb lba count = block_cdb 0x2A 0x8A lba count

-- The answer of READ CAPACITY(16).
unfoldable pub capacity_16 : List ℕ → Result Capacity
capacity_16 b =
    let last_lba = from_be (slice b 0 8) in
    let block_size = from_be (slice b 8 4) in
    if not (ltb (last_lba + 1) u64_mod)
    then err (scsi_protocol "capacity overflows")
    else if not (ltb ((last_lba + 1) * block_size) u64_mod)
    then err (scsi_protocol "capacity overflows")
    else ok (record { blocks = last_lba + 1; block_size = block_size })

-- Illegal request, invalid command operation code.
abbrev pub unsupported : LuksError → Bool
unsupported (scsi_command_failed opcode (some s)) = s.key == 0x5 && s.asc == 0x20
unsupported e = false

-- The bit "write cache enabled" of the caching page; all lengths fit a word of the machine.
unfoldable pub parse_caching_page_wce : Bool → List ℕ → Option Bool
parse_caching_page_wce mode_sense_6 b =
    let header_len = if mode_sense_6 then 4 else 8 in
    let page_start = header_len + (if mode_sense_6 then byte b 3 else from_be (slice b 6 2)) in
    if ltb (length b) header_len
    then none
    else if ltb (length b) (page_start + 3)
    then none
    else if not (bit_and (byte b page_start) 0x3F == 0x08)
    then none
    else some (not (bit_and (byte b (page_start + 2)) 0x04 == 0))

pub data WriteCacheState : Type 0 where
  enabled disabled unknown : WriteCacheState

module _ {S : Type 0} (t : BulkTransport S) where
  unfoldable pub read_capacity_16 : Act (ScsiBlockDevice S) Capacity
  read_capacity_16 =
      command t (0x9E ∷ 0x10 ∷ (zeros 11 ++ (32 ∷ 0 ∷ 0 ∷ []))) in_to_host (zeros 32) >>= λ (n, b).
      lift (capacity_16 b)

  unfoldable pub read_capacity : Act (ScsiBlockDevice S) Capacity
  read_capacity = command t (0x25 ∷ zeros 9) in_to_host (zeros 8) >>= λ (n, b).
      if from_be (slice b 0 4) == 2 ^ 32 - 1
      then read_capacity_16
      else return
          (record { blocks = from_be (slice b 0 4) + 1; block_size = from_be (slice b 4 4) })

  -- The number of bytes read, and the buffer behind it. A count and a block size of 32 bits
  -- have a product of 64.
  unfoldable pub read_blocks : ℕ → ℕ → List ℕ → Act (ScsiBlockDevice S) (ℕ × List ℕ)
  read_blocks lba count buf d =
      let expected = count * d.capacity.block_size in
      (lift (refuse_if (ltb (length buf) expected) (scsi_protocol "read buffer too small"))
          >> (command t (read_cdb lba count) in_to_host (take expected buf) >>= λ (n, b).
              return (n, b ++ drop expected buf)))
        d

  unfoldable pub write_blocks : ℕ → ℕ → List ℕ → Act (ScsiBlockDevice S) ℕ
  write_blocks lba count buf d =
      let expected = count * d.capacity.block_size in
      (lift (refuse_if (ltb (length buf) expected) (scsi_protocol "write buffer too small"))
          >> command_out t (write_cdb lba count) (take expected buf))
        d

  unfoldable pub is_write_protected : Act (ScsiBlockDevice S) Bool
  is_write_protected =
      command t (0x1A ∷ 0 ∷ 0x3F ∷ 0 ∷ 4 ∷ 0 ∷ []) in_to_host (zeros 4) >>= λ (n, b).
      return (not (bit_and (byte b 2) 0x80 == 0))

  abbrev pub mode_sense_6_caching : Act (ScsiBlockDevice S) (List ℕ)
  mode_sense_6_caching =
      command t (0x1A ∷ 0 ∷ 0x08 ∷ 0 ∷ 255 ∷ 0 ∷ []) in_to_host (zeros 255) >>= λ (n, b).
      return (take n b)

  abbrev pub mode_sense_10_caching : Act (ScsiBlockDevice S) (List ℕ)
  mode_sense_10_caching =
      command t (0x5A ∷ 0 ∷ 0x08 ∷ 0 ∷ 0 ∷ 0 ∷ 0 ∷ (to_be 2 512 ++ (0 ∷ []))) in_to_host (zeros 512)
      >>= λ (n, b). return (take n b)

  abbrev pub cache_state :
      Option Bool
      → Act (ScsiBlockDevice S) WriteCacheState
      → Act (ScsiBlockDevice S) WriteCacheState
  cache_state none next = next
  cache_state (some true) next = return enabled
  cache_state (some false) next = return disabled

  abbrev pub cache_from :
      Bool
      → Act (ScsiBlockDevice S) WriteCacheState
      → Result (List ℕ)
      → Act (ScsiBlockDevice S) WriteCacheState
  cache_from mode_sense_6 next (ok b) = cache_state (parse_caching_page_wce mode_sense_6 b) next
  cache_from mode_sense_6 next (err e) = next

  unfoldable pub write_cache_state : Act (ScsiBlockDevice S) WriteCacheState
  write_cache_state =
      attempt mode_sense_6_caching
        (cache_from true (attempt mode_sense_10_caching (cache_from false (return unknown))))

  abbrev pub flushed :
      Act (ScsiBlockDevice S) (Unit {0}) → Result (ℕ × List ℕ) → Act (ScsiBlockDevice S) (Unit {0})
  flushed next (ok r) = return tt
  flushed next (err e) = if unsupported e then next else fail e

  abbrev pub give_up : Act (ScsiBlockDevice S) (Unit {0})
  give_up d = (ok tt, record d { no_flush_command = true })

  unfoldable pub synchronize_cache : Act (ScsiBlockDevice S) (Unit {0})
  synchronize_cache d = elim d.no_flush_command [
    | true ↦ (ok tt, d)
    | false ↦
        attempt (command t (0x35 ∷ zeros 9) no_data [])
          (flushed (attempt (command t (0x91 ∷ zeros 15) no_data []) (flushed give_up))) d
  ]

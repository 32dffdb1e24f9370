-- ===== src/Scsi/ByteAccess/Commands.antt =====
-- core/src/usb/scsi.rs: the commands on blocks, over a transport with a disk behind it.
use mathlib.Core.List.{append-nil}
use native.Mathlib.Nat.{mul-le-mul_right, mul-le-mul_left}
use luks_android.Prelude.{
  ℕ, ◌+◌, ◌*◌, ◌%◌, ◌^◌, ◌≤◌, ◌<◌, ◌≡◌, refl, sym, ap, ◌∙◌, List, [], length, take, drop, ltb,
  ge→ltb, arith, false, Bool-cases, inl, inr, some,
}
use luks_android.Prelude.Bytes.{slice}
use luks_android.Prelude.Words.{IsU64}
use luks_android.Prelude.Windows.{window, length-window}
use luks_android.Error.{ok}
use luks_android.Bot.{Direction, in_to_host, out_to_device, new_command, encode, encode_lem}
use luks_android.Scsi.{BulkTransport, Capacity, ScsiBlockDevice, on_ok}
use luks_android.Scsi.Command.{command, command_out}
use luks_android.Scsi.ByteAccess.Disk.{Asks, IsUsable, Holds, IsWorking, IsDisk}
use luks_android.Scsi.ByteAccess.Overlay.{overlay}
use luks_android.Scsi.Blocks.{block_cdb, needs_16, read_cdb, write_cdb, read_blocks, write_blocks}
use luks_android.Scsi.Blocks.Requests.{request, block_cdb_lem}
use luks_android.Scsi.Command.Wire.{take_all}
use mathlib.Core.Path.{subst}
use luks_android.Scsi.ByteAccess.Exchange.{tagged, take_nothing, command-whole, command_out-whole}

module _ {S : Type 0} (t : BulkTransport S) (lba count : ℕ) (buf : List ℕ) where
  -- The buffer is what the blocks take.
  module _ (d : ScsiBlockDevice S) (size : count * d.capacity.block_size ≡ length buf) where
    enough : ltb (length buf) (count * d.capacity.block_size) ≡ false
    enough = ap (ltb (length buf)) size ∙ ge→ltb (length buf) (length buf) (omega arith)

    all : take (count * d.capacity.block_size) buf ≡ buf
    all = ap (λ n. take n buf) size ∙ take_all buf

    nothing_left : drop (count * d.capacity.block_size) buf ≡ []
    nothing_left = ap (λ n. drop n buf) size ∙ take_nothing buf

  read_blocks-whole :
      (b : List ℕ) (d after : ScsiBlockDevice S)
      → count * d.capacity.block_size ≡ length buf
      → command t (read_cdb lba count) in_to_host buf d ≡ (ok (length buf, b), after)
      → read_blocks t lba count buf d ≡ (ok (length buf, b), after)
  unfolding read_blocks
  read_blocks-whole b d after size done =
      rw (enough d size, all d size, on_ok, done, on_ok, nothing_left d size, append-nil b) refl

  write_blocks-whole :
      (d after : ScsiBlockDevice S)
      → count * d.capacity.block_size ≡ length buf
      → command_out t (write_cdb lba count) buf d ≡ (ok (length buf), after)
      → write_blocks t lba count buf d ≡ (ok (length buf), after)
  unfolding write_blocks
  write_blocks-whole d after size done = rw (enough d size, all d size, on_ok) done

-- The wrapper of a command on blocks asks the drive for them.
asks :
    (op_10 op_16 tag n lba count : ℕ) (direction : Direction) (cdb : List ℕ)
    → tag < 2 ^ 32
    → n < 2 ^ 32
    → 0 < length cdb
    → length cdb ≤ 16
    → request op_10 op_16 cdb ≡ some (lba, count)
    → (cbw : List ℕ) × (encode (new_command tag (n % 2 ^ 32) direction cdb) ≡ ok cbw)
      × Asks op_10 op_16 tag n lba count cbw
unfolding new_command
asks op_10 op_16 tag n lba count direction cdb small few p q r =
    let (cbw, made, e) =
      encode_lem (new_command tag (n % 2 ^ 32) direction cdb) small (omega arith) p q in
    (
      cbw,
      made,
      record {
        whole = e.whole;
        signed = e.signed;
        same_tag = e.same_tag;
        data_length = e.same_length ∙ omega arith;
        blocks = ap (request op_10 op_16) (ap (slice cbw 15) e.cdb_length ∙ e.same_cdb) ∙ r;
      },
    )

block_cdb-size :
    (op_10 op_16 lba count : ℕ)
    → (0 < length (block_cdb op_10 op_16 lba count))
      × (length (block_cdb op_10 op_16 lba count) ≤ 16)
unfolding block_cdb
block_cdb-size op_10 op_16 lba count = elim (Bool-cases (needs_16 lba count)) [
  | inl large ↦ rw large (omega arith, omega arith)
  | inr small ↦ rw small (omega arith, omega arith)
]

module _ (cap : Capacity) (lba count : ℕ) (p : 0 < cap.block_size) (q : cap.block_size ≤ 65536)
    (small : IsU64 (cap.blocks * cap.block_size)) (some_block : 0 < count) (few : count ≤ 65535)
    (on_drive : lba + count ≤ cap.blocks) where
  few_bytes : count * cap.block_size < 2 ^ 32
  few_bytes = omega (arith, mul-le-mul_right {m = count} {n = 65535} cap.block_size few)

  some_bytes : 0 < count * cap.block_size
  some_bytes = omega (arith, mul-le-mul_right {m = 1} {n = count} cap.block_size some_block)

  small_lba : IsU64 lba
  small_lba = omega (arith, mul-le-mul_left {m = 1} {n = cap.block_size} cap.blocks p)

module _ {S : Type 0} (t : BulkTransport S) (cap : Capacity) (Idle : S → Type 0)
    (contents : S → ℕ → ℕ) (disk : IsDisk t cap Idle contents) (p : 0 < cap.block_size)
    (q : cap.block_size ≤ 65536) (small : IsU64 (cap.blocks * cap.block_size)) where
  exact :
      (d : ScsiBlockDevice S) (count : ℕ) (buf : List ℕ)
      → IsUsable cap Idle d
      → length buf ≡ count * cap.block_size
      → count * d.capacity.block_size ≡ length buf
  exact d count buf usable size = ap (λ (c : Capacity). count * c.block_size) usable.size ∙ sym size

  reads_blocks :
      (d : ScsiBlockDevice S) (lba count : ℕ) (buf : List ℕ)
      → IsUsable cap Idle d
      → lba + count ≤ cap.blocks
      → 0 < count
      → count ≤ 65535
      → length buf ≡ count * cap.block_size
      → (after : ScsiBlockDevice S) × (read_blocks t lba count buf d ≡ (
        ok (
          count * cap.block_size,
          window (contents d.bus) (lba * cap.block_size) (count * cap.block_size),
        ),
        after,
      ))
        × Holds cap Idle contents (contents d.bus) after
  unfolding read_cdb
  reads_blocks d lba count buf usable on_drive some_block few size =
      let (cbw, made, ask) =
        asks 0x28 0x88 d.tag (length buf) lba count in_to_host (read_cdb lba count) usable.small_tag
          (omega (arith, size, few_bytes cap lba count p q small some_block few on_drive))
          (block_cdb-size 0x28 0x88 lba count).0 (block_cdb-size 0x28 0x88 lba count).1
          (block_cdb_lem lba count some_block
            (small_lba cap lba count p q small some_block few on_drive) (omega arith)).0 in
      let (s1, s2, s3, w, r, status, idle, same) =
        disk.reads d.bus cbw d.tag lba count usable.idle usable.small_tag
          (subst (λ n. Asks 0x28 0x88 d.tag n lba count cbw) size ask) some_block on_drive in
      (
        tagged t d s3,
        read_blocks-whole t lba count buf b d (tagged t d s3) (exact d count buf usable size) (
              command-whole t (read_cdb lba count) buf b cbw d s1 s2 s3 usable.small_tag
                (omega (arith, size, some_bytes cap lba count p q small some_block few on_drive))
                (length-window (contents d.bus) (lba * cap.block_size) (count * cap.block_size)
                  ∙ sym size)
                made ask.whole w (ap (λ n. t.read n s1) size ∙ r) status)
            ∙ ap (λ n. (ok (n, b), tagged t d s3)) size,
        record {
          usable = record { size = usable.size; idle = idle; small_tag = omega arith };
          bytes_at = same;
        },
      )
    where
      b : List ℕ
      b = window (contents d.bus) (lba * cap.block_size) (count * cap.block_size)

  writes_blocks :
      (d : ScsiBlockDevice S) (lba count : ℕ) (buf : List ℕ)
      → IsUsable cap Idle d
      → lba + count ≤ cap.blocks
      → 0 < count
      → count ≤ 65535
      → length buf ≡ count * cap.block_size
      → (after : ScsiBlockDevice S) × (write_blocks t lba count buf d
          ≡ (ok (count * cap.block_size), after))
        × Holds cap Idle contents (overlay (contents d.bus) (lba * cap.block_size) buf) after
  unfolding write_cdb
  writes_blocks d lba count buf usable on_drive some_block few size =
      let (cbw, made, ask) =
        asks 0x2A 0x8A d.tag (length buf) lba count out_to_device (write_cdb lba count)
          usable.small_tag
          (omega (arith, size, few_bytes cap lba count p q small some_block few on_drive))
          (block_cdb-size 0x2A 0x8A lba count).0 (block_cdb-size 0x2A 0x8A lba count).1
          (block_cdb_lem lba count some_block
            (small_lba cap lba count p q small some_block few on_drive) (omega arith)).1 in
      let (s1, s2, s3, w, r, status, idle, now) =
        disk.writes d.bus cbw d.tag lba count buf usable.idle usable.small_tag
          (subst (λ n. Asks 0x2A 0x8A d.tag n lba count cbw) size ask) some_block on_drive size in
      (
        tagged t d s3,
        write_blocks-whole t lba count buf d (tagged t d s3) (exact d count buf usable size) (
              command_out-whole t (write_cdb lba count) buf cbw d s1 s2 s3 usable.small_tag
                (omega (arith, size, some_bytes cap lba count p q small some_block few on_drive))
                made ask.whole w r status)
            ∙ ap (λ n. (ok n, tagged t d s3)) size,
        record {
          usable = record { size = usable.size; idle = idle; small_tag = omega arith };
          bytes_at = now;
        },
      )

  pub disk-IsWorking : IsWorking t cap Idle contents
  disk-IsWorking = record { reads = reads_blocks; writes = writes_blocks }

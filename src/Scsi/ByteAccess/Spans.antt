-- ===== src/Scsi/ByteAccess/Spans.antt =====
-- core/src/usb/scsi.rs: the blocks that one command of `read_at` or `write_at` names.
use luks_android.Prelude.{ℕ, ◌+◌, ◌-◌, ◌*◌, ◌/◌, ◌%◌, ◌≤◌, ◌<◌, ◌≡◌, arith}
use native.Mathlib.Nat.{
  div-add-mod', mod-lt, div-mul-le_self, mul-le-mul_right, add-mul, one-mul, lt_of_mul-lt-mul_right,
  lt-div-mul-add,
}
use luks_android.Scsi.ByteAccess.{blocks_at, taken_at}

-- What a round of the loops relies on: it moves bytes, all of them are in the named blocks, and
-- these are on the drive.
pub record IsSpan (bs most pos remaining : ℕ) (total : ℕ) : Type 0 where
  pub some_block : 0 < blocks_at bs most pos remaining
  pub at : pos / bs * bs + pos % bs ≡ pos
  pub moves : 0 < taken_at bs most pos remaining
  pub left : taken_at bs most pos remaining ≤ remaining
  pub inside : pos % bs + taken_at bs most pos remaining ≤ blocks_at bs most pos remaining * bs
  pub on_drive : pos / bs + blocks_at bs most pos remaining ≤ total

module _ (bs most pos remaining total : ℕ) (p : 0 < bs) (some_block : 0 < most)
    (some_byte : 0 < remaining) (within : pos + remaining ≤ total * bs) where
  abbrev wanted : ℕ
  wanted = (pos % bs + remaining + bs - 1) / bs

  one_wanted : 1 ≤ wanted
  one_wanted =
      lt_of_mul-lt-mul_right bs {m = 0} {n = wanted}
        (omega (arith, lt-div-mul-add {a = pos % bs + remaining + bs - 1} {b = bs} p))

  one_block : bs ≤ blocks_at bs most pos remaining * bs
  one_block = omega (
    arith,
    one-mul bs,
    mul-le-mul_right {m = 1} {n = blocks_at bs most pos remaining} bs positive,
  )
    where
      positive : 1 ≤ blocks_at bs most pos remaining
      positive = omega (arith, one_wanted)

  on_drive_lem : pos / bs + blocks_at bs most pos remaining ≤ total
  on_drive_lem = omega (
    arith,
    lt_of_mul-lt-mul_right bs {m = pos / bs + blocks_at bs most pos remaining} {n = total + 1}
        products,
  )
    where
      fewer : blocks_at bs most pos remaining ≤ wanted
      fewer = omega arith

      products : (pos / bs + blocks_at bs most pos remaining) * bs < (total + 1) * bs
      products = omega (
        arith,
        add-mul (pos / bs) (blocks_at bs most pos remaining) bs,
        add-mul total 1 bs,
        one-mul bs,
        mul-le-mul_right bs fewer,
        div-mul-le_self (pos % bs + remaining + bs - 1) bs,
        div-add-mod' pos bs,
      )

  pub span : IsSpan bs most pos remaining total
  span = record {
    some_block = omega (arith, one_wanted);
    at = div-add-mod' pos bs;
    moves = omega (arith, one_block, mod-lt pos p);
    left = omega arith;
    inside = omega (arith, one_block, mod-lt pos p);
    on_drive = on_drive_lem;
  }

-- ===== src/Scsi/ByteAccess/Exchange.antt =====
-- core/src/usb/scsi.rs: one exchange over a transport whose transfers are whole.
use mathlib.Core.List.{append-nil}
use luks_android.Prelude.{
  ℕ, zero, suc, ◌+◌, ◌-◌, ◌%◌, ◌^◌, ◌<◌, ◌≡◌, refl, ap, ◌∙◌, List, [], ◌∷◌, ◌++◌, length, drop,
  arith, ◌==◌, false, true,
}
use luks_android.Prelude.Bytes.{from_le-to_le}
use luks_android.Error.{ok}
use luks_android.Bot.{
  Direction, in_to_host, out_to_device, new_command, encode, decode, status_of, passed,
  CommandStatusWrapper,
}
use luks_android.Scsi.{BulkTransport, ScsiBlockDevice, Act, ◌>>=◌, on_ok, return, on_bus}
use luks_android.Scsi.Command.{
  recover, send, in_from, out_from, read_status, csw_from, command, command_out, exchange,
  data_phase, conclude,
}
use luks_android.Scsi.ByteAccess.Disk.{passed_status}

-- The step behind a step that succeeds.
>>=-ok :
    {D A B : Type 0} (step : Act D A) (next : A → Act D B) (d after : D) (a : A)
    → step d ≡ (ok a, after)
    → (step >>= next) d ≡ next a after
>>=-ok step next d after a e = ap (λ r. on_ok next r.0 r.1) e

abbrev passed_as : ℕ → CommandStatusWrapper
passed_as tag = record { tag = tag; data_residue = 0; status = passed }

pub take_nothing : (xs : List ℕ) → drop (length xs) xs ≡ []
take_nothing [] = refl
take_nothing (x ∷ xs) = take_nothing xs

module _ {S : Type 0} (t : BulkTransport S) where
  -- The device with another state of the bus.
  abbrev pub with_bus : ScsiBlockDevice S → S → ScsiBlockDevice S
  with_bus d s = record d { bus = s }

  -- The device behind a wrapper that was sent.
  abbrev pub tagged : ScsiBlockDevice S → S → ScsiBlockDevice S
  tagged d s = record d { bus = s; tag = (d.tag + 1) % 2 ^ 32 }

  pub send-whole :
      (cdb : List ℕ) (len : ℕ) (direction : Direction) (cbw : List ℕ) (d : ScsiBlockDevice S)
      (s : S)
      → encode (new_command d.tag (len % 2 ^ 32) direction cdb) ≡ ok cbw
      → length cbw ≡ 31
      → t.write cbw d.bus ≡ (ok 31, s)
      → send t cdb len direction d ≡ (ok d.tag, tagged d s)
  unfolding send
  send-whole cdb len direction cbw d s e size w = rw (e, w, size) refl

  pub in_from-whole :
      (n : ℕ) (b : List ℕ) (d : ScsiBlockDevice S) (s : S)
      → 0 < n
      → length b ≡ n
      → t.read n d.bus ≡ (ok b, s)
      → in_from t n n [] d ≡ (ok b, with_bus d s)
  unfolding in_from
  in_from-whole zero b d s p size r = absurd (omega arith)
  in_from-whole (suc n) b d s p size r =
      let none_left : suc n - length b ≡ 0 = omega arith in
      let some_bytes : (length b == 0) ≡ false = ground arith in
      rw (r, on_ok, some_bytes, none_left) refl

  out_nothing : (fuel n : ℕ) (d : ScsiBlockDevice S) → out_from t [] fuel n d ≡ (ok n, d)
  unfolding out_from
  out_nothing zero n d = refl
  out_nothing (suc fuel) n d = refl

  pub out_from-whole :
      (b : List ℕ) (d : ScsiBlockDevice S) (s : S)
      → 0 < length b
      → t.write b d.bus ≡ (ok (length b), s)
      → out_from t b (length b) 0 d ≡ (ok (length b), with_bus d s)
  unfolding out_from
  out_from-whole [] d s p w = absurd (omega arith)
  out_from-whole (x ∷ xs) d s p w =
      >>=-ok (recover t (on_bus (t.write (x ∷ xs))))
        (λ n. elim (n == 0) [
          | true ↦ return 0
          | false ↦ out_from t (drop n (x ∷ xs)) (length xs) (0 + n)
        ])
        d (with_bus d s) (length (x ∷ xs)) (rw w refl)
      ∙ rw some_bytes (
          ap (λ ys. out_from t ys (length xs) (0 + length (x ∷ xs)) (with_bus d s))
            (take_nothing xs)
          ∙ out_nothing (length xs) (0 + length (x ∷ xs)) (with_bus d s)
          ∙ ap (λ n. (ok n, with_bus d s)) (omega arith))
    where
      some_bytes : (length (x ∷ xs) == 0) ≡ false
      some_bytes = ground arith

  decode-passed : (tag : ℕ) → tag < 2 ^ 32 → decode (passed_status tag) ≡ ok (passed_as tag)
  unfolding decode status_of
  decode-passed tag small = ap (λ n. ok (passed_as n)) (from_le-to_le 4 tag small)

  pub read_status-passed :
      (tag : ℕ) (d : ScsiBlockDevice S) (s : S)
      → tag < 2 ^ 32
      → t.read 13 d.bus ≡ (ok (passed_status tag), s)
      → read_status t tag d ≡ (ok (passed_as tag), with_bus d s)
  unfolding read_status csw_from
  read_status-passed tag d s small r =
      let same : (tag == tag) ≡ true = ground arith in rw (r, decode-passed tag small, same) refl

  pub command-whole :
      (cdb buf b cbw : List ℕ) (d : ScsiBlockDevice S) (s1 s2 s3 : S)
      → d.tag < 2 ^ 32
      → 0 < length buf
      → length b ≡ length buf
      → encode (new_command d.tag (length buf % 2 ^ 32) in_to_host cdb) ≡ ok cbw
      → length cbw ≡ 31
      → t.write cbw d.bus ≡ (ok 31, s1)
      → t.read (length buf) s1 ≡ (ok b, s2)
      → t.read 13 s2 ≡ (ok (passed_status d.tag), s3)
      → command t cdb in_to_host buf d ≡ (ok (length buf, b), tagged d s3)
  unfolding command exchange data_phase conclude
  command-whole cdb buf b cbw d s1 s2 s3 small p size e whole w r status =
      let sent = send-whole cdb (length buf) in_to_host cbw d s1 e whole w in
      let read = in_from-whole (length buf) b (tagged d s1) s2 p size r in
      let answered = read_status-passed d.tag (tagged d s2) s3 small status in
      let nothing_b : b ++ drop (length b) buf ≡ b =
        ap (λ k. b ++ drop k buf) size ∙ ap (λ xs. b ++ xs) (take_nothing buf) ∙ append-nil b in
      rw (sent, on_ok, read, on_ok, answered, on_ok, nothing_b, size) refl

  pub command_out-whole :
      (cdb buf cbw : List ℕ) (d : ScsiBlockDevice S) (s1 s2 s3 : S)
      → d.tag < 2 ^ 32
      → 0 < length buf
      → encode (new_command d.tag (length buf % 2 ^ 32) out_to_device cdb) ≡ ok cbw
      → length cbw ≡ 31
      → t.write cbw d.bus ≡ (ok 31, s1)
      → t.write buf s1 ≡ (ok (length buf), s2)
      → t.read 13 s2 ≡ (ok (passed_status d.tag), s3)
      → command_out t cdb buf d ≡ (ok (length buf), tagged d s3)
  unfolding command_out conclude
  command_out-whole cdb buf cbw d s1 s2 s3 small p e whole w r status =
      let sent = send-whole cdb (length buf) out_to_device cbw d s1 e whole w in
      let wrote = out_from-whole buf (tagged d s1) s2 p r in
      let answered = read_status-passed d.tag (tagged d s2) s3 small status in
      rw (sent, on_ok, wrote, answered) refl

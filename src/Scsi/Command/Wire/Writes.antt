-- ===== src/Scsi/Command/Wire/Writes.antt =====
-- core/src/usb/scsi.rs: what goes over the bus when a command that writes succeeds.
use mathlib.Core.List.{append-nil}
use mathlib.Core.Path.{subst}
use Prim.Native.String.{String}
use luks_android.Prelude.{
  ℕ, ◌+◌, ◌%◌, ◌^◌, ◌≡◌, refl, sym, ap, ◌∙◌, inl, inr, Option, List, [], ◌++◌, length, take, ◌==◌,
  Bool-cases, arith,
}
use luks_android.Prelude.Bytes.{byte}
use luks_android.Error.{scsi_protocol, scsi_command_failed, ok, Sense}
use luks_android.Bot.{
  out_to_device, new_command, encode, decode, CommandStatusWrapper, CswStatus, passed, failed,
  phase_error, csw_len,
}
use luks_android.Scsi.{BulkTransport, ScsiBlockDevice, Act, fail, lift, ◌>>=◌, on_bus}
use luks_android.Scsi.Command.{
  recover, out_from, check_sent, transmit, send, read_status, conclude, ask_why, command_out,
}
use luks_android.Scsi.Command.Wire.{
  IsWire, ok-err, ok-inv, bind-inv, take_all, Moved, Moved-trans, write-Moved, out_from-Moved,
}
use luks_android.Scsi.Command.Wire.Status.{status-Confirmed}

module _ {S : Type 0} (t : BulkTransport S) (sent received : S → List ℕ)
    (wire : IsWire t sent received) where
  transmit-Moved :
      (tag : ℕ) (encoded : List ℕ) (d after : ScsiBlockDevice S) (out : ℕ)
      → transmit t tag encoded d ≡ (ok out, after)
      → (out ≡ tag) × Moved t sent received wire d after encoded []
  transmit-Moved tag encoded d after out h =
      let (n, between, wrote, checked) =
        bind-inv (recover t (on_bus (t.write encoded))) (check_sent t tag encoded) d after out h in
      elim (Bool-cases (n == length encoded)) [
        | inl whole ↦
            let (same, still) = ok-inv tag out between after (sym (rw whole refl) ∙ checked) in
            (
              sym same,
              subst (λ s. Moved t sent received wire d s encoded []) still
                  (subst (λ b. Moved t sent received wire d between b [])
                    (ap (λ k. take k encoded) (ground (arith, whole)) ∙ take_all encoded)
                    (write-Moved t sent received wire encoded d between n wrote)),
            )
        | inr short ↦ absurd (
            ok-err (scsi_protocol "short CBW write") out between after
              (sym (rw short refl) ∙ checked))
      ]

  -- What a command block that was sent is: the next tag, and the bytes that went out.
  abbrev pub Sent : List ℕ → ℕ → ScsiBlockDevice S → ScsiBlockDevice S → ℕ → Type 0
  Sent cdb len d after tag =
      (tag ≡ d.tag)
      × (encoded : List ℕ) × (encode (new_command d.tag (len % 2 ^ 32) out_to_device cdb)
          ≡ ok encoded)
      × Moved t sent received wire d after encoded []

  send-Sent :
      (cdb : List ℕ) (len : ℕ) (d after : ScsiBlockDevice S) (tag : ℕ)
      → send t cdb len out_to_device d ≡ (ok tag, after)
      → Sent cdb len d after tag
  unfolding send
  send-Sent cdb len d after tag h =
      let (encoded, between, made, rest) =
        bind-inv (lift (encode (new_command d.tag (len % 2 ^ 32) out_to_device cdb)))
          (transmit t d.tag) d' after tag h in
      let (same, moved) = transmit-Moved d.tag encoded between after tag rest in
      (
        same,
        encoded,
        ap (λ p. p.0) made,
        record {
          was_sent = moved.was_sent ∙ ap (λ s. sent s.bus ++ encoded) (sym (ap (λ p. p.1) made));
          was_received =
              moved.was_received ∙ ap (λ s. received s.bus ++ []) (sym (ap (λ p. p.1) made));
        },
      )
    where
      d' : ScsiBlockDevice S
      d' = record d { tag = (d.tag + 1) % 2 ^ 32 }

  -- What a command that writes went through when it succeeds with `n` bytes.
  pub record Confirmed (cdb buf : List ℕ) (d after : ScsiBlockDevice S) (n : ℕ) : Type 0 where
    pub encoded : List ℕ
    pub status : List ℕ
    pub csw : CommandStatusWrapper
    pub was_encoded :
        encode (new_command d.tag (length buf % 2 ^ 32) out_to_device cdb) ≡ ok encoded
    pub size : length status ≡ csw_len
    pub moved : Moved t sent received wire d after (encoded ++ take n buf) status
    pub was_decoded : decode status ≡ ok csw
    pub own_tag : csw.tag ≡ d.tag
    pub no_residue : csw.data_residue ≡ 0
    pub was_passed : csw.status ≡ passed

  conclude-Confirmed :
      (text : String) (why : Act (ScsiBlockDevice S) (Option Sense)) (opcode k : ℕ)
      (csw : CommandStatusWrapper) (d after : ScsiBlockDevice S) (n : ℕ)
      → conclude t text why opcode out_to_device k csw d ≡ (ok n, after)
      → (k ≡ n) × (d ≡ after) × (csw.data_residue ≡ 0) × (csw.status ≡ passed)
  unfolding conclude
  conclude-Confirmed text why opcode k csw d after n h = by_status csw.status refl
    where
      by_status :
          (status : CswStatus)
          → csw.status ≡ status
          → (k ≡ n) × (d ≡ after) × (csw.data_residue ≡ 0) × (csw.status ≡ passed)
      by_status passed e = elim (Bool-cases (csw.data_residue == 0)) [
        | inl done ↦
            let (same, still) = ok-inv k n d after (rw (e, done) at h) in
            (same, still, ground (arith, done), e)
        | inr rest ↦ absurd (
            ok-err (scsi_protocol "drive committed less than the full data phase") n d after
              (rw (e, rest) at h))
      ]
      by_status failed e =
          let (sense, between, asked, refused) =
            bind-inv why (λ sense. fail (scsi_command_failed opcode sense)) d after n (rw e at h) in
          absurd (ok-err (scsi_command_failed opcode sense) n between after refused)
      by_status phase_error e =
          absurd (ok-err (scsi_protocol text) n (on_bus t.reset d).1 after (rw e at h))

  -- A command that writes succeeds with a number of bytes only if its command block went out, then as
  -- many bytes from the front of the data, and nothing else; and if all that came in is a status that
  -- says that the command with this tag passed with nothing of the data left over.
  pub command_out_lem :
      (cdb buf : List ℕ) (d after : ScsiBlockDevice S) (n : ℕ)
      → command_out t cdb buf d ≡ (ok n, after)
      → Confirmed cdb buf d after n
  unfolding command_out
  command_out_lem cdb buf d after n h =
      let (tag, d1, was_sent, h1) =
        bind-inv (send t cdb (length buf) out_to_device)
          (λ tag. out_from t buf (length buf) 0 >>= λ transferred. read_status t tag >>= λ csw.
            conclude t "CSW phase error" (ask_why t) (byte cdb 0) out_to_device transferred csw)
          d after n h in
      let (k, d2, data_sent, h2) =
        bind-inv (out_from t buf (length buf) 0)
          (λ transferred. read_status t tag >>= λ csw.
            conclude t "CSW phase error" (ask_why t) (byte cdb 0) out_to_device transferred csw)
          d1 after n h1 in
      let (csw, d3, status_read, h3) =
        bind-inv (read_status t tag)
          (λ csw. conclude t "CSW phase error" (ask_why t) (byte cdb 0) out_to_device k csw) d2
          after n h2 in
      let (same_tag, encoded, was_encoded, first) = send-Sent cdb (length buf) d d1 tag was_sent in
      let (m, total, second) =
        out_from-Moved t sent received wire buf (length buf) 0 d1 d2 k data_sent in
      let (status, size, third, was_decoded, own_tag) =
        status-Confirmed t sent received wire tag d2 d3 csw status_read in
      let (same, still, no_residue, was_passed) =
        conclude-Confirmed "CSW phase error" (ask_why t) (byte cdb 0) k csw d3 after n h3 in
      let all =
        Moved-trans t sent received wire d d1 d3 encoded (take m buf ++ []) [] ([] ++ status) first
          (Moved-trans t sent received wire d1 d2 d3 (take m buf) [] [] status second third) in
      record {
        encoded = encoded;
        status = status;
        csw = csw;
        was_encoded = was_encoded;
        size = size;
        moved =
            subst (λ s. Moved t sent received wire d s (encoded ++ take n buf) status) still
              (subst (λ xs. Moved t sent received wire d d3 (encoded ++ xs) status)
                (append-nil (take m buf) ∙ ap (λ i. take i buf) (omega (arith, total, same))) all);
        was_decoded = was_decoded;
        own_tag = own_tag ∙ same_tag;
        no_residue = no_residue;
        was_passed = was_passed;
      }

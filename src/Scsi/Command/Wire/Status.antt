-- ===== src/Scsi/Command/Wire/Status.antt =====
-- core/src/usb/scsi.rs: the status of a command, as it comes in over the bus.
use mathlib.Core.List.{append_assoc, append-nil}
use mathlib.Core.Path.{subst}
use luks_android.Prelude.{
  ℕ, zero, suc, ◌+◌, ◌-◌, ◌≤◌, ◌≡◌, refl, sym, ap, ◌∙◌, inl, inr, Bool, true, false, List, [], ◌∷◌,
  ◌++◌, length, length-append, ◌==◌, Bool-cases, arith,
}
use luks_android.Error.{scsi_protocol, LuksError, Result, ok, err, is_disconnected}
use luks_android.Bot.{decode, CommandStatusWrapper, csw_len}
use luks_android.Scsi.{BulkTransport, ScsiBlockDevice, Act, lift, ◌>>=◌, ◌>>◌, on_bus}
use luks_android.Scsi.Command.{
  halt_cleared, clear_stall, after_read, csw_from, check_tag, read_status,
}
use luks_android.Scsi.Command.Wire.{
  IsWire, ok-err, ok-inv, bind-inv, Moved, unmoved, Moved-trans, on_bus-inv,
}

module _ {S : Type 0} (t : BulkTransport S) (sent received : S → List ℕ)
    (wire : IsWire t sent received) where
  clear_stall-Moved :
      (d after : ScsiBlockDevice S)
      → clear_stall t d ≡ (ok tt, after)
      → Moved t sent received wire d after [] []
  clear_stall-Moved d after h =
      go (t.clear_halt true d.bus).0 (on_bus (t.clear_halt true) d).1 refl h
    where
      go :
          (r : Result (Unit {0})) (s : ScsiBlockDevice S)
          → on_bus (t.clear_halt true) d ≡ (r, s)
          → halt_cleared t r s ≡ (ok tt, after)
          → Moved t sent received wire d after [] []
      go (ok u) s e h =
          let (out, back) =
            wire.halt_ok true d.bus s.bus
              (on_bus-inv t sent received wire (t.clear_halt true) d s (ok tt) e) in
          subst (λ s. Moved t sent received wire d s [] []) (ok-inv u tt s after h).1
            (record {
              was_sent = out ∙ sym (append-nil (sent d.bus));
              was_received = back ∙ sym (append-nil (received d.bus));
            })
      go (err why) s e h = elim (Bool-cases (is_disconnected why)) [
        | inl q ↦ absurd (ok-err why tt s after (sym (rw q refl) ∙ h))
        | inr q ↦ absurd (ok-err why tt (on_bus t.reset s).1 after (sym (rw q refl) ∙ h))
      ]

  -- The bytes of the status that were missing are those that came in.
  abbrev pub Read : ScsiBlockDevice S → ScsiBlockDevice S → ℕ → List ℕ → List ℕ → Type 0
  Read d after left got b =
      (more : List ℕ) × (b ≡ got ++ more)
      × (length more ≡ left)
      × Moved t sent received wire d after [] more

  retry-Moved :
      (retry : Act (ScsiBlockDevice S) (List ℕ)) (left : ℕ) (got : List ℕ)
      (d after : ScsiBlockDevice S) (b : List ℕ)
      → ((between : ScsiBlockDevice S)
          → retry between ≡ (ok b, after)
          → Read between after left got b)
      → (clear_stall t >> retry) d ≡ (ok b, after)
      → Read d after left got b
  retry-Moved retry left got d after b h e =
      let (u, between, cleared, rest) = bind-inv (clear_stall t) (λ u. retry) d after b e in
      let (more, all, size, later) = h between rest in
      (
        more,
        all,
        size,
        Moved-trans t sent received wire d between after [] [] [] more
            (clear_stall-Moved d between cleared) later,
      )

  behind :
      (d s after : ScsiBlockDevice S) (left : ℕ) (got b : List ℕ)
      → Moved t sent received wire d s [] []
      → Read s after left got b
      → Read d after left got b
  behind d s after left got b v (more, all, size, later) =
      (more, all, size, Moved-trans t sent received wire d s after [] [] [] more v later)

  read-Moved :
      (n : ℕ) (d s : ScsiBlockDevice S) (b : List ℕ)
      → on_bus (t.read n) d ≡ (ok b, s)
      → Moved t sent received wire d s [] b × (length b ≤ n)
  read-Moved n d s b e =
      let (out, back, few) =
        wire.read_ok n d.bus s.bus b (on_bus-inv t sent received wire (t.read n) d s (ok b) e) in
      (record { was_sent = out ∙ sym (append-nil (sent d.bus)); was_received = back }, few)

  read_err-Moved :
      (n : ℕ) (d s : ScsiBlockDevice S) (why : LuksError)
      → on_bus (t.read n) d ≡ (err why, s)
      → Moved t sent received wire d s [] []
  read_err-Moved n d s why e =
      let (out, back) =
        wire.read_err n d.bus s.bus why
          (on_bus-inv t sent received wire (t.read n) d s (err why) e) in
      record {
        was_sent = out ∙ sym (append-nil (sent d.bus));
        was_received = back ∙ sym (append-nil (received d.bus));
      }

  csw_from-Moved :
      (left fuel : ℕ) (got : List ℕ) (cleared : Bool) (d after : ScsiBlockDevice S) (b : List ℕ)
      → csw_from t left fuel got cleared d ≡ (ok b, after)
      → Read d after left got b
  unfolding csw_from
  csw_from-Moved zero fuel got cleared d after b h =
      let (same, still) = ok-inv got b d after h in
      (
        [],
        sym same ∙ sym (append-nil got),
        refl,
        subst (λ s. Moved t sent received wire d s [] []) still (unmoved t sent received wire d),
      )
  csw_from-Moved (suc left) zero got cleared d after b h = absurd (ok-err _ b d after h)
  csw_from-Moved (suc left) (suc fuel) got cleared d after b h =
      answered (λ s e. csw_from-Moved (suc left) fuel got true s after b e)
        (λ x xs s e.
          csw_from-Moved (suc left - length (x ∷ xs)) fuel (got ++ (x ∷ xs)) cleared s after b e)
        (t.read (suc left) d.bus).0 (on_bus (t.read (suc left)) d).1 refl cleared h
    where
      retry : Act (ScsiBlockDevice S) (List ℕ)
      retry = csw_from t (suc left) fuel got true

      next : List ℕ → Act (ScsiBlockDevice S) (List ℕ)
      next b = csw_from t (suc left - length b) fuel (got ++ b) cleared

      joined :
          ((x : ℕ) (xs : List ℕ) (s : ScsiBlockDevice S)
            → next (x ∷ xs) s ≡ (ok b, after)
            → Read s after (suc left - length (x ∷ xs)) (got ++ (x ∷ xs)) b)
          → (x : ℕ) (xs : List ℕ) (s : ScsiBlockDevice S)
          → on_bus (t.read (suc left)) d ≡ (ok (x ∷ xs), s)
          → next (x ∷ xs) s ≡ (ok b, after)
          → Read d after (suc left) got b
      joined later x xs s e h =
          let (came, few) = read-Moved (suc left) d s (x ∷ xs) e in
          let (more, all, size, moved) = later x xs s h in
          (
            (x ∷ xs) ++ more,
            all ∙ append_assoc got (x ∷ xs) more,
            length-append (x ∷ xs) more ∙ omega (arith, size, few),
            Moved-trans t sent received wire d s after [] [] (x ∷ xs) more came moved,
          )

      answered :
          ((s : ScsiBlockDevice S) → retry s ≡ (ok b, after) → Read s after (suc left) got b)
          → ((x : ℕ) (xs : List ℕ) (s : ScsiBlockDevice S)
              → next (x ∷ xs) s ≡ (ok b, after)
              → Read s after (suc left - length (x ∷ xs)) (got ++ (x ∷ xs)) b)
          → (r : Result (List ℕ)) (s : ScsiBlockDevice S) → on_bus (t.read (suc left)) d ≡ (r, s)
          → (again : Bool) → after_read t retry next again r s ≡ (ok b, after)
          → Read d after (suc left) got b
      answered rec later (ok []) s e true h = absurd (ok-err _ b (on_bus t.reset s).1 after h)
      answered rec later (ok []) s e false h =
          behind d s after (suc left) got b (read-Moved (suc left) d s [] e).0
            (retry-Moved retry (suc left) got s after b rec h)
      answered rec later (ok (x ∷ xs)) s e true h = joined later x xs s e h
      answered rec later (ok (x ∷ xs)) s e false h = joined later x xs s e h
      answered rec later (err why) s e true h = elim (Bool-cases (is_disconnected why)) [
        | inl q ↦ absurd (ok-err why b s after (sym (rw q refl) ∙ h))
        | inr q ↦ absurd (ok-err why b (on_bus t.reset s).1 after (sym (rw q refl) ∙ h))
      ]
      answered rec later (err why) s e false h = elim (Bool-cases (is_disconnected why)) [
        | inl q ↦ absurd (ok-err why b s after (sym (rw q refl) ∙ h))
        | inr q ↦
            behind d s after (suc left) got b (read_err-Moved (suc left) d s why e)
              (retry-Moved retry (suc left) got s after b rec (sym (rw q refl) ∙ h))
      ]

  pub status-Confirmed :
      (tag : ℕ) (d after : ScsiBlockDevice S) (csw : CommandStatusWrapper)
      → read_status t tag d ≡ (ok csw, after)
      → (status : List ℕ) × (length status ≡ csw_len)
        × Moved t sent received wire d after [] status
        × (decode status ≡ ok csw)
        × (csw.tag ≡ tag)
  unfolding read_status
  status-Confirmed tag d after csw h =
      let (b, between, came, rest) =
        bind-inv (csw_from t csw_len (csw_len + 1) [] false)
          (λ b. lift (decode b) >>= check_tag t tag) d after csw h in
      let (csw', again, decoded, checked) =
        bind-inv (lift (decode b)) (check_tag t tag) between after csw rest in
      let (more, all, size, moved) =
        csw_from-Moved csw_len (csw_len + 1) [] false d between b came in
      elim (Bool-cases (csw'.tag == tag)) [
        | inl own ↦
            let (same, still) = ok-inv csw' csw again after (sym (rw own refl) ∙ checked) in
            (
              b,
              ap length all ∙ size,
              subst (λ xs. Moved t sent received wire d after [] xs) (sym all)
                  (subst (λ s. Moved t sent received wire d s [] more)
                    (ap (λ p. p.1) decoded ∙ still) moved),
              ap (λ p. p.0) decoded ∙ ap ok same,
              sym (ap (λ c. c.tag) same) ∙ ground (arith, own),
            )
        | inr other ↦ absurd (
            ok-err (scsi_protocol "CSW tag mismatch") csw again after
              (sym (rw other refl) ∙ checked))
      ]

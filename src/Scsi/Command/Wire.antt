-- ===== src/Scsi/Command/Wire.antt =====
-- core/src/usb/scsi.rs: the bytes that go over the bus in the steps of a command.
pub mod Status
pub mod Writes
use mathlib.Core.List.{append_assoc, append-nil}
use mathlib.Core.Path.{subst}
use Prim.Native.String.{String}
use luks_android.Prelude.{
  ℕ, zero, suc, ◌+◌, ◌-◌, ◌%◌, ◌^◌, ◌≤◌, ◌≡◌, refl, sym, ap, ap₂, ◌∙◌, inl, inr, Bool, true, false,
  Option, List, [], ◌∷◌, ◌++◌, length, length-append, take, drop, ◌==◌, Bool-cases, arith,
}
use luks_android.Prelude.Bytes.{byte}
use luks_android.Error.{
  scsi_protocol, scsi_command_failed, LuksError, Result, ok, err, is_disconnected, Sense,
}
use luks_android.Bot.{
  out_to_device, new_command, encode, decode, CommandStatusWrapper, CswStatus, passed, failed,
  phase_error, csw_len,
}
use luks_android.Scsi.{
  BulkTransport, ScsiBlockDevice, Act, return, fail, lift, on_ok, ◌>>=◌, ◌>>◌, on_bus,
}
use luks_android.Scsi.Command.{
  recovered, recover, out_from, halt_cleared, clear_stall, after_read, csw_from, check_sent,
  transmit, check_tag, send, read_status, conclude, ask_why, command_out,
}

-- What is sent and received over the bus, as functions of its state: a write that succeeds sends the
-- bytes it counts, a read receives those it answers, no more than asked for, and a read that fails
-- and the end of a stall carry none.
pub record IsWire {S : Type 0} (t : BulkTransport S) (sent received : S → List ℕ) : Type 0 where
  pub write_ok :
      (b : List ℕ) (s after : S) (n : ℕ)
      → t.write b s ≡ (ok n, after)
      → (sent after ≡ sent s ++ take n b) × (received after ≡ received s)
  pub read_ok :
      (n : ℕ) (s after : S) (b : List ℕ)
      → t.read n s ≡ (ok b, after)
      → (sent after ≡ sent s) × (received after ≡ received s ++ b) × (length b ≤ n)
  pub read_err :
      (n : ℕ) (s after : S) (e : LuksError)
      → t.read n s ≡ (err e, after)
      → (sent after ≡ sent s) × (received after ≡ received s)
  pub halt_ok :
      (endpoint_in : Bool) (s after : S)
      → t.clear_halt endpoint_in s ≡ (ok tt, after)
      → (sent after ≡ sent s) × (received after ≡ received s)

pub ok-err :
    {D A : Type 0} (e : LuksError) (a : A) (d after : D)
    → Path (Result A × D) (err e, d) (ok a, after)
    → ⊥
ok-err e a d after h = false_ok (ap (λ r. r.0) h)
  where
    false_ok : err e ≡ ok a → ⊥
    false_ok h = cc

-- What a step of two that succeeds went through.
pub bind-inv :
    {D A B : Type 0} (step : Act D A) (next : A → Act D B) (d after : D) (b : B)
    → (step >>= next) d ≡ (ok b, after)
    → (a : A) × (between : D) × (step d ≡ (ok a, between)) × (next a between ≡ (ok b, after))
bind-inv {D} {A} {B} step next d after b h = go (step d).0 (step d).1 refl h
  where
    go :
        (r : Result A) (s : D)
        → step d ≡ (r, s)
        → on_ok next r s ≡ (ok b, after)
        → (a : A) × (between : D) × (step d ≡ (ok a, between)) × (next a between ≡ (ok b, after))
    go (ok a) s e h = (a, s, e, h)
    go (err why) s e h = absurd (ok-err why b s after h)

pub ok-inv :
    {D A : Type 0} (a b : A) (d after : D)
    → Path (Result A × D) (ok a, d) (ok b, after)
    → (a ≡ b) × (d ≡ after)
ok-inv a b d after h = (injective (ap (λ r. r.0) h), ap (λ r. r.1) h)
  where
    injective : ok a ≡ ok b → a ≡ b
    injective h = cc

take-nil : (n : ℕ) → Path (List ℕ) (take n []) []
take-nil zero = refl
take-nil (suc n) = refl

pub take_all : (xs : List ℕ) → take (length xs) xs ≡ xs
take_all [] = refl
take_all (x ∷ xs) = ap (λ ys. x ∷ ys) (take_all xs)

take-plus : (n m : ℕ) (xs : List ℕ) → take n xs ++ take m (drop n xs) ≡ take (n + m) xs
take-plus zero m xs = ap (λ k. take k xs) (omega arith)
take-plus (suc n) zero [] = sym (take-nil (suc n + 0))
take-plus (suc n) (suc m) [] = sym (take-nil (suc n + suc m))
take-plus (suc n) m (x ∷ xs) =
    ap (λ ys. x ∷ ys) (take-plus n m xs) ∙ ap (λ k. take k (x ∷ xs)) shift
  where
    shift : suc (n + m) ≡ suc n + m
    shift = omega arith

module _ {S : Type 0} (t : BulkTransport S) (sent received : S → List ℕ)
    (wire : IsWire t sent received) where
  -- Between two states these bytes went out, and those came in.
  pub record Moved (d after : ScsiBlockDevice S) (out back : List ℕ) : Type 0 where
    pub was_sent : sent after.bus ≡ sent d.bus ++ out
    pub was_received : received after.bus ≡ received d.bus ++ back

  pub unmoved : (d : ScsiBlockDevice S) → Moved d d [] []
  unmoved d = record {
    was_sent = sym (append-nil (sent d.bus));
    was_received = sym (append-nil (received d.bus));
  }

  pub Moved-trans :
      (d between after : ScsiBlockDevice S) (out out' back back' : List ℕ)
      → Moved d between out back
      → Moved between after out' back'
      → Moved d after (out ++ out') (back ++ back')
  Moved-trans d between after out out' back back' v w = record {
    was_sent = w.was_sent ∙ ap (λ xs. xs ++ out') v.was_sent ∙ append_assoc (sent d.bus) out out';
    was_received =
        w.was_received
        ∙ ap (λ xs. xs ++ back') v.was_received
        ∙ append_assoc (received d.bus) back back';
  }

  pub recover-inv :
      {A : Type 0} (step : Act (ScsiBlockDevice S) A) (d after : ScsiBlockDevice S) (a : A)
      → recover t step d ≡ (ok a, after)
      → step d ≡ (ok a, after)
  recover-inv {A} step d after a h = go (step d).0 (step d).1 refl h
    where
      go :
          (r : Result A) (s : ScsiBlockDevice S)
          → step d ≡ (r, s)
          → recovered t r s ≡ (ok a, after)
          → step d ≡ (ok a, after)
      go (ok b) s e h = e ∙ h
      go (err why) s e h = absurd (ok-err why a (on_bus t.reset s).1 after h)

  pub write-Moved :
      (b : List ℕ) (d after : ScsiBlockDevice S) (n : ℕ)
      → recover t (on_bus (t.write b)) d ≡ (ok n, after)
      → Moved d after (take n b) []
  write-Moved b d after n h =
      let e = recover-inv (on_bus (t.write b)) d after n h in
      let (out, back) =
        wire.write_ok b d.bus after.bus n
          (ap₂ (λ r s. (r, s)) (ap (λ r. r.0) e) (ap (λ r. r.1.bus) e)) in
      record { was_sent = out; was_received = back ∙ sym (append-nil (received d.bus)) }

  pub out_from-Moved :
      (buf : List ℕ) (fuel k : ℕ) (d after : ScsiBlockDevice S) (n : ℕ)
      → out_from t buf fuel k d ≡ (ok n, after)
      → (m : ℕ) × (n ≡ k + m) × Moved d after (take m buf) []
  unfolding out_from
  out_from-Moved [] fuel k d after n h =
      let (same, still) = ok-inv k n d after h in
      (0, omega (arith, same), subst (λ s. Moved d s [] []) still (unmoved d))
  out_from-Moved (x ∷ xs) zero k d after n h = absurd (ok-err _ n d after h)
  out_from-Moved (x ∷ xs) (suc fuel) k d after n h =
      let (a, between, e, rest) =
        bind-inv (recover t (on_bus (t.write (x ∷ xs))))
          (λ a. elim (a == 0) [
            | true ↦ return k
            | false ↦ out_from t (drop a (x ∷ xs)) fuel (k + a)
          ])
          d after n h in
      let first = write-Moved (x ∷ xs) d between a e in
      elim (Bool-cases (a == 0)) [
        | inl ended ↦
            let (same, still) = ok-inv k n between after (sym (rw ended refl) ∙ rest) in
            (
              a,
              ground (arith, ended, same),
              subst (λ s. Moved d s (take a (x ∷ xs)) []) still first,
            )
        | inr more ↦
            let (m, total, later) =
              out_from-Moved (drop a (x ∷ xs)) fuel (k + a) between after n
                (sym (rw more refl) ∙ rest) in
            (
              a + m,
              omega (arith, total),
              subst (λ ys. Moved d after ys []) (take-plus a m (x ∷ xs))
                  (Moved-trans d between after (take a (x ∷ xs)) (take m (drop a (x ∷ xs))) [] []
                    first later),
            )
      ]

  -- A step of the transport that answers, as it shows in the state of the bus.
  pub on_bus-inv :
      {A : Type 0} (step : Act S A) (d after : ScsiBlockDevice S) (r : Result A)
      → on_bus step d ≡ (r, after)
      → step d.bus ≡ (r, after.bus)
  on_bus-inv step d after r e = ap₂ (λ a s. (a, s)) (ap (λ p. p.0) e) (ap (λ p. p.1.bus) e)

-- ===== src/Batch/Ledger.antt =====
-- core/src/fs/btrfs/write/batch.rs: the ledger counts each address once.
use mathlib.Core.Path.{subst}
use luks_android.Prelude.{
  ℕ, zero, suc, ◌+◌, ◌≤◌, ◌<◌, ◌≡◌, ◌⊎◌, ◌||◌, inl, inr, refl, ap, ◌∙◌, Bool, true, false, List, [],
  ◌∷◌, arith, All, sym, not, ◌&&◌,
}
use luks_android.Prelude.Words.{IsU64, u64_mod}
use luks_android.Error.{Result, ok, err, LuksError, corrupt_fs}
use luks_android.IntervalSet.{IntervalSet, insert, remove, remove_exact}
use luks_android.IntervalSet.Laws.{covers}
use luks_android.IntervalSet.Insert.{IsValid, in_range, insert_lem, insert-IsValid}
use luks_android.IntervalSet.Remove.{remove-IsValid, remove-covers, remove_exact_lem}
use luks_android.Batch.{Batch, record_allocation, release_allocation, ledger_changed}

-- A change of the ledger: a range that is handed out, or one that is given back.
pub data Change : Type 0 where
  hand_out give_back : (start len : ℕ) → Change

abbrev pub IsChange : Change → Type 0
IsChange (hand_out start len) = 0 < len
IsChange (give_back start len) = (0 < len) × IsU64 (start + len)

abbrev one : Bool → ℕ
one true = 1
one false = 0

abbrev pub handed : List Change → ℕ → ℕ
handed [] a = 0
handed (hand_out start len ∷ cs) a = one (in_range start len a) + handed cs a
handed (give_back start len ∷ cs) a = handed cs a

abbrev pub given : List Change → ℕ → ℕ
given [] a = 0
given (hand_out start len ∷ cs) a = given cs a
given (give_back start len ∷ cs) a = one (in_range start len a) + given cs a

abbrev pub held : IntervalSet → ℕ → ℕ
held set a = one (covers set.intervals a)

one_or : (x y : Bool) → (x ≡ true → y ≡ false) → one (x || y) ≡ one x + one y
one_or true y h = rw (h refl) refl
one_or false y h = omega arith

one_without : (x y : Bool) → (x ≡ true → y ≡ true) → one y ≡ one (y && not x) + one x
one_without true y h = rw (h refl) refl
one_without false true h = refl
one_without false false h = refl

abbrev double : LuksError
double = corrupt_fs "double allocation detected in batch allocation ledger"

abbrev absent : LuksError
absent = corrupt_fs "attempted to release allocation not present in reservation ledger"

module _ {Target : Type 0} where
  abbrev pub apply : Batch Target → Change → Batch Target × Result (Unit {0})
  apply b (hand_out start len) = record_allocation b start len
  apply b (give_back start len) = release_allocation b start len

  abbrev pub go_on :
      Batch Target × Result (Unit {0})
      → (Batch Target → Batch Target × Result (Unit {0}))
      → Batch Target × Result (Unit {0})
  go_on (b, ok u) rest = rest b
  go_on (b, err e) rest = (b, err e)

  -- The changes one after the other, the first error ending them.
  abbrev pub apply_all : Batch Target → List Change → Batch Target × Result (Unit {0})
  apply_all b [] = (b, ok tt)
  apply_all b (c ∷ cs) = go_on (apply b c) λ b'. apply_all b' cs

  -- If the ledger is valid and refuses a range, the batch is as it was, and the range runs over 2^64 or
  -- has an address that is handed out.
  pub record_allocation_lem :
      (b : Batch Target) (start n : ℕ) (e : LuksError)
      → IsValid b.handed_out
      → (record_allocation b start (suc n)).1 ≡ err e
      → ((record_allocation b start (suc n)).0 ≡ b)
        × ((u64_mod ≤ start + suc n)
            ⊎ ((a : ℕ) × (in_range start (suc n) a ≡ true)
                × (covers b.handed_out.intervals a ≡ true)))
  unfolding record_allocation
  record_allocation_lem b start n e v refused = elim (insert_lem b.handed_out start n v) [
    | inl (done, u, free, gains) ↦ let h = rw done at refused in cc
    | inr (same, why) ↦ (ap (λ r. (ledger_changed b double r).0) same, why)
  ]

  recorded :
      (b : Batch Target) (start len : ℕ)
      → (insert b.handed_out start len).1 ≡ true
      → record_allocation b start len
        ≡ (record b { handed_out = (insert b.handed_out start len).0 }, ok tt)
  unfolding record_allocation
  recorded b start len done = rw done refl

  not_recorded :
      (b : Batch Target) (start len : ℕ)
      → insert b.handed_out start len ≡ (b.handed_out, false)
      → record_allocation b start len ≡ (b, err double)
  unfolding record_allocation
  not_recorded b start len same = ap (ledger_changed b double) same

  released :
      (b : Batch Target) (start len : ℕ) (set : IntervalSet)
      → remove_exact b.handed_out start len ≡ (set, true)
      → release_allocation b start len ≡ (record b { handed_out = set }, ok tt)
  unfolding release_allocation
  released b start len set done = ap (ledger_changed b absent) done

  not_released :
      (b : Batch Target) (start len : ℕ)
      → remove_exact b.handed_out start len ≡ (b.handed_out, false)
      → release_allocation b start len ≡ (b, err absent)
  unfolding release_allocation
  not_released b start len same = ap (ledger_changed b absent) same

  step :
      (b : Batch Target) (c : Change) (cs : List Change) (r : Batch Target × Result (Unit {0}))
      → apply b c ≡ r
      → apply_all b (c ∷ cs) ≡ go_on r λ b'. apply_all b' cs
  step b c cs r e = ap (λ x. go_on x λ b'. apply_all b' cs) e

  stays_bad :
      (b : Batch Target) (c : Change) (cs : List Change) (e : LuksError)
      → apply b c ≡ (b, err e)
      → (apply_all b (c ∷ cs)).1 ≡ ok tt
      → ⊥
  stays_bad b c cs e same good =
      let bad = sym (ap (λ r. r.1) (step b c cs (b, err e) same)) ∙ good in cc

  -- From a batch whose ledger is valid, if changes of the ledger are all accepted, of ranges that are not
  -- empty, those given back below 2^64: then for each address, the times that it was handed out, and one
  -- if it was in the ledger before, are the times that it was given back, and one if it is in the ledger
  -- after. So it was handed out once more than given back at most, and not even that if it was there before.
  pub apply_all_lem :
      (cs : List Change) (b : Batch Target) (a : ℕ)
      → IsValid b.handed_out
      → All IsChange cs
      → (apply_all b cs).1 ≡ ok tt
      → held b.handed_out a + handed cs a ≡ held (apply_all b cs).0.handed_out a + given cs a
  apply_all_lem [] b a v h good = refl
  apply_all_lem (hand_out start zero ∷ cs) b a v h good = absurd (omega (arith, h.0))
  apply_all_lem (hand_out start (suc n) ∷ cs) b a v h good =
      elim (insert_lem b.handed_out start n v) [
        | inl (done, u, free, gains) ↦
            let e = step b (hand_out start (suc n)) cs _ (recorded b start (suc n) done) in
            let g = sym (ap (λ r. r.1) e) ∙ good in
            let grown = insert b.handed_out start (suc n) in
            let later =
              apply_all_lem cs (record b { handed_out = grown.0 }) a
                (insert-IsValid b.handed_out start (suc n) v) h.1 g in
            let gained =
              ap one (gains a)
              ∙ one_or (in_range start (suc n) a) (covers b.handed_out.intervals a) (free a) in
            subst
              (λ r.
                held b.handed_out a + (one (in_range start (suc n) a) + handed cs a)
                ≡ held r.0.handed_out a + given cs a)
              (sym e) (omega (arith, later, gained))
        | inr (same, why) ↦ absurd (
            stays_bad b (hand_out start (suc n)) cs double (not_recorded b start (suc n) same) good)
      ]
  apply_all_lem (give_back start zero ∷ cs) b a v h good = absurd (omega (arith, h.0.0))
  apply_all_lem (give_back start (suc n) ∷ cs) b a v h good =
      elim (remove_exact_lem b.handed_out start n v h.0.1) [
        | inl (held_all, done) ↦
            let less = remove b.handed_out start (suc n) in
            let e = step b (give_back start (suc n)) cs _ (released b start (suc n) less done) in
            let g = sym (ap (λ r. r.1) e) ∙ good in
            let later =
              apply_all_lem cs (record b { handed_out = less }) a
                (remove-IsValid b.handed_out start (suc n) v) h.1 g in
            let lost = ap one (remove-covers b.handed_out start (suc n) a h.0.1) in
            let split =
              one_without (in_range start (suc n) a) (covers b.handed_out.intervals a)
                (held_all a) in
            subst
              (λ r.
                held b.handed_out a + handed cs a
                ≡ held r.0.handed_out a + (one (in_range start (suc n) a) + given cs a))
              (sym e) (omega (arith, later, lost, split))
        | inr (x, inside, free, same) ↦ absurd (
            stays_bad b (give_back start (suc n)) cs absent (not_released b start (suc n) same)
              good)
      ]

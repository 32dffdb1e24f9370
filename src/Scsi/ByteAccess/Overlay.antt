-- ===== src/Scsi/ByteAccess/Overlay.antt =====
-- core/src/usb/scsi.rs: the bytes of a drive as a function of their addresses.
use mathlib.Core.Path.{subst}
use luks_android.Prelude.{
  if◌then◌else◌, ℕ, zero, suc, ◌+◌, ◌-◌, ◌≤◌, ◌⊎◌, ◌<◌, ◌≡◌, refl, sym, ap, ◌∙◌, List, [], ◌∷◌,
  ◌++◌, length, take, drop, ltb, lt→ltb, ge→ltb, ltb→lt, ltb→ge, Bool-cases, inl, inr, arith,
  length-take,
}
use luks_android.Prelude.Windows.{at_or, window, length-window}
use luks_android.Scsi.ByteAccess.{patch}

-- `c` with other bytes from an address on.
unfoldable pub overlay : (ℕ → ℕ) → ℕ → List ℕ → ℕ → ℕ
overlay c a b i = if ltb i a then c i else at_or b (i - a) (c i)

at_or_end : (b : List ℕ) (j other : ℕ) → length b ≤ j → at_or b j other ≡ other
unfolding at_or
at_or_end [] j other h = refl
at_or_end (x ∷ xs) zero other h = absurd (omega arith)
at_or_end (x ∷ xs) (suc j) other h = at_or_end xs j other (omega arith)

at_or-window : (c : ℕ → ℕ) (a n j : ℕ) → at_or (window c a n) j (c (a + j)) ≡ c (a + j)
unfolding at_or window
at_or-window c a zero j = refl
at_or-window c a (suc n) zero = ap c (omega arith)
at_or-window c a (suc n) (suc j) =
    ap (at_or (window c (suc a) n) j) (ap c shift) ∙ at_or-window c (suc a) n j ∙ ap c (sym shift)
  where
    shift : a + suc j ≡ suc a + j
    shift = omega arith

at_or-front :
    (xs ys : List ℕ) (j other : ℕ) → j < length xs → at_or (xs ++ ys) j other ≡ at_or xs j other
unfolding at_or
at_or-front [] ys j other h = absurd (omega arith)
at_or-front (x ∷ xs) ys zero other h = refl
at_or-front (x ∷ xs) ys (suc j) other h = at_or-front xs ys j other (omega arith)

at_or-back :
    (xs ys : List ℕ) (j other : ℕ) → at_or (xs ++ ys) (length xs + j) other ≡ at_or ys j other
unfolding at_or
at_or-back [] ys j other = ap (λ n. at_or ys n other) (omega arith)
at_or-back (x ∷ xs) ys j other =
    ap (λ n. at_or (x ∷ (xs ++ ys)) n other) shift ∙ at_or-back xs ys j other
  where
    shift : suc (length xs) + j ≡ suc (length xs + j)
    shift = omega arith

pub at_or-take :
    (m : ℕ) (xs : List ℕ) (j other : ℕ) → j < m → at_or (take m xs) j other ≡ at_or xs j other
unfolding at_or
at_or-take zero xs j other h = absurd (omega arith)
at_or-take (suc m) [] j other h = refl
at_or-take (suc m) (x ∷ xs) zero other h = refl
at_or-take (suc m) (x ∷ xs) (suc j) other h = at_or-take m xs j other (omega arith)

pub at_or-drop :
    (m : ℕ) (xs : List ℕ) (j other : ℕ) → at_or (drop m xs) j other ≡ at_or xs (m + j) other
unfolding at_or
at_or-drop zero xs j other = ap (λ n. at_or xs n other) (omega arith)
at_or-drop (suc m) [] j other = refl
at_or-drop (suc m) (x ∷ xs) j other =
    at_or-drop m xs j other ∙ ap (λ n. at_or (x ∷ xs) n other) shift
  where
    shift : suc (m + j) ≡ suc m + j
    shift = omega arith

overlay-below : (c : ℕ → ℕ) (a : ℕ) (b : List ℕ) (i : ℕ) → i < a → overlay c a b i ≡ c i
unfolding overlay
overlay-below c a b i h = rw (lt→ltb i a h) refl

overlay-from :
    (c : ℕ → ℕ) (a : ℕ) (b : List ℕ) (j : ℕ) → overlay c a b (a + j) ≡ at_or b j (c (a + j))
unfolding overlay
overlay-from c a b j = rw (ge→ltb (a + j) a (omega arith)) (ap (λ n. at_or b n (c (a + j))) back)
  where
    back : a + j - a ≡ j
    back = omega arith

-- A number is below another, or that one and some more.
place : (a i : ℕ) → (i < a) ⊎ ((j : ℕ) × (i ≡ a + j))
place a i = elim (Bool-cases (ltb i a)) [
  | inl below ↦ inl (ltb→lt i a below)
  | inr above ↦ inr (i - a, omega (arith, ltb→ge i a above))
]

at_or-patch :
    (c : ℕ → ℕ) (a w span : ℕ) (b : List ℕ) (j : ℕ)
    → w + length b ≤ span
    → at_or (patch (window c a span) w b) j (c (a + j)) ≡ overlay c (a + w) b (a + j)
at_or-patch c a w span b j fits = elim (place w j) [
  | inl front ↦
      at_or-front (take w all) rest j (c (a + j)) (omega (arith, size))
      ∙ at_or-take w all j (c (a + j)) front
      ∙ at_or-window c a span j
      ∙ sym (overlay-below c (a + w) b (a + j) (omega arith))
  | inr (k, e) ↦
      subst (λ n. at_or (patch all w b) n (c (a + n)) ≡ overlay c (a + w) b (a + n)) (sym e)
        (ap (λ n. at_or (patch all w b) n (c (a + (w + k)))) (ap (λ n. n + k) (sym size))
          ∙ at_or-back (take w all) rest k (c (a + (w + k)))
          ∙ behind k
          ∙ ap (overlay c (a + w) b) (omega arith))
]
  where
    all : List ℕ
    all = window c a span

    rest : List ℕ
    rest = b ++ drop (w + length b) all

    size : length (take w all) ≡ w
    size = length-take w all (omega (arith, length-window c a span))

    unchanged :
        (m : ℕ)
        → at_or (drop (w + length b) all) m (c (a + w + (length b + m)))
          ≡ c (a + w + (length b + m))
    unchanged m =
        at_or-drop (w + length b) all m (c (a + w + (length b + m)))
        ∙ ap (λ n. at_or all (w + length b + m) (c n)) same
        ∙ at_or-window c a span (w + length b + m)
        ∙ ap c (sym same)
      where
        same : a + w + (length b + m) ≡ a + (w + length b + m)
        same = omega arith

    behind : (k : ℕ) → at_or rest k (c (a + (w + k))) ≡ overlay c (a + w) b (a + w + k)
    behind k = elim (place (length b) k) [
      | inl inside ↦
          at_or-front b (drop (w + length b) all) k (c (a + (w + k))) inside
          ∙ ap (λ n. at_or b k (c n)) (omega arith)
          ∙ sym (overlay-from c (a + w) b k)
      | inr (m, e) ↦
          subst (λ n. at_or rest n (c (a + (w + n))) ≡ overlay c (a + w) b (a + w + n)) (sym e)
            (at_or-back b (drop (w + length b) all) m (c (a + (w + (length b + m))))
              ∙ ap (λ n. at_or (drop (w + length b) all) m (c n)) (omega arith)
              ∙ unchanged m
              ∙ sym (at_or_end b (length b + m) (c (a + w + (length b + m))) (omega arith))
              ∙ sym (overlay-from c (a + w) b (length b + m)))
    ]

-- A window with some of its bytes changed, put in its place, changes just those bytes.
pub overlay-patch :
    (c : ℕ → ℕ) (a w span : ℕ) (b : List ℕ) (i : ℕ)
    → w + length b ≤ span
    → overlay c a (patch (window c a span) w b) i ≡ overlay c (a + w) b i
overlay-patch c a w span b i fits = elim (place a i) [
  | inl below ↦
      overlay-below c a (patch (window c a span) w b) i below
      ∙ sym (overlay-below c (a + w) b i (omega arith))
  | inr (j, e) ↦
      subst (λ n. overlay c a (patch (window c a span) w b) n ≡ overlay c (a + w) b n) (sym e)
        (overlay-from c a (patch (window c a span) w b) j ∙ at_or-patch c a w span b j fits)
]

-- Bytes put in place in two parts.
pub overlay-again :
    (c : ℕ → ℕ) (p m : ℕ) (b : List ℕ) (i : ℕ)
    → m ≤ length b
    → overlay (overlay c p (take m b)) (p + m) (drop m b) i ≡ overlay c p b i
overlay-again c p m b i h = elim (place p i) [
  | inl below ↦
      overlay-below (overlay c p (take m b)) (p + m) (drop m b) i (omega arith)
      ∙ overlay-below c p (take m b) i below
      ∙ sym (overlay-below c p b i below)
  | inr (j, e) ↦
      subst (λ n. overlay (overlay c p (take m b)) (p + m) (drop m b) n ≡ overlay c p b n) (sym e)
        (from j)
]
  where
    size : length (take m b) ≡ m
    size = length-take m b h

    first : (j : ℕ) → m ≤ j → overlay c p (take m b) (p + j) ≡ c (p + j)
    first j above =
        overlay-from c p (take m b) j ∙ at_or_end (take m b) j (c (p + j)) (omega (arith, size))

    from :
        (j : ℕ)
        → overlay (overlay c p (take m b)) (p + m) (drop m b) (p + j) ≡ overlay c p b (p + j)
    from j = elim (place m j) [
      | inl front ↦
          overlay-below (overlay c p (take m b)) (p + m) (drop m b) (p + j) (omega arith)
          ∙ overlay-from c p (take m b) j
          ∙ at_or-take m b j (c (p + j)) front
          ∙ sym (overlay-from c p b j)
      | inr (k, e) ↦
          subst
            (λ n.
              overlay (overlay c p (take m b)) (p + m) (drop m b) (p + n) ≡ overlay c p b (p + n))
            (sym e)
            (ap (overlay (overlay c p (take m b)) (p + m) (drop m b)) (omega arith)
              ∙ overlay-from (overlay c p (take m b)) (p + m) (drop m b) k
              ∙ at_or-drop m b k (overlay c p (take m b) (p + m + k))
              ∙ ap (at_or b (m + k))
                  (ap (overlay c p (take m b)) (omega arith) ∙ first (m + k) (omega arith))
              ∙ sym (overlay-from c p b (m + k)))
    ]

-- What is put in place depends on the bytes below only.
pub overlay-ap :
    (c d : ℕ → ℕ) (p : ℕ) (b : List ℕ) (i : ℕ)
    → ((n : ℕ) → c n ≡ d n)
    → overlay c p b i ≡ overlay d p b i
unfolding overlay
overlay-ap c d p b i h = rw (h i) refl

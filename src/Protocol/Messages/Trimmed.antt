-- ===== src/Protocol/Messages/Trimmed.antt =====
-- core/restore_protocol.cpp: no message ends with white space, so that trimming the line keeps it.
use mathlib.Core.List.{reverse, reverse-append, reverse-reverse}
use usb_restoration_tool.Text.{Text}
use usb_restoration_tool.Qt.{Qt, QtLaws, drop_while, trimmed}
use usb_restoration_tool.Prelude.{
  ℕ, ◌≡◌, refl, sym, ap, ◌∙◌, ◌≢◌, inl, inr, Bool, true, false, [], ◌∷◌, ◌++◌, arith, Bool-cases,
}

drop_first : (p : ℕ → Bool) (x : ℕ) (t : Text) → p x ≡ false → drop_while p (x ∷ t) ≡ x ∷ t
unfolding drop_while
drop_first p x t h = rw h refl

drop_one :
    (p : ℕ → Bool) (x y : ℕ) (t : Text)
    → p x ≡ true
    → p y ≡ false
    → drop_while p (x ∷ y ∷ t) ≡ y ∷ t
unfolding drop_while
drop_one p x y t h k = rw (h, k) refl

drop_while-snoc :
    (p : ℕ → Bool) (xs : Text) (y : ℕ) → p y ≡ false → drop_while p (xs ++ y ∷ []) ≢ []
unfolding drop_while
drop_while-snoc p [] y h e = ground arith
drop_while-snoc p (x ∷ xs) y h e = elim (Bool-cases (p x)) [
  | inl a ↦ drop_while-snoc p xs y h (ground arith)
  | inr a ↦ ground arith
]

reverse_ne : (xs : Text) → xs ≢ [] → reverse xs ≢ []
reverse_ne xs ne e = ne (sym (reverse-reverse xs) ∙ ap (λ t. reverse t) e)

module _ (qt : Qt) where
  -- A text that begins with no white space is not trimmed to nothing.
  pub trimmed_ne : (x : ℕ) (t : Text) → qt.is_space x ≡ false → trimmed qt (x ∷ t) ≢ []
  unfolding trimmed
  trimmed_ne x t h = rw (drop_first qt.is_space x t h) (
      reverse_ne (drop_while qt.is_space (reverse (x ∷ t)))
        (rw (reverse-append (x ∷ []) t) (drop_while-snoc qt.is_space (reverse t) x h)))

  -- A text that begins and ends with no white space.
  pub trimmed_solid :
      (x : ℕ) (w : Text) (y : ℕ)
      → qt.is_space x ≡ false
      → qt.is_space y ≡ false
      → trimmed qt (x ∷ (w ++ y ∷ [])) ≡ x ∷ (w ++ y ∷ [])
  unfolding trimmed
  trimmed_solid x w y h k = rw (drop_first qt.is_space x (w ++ y ∷ []) h) (
      rw (reverse-append (x ∷ w) (y ∷ [])) (
        rw (drop_first qt.is_space y (reverse (x ∷ w)) k) (
          ap (λ t. reverse t) (sym (reverse-append (x ∷ w) (y ∷ [])))
          ∙ reverse-reverse (x ∷ (w ++ y ∷ [])))))

  -- One space behind it goes.
  pub trimmed_space :
      (x : ℕ) (w : Text) (y : ℕ)
      → QtLaws qt
      → qt.is_space x ≡ false
      → qt.is_space y ≡ false
      → trimmed qt (x ∷ (w ++ (y ∷ b' ' ∷ []))) ≡ x ∷ (w ++ y ∷ [])
  unfolding trimmed
  trimmed_space x w y laws h k = rw (drop_first qt.is_space x (w ++ (y ∷ b' ' ∷ [])) h) (
      rw (reverse-append (x ∷ w) (y ∷ b' ' ∷ [])) (
        rw (drop_one qt.is_space b' ' y (reverse (x ∷ w)) laws.space k) (
          ap (λ t. reverse t) (sym (reverse-append (x ∷ w) (y ∷ [])))
          ∙ reverse-reverse (x ∷ (w ++ y ∷ [])))))

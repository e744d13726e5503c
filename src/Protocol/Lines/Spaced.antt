-- ===== src/Protocol/Lines/Spaced.antt =====
-- core/restore_protocol.cpp, sanitizeProtocolText(): the spaces of a message stand between words.
use usb_restoration_tool.Text.{Text}
use usb_restoration_tool.Qt.{Qt, QtLaws}
use usb_restoration_tool.Protocol.Lines.{
  is_separator, sanitize_loop, chop_if, is_high_surrogate, sanitize_protocol_text,
}
use usb_restoration_tool.Protocol.Lines.Sanitized.{sanitize_loop_keeps, loop-IsOneLine}
use usb_restoration_tool.Prelude.{
  ℕ, ◌≡◌, refl, ap, subst, ◌⊎◌, inl, inr, Bool, true, false, not, ◌&&◌, [], ◌∷◌, ◌++◌, any, arith,
  ◌==◌, if◌then◌else◌, Bool-cases,
}

-- No separator stands at the end or in front of another.
abbrev Spaced : Qt → Text → Type 0
Spaced qt [] = Unit {0}
Spaced qt (x ∷ []) = is_separator qt x ≡ false
Spaced qt (x ∷ y ∷ rest) =
    (is_separator qt x ≡ true → is_separator qt y ≡ false) × Spaced qt (y ∷ rest)

-- Empty, or white space does not stand at the end.
abbrev pub EndsSolid : Qt → Text → Type 0
EndsSolid qt t = (t ≡ []) ⊎ ((w : Text) × (y : ℕ) × (t ≡ w ++ y ∷ []) × (qt.is_space y ≡ false))

module _ (qt : Qt) where
  Spaced-word :
      (kept : Text) (c : ℕ)
      → Spaced qt kept
      → is_separator qt c ≡ false
      → Spaced qt (kept ++ c ∷ [])
  Spaced-word [] c h e = e
  Spaced-word (x ∷ []) c h e = (λ f. e, e)
  Spaced-word (x ∷ y ∷ rest) c h e = (h.0, Spaced-word (y ∷ rest) c h.1 e)

  Spaced-space :
      (kept : Text) (c : ℕ)
      → Spaced qt kept
      → is_separator qt c ≡ false
      → Spaced qt (kept ++ (b' ' ∷ c ∷ []))
  Spaced-space [] c h e = (λ f. e, e)
  Spaced-space (x ∷ []) c h e = (λ f. cc, (λ f. e, e))
  Spaced-space (x ∷ y ∷ rest) c h e = (h.0, Spaced-space (y ∷ rest) c h.1 e)

  Spaced-grown :
      (kept : Text) (c : ℕ) (pending : Bool)
      → Spaced qt kept
      → is_separator qt c ≡ false
      → Spaced qt (kept ++ (if pending then b' ' ∷ c ∷ [] else c ∷ []))
  Spaced-grown kept c true h e = Spaced-space kept c h e
  Spaced-grown kept c false h e = Spaced-word kept c h e

  -- A separator is a space, in a message.
  abbrev OnlySpaces : Text → Type 0
  OnlySpaces [] = Unit {0}
  OnlySpaces (x ∷ rest) = (is_separator qt x ≡ true → x ≡ b' ') × OnlySpaces rest

  OnlySpaces-of :
      (t : Text) → any (λ c. is_separator qt c && not (c == b' ')) t ≡ false → OnlySpaces t
  unfolding any
  OnlySpaces-of [] h = tt
  OnlySpaces-of (x ∷ rest) h = (λ e. ground arith, OnlySpaces-of rest (ground arith))

  abbrev without_space : Text → Text
  without_space t = chop_if (λ c. c == b' ') t

  space_is_separator : QtLaws qt → is_separator qt b' ' ≡ true
  space_is_separator laws = rw laws.space refl

  alone :
      QtLaws qt
      → (x : ℕ) → (is_separator qt x ≡ true → x ≡ b' ')
      → Spaced qt (if x == b' ' then [] else x ∷ [])
  alone laws x o = elim (Bool-cases (x == b' ')) [
    | inl e ↦ rw e tt
    | inr e ↦ rw e (elim (Bool-cases (is_separator qt x)) [
      | inl f ↦ let g = o f in absurd (ground arith)
      | inr f ↦ f
    ])
  ]

  not_space : QtLaws qt → (x : ℕ) → is_separator qt x ≡ false → (x == b' ') ≡ false
  not_space laws x h = elim (Bool-cases (x == b' ')) [
    | inl e ↦
        let f : x ≡ b' ' = ground arith in
        let g : is_separator qt b' ' ≡ false = subst (λ y. is_separator qt y ≡ false) f h in
        cc (g, space_is_separator laws)
    | inr e ↦ e
  ]

  behind_word :
      QtLaws qt
      → (x y : ℕ) (w : Text) → (is_separator qt x ≡ true → is_separator qt y ≡ false)
      → Spaced qt (without_space (y ∷ w))
      → Spaced qt (x ∷ without_space (y ∷ w))
  unfolding chop_if
  behind_word laws x y [] h ih = elim (Bool-cases (y == b' ')) [
    | inl e ↦ rw e (elim (Bool-cases (is_separator qt x)) [
      | inl f ↦ let g = not_space laws y (h f) in cc (e, g)
      | inr f ↦ f
    ])
    | inr e ↦ rw e (h, subst (λ b. Spaced qt (if b then [] else y ∷ [])) e ih)
  ]
  behind_word laws x y (z ∷ rest) h ih = (h, ih)

  chopped-Spaced :
      QtLaws qt
      → (p : ℕ → Bool) (t : Text) → Spaced qt t
      → OnlySpaces t
      → Spaced qt (without_space (chop_if p t))
  unfolding chop_if
  chopped-Spaced laws p [] h o = tt
  chopped-Spaced laws p (x ∷ []) h o = elim (Bool-cases (p x)) [
    | inl e ↦ rw e tt
    | inr e ↦ rw e (alone laws x o.0)
  ]
  chopped-Spaced laws p (x ∷ y ∷ []) h o = elim (Bool-cases (p y)) [
    | inl e ↦ rw e (alone laws x o.0)
    | inr e ↦ rw e (behind_word laws x y [] h.0 (alone laws y o.1.0))
  ]
  chopped-Spaced laws p (x ∷ y ∷ z ∷ rest) h o =
      behind_word laws x y (chop_if p (z ∷ rest)) h.0 (chopped-Spaced laws p (y ∷ z ∷ rest) h.1 o.1)

  -- The end of a text without a separator there.
  Spaced-last : (t : Text) → Spaced qt t → EndsSolid qt t
  Spaced-last [] h = inl refl
  Spaced-last (x ∷ []) h = inr ([], x, refl, ground arith)
  Spaced-last (x ∷ y ∷ rest) h = elim (Spaced-last (y ∷ rest) h.1) [
    | inl e ↦ cc
    | inr (w, z, e, f) ↦ inr (x ∷ w, z, ap (λ t. x ∷ t) e, f)
  ]

  -- A message is empty, or it ends with no white space.
  pub sanitize_protocol_text-EndsSolid :
      QtLaws qt → (t : Text) → EndsSolid qt (sanitize_protocol_text qt t)
  unfolding sanitize_protocol_text
  sanitize_protocol_text-EndsSolid laws t =
      let kept = sanitize_loop qt [] false t in
      Spaced-last (without_space (chop_if is_high_surrogate kept)) (
        chopped-Spaced laws is_high_surrogate kept
          (sanitize_loop_keeps qt (Spaced qt) (λ k c p h e f. Spaced-grown k c p h e) t [] false tt)
          (OnlySpaces-of kept (loop-IsOneLine qt t).no_stray))

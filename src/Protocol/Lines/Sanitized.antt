-- ===== src/Protocol/Lines/Sanitized.antt =====
-- core/restore_protocol.cpp, sanitizeProtocolText(): what holds of every message.
use usb_restoration_tool.Text.{Text, is_empty}
use usb_restoration_tool.Qt.{Qt}
use usb_restoration_tool.Protocol.Lines.{
  max_protocol_text_length, is_separator, sanitize_loop, chop_if, is_high_surrogate,
  sanitize_protocol_text,
}
use usb_restoration_tool.Prelude.{
  ℕ, ◌+◌, ◌≤◌, ◌≡◌, refl, Bool, true, false, not, ◌&&◌, [], ◌∷◌, ◌++◌, any, arith, ltb, ◌==◌,
  if◌then◌else◌, length, length-append,
}

-- Neither a separator other than the space nor a text past the limit.
abbrev is_stray : Qt → ℕ → Bool
is_stray qt c = is_separator qt c && not (c == b' ')

pub record IsOneLine (qt : Qt) (text : Text) : Type 0 where
  pub short : length text ≤ max_protocol_text_length
  pub no_stray : any (λ c. is_separator qt c && not (c == b' ')) text ≡ false

any-append :
    (p : ℕ → Bool) (xs ys : Text) → any p xs ≡ false → any p ys ≡ false → any p (xs ++ ys) ≡ false
unfolding any
any-append p [] ys h k = k
any-append p (x ∷ xs) ys h k = ground (arith, any-append p xs ys)

grown :
    (qt : Qt) (kept : Text) (c : ℕ) (pending : Bool)
    → IsOneLine qt kept
    → is_separator qt c ≡ false
    → ltb max_protocol_text_length (length kept + (if pending then 2 else 1)) ≡ false
    → IsOneLine qt (kept ++ (if pending then b' ' ∷ c ∷ [] else c ∷ []))
unfolding any
grown qt kept c true h s l = record {
  short = rw (length-append kept (b' ' ∷ c ∷ [])) (ground arith);
  no_stray = any-append (is_stray qt) kept (b' ' ∷ c ∷ []) h.no_stray (ground arith);
}
grown qt kept c false h s l = record {
  short = rw (length-append kept (c ∷ [])) (ground arith);
  no_stray = any-append (is_stray qt) kept (c ∷ []) h.no_stray (ground arith);
}

-- The three ways that one pass of the loop can go.
abbrev pass : Qt → ℕ → Text → Bool → Text → Bool → Bool → Text
pass qt c kept pending rest separator full = elim separator [
  | true ↦ sanitize_loop qt kept (not (is_empty kept)) rest
  | false ↦ elim full [
    | true ↦ kept
    | false ↦ sanitize_loop qt (kept ++ (if pending then b' ' ∷ c ∷ [] else c ∷ [])) false rest
  ]
]

-- What the text has at the start, and keeps as it grows, it has at the end.
module _ (qt : Qt) (P : Text → Type 0)
    (grows : (kept : Text) (c : ℕ) (pending : Bool)
      → P kept
      → is_separator qt c ≡ false
      → ltb max_protocol_text_length (length kept + (if pending then 2 else 1)) ≡ false
      → P (kept ++ (if pending then b' ' ∷ c ∷ [] else c ∷ []))) where
  pass_keeps :
      (c : ℕ) (kept : Text) (pending : Bool) (rest : Text)
      → P kept
      → ((more : Text) (p : Bool) → P more → P (sanitize_loop qt more p rest))
      → (separator full : Bool) → is_separator qt c ≡ separator
      → ltb max_protocol_text_length (length kept + (if pending then 2 else 1)) ≡ full
      → P (pass qt c kept pending rest separator full)
  pass_keeps c kept pending rest h next true full e f = next kept (not (is_empty kept)) h
  pass_keeps c kept pending rest h next false true e f = h
  pass_keeps c kept pending rest h next false false e f =
      next (kept ++ (if pending then b' ' ∷ c ∷ [] else c ∷ [])) false (grows kept c pending h e f)

  pub sanitize_loop_keeps :
      (text kept : Text) (pending : Bool) → P kept → P (sanitize_loop qt kept pending text)
  unfolding sanitize_loop
  sanitize_loop_keeps [] kept pending h = h
  sanitize_loop_keeps (c ∷ rest) kept pending h =
      pass_keeps c kept pending rest h (λ more p k. sanitize_loop_keeps rest more p k)
        (is_separator qt c)
        (ltb max_protocol_text_length (length kept + (if pending then 2 else 1))) refl refl

chop_if-length : (p : ℕ → Bool) (t : Text) → length (chop_if p t) ≤ length t
unfolding chop_if
chop_if-length p [] = omega arith
chop_if-length p (x ∷ []) = ground arith
chop_if-length p (x ∷ y ∷ rest) = let h = chop_if-length p (y ∷ rest) in ground arith

chop_if-any : (p q : ℕ → Bool) (t : Text) → any q t ≡ false → any q (chop_if p t) ≡ false
unfolding chop_if any
chop_if-any p q [] h = refl
chop_if-any p q (x ∷ []) h = ground arith
chop_if-any p q (x ∷ y ∷ rest) h = ground (arith, chop_if-any p q (y ∷ rest))

chop_if-IsOneLine :
    (qt : Qt) (p : ℕ → Bool) (t : Text) → IsOneLine qt t → IsOneLine qt (chop_if p t)
chop_if-IsOneLine qt p t h = record {
  short = let l = chop_if-length p t in let s = h.short in omega arith;
  no_stray = chop_if-any p (is_stray qt) t h.no_stray;
}

nothing-IsOneLine : (qt : Qt) → IsOneLine qt []
unfolding any
nothing-IsOneLine qt = record { short = omega arith; no_stray = refl }

pub loop-IsOneLine : (qt : Qt) (text : Text) → IsOneLine qt (sanitize_loop qt [] false text)
loop-IsOneLine qt text =
    sanitize_loop_keeps qt (IsOneLine qt) (grown qt) text [] false (nothing-IsOneLine qt)

-- Whatever a formatter or the kernel wrote, a message holds no separator other than the space, so
-- it is one line, and it is no longer than the limit.
pub sanitize_protocol_text-IsOneLine :
    (qt : Qt) (text : Text) → IsOneLine qt (sanitize_protocol_text qt text)
unfolding sanitize_protocol_text
sanitize_protocol_text-IsOneLine qt text =
    chop_if-IsOneLine qt (λ c. c == b' ')
      (chop_if is_high_surrogate (sanitize_loop qt [] false text))
      (chop_if-IsOneLine qt is_high_surrogate (sanitize_loop qt [] false text)
        (loop-IsOneLine qt text))

-- ===== src/Protocol/Messages/Sent.antt =====
-- core/restore_protocol.cpp: the application reads the lines that the helper writes.
use usb_restoration_tool.Text.{Text, text}
use usb_restoration_tool.Qt.{Qt, QtLaws, trimmed}
use usb_restoration_tool.Protocol.Decimal.{number}
use usb_restoration_tool.Protocol.Lines.{sanitize_protocol_text}
use usb_restoration_tool.Protocol.Lines.Spaced.{EndsSolid, sanitize_protocol_text-EndsSolid}
use usb_restoration_tool.Protocol.Messages.{
  no_line, detail_line, failure_line, result_line, behind, encode_detail_line, encode_failure_line,
  encode_result_line, parse_keyword, parse_protocol_line,
}
use usb_restoration_tool.Protocol.Messages.Fields.{
  Lacks, before-append, before-Lacks, behind-append, behind-Lacks, number_last,
}
use usb_restoration_tool.Protocol.Messages.Trimmed.{trimmed_solid, trimmed_space}
use usb_restoration_tool.Prelude.{
  ℕ, ◌+◌, ◌^◌, ◌<◌, ◌≡◌, refl, sym, ap, ◌∙◌, subst, inl, inr, false, Option, some, [], ◌∷◌, ◌++◌,
  any, append_assoc, arith, ℤ, pos,
}

-- QString::toInt() reads the digits of a number that an `int` holds.
pub record ReadsNumbers (to_int : Text → Option ℤ) : Type 0 where
  pub reads : (n : ℕ) → n < 2 ^ 31 → to_int (number n) ≡ some (pos n)

-- A text that ends, with no white space there.
abbrev pub Solid : Qt → Text → Type 0
Solid qt t = (w : Text) × (y : ℕ) × (t ≡ w ++ y ∷ []) × (qt.is_space y ≡ false)

pub Solid-append : (qt : Qt) (xs t : Text) → Solid qt t → Solid qt (xs ++ t)
Solid-append qt xs t (w, y, e, f) =
    (xs ++ w, y, ap (λ u. xs ++ u) e ∙ sym (append_assoc xs w (y ∷ [])), f)

pub number-Solid : (qt : Qt) (n : ℕ) → QtLaws qt → Solid qt (number n)
number-Solid qt n laws =
    let (w, d, l, e) = number_last n in
    (w, b'0' + d, e, laws.printable (b'0' + d) (omega arith) (omega arith))

module _ (qt : Qt) where
  pub line_solid :
      (x : ℕ) (k w : Text) (y : ℕ)
      → qt.is_space x ≡ false
      → qt.is_space y ≡ false
      → trimmed qt ((x ∷ k) ++ b' ' ∷ (w ++ y ∷ [])) ≡ (x ∷ k) ++ b' ' ∷ (w ++ y ∷ [])
  line_solid x k w y h h' =
      subst (λ t. trimmed qt (x ∷ t) ≡ x ∷ t) (append_assoc k (b' ' ∷ w) (y ∷ []))
        (trimmed_solid qt x (k ++ b' ' ∷ w) y h h')

  pub line_empty :
      (x : ℕ) (w : Text) (y : ℕ)
      → QtLaws qt
      → qt.is_space x ≡ false
      → qt.is_space y ≡ false
      → trimmed qt ((x ∷ (w ++ y ∷ [])) ++ b' ' ∷ []) ≡ x ∷ (w ++ y ∷ [])
  line_empty x w y laws h h' =
      subst (λ t. trimmed qt (x ∷ t) ≡ x ∷ (w ++ y ∷ []))
        (sym (append_assoc w (y ∷ []) (b' ' ∷ []))) (trimmed_space qt x w y laws h h')

  module _ (to_int : Text → Option ℤ) where
    pub parse_behind :
        (line : Text) (x : ℕ) (k m : Text)
        → trimmed qt line ≡ (x ∷ k) ++ b' ' ∷ m
        → Lacks b' ' (x ∷ k)
        → parse_protocol_line qt to_int line ≡ parse_keyword to_int (x ∷ k) m
    unfolding parse_protocol_line
    parse_behind line x k m e h = rw e (
        ap (λ w. parse_keyword to_int w (behind b' ' ((x ∷ k) ++ b' ' ∷ m)))
          (before-append b' ' (x ∷ k) m h)
        ∙ ap (parse_keyword to_int (x ∷ k)) (behind-append b' ' (x ∷ k) m h))

    parse_alone :
        (line : Text) (x : ℕ) (k : Text)
        → trimmed qt line ≡ x ∷ k
        → Lacks b' ' (x ∷ k)
        → parse_protocol_line qt to_int line ≡ parse_keyword to_int (x ∷ k) []
    unfolding parse_protocol_line
    parse_alone line x k e h = rw e (
        ap (λ w. parse_keyword to_int w (behind b' ' (x ∷ k))) (before-Lacks b' ' (x ∷ k) h)
        ∙ ap (parse_keyword to_int (x ∷ k)) (behind-Lacks b' ' (x ∷ k) h))

    -- A keyword and what follows it.
    pub parse_line :
        (x : ℕ) (w : Text) (y : ℕ) (m : Text)
        → QtLaws qt
        → qt.is_space x ≡ false
        → qt.is_space y ≡ false
        → Lacks b' ' (x ∷ (w ++ y ∷ []))
        → EndsSolid qt m
        → parse_protocol_line qt to_int ((x ∷ (w ++ y ∷ [])) ++ b' ' ∷ m)
          ≡ parse_keyword to_int (x ∷ (w ++ y ∷ [])) m
    parse_line x w y m laws h h' l (inl e) = rw e (
        parse_alone ((x ∷ (w ++ y ∷ [])) ++ b' ' ∷ []) x (w ++ y ∷ []) (line_empty x w y laws h h')
          l)
    parse_line x w y m laws h h' l (inr (v, z, e, f)) = rw e (
        parse_behind ((x ∷ (w ++ y ∷ [])) ++ b' ' ∷ (v ++ z ∷ [])) x (w ++ y ∷ []) (v ++ z ∷ [])
          (line_solid x (w ++ y ∷ []) v z h f) l)

    -- The text of a detail, of a failure and of a result comes back as the helper cleaned it.
    pub parse-encode_text_line :
        (message : Text)
        → QtLaws qt
        → let s = sanitize_protocol_text qt message in
          (parse_protocol_line qt to_int (encode_detail_line qt message)
            ≡ record no_line { kind = detail_line; text = s })
          × (parse_protocol_line qt to_int (encode_failure_line qt message)
              ≡ record no_line { kind = failure_line; text = s })
          × (parse_protocol_line qt to_int (encode_result_line qt message)
              ≡ record no_line { kind = result_line; text = s })
    unfolding encode_detail_line encode_failure_line encode_result_line parse_keyword any
    parse-encode_text_line message laws =
        let s = sanitize_protocol_text qt message in
        let solid = sanitize_protocol_text-EndsSolid qt laws message in
        (
          parse_line b'd' (text "etai") b'l' s laws
              (laws.printable b'd' (omega arith) (omega arith))
              (laws.printable b'l' (omega arith) (omega arith)) refl solid,
          parse_line b'f' (text "ailur") b'e' s laws
              (laws.printable b'f' (omega arith) (omega arith))
              (laws.printable b'e' (omega arith) (omega arith)) refl solid,
          parse_line b'r' (text "esul") b't' s laws
              (laws.printable b'r' (omega arith) (omega arith))
              (laws.printable b't' (omega arith) (omega arith)) refl solid,
        )

-- ===== src/Protocol/Messages/Steps.antt =====
-- core/restore_protocol.cpp: the application reads the steps that the helper reports.
use usb_restoration_tool.Text.{Text, text, is_empty, ne-is_empty}
use usb_restoration_tool.Qt.{Qt, QtLaws, trimmed}
use usb_restoration_tool.Protocol.Decimal.{number}
use usb_restoration_tool.Protocol.Lines.{sanitize_protocol_text}
use usb_restoration_tool.Protocol.Lines.Spaced.{EndsSolid, sanitize_protocol_text-EndsSolid}
use usb_restoration_tool.Protocol.Messages.{
  ProtocolLine, no_line, step_line, before, behind, split, encode_step_line, parse_step,
  parse_keyword, parse_protocol_line,
}
use usb_restoration_tool.Protocol.Messages.Fields.{
  Lacks, Lacks-append, before-append, before-Lacks, behind-append, behind-Lacks, split-append,
  split-Lacks, number-Lacks, append_ne,
}
use usb_restoration_tool.Protocol.Messages.Sent.{
  ReadsNumbers, Solid, Solid-append, number-Solid, line_empty, parse_behind, parse_line,
}
use usb_restoration_tool.Prelude.{
  ℕ, ◌^◌, ◌<◌, ◌≡◌, refl, sym, ap, ◌∙◌, inl, inr, false, Option, [], ◌∷◌, ◌++◌, any, append_assoc,
  arith, ℤ, pos,
}

module _ (qt : Qt) (to_int : Text → Option ℤ) (laws : QtLaws qt) (ints : ReadsNumbers to_int)
    (step total : ℕ) (small : step < 2 ^ 31) (small' : total < 2 ^ 31) where
  abbrev counts : Text
  counts = number step ++ b'/' ∷ number total

  counts-Lacks : Lacks b' ' counts
  unfolding any
  counts-Lacks =
      Lacks-append b' ' (number step) (b'/' ∷ number total) (number-Lacks b' ' step (omega arith))
        (number-Lacks b' ' total (omega arith))

  counts-split : split b'/' counts ≡ number step ∷ number total ∷ []
  counts-split =
      split-append b'/' (number step) (number total) (number-Lacks b'/' step (omega arith))
      ∙ ap (λ t. number step ∷ t)
          (split-Lacks b'/' (number total) (number-Lacks b'/' total (omega arith)))

  counts_ne : is_empty counts ≡ false
  counts_ne = ne-is_empty counts (append_ne (number step) b'/' (number total))

  abbrev step_read : Text → ProtocolLine
  step_read m = record no_line {
    kind = step_line;
    step = pos step;
    total_steps = pos total;
    text = m;
  }

  parse_step_of :
      (remainder m : Text)
      → before b' ' remainder ≡ counts
      → behind b' ' remainder ≡ m
      → parse_step to_int remainder ≡ step_read m
  unfolding parse_step
  parse_step_of remainder m e f =
      rw (e, f, counts_ne, counts-split, ints.reads step small, ints.reads total small') refl

  counts_sent : (m : Text) → number step ++ (b'/' ∷ (number total ++ b' ' ∷ m)) ≡ counts ++ b' ' ∷ m
  counts_sent m = sym (append_assoc (number step) (b'/' ∷ number total) (b' ' ∷ m))

  counts-Solid : Solid qt counts
  counts-Solid =
      Solid-append qt (number step) (b'/' ∷ number total)
        (Solid-append qt (b'/' ∷ []) (number total) (number-Solid qt total laws))

  -- The counts with nothing behind the space, which trimming takes away.
  parse_counts_alone :
      (w : Text) (y : ℕ)
      → counts ≡ w ++ y ∷ []
      → qt.is_space y ≡ false
      → parse_protocol_line qt to_int (text "step " ++ (counts ++ b' ' ∷ [])) ≡ step_read []
  unfolding parse_keyword any
  parse_counts_alone w y e f =
      let trim : trimmed qt (text "step " ++ (counts ++ b' ' ∷ [])) ≡ text "step " ++ counts =
        rw e (
          line_empty qt b's' (text "tep " ++ w) y laws
            (laws.printable b's' (omega arith) (omega arith)) f) in
      parse_behind qt to_int (text "step " ++ (counts ++ b' ' ∷ [])) b's' (text "tep") counts trim
        refl
      ∙ parse_step_of counts [] (before-Lacks b' ' counts counts-Lacks)
          (behind-Lacks b' ' counts counts-Lacks)

  parse_counts_with :
      (m : Text)
      → EndsSolid qt m
      → parse_protocol_line qt to_int (text "step " ++ (counts ++ b' ' ∷ m)) ≡ step_read m
  unfolding parse_keyword any
  parse_counts_with m (inl e) = let (w, y, f, g) = counts-Solid in rw e (parse_counts_alone w y f g)
  parse_counts_with m (inr solid) =
      parse_line qt to_int b's' (text "te") b'p' (counts ++ b' ' ∷ m) laws
        (laws.printable b's' (omega arith) (omega arith))
        (laws.printable b'p' (omega arith) (omega arith)) refl
        (inr (Solid-append qt counts (b' ' ∷ m) (Solid-append qt (b' ' ∷ []) m solid)))
      ∙ parse_step_of (counts ++ b' ' ∷ m) m (before-append b' ' counts m counts-Lacks)
          (behind-append b' ' counts m counts-Lacks)

  -- A step that the helper reports is read with its number, the number of steps and the message as
  -- the helper cleaned it, also where that is empty.
  pub parse-encode_step_line :
      (message : Text)
      → parse_protocol_line qt to_int (encode_step_line qt step total message) ≡ record no_line {
        kind = step_line;
        step = pos step;
        total_steps = pos total;
        text = sanitize_protocol_text qt message;
      }
  unfolding encode_step_line
  parse-encode_step_line message =
      let m = sanitize_protocol_text qt message in
      ap (λ t. parse_protocol_line qt to_int (text "step " ++ t)) (counts_sent m)
      ∙ parse_counts_with m (sanitize_protocol_text-EndsSolid qt laws message)

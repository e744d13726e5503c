-- ===== src/Protocol/Lines.antt =====
-- core/restore_protocol.cpp, sanitizeProtocolText(): the text of a message as one line.
pub mod Sanitized
pub mod Spaced
use usb_restoration_tool.Text.{Text, is_empty}
use usb_restoration_tool.Qt.{Qt}
use usb_restoration_tool.Prelude.{
  ℕ, ◌+◌, Bool, true, false, not, ◌&&◌, ◌||◌, [], ◌∷◌, ◌++◌, ltb, leb, ◌==◌, if◌then◌else◌, length,
}

abbrev pub max_protocol_text_length : ℕ
max_protocol_text_length = 2000

abbrev pub is_separator : Qt → ℕ → Bool
is_separator qt c = qt.is_space c || qt.is_control c

-- The loop, on the text kept so far and the space that is waiting.
unfoldable pub sanitize_loop : Qt → Text → Bool → Text → Text
unfolding is_empty
sanitize_loop qt kept pending [] = kept
sanitize_loop qt kept pending (c ∷ rest) = elim (is_separator qt c) [
  | true ↦ sanitize_loop qt kept (not (is_empty kept)) rest
  | false ↦ elim (ltb max_protocol_text_length (length kept + (if pending then 2 else 1))) [
    | true ↦ kept
    | false ↦ sanitize_loop qt (kept ++ (if pending then b' ' ∷ c ∷ [] else c ∷ [])) false rest
  ]
]

-- `chop(1)` where the last unit passes the test.
unfoldable pub chop_if : (ℕ → Bool) → Text → Text
chop_if p [] = []
chop_if p (x ∷ []) = if p x then [] else x ∷ []
chop_if p (x ∷ y ∷ rest) = x ∷ chop_if p (y ∷ rest)

abbrev pub is_high_surrogate : ℕ → Bool
is_high_surrogate c = leb 0xD800 c && ltb c 0xDC00

unfoldable pub sanitize_protocol_text : Qt → Text → Text
unfolding sanitize_loop chop_if
sanitize_protocol_text qt text =
    chop_if (λ c. c == b' ') (chop_if is_high_surrogate (sanitize_loop qt [] false text))

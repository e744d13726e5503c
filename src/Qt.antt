-- ===== src/Qt.antt =====
-- What the source asks of Qt's Unicode tables and number parser. The functions are a parameter of
-- the definitions that use them; each law that a theorem needs is a field of `QtLaws`.
use mathlib.Core.List.{reverse}
use usb_restoration_tool.Text.{Text}
use usb_restoration_tool.Prelude.{ℕ, ◌<◌, ◌≡◌, ◌≢◌, Bool, true, false, [], ◌∷◌, if◌then◌else◌}

pub record Qt : Type 0 where
  -- QChar::isSpace, isLetter, isLetterOrNumber, isDigit, category() == Other_Control.
  pub is_space : ℕ → Bool
  pub is_letter : ℕ → Bool
  pub is_letter_or_number : ℕ → Bool
  pub is_digit : ℕ → Bool
  pub is_control : ℕ → Bool
  -- QString::toCaseFolded, toUpper.
  pub to_case_folded : Text → Text
  pub to_upper : Text → Text

unfoldable pub drop_while : (ℕ → Bool) → Text → Text
drop_while p [] = []
drop_while p (x ∷ xs) = if p x then drop_while p xs else x ∷ xs

-- QString::trimmed: white space, as `isSpace` has it, is removed from both ends.
unfoldable pub trimmed : Qt → Text → Text
unfolding drop_while
trimmed qt t = reverse (drop_while qt.is_space (reverse (drop_while qt.is_space t)))

-- What Qt documents of the ASCII characters, and that case folding leaves no text empty.
pub record QtLaws (qt : Qt) : Type 0 where
  pub space : qt.is_space b' ' ≡ true
  pub printable : (c : ℕ) → b' ' < c → c < 0x7F → qt.is_space c ≡ false
  pub folds : (t : Text) → t ≢ [] → qt.to_case_folded t ≢ []

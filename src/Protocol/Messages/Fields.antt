-- ===== src/Protocol/Messages/Fields.antt =====
-- core/restore_protocol.cpp, parseProtocolLine(): the fields of a line, taken apart again.
use usb_restoration_tool.Text.{Text}
use usb_restoration_tool.Protocol.Decimal.{number, digits_of}
use usb_restoration_tool.Protocol.Messages.{before, behind, split, split_non_empty}
use usb_restoration_tool.Prelude.{
  ℕ, zero, suc, ◌+◌, ◌/◌, ◌%◌, ◌<◌, ◌≡◌, refl, sym, ◌∙◌, ◌≢◌, inl, inr, false, [], ◌∷◌, ◌++◌, any,
  arith, ltb, ◌==◌, Bool-cases,
}

abbrev pub Lacks : ℕ → Text → Type 0
Lacks c t = any (λ x. x == c) t ≡ false

pub Lacks-append : (c : ℕ) (xs ys : Text) → Lacks c xs → Lacks c ys → Lacks c (xs ++ ys)
unfolding any
Lacks-append c [] ys h k = k
Lacks-append c (x ∷ xs) ys h k = ground (arith, Lacks-append c xs ys)

module _ (c : ℕ) where
  pub before-append : (w r : Text) → Lacks c w → before c (w ++ c ∷ r) ≡ w
  unfolding before any
  before-append [] r h = ground arith
  before-append (x ∷ xs) r h = ground (arith, before-append xs r)

  pub before-Lacks : (w : Text) → Lacks c w → before c w ≡ w
  unfolding before any
  before-Lacks [] h = refl
  before-Lacks (x ∷ xs) h = ground (arith, before-Lacks xs)

  pub behind-append : (w r : Text) → Lacks c w → behind c (w ++ c ∷ r) ≡ r
  unfolding behind any
  behind-append [] r h = ground arith
  behind-append (x ∷ xs) r h = ground (arith, behind-append xs r)

  pub behind-Lacks : (w : Text) → Lacks c w → behind c w ≡ []
  unfolding behind any
  behind-Lacks [] h = refl
  behind-Lacks (x ∷ xs) h = ground (arith, behind-Lacks xs)

  pub split-append : (w r : Text) → Lacks c w → split c (w ++ c ∷ r) ≡ w ∷ split c r
  unfolding split any
  split-append [] r h = ground arith
  split-append (x ∷ xs) r h = ground (arith, split-append xs r)

  pub split-Lacks : (w : Text) → Lacks c w → split c w ≡ w ∷ []
  unfolding split any
  split-Lacks [] h = refl
  split-Lacks (x ∷ xs) h = ground (arith, split-Lacks xs)

  pub split_non_empty-append :
      (w r : Text) → w ≢ [] → Lacks c w → split_non_empty c (w ++ c ∷ r) ≡ w ∷ split_non_empty c r
  unfolding split_non_empty
  split_non_empty-append [] r ne h = absurd (ne refl)
  split_non_empty-append (x ∷ w) r ne h = rw (split-append (x ∷ w) r h) refl

  pub split_non_empty-Lacks : (w : Text) → w ≢ [] → Lacks c w → split_non_empty c w ≡ w ∷ []
  unfolding split_non_empty
  split_non_empty-Lacks [] ne h = absurd (ne refl)
  split_non_empty-Lacks (x ∷ w) ne h = rw (split-Lacks (x ∷ w) h) refl

digits_of-Lacks : (c fuel n : ℕ) → c < b'0' → Lacks c (digits_of fuel n)
unfolding digits_of any
digits_of-Lacks c zero n h = refl
digits_of-Lacks c (suc fuel) n h = elim (Bool-cases (ltb n 10)) [
  | inl small ↦ rw small (ground arith)
  | inr large ↦ rw large (
      Lacks-append c (digits_of fuel (n / 10)) ((b'0' + n % 10) ∷ [])
        (digits_of-Lacks c fuel (n / 10) h) (ground arith))
]

-- A number has digits alone.
pub number-Lacks : (c n : ℕ) → c < b'0' → Lacks c (number n)
unfolding number
number-Lacks c n h = digits_of-Lacks c (suc n) n h

-- A text that ends with a digit, and stays so with a digit in front.
pub number_last : (n : ℕ) → (w : Text) × (d : ℕ) × (d < 10) × (number n ≡ w ++ (b'0' + d) ∷ [])
unfolding number digits_of
number_last n = elim (Bool-cases (ltb n 10)) [
  | inl small ↦ ([], n, ground arith, rw small refl)
  | inr large ↦ (digits_of n (n / 10), n % 10, omega arith, rw large refl)
]

pub append_ne : (w : Text) (y : ℕ) (r : Text) → w ++ y ∷ r ≢ []
append_ne [] y r e = cc
append_ne (x ∷ w) y r e = cc

pub number_ne : (n : ℕ) → number n ≢ []
number_ne n e = let (w, d, l, f) = number_last n in append_ne w (b'0' + d) [] (sym f ∙ e)

-- ===== src/Protocol/Decimal.antt =====
-- core/restore_protocol.cpp, parseDecimal(), and the digits that QString::number() writes.
use usb_restoration_tool.Text.{Text}
use usb_restoration_tool.Prelude.{
  ℕ, zero, suc, ◌+◌, ◌-◌, ◌*◌, ◌/◌, ◌%◌, ◌≤◌, ◌<◌, ◌≡◌, refl, sym, ap, ◌∙◌, ◌≢◌, inl, inr, ◌||◌,
  Option, none, some, [], ◌∷◌, ◌++◌, arith, ltb, if◌then◌else◌, ltb→lt, Bool-cases, Option-cases,
}

-- One pass of the loop: a digit behind the number so far.
unfoldable pub decimal_step : ℕ → ℕ → ℕ → Option ℕ
decimal_step maximum result code =
    if ltb code b'0' || ltb b'9' code
    then none
    else if ltb ((maximum - (code - b'0')) / 10) result
    then none
    else some (result * 10 + (code - b'0'))

unfoldable pub decimal_loop : ℕ → ℕ → Text → Option ℕ
decimal_loop maximum result [] = some result
decimal_loop maximum result (code ∷ rest) = elim (decimal_step maximum result code) [
  | none ↦ none
  | some next ↦ decimal_loop maximum next rest
]

-- `none` is the result false.
unfoldable pub parse_decimal : Text → ℕ → Option ℕ
unfolding decimal_loop
parse_decimal [] maximum = none
parse_decimal (code ∷ rest) maximum = decimal_loop maximum 0 (code ∷ rest)

-- QString::number(n), with fuel above n.
unfoldable pub digits_of : ℕ → ℕ → Text
digits_of zero n = []
digits_of (suc fuel) n =
    let front = digits_of fuel (n / 10) in
    if ltb n 10 then (b'0' + n) ∷ [] else front ++ (b'0' + n % 10) ∷ []

unfoldable pub number : ℕ → Text
unfolding digits_of
number n = digits_of (suc n) n

module _ (maximum : ℕ) where
  loop_nil : (n : ℕ) → decimal_loop maximum n [] ≡ some n
  unfolding decimal_loop
  loop_nil n = refl

  loop_none :
      (result x : ℕ) (xs : Text)
      → decimal_step maximum result x ≡ none
      → decimal_loop maximum result (x ∷ xs) ≡ none
  unfolding decimal_loop
  loop_none result x xs e = ground arith

  loop_some :
      (result x n : ℕ) (xs : Text)
      → decimal_step maximum result x ≡ some n
      → decimal_loop maximum result (x ∷ xs) ≡ decimal_loop maximum n xs
  unfolding decimal_loop
  loop_some result x n xs e = ground arith

  decimal_loop-snoc :
      (xs : Text) (result code r : ℕ)
      → decimal_loop maximum result xs ≡ some r
      → decimal_loop maximum result (xs ++ code ∷ []) ≡ decimal_step maximum r code
  unfolding decimal_loop
  decimal_loop-snoc [] result code r h = ground arith
  decimal_loop-snoc (x ∷ xs) result code r h = elim (Option-cases (decimal_step maximum result x)) [
    | inl e ↦ cc (loop_none result x xs e)
    | inr (n, e) ↦
        loop_some result x n (xs ++ code ∷ []) e
        ∙ decimal_loop-snoc xs n code r (sym (loop_some result x n xs e) ∙ h)
  ]

  -- The value stays in bounds, from digit to digit.
  decimal_step-le :
      (result code n : ℕ) → 9 ≤ maximum → decimal_step maximum result code ≡ some n → n ≤ maximum
  unfolding decimal_step
  decimal_step-le result code n nine h = ground arith

  decimal_loop-le :
      (xs : Text) (result n : ℕ)
      → 9 ≤ maximum
      → result ≤ maximum
      → decimal_loop maximum result xs ≡ some n
      → n ≤ maximum
  unfolding decimal_loop
  decimal_loop-le [] result n nine le h = ground arith
  decimal_loop-le (x ∷ xs) result n nine le h =
      elim (Option-cases (decimal_step maximum result x)) [
        | inl e ↦ cc (loop_none result x xs e)
        | inr (m, e) ↦
            decimal_loop-le xs m n nine (decimal_step-le result x m nine e)
              (sym (loop_some result x m xs e) ∙ h)
      ]

  decimal_digit :
      (r d : ℕ)
      → d < 10
      → r * 10 + d ≤ maximum
      → decimal_step maximum r (b'0' + d) ≡ some (r * 10 + d)
  unfolding decimal_step
  decimal_digit r d h le = ground arith

  loop_digits :
      (fuel n : ℕ) → n < fuel → n ≤ maximum → decimal_loop maximum 0 (digits_of fuel n) ≡ some n
  unfolding digits_of
  loop_digits zero n h le = elim h [ ]
  loop_digits (suc fuel) n h le = elim (Bool-cases (ltb n 10)) [
    | inl small ↦ rw small (
        loop_some 0 (b'0' + n) n []
          (decimal_digit 0 n (ltb→lt n 10 small) (omega arith) ∙ ap some (omega arith))
        ∙ loop_nil n)
    | inr large ↦ rw large (
        decimal_loop-snoc (digits_of fuel (n / 10)) 0 (b'0' + n % 10) (n / 10)
          (loop_digits fuel (n / 10) (ground arith) (omega arith))
        ∙ decimal_digit (n / 10) (n % 10) (omega arith) (omega arith)
        ∙ ap some (omega arith))
  ]

-- What is parsed is in bounds, where those leave room for one digit.
pub parse_decimal-le :
    (t : Text) (maximum n : ℕ) → 9 ≤ maximum → parse_decimal t maximum ≡ some n → n ≤ maximum
unfolding parse_decimal
parse_decimal-le [] maximum n nine h = cc
parse_decimal-le (x ∷ xs) maximum n nine h =
    decimal_loop-le maximum (x ∷ xs) 0 n nine (omega arith) h

snoc_ne : (xs : Text) (x : ℕ) → xs ++ x ∷ [] ≢ []
snoc_ne [] x e = cc
snoc_ne (y ∷ ys) x e = cc

digits_ne : (fuel n : ℕ) → n < fuel → digits_of fuel n ≢ []
unfolding digits_of
digits_ne zero n h = elim h [ ]
digits_ne (suc fuel) n h = elim (Bool-cases (ltb n 10)) [
  | inl small ↦ rw small (λ e. cc)
  | inr large ↦ rw large (snoc_ne (digits_of fuel (n / 10)) (b'0' + n % 10))
]

parse_of_loop :
    (t : Text) (maximum n : ℕ)
    → t ≢ []
    → decimal_loop maximum 0 t ≡ some n
    → parse_decimal t maximum ≡ some n
unfolding parse_decimal
parse_of_loop [] maximum n ne h = absurd (ne refl)
parse_of_loop (x ∷ xs) maximum n ne h = h

-- The digits of a number in bounds are read back as the number.
pub parse-number : (n maximum : ℕ) → n ≤ maximum → parse_decimal (number n) maximum ≡ some n
unfolding number
parse-number n maximum le =
    parse_of_loop (digits_of (suc n) n) maximum n (digits_ne (suc n) n (omega arith))
      (loop_digits maximum (suc n) n (omega arith) le)

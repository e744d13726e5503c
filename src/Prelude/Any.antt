-- ===== src/Prelude/Any.antt =====
-- A `for` loop that returns true at the first item that passes a test.
use mathlib.Core.Bool.{Bool, true, false, ◌||◌}
use mathlib.Core.List.{List, [], ◌∷◌, Memᴰ}
use mathlib.Core.Logic.{◌↔◌, ◌⊎◌, inl, inr}
use mathlib.Core.Path.{◌≡◌, refl, sym, ap, ◌∙◌}
use native.Mathlib.Omega.{arith}
use usb_restoration_tool.Prelude.Tests.{Bool-cases}

module _ {ℓ} {A : Type ℓ} (p : A → Bool) where
  unfoldable pub any : List A → Bool
  any [] = false
  any (x ∷ xs) = p x || any xs

  pub any-Memᴰ : (xs : List A) → any xs ≡ true → (x : A) × Memᴰ x xs × (p x ≡ true)
  unfolding any
  any-Memᴰ [] h = cc
  any-Memᴰ (x ∷ xs) h = elim (Bool-cases (p x)) [
    | inl e ↦ (x, Memᴰ.head refl, e)
    | inr e ↦ let (y, m, q) = any-Memᴰ xs (ground arith) in (y, Memᴰ.tail m, q)
  ]

  pub Memᴰ-any : {x : A} (xs : List A) → Memᴰ x xs → p x ≡ true → any xs ≡ true
  unfolding any
  Memᴰ-any [] m h = elim m [ ]
  Memᴰ-any (y ∷ ys) (Memᴰ.head e) h = let h' : p y ≡ true = ap p (sym e) ∙ h in rw h'
  Memᴰ-any (y ∷ ys) (Memᴰ.tail m) h = ground (arith, Memᴰ-any ys m h)

  -- No item passes.
  pub any-false : (xs : List A) → (any xs ≡ false) ↔ ((x : A) → Memᴰ x xs → p x ≡ false)
  any-false xs = (
    λ h x m. elim (Bool-cases (p x)) [
      | inl e ↦ let t : any xs ≡ true = Memᴰ-any xs m e in cc
      | inr e ↦ e
    ],
    λ h. elim (Bool-cases (any xs)) [
      | inl e ↦ let (x, m, q) = any-Memᴰ xs e in let f : p x ≡ false = h x m in cc
      | inr e ↦ e
    ],
  )

pub Memᴰ-cases {ℓ} : {A : Type ℓ} (x y : A) (xs : List A) → Memᴰ x (y ∷ xs) → (x ≡ y) ⊎ Memᴰ x xs
Memᴰ-cases x y xs (Memᴰ.head e) = inl e
Memᴰ-cases x y xs (Memᴰ.tail h) = inr h

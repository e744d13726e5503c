-- ===== src/Text.antt =====
-- QString as the list of its UTF-16 code units, QStringList as a list of those. The operations on
-- positions and lengths stand here; what Qt decides by Unicode tables is the parameter of Qt.antt.
use Prim.Native.Char.{code}
use Prim.Native.String.{String}
use usb_restoration_tool.Prelude.{
  ℕ, ◌≡◌, refl, ◌≢◌, Bool, true, false, ◌&&◌, ◌||◌, List, [], ◌∷◌, ◌++◌, arith, ◌==◌,
}

abbrev pub Text : Type 0
Text = List ℕ

-- A literal of the source; all of them are ASCII.
abbrev pub text : String → Text
text String.[] = []
text (String.◌∷◌ c s) = code c ∷ text s

unfoldable pub text_eq : Text → Text → Bool
text_eq [] [] = true
text_eq [] (y ∷ ys) = false
text_eq (x ∷ xs) [] = false
text_eq (x ∷ xs) (y ∷ ys) = x == y && text_eq xs ys

unfoldable pub is_empty {ℓ} : {A : Type ℓ} → List A → Bool
is_empty [] = true
is_empty (x ∷ xs) = false

-- QString::startsWith.
unfoldable pub starts_with : Text → Text → Bool
starts_with xs [] = true
starts_with [] (p ∷ ps) = false
starts_with (x ∷ xs) (p ∷ ps) = x == p && starts_with xs ps

-- QStringList::contains.
unfoldable pub contains : List Text → Text → Bool
contains [] t = false
contains (x ∷ xs) t = text_eq x t || contains xs t

pub text_eq-eq : (s t : Text) → text_eq s t ≡ true → s ≡ t
unfolding text_eq
text_eq-eq [] [] h = refl
text_eq-eq [] (y ∷ ys) h = cc
text_eq-eq (x ∷ xs) [] h = cc
text_eq-eq (x ∷ xs) (y ∷ ys) h = ground (arith, text_eq-eq xs ys)

pub text_eq_refl : (s : Text) → text_eq s s ≡ true
unfolding text_eq
text_eq_refl [] = refl
text_eq_refl (x ∷ xs) = ground (arith, text_eq_refl xs)

pub text_eq-ne : (s t : Text) → text_eq s t ≡ false → s ≢ t
text_eq-ne s t h e = let h' : text_eq t t ≡ false = rw e at h in cc (text_eq_refl t, h')

pub starts_with-append : (p r : Text) → starts_with (p ++ r) p ≡ true
unfolding starts_with
starts_with-append [] r = refl
starts_with-append (x ∷ xs) r = ground (arith, starts_with-append xs r)

pub starts_with-prefix : (s p : Text) → starts_with s p ≡ true → (r : Text) × (s ≡ p ++ r)
unfolding starts_with
starts_with-prefix s [] h = (s, refl)
starts_with-prefix [] (p ∷ ps) h = cc
starts_with-prefix (x ∷ xs) (p ∷ ps) h =
    let (r, e) = starts_with-prefix xs ps (ground arith) in (r, ground arith)

pub is_empty-ne {ℓ} : {A : Type ℓ} (t : List A) → is_empty t ≡ false → t ≢ []
unfolding is_empty
is_empty-ne [] h = cc
is_empty-ne (x ∷ xs) h = λ e. cc

pub ne-is_empty {ℓ} : {A : Type ℓ} (t : List A) → t ≢ [] → is_empty t ≡ false
unfolding is_empty
ne-is_empty [] h = absurd (h refl)
ne-is_empty (x ∷ xs) h = refl

pub is_empty-eq {ℓ} : {A : Type ℓ} (t : List A) → is_empty t ≡ true → t ≡ []
unfolding is_empty
is_empty-eq [] h = refl
is_empty-eq (x ∷ xs) h = cc

-- ===== src/Linux/Sysfs/Escapes.antt =====
-- linux/sysfs.cpp, unescapeMountField(): a mount point comes back as the kernel had it.
use usb_restoration_tool.Text.{Text}
use usb_restoration_tool.Protocol.Messages.{split}
use usb_restoration_tool.Protocol.Messages.Fields.{Lacks, split-Lacks}
use usb_restoration_tool.Linux.Sysfs.{unescape_mount_field, unescaped}
use usb_restoration_tool.Prelude.{
  ℕ, ◌+◌, ◌/◌, ◌%◌, ◌<◌, ◌≡◌, refl, ap, ◌∙◌, inl, inr, Bool, true, false, ◌||◌, Option, some, [],
  ◌∷◌, ◌++◌, any, arith, ◌==◌, if◌then◌else◌, Bool-cases,
}

-- The characters that the kernel escapes in mountinfo: space, tab, newline and backslash.
unfoldable pub is_escaped : ℕ → Bool
is_escaped c = (c == b' ' || c == 9) || (c == 10 || c == b'\\')

abbrev pub octal_digits : ℕ → Text
octal_digits c = (b'0' + c / 64) ∷ (b'0' + c / 8 % 8) ∷ (b'0' + c % 8) ∷ []

-- The field as the kernel writes it.
unfoldable pub mount_field : Text → Text
unfolding is_escaped
mount_field [] = []
mount_field (c ∷ cs) =
    let rest = mount_field cs in if is_escaped c then b'\\' ∷ (octal_digits c ++ rest) else c ∷ rest

-- QString::toInt() reads three octal digits.
pub record ReadsOctal (octal : Text → Option ℕ) : Type 0 where
  pub reads : (c : ℕ) → c < 512 → octal (octal_digits c) ≡ some c

module _ (octal : Text → Option ℕ) where
  plain :
      (c : ℕ) (rest : Text)
      → (c == b'\\') ≡ false
      → unescape_mount_field octal (c ∷ rest) ≡ c ∷ unescape_mount_field octal rest
  unfolding unescape_mount_field
  plain c [] h = refl
  plain c (x ∷ []) h = refl
  plain c (x ∷ y ∷ []) h = refl
  plain c (x ∷ y ∷ z ∷ rest) h = ground arith

  escape :
      (c : ℕ) (rest : Text)
      → ReadsOctal octal
      → c < 512
      → unescape_mount_field octal (b'\\' ∷ (octal_digits c ++ rest))
        ≡ c ∷ unescape_mount_field octal rest
  unfolding unescape_mount_field
  escape c rest r h =
      ap
        (λ o.
          unescaped o b'\\' (unescape_mount_field octal (octal_digits c ++ rest))
            (unescape_mount_field octal rest))
        (r.reads c h)

  unescape_field : (t : Text) → ReadsOctal octal → unescape_mount_field octal (mount_field t) ≡ t
  unfolding mount_field
  unescape_field [] r = unfold unescape_mount_field in refl
  unescape_field (c ∷ cs) r = elim (Bool-cases (is_escaped c)) [
    | inl e ↦ rw e (
        escape c (mount_field cs) r (unfold is_escaped in ground arith)
        ∙ ap (λ t. c ∷ t) (unescape_field cs r))
    | inr e ↦ rw e (
        plain c (mount_field cs) (unfold is_escaped in ground arith)
        ∙ ap (λ t. c ∷ t) (unescape_field cs r))
  ]

-- No escape has a space or a newline in it.
field-Lacks : (c : ℕ) (t : Text) → is_escaped c ≡ true → c < b'0' → Lacks c (mount_field t)
unfolding mount_field any
field-Lacks c [] h low = refl
field-Lacks c (x ∷ xs) h low =
    let rest = field-Lacks c xs h low in
    elim (Bool-cases (is_escaped x)) [
      | inl e ↦ rw e (ground arith)
      | inr e ↦ rw e (unfold is_escaped in ground arith)
    ]

-- A mount point stands in its line of mountinfo as one field, and is read as the kernel had it:
-- whatever is in it, the field that the kernel writes has no space and no newline to be cut at, and
-- the escapes of space, tab, newline and backslash are undone, where toInt() reads three octal
-- digits.
pub unescape-mount_field :
    (octal : Text → Option ℕ) (t : Text)
    → ReadsOctal octal
    → (unescape_mount_field octal (mount_field t) ≡ t)
      × (split b' ' (mount_field t) ≡ mount_field t ∷ [])
      × (split b'\n' (mount_field t) ≡ mount_field t ∷ [])
unescape-mount_field octal t r = (
  unescape_field octal t r,
  split-Lacks b' ' (mount_field t) (field-Lacks b' ' t (unfold is_escaped in refl) (omega arith)),
  split-Lacks b'\n' (mount_field t) (field-Lacks b'\n' t (unfold is_escaped in refl) (omega arith)),
)

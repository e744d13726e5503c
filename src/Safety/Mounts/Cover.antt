-- ===== src/Safety/Mounts/Cover.antt =====
-- core/safety.cpp, isProtectedMountPoint(): which mount points the loop protects.
use usb_restoration_tool.Text.{
  Text, text_eq, starts_with, text_eq-eq, text_eq_refl, starts_with-append, starts_with-prefix,
  is_empty-ne, ne-is_empty,
}
use usb_restoration_tool.Qt.{Qt}
use usb_restoration_tool.Safety.Mounts.{
  looks_like_drive_letter, normalized_mount_point, directory_prefix, is_guarded_by,
  is_protected_mount_point,
}
use usb_restoration_tool.Prelude.{
  ◌≡◌, ◌≢◌, ◌↔◌, ◌⊎◌, inl, inr, Bool, true, false, List, [], ◌++◌, Memᴰ, any, any-Memᴰ, Memᴰ-any,
  arith, Bool-cases,
}

-- A mount point is the guarded one, or a directory that holds it.
abbrev pub Covers : Qt → Text → Text → Type 0
Covers qt candidate guarded =
    (candidate ≡ guarded)
    ⊎ ((looks_like_drive_letter qt candidate ≡ false)
        × (looks_like_drive_letter qt guarded ≡ false)
        × (below : Text) × (guarded ≡ directory_prefix candidate ++ below))

is_guarded_by-Covers :
    (qt : Qt) (c g : Text) → is_guarded_by qt c g ≡ true → (g ≢ []) × Covers qt c g
unfolding is_guarded_by
is_guarded_by-Covers qt c g h = (
  is_empty-ne g (ground arith),
  elim (Bool-cases (text_eq c g)) [
    | inl same ↦ inl (text_eq-eq c g same)
    | inr other ↦
        let (below, e) = starts_with-prefix g (directory_prefix c) (ground arith) in
        inr (ground arith, ground arith, below, e)
  ],
)

Covers-is_guarded_by : (qt : Qt) (c g : Text) → g ≢ [] → Covers qt c g → is_guarded_by qt c g ≡ true
unfolding is_guarded_by
Covers-is_guarded_by qt c g h (inl e) =
    let same : text_eq c g ≡ true = rw e (text_eq_refl g) in ground (arith, ne-is_empty g h)
Covers-is_guarded_by qt c g h (inr (d, k, below, e)) =
    let above : starts_with g (directory_prefix c) ≡ true =
      rw e (starts_with-append (directory_prefix c) below) in
    ground (arith, ne-is_empty g h)

abbrev guards : Qt → Text → Text → Bool
guards qt c entry = is_guarded_by qt c (normalized_mount_point qt entry)

-- A mount point is protected exactly when its normal form is not empty and, for some entry of the
-- list whose normal form is not empty, is that normal form or a directory above it; a drive letter
-- is never above anything.
pub is_protected_mount_point_iff :
    (qt : Qt) (mount_point : Text) (protected : List Text)
    → (is_protected_mount_point qt mount_point protected ≡ true) ↔ (
        (normalized_mount_point qt mount_point ≢ [])
        × (p : Text) × Memᴰ p protected
        × (normalized_mount_point qt p ≢ [])
        × Covers qt (normalized_mount_point qt mount_point) (normalized_mount_point qt p))
unfolding is_protected_mount_point any
is_protected_mount_point_iff qt m ps =
    let c = normalized_mount_point qt m in
    (
      λ h.
          let (p, mem, g) = any-Memᴰ (guards qt c) ps (ground arith) in
          let (n, cover) = is_guarded_by-Covers qt c (normalized_mount_point qt p) g in
          (is_empty-ne c (ground arith), p, mem, n, cover),
      λ (n, p, mem, g, cover). ground (
        arith,
        ne-is_empty c n,
        Memᴰ-any (guards qt c) ps mem
            (Covers-is_guarded_by qt c (normalized_mount_point qt p) g cover),
      ),
    )

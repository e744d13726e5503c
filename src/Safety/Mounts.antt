-- ===== src/Safety/Mounts.antt =====
-- core/safety.cpp: mount points in a normal form, and the mount points that must not be touched.
pub mod Cover
use mathlib.Core.List.{reverse}
use usb_restoration_tool.Text.{Text, text_eq, is_empty, starts_with}
use usb_restoration_tool.Qt.{Qt, trimmed}
use usb_restoration_tool.Prelude.{
  ℕ, Bool, false, not, ◌&&◌, ◌||◌, List, [], ◌∷◌, ◌++◌, any, ◌==◌, if◌then◌else◌, take,
}

unfoldable pub looks_like_drive_letter : Qt → Text → Bool
looks_like_drive_letter qt [] = false
looks_like_drive_letter qt (c ∷ []) = qt.is_letter c
looks_like_drive_letter qt (c ∷ d ∷ rest) = d == b':'

abbrev slash : ℕ
slash = b'/'

-- QString::replace, of each backslash by a slash.
unfoldable pub forward_slashes : Text → Text
forward_slashes [] = []
forward_slashes (c ∷ cs) = (if c == 0x5C then slash else c) ∷ forward_slashes cs

-- `while (mount.size() > 1 && mount.endsWith('/')) mount.chop(1)`, on the text read backwards.
unfoldable pub chop_slashes : Text → Text
chop_slashes [] = []
chop_slashes (c ∷ []) = c ∷ []
chop_slashes (c ∷ d ∷ rest) = if c == slash then chop_slashes (d ∷ rest) else c ∷ d ∷ rest

unfoldable pub normalized_mount_point : Qt → Text → Text
unfolding is_empty
normalized_mount_point qt value =
    let mount = trimmed qt value in
    if is_empty mount
    then []
    else if looks_like_drive_letter qt mount
    then qt.to_upper (take 1 mount)
    else reverse (chop_slashes (reverse (forward_slashes mount)))

-- A directory and the slash that ends its name; the root has one already.
unfoldable pub directory_prefix : Text → Text
unfolding text_eq
directory_prefix candidate =
    if text_eq candidate (slash ∷ []) then candidate else candidate ++ slash ∷ []

-- The body of the loop over the protected mount points, for one entry in its normal form.
unfoldable pub is_guarded_by : Qt → Text → Text → Bool
unfolding is_empty
is_guarded_by qt candidate guarded =
    not (is_empty guarded)
    && (text_eq candidate guarded
        || (not (looks_like_drive_letter qt candidate)
            && (not (looks_like_drive_letter qt guarded)
                && starts_with guarded (directory_prefix candidate))))

unfoldable pub is_protected_mount_point : Qt → Text → List Text → Bool
unfolding is_empty any
is_protected_mount_point qt mount_point protected_mount_points =
    let candidate = normalized_mount_point qt mount_point in
    not (is_empty candidate)
    && any (λ entry. is_guarded_by qt candidate (normalized_mount_point qt entry))
        protected_mount_points

-- ===== src/Safety/Target.antt =====
-- core/safety.cpp: whether a disk may be erased, and whether it is the disk that was selected.
pub mod Safe
pub mod Same
use usb_restoration_tool.Text.{Text, text_eq, is_empty}
use usb_restoration_tool.Qt.{Qt, trimmed}
use usb_restoration_tool.Disk.{DiskInfo, usb_bus_type}
use usb_restoration_tool.Safety.Sectors.{is_supported_sector_size}
use usb_restoration_tool.Safety.Layout.{calculate_gpt_layout}
use usb_restoration_tool.Safety.Mounts.{is_protected_mount_point}
use usb_restoration_tool.Prelude.{
  ℕ, ◌*◌, Bool, true, false, not, ◌&&◌, ◌||◌, Option, none, some, List, any, ltb, leb, ◌==◌,
  if◌then◌else◌, length,
}

pub record RestoreGuard : Type 0 where
  pub mount_points : List Text
  pub device_ids : List Text

abbrev pub minimum_restore_target_bytes : ℕ
minimum_restore_target_bytes = 8 * 1024 * 1024

abbrev pub large_restore_target_bytes : ℕ
large_restore_target_bytes = 128 * 1024 * 1024 * 1024

unfoldable pub normalized_identity : Qt → Text → Text
normalized_identity qt value = qt.to_case_folded (trimmed qt value)

unfoldable pub both_known_and_different : Qt → Text → Text → Bool
unfolding is_empty text_eq
both_known_and_different qt left right =
    let a = normalized_identity qt left in
    let b = normalized_identity qt right in
    not (is_empty a) && (not (is_empty b) && not (text_eq a b))

unfoldable pub both_known_and_equal : Qt → Text → Text → Bool
unfolding is_empty text_eq
both_known_and_equal qt left right =
    let a = normalized_identity qt left in
    let b = normalized_identity qt right in not (is_empty a) && (not (is_empty b) && text_eq a b)

unfoldable pub contains_protected_mount_point : Qt → DiskInfo → RestoreGuard → Bool
unfolding any
contains_protected_mount_point qt disk guard =
    any (λ m. is_protected_mount_point qt m guard.mount_points) disk.mount_points

-- The loop over the guard's devices.
unfoldable pub is_protected_device : Qt → DiskInfo → RestoreGuard → Bool
unfolding any
is_protected_device qt disk guard = any (both_known_and_equal qt disk.device_id) guard.device_ids

unfoldable pub shown_name : DiskInfo → Text
unfolding is_empty
shown_name disk = if is_empty disk.display_id then disk.device_id else disk.display_id

-- The refusals of `isSafeRestoreTarget`, with what their texts name.
pub data SafetyRefusal : Type 0 where
  no_device_path : SafetyRefusal
  wrong_bus : Text → ℕ → SafetyRefusal
  system_depends_on_it : Text → SafetyRefusal
  boot_or_system_disk : Text → SafetyRefusal
  holds_protected_location : Text → SafetyRefusal
  offline : Text → SafetyRefusal
  read_only : Text → SafetyRefusal
  no_usable_media : Text → SafetyRefusal
  too_small : Text → ℕ → SafetyRefusal
  odd_sector_size : Text → ℕ → SafetyRefusal
  no_safe_layout : Text → SafetyRefusal

-- `none` is the result true.
unfoldable pub is_safe_restore_target : Qt → DiskInfo → RestoreGuard → Option SafetyRefusal
unfolding is_empty
is_safe_restore_target qt disk guard =
    let name = shown_name disk in
    if is_empty (trimmed qt disk.device_id)
    then some no_device_path
    else if not (disk.bus_type == usb_bus_type)
    then some (wrong_bus name disk.bus_type)
    else if is_protected_device qt disk guard
    then some (system_depends_on_it name)
    else if disk.is_boot || disk.is_system
    then some (boot_or_system_disk name)
    else if contains_protected_mount_point qt disk guard
    then some (holds_protected_location name)
    else if disk.is_offline
    then some (offline name)
    else if disk.is_read_only
    then some (read_only name)
    else if disk.size == 0
    then some (no_usable_media name)
    else if ltb disk.size minimum_restore_target_bytes
    then some (too_small name disk.size)
    else if not (is_supported_sector_size disk.sector_size)
    then some (odd_sector_size name disk.sector_size)
    else if (calculate_gpt_layout disk.size disk.sector_size).length == 0
    then some (no_safe_layout name)
    else none

-- Sequence number 0 is never taken for an identity.
unfoldable pub is_same_device_sequence : Option ℕ → Option ℕ → Bool
is_same_device_sequence none current = false
is_same_device_sequence (some e) none = false
is_same_device_sequence (some e) (some c) = not (e == 0) && e == c

-- What a disk no longer reports as it did.
pub data SameRefusal : Type 0 where
  moved : Text → Text → SameRefusal
  other_size : SameRefusal
  other_instance : SameRefusal
  other_sector_size : SameRefusal
  other_serial_number : SameRefusal
  other_unique_id : SameRefusal
  other_path : SameRefusal
  other_name : SameRefusal

abbrev pub is_some {ℓ} : {A : Type ℓ} → Option A → Bool
is_some none = false
is_some (some a) = true

-- The tests of the identifiers that either side may lack.
unfoldable pub known_identifiers : Qt → DiskInfo → DiskInfo → Option SameRefusal
known_identifiers qt selected current =
    if both_known_and_different qt selected.serial_number current.serial_number
    then some other_serial_number
    else if both_known_and_different qt selected.unique_id current.unique_id
    then some other_unique_id
    else if both_known_and_different qt selected.path current.path
    then some other_path
    else if both_known_and_different qt selected.name current.name
    then some other_name
    else none

unfoldable pub is_same_restore_target : Qt → DiskInfo → DiskInfo → Option SameRefusal
unfolding text_eq
is_same_restore_target qt selected current =
    if not (
      text_eq (normalized_identity qt selected.device_id)
        (normalized_identity qt current.device_id))
    then some (moved selected.device_id current.device_id)
    else if not (selected.size == current.size)
    then some other_size
    else if is_some selected.device_sequence
        && not (is_same_device_sequence selected.device_sequence current.device_sequence)
    then some other_instance
    else if not (selected.sector_size == 0)
        && (not (current.sector_size == 0) && not (selected.sector_size == current.sector_size))
    then some other_sector_size
    else known_identifiers qt selected current

unfoldable pub is_large_restore_target : DiskInfo → Bool
is_large_restore_target disk = leb large_restore_target_bytes disk.size

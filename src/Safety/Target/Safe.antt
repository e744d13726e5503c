-- ===== src/Safety/Target/Safe.antt =====
-- core/safety.cpp, isSafeRestoreTarget(): the disks that it accepts.
use usb_restoration_tool.Text.{Text, text_eq, is_empty-ne, ne-is_empty, text_eq-eq, text_eq_refl}
use usb_restoration_tool.Qt.{Qt, trimmed}
use usb_restoration_tool.Disk.{DiskInfo, usb_bus_type}
use usb_restoration_tool.Safety.Sectors.{is_supported_sector_size}
use usb_restoration_tool.Safety.Layout.{calculate_gpt_layout}
use usb_restoration_tool.Safety.Layout.Bounds.{calculate_gpt_layout_none, backup_bytes-le}
use usb_restoration_tool.Safety.Mounts.{is_protected_mount_point}
use usb_restoration_tool.Safety.Target.{
  RestoreGuard, normalized_identity, both_known_and_equal, contains_protected_mount_point,
  is_protected_device, is_safe_restore_target, no_safe_layout, minimum_restore_target_bytes,
}
use usb_restoration_tool.Prelude.{
  ◌≤◌, ◌≡◌, sym, ◌∙◌, ◌≢◌, ◌↔◌, inl, inr, true, false, none, some, [], Memᴰ, any-false, arith,
  Bool-cases,
}

pub record IsSafe (qt : Qt) (disk : DiskInfo) (guard : RestoreGuard) : Type 0 where
  pub has_path : trimmed qt disk.device_id ≢ []
  pub on_usb : disk.bus_type ≡ usb_bus_type
  pub no_protected_device :
      (d : Text)
      → Memᴰ d guard.device_ids
      → normalized_identity qt d ≢ []
      → normalized_identity qt disk.device_id ≢ normalized_identity qt d
  pub no_protected_mount :
      (m : Text)
      → Memᴰ m disk.mount_points
      → is_protected_mount_point qt m guard.mount_points ≡ false
  pub not_boot : disk.is_boot ≡ false
  pub not_system : disk.is_system ≡ false
  pub not_offline : disk.is_offline ≡ false
  pub not_read_only : disk.is_read_only ≡ false
  pub large_enough : minimum_restore_target_bytes ≤ disk.size
  pub sectors : is_supported_sector_size disk.sector_size ≡ true

both_known_and_equal_iff :
    (qt : Qt) (a b : Text)
    → (both_known_and_equal qt a b ≡ false)
      ↔ (normalized_identity qt b ≢ [] → normalized_identity qt a ≢ normalized_identity qt b)
unfolding both_known_and_equal
both_known_and_equal_iff qt a b =
    let x = normalized_identity qt a in
    let y = normalized_identity qt b in
    (
      λ h n e.
          let same : text_eq x y ≡ true = rw e (text_eq_refl y) in
          let nx : x ≢ [] = λ z. n (sym e ∙ z) in ground (arith, ne-is_empty y n, ne-is_empty x nx),
      λ h. elim (Bool-cases (both_known_and_equal qt a b)) [
        | inl t ↦ absurd (h (is_empty-ne y (ground arith)) (text_eq-eq x y (ground arith)))
        | inr f ↦ f
      ],
    )

-- The name of the guard's refusal, in `IsSafe`'s words.
not_protected_device_iff :
    (qt : Qt) (disk : DiskInfo) (guard : RestoreGuard)
    → (is_protected_device qt disk guard ≡ false) ↔ (
        (d : Text)
        → Memᴰ d guard.device_ids
        → normalized_identity qt d ≢ []
        → normalized_identity qt disk.device_id ≢ normalized_identity qt d)
unfolding is_protected_device
not_protected_device_iff qt disk guard =
    let p = both_known_and_equal qt disk.device_id in
    (
      λ h d m.
          (both_known_and_equal_iff qt disk.device_id d).0 ((any-false p guard.device_ids).0 h d m),
      λ h.
          (any-false p guard.device_ids).1
            (λ d m. (both_known_and_equal_iff qt disk.device_id d).1 (h d m)),
    )

not_protected_mount_iff :
    (qt : Qt) (disk : DiskInfo) (guard : RestoreGuard)
    → (contains_protected_mount_point qt disk guard ≡ false) ↔ (
        (m : Text)
        → Memᴰ m disk.mount_points
        → is_protected_mount_point qt m guard.mount_points ≡ false)
unfolding contains_protected_mount_point
not_protected_mount_iff qt disk guard =
    any-false (λ m. is_protected_mount_point qt m guard.mount_points) disk.mount_points

-- The smallest disk that is accepted has room for a partition at every sector size.
large_enough-layout :
    (disk : DiskInfo)
    → minimum_restore_target_bytes ≤ disk.size
    → (calculate_gpt_layout disk.size disk.sector_size).length ≢ 0
large_enough-layout disk h e = omega (
  arith,
  (calculate_gpt_layout_none disk.size disk.sector_size).0 e,
  backup_bytes-le disk.sector_size,
)

accepts :
    (qt : Qt) (disk : DiskInfo) (guard : RestoreGuard)
    → IsSafe qt disk guard
    → is_safe_restore_target qt disk guard ≡ none
unfolding is_safe_restore_target
accepts qt disk guard safe = ground (
  arith,
  ne-is_empty (trimmed qt disk.device_id) safe.has_path,
  (not_protected_device_iff qt disk guard).1 safe.no_protected_device,
  (not_protected_mount_iff qt disk guard).1 safe.no_protected_mount,
  large_enough-layout disk safe.large_enough,
)

only_accepts :
    (qt : Qt) (disk : DiskInfo) (guard : RestoreGuard)
    → is_safe_restore_target qt disk guard ≡ none
    → IsSafe qt disk guard
unfolding is_safe_restore_target
only_accepts qt disk guard h = record {
  has_path = is_empty-ne (trimmed qt disk.device_id) (ground arith);
  on_usb = ground arith;
  no_protected_device = (not_protected_device_iff qt disk guard).0 (ground arith);
  no_protected_mount = (not_protected_mount_iff qt disk guard).0 (ground arith);
  not_boot = ground arith;
  not_system = ground arith;
  not_offline = ground arith;
  not_read_only = ground arith;
  large_enough = ground arith;
  sectors = ground arith;
}

-- A disk is accepted exactly when it has a device path, is on the USB bus, is none of the guard's
-- devices, is neither a boot nor a system disk, holds no protected mount point, is online and
-- writable, reports at least 8 MiB, and has sectors of a supported size.
pub is_safe_restore_target-IsSafe :
    (qt : Qt) (disk : DiskInfo) (guard : RestoreGuard)
    → (is_safe_restore_target qt disk guard ≡ none) ↔ IsSafe qt disk guard
is_safe_restore_target-IsSafe qt disk guard = (only_accepts qt disk guard, accepts qt disk guard)

-- The last test never refuses: a disk that reaches it always has room for a partition.
pub no_safe_layout_never :
    (qt : Qt) (disk : DiskInfo) (guard : RestoreGuard) (name : Text)
    → is_safe_restore_target qt disk guard ≢ some (no_safe_layout name)
unfolding is_safe_restore_target
no_safe_layout_never qt disk guard name h = ground (arith, large_enough-layout disk)

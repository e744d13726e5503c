-- ===== src/Linux/Enumerate/Guarded.antt =====
-- linux/linux_enumerate.cpp: the guard and the mount points of a disk, put together with
-- isSafeRestoreTarget().
use usb_restoration_tool.Text.{Text, text, text_eq, text_eq-eq, starts_with, contains}
use usb_restoration_tool.Qt.{Qt, QtLaws, trimmed}
use usb_restoration_tool.Protocol.Messages.Trimmed.{trimmed_ne}
use usb_restoration_tool.Safety.Mounts.{is_protected_mount_point}
use usb_restoration_tool.Safety.Target.{is_safe_restore_target, normalized_identity}
use usb_restoration_tool.Safety.Target.Safe.{is_safe_restore_target-IsSafe}
use usb_restoration_tool.Linux.Identity.{DeviceNumber, same_number}
use usb_restoration_tool.Linux.Sysfs.{MountEntry, Files, device_numbers_on_disk, read_mounts}
use usb_restoration_tool.Linux.Enumerate.{
  Parsers, DiskDetails, protected_system_mounts, mount_points_of, disk_info_with_mounts,
  disk_info_for, device_path_for, guarded_device, guard_devices, linux_restore_guard,
}
use usb_restoration_tool.Prelude.{
  ◌≡◌, refl, sym, subst, ◌≢◌, inl, inr, Bool, true, false, not, ◌&&◌, none, List, [], ◌∷◌, ◌++◌,
  Memᴰ, any, arith, if◌then◌else◌, Bool-cases,
}

contains-Memᴰ : (xs : List Text) (t : Text) → contains xs t ≡ true → Memᴰ t xs
unfolding contains
contains-Memᴰ [] t h = cc
contains-Memᴰ (x ∷ xs) t h = elim (Bool-cases (text_eq x t)) [
  | inl e ↦ Memᴰ.head (sym (text_eq-eq x t e))
  | inr e ↦ Memᴰ.tail (contains-Memᴰ xs t (ground arith))
]

Memᴰ-front : {t : Text} (xs ys : List Text) → Memᴰ t xs → Memᴰ t (xs ++ ys)
Memᴰ-front [] ys m = elim m [ ]
Memᴰ-front (x ∷ xs) ys (Memᴰ.head e) = Memᴰ.head e
Memᴰ-front (x ∷ xs) ys (Memᴰ.tail m) = Memᴰ.tail (Memᴰ-front xs ys m)

Memᴰ-last : (xs : List Text) (t : Text) → Memᴰ t (xs ++ t ∷ [])
Memᴰ-last [] t = Memᴰ.head refl
Memᴰ-last (x ∷ xs) t = Memᴰ.tail (Memᴰ-last xs t)

-- A list that grows by a text where a test says so: what it had stays, and where the text is wanted
-- it is there.
abbrev added : Bool → List Text → Text → List Text
added wanted xs t = if wanted && not (contains xs t) then xs ++ t ∷ [] else xs

added-Memᴰ : (wanted : Bool) (xs : List Text) (t u : Text) → Memᴰ u xs → Memᴰ u (added wanted xs t)
added-Memᴰ wanted xs t u m = elim (Bool-cases (wanted && not (contains xs t))) [
  | inl e ↦ rw e (Memᴰ-front xs (t ∷ []) m)
  | inr e ↦ rw e m
]

added_wanted : (xs : List Text) (t : Text) → Memᴰ t (added true xs t)
added_wanted xs t = elim (Bool-cases (contains xs t)) [
  | inl e ↦ rw e (contains-Memᴰ xs t e)
  | inr e ↦ rw e (Memᴰ-last xs t)
]

module _ (owned : List DeviceNumber) where
  abbrev is_owned : MountEntry → Bool
  is_owned m = any (λ n. same_number n m.device) owned

  mount_points_keep :
      {place : Text} (ms : List MountEntry) (places : List Text)
      → Memᴰ place places
      → Memᴰ place (mount_points_of owned ms places)
  unfolding mount_points_of
  mount_points_keep [] places m = m
  mount_points_keep {place} (x ∷ xs) places m =
      mount_points_keep xs (added (is_owned x) places x.mount_point)
        (added-Memᴰ (is_owned x) places x.mount_point place m)

  mount_points_owned :
      {m : MountEntry} (ms : List MountEntry) (places : List Text)
      → Memᴰ m ms
      → is_owned m ≡ true
      → Memᴰ m.mount_point (mount_points_of owned ms places)
  unfolding mount_points_of
  mount_points_owned [] places h e = elim h [ ]
  mount_points_owned {m} (x ∷ xs) places (Memᴰ.head h) e =
      let e' : is_owned x ≡ true = subst (λ y. is_owned y ≡ true) h e in
      mount_points_keep xs (added (is_owned x) places x.mount_point) (
        subst (λ b. Memᴰ m.mount_point (added b places x.mount_point)) (sym e')
          (subst (λ y. Memᴰ y.mount_point (added true places x.mount_point)) (sym h)
            (added_wanted places x.mount_point)))
  mount_points_owned (x ∷ xs) places (Memᴰ.tail h) e =
      mount_points_owned xs (added (is_owned x) places x.mount_point) h e

module _ (qt : Qt) (files : Files) where
  abbrev needs_guard : MountEntry → Bool
  needs_guard m =
      is_protected_mount_point qt m.mount_point protected_system_mounts
      && starts_with m.source (text "/dev/")

  abbrev guarded_by : MountEntry → Text
  guarded_by m = guarded_device files m.source

  guard_devices_keep :
      {id : Text} (ms : List MountEntry) (ids : List Text)
      → Memᴰ id ids
      → Memᴰ id (guard_devices qt files ms ids)
  unfolding guard_devices
  guard_devices_keep [] ids m = m
  guard_devices_keep {id} (x ∷ xs) ids m =
      guard_devices_keep xs (added (needs_guard x) ids (guarded_by x))
        (added-Memᴰ (needs_guard x) ids (guarded_by x) id m)

  guard_devices_has :
      {m : MountEntry} (ms : List MountEntry) (ids : List Text)
      → Memᴰ m ms
      → needs_guard m ≡ true
      → Memᴰ (guarded_by m) (guard_devices qt files ms ids)
  unfolding guard_devices
  guard_devices_has [] ids h e = elim h [ ]
  guard_devices_has {m} (x ∷ xs) ids (Memᴰ.head h) e =
      let e' : needs_guard x ≡ true = subst (λ y. needs_guard y ≡ true) h e in
      guard_devices_keep xs (added (needs_guard x) ids (guarded_by x)) (
        subst (λ b. Memᴰ (guarded_by m) (added b ids (guarded_by x))) (sym e')
          (subst (λ y. Memᴰ (guarded_by y) (added true ids (guarded_by x))) (sym h)
            (added_wanted ids (guarded_by x))))
  guard_devices_has (x ∷ xs) ids (Memᴰ.tail h) e =
      guard_devices_has xs (added (needs_guard x) ids (guarded_by x)) h e

  -- The name of a device node is never the empty identity.
  device_path-ne : QtLaws qt → (name : Text) → normalized_identity qt (device_path_for name) ≢ []
  unfolding normalized_identity
  device_path-ne laws name =
      laws.folds (trimmed qt (device_path_for name))
        (trimmed_ne qt b'/' (text "dev/" ++ name) (laws.printable b'/' (omega arith) (omega arith)))

  -- Of a disk that may be restored, for each line of the mount table: where the line has a device
  -- number that sysfs gives for the disk or for one of its partitions, its place is not a protected
  -- one. And where its place is protected and its source starts with /dev/, the disk's node is not
  -- the one that linuxRestoreGuard() makes of the source, up to case and white space: /dev and the
  -- disk that sysfs has a partition of the source's file name on, or /dev and that file name itself
  -- where there is none. A source that the device mapper makes is not followed to the disk below it.
  pub linux_restore_guard-protects :
      QtLaws qt
      → (parsers : Parsers) (disk_name : Text) (details : DiskDetails) (m : MountEntry)
      → Memᴰ m (read_mounts qt files)
      → is_safe_restore_target qt
          (disk_info_for qt files parsers disk_name details)
          (linux_restore_guard qt files)
        ≡ none
      → (any (λ n. same_number n m.device) (device_numbers_on_disk qt files disk_name) ≡ true
          → is_protected_mount_point qt m.mount_point protected_system_mounts ≡ false)
        × (is_protected_mount_point qt m.mount_point protected_system_mounts ≡ true
            → starts_with m.source (text "/dev/") ≡ true
            → normalized_identity qt (device_path_for disk_name)
              ≢ normalized_identity qt (guarded_device files m.source))
  unfolding linux_restore_guard disk_info_for disk_info_with_mounts guarded_device
  linux_restore_guard-protects laws parsers disk_name details m listed h =
      let mounts = read_mounts qt files in
      let safe =
        (is_safe_restore_target-IsSafe qt (disk_info_for qt files parsers disk_name details)
            (linux_restore_guard qt files)).0
          h in
      (
        λ owns.
            safe.no_protected_mount m.mount_point (
              mount_points_owned (device_numbers_on_disk qt files disk_name) mounts [] listed owns),
        λ p d.
            safe.no_protected_device (guarded_by m)
              (guard_devices_has mounts [] listed (ground arith)) (device_path-ne laws _),
      )

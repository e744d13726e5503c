-- ===== src/Linux/Unmount.antt =====
-- linux/linux_restore.cpp, unmountDisk(): which mount points are released, and in which order.
pub mod Released
use usb_restoration_tool.Text.{Text}
use usb_restoration_tool.Qt.{Qt}
use usb_restoration_tool.Safety.Mounts.{is_protected_mount_point}
use usb_restoration_tool.Linux.Identity.{DeviceNumber, same_number}
use usb_restoration_tool.Linux.Sysfs.{MountEntry}
use usb_restoration_tool.Prelude.{
  ℕ, Bool, not, ◌||◌, List, [], ◌∷◌, any, ltb, ◌==◌, if◌then◌else◌, Result, ok, err, length,
}

-- `std::sort` by the length of the mount point, the longest first: each entry goes in front of the
-- first one that is not longer.
unfoldable pub insert_mount : MountEntry → List MountEntry → List MountEntry
insert_mount m [] = m ∷ []
insert_mount m (n ∷ rest) =
    let later = insert_mount m rest in
    if ltb (length m.mount_point) (length n.mount_point) then n ∷ later else m ∷ (n ∷ rest)

unfoldable pub deepest_first : List MountEntry → List MountEntry
unfolding insert_mount
deepest_first [] = []
deepest_first (m ∷ rest) = insert_mount m (deepest_first rest)

-- EINVAL and ENOENT: the mount is gone already.
abbrev pub is_gone : ℕ → Bool
is_gone errno = errno == 22 || errno == 2

-- Why a disk could not be released.
pub data UnmountError : Type 0 where
  needed_by_system : Text → UnmountError
  cannot_unmount : Text → ℕ → UnmountError

-- The mount points that umount2() was called for, in order, and how the loop ended.
pub record Unmounted : Type 0 where
  pub calls : List Text
  pub result : Result UnmountError (Unit {0})

abbrev pub called : Text → Unmounted → Unmounted
called place rest = record rest { calls = place ∷ rest.calls }

-- What follows a call, by the error that it gave; 0 is success.
abbrev pub after_call : Text → ℕ → Unmounted → Unmounted
after_call place errno rest =
    if errno == 0 || is_gone errno
    then called place rest
    else record { calls = place ∷ []; result = err (cannot_unmount place errno) }

-- The loop, over the sorted mounts. `umount` gives the error for a mount point.
unfoldable pub unmount_all :
    Qt → (DeviceNumber → Bool) → List Text → (Text → ℕ) → List MountEntry → Unmounted
unmount_all qt is_owned guarded umount [] = record { calls = []; result = ok tt }
unmount_all qt is_owned guarded umount (m ∷ rest) =
    let later = unmount_all qt is_owned guarded umount rest in
    if not (is_owned m.device)
    then later
    else if is_protected_mount_point qt m.mount_point guarded
    then record { calls = []; result = err (needed_by_system m.mount_point) }
    else after_call m.mount_point (umount m.mount_point) later

-- `owned` is deviceNumbersOnDisk(), `mounts` readMounts() and `guarded` protectedSystemMounts().
unfoldable pub unmount_disk :
    Qt → List DeviceNumber → List MountEntry → List Text → (Text → ℕ) → Unmounted
unfolding unmount_all deepest_first
unmount_disk qt owned mounts guarded umount =
    unmount_all qt (λ d. any (same_number d) owned) guarded umount (deepest_first mounts)

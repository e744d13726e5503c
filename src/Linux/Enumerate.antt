-- ===== src/Linux/Enumerate.antt =====
-- linux/linux_enumerate.cpp, and serialFromUsbByIdLink() of core/safety.cpp: the disks that the
-- kernel lists, and the locations and disks that the running system needs.
pub mod Guarded
use mathlib.Core.List.{reverse}
use usb_restoration_tool.Text.{Text, text, text_eq, is_empty, starts_with, contains}
use usb_restoration_tool.Qt.{Qt, trimmed}
use usb_restoration_tool.Disk.{DiskInfo, no_disk, PartitionStyle, unknown, mbr, gpt, usb_bus_type}
use usb_restoration_tool.Safety.Mounts.{is_protected_mount_point}
use usb_restoration_tool.Safety.Target.{RestoreGuard}
use usb_restoration_tool.Protocol.Messages.{split_non_empty}
use usb_restoration_tool.Linux.Identity.{DeviceNumber, same_number}
use usb_restoration_tool.Linux.Sysfs.{
  MountEntry, Files, sys_block, child, read_sysfs_attribute, list_partition_names,
  list_block_device_names, device_numbers_on_disk, read_mounts,
}
use usb_restoration_tool.Linux.Sysfs.Links.{
  is_usb_block_device, stable_device_id_link, label_for_partition, parent_disk_name, is_ascii_digit,
}
use usb_restoration_tool.Linux.Sysfs.Udev.{file_system_type_for_device, detect_partition_style}
use usb_restoration_tool.Prelude.{
  ℕ, ◌/◌, Bool, true, false, not, ◌&&◌, ◌||◌, Option, none, some, List, [], ◌∷◌, ◌++◌, map, any,
  ltb, ◌==◌, if◌then◌else◌, Result, ok, err, length, drop, mul64,
}

abbrev pub sysfs_sector_unit : ℕ
sysfs_sector_unit = 512

abbrev pub protected_system_mounts : List Text
protected_system_mounts =
    text "/"
    ∷ text "/boot"
    ∷ text "/boot/efi"
    ∷ text "/efi"
    ∷ text "/etc"
    ∷ text "/home"
    ∷ text "/nix"
    ∷ text "/opt"
    ∷ text "/srv"
    ∷ text "/usr"
    ∷ text "/var"
    ∷ []

abbrev pub device_path_for : Text → Text
device_path_for kernel_name = text "/dev/" ++ kernel_name

-- What enumeration asks of Qt besides Files: toULongLong(), `none` for no number, and contains()
-- with Qt::CaseInsensitive.
pub record Parsers : Type 0 where
  pub to_u64 : Text → Option ℕ
  pub contains_insensitive : Text → Text → Bool

unfoldable pub skip_digits : Text → Text
skip_digits [] = []
skip_digits (x ∷ xs) = let rest = skip_digits xs in if is_ascii_digit x then rest else x ∷ xs

-- One digit or more.
abbrev pub behind_digits : Text → Option Text
behind_digits [] = none
behind_digits (x ∷ xs) = if is_ascii_digit x then some (skip_digits xs) else none

abbrev pub behind_unit : ℕ → Option Text → Option Text
behind_unit c none = none
behind_unit c (some []) = none
behind_unit c (some (x ∷ xs)) = if x == c then some xs else none

abbrev pub digits_of_rest : Option Text → Option Text
digits_of_rest none = none
digits_of_rest (some t) = behind_digits t

abbrev pub reversed_or : Text → Option Text → Text
reversed_or t none = t
reversed_or t (some r) = reverse r

-- remove() of `-[0-9]+:[0-9]+$`, from the end of the text; a link has no newline in it.
unfoldable pub without_host_suffix : Text → Text
unfolding skip_digits
without_host_suffix t =
    reversed_or t (behind_unit b'-' (digits_of_rest (behind_unit b':' (behind_digits (reverse t)))))

abbrev pub last_text : List Text → Text
last_text [] = []
last_text (x ∷ []) = x
last_text (x ∷ y ∷ rest) = last_text (y ∷ rest)

unfoldable pub serial_from_usb_by_id_link : Parsers → Text → Text → Text
unfolding starts_with without_host_suffix is_empty
serial_from_usb_by_id_link parsers link product_name =
    let parts = split_non_empty b'_' (drop 4 (without_host_suffix link)) in
    let candidate = last_text parts in
    if not (starts_with link (text "usb-"))
    then []
    else if ltb (length parts) 3
    then []
    else if not (is_empty product_name) && parsers.contains_insensitive product_name candidate
    then []
    else candidate

abbrev pub style_number : PartitionStyle → ℕ
style_number unknown = 0
style_number mbr = 1
style_number gpt = 2

pub data DiskDetails : Type 0 where
  display_details restore_details : DiskDetails

-- append() of a text that is not empty and not there yet.
abbrev pub append_new : List Text → Text → List Text
append_new xs t = if not (is_empty t) && not (contains xs t) then xs ++ t ∷ [] else xs

unfoldable pub append_all_new : List Text → List Text → List Text
unfolding is_empty contains
append_all_new xs [] = xs
append_all_new xs (t ∷ ts) = append_all_new (append_new xs t) ts

-- The loop over the mounts of the disk.
unfoldable pub mount_points_of : List DeviceNumber → List MountEntry → List Text → List Text
unfolding contains any
mount_points_of owned [] places = places
mount_points_of owned (m ∷ ms) places = mount_points_of owned ms (
    if any (λ n. same_number n m.device) owned && not (contains places m.mount_point)
    then places ++ m.mount_point ∷ []
    else places)

abbrev pub or_zero : Option ℕ → ℕ
or_zero none = 0
or_zero (some n) = n

abbrev pub known_sequence : Option ℕ → Option ℕ
known_sequence none = none
known_sequence (some n) = if n == 0 then none else some n

abbrev pub is_display : DiskDetails → Bool
is_display display_details = true
is_display restore_details = false

-- The name, from the vendor and the model.
unfoldable pub disk_name_of : Qt → Text → Text → Text
unfolding is_empty
disk_name_of qt vendor model =
    let name = trimmed qt (vendor ++ (b' ' ∷ model)) in
    if is_empty name then text "USB disk" else name

unfoldable pub disk_info_with_mounts :
    Qt → Files → Parsers → Text → List MountEntry → DiskDetails → DiskInfo
disk_info_with_mounts qt files parsers disk_name mounts details =
    let sysfs = child sys_block disk_name in
    let read = λ (path : Text). read_sysfs_attribute qt files (child sysfs path) in
    let name = disk_name_of qt (read (text "device/vendor")) (read (text "device/model")) in
    let link = stable_device_id_link files disk_name in
    let size = mul64 (or_zero (parsers.to_u64 (read (text "size")))) sysfs_sector_unit in
    let reported = files.to_uint (read (text "queue/logical_block_size")) in
    let sector_size = if reported == 0 then 512 else reported in
    let partitions = list_partition_names files disk_name in
    let shown = is_display details in
    record no_disk {
      device_id = device_path_for disk_name;
      display_id = device_path_for disk_name;
      bus_type = if is_usb_block_device files disk_name then usb_bus_type else 0;
      name = name;
      unique_id = link;
      serial_number = serial_from_usb_by_id_link parsers link name;
      path = files.canonical sysfs;
      device_sequence = known_sequence (parsers.to_u64 (read (text "diskseq")));
      size = size;
      sector_size = sector_size;
      is_read_only = text_eq (read (text "ro")) (text "1");
      is_offline = size == 0;
      partition_style =
          if shown
          then style_number
              (detect_partition_style qt files (device_path_for disk_name) sector_size)
          else 0;
      labels = if shown then append_all_new [] (map (label_for_partition files) partitions) else [];
      file_systems =
          if shown
          then append_all_new [] (
              file_system_type_for_device qt files sysfs
              ∷ map (λ p. file_system_type_for_device qt files (child sysfs p)) partitions)
          else [];
      mount_points = mount_points_of (device_numbers_on_disk qt files disk_name) mounts [];
    }

unfoldable pub disk_info_for : Qt → Files → Parsers → Text → DiskDetails → DiskInfo
unfolding disk_info_with_mounts
disk_info_for qt files parsers disk_name details =
    disk_info_with_mounts qt files parsers disk_name (read_mounts qt files) details

abbrev pub usb_disks : Qt → Files → Parsers → List MountEntry → List Text → List DiskInfo
usb_disks qt files parsers mounts [] = []
usb_disks qt files parsers mounts (name ∷ names) =
    let rest = usb_disks qt files parsers mounts names in
    if is_usb_block_device files name
    then disk_info_with_mounts qt files parsers name mounts display_details ∷ rest
    else rest

-- `none` where /sys/block is missing.
unfoldable pub list_usb_disk_infos : Qt → Files → Parsers → Option (List DiskInfo)
unfolding is_empty
list_usb_disk_infos qt files parsers =
    let names = list_block_device_names files in
    if is_empty names && not (files.exists sys_block)
    then none
    else some (usb_disks qt files parsers (read_mounts qt files) names)

pub data RefreshError : Type 0 where
  not_present not_on_usb : RefreshError

unfoldable pub refresh_usb_disk :
    Qt → Files → Parsers → Text → DiskDetails → Result RefreshError DiskInfo
unfolding is_empty
refresh_usb_disk qt files parsers device_id details =
    let name = files.file_name device_id in
    if is_empty name || not (files.exists (child sys_block name))
    then err not_present
    else if not (is_usb_block_device files name)
    then err not_on_usb
    else ok (disk_info_for qt files parsers name details)

-- The disk behind a device node: the parent of a partition, or the node itself.
unfoldable pub guarded_device : Files → Text → Text
unfolding is_empty
guarded_device files source =
    let name = files.file_name source in
    let disk = parent_disk_name files name in device_path_for (if is_empty disk then name else disk)

-- The loop of linuxRestoreGuard().
unfoldable pub guard_devices : Qt → Files → List MountEntry → List Text → List Text
unfolding contains starts_with
guard_devices qt files [] ids = ids
guard_devices qt files (m ∷ ms) ids =
    let id = guarded_device files m.source in
    guard_devices qt files ms (
      if (is_protected_mount_point qt m.mount_point protected_system_mounts
          && starts_with m.source (text "/dev/"))
        && not (contains ids id)
      then ids ++ id ∷ []
      else ids)

unfoldable pub linux_restore_guard : Qt → Files → RestoreGuard
unfolding guard_devices
linux_restore_guard qt files = record {
  mount_points = protected_system_mounts;
  device_ids = guard_devices qt files (read_mounts qt files) [];
}

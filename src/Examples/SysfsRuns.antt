-- ===== src/Examples/SysfsRuns.antt =====
-- Runs of linux/sysfs.cpp and linux/linux_enumerate.cpp, and their theorems at concrete inputs.
use usb_restoration_tool.Examples.Data.{ascii, table_of}
use usb_restoration_tool.Examples.MessageRuns.{ascii-QtLaws}
use usb_restoration_tool.Text.{Text, text, text_eq, is_empty, contains, starts_with}
use usb_restoration_tool.Qt.{trimmed, drop_while}
use usb_restoration_tool.Disk.{gpt, mbr}
use usb_restoration_tool.PartitionTable.Build.{build_gpt_primary, build_mbr}
use usb_restoration_tool.PartitionTable.Mbr.{IsMbr}
use usb_restoration_tool.Protocol.Messages.{split, split_non_empty}
use usb_restoration_tool.Linux.Sysfs.{
  MountEntry, Files, unescape_mount_field, parse_device_number, read_sysfs_attribute,
  list_block_device_names, list_partition_names, is_excluded_device_name, read_device_number,
  device_numbers_on_disk, source_behind, parse_mount, parse_mounts, read_mounts,
}
use usb_restoration_tool.Linux.Sysfs.Links.{
  is_usb_block_device, first_link, link_to, stable_device_id_link, label_for_partition,
  first_parent, parent_disk_name, digits_to_end, find_system_executable, first_executable,
}
use usb_restoration_tool.Linux.Sysfs.Udev.{
  style_of_bytes, holds_text, trimmed_bytes, udev_value, udev_property, detect_partition_style,
  partition_style_from_udev_database, file_system_type_for_device,
}
use usb_restoration_tool.Linux.Sysfs.Escapes.{
  is_escaped, mount_field, ReadsOctal, unescape-mount_field,
}
use usb_restoration_tool.Protocol.Decimal.{
  parse_decimal, decimal_loop, decimal_step, number, digits_of,
}
use usb_restoration_tool.Safety.Sectors.{
  is_supported_sector_size, effective_sector_size, sector_or_default,
}
use usb_restoration_tool.Safety.Mounts.{
  is_protected_mount_point, normalized_mount_point, is_guarded_by, directory_prefix, chop_slashes,
  forward_slashes, looks_like_drive_letter,
}
use usb_restoration_tool.Safety.Layout.{calculate_gpt_layout, gpt_entry_array_sectors}
use usb_restoration_tool.Safety.Target.{
  is_safe_restore_target, normalized_identity, both_known_and_equal, is_protected_device,
  contains_protected_mount_point,
}
use usb_restoration_tool.Linux.Enumerate.{
  Parsers, restore_details, skip_digits, without_host_suffix, serial_from_usb_by_id_link,
  append_all_new, mount_points_of, disk_name_of, disk_info_with_mounts, disk_info_for,
  list_usb_disk_infos, refresh_usb_disk, guarded_device, guard_devices, linux_restore_guard,
  protected_system_mounts,
}
use usb_restoration_tool.Linux.Enumerate.Guarded.{linux_restore_guard-protects}
use usb_restoration_tool.Linux.Identity.{same_number}
use usb_restoration_tool.Linux.Sysfs.Detected.{style_of_bytes-written}
use usb_restoration_tool.Prelude.{
  ℕ, ◌+◌, ◌-◌, ◌*◌, ◌^◌, ◌≤◌, ◌<◌, ◌≡◌, refl, ◌≢◌, inl, true, false, ◌&&◌, ◌||◌, Option, none, some,
  [], ◌∷◌, ◌++◌, Memᴰ, any, arith, ltb, leb, if◌then◌else◌, drop,
}

sysfs_runs : Unit {0}
unfolding text_eq is_empty contains starts_with trimmed drop_while split split_non_empty any
    unescape_mount_field parse_device_number read_sysfs_attribute list_block_device_names
    list_partition_names is_excluded_device_name read_device_number device_numbers_on_disk
    source_behind parse_mount parse_mounts read_mounts is_usb_block_device first_link link_to
    stable_device_id_link label_for_partition first_parent parent_disk_name digits_to_end
    find_system_executable first_executable style_of_bytes holds_text trimmed_bytes udev_value
    udev_property detect_partition_style partition_style_from_udev_database
    file_system_type_for_device parse_decimal decimal_loop decimal_step skip_digits
    without_host_suffix serial_from_usb_by_id_link append_all_new mount_points_of disk_name_of
    disk_info_with_mounts disk_info_for list_usb_disk_infos refresh_usb_disk guarded_device
    guard_devices linux_restore_guard number digits_of mount_field is_escaped
    is_supported_sector_size effective_sector_size sector_or_default is_protected_mount_point
    normalized_mount_point is_guarded_by directory_prefix chop_slashes forward_slashes
    looks_like_drive_letter calculate_gpt_layout gpt_entry_array_sectors is_safe_restore_target
    normalized_identity both_known_and_equal is_protected_device contains_protected_mount_point
sysfs_runs = tt

abbrev or_zero_of : Option ℕ → ℕ
or_zero_of none = 0
or_zero_of (some n) = n

-- QString::toInt(&ok, 8), of three digits.
abbrev three_digits : Text → Option ℕ
three_digits (a ∷ b ∷ c ∷ []) =
    if (leb b'0' a && leb a b'7') && ((leb b'0' b && leb b b'7') && (leb b'0' c && leb c b'7'))
    then some ((a - b'0') * 64 + (b - b'0') * 8 + (c - b'0'))
    else none
three_digits _ = none

three_digits-ReadsOctal : ReadsOctal three_digits
three_digits-ReadsOctal = record { reads = λ c h. ground arith }

abbrev sysfs_content : Text → Text
sysfs_content path =
    if text_eq path (text "/proc/self/mountinfo")
    then text "22 1 8:1 / / rw,relatime shared:1 - ext4 /dev/sda1 rw"
      ++ (b'\n' ∷ text "40 22 8:17 / /media/my\\040stick rw - vfat /dev/sdb1 rw")
    else if text_eq path (text "/sys/block/sda/dev")
    then text "8:0"
    else if text_eq path (text "/sys/block/sda/sda1/dev")
    then text "8:1"
    else if text_eq path (text "/sys/block/sdb/dev")
    then text "8:16"
    else if text_eq path (text "/sys/block/sdb/sdb1/dev")
    then text "8:17"
    else if text_eq path (text "/sys/block/sdb/size")
    then text "31250000"
    else []

-- A disk with the system, and a stick.
abbrev sysfs : Files
sysfs = record {
  directories = λ path.
      if text_eq path (text "/sys/block")
      then text "sda" ∷ text "sdb" ∷ text "loop0" ∷ []
      else if text_eq path (text "/sys/block/sda")
      then text "sda1" ∷ text "queue" ∷ []
      else if text_eq path (text "/sys/block/sdb")
      then text "sdb1" ∷ []
      else [];
  entries = λ path. [];
  exists = λ path.
      text_eq path (text "/sys/block/sda/sda1/partition")
      || text_eq path (text "/sys/block/sdb/sdb1/partition");
  content = sysfs_content;
  canonical =
      λ path. if text_eq path (text "/sys/block/sdb") then text "/sys/devices/usb2/sdb" else [];
  executable = λ path. text_eq path (text "/usr/sbin/mkfs.vfat");
  device_bytes = λ path. none;
  file_name = λ path. drop 5 path;
  sorted = λ names. names;
  to_uint = λ t. or_zero_of (parse_decimal t (2 ^ 32 - 1));
  octal = three_digits;
}

abbrev parsers : Parsers
parsers = record {
  to_u64 = λ t. parse_decimal t (2 ^ 64 - 1);
  contains_insensitive = λ whole part. false;
}

mounted : read_mounts ascii sysfs ≡ (
    record {
      device = record { major = 8; minor = 1 };
      mount_point = text "/";
      source = text "/dev/sda1";
    }
    ∷ record {
      device = record { major = 8; minor = 17 };
      mount_point = text "/media/my stick";
      source = text "/dev/sdb1";
    }
    ∷ [])
unfolding sysfs_runs
mounted = refl

abbrev root_mount : MountEntry
root_mount = record {
  device = record { major = 8; minor = 1 };
  mount_point = text "/";
  source = text "/dev/sda1";
}

linux_restore_guard-protects_example :
    (any (λ n. same_number n root_mount.device) (device_numbers_on_disk ascii sysfs (text "sdb"))
        ≡ true
      → is_protected_mount_point ascii root_mount.mount_point protected_system_mounts ≡ false)
    × (is_protected_mount_point ascii root_mount.mount_point protected_system_mounts ≡ true
        → starts_with root_mount.source (text "/dev/") ≡ true
        → normalized_identity ascii (text "/dev/sdb")
          ≢ normalized_identity ascii (guarded_device sysfs root_mount.source))
unfolding sysfs_runs
linux_restore_guard-protects_example =
    linux_restore_guard-protects ascii sysfs ascii-QtLaws parsers (text "sdb") restore_details
      root_mount (Memᴰ.head refl) refl

unescape-mount_field_example :
    (unescape_mount_field three_digits (mount_field (text "/media/my stick"))
      ≡ text "/media/my stick")
    × (split b' ' (mount_field (text "/media/my stick"))
        ≡ mount_field (text "/media/my stick") ∷ [])
    × (split b'\n' (mount_field (text "/media/my stick"))
        ≡ mount_field (text "/media/my stick") ∷ [])
unescape-mount_field_example =
    unescape-mount_field three_digits (text "/media/my stick") three_digits-ReadsOctal

style_of_bytes-written_example :
    let r = table_of mbr in
    let disk = λ (j : ℕ). if ltb j 512 then (build_mbr r).byte j else 0 in
    ((build_gpt_primary r).size ≤ 16000000000
      → ((j : ℕ) → j < (build_gpt_primary r).size → disk j ≡ (build_gpt_primary r).byte j)
      → style_of_bytes (record { size = 16000000000; byte = disk }) 512 ≡ gpt)
    × (IsMbr r (build_mbr r)
        → ((j : ℕ) → j < 512 → disk j ≡ (build_mbr r).byte j)
        → disk 512 ≡ 0
        → style_of_bytes (record { size = 16000000000; byte = disk }) 512 ≡ mbr)
style_of_bytes-written_example =
    style_of_bytes-written (table_of mbr) 16000000000
      (λ j. if ltb j 512 then (build_mbr (table_of mbr)).byte j else 0) (inl refl) (omega arith)

-- ===== src/Linux/Sysfs/Udev.antt =====
-- linux/sysfs.cpp: the database of udev, and detectPartitionStyle().
use mathlib.Core.List.{reverse}
use usb_restoration_tool.Text.{Text, text, text_eq, is_empty, starts_with}
use usb_restoration_tool.Qt.{Qt, drop_while}
use usb_restoration_tool.Bytes.{Bytes}
use usb_restoration_tool.Disk.{PartitionStyle, unknown, mbr, gpt}
use usb_restoration_tool.Safety.Sectors.{effective_sector_size}
use usb_restoration_tool.Protocol.Decimal.{number}
use usb_restoration_tool.Protocol.Messages.{split}
use usb_restoration_tool.Linux.Identity.{DeviceNumber, is_valid_number}
use usb_restoration_tool.Linux.Sysfs.{Files, sys_block, child, read_device_number}
use usb_restoration_tool.Prelude.{
  ℕ, ◌+◌, Bool, true, not, ◌&&◌, ◌||◌, none, some, List, [], ◌∷◌, ◌++◌, min, ltb, leb, ◌==◌,
  if◌then◌else◌, length, drop,
}

-- QByteArray::trimmed().
abbrev pub is_ascii_space : ℕ → Bool
is_ascii_space c = c == b' ' || (leb 9 c && leb c 13)

unfoldable pub trimmed_bytes : Text → Text
unfolding drop_while
trimmed_bytes t = reverse (drop_while is_ascii_space (reverse (drop_while is_ascii_space t)))

-- The loop over the lines of the database, for one key: the last line with it counts.
unfoldable pub udev_value : Text → Text → List Text → Text
unfolding starts_with trimmed_bytes
udev_value key found [] = found
udev_value key found (line ∷ lines) =
    let t = trimmed_bytes line in
    let prefix = text "E:" ++ (key ++ text "=") in
    udev_value key (if starts_with t prefix then drop (length prefix) t else found) lines

unfoldable pub udev_property : Files → DeviceNumber → Text → Text
unfolding udev_value split
udev_property files n key =
    if not (is_valid_number n)
    then []
    else udev_value key [] (
        split b'\n'
          (files.content (text "/run/udev/data/b" ++ (number n.major ++ (b':' ∷ number n.minor)))))

unfoldable pub partition_style_from_udev_database : Qt → Files → Text → PartitionStyle
unfolding text_eq
partition_style_from_udev_database qt files path =
    let n = read_device_number qt files (child sys_block (files.file_name path)) in
    let value = udev_property files n (text "ID_PART_TABLE_TYPE") in
    if text_eq value (text "gpt") then gpt else if text_eq value (text "dos") then mbr else unknown

-- fromLatin1() keeps each byte.
unfoldable pub file_system_type_for_device : Qt → Files → Text → Text
unfolding text_eq is_empty
file_system_type_for_device qt files path =
    let n = read_device_number qt files path in
    let type = udev_property files n (text "ID_FS_TYPE") in
    let version = udev_property files n (text "ID_FS_VERSION") in
    if text_eq type (text "vfat") && not (is_empty version) then version else type

-- The bytes from a position are those of the text.
unfoldable pub holds_text : Bytes → ℕ → Text → Bool
holds_text b i [] = true
holds_text b i (c ∷ cs) = ltb i b.size && (b.byte i == c && holds_text b (i + 1) cs)

unfoldable pub style_of_bytes : Bytes → ℕ → PartitionStyle
unfolding holds_text
style_of_bytes b sector =
    if ltb (min sector b.size) 512
    then unknown
    else if holds_text b sector (text "EFI PART")
    then gpt
    else if b.byte 510 == 0x55 && b.byte 511 == 0xAA
    then mbr
    else unknown

unfoldable pub detect_partition_style : Qt → Files → Text → ℕ → PartitionStyle
detect_partition_style qt files path sector_size = elim (files.device_bytes path) [
  | none ↦ partition_style_from_udev_database qt files path
  | some b ↦ style_of_bytes b (effective_sector_size sector_size)
]

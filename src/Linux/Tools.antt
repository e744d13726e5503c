-- ===== src/Linux/Tools.antt =====
-- linux/linux_restore.cpp: which tool formats, where it can, and the name of the new partition.
use usb_restoration_tool.Text.{Text, text, is_empty}
use usb_restoration_tool.Qt.{Qt}
use usb_restoration_tool.Disk.{DiskInfo, FileSystemType, ex_fat, fat32, ntfs, ext4}
use usb_restoration_tool.Safety.Layout.{calculate_gpt_layout}
use usb_restoration_tool.Safety.Fat32.{
  minimum_mkfs_fat32_volume_bytes, maximum_mkfs_fat32_volume_bytes,
}
use usb_restoration_tool.Prelude.{
  ℕ, Bool, false, ◌||◌, Option, none, some, List, [], ◌∷◌, ◌++◌, ltb, ◌==◌, if◌then◌else◌,
}

-- The names of a tool, the newer package's first.
unfoldable pub format_tool_names : FileSystemType → List Text
format_tool_names ex_fat = text "mkfs.exfat" ∷ text "mkexfatfs" ∷ []
format_tool_names fat32 = text "mkfs.vfat" ∷ text "mkfs.fat" ∷ []
format_tool_names ntfs = text "mkfs.ntfs" ∷ text "mkntfs" ∷ []
format_tool_names ext4 = text "mkfs.ext4" ∷ []

unfoldable pub first_tool : (Text → Text) → List Text → Option Text
first_tool find [] = none
first_tool find (name ∷ rest) =
    let later = first_tool find rest in if is_empty (find name) then later else some (find name)

-- `find` is findSystemExecutable(), which gives an empty text for a tool that is not there.
unfoldable pub resolve_format_tool : (Text → Text) → FileSystemType → Option Text
unfolding first_tool is_empty format_tool_names
resolve_format_tool find file_system = first_tool find (format_tool_names file_system)

pub data FileSystemRefusal : Type 0 where
  no_fat32_on : ℕ → FileSystemRefusal
  too_large : ℕ → ℕ → FileSystemRefusal
  too_small : ℕ → FileSystemRefusal

unfoldable pub fat32_refusal : DiskInfo → Option FileSystemRefusal
fat32_refusal disk =
    let length = (calculate_gpt_layout disk.size disk.sector_size).length in
    let maximum = maximum_mkfs_fat32_volume_bytes disk.sector_size in
    let minimum = minimum_mkfs_fat32_volume_bytes disk.sector_size in
    if maximum == 0 || minimum == 0
    then some (no_fat32_on disk.sector_size)
    else if ltb maximum length
    then some (too_large maximum disk.sector_size)
    else if ltb length minimum
    then some (too_small minimum)
    else none

-- `none` is the result true.
unfoldable pub can_create_file_system_on : FileSystemType → DiskInfo → Option FileSystemRefusal
can_create_file_system_on ex_fat disk = none
can_create_file_system_on ntfs disk = none
can_create_file_system_on ext4 disk = none
can_create_file_system_on fat32 disk = fat32_refusal disk

unfoldable pub ends_in_digit : Qt → Text → Bool
ends_in_digit qt [] = false
ends_in_digit qt (c ∷ []) = qt.is_digit c
ends_in_digit qt (c ∷ d ∷ rest) = ends_in_digit qt (d ∷ rest)

-- The name of the first partition; the source calls it with the index 1 alone.
unfoldable pub partition_name_for : Qt → Text → Text → Text
unfolding ends_in_digit
partition_name_for qt disk_name index =
    disk_name ++ ((if ends_in_digit qt disk_name then b'p' ∷ [] else []) ++ index)

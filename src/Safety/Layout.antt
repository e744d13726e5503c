-- ===== src/Safety/Layout.antt =====
-- core/safety.cpp: the partition layout that a restore writes, and the test of a layout.
pub mod Bounds
use usb_restoration_tool.Disk.{PartitionStyle, mbr, gpt, DiskInfo}
use usb_restoration_tool.Safety.Sectors.{is_supported_sector_size, sector_or_default}
use usb_restoration_tool.Prelude.{
  ℕ, ◌+◌, ◌-◌, ◌*◌, ◌/◌, Bool, true, false, not, ◌&&◌, ◌||◌, Option, none, some, max, ltb, leb,
  ◌==◌, if◌then◌else◌, add64,
}

pub record GptLayout : Type 0 where
  pub start_offset : ℕ
  pub length : ℕ

abbrev pub no_layout : GptLayout
no_layout = record { start_offset = 0; length = 0 }

abbrev pub gpt_entry_count : ℕ
gpt_entry_count = 128

abbrev pub gpt_entry_size : ℕ
gpt_entry_size = 128

abbrev pub one_mib : ℕ
one_mib = 1024 * 1024

unfoldable pub gpt_entry_array_sectors : ℕ → ℕ
gpt_entry_array_sectors sector_size =
    let sector = sector_or_default sector_size in
    (gpt_entry_count * gpt_entry_size + sector - 1) / sector

layout_start : ℕ → ℕ
layout_start sector = (one_mib + sector - 1) / sector * sector

layout_length : ℕ → ℕ → ℕ → ℕ → ℕ
layout_length disk_size start backup_gpt sector =
    (disk_size - start - backup_gpt) / max one_mib sector * max one_mib sector

unfoldable pub calculate_gpt_layout : ℕ → ℕ → GptLayout
unfolding gpt_entry_array_sectors layout_start layout_length
calculate_gpt_layout disk_size sector_size =
    let sector = sector_or_default sector_size in
    let start = layout_start sector in
    let backup_gpt = (gpt_entry_array_sectors sector_size + 1) * sector in
    let len = layout_length disk_size start backup_gpt sector in
    if leb disk_size (start + backup_gpt + sector)
    then no_layout
    else if len == 0
    then no_layout
    else record { start_offset = start; length = len }

-- The refusals of `partitionLayoutError`, in the order of its tests.
pub data LayoutRefusal : Type 0 where
  unsupported_sector_size : ℕ → LayoutRefusal
  disk_too_small : LayoutRefusal
  no_style_chosen : LayoutRefusal
  beyond_mbr : LayoutRefusal

abbrev pub is_mbr : PartitionStyle → Bool
is_mbr mbr = true
is_mbr _ = false

abbrev pub is_gpt : PartitionStyle → Bool
is_gpt gpt = true
is_gpt _ = false

abbrev pub mbr_max_sectors : ℕ
mbr_max_sectors = 0xFFFFFFFF

-- `none` is the empty text, which says that the layout can be written.
unfoldable pub partition_layout_error : PartitionStyle → GptLayout → ℕ → Option LayoutRefusal
partition_layout_error style layout sector_size =
    if not (is_supported_sector_size sector_size)
    then some (unsupported_sector_size sector_size)
    else if layout.length == 0
    then some disk_too_small
    else if not (is_mbr style || is_gpt style)
    then some no_style_chosen
    else if is_mbr style
        && ltb mbr_max_sectors (add64 layout.start_offset layout.length / sector_size)
    then some beyond_mbr
    else none

unfoldable pub can_create_partition_layout : PartitionStyle → DiskInfo → Option LayoutRefusal
can_create_partition_layout style disk =
    partition_layout_error style (calculate_gpt_layout disk.size disk.sector_size) disk.sector_size

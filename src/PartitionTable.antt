-- ===== src/PartitionTable.antt =====
-- core/partition_table.h and core/partition_table.cpp: the bytes of a GPT or MBR partition table,
-- and the gate in front of writing them.
pub mod Build
pub mod Entries
pub mod Gate
pub mod Computed
pub mod Fields
pub mod Images
pub mod Mbr
use usb_restoration_tool.Text.{Text}
use usb_restoration_tool.Bytes.{
  Bytes, zeros, of_list, put, write_le16, write_le32, write_le64, write_bytes, write_units, append,
  left, to_list,
}
use usb_restoration_tool.Disk.{
  PartitionStyle, unknown, mbr, gpt, FileSystemType, ex_fat, fat32, ntfs, ext4,
}
use usb_restoration_tool.Safety.Sectors.{effective_sector_size}
use usb_restoration_tool.Safety.Layout.{
  GptLayout, gpt_entry_count, gpt_entry_size, gpt_entry_array_sectors, partition_layout_error,
  LayoutRefusal, is_gpt, mbr_max_sectors,
}
use usb_restoration_tool.Prelude.{
  ℕ, ◌+◌, ◌-◌, ◌*◌, ◌/◌, ◌%◌, Bool, true, false, List, [], ◌∷◌, bit_and, bit_or, bit_xor, ltb, ◌==◌,
  if◌then◌else◌, length, take, add64, sub64,
}

pub record PartitionTableRequest : Type 0 where
  pub style : PartitionStyle
  pub file_system : FileSystemType
  pub disk_size : ℕ
  pub sector_size : ℕ
  pub layout : GptLayout
  pub disk_guid : Bytes
  pub partition_guid : Bytes
  pub partition_name : Text

abbrev pub gpt_header_size : ℕ
gpt_header_size = 92

-- One of the eight rounds that generate an entry of the table.
crc_round : ℕ → ℕ
crc_round value = if value % 2 == 1 then bit_xor 0xEDB88320 (value / 2) else value / 2

crc_table : ℕ → ℕ
unfolding crc_round
crc_table i =
    crc_round (crc_round (crc_round (crc_round (crc_round (crc_round (crc_round (crc_round i)))))))

crc_bytes : ℕ → List ℕ → ℕ
crc_bytes crc [] = crc
crc_bytes crc (byte ∷ rest) =
    crc_bytes (bit_xor (crc_table (bit_and (bit_xor crc byte) 0xFF)) (crc / 256)) rest

unfoldable pub gpt_crc32 : Bytes → ℕ
unfolding crc_bytes crc_table to_list
gpt_crc32 b = bit_xor (crc_bytes 0xFFFFFFFF (to_list b)) 0xFFFFFFFF

abbrev pub basic_data_partition_type_guid : List ℕ
basic_data_partition_type_guid =
    0xa2 ∷ 0xa0 ∷ 0xd0 ∷ 0xeb ∷ 0xe5 ∷ 0xb9 ∷ 0x33 ∷ 0x44 ∷ 0x87 ∷ 0xc0 ∷ 0x68 ∷ 0xb6 ∷ 0xb7 ∷ 0x26
    ∷ 0x99 ∷ 0xc7 ∷ []

abbrev pub linux_filesystem_partition_type_guid : List ℕ
linux_filesystem_partition_type_guid =
    0xaf ∷ 0x3d ∷ 0xc6 ∷ 0x0f ∷ 0x83 ∷ 0x84 ∷ 0x72 ∷ 0x47 ∷ 0x8e ∷ 0x79 ∷ 0x3d ∷ 0x69 ∷ 0xd8 ∷ 0x47
    ∷ 0x7d ∷ 0xe4 ∷ []

unfoldable pub gpt_partition_type_guid : FileSystemType → Bytes
gpt_partition_type_guid ext4 = of_list linux_filesystem_partition_type_guid
gpt_partition_type_guid _ = of_list basic_data_partition_type_guid

unfoldable pub mbr_partition_type : FileSystemType → ℕ
mbr_partition_type fat32 = 0x0C
mbr_partition_type ext4 = 0x83
mbr_partition_type ex_fat = 0x07
mbr_partition_type ntfs = 0x07

unfoldable pub sector_count : PartitionTableRequest → ℕ
unfolding effective_sector_size
sector_count request = request.disk_size / effective_sector_size request.sector_size

-- Nothing but `array_sectors` and `primary_entry_lba` is set unless `fits`.
pub record GptGeometry : Type 0 where
  pub fits : Bool
  pub array_sectors : ℕ
  pub last_lba : ℕ
  pub primary_entry_lba : ℕ
  pub backup_entry_lba : ℕ
  pub first_usable_lba : ℕ
  pub last_usable_lba : ℕ

unfoldable pub gpt_geometry : PartitionTableRequest → GptGeometry
gpt_geometry request =
    let array_sectors = gpt_entry_array_sectors request.sector_size in
    let sectors = sector_count request in
    let last_lba = sectors - 1 in
    let backup_entry_lba = last_lba - array_sectors in
    if ltb sectors (array_sectors * 2 + 3)
    then record {
      fits = false;
      array_sectors = array_sectors;
      last_lba = 0;
      primary_entry_lba = 2;
      backup_entry_lba = 0;
      first_usable_lba = 0;
      last_usable_lba = 0;
    }
    else record {
      fits = true;
      array_sectors = array_sectors;
      last_lba = last_lba;
      primary_entry_lba = 2;
      backup_entry_lba = backup_entry_lba;
      first_usable_lba = 2 + array_sectors;
      last_usable_lba = backup_entry_lba - 1;
    }

unfoldable pub build_entry_array : PartitionTableRequest → Bytes
unfolding write_bytes write_le64 write_units effective_sector_size
build_entry_array request =
    let sector = effective_sector_size request.sector_size in
    let layout = request.layout in
    let first_lba = layout.start_offset / sector in
    let last_lba = sub64 (add64 layout.start_offset layout.length / sector) 1 in
    let entries = zeros (gpt_entry_count * gpt_entry_size) in
    let entries = write_bytes entries 0 (gpt_partition_type_guid request.file_system) 16 in
    let entries = write_bytes entries 16 request.partition_guid 16 in
    let entries = write_le64 entries 32 first_lba in
    let entries = write_le64 entries 40 last_lba in
    let entries = write_le64 entries 48 0 in write_units entries 56 (take 36 request.partition_name)

-- The signature "EFI PART".
abbrev pub efi_part : List ℕ
efi_part = 0x45 ∷ 0x46 ∷ 0x49 ∷ 0x20 ∷ 0x50 ∷ 0x41 ∷ 0x52 ∷ 0x54 ∷ []

-- The header with its own checksum still zero.
unfoldable pub unsealed_header : PartitionTableRequest → Bytes → Bool → Bytes
unsealed_header request entries primary =
    let geometry = gpt_geometry request in
    let last_lba = geometry.last_lba in
    let header = zeros (effective_sector_size request.sector_size) in
    let header = write_bytes header 0 (of_list efi_part) 8 in
    let header = write_le32 header 8 0x00010000 in
    let header = write_le32 header 12 gpt_header_size in
    let header = write_le32 header 16 0 in
    let header = write_le32 header 20 0 in
    let header = write_le64 header 24 (if primary then 1 else last_lba) in
    let header = write_le64 header 32 (if primary then last_lba else 1) in
    let header = write_le64 header 40 geometry.first_usable_lba in
    let header = write_le64 header 48 geometry.last_usable_lba in
    let header = write_bytes header 56 request.disk_guid 16 in
    let header =
      write_le64 header 72
        (if primary then geometry.primary_entry_lba else geometry.backup_entry_lba) in
    let header = write_le32 header 80 gpt_entry_count in
    let header = write_le32 header 84 gpt_entry_size in write_le32 header 88 (gpt_crc32 entries)

unfoldable pub build_header : PartitionTableRequest → Bytes → Bool → Bytes
build_header request entries primary =
    let header = unsealed_header request entries primary in
    write_le32 header 16 (gpt_crc32 (left header gpt_header_size))

unfoldable pub write_chs : Bytes → ℕ → ℕ → Bytes
write_chs b offset lba =
    let cylinder = lba / (255 * 63) in
    let head = lba / 63 % 255 in
    let sector = lba % 63 + 1 in
    if ltb 1023 cylinder
    then put (put (put b offset 0xFE) (offset + 1) 0xFF) (offset + 2) 0xFF
    else put
        (put (put b offset (bit_and head 0xFF)) (offset + 1)
          (bit_or (bit_and sector 0x3F) (bit_and (cylinder / 4) 0xC0)))
        (offset + 2) (bit_and cylinder 0xFF)

abbrev pub write_mbr_signature : Bytes → Bytes
write_mbr_signature b = put (put b 510 0x55) 511 0xAA

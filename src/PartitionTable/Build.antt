-- ===== src/PartitionTable/Build.antt =====
-- core/partition_table.cpp: the images that are written to the disk, where they are written, and
-- the gate that a request passes first.
use usb_restoration_tool.Bytes.{Bytes, zeros, put, write_le32, write_bytes, append, left}
use usb_restoration_tool.Safety.Sectors.{effective_sector_size}
use usb_restoration_tool.Safety.Layout.{
  gpt_entry_array_sectors, partition_layout_error, LayoutRefusal, is_gpt, mbr_max_sectors,
}
use usb_restoration_tool.PartitionTable.{
  PartitionTableRequest, sector_count, gpt_geometry, build_entry_array, build_header, write_chs,
  write_mbr_signature, mbr_partition_type,
}
use usb_restoration_tool.Prelude.{
  ℕ, ◌-◌, ◌*◌, ◌/◌, ◌%◌, true, false, not, ◌||◌, Option, none, some, min, ltb, leb, ◌==◌,
  if◌then◌else◌, add64, sub64,
}

-- The refusals of `isWritablePartitionRequest`.
pub data WriteRefusal : Type 0 where
  layout_refused : LayoutRefusal → WriteRefusal
  not_aligned : WriteRefusal
  past_the_end : WriteRefusal
  no_room_for_headers : WriteRefusal
  no_identifiers : WriteRefusal
  overlaps_headers : WriteRefusal
  no_disk_identifier : WriteRefusal

-- The tests after the layout's own, by partition style.
unfoldable pub table_refusal : PartitionTableRequest → ℕ → Option WriteRefusal
table_refusal request end_lba =
    let geometry = gpt_geometry request in
    let first_lba = request.layout.start_offset / request.sector_size in
    let last_lba = sub64 end_lba 1 in
    if is_gpt request.style
    then (if not geometry.fits
        then some no_room_for_headers
        else if not (request.disk_guid.size == 16) || not (request.partition_guid.size == 16)
        then some no_identifiers
        else if ltb first_lba geometry.first_usable_lba || ltb geometry.last_usable_lba last_lba
        then some overlaps_headers
        else none)
    else if ltb request.disk_guid.size 4
    then some no_disk_identifier
    else none

unfoldable pub bounds_refusal : PartitionTableRequest → Option WriteRefusal
bounds_refusal request =
    let layout = request.layout in
    let sector = request.sector_size in
    let sectors = sector_count request in
    let end_lba = add64 layout.start_offset layout.length / sector in
    if not (layout.start_offset % sector == 0) || not (layout.length % sector == 0)
    then some not_aligned
    else if sectors == 0 || ltb sectors end_lba
    then some past_the_end
    else table_refusal request end_lba

-- `none` is the result true.
unfoldable pub is_writable_partition_request : PartitionTableRequest → Option WriteRefusal
is_writable_partition_request request =
    elim (partition_layout_error request.style request.layout request.sector_size) [
      | some failure ↦ some (layout_refused failure)
      | none ↦ bounds_refusal request
    ]

-- One 0xEE partition over the whole disk.
unfoldable pub build_protective_mbr : PartitionTableRequest → Bytes
unfolding write_le32 effective_sector_size
build_protective_mbr request =
    let sectors = sector_count request in
    let b = zeros (effective_sector_size request.sector_size) in
    let b = put (put (put (put b 446 0x00) 447 0x00) 448 0x02) 449 0x00 in
    let b = put (put (put (put b 450 0xEE) 451 0xFF) 452 0xFF) 453 0xFF in
    let b = write_le32 b 454 1 in
    let b = write_le32 b 458 (min (sub64 sectors 1) mbr_max_sectors) in write_mbr_signature b

-- Of an unsupported sector size the array may be longer than its sectors; `append` adds nothing then.
unfoldable pub entry_padding : PartitionTableRequest → Bytes → Bytes
unfolding effective_sector_size
entry_padding request entries =
    let sector = effective_sector_size request.sector_size in
    zeros (gpt_entry_array_sectors sector * sector - entries.size)

unfoldable pub build_gpt_primary : PartitionTableRequest → Bytes
build_gpt_primary request =
    let entries = build_entry_array request in
    let header = build_header request entries true in
    append (append (append (build_protective_mbr request) header) entries)
      (entry_padding request entries)

unfoldable pub build_gpt_backup : PartitionTableRequest → Bytes
build_gpt_backup request =
    let entries = build_entry_array request in
    let header = build_header request entries false in
    append (append entries (entry_padding request entries)) header

unfoldable pub gpt_backup_offset : PartitionTableRequest → ℕ
unfolding effective_sector_size
gpt_backup_offset request =
    let geometry = gpt_geometry request in
    if geometry.fits
    then geometry.backup_entry_lba * effective_sector_size request.sector_size
    else 0

unfoldable pub build_mbr : PartitionTableRequest → Bytes
unfolding effective_sector_size
build_mbr request =
    let sector = effective_sector_size request.sector_size in
    let first_lba = request.layout.start_offset / sector in
    let sector_span = request.layout.length / sector in
    let last_lba = sub64 (add64 first_lba sector_span) 1 in
    let b = zeros sector in
    let b =
      if leb 4 request.disk_guid.size then write_bytes b 440 (left request.disk_guid 4) 4 else b in
    let b = put b 446 0x00 in
    let b = write_chs b 447 first_lba in
    let b = put b 450 (mbr_partition_type request.file_system) in
    let b = write_chs b 451 last_lba in
    let b = write_le32 b 454 (min first_lba mbr_max_sectors) in
    let b = write_le32 b 458 (min sector_span mbr_max_sectors) in write_mbr_signature b

-- ===== src/Examples/TableRuns.antt =====
-- Runs of core/partition_table.cpp and core/restore_message.cpp, and their theorems at concrete
-- inputs.
use usb_restoration_tool.Examples.Data.{table_of}
use usb_restoration_tool.Disk.{gpt, mbr}
use usb_restoration_tool.Safety.Layout.{
  calculate_gpt_layout, partition_layout_error, gpt_entry_array_sectors,
}
use usb_restoration_tool.Safety.Sectors.{
  is_supported_sector_size, effective_sector_size, sector_or_default,
}
use usb_restoration_tool.PartitionTable.{
  sector_count, gpt_geometry, build_entry_array, build_header,
}
use usb_restoration_tool.PartitionTable.Build.{
  is_writable_partition_request, bounds_refusal, table_refusal, build_gpt_backup, build_mbr,
}
use usb_restoration_tool.PartitionTable.Gate.{FitsGpt, is_writable-FitsGpt}
use usb_restoration_tool.PartitionTable.Fields.{IsHeader, build_header-IsHeader}
use usb_restoration_tool.PartitionTable.Images.{IsBackupImage, build_gpt_backup-IsBackupImage}
use usb_restoration_tool.PartitionTable.Mbr.{IsMbr, build_mbr-IsMbr}
use usb_restoration_tool.RestorePlan.{
  linux_restore_plan, windows_restore_plan, first_destructive_step_of, changes_disk_contents,
}
use usb_restoration_tool.Prelude.{◌≡◌, refl, inl, true, arith}

table_runs : Unit {0}
unfolding is_writable_partition_request bounds_refusal table_refusal gpt_geometry sector_count
    calculate_gpt_layout partition_layout_error gpt_entry_array_sectors is_supported_sector_size
    effective_sector_size sector_or_default first_destructive_step_of changes_disk_contents
table_runs = tt

linux_boundary : first_destructive_step_of linux_restore_plan ≡ 5
unfolding table_runs
linux_boundary = refl

windows_boundary : first_destructive_step_of windows_restore_plan ≡ 5
unfolding table_runs
windows_boundary = refl

is_writable-FitsGpt_example : FitsGpt (table_of gpt)
unfolding table_runs
is_writable-FitsGpt_example = is_writable-FitsGpt (table_of gpt) refl (omega arith) refl

build_header-IsHeader_example :
    IsHeader
      (table_of gpt)
      (build_entry_array (table_of gpt))
      (build_header (table_of gpt) (build_entry_array (table_of gpt)) true)
      1
      31249999
      2
unfolding table_runs
build_header-IsHeader_example =
    build_header-IsHeader (table_of gpt) (build_entry_array (table_of gpt)) true (omega arith)
      (omega arith)

build_gpt_backup-IsBackupImage_example :
    IsBackupImage (table_of gpt) (build_gpt_backup (table_of gpt))
build_gpt_backup-IsBackupImage_example = build_gpt_backup-IsBackupImage (table_of gpt) (inl refl)

build_mbr-IsMbr_example : IsMbr (table_of mbr) (build_mbr (table_of mbr))
unfolding table_runs
build_mbr-IsMbr_example = build_mbr-IsMbr (table_of mbr) refl (omega arith) refl

-- ===== src/Linux/Restore/Phases.antt =====
-- linux/linux_restore.cpp, performLinuxRestore() and formatAndRereadPartitionTable(): the phases of a restore.
use usb_restoration_tool.Text.{Text, text}
use usb_restoration_tool.Qt.{Qt}
use usb_restoration_tool.Disk.{DiskInfo}
use usb_restoration_tool.RestorePlan.{
  verify_disk, identify_device, unmount, open_exclusive, clear_signatures, write_partition_table,
  format, reread_partition_table, wait_for_partition, complete,
}
use usb_restoration_tool.Safety.Sectors.{signature_clear_range}
use usb_restoration_tool.Safety.Layout.{calculate_gpt_layout, can_create_partition_layout, is_gpt}
use usb_restoration_tool.Safety.Target.{is_safe_restore_target, is_same_restore_target}
use usb_restoration_tool.PartitionTable.{PartitionTableRequest}
use usb_restoration_tool.PartitionTable.Build.{
  is_writable_partition_request, build_gpt_primary, build_gpt_backup, gpt_backup_offset, build_mbr,
}
use usb_restoration_tool.Linux.Identity.{verify_identity, verify_partition_of, disk_sequence}
use usb_restoration_tool.Linux.Unmount.{UnmountError, unmount_disk}
use usb_restoration_tool.Linux.Tools.{
  resolve_format_tool, can_create_file_system_on, partition_name_for,
}
use usb_restoration_tool.Linux.Loop.{configure, is_none, no_loop, clean}
use usb_restoration_tool.Linux.Writes.{write_at, write_zeros}
use usb_restoration_tool.Prelude.{
  ℕ, zero, suc, ◌+◌, ◌/◌, Bool, true, not, some, [], ◌++◌, ◌==◌, if◌then◌else◌, Result, ok, err,
}
use usb_restoration_tool.Linux.Format.{FormatError, format_linux_partition, desktop_owner}
use usb_restoration_tool.Linux.Restore.{
  not_formatted, not_prepared, not_detached, ◌>>=◌, ◌>>◌, Act, RestoreRequest, Stop, World,
  cancelled, cannot_open, check, flush_failed, give, must, no_file_system, no_formatter, no_layout,
  no_partition, no_room, no_tool, not_found, not_identified, not_reidentified, not_same,
  not_unmounted, not_writable, present, report, reread_failed, unsafe, write, ◌>>◌,
}

-- unmountDisk() at an attempt.
abbrev pub unmounts : Qt → World → ℕ → Result UnmountError (Unit {0})
unmounts qt world attempt =
    (unmount_disk qt world.owned (world.mounts attempt) world.guarded (world.umount attempt)).result

abbrev pub or_stop : Result UnmountError (Unit {0}) → Result Stop (Unit {0})
or_stop (ok u) = ok tt
or_stop (err e) = err (not_unmounted e)

-- The unmounting in front of every attempt but the first.
abbrev pub unmounts_again : Qt → World → ℕ → Result Stop (Unit {0})
unmounts_again qt world attempt =
    if attempt == 0 then ok tt else or_stop (unmounts qt world attempt)

-- What an attempt goes on with, where the disk is unmounted.
abbrev pub opened_or :
    Result Stop (Unit {0}) → Bool → Result Stop (Unit {0}) → Result Stop (Unit {0})
opened_or (err e) opens later = err e
opened_or (ok u) opens later = if opens then ok tt else later

-- The loop around the exclusive open, from an attempt on with so many left.
unfoldable pub open_attempts : Qt → ℕ → ℕ → World → Result Stop (Unit {0})
open_attempts qt zero attempt world = err cannot_open
open_attempts qt (suc left) attempt world =
    opened_or (unmounts_again qt world attempt) (world.opens attempt)
      (open_attempts qt left (attempt + 1) world)

-- The disk that was found again and the table that is to be written.
pub record Ready : Type 0 where
  pub disk : DiskInfo
  pub table : PartitionTableRequest

abbrev pub table_request : RestoreRequest → World → DiskInfo → PartitionTableRequest
table_request request world disk = record {
  style = request.style;
  file_system = request.file_system;
  disk_size = disk.size;
  sector_size = disk.sector_size;
  layout = calculate_gpt_layout disk.size disk.sector_size;
  disk_guid = world.disk_guid;
  partition_guid = world.partition_guid;
  partition_name = request.volume_label;
}

-- Whether LoopDevice::configure() maps the partition for a new device.
abbrev pub configures : World → PartitionTableRequest → Bool
configures world table =
    is_none
      (configure table.layout.start_offset table.layout.length table.sector_size world.loop no_loop
        (clean 0)).error

-- Up to the point where the disk is found again and may be restored.
unfoldable pub find_disk : Qt → RestoreRequest → World → Act DiskInfo
find_disk qt request world = do
  check (is_safe_restore_target qt request.disk request.guard) unsafe
  tool ← give (present no_tool (resolve_format_tool world.find request.file_system))
  report verify_disk
  disk ← give (present not_found world.refreshed)
  check (is_same_restore_target qt request.disk disk) not_same
  check (is_safe_restore_target qt disk request.guard) unsafe
  check (can_create_partition_layout request.style disk) no_layout
  check (can_create_file_system_on request.file_system disk) no_file_system
  give (ok disk)

-- Up to the last point where the restore can be cancelled.
unfoldable pub claim_disk : Qt → RestoreRequest → World → DiskInfo → Act Ready
claim_disk qt request world disk = do
  report identify_device
  must world.inspect_opens cannot_open
  check (verify_identity qt disk world.inspected) not_identified
  must (not world.cancel_before_unmount) cancelled
  report unmount
  give (or_stop (unmounts qt world 0))
  report open_exclusive
  give (open_attempts qt 3 0 world)
  check (verify_identity qt disk world.claimed) not_identified
  must (not world.cancel_before_table) cancelled
  check (is_writable_partition_request (table_request request world disk)) not_writable
  must (configures world (table_request request world disk)) no_formatter
  must (not world.cancel_before_erase) cancelled
  check (verify_identity qt disk world.rechecked) not_identified
  give (ok (record { disk = disk; table = table_request request world disk }))

abbrev pub write_table : PartitionTableRequest → Act (Unit {0})
write_table table =
    if is_gpt table.style
    then write (write_at true 0 (build_gpt_primary table))
      >> write (write_at true (gpt_backup_offset table) (build_gpt_backup table))
    else write (write_at true 0 (build_mbr table))

-- From the first byte that is changed to the table on the disk.
unfoldable pub overwrite_disk : Ready → Act (Unit {0})
overwrite_disk ready =
    let clear = signature_clear_range ready.disk.size ready.disk.sector_size in
    do
      report clear_signatures
      must (not (clear.bytes == 0)) no_room
      write (write_zeros true 0 clear.bytes clear.sector_size)
      write (write_zeros true clear.tail_offset clear.bytes clear.sector_size)
      report write_partition_table
      write_table ready.table

unfoldable pub run_tool : World → Act (Unit {0})
run_tool world s = record {
  steps = [];
  system = record s { disk = world.tool_writes s.disk };
  result = ok tt;
}

abbrev pub or_unformatted : Result FormatError (Unit {0}) → Result Stop (Unit {0})
or_unformatted (ok u) = ok tt
or_unformatted (err e) = err (not_formatted e)

-- The call of formatLinuxPartition().
abbrev pub formats : Qt → RestoreRequest → World → ℕ → Result Stop (Unit {0})
formats qt request world start_sector =
    or_unformatted
      (format_linux_partition qt world.run request.file_system world.loop_path request.volume_label
        start_sector (desktop_owner world.get world.to_number world.group_of)).result

-- formatAndRereadPartitionTable(); where it fails, reading the table again changes no byte.
unfoldable pub format_and_reread : Qt → RestoreRequest → World → ℕ → Act ℕ
format_and_reread qt request world start_sector = do
  report format
  must world.prepared not_prepared
  run_tool world
  give (formats qt request world start_sector)
  must world.detaches not_detached
  report reread_partition_table
  must world.flushes_again flush_failed
  must world.rereads reread_failed
  give (present not_reidentified (disk_sequence world.scanned))

unfoldable pub await_partition : Qt → World → Text → ℕ → Act Text
await_partition qt world disk_name sequence = do
  report wait_for_partition
  must world.appears no_partition
  must world.partition_opens cannot_open
  check (verify_partition_of (some sequence) world.partition) not_identified
  report complete
  give (ok (text "/dev/" ++ partition_name_for qt disk_name (text "1")))

-- `file_name` is QFileInfo::fileName().
unfoldable pub perform_linux_restore : Qt → (Text → Text) → RestoreRequest → World → Act Text
perform_linux_restore qt file_name request world = do
  disk ← find_disk qt request world
  ready ← claim_disk qt request world disk
  overwrite_disk ready
  must world.flushes flush_failed
  sequence ←
      format_and_reread qt request world (ready.table.layout.start_offset / ready.disk.sector_size)
  await_partition qt world (file_name disk.device_id) sequence

-- ===== src/Examples/RestoreRuns.antt =====
-- Runs of linux/block_device.cpp and linux/linux_restore.cpp, and their theorems at concrete inputs.
use usb_restoration_tool.Examples.Data.{ascii, stick, node, world, request, system, generous}
use usb_restoration_tool.Text.{Text, text, text_eq, is_empty, starts_with}
use usb_restoration_tool.Qt.{trimmed, drop_while}
use usb_restoration_tool.Disk.{DiskInfo, ex_fat}
use usb_restoration_tool.Linux.Identity.{
  verify_identity, medium_refusal, block_device_number, disk_sequence, size_in_bytes,
  logical_sector_size, verify_partition_of,
}
use usb_restoration_tool.Linux.Identity.Verified.{IsVerified, verify_identity-IsVerified}
use usb_restoration_tool.Linux.Writes.{
  write_at, write_loop, write_zeros, zero_loop, waiting, Answer, wrote, failed, interrupted, done,
}
use usb_restoration_tool.Linux.Writes.Ends.{interruptions, write_zeros-Ended}
use usb_restoration_tool.Linux.Writes.Zeros.{Clears, write_zeros-Clears}
use usb_restoration_tool.Linux.Format.{
  format_linux_partition, format_loop, format_attempts, desktop_owner, environment_id,
  looks_like_wrong_flag, DesktopOwner,
}
use usb_restoration_tool.Linux.Format.Attempts.{Formats, format_linux_partition-Formats}
use usb_restoration_tool.Linux.Unmount.{unmount_disk, unmount_all, deepest_first, insert_mount}
use usb_restoration_tool.Linux.Unmount.Released.{Releases, unmount_disk-Releases}
use usb_restoration_tool.Linux.Tools.{
  ends_in_digit, resolve_format_tool, first_tool, format_tool_names, can_create_file_system_on,
  partition_name_for,
}
use usb_restoration_tool.Linux.Loop.{configure}
use usb_restoration_tool.Linux.Restore.{◌>>=◌, give, report, write, World, System}
use usb_restoration_tool.Linux.Restore.Phases.{
  perform_linux_restore, find_disk, claim_disk, overwrite_disk, format_and_reread, await_partition,
  open_attempts, run_tool, table_request,
}
use usb_restoration_tool.Linux.Restore.Plan.{Follows, perform_linux_restore-Follows}
use usb_restoration_tool.Linux.Restore.Gates.{IsFound, IsClaimed, perform_linux_restore-gates}
use usb_restoration_tool.Linux.Restore.Tables.{HasTables}
use usb_restoration_tool.Linux.Restore.Tables.Finished.{
  KeepsToPartition, perform_linux_restore-HasTables,
}
use usb_restoration_tool.Linux.Restore.Cancel.{perform_linux_restore-cancelled}
use usb_restoration_tool.RestorePlan.{linux_restore_plan, counter}
use usb_restoration_tool.RestorePlan.Counter.{AllCounted}
use usb_restoration_tool.Safety.Sectors.{
  is_supported_sector_size, effective_sector_size, sector_or_default, signature_clear_range,
  unaligned_zero_range_error, is_valid_device_range,
}
use usb_restoration_tool.Safety.Layout.{
  calculate_gpt_layout, gpt_entry_array_sectors, partition_layout_error,
  can_create_partition_layout,
}
use usb_restoration_tool.Safety.Mounts.{
  is_protected_mount_point, normalized_mount_point, is_guarded_by, directory_prefix, chop_slashes,
  forward_slashes, looks_like_drive_letter,
}
use usb_restoration_tool.Safety.Target.{
  is_safe_restore_target, is_same_restore_target, normalized_identity, both_known_and_equal,
  both_known_and_different, is_protected_device, contains_protected_mount_point,
  is_same_device_sequence, known_identifiers,
}
use usb_restoration_tool.PartitionTable.{
  sector_count, gpt_geometry, build_entry_array, build_header, unsealed_header,
}
use usb_restoration_tool.PartitionTable.Build.{
  is_writable_partition_request, bounds_refusal, table_refusal, build_gpt_primary, build_gpt_backup,
  gpt_backup_offset, build_protective_mbr, entry_padding,
}
use usb_restoration_tool.Bytes.{
  write_le16, write_le32, write_le64, write_le, write_bytes, write_units,
}
use usb_restoration_tool.Prelude.{
  ℕ, zero, suc, ◌≡◌, refl, ◌≢◌, true, none, List, [], ◌∷◌, any, arith, ok, drop,
}

unfoldable pub restore_runs : Unit {0}
unfolding format_linux_partition format_loop format_attempts desktop_owner environment_id
    looks_like_wrong_flag unmount_disk unmount_all deepest_first insert_mount text_eq is_empty
    starts_with any trimmed drop_while verify_identity medium_refusal block_device_number
    disk_sequence size_in_bytes logical_sector_size verify_partition_of write_at write_loop
    write_zeros zero_loop interruptions resolve_format_tool first_tool format_tool_names
    can_create_file_system_on partition_name_for ends_in_digit perform_linux_restore find_disk
    claim_disk overwrite_disk format_and_reread await_partition open_attempts ◌>>=◌ give report
    write run_tool configure is_supported_sector_size effective_sector_size sector_or_default
    signature_clear_range unaligned_zero_range_error is_valid_device_range calculate_gpt_layout
    gpt_entry_array_sectors partition_layout_error can_create_partition_layout
    is_protected_mount_point normalized_mount_point is_guarded_by directory_prefix chop_slashes
    forward_slashes looks_like_drive_letter is_safe_restore_target is_same_restore_target
    normalized_identity both_known_and_equal both_known_and_different is_protected_device
    contains_protected_mount_point is_same_device_sequence known_identifiers sector_count
    gpt_geometry build_entry_array build_header unsealed_header is_writable_partition_request
    bounds_refusal table_refusal build_gpt_primary build_gpt_backup gpt_backup_offset
    build_protective_mbr entry_padding write_le16 write_le32 write_le64 write_le write_bytes
    write_units
restore_runs = tt

abbrev file_name : Text → Text
file_name path = drop 5 path

restored :
    (perform_linux_restore ascii file_name request world system).result ≡ ok (text "/dev/sdb1")
unfolding restore_runs
restored = refl

signature_gone :
    (perform_linux_restore ascii file_name request world system).system.disk 15999999999 ≡ 0
unfolding restore_runs
signature_gone = refl

verify_identity-IsVerified_example : IsVerified ascii stick node
unfolding restore_runs
verify_identity-IsVerified_example = verify_identity-IsVerified ascii stick node refl

write_zeros-Clears_example :
    Clears 0 4194304 (λ i. 1) (write_zeros true 0 4194304 512 (λ i. 1) generous)
write_zeros-Clears_example = write_zeros-Clears true 0 4194304 512 (λ i. 1) generous

-- A kernel that takes one byte at a time, behind an interruption.
abbrev bytewise : ℕ → List Answer
bytewise zero = []
bytewise (suc n) = wrote 1 ∷ bytewise n

abbrev slow : List Answer
slow = failed interrupted ∷ bytewise 513

-- A sector from the one at 512 on is cleared, with an answer left over.
slow_zeros :
    let run = write_zeros true 512 512 512 (λ i. 1) slow in
    (run.outcome ≡ done) × (run.answers ≡ wrote 1 ∷ []) × (run.disk 512 ≡ 0) × (run.disk 1024 ≡ 1)
unfolding restore_runs
slow_zeros = (refl, refl, refl, refl)

write_zeros-Ended_example : (write_zeros true 512 512 512 (λ i. 1) slow).outcome ≢ waiting
unfolding restore_runs
write_zeros-Ended_example = write_zeros-Ended true 512 512 512 (λ i. 1) slow (omega arith)

perform_linux_restore-Follows_example :
    Follows (perform_linux_restore ascii file_name request world) linux_restore_plan
    × ((s : System)
        → AllCounted
            (counter linux_restore_plan)
            (perform_linux_restore ascii file_name request world s).steps)
perform_linux_restore-Follows_example = perform_linux_restore-Follows ascii file_name request world

perform_linux_restore-gates_example :
    (disk : DiskInfo) × IsFound ascii request world disk × IsClaimed ascii request world disk
unfolding restore_runs
perform_linux_restore-gates_example =
    perform_linux_restore-gates ascii file_name request world system 15999999999 (λ e. omega arith)

keeps : KeepsToPartition world (table_request request world stick)
unfolding KeepsToPartition restore_runs
keeps disk i h = ground arith

perform_linux_restore-HasTables_example :
    HasTables
      (table_request request world stick)
      (perform_linux_restore ascii file_name request world system).system.disk
unfolding restore_runs
perform_linux_restore-HasTables_example =
    perform_linux_restore-HasTables ascii file_name request world system stick (text "/dev/sdb1")
      refl refl (omega arith) keeps refl

abbrev impatient : World
impatient = record world { cancel_before_erase = true }

perform_linux_restore-cancelled_example :
    (perform_linux_restore ascii file_name request impatient system).system ≡ system
unfolding restore_runs
perform_linux_restore-cancelled_example =
    perform_linux_restore-cancelled ascii file_name request impatient system refl

unmount_disk-Releases_example :
    Releases ascii world.owned
      (world.mounts 0)
      world.guarded
      (unmount_disk ascii world.owned (world.mounts 0) world.guarded (world.umount 0))
unmount_disk-Releases_example =
    unmount_disk-Releases ascii world.owned (world.mounts 0) world.guarded (world.umount 0)

format_linux_partition-Formats_example :
    Formats ascii world.run ex_fat world.loop_path
      (text "USB")
      (format_linux_partition ascii world.run ex_fat world.loop_path (text "USB") 2048 none)
format_linux_partition-Formats_example =
    format_linux_partition-Formats ascii world.run ex_fat world.loop_path (text "USB") 2048 none

abbrev owner : DesktopOwner
owner = record { uid = 1000; gid = 100 }

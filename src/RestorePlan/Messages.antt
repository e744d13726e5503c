-- ===== src/RestorePlan/Messages.antt =====
-- core/restore_message.cpp, restoreStepMessage(): the English text of each step.
use usb_restoration_tool.Text.{Text, text}
use usb_restoration_tool.Disk.{
  PartitionStyle, FileSystemType, partition_style_label, file_system_type_name,
}
use usb_restoration_tool.RestorePlan.{
  RestoreStep, verify_disk, identify_device, unmount, open_exclusive, open_drive, refresh_metadata,
  detach_drive_letters, delete_partitions, lock_drive, clear_signatures, reset_to_raw,
  write_partition_table, create_partition, reread_partition_table, wait_for_partition,
  wait_for_volume, refresh_new_volume, assign_drive_letter, format, complete,
}
use usb_restoration_tool.Prelude.{◌++◌}

unfoldable pub restore_step_message : RestoreStep → PartitionStyle → FileSystemType → Text
restore_step_message verify_disk style file_system = text "Verifying the selected USB disk"
restore_step_message identify_device style file_system = text "Identifying the block device"
restore_step_message unmount style file_system = text "Unmounting existing filesystems"
restore_step_message open_exclusive style file_system = text "Opening the device exclusively"
restore_step_message open_drive style file_system =
    text "Opening and identifying the physical drive"
restore_step_message refresh_metadata style file_system = text "Refreshing Windows disk metadata"
restore_step_message refresh_new_volume style file_system = text "Refreshing Windows disk metadata"
restore_step_message detach_drive_letters style file_system =
    text "Detaching existing volumes and drive letters"
restore_step_message delete_partitions style file_system =
    text "Deleting existing partition records"
restore_step_message lock_drive style file_system = text "Locking the physical drive"
restore_step_message clear_signatures style file_system =
    text "Clearing old MBR, GPT and ISO signatures"
restore_step_message reset_to_raw style file_system = text "Resetting the disk to RAW"
restore_step_message write_partition_table style file_system =
    text "Writing the " ++ (partition_style_label style ++ text " partition table")
restore_step_message create_partition style file_system =
    text "Creating one " ++ (partition_style_label style ++ text " data partition")
restore_step_message reread_partition_table style file_system =
    text "Re-reading the partition table"
restore_step_message wait_for_partition style file_system =
    text "Waiting for the new partition to appear"
restore_step_message wait_for_volume style file_system =
    text "Waiting for Windows to discover the new volume"
restore_step_message assign_drive_letter style file_system = text "Assigning a drive letter"
restore_step_message format style file_system =
    text "Formatting as " ++ file_system_type_name file_system
restore_step_message complete style file_system = text "Restore complete"

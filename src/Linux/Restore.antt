-- ===== src/Linux/Restore.antt =====
-- linux/linux_restore.cpp, performLinuxRestore() and formatAndRereadPartitionTable(): the restore as
-- a chain of acts on the bytes of the disk, each of which may stop it.
pub mod Phases
pub mod Plan
pub mod Gates
pub mod Cancel
pub mod Tables
use usb_restoration_tool.Text.{Text, text}
use usb_restoration_tool.Language.{Language}
use usb_restoration_tool.Qt.{Qt}
use usb_restoration_tool.Bytes.{Bytes}
use usb_restoration_tool.Disk.{DiskInfo, PartitionStyle, FileSystemType}
use usb_restoration_tool.RestorePlan.{
  RestoreStep, verify_disk, identify_device, unmount, open_exclusive, clear_signatures,
  write_partition_table, format, reread_partition_table, wait_for_partition, complete,
}
use usb_restoration_tool.Safety.Sectors.{is_valid_device_range, signature_clear_range}
use usb_restoration_tool.Safety.Layout.{
  calculate_gpt_layout, can_create_partition_layout, LayoutRefusal, is_gpt,
}
use usb_restoration_tool.Safety.Target.{
  RestoreGuard, SafetyRefusal, SameRefusal, is_safe_restore_target, is_same_restore_target,
}
use usb_restoration_tool.PartitionTable.{PartitionTableRequest}
use usb_restoration_tool.PartitionTable.Build.{
  WriteRefusal, is_writable_partition_request, build_gpt_primary, build_gpt_backup,
  gpt_backup_offset, build_mbr,
}
use usb_restoration_tool.Linux.Identity.{
  DeviceNumber, Node, IdentityRefusal, verify_identity, verify_partition_of, disk_sequence,
}
use usb_restoration_tool.Linux.Sysfs.{MountEntry}
use usb_restoration_tool.Linux.Unmount.{UnmountError, unmount_disk}
use usb_restoration_tool.Linux.Format.{ToolRun, FormatError}
use usb_restoration_tool.Linux.Tools.{
  resolve_format_tool, can_create_file_system_on, FileSystemRefusal, partition_name_for,
}
use usb_restoration_tool.Linux.Loop.{Driver}
use usb_restoration_tool.Linux.Writes.{
  Run, Answer, Outcome, done, waiting, refused, WriteError, write_at, write_zeros,
}
use usb_restoration_tool.Prelude.{
  ℕ, Bool, Option, none, some, List, [], ◌∷◌, ◌++◌, Result, ok, err, require,
}

pub record RestoreRequest : Type 0 where
  pub disk : DiskInfo
  pub style : PartitionStyle
  pub file_system : FileSystemType
  pub volume_label : Text
  pub guard : RestoreGuard
  pub display_language : Language

-- Why a restore stops.
pub data Stop : Type 0 where
  unsafe : SafetyRefusal → Stop
  no_tool not_found cannot_open cancelled no_formatter no_room : Stop
  not_same : SameRefusal → Stop
  not_unmounted : UnmountError → Stop
  not_formatted : FormatError → Stop
  no_layout : LayoutRefusal → Stop
  no_file_system : FileSystemRefusal → Stop
  not_identified : IdentityRefusal → Stop
  not_writable : WriteRefusal → Stop
  write_failed : WriteError → Stop
  still_writing flush_failed not_prepared not_detached reread_failed not_reidentified no_partition :
      Stop

-- What the kernel, the tools, the random generator and the user answer in the course of a restore.
pub record World : Type 0 where
  pub find : Text → Text
  pub refreshed : Option DiskInfo
  pub inspect_opens : Bool
  pub inspected : Node
  pub cancel_before_unmount : Bool
  -- By attempt: the mount table, what umount2() gives for a mount point, and the exclusive open.
  pub mounts : ℕ → List MountEntry
  pub umount : ℕ → Text → ℕ
  pub opens : ℕ → Bool
  pub owned : List DeviceNumber
  pub guarded : List Text
  pub claimed : Node
  pub cancel_before_table : Bool
  pub disk_guid : Bytes
  pub partition_guid : Bytes
  -- What the loop driver answers.
  pub loop : Driver
  pub cancel_before_erase : Bool
  pub rechecked : Node
  pub flushes : Bool
  -- The mapping is ready, its path, what the tool makes of the disk, and how its runs end; the
  -- environment and the password file, of which the owner of the new file system is taken.
  pub prepared : Bool
  pub tool_writes : (ℕ → ℕ) → ℕ → ℕ
  pub loop_path : Text
  pub run : List Text → ToolRun
  pub get : Text → Text
  pub to_number : Text → Option ℕ
  pub group_of : ℕ → Option ℕ
  pub detaches : Bool
  pub flushes_again : Bool
  pub rereads : Bool
  pub scanned : Node
  pub appears : Bool
  pub partition_opens : Bool
  pub partition : Node

pub record System : Type 0 where
  pub disk : ℕ → ℕ
  pub answers : List Answer

-- The steps that were reported, the system behind the act, and what it gives.
pub record Done (A : Type 0) : Type 0 where
  pub steps : List RestoreStep
  pub system : System
  pub result : Result Stop A

abbrev pub Act : Type 0 → Type 0
Act A = System → Done A

infixl 5 ◌>>=◌ ◌>>◌
abbrev pub and_then :
    {A B : Type 0} → List RestoreStep → System → Result Stop A → (A → Act B) → Done B
and_then steps s (ok a) f =
    let next = f a s in
    record { steps = steps ++ next.steps; system = next.system; result = next.result }
and_then steps s (err e) f = record { steps = steps; system = s; result = err e }

unfoldable pub ◌>>=◌ : {A B : Type 0} → Act A → (A → Act B) → Act B
(m >>= f) s = let d = m s in and_then d.steps d.system d.result f

abbrev pub ◌>>◌ : {B : Type 0} → Act (Unit {0}) → Act B → Act B
m >> k = m >>= λ _. k

unfoldable pub give : {A : Type 0} → Result Stop A → Act A
give r s = record { steps = []; system = s; result = r }

-- reportPlannedStep(): the step. Its number is what RestoreStepCounter gives (RestorePlan.antt).
unfoldable pub report : RestoreStep → Act (Unit {0})
report step s = record { steps = step ∷ []; system = s; result = ok tt }

abbrev pub must : Bool → Stop → Act (Unit {0})
must test stop = give (require test stop)

abbrev pub refusal {ℓ} : {R : Type ℓ} → (R → Stop) → Option R → Result Stop (Unit {0})
refusal stop none = ok tt
refusal stop (some r) = err (stop r)

-- checkRestoreError() around a check.
abbrev pub check {ℓ} : {R : Type ℓ} → Option R → (R → Stop) → Act (Unit {0})
check o stop = give (refusal stop o)

abbrev pub present {ℓ} : {A : Type ℓ} → Stop → Option A → Result Stop A
present stop none = err stop
present stop (some a) = ok a

abbrev pub written : Outcome → Result Stop (Unit {0})
written done = ok tt
written waiting = err still_writing
written (refused e) = err (write_failed e)

unfoldable pub write : ((ℕ → ℕ) → List Answer → Run) → Act (Unit {0})
write f s =
    let run = f s.disk s.answers in
    record {
      steps = [];
      system = record { disk = run.disk; answers = run.answers };
      result = written run.outcome;
    }

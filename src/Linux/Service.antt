-- ===== src/Linux/Service.antt =====
-- linux/linux_disk_service.cpp: the service that the worker calls, and which of the two ways a restore
-- takes. The texts for the user, and the wordings of the refusals, are functions; the detail lines of
-- a restore as root are left out.
pub mod Cancelled
pub mod Privileges
use usb_restoration_tool.Text.{Text, is_empty}
use usb_restoration_tool.Qt.{Qt}
use usb_restoration_tool.Disk.{PartitionStyle, FileSystemType, ex_fat, fat32, ntfs, ext4}
use usb_restoration_tool.RestorePlan.{RestoreStep, linux_restore_plan}
use usb_restoration_tool.RestorePlan.Messages.{restore_step_message}
use usb_restoration_tool.Linux.Restore.{RestoreRequest, World, System, Stop, cancelled, Done}
use usb_restoration_tool.Linux.Restore.Phases.{perform_linux_restore}
use usb_restoration_tool.Linux.Client.{Reader, Report, step_report, detail_report}
use usb_restoration_tool.Linux.Client.Run.{
  Host, ClientFailure, run_cancelled, probed, finish_client, run_helper_restore,
}
use usb_restoration_tool.Worker.{Event, made_step, made_detail, Outcome, Worker, run_worker}
use usb_restoration_tool.Prelude.{
  Bool, true, false, not, ◌&&◌, Option, none, some, List, [], ◌∷◌, map, if◌then◌else◌, Result, ok,
  err,
}

pub data PrivilegeMode : Type 0 where
  elevated helper no_privilege : PrivilegeMode

-- isHelperAvailable() of linux/helper_client.cpp.
unfoldable pub is_helper_available : Host → Bool
unfolding is_empty
is_helper_available host = host.helper_executable && not (is_empty host.pkexec)

unfoldable pub privilege_mode : Bool → Host → PrivilegeMode
unfolding is_helper_available
privilege_mode running_as_root host =
    if running_as_root then elevated else if is_helper_available host then helper else no_privilege

abbrev pub supported_file_systems : List FileSystemType
supported_file_systems = ex_fat ∷ fat32 ∷ ntfs ∷ ext4 ∷ []

pub record Texts : Type 0 where
  pub display_step : RestoreStep → PartitionStyle → FileSystemType → Text
  pub wording : Stop → Text
  pub display_wording : Stop → Text
  pub client_wording : ClientFailure → Text
  pub client_display_wording : ClientFailure → Text

-- The text of a step for the user: the step's own where the plan has it, the helper's otherwise.
abbrev pub client_display : Texts → RestoreRequest → Text → Option RestoreStep → Text
client_display texts request english none = english
client_display texts request english (some step) =
    texts.display_step step request.style request.file_system

abbrev pub event_of : Texts → RestoreRequest → Report → Event
event_of texts request (step_report english step) =
    made_step english (client_display texts request english step)
event_of texts request (detail_report message) = made_detail message

abbrev pub step_event : Texts → RestoreRequest → RestoreStep → Event
step_event texts request step =
    made_step (restore_step_message step request.style request.file_system)
      (texts.display_step step request.style request.file_system)

-- A cancelled restore has no error.
abbrev pub stop_text : (Stop → Text) → Stop → Text
stop_text wording cancelled = []
stop_text wording stop = wording stop

abbrev pub failure_text : (ClientFailure → Text) → ClientFailure → Text
failure_text wording run_cancelled = []
failure_text wording failure = wording failure

abbrev pub ended : {E : Type 0} → List Event → (E → Text) → (E → Text) → Result E Text → Outcome
ended events wording display (ok location) = record {
  events = events;
  restored = some location;
  error = [];
  display_error = [];
}
ended events wording display (err e) = record {
  events = events;
  restored = none;
  error = wording e;
  display_error = display e;
}

-- performLinuxRestore(), as the worker sees it.
unfoldable pub direct_outcome : Texts → RestoreRequest → Done Text → Outcome
direct_outcome texts request done =
    ended (map (step_event texts request) done.steps) (stop_text texts.wording)
      (stop_text texts.display_wording) done.result

abbrev pub is_ok : Result ClientFailure (Unit {0}) → Bool
is_ok (ok u) = true
is_ok (err e) = false

-- What runHelperRestore() reports; nothing where the helper is not started.
abbrev pub heard : Reader → Host → List Report
heard reader host =
    if is_helper_available host && (is_ok (probed reader host.probe_output) && host.pkexec_starts)
    then (finish_client reader host).reports
    else []

unfoldable pub helper_outcome : Texts → RestoreRequest → Reader → Host → Outcome
unfolding is_helper_available
helper_outcome texts request reader host =
    ended (map (event_of texts request) (heard reader host)) (failure_text texts.client_wording)
      (failure_text texts.client_display_wording) (run_helper_restore reader host)

-- LinuxDiskService::restore().
unfoldable pub restore :
    Qt → (Text → Text) → Texts → RestoreRequest → Bool → World → System → Reader → Host → Outcome
unfolding direct_outcome helper_outcome
restore qt file_name texts request running_as_root world s reader host =
    if running_as_root
    then direct_outcome texts request (perform_linux_restore qt file_name request world s)
    else helper_outcome texts request reader host

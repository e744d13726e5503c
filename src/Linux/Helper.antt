-- ===== src/Linux/Helper.antt =====
-- helper/main.cpp: the privileged half of a restore, and catalogProbe() of platform/translations.cpp.
-- The detail lines are left out, since the restore's model has none, and so are the signals. Whether
-- a catalog of texts can be loaded and the title that it holds are answers of the World of the
-- helper; the wordings of its refusals are functions.
pub mod Reported
pub mod Received
pub mod Reporter
use usb_restoration_tool.Text.{Text, text, text_eq, is_empty}
use usb_restoration_tool.Qt.{Qt}
use usb_restoration_tool.Language.{Language, english, german}
use usb_restoration_tool.Disk.{DiskInfo, PartitionStyle, FileSystemType}
use usb_restoration_tool.RestorePlan.{RestoreStep, linux_restore_plan}
use usb_restoration_tool.RestorePlan.Messages.{restore_step_message}
use usb_restoration_tool.Safety.Target.{
  RestoreGuard, SafetyRefusal, SameRefusal, is_safe_restore_target, is_same_restore_target,
}
use usb_restoration_tool.Protocol.Arguments.{RestoreArguments, ArgumentError}
use usb_restoration_tool.Protocol.Arguments.Parse.{parse_restore_arguments}
use usb_restoration_tool.Protocol.Lines.{sanitize_protocol_text}
use usb_restoration_tool.Protocol.Verdict.{
  restore_exit_success, restore_exit_failed, restore_exit_usage, restore_exit_cancelled,
}
use usb_restoration_tool.Protocol.Messages.{
  encode_version_line, encode_step_line, encode_failure_line, encode_result_line,
  restore_protocol_version,
}
use usb_restoration_tool.Linux.Enumerate.{RefreshError}
use usb_restoration_tool.Linux.Restore.{RestoreRequest, World, System, Stop, Done, cancelled}
use usb_restoration_tool.Linux.Restore.Phases.{perform_linux_restore}
use usb_restoration_tool.Prelude.{
  ℕ, ◌+◌, Bool, true, false, not, Option, none, some, List, [], ◌∷◌, ◌++◌, min, if◌then◌else◌,
  Result, ok, err, length,
}

pub data HelperError : Type 0 where
  not_root : HelperError
  bad_arguments : ArgumentError → HelperError
  not_refreshed : RefreshError → HelperError
  unsafe_disk : SafetyRefusal → HelperError
  other_disk : SameRefusal → HelperError
  stopped : Stop → HelperError

pub record HelperWorld : Type 0 where
  pub app_version : Text
  pub is_root : Bool
  pub loads : Language → Bool
  pub title : Language → Text
  pub english_wording : HelperError → Text
  pub display_wording : HelperError → Text
  pub guard : RestoreGuard
  pub refreshed : Text → Result RefreshError DiskInfo
  pub file_name : Text → Text
  pub world : World

-- The lines on the standard output, the one on the standard error, the exit code, and the disk.
pub record HelperRun : Type 0 where
  pub lines : List Text
  pub complaint : Option Text
  pub exit_code : ℕ
  pub system : System

pub data CatalogProbe : Type 0 where
  not_requested usage missing_catalog : CatalogProbe
  ready : Text → CatalogProbe

abbrev pub probe_of : HelperWorld → Option Language → CatalogProbe
probe_of w none = usage
probe_of w (some language) = if w.loads language then ready (w.title language) else missing_catalog

abbrev pub probe_language : Text → Option Language
probe_language token =
    if text_eq token (text "en")
    then some english
    else if text_eq token (text "de")
    then some german
    else none

abbrev pub probe_token : HelperWorld → List Text → CatalogProbe
probe_token w [] = usage
probe_token w (token ∷ []) = probe_of w (probe_language token)
probe_token w (token ∷ more ∷ rest) = usage

unfoldable pub catalog_probe : HelperWorld → List Text → CatalogProbe
unfolding text_eq
catalog_probe w [] = not_requested
catalog_probe w (flag ∷ rest) =
    if text_eq flag (text "--show-translation") then probe_token w rest else not_requested

abbrev pub version_announcement : Qt → HelperWorld → Text
version_announcement qt w =
    encode_version_line qt restore_protocol_version w.app_version linux_restore_plan

-- HelperReporter::step(), for each step that the restore reports.
unfoldable pub step_lines : Qt → PartitionStyle → FileSystemType → ℕ → List RestoreStep → List Text
step_lines qt style file_system reported [] = []
step_lines qt style file_system reported (step ∷ steps) =
    let total = length linux_restore_plan in
    let number = min (reported + 1) total in
    encode_step_line qt number total (restore_step_message step style file_system)
    ∷ step_lines qt style file_system number steps

-- writeFailure(): the display line only where there is a text.
unfoldable pub failure_lines : Qt → Text → List Text
unfolding is_empty
failure_lines qt display = if is_empty display then [] else encode_failure_line qt display ∷ []

abbrev pub helper_failed : Qt → HelperWorld → List Text → ℕ → HelperError → System → HelperRun
helper_failed qt w lines code e s = record {
  lines = lines ++ failure_lines qt (w.display_wording e);
  complaint = some (sanitize_protocol_text qt (w.english_wording e));
  exit_code = code;
  system = s;
}

-- A refusal that is only written to the standard error.
abbrev pub helper_misused : Qt → HelperWorld → List Text → HelperError → System → HelperRun
helper_misused qt w lines e s = record {
  lines = lines;
  complaint = some (sanitize_protocol_text qt (w.english_wording e));
  exit_code = restore_exit_usage;
  system = s;
}

abbrev pub is_cancelled : Stop → Bool
is_cancelled cancelled = true
is_cancelled _ = false

-- Behind performLinuxRestore(). A cancelled restore has no error text, and the reporter remembers
-- that the cancellation was asked for.
unfoldable pub end_restore : Qt → HelperWorld → List Text → System → Result Stop Text → HelperRun
end_restore qt w lines s (ok location) = record {
  lines = lines ++ encode_result_line qt location ∷ [];
  complaint = none;
  exit_code = restore_exit_success;
  system = s;
}
end_restore qt w lines s (err stop) =
    if is_cancelled stop
    then record { lines = lines; complaint = none; exit_code = restore_exit_cancelled; system = s }
    else helper_failed qt w lines restore_exit_failed (stopped stop) s

abbrev pub request_of : HelperWorld → RestoreArguments → DiskInfo → RestoreRequest
request_of w parsed disk = record {
  disk = disk;
  style = parsed.style;
  file_system = parsed.file_system;
  volume_label = parsed.volume_label;
  guard = w.guard;
  display_language = english;
}

abbrev pub restored : Qt → HelperWorld → RestoreArguments → Done Text → HelperRun
restored qt w parsed done =
    end_restore qt w
      (version_announcement qt w ∷ step_lines qt parsed.style parsed.file_system 0 done.steps)
      done.system done.result

abbrev pub judge_same :
    Qt → HelperWorld → RestoreArguments → DiskInfo → System → Option SameRefusal → HelperRun
judge_same qt w parsed disk s (some r) =
    helper_failed qt w (version_announcement qt w ∷ []) restore_exit_failed (other_disk r) s
judge_same qt w parsed disk s none =
    restored qt w parsed (perform_linux_restore qt w.file_name (request_of w parsed disk) w.world s)

abbrev pub judge_safe :
    Qt → HelperWorld → RestoreArguments → DiskInfo → System → Option SafetyRefusal → HelperRun
judge_safe qt w parsed disk s (some r) =
    helper_failed qt w (version_announcement qt w ∷ []) restore_exit_failed (unsafe_disk r) s
judge_safe qt w parsed disk s none =
    judge_same qt w parsed disk s (is_same_restore_target qt parsed.expected disk)

abbrev pub judge_refreshed :
    Qt → HelperWorld → RestoreArguments → System → Result RefreshError DiskInfo → HelperRun
judge_refreshed qt w parsed s (err e) =
    helper_failed qt w (version_announcement qt w ∷ []) restore_exit_failed (not_refreshed e) s
judge_refreshed qt w parsed s (ok disk) =
    judge_safe qt w parsed disk s (is_safe_restore_target qt disk w.guard)

abbrev pub judge_parsed :
    Qt → HelperWorld → System → Result ArgumentError RestoreArguments → HelperRun
judge_parsed qt w s (err e) =
    helper_misused qt w (version_announcement qt w ∷ []) (bad_arguments e) s
judge_parsed qt w s (ok parsed) =
    judge_refreshed qt w parsed s (w.refreshed parsed.expected.device_id)

-- The restore, behind the two flags that do none.
unfoldable pub helper_restore : Qt → HelperWorld → List Text → System → HelperRun
helper_restore qt w arguments s =
    if not w.is_root
    then helper_misused qt w (version_announcement qt w ∷ []) not_root s
    else judge_parsed qt w s (parse_restore_arguments qt arguments)

abbrev pub is_version_flag : List Text → Bool
is_version_flag [] = false
is_version_flag (flag ∷ []) = text_eq flag (text "--protocol-version")
is_version_flag (flag ∷ more ∷ rest) = false

abbrev pub only_lines : List Text → ℕ → System → HelperRun
only_lines lines code s = record { lines = lines; complaint = none; exit_code = code; system = s }

abbrev pub probed_or : HelperRun → System → CatalogProbe → HelperRun
probed_or run s not_requested = run
probed_or run s usage = only_lines [] restore_exit_usage s
probed_or run s missing_catalog = only_lines [] restore_exit_failed s
probed_or run s (ready line) = only_lines (line ∷ []) restore_exit_success s

-- main(), on the arguments behind the program's name.
unfoldable pub helper_main : Qt → HelperWorld → List Text → System → HelperRun
unfolding text_eq helper_restore catalog_probe
helper_main qt w arguments s =
    if is_version_flag arguments
    then only_lines (version_announcement qt w ∷ []) restore_exit_success s
    else probed_or (helper_restore qt w arguments s) s (catalog_probe w arguments)

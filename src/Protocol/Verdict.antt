-- ===== src/Protocol/Verdict.antt =====
-- core/restore_protocol.cpp, describeRestoreExit() and judgeHelperRun(): what a finished helper is
-- taken for. A process gives an exit code from 0 to 255, so it is an ℕ.
pub mod Judged
use usb_restoration_tool.Text.{Text, is_empty}
use usb_restoration_tool.Qt.{Qt}
use usb_restoration_tool.Language.{TextMode, english_text, display_text}
use usb_restoration_tool.Protocol.Lines.{sanitize_protocol_text}
use usb_restoration_tool.Prelude.{ℕ, Bool, true, false, not, ◌&&◌, ◌||◌, ◌==◌, if◌then◌else◌}

abbrev pub restore_exit_success : ℕ
restore_exit_success = 0

abbrev pub restore_exit_failed : ℕ
restore_exit_failed = 1

abbrev pub restore_exit_usage : ℕ
restore_exit_usage = 2

abbrev pub restore_exit_cancelled : ℕ
restore_exit_cancelled = 3

-- The texts that describeRestoreExit() can give, with what they name. `reported` is the text of
-- the helper alone.
pub data ExitText : Type 0 where
  no_text restore_failed authentication_cancelled not_started : ExitText
  reported failed_with_details helper_mismatch_saying : Text → ExitText
  helper_mismatch : ExitText
  stopped : ℕ → ExitText
  stopped_saying : ℕ → Text → ExitText

abbrev pub failed_text : TextMode → Bool → Text → ExitText
failed_text english_text translated said = if is_empty said then restore_failed else reported said
failed_text display_text translated said =
    if is_empty said
    then restore_failed
    else if translated
    then failed_with_details said
    else reported said

-- `translated` tells whether the display text of the details differs from its source.
unfoldable pub describe_restore_exit : Qt → Bool → ℕ → Text → TextMode → ExitText
unfolding is_empty
describe_restore_exit qt translated exit_code helper_stderr mode =
    let said = sanitize_protocol_text qt helper_stderr in
    if exit_code == restore_exit_success || exit_code == restore_exit_cancelled
    then no_text
    else if exit_code == restore_exit_failed
    then failed_text mode translated said
    else if exit_code == restore_exit_usage
    then (if is_empty said then helper_mismatch else helper_mismatch_saying said)
    else if exit_code == 126
    then authentication_cancelled
    else if exit_code == 127
    then not_started
    else if is_empty said
    then stopped exit_code
    else stopped_saying exit_code said

-- `version_error` and `display_failure` are empty where the source has an empty text.
pub record HelperRunObservation : Type 0 where
  pub crashed : Bool
  pub exit_code : ℕ
  pub saw_version : Bool
  pub version_accepted : Bool
  pub version_error : Text
  pub kill_requested : Bool
  pub location : Text
  pub helper_stderr : Text
  pub display_failure : Text

pub data FailureText : Type 0 where
  stopped_unexpectedly no_location : FailureText
  version_refused helper_failure : Text → FailureText
  exit_text : ExitText → FailureText

pub data HelperRunVerdict : Type 0 where
  succeeded cancelled : HelperRunVerdict
  failed : FailureText → HelperRunVerdict

abbrev pub is_display : TextMode → Bool
is_display display_text = true
is_display english_text = false

abbrev pub described : Qt → Bool → HelperRunObservation → TextMode → ℕ → FailureText
described qt translated run mode code =
    exit_text (describe_restore_exit qt translated code run.helper_stderr mode)

unfoldable pub judge_helper_run : Qt → Bool → HelperRunObservation → TextMode → HelperRunVerdict
unfolding is_empty
judge_helper_run qt translated run mode =
    if run.kill_requested && (not run.saw_version && (run.crashed || run.exit_code == 126))
    then cancelled
    else if run.crashed
    then failed stopped_unexpectedly
    else if run.saw_version && not run.version_accepted
    then failed (
        if is_empty run.version_error
        then described qt translated run mode restore_exit_usage
        else version_refused run.version_error)
    else if not run.saw_version
    then failed (
        described qt translated run mode (
          if run.exit_code == restore_exit_success || run.exit_code == restore_exit_cancelled
          then restore_exit_usage
          else run.exit_code))
    else if run.exit_code == restore_exit_cancelled
    then cancelled
    else if not (run.exit_code == restore_exit_success)
    then failed (
        if is_display mode && (run.version_accepted && not (is_empty run.display_failure))
        then helper_failure run.display_failure
        else described qt translated run mode run.exit_code)
    else if is_empty run.location
    then failed no_location
    else succeeded

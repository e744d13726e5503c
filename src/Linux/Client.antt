-- ===== src/Linux/Client.antt =====
-- linux/helper_client.cpp: the application starts the helper, reads its lines and decides what the
-- run was. What QProcess and QFileInfo answer is an argument, and so is fromLocal8Bit(). A failed
-- announcement is kept as the text that the two wordings give it.
pub mod Heard
pub mod Preserved
pub mod Counted
pub mod Stopped
pub mod Cancelled
pub mod Read
pub mod Finished
pub mod Chunks
pub mod Run
use usb_restoration_tool.Text.{Text, text, is_empty}
use usb_restoration_tool.Qt.{Qt, trimmed}
use usb_restoration_tool.Language.{TextMode, english_text, display_text}
use usb_restoration_tool.RestorePlan.{RestoreStep, linux_restore_plan}
use usb_restoration_tool.Protocol.Verdict.{
  HelperRunObservation, HelperRunVerdict, succeeded, cancelled, failed, FailureText,
  judge_helper_run,
}
use usb_restoration_tool.Protocol.Messages.{
  ProtocolLine, ProtocolLineKind, unknown_line, version_line, step_line, detail_line, failure_line,
  result_line, split, parse_protocol_line, accept_helper_announcement, AnnouncementRefusal,
}
use usb_restoration_tool.Prelude.{
  ℕ, ◌+◌, ◌-◌, ◌*◌, Bool, true, false, not, ◌&&◌, Option, none, some, List, [], ◌∷◌, ◌++◌, map, ltb,
  leb, if◌then◌else◌, ℤ, pos, negsuc, int_eq, length, get_elem?,
}

-- What the client needs of Qt, its own version, and the two wordings of a refused announcement.
pub record Reader : Type 0 where
  pub qt : Qt
  pub to_int : Text → Option ℤ
  pub decode : List ℕ → Text
  pub our_version : Text
  pub translated : Bool
  pub wording : TextMode → AnnouncementRefusal → Text

abbrev pub max_buffered_bytes : ℕ
max_buffered_bytes = 64 * 1024

abbrev pub but_last : List (List ℕ) → List (List ℕ)
but_last [] = []
but_last (part ∷ []) = []
but_last (part ∷ next ∷ rest) = part ∷ but_last (next ∷ rest)

abbrev pub last_part : List (List ℕ) → List ℕ
last_part [] = []
last_part (part ∷ []) = part
last_part (part ∷ next ∷ rest) = last_part (next ∷ rest)

-- The lines behind the loop over the newlines: a buffer that is too long is a line of its own.
abbrev pub with_overflow : (List ℕ → Text) → List Text → List ℕ → List Text × List ℕ
with_overflow decode lines rest =
    if ltb max_buffered_bytes (length rest) then (lines ++ decode rest ∷ [], []) else (lines, rest)

-- takeCompleteLines(): the lines, and the buffer that is left.
unfoldable pub take_complete_lines : Reader → List ℕ → List Text × List ℕ
unfolding split
take_complete_lines reader buffer =
    let parts = split b'\n' buffer in
    with_overflow reader.decode
      (map (λ part. trimmed reader.qt (reader.decode part)) (but_last parts)) (last_part parts)

-- What RestoreReporter is told: a step with its text and the step of the plan that its display text
-- is taken from, or a detail.
pub data Report : Type 0 where
  step_report : Text → Option RestoreStep → Report
  detail_report : Text → Report

-- The variables of runHelperRestore(), what was reported, and how often the cancel token was written
-- and the process killed.
pub record ClientState : Type 0 where
  pub buffer : List ℕ
  pub location : Text
  pub display_failure : Text
  pub saw_version : Bool
  pub version_accepted : Bool
  pub version_error : Text
  pub display_version_error : Text
  pub cancel_token_written : Bool
  pub kill_requested : Bool
  pub reports : List Report
  pub tokens : ℕ
  pub kills : ℕ

abbrev pub client_start : ClientState
client_start = record {
  buffer = [];
  location = [];
  display_failure = [];
  saw_version = false;
  version_accepted = false;
  version_error = [];
  display_version_error = [];
  cancel_token_written = false;
  kill_requested = false;
  reports = [];
  tokens = 0;
  kills = 0;
}

-- The lambda askHelperToStop.
unfoldable pub ask_helper_to_stop : ClientState → ClientState
ask_helper_to_stop s =
    if s.cancel_token_written
    then s
    else record s { cancel_token_written = true; tokens = s.tokens + 1 }

abbrev pub announcement_refusal : Reader → TextMode → ProtocolLine → Option AnnouncementRefusal
announcement_refusal reader mode line =
    accept_helper_announcement reader.qt reader.translated mode line reader.our_version
      linux_restore_plan

-- The state behind acceptAnnouncement().
abbrev pub answered : Reader → ClientState → Option AnnouncementRefusal → ClientState
answered reader s none = record s { version_accepted = true; saw_version = true }
answered reader s (some refusal) = ask_helper_to_stop (record s {
  version_accepted = false;
  saw_version = true;
  version_error = reader.wording english_text refusal;
  display_version_error = reader.wording display_text refusal;
})

-- A second announcement is refused without being looked at.
unfoldable pub on_version : Reader → ProtocolLine → ClientState → ClientState
on_version reader line s =
    if s.saw_version
    then ask_helper_to_stop (record s { version_accepted = false; saw_version = true })
    else answered reader s (announcement_refusal reader english_text line)

abbrev pub reported : Report → ClientState → ClientState
reported r s = record s { reports = s.reports ++ r ∷ [] }

-- A number within the plan.
abbrev pub plan_index : ℤ → Option ℕ
plan_index (negsuc n) = none
plan_index (pos n) = if leb 1 n && leb n (length linux_restore_plan) then some (n - 1) else none

abbrev pub plan_step : Option ℕ → Option RestoreStep
plan_step none = none
plan_step (some i) = get_elem? linux_restore_plan i

unfoldable pub on_step : ProtocolLine → ClientState → ClientState
on_step line s =
    reported
      (step_report line.text (
        if s.version_accepted && int_eq line.total_steps (pos (length linux_restore_plan))
        then plan_step (plan_index line.step)
        else none))
      s

unfoldable pub on_failure : ProtocolLine → ClientState → ClientState
unfolding is_empty
on_failure line s =
    if s.version_accepted && (is_empty s.display_failure && not (is_empty line.text))
    then record s { display_failure = line.text }
    else s

-- The switch over the kind of a line.
abbrev pub dispatch : Reader → Text → ProtocolLine → ProtocolLineKind → ClientState → ClientState
dispatch reader line parsed version_line s = on_version reader parsed s
dispatch reader line parsed step_line s = on_step parsed s
dispatch reader line parsed detail_line s = reported (detail_report parsed.text) s
dispatch reader line parsed failure_line s = on_failure parsed s
dispatch reader line parsed result_line s = record s { location = parsed.text }
dispatch reader line parsed unknown_line s = reported (detail_report (text "helper: " ++ line)) s

unfoldable pub consume_line : Reader → Text → ClientState → ClientState
unfolding on_version on_step on_failure is_empty
consume_line reader line s =
    if is_empty line
    then s
    else let parsed = parse_protocol_line reader.qt reader.to_int line in
      dispatch reader line parsed parsed.kind s

-- The lambda consume.
unfoldable pub consume : Reader → List Text → ClientState → ClientState
unfolding consume_line
consume reader [] s = s
consume reader (line ∷ lines) s = consume reader lines (consume_line reader line s)

unfoldable pub read_output : Reader → List ℕ → ClientState → ClientState
unfolding take_complete_lines consume
read_output reader output s =
    let taken = take_complete_lines reader (s.buffer ++ output) in
    consume reader taken.0 (record s { buffer = taken.1 })

-- A cancellation that the user asked for.
unfoldable pub on_cancel : Bool → ClientState → ClientState
on_cancel requested s =
    if requested && not s.cancel_token_written
    then (if s.saw_version
        then ask_helper_to_stop s
        else if s.kill_requested
        then s
        else record s { kill_requested = true; kills = s.kills + 1 })
    else s

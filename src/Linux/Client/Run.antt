-- ===== src/Linux/Client/Run.antt =====
-- linux/helper_client.cpp, runHelperRestore(): the loop, the end of the process and the verdict.
use usb_restoration_tool.Text.{Text, is_empty}
use usb_restoration_tool.Qt.{trimmed}
use usb_restoration_tool.Language.{english_text, display_text}
use usb_restoration_tool.Protocol.Verdict.{
  HelperRunObservation, HelperRunVerdict, succeeded, cancelled, failed, FailureText,
  judge_helper_run,
}
use usb_restoration_tool.Protocol.Messages.{parse_protocol_line, AnnouncementRefusal}
use usb_restoration_tool.Linux.Client.{
  ClientState, Reader, announcement_refusal, client_start, consume, on_cancel, read_output,
}
use usb_restoration_tool.Prelude.{
  ℕ, Bool, not, Option, none, some, List, [], ◌∷◌, if◌then◌else◌, Result, ok, err, ◌>>◌, require,
}

-- One pass of the loop while the process runs: what it wrote, and whether a cancellation is wanted.
pub record Poll : Type 0 where
  pub output : List ℕ
  pub cancel_requested : Bool

unfoldable pub poll : Reader → Poll → ClientState → ClientState
unfolding read_output on_cancel
poll reader p s = on_cancel p.cancel_requested (read_output reader p.output s)

unfoldable pub poll_all : Reader → List Poll → ClientState → ClientState
unfolding poll
poll_all reader [] s = s
poll_all reader (p ∷ ps) s = poll_all reader ps (poll reader p s)

-- How the process ended, with what it had still written.
pub record Exit : Type 0 where
  pub output : List ℕ
  pub crashed : Bool
  pub exit_code : ℕ
  pub error_output : List ℕ

-- The last line has no newline behind it.
unfoldable pub drain : Reader → Exit → ClientState → ClientState
unfolding read_output is_empty
drain reader exit s =
    let t = read_output reader exit.output s in
    if is_empty t.buffer
    then t
    else consume reader (trimmed reader.qt (reader.decode t.buffer) ∷ []) t

abbrev pub observation : Reader → Exit → ClientState → HelperRunObservation
observation reader exit s = record {
  crashed = exit.crashed;
  exit_code = exit.exit_code;
  saw_version = s.saw_version;
  version_accepted = s.version_accepted;
  version_error = s.version_error;
  kill_requested = s.kill_requested;
  location = s.location;
  helper_stderr = trimmed reader.qt (reader.decode exit.error_output);
  display_failure = s.display_failure;
}

-- The machine: whether the helper and pkexec are there, what the helper answers to
-- --protocol-version, whether pkexec starts, and how the process runs.
pub record Host : Type 0 where
  pub helper_executable : Bool
  pub pkexec : Text
  pub probe_output : Option (List ℕ)
  pub pkexec_starts : Bool
  pub polls : List Poll
  pub exit : Exit

-- `run_failed` has the text of the log, and the verdict in the language of the user.
pub data ClientFailure : Type 0 where
  no_helper no_pkexec probe_not_started pkexec_not_started run_cancelled : ClientFailure
  wrong_helper : AnnouncementRefusal → ClientFailure
  run_failed : FailureText → HelperRunVerdict → ClientFailure

abbrev pub concluded : HelperRunVerdict → HelperRunVerdict → Text → Result ClientFailure Text
concluded succeeded display location = ok location
concluded cancelled display location = err run_cancelled
concluded (failed why) display location = err (run_failed why display)

unfoldable pub judge_client : Reader → Exit → ClientState → Result ClientFailure Text
judge_client reader exit s =
    let run = observation reader exit s in
    concluded (judge_helper_run reader.qt reader.translated run english_text)
      (judge_helper_run reader.qt reader.translated
        (record run { version_error = s.display_version_error }) display_text)
      s.location

abbrev pub probe_answer : Option AnnouncementRefusal → Result ClientFailure (Unit {0})
probe_answer none = ok tt
probe_answer (some refusal) = err (wrong_helper refusal)

abbrev pub probed : Reader → Option (List ℕ) → Result ClientFailure (Unit {0})
probed reader none = err probe_not_started
probed reader (some output) = probe_answer (
    announcement_refusal reader english_text
      (parse_protocol_line reader.qt reader.to_int (trimmed reader.qt (reader.decode output))))

unfoldable pub finish_client : Reader → Host → ClientState
unfolding poll_all drain
finish_client reader host = drain reader host.exit (poll_all reader host.polls client_start)

-- The location of the restored volume, or why there is none.
unfoldable pub run_helper_restore : Reader → Host → Result ClientFailure Text
unfolding finish_client is_empty
run_helper_restore reader host = do
  require host.helper_executable no_helper
  require (not (is_empty host.pkexec)) no_pkexec
  probed reader host.probe_output
  require host.pkexec_starts pkexec_not_started
  judge_client reader host.exit (finish_client reader host)

-- ===== src/Examples/ClientRuns.antt =====
-- Runs of linux/helper_client.cpp, and its theorems at concrete inputs.
use usb_restoration_tool.Examples.Data.{reader}
use usb_restoration_tool.Text.{Text, text, is_empty, text_eq, contains}
use usb_restoration_tool.Qt.{trimmed, drop_while}
use usb_restoration_tool.RestorePlan.{first_destructive_step_of, changes_disk_contents}
use usb_restoration_tool.Protocol.Decimal.{parse_decimal, decimal_loop, decimal_step}
use usb_restoration_tool.Protocol.Verdict.{judge_helper_run}
use usb_restoration_tool.Protocol.Messages.{
  parse_protocol_line, accept_helper_announcement, before, behind, split, split_non_empty,
  take_details, take_detail, parse_version, parse_step, parse_keyword, older_version,
}
use usb_restoration_tool.Linux.Client.{
  ask_helper_to_stop, on_version, on_step, on_failure, consume_line, consume, read_output,
  take_complete_lines, on_cancel,
}
use usb_restoration_tool.Linux.Client.Run.{
  Poll, Host, poll, poll_all, drain, finish_client, judge_client, run_helper_restore, wrong_helper,
}
use usb_restoration_tool.Linux.Client.Read.{poll_lines}
use usb_restoration_tool.Linux.Client.Finished.{IsFinished, run_helper_restore-IsFinished}
use usb_restoration_tool.Linux.Client.Stopped.{IsAsked, finish_client-IsAsked}
use usb_restoration_tool.Linux.Client.Cancelled.{finish_client-cancels}
use usb_restoration_tool.Linux.Client.Heard.{announcements, parsed_lines}
use usb_restoration_tool.Linux.Client.Chunks.{outputs, lines_of, poll_lines-split}
use usb_restoration_tool.Prelude.{
  ◌≡◌, refl, ◌≢◌, ◌↔◌, Bool, true, false, some, List, [], ◌∷◌, ◌++◌, any, arith, ok, err,
}

unfoldable pub client_runs : Unit {0}
unfolding text_eq is_empty contains trimmed drop_while first_destructive_step_of
    changes_disk_contents parse_decimal decimal_loop decimal_step judge_helper_run
    parse_protocol_line accept_helper_announcement before behind split split_non_empty take_details
    take_detail parse_version parse_step parse_keyword ask_helper_to_stop on_version on_step
    on_failure consume_line consume read_output take_complete_lines on_cancel poll poll_all drain
    finish_client judge_client run_helper_restore outputs any
client_runs = tt

abbrev pass : Text → Bool → Poll
pass output cancel = record { output = output; cancel_requested = cancel }

-- The announcement in two pieces, and a line without a newline at the end.
abbrev polls : List Poll
polls =
    pass (text "version 5 app 1.2 steps 10 destru") false
    ∷ pass (text "ctive 5" ++ b'\n' ∷ text "step 1/10 go" ++ b'\n' ∷ []) false
    ∷ []

abbrev host : Host
host = record {
  helper_executable = true;
  pkexec = text "/usr/bin/pkexec";
  probe_output = some (text "version 5 steps 10 destructive 5");
  pkexec_starts = true;
  polls = polls;
  exit = record {
    output = text "result /dev/sdb1";
    crashed = false;
    exit_code = 0;
    error_output = [];
  };
}

restored : run_helper_restore reader host ≡ ok (text "/dev/sdb1")
unfolding client_runs
restored = refl

-- A helper of before the plan was announced.
old_helper :
    run_helper_restore reader (record host { probe_output = some (text "version 5") })
    ≡ err (wrong_helper older_version)
unfolding client_runs
old_helper = refl

run_helper_restore-IsFinished_example :
    (run_helper_restore reader host ≡ ok (text "/dev/sdb1"))
    ↔ IsFinished reader host (text "/dev/sdb1")
run_helper_restore-IsFinished_example = run_helper_restore-IsFinished reader host (text "/dev/sdb1")

finish_client-IsAsked_example : IsAsked reader host
finish_client-IsAsked_example = finish_client-IsAsked reader host

abbrev version_output : Text
version_output = text "version 5 app 1.2 steps 10 destructive 5" ++ b'\n' ∷ []

-- A helper that announces itself twice is asked to stop, once.
twice :
    (finish_client reader
      (record host { polls = pass version_output false ∷ pass version_output false ∷ [] })).tokens
    ≡ 1
unfolding client_runs
twice = refl

-- Cancelled once before the announcement, and again behind it.
abbrev cancelled_host : Host
cancelled_host = record host {
  polls = pass [] false ∷ pass (text "version") true ∷ pass (text " 5" ++ b'\n' ∷ []) true ∷ [];
}

finish_client-cancels_example :
    let so_far = announcements (
      parsed_lines reader
        (poll_lines reader [] (
          (pass [] false ∷ pass (text "version") true ∷ [])
          ++ pass (text " 5" ++ b'\n' ∷ []) true ∷ [])).0) in
    (so_far ≢ [] → (finish_client reader cancelled_host).tokens ≡ 1)
    × (so_far ≡ [] → (finish_client reader cancelled_host).kills ≡ 1)
finish_client-cancels_example =
    finish_client-cancels reader cancelled_host (pass [] false ∷ pass (text "version") true ∷ [])
      (pass (text " 5" ++ b'\n' ∷ []) true) [] refl refl

poll_lines-split_example :
    poll_lines reader [] polls ≡ lines_of reader (split b'\n' (outputs polls))
unfolding client_runs
poll_lines-split_example = poll_lines-split reader polls (omega arith)

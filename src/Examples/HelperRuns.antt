-- ===== src/Examples/HelperRuns.antt =====
-- Runs of helper/main.cpp, and its theorems at concrete inputs.
use usb_restoration_tool.Examples.Data.{ascii, stick, guard, world, system}
use usb_restoration_tool.Text.{Text, text, text_eq}
use usb_restoration_tool.Linux.Helper.{
  HelperWorld, helper_restore, helper_main, catalog_probe, end_restore, step_lines,
}
use usb_restoration_tool.Linux.Helper.Reported.{IsRefused, IsRestored, helper_restore-gates}
use usb_restoration_tool.Linux.Helper.Received.{IsDone, run_helper_restore-IsDone}
use usb_restoration_tool.Examples.Data.{reader}
use usb_restoration_tool.Examples.MessageRuns.{ascii-QtLaws, digits_to_int-ReadsNumbers}
use usb_restoration_tool.Examples.RestoreRuns.{restore_runs}
use usb_restoration_tool.Examples.ProtocolRuns.{protocol_runs}
use usb_restoration_tool.Examples.ClientRuns.{client_runs}
use usb_restoration_tool.Linux.Helper.{HelperRun, version_announcement}
use usb_restoration_tool.Linux.Client.Run.{Host, run_helper_restore}
use usb_restoration_tool.Linux.Client.Read.{poll_lines, helper_lines}
use usb_restoration_tool.RestorePlan.Messages.{restore_step_message}
use usb_restoration_tool.Protocol.Messages.{
  encode_version_line, encode_step_line, encode_result_line,
}
use usb_restoration_tool.Disk.{partition_style_label, file_system_type_name}
use usb_restoration_tool.Linux.Helper.Reporter.{
  Stdin, new_reporter, ask_all, holds, bytes_of, cancel_request_token, ask_all-holds,
}
use usb_restoration_tool.Prelude.{
  ℕ, ◌≡◌, refl, ◌≢◌, ◌↔◌, ◌⊎◌, true, false, none, some, List, [], ◌∷◌, ◌++◌, ok, drop,
}

unfoldable pub helper_runs : Unit {0}
unfolding restore_runs protocol_runs client_runs helper_restore end_restore step_lines
    encode_step_line encode_version_line encode_result_line restore_step_message poll_lines
    helper_lines partition_style_label file_system_type_name
helper_runs = tt

abbrev helper_world : HelperWorld
helper_world = record {
  app_version = text "1.2";
  is_root = true;
  loads = λ language. true;
  title = λ language. text "Elevated permission required";
  english_wording = λ e. text "refused";
  display_wording = λ e. text "refused";
  guard = guard;
  refreshed = λ id. ok stick;
  file_name = λ path. drop 5 path;
  world = world;
}

abbrev command_line : List Text
command_line =
    text "--device"
    ∷ text "/dev/sdb"
    ∷ text "--style"
    ∷ text "gpt"
    ∷ text "--filesystem"
    ∷ text "exfat"
    ∷ text "--label"
    ∷ text "USB"
    ∷ text "--expect-size"
    ∷ text "16000000000"
    ∷ text "--expect-sector-size"
    ∷ text "512"
    ∷ text "--language"
    ∷ text "en"
    ∷ []

-- The title of a catalog, asked for by anyone.
probed :
    helper_main ascii
      (record helper_world { is_root = false })
      (text "--show-translation" ∷ text "de" ∷ [])
      system
    ≡ record {
      lines = text "Elevated permission required" ∷ [];
      complaint = none;
      exit_code = 0;
      system = system;
    }
unfolding text_eq helper_main catalog_probe
probed = refl

helper_restore-gates_example :
    IsRefused ascii helper_world command_line system
      (helper_restore ascii helper_world command_line system)
    ⊎ IsRestored ascii helper_world command_line system
        (helper_restore ascii helper_world command_line system)
helper_restore-gates_example = helper_restore-gates ascii helper_world command_line system

abbrev run : HelperRun
run = helper_restore ascii helper_world command_line system

abbrev output_of : List Text → List ℕ
output_of [] = []
output_of (t ∷ ts) = t ++ b'\n' ∷ output_of ts

abbrev pub host : Host
host = record {
  helper_executable = true;
  pkexec = text "/usr/bin/pkexec";
  probe_output = some (version_announcement ascii helper_world);
  pkexec_starts = true;
  polls = record { output = output_of run.lines; cancel_requested = false } ∷ [];
  exit = record { output = []; crashed = false; exit_code = run.exit_code; error_output = [] };
}

received : run_helper_restore reader host ≡ ok (text "/dev/sdb1")
unfolding helper_runs
received = refl

run_helper_restore-IsDone_example : (run_helper_restore reader host ≡ ok (text "/dev/sdb1")) ↔ (
    IsDone reader ascii-QtLaws digits_to_int-ReadsNumbers helper_world command_line system host
      (text "/dev/sdb1")
    × (text "/dev/sdb1" ≢ []))
unfolding helper_runs
run_helper_restore-IsDone_example =
    run_helper_restore-IsDone reader ascii-QtLaws digits_to_int-ReadsNumbers helper_world
      command_line system host (version_announcement ascii helper_world) (text "/dev/sdb1") refl
      (λ e. cc) refl refl refl refl refl refl

-- The token in two reads, with nothing to read in between.
abbrev stdins : List Stdin
stdins =
    record { is_terminal = false; received = some (text "can") }
    ∷ record { is_terminal = false; received = none }
    ∷ record { is_terminal = false; received = some (text "cel" ++ b'\n' ∷ []) }
    ∷ []

ask_all-holds_example :
    (ask_all stdins new_reporter).cancelled ≡ holds cancel_request_token (bytes_of stdins)
ask_all-holds_example = ask_all-holds stdins

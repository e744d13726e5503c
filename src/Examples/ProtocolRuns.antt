-- ===== src/Examples/ProtocolRuns.antt =====
-- Runs of core/restore_protocol.cpp, and its theorems at concrete inputs.
use usb_restoration_tool.Examples.Data.{ascii, stick}
use usb_restoration_tool.Text.{Text, text, text_eq, is_empty, starts_with, contains}
use usb_restoration_tool.Qt.{trimmed, drop_while}
use usb_restoration_tool.Disk.{
  gpt, mbr, fat32, no_disk, ex_fat, file_system_type_token, parse_file_system_type,
}
use usb_restoration_tool.Language.{display_text, german, english, other_locale, resolve_language}
use usb_restoration_tool.Protocol.Decimal.{
  decimal_step, parse_decimal, number, decimal_loop, digits_of,
}
use usb_restoration_tool.Protocol.Arguments.{
  RestoreArguments, is_plausible_device_node_path, is_valid_volume_label, is_device_name_character,
  is_volume_label_character,
}
use usb_restoration_tool.Protocol.Arguments.Build.{build_restore_arguments, arguments_for}
use usb_restoration_tool.Protocol.Arguments.Parse.{
  parse_restore_arguments, collect, collect_one, take_option, take_sequence, take_language,
  check_collected, parse_style, parse_positive,
}
use usb_restoration_tool.Protocol.Arguments.RoundTrip.{IsSequence}
use usb_restoration_tool.Protocol.Arguments.RoundTrip.Sent.{sent, parse-build_restore_arguments}
use usb_restoration_tool.Protocol.Arguments.Accepted.{Accepted, parse_restore_arguments-Accepted}
use usb_restoration_tool.Protocol.Lines.{sanitize_protocol_text, sanitize_loop, chop_if}
use usb_restoration_tool.Protocol.Lines.Sanitized.{IsOneLine, sanitize_protocol_text-IsOneLine}
use usb_restoration_tool.Protocol.Verdict.{
  HelperRunObservation, judge_helper_run, succeeded, describe_restore_exit,
}
use usb_restoration_tool.Prelude.{◌≡◌, refl, true, false, List, [], ◌∷◌, any, arith, ok}

unfoldable pub protocol_runs : Unit {0}
unfolding text_eq is_empty starts_with contains any trimmed drop_while parse_decimal number
    decimal_loop digits_of parse_restore_arguments build_restore_arguments arguments_for collect
    collect_one take_option take_sequence take_language check_collected parse_style parse_positive
    is_plausible_device_node_path is_valid_volume_label is_device_name_character
    is_volume_label_character parse_file_system_type file_system_type_token resolve_language
    sanitize_protocol_text sanitize_loop chop_if decimal_step judge_helper_run describe_restore_exit
protocol_runs = tt

-- A request as a caller would write it.
abbrev words : List Text
words =
    text "--device"
    ∷ text "/dev/sdb"
    ∷ text "--style"
    ∷ text "mbr"
    ∷ text "--filesystem"
    ∷ text "fat32"
    ∷ text "--label"
    ∷ text "USB"
    ∷ text "--expect-size"
    ∷ text "16000000000"
    ∷ text "--expect-sector-size"
    ∷ text "512"
    ∷ text "--language"
    ∷ text "en"
    ∷ []

abbrev run : HelperRunObservation
run = record {
  crashed = false;
  exit_code = 0;
  saw_version = true;
  version_accepted = true;
  version_error = [];
  kill_requested = true;
  location = text "/dev/sdb1";
  helper_stderr = [];
  display_failure = [];
}

two_lines : sanitize_protocol_text ascii (text " mkfs: \n bad  block ") ≡ text "mkfs: bad block"
unfolding protocol_runs
two_lines = refl

done_run : judge_helper_run ascii false run display_text ≡ succeeded
unfolding protocol_runs
done_run = refl

parse-build_restore_arguments_example :
    parse_restore_arguments ascii
      (build_restore_arguments ascii (λ name. other_locale) [] stick gpt ex_fat (text "USB") german)
    ≡ ok (
        sent ascii stick gpt ex_fat
          (text "USB")
          (resolve_language (λ name. other_locale) german []))
unfolding protocol_runs IsSequence
parse-build_restore_arguments_example =
    parse-build_restore_arguments ascii (λ name. other_locale) [] stick gpt ex_fat (text "USB")
      german
      (record {
        plausible = refl;
        valid = refl;
        has_size = omega arith;
        size_fits = omega arith;
        has_sector = omega arith;
        sector_fits = omega arith;
        sequence_fits = (omega arith, omega arith);
      })

abbrev asked_for : RestoreArguments
asked_for = record {
  expected = record no_disk {
    device_id = text "/dev/sdb";
    display_id = text "/dev/sdb";
    size = 16000000000;
    sector_size = 512;
  };
  style = mbr;
  file_system = fat32;
  volume_label = text "USB";
  display_language = english;
}

parse_restore_arguments-Accepted_example : Accepted ascii asked_for
unfolding protocol_runs
parse_restore_arguments-Accepted_example =
    parse_restore_arguments-Accepted ascii words asked_for refl

sanitize_protocol_text-IsOneLine_example :
    IsOneLine ascii (sanitize_protocol_text ascii (text " mkfs: \n bad  block "))
sanitize_protocol_text-IsOneLine_example =
    sanitize_protocol_text-IsOneLine ascii (text " mkfs: \n bad  block ")

-- ===== src/Examples/MessageRuns.antt =====
-- Runs of the lines of core/restore_protocol.cpp, and their theorems at concrete inputs.
use usb_restoration_tool.Examples.Data.{ascii, as_int, digits_to_int}
use usb_restoration_tool.Text.{text, is_empty, text_eq, contains, Text}
use usb_restoration_tool.Qt.{QtLaws, trimmed, drop_while}
use usb_restoration_tool.Language.{display_text}
use usb_restoration_tool.RestorePlan.{
  linux_restore_plan, windows_restore_plan, first_destructive_step_of, changes_disk_contents,
}
use usb_restoration_tool.Protocol.Decimal.{
  number, digits_of, parse_decimal, decimal_loop, decimal_step, parse-number,
}
use usb_restoration_tool.Protocol.Lines.{sanitize_protocol_text}
use usb_restoration_tool.Protocol.Messages.{
  no_line, step_line, version_line, encode_version_line, encode_step_line, encode_detail_line,
  parse_protocol_line, accept_helper_announcement, restore_protocol_version, before, behind, split,
  split_non_empty, take_details, parse_version, parse_step, parse_keyword,
}
use usb_restoration_tool.Protocol.Messages.Sent.{ReadsNumbers}
use usb_restoration_tool.Protocol.Messages.Steps.{parse-encode_step_line}
use usb_restoration_tool.Protocol.Messages.Accepted.{accept-encode_version_line}
use usb_restoration_tool.Prelude.{
  ℕ, ◌-◌, ◌^◌, ◌≡◌, refl, ap, ◌≢◌, ◌↔◌, false, none, [], ◌∷◌, map, any, arith, pos, length,
}

message_runs : Unit {0}
unfolding text_eq is_empty contains trimmed drop_while first_destructive_step_of
    changes_disk_contents number digits_of parse_decimal decimal_step decimal_loop
    sanitize_protocol_text encode_version_line encode_step_line encode_detail_line
    parse_protocol_line parse_keyword parse_version parse_step take_details before behind split
    split_non_empty accept_helper_announcement any
message_runs = tt

pub digits_to_int-ReadsNumbers : ReadsNumbers digits_to_int
digits_to_int-ReadsNumbers = record {
  reads = λ n h. ap as_int (parse-number n (2 ^ 31 - 1) (omega arith));
}

map_ne : (f : ℕ → ℕ) (t : Text) → t ≢ [] → map f t ≢ []
map_ne f [] ne e = ne refl
map_ne f (x ∷ xs) ne e = cc

pub ascii-QtLaws : QtLaws ascii
ascii-QtLaws = record {
  space = refl;
  printable = λ c h k. ground arith;
  folds = λ t ne e. map_ne _ t ne e;
}

bad_step : parse_protocol_line ascii digits_to_int (text "step 3/x writing") ≡ no_line
unfolding message_runs
bad_step = refl

-- A detail that is repeated leaves all of them unset.
repeated :
    parse_protocol_line ascii digits_to_int (text " version 5 steps 10 steps 10 ")
    ≡ record no_line { kind = version_line; version = pos 5 }
unfolding message_runs
repeated = refl

parse-encode_step_line_example :
    parse_protocol_line ascii digits_to_int (encode_step_line ascii 3 10 []) ≡ record no_line {
      kind = step_line;
      step = pos 3;
      total_steps = pos 10;
      text = sanitize_protocol_text ascii [];
    }
parse-encode_step_line_example =
    parse-encode_step_line ascii digits_to_int ascii-QtLaws digits_to_int-ReadsNumbers 3 10
      (omega arith) (omega arith) []

accept-encode_version_line_example :
    (accept_helper_announcement ascii false display_text
        (parse_protocol_line ascii digits_to_int
          (encode_version_line ascii 5 (text "1.2") windows_restore_plan))
        (text "1.2")
        linux_restore_plan
      ≡ none)
    ↔ ((5 ≡ restore_protocol_version)
        × (length windows_restore_plan ≡ length linux_restore_plan)
        × (first_destructive_step_of windows_restore_plan
            ≡ first_destructive_step_of linux_restore_plan))
unfolding message_runs
accept-encode_version_line_example =
    accept-encode_version_line ascii digits_to_int ascii-QtLaws digits_to_int-ReadsNumbers 5
      (text "1.2") windows_restore_plan (omega arith) (omega arith) (omega arith) false display_text
      (text "1.2") linux_restore_plan

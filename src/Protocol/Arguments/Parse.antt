-- ===== src/Protocol/Arguments/Parse.antt =====
-- core/restore_protocol.cpp, parseRestoreArguments(): the loop over the arguments and the tests behind it.
use usb_restoration_tool.Text.{Text, text, text_eq, contains}
use usb_restoration_tool.Qt.{Qt}
use usb_restoration_tool.Disk.{DiskInfo, PartitionStyle, mbr, gpt, parse_file_system_type}
use usb_restoration_tool.Language.{english, german}
use usb_restoration_tool.Protocol.Decimal.{parse_decimal}
use usb_restoration_tool.Prelude.{
  ℕ, ◌-◌, Bool, true, false, Option, none, some, List, [], ◌∷◌, ◌==◌, if◌then◌else◌, Result, ok,
  err, ◌>>=◌, ◌>>◌, require, u32_mod, u64_mod,
}
use usb_restoration_tool.Protocol.Arguments.{
  ArgumentError, RestoreArguments, bad_device, bad_file_system, bad_label, bad_language,
  bad_sector_size, bad_sequence, bad_size, bad_style, device_flag, expect_name_flag,
  expect_path_flag, expect_sector_size_flag, expect_sequence_flag, expect_serial_flag,
  expect_size_flag, expect_unique_id_flag, file_system_flag, is_plausible_device_node_path,
  is_valid_volume_label, label_flag, language_flag, no_arguments, not_recognised, repeated,
  style_flag, without_value,
}

-- The local variables of the loop.
pub record Collected : Type 0 where
  pub result : RestoreArguments
  pub device : Text
  pub style : Text
  pub file_system : Text
  pub size : Text
  pub sector_size : Text
  pub seen : List Text
  pub saw_language : Bool

abbrev pub nothing_collected : Collected
nothing_collected = record {
  result = no_arguments;
  device = [];
  style = [];
  file_system = [];
  size = [];
  sector_size = [];
  seen = [];
  saw_language = false;
}

abbrev pub expect : Collected → DiskInfo → Collected
expect c disk = record c { result = record (c.result) { expected = disk } }

-- Behind the call of parseDecimal(): the number is not 0.
abbrev pub positive : Option ℕ → Option ℕ
positive none = none
positive (some n) = if n == 0 then none else some n

unfoldable pub parse_positive : Text → ℕ → Option ℕ
parse_positive value maximum = positive (parse_decimal value maximum)

abbrev pub sequence_result : Collected → Option ℕ → Result ArgumentError Collected
sequence_result c none = err bad_sequence
sequence_result c (some n) = ok (expect c (record (c.result.expected) { device_sequence = some n }))

unfoldable pub take_sequence : Collected → Text → Result ArgumentError Collected
take_sequence c value = sequence_result c (parse_positive value (u64_mod - 1))

unfoldable pub take_language : Collected → Text → Result ArgumentError Collected
unfolding text_eq
take_language c value =
    if text_eq value (text "en")
    then ok (record c {
      result = record (c.result) { display_language = english };
      saw_language = true;
    })
    else if text_eq value (text "de")
    then ok
        (record c { result = record (c.result) { display_language = german }; saw_language = true })
    else err bad_language

-- The ladder of tests on the flag.
unfoldable pub take_option : Collected → Text → Text → Result ArgumentError Collected
unfolding text_eq
take_option c flag value =
    let e = c.result.expected in
    if text_eq flag device_flag
    then ok (record c { device = value })
    else if text_eq flag style_flag
    then ok (record c { style = value })
    else if text_eq flag file_system_flag
    then ok (record c { file_system = value })
    else if text_eq flag label_flag
    then ok (record c { result = record (c.result) { volume_label = value } })
    else if text_eq flag expect_size_flag
    then ok (record c { size = value })
    else if text_eq flag expect_sector_size_flag
    then ok (record c { sector_size = value })
    else if text_eq flag expect_sequence_flag
    then take_sequence c value
    else if text_eq flag expect_serial_flag
    then ok (expect c (record e { serial_number = value }))
    else if text_eq flag expect_unique_id_flag
    then ok (expect c (record e { unique_id = value }))
    else if text_eq flag expect_path_flag
    then ok (expect c (record e { path = value }))
    else if text_eq flag expect_name_flag
    then ok (expect c (record e { name = value }))
    else if text_eq flag language_flag
    then take_language c value
    else err (not_recognised flag)

-- `seen.append(flag)`; the order of `seen` is not looked at.
unfoldable pub collect_one : Collected → Text → Text → Result ArgumentError Collected
unfolding contains
collect_one c flag value =
    if contains c.seen flag
    then err (repeated flag)
    else take_option (record c { seen = flag ∷ c.seen }) flag value

unfoldable pub collect : Collected → List Text → Result ArgumentError Collected
unfolding collect_one
collect c [] = ok c
collect c (flag ∷ []) = err (without_value flag)
collect c (flag ∷ value ∷ rest) = collect_one c flag value >>= λ next. collect next rest

unfoldable pub parse_style : Text → Option PartitionStyle
unfolding text_eq
parse_style style =
    if text_eq style (text "gpt")
    then some gpt
    else if text_eq style (text "mbr")
    then some mbr
    else none

abbrev pub some_or {ℓ κ} : {E : Type ℓ} {A : Type κ} → Option A → E → Result E A
some_or none e = err e
some_or (some a) e = ok a

-- The tests behind the loop.
unfoldable pub check_collected : Qt → Collected → Result ArgumentError RestoreArguments
check_collected qt c = do
  require (is_plausible_device_node_path qt c.device) bad_device
  style ← some_or (parse_style c.style) bad_style
  file_system ← some_or (parse_file_system_type c.file_system) bad_file_system
  require (is_valid_volume_label qt c.result.volume_label) bad_label
  size ← some_or (parse_positive c.size (u64_mod - 1)) bad_size
  sector_size ← some_or (parse_positive c.sector_size (u32_mod - 1)) bad_sector_size
  require c.saw_language bad_language
  ok (record (c.result) {
    expected = record (c.result.expected) {
      size = size;
      sector_size = sector_size;
      device_id = c.device;
      display_id = c.device;
    };
    style = style;
    file_system = file_system;
  })

unfoldable pub parse_restore_arguments : Qt → List Text → Result ArgumentError RestoreArguments
parse_restore_arguments qt arguments = collect nothing_collected arguments >>= check_collected qt

-- ===== src/Protocol/Arguments.antt =====
-- core/restore_protocol.cpp, buildRestoreArguments() and parseRestoreArguments(): the command line
-- of the helper, and what it accepts.
pub mod Build
pub mod Parse
pub mod Accepted
pub mod RoundTrip
use usb_restoration_tool.Text.{Text, text, text_eq, is_empty, starts_with, contains}
use usb_restoration_tool.Qt.{Qt, trimmed}
use usb_restoration_tool.Disk.{
  DiskInfo, no_disk, PartitionStyle, unknown, mbr, gpt, FileSystemType, ex_fat,
  file_system_type_token, parse_file_system_type,
}
use usb_restoration_tool.Safety.Layout.{is_mbr}
use usb_restoration_tool.Language.{
  Language, english, german, system, LocaleLanguage, resolve_language,
}
use usb_restoration_tool.Protocol.Decimal.{parse_decimal, number}
use usb_restoration_tool.Prelude.{
  ℕ, ◌-◌, Bool, false, not, ◌&&◌, ◌||◌, [], any, ltb, ◌==◌, if◌then◌else◌, length, drop,
}

abbrev pub device_flag : Text
device_flag = text "--device"

abbrev pub style_flag : Text
style_flag = text "--style"

abbrev pub file_system_flag : Text
file_system_flag = text "--filesystem"

abbrev pub label_flag : Text
label_flag = text "--label"

abbrev pub expect_size_flag : Text
expect_size_flag = text "--expect-size"

abbrev pub expect_sector_size_flag : Text
expect_sector_size_flag = text "--expect-sector-size"

abbrev pub expect_sequence_flag : Text
expect_sequence_flag = text "--expect-sequence"

abbrev pub expect_serial_flag : Text
expect_serial_flag = text "--expect-serial"

abbrev pub expect_unique_id_flag : Text
expect_unique_id_flag = text "--expect-unique-id"

abbrev pub expect_path_flag : Text
expect_path_flag = text "--expect-path"

abbrev pub expect_name_flag : Text
expect_name_flag = text "--expect-name"

abbrev pub language_flag : Text
language_flag = text "--language"

abbrev pub max_device_name_length : ℕ
max_device_name_length = 64

abbrev pub max_volume_label_length : ℕ
max_volume_label_length = 11

unfoldable pub is_device_name_character : Qt → ℕ → Bool
is_device_name_character qt c =
    if ltb 0x7F c then false else qt.is_letter_or_number c || (c == b'_' || c == b'-')

unfoldable pub is_volume_label_character : Qt → ℕ → Bool
is_volume_label_character qt c =
    if ltb 0x7F c
    then false
    else qt.is_letter_or_number c || (c == b' ' || (c == b'_' || c == b'-'))

unfoldable pub is_plausible_device_node_path : Qt → Text → Bool
unfolding is_empty
is_plausible_device_node_path qt path =
    let name = drop 5 path in
    starts_with path (text "/dev/")
    && (not (is_empty name || ltb max_device_name_length (length name))
        && not (any (λ c. not (is_device_name_character qt c)) name))

unfoldable pub is_valid_volume_label : Qt → Text → Bool
unfolding is_empty
is_valid_volume_label qt label =
    not (is_empty label || ltb max_volume_label_length (length label))
    && (not (starts_with label (text "-"))
        && (text_eq (trimmed qt label) label
            && not (any (λ c. not (is_volume_label_character qt c)) label)))

-- QString() holds no flag: an option that was not given is the empty text.
pub record RestoreArguments : Type 0 where
  pub expected : DiskInfo
  pub style : PartitionStyle
  pub file_system : FileSystemType
  pub volume_label : Text
  pub display_language : Language

abbrev pub no_arguments : RestoreArguments
no_arguments = record {
  expected = no_disk;
  style = gpt;
  file_system = ex_fat;
  volume_label = [];
  display_language = english;
}

pub data ArgumentError : Type 0 where
  without_value : Text → ArgumentError
  repeated : Text → ArgumentError
  bad_sequence : ArgumentError
  bad_language : ArgumentError
  not_recognised : Text → ArgumentError
  bad_device : ArgumentError
  bad_style : ArgumentError
  bad_file_system : ArgumentError
  bad_label : ArgumentError
  bad_size : ArgumentError
  bad_sector_size : ArgumentError

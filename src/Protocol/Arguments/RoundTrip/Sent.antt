-- ===== src/Protocol/Arguments/RoundTrip/Sent.antt =====
-- core/restore_protocol.cpp: what the helper reads from the arguments of a request.
use usb_restoration_tool.Text.{Text, text}
use usb_restoration_tool.Qt.{Qt}
use usb_restoration_tool.Disk.{
  DiskInfo, no_disk, PartitionStyle, mbr, gpt, FileSystemType, file_system_type_token, parse-token,
}
use usb_restoration_tool.Safety.Layout.{is_mbr}
use usb_restoration_tool.Language.{
  Language, LocaleLanguage, resolve_language, resolve_language-ne-system,
}
use usb_restoration_tool.Protocol.Arguments.{
  RestoreArguments, is_plausible_device_node_path, is_valid_volume_label,
}
use usb_restoration_tool.Protocol.Arguments.Build.{is_known, build_restore_arguments}
use usb_restoration_tool.Protocol.Arguments.Parse.{
  parse_restore_arguments, check_collected, parse_style,
}
use usb_restoration_tool.Prelude.{
  ◌-◌, ◌<◌, ◌≡◌, ap, ◌∙◌, true, some, List, arith, if◌then◌else◌, ok, ◌>>=◌, u32_mod, u64_mod,
}
use usb_restoration_tool.Protocol.Arguments.RoundTrip.{
  IsSequence, collected, first_flags, known_or_empty, seen_flags, parse_positive-number, Collects,
  collects,
}

-- What the helper holds the target and the request to be.
abbrev pub sent :
    Qt → DiskInfo → PartitionStyle → FileSystemType → Text → Language → RestoreArguments
sent qt disk style file_system label language = record {
  expected = record no_disk {
    device_id = disk.device_id;
    display_id = disk.device_id;
    size = disk.size;
    sector_size = disk.sector_size;
    device_sequence = disk.device_sequence;
    serial_number = known_or_empty (is_known qt disk.serial_number) disk.serial_number;
    unique_id = known_or_empty (is_known qt disk.unique_id) disk.unique_id;
    path = known_or_empty (is_known qt disk.path) disk.path;
    name = known_or_empty (is_known qt disk.name) disk.name;
  };
  style = if is_mbr style then mbr else gpt;
  file_system = file_system;
  volume_label = label;
  display_language = language;
}

abbrev style_word : PartitionStyle → Text
style_word style = if is_mbr style then text "mbr" else text "gpt"

parse-style_word :
    (style : PartitionStyle)
    → parse_style (style_word style) ≡ some (if is_mbr style then mbr else gpt)
unfolding parse_style
parse-style_word style = ground arith

-- A request that the application can make: a device node, a label that mkfs takes, and sizes that
-- fit into their types and are not 0.
pub record IsRequest (qt : Qt) (disk : DiskInfo) (label : Text) : Type 0 where
  pub plausible : is_plausible_device_node_path qt disk.device_id ≡ true
  pub valid : is_valid_volume_label qt label ≡ true
  pub has_size : ◌<◌ 0 disk.size
  pub size_fits : disk.size < u64_mod
  pub has_sector : ◌<◌ 0 disk.sector_size
  pub sector_fits : disk.sector_size < u32_mod
  pub sequence_fits : IsSequence disk.device_sequence

checked :
    (qt : Qt) (disk : DiskInfo) (style : PartitionStyle) (file_system : FileSystemType)
    (label : Text) (language : Language) (seen : List Text)
    → IsRequest qt disk label
    → check_collected qt (
        collected disk
          (style_word style)
          (file_system_type_token file_system)
          label
          language
          (is_known qt disk.serial_number)
          (is_known qt disk.unique_id)
          (is_known qt disk.path)
          (is_known qt disk.name)
          seen)
      ≡ ok (sent qt disk style file_system label language)
unfolding check_collected
checked qt disk style file_system label language seen h =
    let a = parse-style_word style in
    let b = parse-token file_system in
    let c = parse_positive-number disk.size (u64_mod - 1) h.has_size (omega arith) in
    let d = parse_positive-number disk.sector_size (u32_mod - 1) h.has_sector (omega arith) in
    let e = h.plausible in let f = h.valid in ground arith

-- The helper reads from the command line that buildRestoreArguments() writes for a request the
-- application can make: the device as both names, the two sizes, the sequence number, each
-- identifier that is not blank, the style, the file system, the label, and the language that the
-- application's own language resolves to.
pub parse-build_restore_arguments :
    (qt : Qt) (locale : Text → LocaleLanguage) (ui_languages : List Text) (disk : DiskInfo)
    (style : PartitionStyle) (file_system : FileSystemType) (label : Text) (language : Language)
    → IsRequest qt disk label
    → parse_restore_arguments qt
        (build_restore_arguments qt locale ui_languages disk style file_system label language)
      ≡ ok (sent qt disk style file_system label (resolve_language locale language ui_languages))
unfolding parse_restore_arguments build_restore_arguments Collects
parse-build_restore_arguments qt locale ui_languages disk style file_system label language h =
    let l = resolve_language locale language ui_languages in
    ap (λ r. r >>= check_collected qt)
      (collects disk (style_word style) (file_system_type_token file_system) label l
        disk.device_sequence (resolve_language-ne-system locale language ui_languages)
        h.sequence_fits (is_known qt disk.serial_number) (is_known qt disk.unique_id)
        (is_known qt disk.path) (is_known qt disk.name))
    ∙ checked qt disk style file_system label l
        (seen_flags (is_known qt disk.serial_number) (is_known qt disk.unique_id)
          (is_known qt disk.path) (is_known qt disk.name) (first_flags disk.device_sequence))
        h

-- ===== src/Protocol/Arguments/Build.antt =====
-- core/restore_protocol.cpp, buildRestoreArguments(): the arguments of a request.
use usb_restoration_tool.Text.{Text, text, is_empty}
use usb_restoration_tool.Qt.{Qt, trimmed}
use usb_restoration_tool.Disk.{DiskInfo, PartitionStyle, FileSystemType, file_system_type_token}
use usb_restoration_tool.Safety.Layout.{is_mbr}
use usb_restoration_tool.Language.{
  Language, english, german, system, LocaleLanguage, resolve_language,
}
use usb_restoration_tool.Protocol.Decimal.{number}
use usb_restoration_tool.Prelude.{ℕ, Bool, not, Option, none, some, List, [], ◌∷◌, if◌then◌else◌}
use usb_restoration_tool.Protocol.Arguments.{
  device_flag, expect_name_flag, expect_path_flag, expect_sector_size_flag, expect_sequence_flag,
  expect_serial_flag, expect_size_flag, expect_unique_id_flag, file_system_flag, label_flag,
  language_flag, style_flag,
}

-- `appendIfKnown`, in front of the arguments that follow.
abbrev pub if_known : Bool → Text → Text → List Text → List Text
if_known known flag value rest = if known then flag ∷ value ∷ rest else rest

abbrev pub sequence_arguments : Option ℕ → List Text → List Text
sequence_arguments none rest = rest
sequence_arguments (some n) rest = expect_sequence_flag ∷ number n ∷ rest

abbrev pub is_known : Qt → Text → Bool
is_known qt value = not (is_empty (trimmed qt value))

abbrev pub language_word : Language → Text
language_word german = text "de"
language_word english = text "en"
language_word system = text "en"

-- The call's language is resolved with the user's languages before this.
unfoldable pub arguments_for :
    DiskInfo → Text → Text → Text → Bool → Bool → Bool → Bool → Text → List Text
arguments_for disk style file_system label serial unique_id path name language =
    device_flag
    ∷ disk.device_id
    ∷ style_flag
    ∷ style
    ∷ file_system_flag
    ∷ file_system
    ∷ label_flag
    ∷ label
    ∷ expect_size_flag
    ∷ number disk.size
    ∷ expect_sector_size_flag
    ∷ number disk.sector_size
    ∷ sequence_arguments disk.device_sequence (
        if_known serial expect_serial_flag disk.serial_number (
          if_known unique_id expect_unique_id_flag disk.unique_id (
            if_known path expect_path_flag disk.path
              (if_known name expect_name_flag disk.name (language_flag ∷ language ∷ [])))))

unfoldable pub build_restore_arguments :
    Qt
    → (Text → LocaleLanguage)
    → List Text
    → DiskInfo
    → PartitionStyle
    → FileSystemType
    → Text
    → Language
    → List Text
build_restore_arguments qt locale ui_languages disk style file_system label language =
    arguments_for disk (if is_mbr style then text "mbr" else text "gpt")
      (file_system_type_token file_system) label (is_known qt disk.serial_number)
      (is_known qt disk.unique_id) (is_known qt disk.path) (is_known qt disk.name)
      (language_word (resolve_language locale language ui_languages))

-- ===== src/Linux/Format.antt =====
-- linux/linux_restore.cpp, formatLinuxPartition() and desktopOwner(): how mkfs is called.
pub mod Attempts
use usb_restoration_tool.Text.{Text, text, text_eq, is_empty, starts_with}
use usb_restoration_tool.Qt.{Qt, trimmed}
use usb_restoration_tool.Disk.{FileSystemType, ex_fat, fat32, ntfs, ext4}
use usb_restoration_tool.Protocol.Decimal.{number}
use usb_restoration_tool.Prelude.{
  ℕ, ◌-◌, Bool, true, false, ◌||◌, Option, none, some, List, [], ◌∷◌, ◌++◌, any, ltb, ◌==◌,
  if◌then◌else◌, Result, ok, err, u32_mod,
}

pub record DesktopOwner : Type 0 where
  pub uid : ℕ
  pub gid : ℕ

-- `get` is qgetenv() and `to_number` toULongLong(), `none` where the text is no number.
unfoldable pub environment_id : (Text → Text) → (Text → Option ℕ) → Text → Option ℕ
unfolding is_empty
environment_id get to_number name =
    if is_empty (get name) then none else elim (to_number (get name)) [
      | none ↦ none
      | some value ↦ if ltb (u32_mod - 1) value then none else some value
    ]

-- `second` where the first has no value.
abbrev pub or_else {ℓ} : {A : Type ℓ} → Option A → Option A → Option A
or_else none second = second
or_else (some a) second = some a

-- The group of a user: the password entry's, or the one of the environment.
abbrev pub owner_with : ℕ → Option ℕ → Option DesktopOwner
owner_with uid none = none
owner_with uid (some gid) = some (record { uid = uid; gid = gid })

abbrev pub owner_of : Option ℕ → (ℕ → Option ℕ) → Option ℕ → Option DesktopOwner
owner_of none group_of sudo_gid = none
owner_of (some uid) group_of sudo_gid =
    if uid == 0 then none else owner_with uid (or_else (group_of uid) sudo_gid)

-- `group_of` is the group in getpwuid()'s entry, with `none` where there is no entry.
unfoldable pub desktop_owner :
    (Text → Text) → (Text → Option ℕ) → (ℕ → Option ℕ) → Option DesktopOwner
unfolding environment_id
desktop_owner get to_number group_of =
    owner_of
      (or_else (environment_id get to_number (text "PKEXEC_UID"))
        (environment_id get to_number (text "SUDO_UID")))
      group_of (environment_id get to_number (text "SUDO_GID"))

abbrev pub owner_arguments : Option DesktopOwner → List Text → List Text
owner_arguments none rest = rest
owner_arguments (some owner) rest =
    text "-E" ∷ (text "root_owner=" ++ (number owner.uid ++ (text ":" ++ number owner.gid))) ∷ rest

-- The argument lists, in the order in which they are tried.
unfoldable pub format_attempts :
    FileSystemType → Text → Text → ℕ → Option DesktopOwner → List (List Text)
format_attempts ex_fat path label start owner =
    (text "-L" ∷ label ∷ path ∷ []) ∷ (text "-n" ∷ label ∷ path ∷ []) ∷ []
format_attempts fat32 path label start owner =
    (text "-F" ∷ text "32" ∷ text "-n" ∷ label ∷ text "-h" ∷ number start ∷ path ∷ []) ∷ []
format_attempts ntfs path label start owner =
    (text "-Q" ∷ text "-L" ∷ label ∷ text "-p" ∷ number start ∷ path ∷ []) ∷ []
format_attempts ext4 path label start owner =
    (text "-F" ∷ text "-L" ∷ label ∷ text "-m" ∷ text "0" ∷ owner_arguments owner (path ∷ [])) ∷ []

-- What became of a run: `finished` has whether it ended normally with 0, and its output.
pub data ToolRun : Type 0 where
  not_started timed_out : ToolRun
  finished : Bool → Text → ToolRun

pub data FormatError : Type 0 where
  tool_not_started tool_timed_out : FormatError
  tool_failed : Text → FormatError

unfoldable pub contains_text : Text → Text → Bool
unfolding starts_with
contains_text [] part = starts_with [] part
contains_text (x ∷ xs) part = starts_with (x ∷ xs) part || contains_text xs part

abbrev pub unknown_option_markers : List Text
unknown_option_markers =
    text "invalid option"
    ∷ text "unrecognized option"
    ∷ text "unknown option"
    ∷ text "illegal option"
    ∷ []

-- A search without regard to case; the markers are in lower case.
unfoldable pub looks_like_wrong_flag : Qt → Text → Bool
unfolding contains_text
looks_like_wrong_flag qt output =
    any (λ marker. contains_text (qt.to_case_folded output) marker) unknown_option_markers

-- The argument lists that were run, and how the loop ended.
pub record Formatting : Type 0 where
  pub runs : List (List Text)
  pub result : Result FormatError (Unit {0})

-- What follows a run, by what became of it.
abbrev pub after_run : Qt → List Text → ToolRun → Formatting → Formatting
after_run qt arguments not_started rest = record {
  runs = arguments ∷ [];
  result = err tool_not_started;
}
after_run qt arguments timed_out rest = record {
  runs = arguments ∷ [];
  result = err tool_timed_out;
}
after_run qt arguments (finished true output) rest = record {
  runs = arguments ∷ [];
  result = ok tt;
}
after_run qt arguments (finished false output) rest =
    if looks_like_wrong_flag qt output
    then record rest { runs = arguments ∷ rest.runs }
    else record { runs = arguments ∷ []; result = err (tool_failed output) }

abbrev pub output_of : ToolRun → Text
output_of (finished success output) = output
output_of _ = []

-- The loop; `last` is the output so far.
unfoldable pub format_loop : Qt → (List Text → ToolRun) → Text → List (List Text) → Formatting
format_loop qt run last [] = record { runs = []; result = err (tool_failed last) }
format_loop qt run last (arguments ∷ rest) =
    let later = format_loop qt run (output_of (run arguments)) rest in
    after_run qt arguments (run arguments) later

unfoldable pub format_linux_partition :
    Qt → (List Text → ToolRun) → FileSystemType → Text → Text → ℕ → Option DesktopOwner → Formatting
unfolding format_loop format_attempts
format_linux_partition qt run file_system path label start owner =
    format_loop qt run [] (format_attempts file_system path label start owner)

-- ===== src/Linux/Sysfs.antt =====
-- linux/sysfs.h and linux/sysfs.cpp: what the kernel's tables say, from their text. The file system
-- and Qt's number parsers are the parameter Files; a file that cannot be read has an empty text.
pub mod Escapes
pub mod Detected
pub mod Links
pub mod Udev
use mathlib.Core.List.{reverse}
use usb_restoration_tool.Text.{Text, text, text_eq, is_empty, starts_with}
use usb_restoration_tool.Qt.{Qt, trimmed, drop_while}
use usb_restoration_tool.Bytes.{Bytes}
use usb_restoration_tool.Disk.{PartitionStyle, unknown, mbr, gpt}
use usb_restoration_tool.Safety.Sectors.{effective_sector_size}
use usb_restoration_tool.Protocol.Decimal.{number}
use usb_restoration_tool.Protocol.Messages.{split, split_non_empty}
use usb_restoration_tool.Linux.Identity.{DeviceNumber, is_valid_number}
use usb_restoration_tool.Prelude.{
  ℕ, ◌-◌, Bool, true, false, not, Option, none, some, List, [], ◌∷◌, ◌++◌, map, any, ltb, ◌==◌,
  if◌then◌else◌, length, get_or,
}

pub record MountEntry : Type 0 where
  pub device : DeviceNumber
  pub mount_point : Text
  pub source : Text

pub record Files : Type 0 where
  -- QDir::entryList() of the directories, or of all entries; QFileInfo::exists(); what a text file
  -- holds, as fromUtf8() reads it; canonicalFilePath(), empty where there is no such file.
  pub directories : Text → List Text
  pub entries : Text → List Text
  pub exists : Text → Bool
  pub content : Text → Text
  pub canonical : Text → Text
  -- An existing executable file, and the bytes of a device that can be opened.
  pub executable : Text → Bool
  pub device_bytes : Text → Option Bytes
  -- QFileInfo::fileName(), QStringList::sort(), toUInt() with 0 for no number, toInt(&ok, 8).
  pub file_name : Text → Text
  pub sorted : List Text → List Text
  pub to_uint : Text → ℕ
  pub octal : Text → Option ℕ

abbrev pub sys_block : Text
sys_block = text "/sys/block"

-- The two halves of a path.
abbrev pub child : Text → Text → Text
child directory name = directory ++ (b'/' ∷ name)

abbrev pub excluded_prefixes : List Text
excluded_prefixes =
    text "loop"
    ∷ text "ram"
    ∷ text "dm-"
    ∷ text "md"
    ∷ text "zram"
    ∷ text "nbd"
    ∷ text "zd"
    ∷ text "sr"
    ∷ text "fd"
    ∷ []

unfoldable pub is_excluded_device_name : Text → Bool
unfolding starts_with any
is_excluded_device_name name = any (λ prefix. starts_with name prefix) excluded_prefixes

-- What stands for an escape of three digits, in front of the rest.
abbrev pub unescaped : Option ℕ → ℕ → Text → Text → Text
unescaped none x rest more = x ∷ rest
unescaped (some code) x rest more = code ∷ more

unfoldable pub unescape_mount_field : (Text → Option ℕ) → Text → Text
unescape_mount_field octal [] = []
unescape_mount_field octal (x ∷ []) = x ∷ []
unescape_mount_field octal (x ∷ a ∷ []) = x ∷ unescape_mount_field octal (a ∷ [])
unescape_mount_field octal (x ∷ a ∷ b ∷ []) = x ∷ unescape_mount_field octal (a ∷ b ∷ [])
unescape_mount_field octal (x ∷ a ∷ b ∷ c ∷ rest) =
    let next = unescape_mount_field octal (a ∷ b ∷ c ∷ rest) in
    let more = unescape_mount_field octal rest in
    elim (x == b'\\') [ true ↦ unescaped (octal (a ∷ b ∷ c ∷ [])) x next more | false ↦ x ∷ next ]

abbrev pub no_number : DeviceNumber
no_number = record { major = 0; minor = 0 }

abbrev pub number_of : (Text → ℕ) → List Text → DeviceNumber
number_of to_uint [] = no_number
number_of to_uint (a ∷ []) = no_number
number_of to_uint (a ∷ b ∷ []) = record { major = to_uint a; minor = to_uint b }
number_of to_uint (a ∷ b ∷ c ∷ rest) = no_number

unfoldable pub parse_device_number : Qt → Files → Text → DeviceNumber
unfolding split
parse_device_number qt files t = number_of files.to_uint (split b':' (trimmed qt t))

unfoldable pub read_sysfs_attribute : Qt → Files → Text → Text
read_sysfs_attribute qt files path = trimmed qt (files.content path)

abbrev pub keep : (Text → Bool) → List Text → List Text
keep p [] = []
keep p (x ∷ xs) = let rest = keep p xs in if p x then x ∷ rest else rest

unfoldable pub list_block_device_names : Files → List Text
list_block_device_names files =
    files.sorted (keep (λ name. not (is_excluded_device_name name)) (files.directories sys_block))

unfoldable pub list_partition_names : Files → Text → List Text
list_partition_names files disk_name =
    let directory = child sys_block disk_name in
    files.sorted (
      keep (λ entry. files.exists (child (child directory entry) (text "partition")))
        (files.directories directory))

unfoldable pub read_device_number : Qt → Files → Text → DeviceNumber
read_device_number qt files path =
    parse_device_number qt files (read_sysfs_attribute qt files (child path (text "dev")))

abbrev pub valid_numbers : List DeviceNumber → List DeviceNumber
valid_numbers [] = []
valid_numbers (n ∷ ns) = let rest = valid_numbers ns in if is_valid_number n then n ∷ rest else rest

unfoldable pub device_numbers_on_disk : Qt → Files → Text → List DeviceNumber
device_numbers_on_disk qt files disk_name =
    let directory = child sys_block disk_name in
    valid_numbers (
      read_device_number qt files directory
      ∷ map (λ partition. read_device_number qt files (child directory partition))
          (list_partition_names files disk_name))

-- fields.indexOf("-") and the field two behind it.
unfoldable pub source_behind : List Text → Text
unfolding text_eq
source_behind [] = []
source_behind (field ∷ rest) =
    let later = source_behind rest in if text_eq field (text "-") then get_or rest 1 [] else later

-- A line of mountinfo; one of fewer than six fields is passed over.
unfoldable pub parse_mount : Qt → Files → List Text → Option MountEntry
unfolding source_behind
parse_mount qt files fields =
    if ltb (length fields) 6
    then none
    else some (record {
      device = parse_device_number qt files (get_or fields 2 []);
      mount_point = unescape_mount_field files.octal (get_or fields 4 []);
      source = unescape_mount_field files.octal (source_behind fields);
    })

abbrev pub with_mount : Option MountEntry → List MountEntry → List MountEntry
with_mount none rest = rest
with_mount (some m) rest = m ∷ rest

unfoldable pub parse_mounts : Qt → Files → List Text → List MountEntry
unfolding parse_mount
parse_mounts qt files [] = []
parse_mounts qt files (line ∷ lines) =
    with_mount (parse_mount qt files (split_non_empty b' ' line)) (parse_mounts qt files lines)

unfoldable pub read_mounts : Qt → Files → List MountEntry
unfolding parse_mounts
read_mounts qt files =
    parse_mounts qt files (split_non_empty b'\n' (files.content (text "/proc/self/mountinfo")))

-- ===== src/Disk.antt =====
-- core/disk.h and core/disk.cpp: the description of a disk, and the names of filesystems, buses
-- and partition styles.
use usb_restoration_tool.Text.{Text, text, text_eq}
use usb_restoration_tool.Prelude.{
  ℕ, ◌≡◌, refl, Bool, true, false, Option, none, some, List, [], ◌∷◌, ◌==◌, if◌then◌else◌,
}

pub data PartitionStyle : Type 0 where
  unknown mbr gpt : PartitionStyle

pub data FileSystemType : Type 0 where
  ex_fat fat32 ntfs ext4 : FileSystemType

pub FileSystemType-discrete : Discrete FileSystemType
FileSystemType-discrete = hlevel

abbrev pub usb_bus_type : ℕ
usb_bus_type = 7

pub record DiskInfo : Type 0 where
  pub device_id : Text
  pub display_id : Text
  pub number : ℕ
  pub bus_type : ℕ
  pub name : Text
  pub unique_id : Text
  pub serial_number : Text
  pub path : Text
  pub device_sequence : Option ℕ
  pub size : ℕ
  pub sector_size : ℕ
  pub partition_style : ℕ
  pub mount_points : List Text
  pub labels : List Text
  pub file_systems : List Text
  pub is_boot : Bool
  pub is_system : Bool
  pub is_read_only : Bool
  pub is_offline : Bool

-- The default member values.
abbrev pub no_disk : DiskInfo
no_disk = record {
  device_id = [];
  display_id = [];
  number = 0;
  bus_type = 0;
  name = [];
  unique_id = [];
  serial_number = [];
  path = [];
  device_sequence = none;
  size = 0;
  sector_size = 512;
  partition_style = 0;
  mount_points = [];
  labels = [];
  file_systems = [];
  is_boot = false;
  is_system = false;
  is_read_only = false;
  is_offline = false;
}

pub record FileSystemNames : Type 0 where
  pub type : FileSystemType
  pub name : Text
  pub label : Text
  pub token : Text

abbrev names_of : FileSystemType → Text → Text → Text → FileSystemNames
names_of type name label token = record { type = type; name = name; label = label; token = token }

abbrev pub file_system_names_table : List FileSystemNames
file_system_names_table =
    names_of ex_fat (text "exFAT") (text "exFAT (recommended)") (text "exfat")
    ∷ names_of fat32 (text "FAT32") (text "FAT32 (older devices)") (text "fat32")
    ∷ names_of ntfs (text "NTFS") (text "NTFS") (text "ntfs")
    ∷ names_of ext4 (text "ext4") (text "ext4 (Linux)") (text "ext4")
    ∷ []

abbrev pub same_file_system : FileSystemType → FileSystemType → Bool
same_file_system ex_fat ex_fat = true
same_file_system fat32 fat32 = true
same_file_system ntfs ntfs = true
same_file_system ext4 ext4 = true
same_file_system _ _ = false

-- The row of a filesystem: the `for` loop that four functions share.
unfoldable find_row : FileSystemType → List FileSystemNames → Option FileSystemNames
find_row type [] = none
find_row type (entry ∷ rest) =
    if same_file_system entry.type type then some entry else find_row type rest

unfoldable pub file_system_type_name : FileSystemType → Text
unfolding find_row
file_system_type_name type = elim (find_row type file_system_names_table) [
  | some entry ↦ entry.name
  | none ↦ text "Unknown"
]

unfoldable pub file_system_type_label : FileSystemType → Text
unfolding find_row
file_system_type_label type = elim (find_row type file_system_names_table) [
  | some entry ↦ entry.label
  | none ↦ text "Unknown"
]

unfoldable pub file_system_type_token : FileSystemType → Text
unfolding find_row
file_system_type_token type = elim (find_row type file_system_names_table) [
  | some entry ↦ entry.token
  | none ↦ []
]

unfoldable pub is_known_file_system : FileSystemType → Bool
unfolding find_row
is_known_file_system type = elim (find_row type file_system_names_table) [
  | some entry ↦ true
  | none ↦ false
]

parse_token : Text → List FileSystemNames → Option FileSystemType
parse_token token [] = none
parse_token token (entry ∷ rest) =
    if text_eq token entry.token then some entry.type else parse_token token rest

-- `none` is the result false.
unfoldable pub parse_file_system_type : Text → Option FileSystemType
unfolding parse_token text_eq
parse_file_system_type token = parse_token token file_system_names_table

abbrev bus_type_names : List (ℕ × Text)
bus_type_names =
    (1, text "SCSI")
    ∷ (2, text "ATAPI")
    ∷ (3, text "ATA")
    ∷ (4, text "1394")
    ∷ (5, text "SSA")
    ∷ (6, text "Fibre Channel")
    ∷ (usb_bus_type, text "USB")
    ∷ (8, text "RAID")
    ∷ (9, text "iSCSI")
    ∷ (10, text "SAS")
    ∷ (11, text "SATA")
    ∷ (12, text "SD")
    ∷ (13, text "MMC")
    ∷ (17, text "NVMe")
    ∷ []

find_bus : ℕ → List (ℕ × Text) → Text
find_bus bus_type [] = text "Unknown"
find_bus bus_type ((value, name) ∷ rest) =
    if value == bus_type then name else find_bus bus_type rest

-- In English; the last name is looked up in the catalog in `TextMode::Display`.
unfoldable pub bus_type_name : ℕ → Text
unfolding find_bus
bus_type_name bus_type = find_bus bus_type bus_type_names

-- The cast of a raw `quint16`: a value with no enumerator takes the branch of `Unknown`.
abbrev pub partition_style_of : ℕ → PartitionStyle
partition_style_of style = if style == 1 then mbr else if style == 2 then gpt else unknown

unfoldable pub partition_style_label : PartitionStyle → Text
partition_style_label gpt = text "GPT"
partition_style_label mbr = text "MBR"
partition_style_label unknown = text "Unknown"

unfoldable pub partition_style_name : ℕ → Text
partition_style_name style = elim (partition_style_of style) [
  | mbr ↦ text "MBR"
  | gpt ↦ text "GPT"
  | unknown ↦ text "RAW / unknown"
]

-- A token names one filesystem, and the parser reads exactly the tokens.
pub parse-token :
    (type : FileSystemType) → parse_file_system_type (file_system_type_token type) ≡ some type
unfolding parse_file_system_type file_system_type_token
parse-token ex_fat = refl
parse-token fat32 = refl
parse-token ntfs = refl
parse-token ext4 = refl

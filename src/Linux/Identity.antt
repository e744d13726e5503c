-- ===== src/Linux/Identity.antt =====
-- linux/block_device.cpp, verifyIdentity() and verifyPartitionOf(): what an open node has to be.
pub mod Verified
use usb_restoration_tool.Text.{Text, text, text_eq}
use usb_restoration_tool.Qt.{Qt}
use usb_restoration_tool.Disk.{DiskInfo}
use usb_restoration_tool.Safety.Target.{
  is_same_device_sequence, is_same_restore_target, SameRefusal,
}
use usb_restoration_tool.Prelude.{
  ℕ, Bool, true, false, not, ◌&&◌, ◌||◌, Option, none, some, ◌==◌, if◌then◌else◌, Result, ok, err,
}

pub record DeviceNumber : Type 0 where
  pub major : ℕ
  pub minor : ℕ

abbrev pub is_valid_number : DeviceNumber → Bool
is_valid_number n = not (n.major == 0) || not (n.minor == 0)

abbrev pub same_number : DeviceNumber → DeviceNumber → Bool
same_number a b = a.major == b.major && a.minor == b.minor

-- What `fstat` says of the descriptor.
pub data NodeStatus : Type 0 where
  stat_failed : ℕ → NodeStatus
  other_file : NodeStatus
  block_node : DeviceNumber → NodeStatus

-- What the kernel reports of an open node: `sequence` and `size` are `none` where the ioctl fails,
-- `listed` is what sysfs has for the name, `current` what a new look at the disk gives.
pub record Node : Type 0 where
  pub is_open : Bool
  pub status : NodeStatus
  pub sequence : Option ℕ
  pub listed : DeviceNumber
  pub size : Option ℕ
  pub sector_size : Option ℕ
  pub read_only : Text
  pub on_usb : Bool
  pub current : DiskInfo

pub data IdentityRefusal : Type 0 where
  not_open not_a_disk no_sequence other_instance not_listed : IdentityRefusal
  other_node no_media write_protected not_on_usb not_a_partition : IdentityRefusal
  cannot_stat : ℕ → IdentityRefusal
  other_size other_sectors : ℕ → ℕ → IdentityRefusal
  not_same : SameRefusal → IdentityRefusal

unfoldable pub block_device_number : Node → Result IdentityRefusal DeviceNumber
block_device_number node = elim node.status [
  | stat_failed e ↦ err (cannot_stat e)
  | other_file ↦ err not_a_disk
  | block_node n ↦ ok n
]

-- A sequence of 0 is none.
unfoldable pub disk_sequence : Node → Option ℕ
disk_sequence node =
    if node.is_open
    then elim node.sequence [ none ↦ none | some n ↦ if n == 0 then none else some n ]
    else none

abbrev pub or_zero : Option ℕ → ℕ
or_zero none = 0
or_zero (some n) = n

unfoldable pub size_in_bytes : Node → ℕ
size_in_bytes node = if node.is_open then or_zero node.size else 0

unfoldable pub logical_sector_size : Node → ℕ
logical_sector_size node = if node.is_open then or_zero node.sector_size else 0

abbrev pub is_some {ℓ} : {A : Type ℓ} → Option A → Bool
is_some none = false
is_some (some a) = true

-- The tests behind the two of the sequence.
unfoldable pub medium_refusal : Qt → DiskInfo → Node → Option IdentityRefusal
unfolding text_eq
medium_refusal qt expected node =
    let reported_size = size_in_bytes node in
    let reported_sector = logical_sector_size node in
    if reported_size == 0
    then some no_media
    else if not (expected.size == 0) && not (reported_size == expected.size)
    then some (other_size reported_size expected.size)
    else if reported_sector == 0 || not (reported_sector == expected.sector_size)
    then some (other_sectors reported_sector expected.sector_size)
    else if text_eq node.read_only (text "1")
    then some write_protected
    else if not node.on_usb
    then some not_on_usb
    else elim (is_same_restore_target qt expected node.current) [
      | none ↦ none
      | some r ↦ some (not_same r)
    ]

abbrev pub sequence_refusal : DiskInfo → Node → Option IdentityRefusal
sequence_refusal expected node =
    if not (is_some expected.device_sequence) || not (is_some (disk_sequence node))
    then some no_sequence
    else if not (is_same_device_sequence expected.device_sequence (disk_sequence node))
    then some other_instance
    else none

abbrev pub listing_refusal : DeviceNumber → DeviceNumber → Option IdentityRefusal
listing_refusal actual listed =
    if not (is_valid_number listed)
    then some not_listed
    else if not (same_number actual listed)
    then some other_node
    else none

-- The first refusal of a row of tests.
infixr 4 ◌orelse◌
abbrev pub ◌orelse◌ {ℓ} : {A : Type ℓ} → Option A → Option A → Option A
none orelse r = r
(some a) orelse r = some a

-- `none` is the result true.
unfoldable pub verify_identity : Qt → DiskInfo → Node → Option IdentityRefusal
verify_identity qt expected node =
    if not node.is_open then some not_open else elim (block_device_number node) [
      | err e ↦ some e
      | ok actual ↦
          sequence_refusal expected node
          orelse (listing_refusal actual node.listed orelse medium_refusal qt expected node)
    ]

-- `node.listed` is what the disk's own directory has for the partition.
unfoldable pub verify_partition_of : Option ℕ → Node → Option IdentityRefusal
verify_partition_of expected_sequence node =
    if not node.is_open then some not_open else elim (block_device_number node) [
      | err e ↦ some e
      | ok actual ↦
          if not (is_valid_number node.listed) || not (same_number actual node.listed)
          then some not_a_partition
          else elim expected_sequence [
            | none ↦ none
            | some expected ↦ elim (disk_sequence node) [
              | none ↦ some other_instance
              | some n ↦ if n == expected then none else some other_instance
            ]
          ]
    ]

-- ===== src/Linux/Identity/Verified.antt =====
-- linux/block_device.cpp: what is known of a node that passed.
use usb_restoration_tool.Text.{text, text_eq}
use usb_restoration_tool.Qt.{Qt}
use usb_restoration_tool.Disk.{DiskInfo}
use usb_restoration_tool.Safety.Target.{is_same_device_sequence, is_same_restore_target}
use usb_restoration_tool.Linux.Identity.{
  DeviceNumber, is_valid_number, same_number, NodeStatus, stat_failed, other_file, block_node, Node,
  block_device_number, disk_sequence, size_in_bytes, logical_sector_size, medium_refusal,
  verify_identity,
}
use usb_restoration_tool.Prelude.{
  ℕ, ◌<◌, ◌≡◌, refl, sym, ap, ◌∙◌, ◌≢◌, ◌⊎◌, inl, inr, true, false, Option, none, some, arith,
}

-- The open node is the selected disk.
pub record IsVerified (qt : Qt) (expected : DiskInfo) (node : Node) : Type 0 where
  pub is_open : node.is_open ≡ true
  pub is_block : node.status ≡ block_node node.listed
  pub is_listed : is_valid_number node.listed ≡ true
  pub sequence : (n : ℕ) × (node.sequence ≡ some n) × (expected.device_sequence ≡ some n) × (n ≢ 0)
  pub size :
      ◌<◌ 0 (size_in_bytes node) × ((expected.size ≡ 0) ⊎ (size_in_bytes node ≡ expected.size))
  pub sector_size : ◌<◌ 0 expected.sector_size × (logical_sector_size node ≡ expected.sector_size)
  pub writable : text_eq node.read_only (text "1") ≡ false
  pub on_usb : node.on_usb ≡ true
  pub same : is_same_restore_target qt expected node.current ≡ none

number-same : (a b : DeviceNumber) → same_number a b ≡ true → a ≡ b
number-same a b h =
    let p : a.major ≡ b.major = ground arith in let q : a.minor ≡ b.minor = ground arith in cc

same_sequence-some :
    (e d : Option ℕ)
    → is_same_device_sequence e d ≡ true
    → (n : ℕ) × (e ≡ some n) × (d ≡ some n) × (n ≢ 0)
unfolding is_same_device_sequence
same_sequence-some none d h = cc
same_sequence-some (some e) none h = cc
same_sequence-some (some e) (some d) h =
    let p : e ≡ d = ground arith in (e, refl, ap some (sym p), ground arith)

disk_sequence-some : (node : Node) (n : ℕ) → disk_sequence node ≡ some n → node.sequence ≡ some n
unfolding disk_sequence
disk_sequence-some node n h = ground arith

verified-sequence :
    (qt : Qt) (expected : DiskInfo) (node : Node)
    → verify_identity qt expected node ≡ none
    → (n : ℕ) × (node.sequence ≡ some n) × (expected.device_sequence ≡ some n) × (n ≢ 0)
unfolding verify_identity block_device_number
verified-sequence qt expected node h =
    let (n, e, d, ne) =
      same_sequence-some expected.device_sequence (disk_sequence node) (ground arith) in
    (n, disk_sequence-some node n d, e, ne)

status_cases :
    (s : NodeStatus)
    → ((n : DeviceNumber) × (s ≡ block_node n))
      ⊎ (((e : ℕ) × (s ≡ stat_failed e)) ⊎ (s ≡ other_file))
status_cases (block_node n) = inl (n, refl)
status_cases (stat_failed e) = inr (inl (e, refl))
status_cases other_file = inr (inr refl)

verified-status :
    (qt : Qt) (expected : DiskInfo) (node : Node)
    → verify_identity qt expected node ≡ none
    → node.status ≡ block_node node.listed
unfolding verify_identity block_device_number
verified-status qt expected node h = elim (status_cases node.status) [
  | inl (n, e) ↦ e ∙ ap block_node (number-same n node.listed (ground arith))
  | inr (inl (c, e)) ↦ ground arith
  | inr (inr e) ↦ ground arith
]

-- A node that passes is open, is the block device that sysfs lists under the disk's name, has the
-- sequence number that was selected, which is not 0, reports the selected size and sectors, is not
-- write-protected, is on the USB bus, and still matches the selected disk in every other
-- identifier.
pub verify_identity-IsVerified :
    (qt : Qt) (expected : DiskInfo) (node : Node)
    → verify_identity qt expected node ≡ none
    → IsVerified qt expected node
unfolding verify_identity medium_refusal block_device_number disk_sequence
verify_identity-IsVerified qt expected node h = record {
  is_open = ground arith;
  is_block = verified-status qt expected node h;
  is_listed = ground arith;
  sequence = verified-sequence qt expected node h;
  size = ground arith;
  sector_size = ground arith;
  writable = ground arith;
  on_usb = ground arith;
  same = ground arith;
}

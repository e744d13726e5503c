-- ===== src/Linux/Sysfs/Detected.antt =====
-- linux/sysfs.cpp, detectPartitionStyle(): the tables that a restore writes are told apart.
use usb_restoration_tool.Text.{Text, text}
use usb_restoration_tool.Bytes.{Bytes, write_le32, write_le64, write_bytes}
use usb_restoration_tool.Disk.{gpt, mbr}
use usb_restoration_tool.Safety.Sectors.{IsSectorSize}
use usb_restoration_tool.PartitionTable.{
  PartitionTableRequest, unsealed_header, build_header, build_entry_array,
}
use usb_restoration_tool.PartitionTable.Build.{build_gpt_primary, build_mbr}
use usb_restoration_tool.PartitionTable.Images.{sizes, build_gpt_primary-IsPrimaryImage}
use usb_restoration_tool.PartitionTable.Mbr.{IsMbr}
use usb_restoration_tool.Linux.Sysfs.Udev.{holds_text, style_of_bytes}
use usb_restoration_tool.Prelude.{
  ℕ, zero, suc, ◌+◌, ◌*◌, ◌≤◌, ◌<◌, ◌≡◌, refl, ap, ◌∙◌, true, false, [], ◌∷◌, arith, min, ltb,
  length, get_or,
}

holds_text_of :
    (cs : Text) (b : Bytes) (i : ℕ)
    → i + length cs ≤ b.size
    → ((j : ℕ) → j < length cs → b.byte (i + j) ≡ get_or cs j 0)
    → holds_text b i cs ≡ true
unfolding holds_text
holds_text_of [] b i fits h = refl
holds_text_of (c ∷ cs) b i fits h =
    let first : b.byte i ≡ c = ap b.byte (omega arith) ∙ h 0 (omega arith) in
    let rest =
      holds_text_of cs b (i + 1) (omega arith)
        (λ j l. ap b.byte (omega arith) ∙ h (suc j) (omega arith)) in
    ground arith

header_signature :
    (r : PartitionTableRequest) (entries : Bytes) (j : ℕ)
    → j < 8
    → (build_header r entries true).byte j ≡ get_or (text "EFI PART") j 0
unfolding build_header unsealed_header write_le32 write_le64 write_bytes
header_signature r entries zero h = refl
header_signature r entries (suc zero) h = refl
header_signature r entries (suc (suc zero)) h = refl
header_signature r entries (suc (suc (suc zero))) h = refl
header_signature r entries (suc (suc (suc (suc zero)))) h = refl
header_signature r entries (suc (suc (suc (suc (suc zero))))) h = refl
header_signature r entries (suc (suc (suc (suc (suc (suc zero)))))) h = refl
header_signature r entries (suc (suc (suc (suc (suc (suc (suc zero))))))) h = refl
header_signature r entries (suc (suc (suc (suc (suc (suc (suc (suc j)))))))) h =
    absurd (omega arith)

abbrev of_disk : ℕ → (ℕ → ℕ) → Bytes
of_disk size disk = record { size = size; byte = disk }

holds_gpt :
    (r : PartitionTableRequest) (size : ℕ) (disk : ℕ → ℕ)
    → IsSectorSize r.sector_size
    → (build_gpt_primary r).size ≤ size
    → ((j : ℕ) → j < (build_gpt_primary r).size → disk j ≡ (build_gpt_primary r).byte j)
    → holds_text (of_disk size disk) r.sector_size (text "EFI PART") ≡ true
holds_gpt r size disk s fits h =
    let image = build_gpt_primary-IsPrimaryImage r s in
    let e = image.size in
    let z = sizes r.sector_size s in
    holds_text_of (text "EFI PART") (of_disk size disk) r.sector_size (omega arith) (λ j l.
      h (r.sector_size + j) (omega arith)
      ∙ image.header j (omega arith)
      ∙ header_signature r (build_entry_array r) j l)

-- The disk behind a restore is told for what it is: one with the primary GPT is a GPT disk, and one
-- with the MBR is an MBR disk, provided that its second sector is cleared.
pub style_of_bytes-written :
    (r : PartitionTableRequest) (size : ℕ) (disk : ℕ → ℕ)
    → IsSectorSize r.sector_size
    → 2 * r.sector_size ≤ size
    → ((build_gpt_primary r).size ≤ size
        → ((j : ℕ) → j < (build_gpt_primary r).size → disk j ≡ (build_gpt_primary r).byte j)
        → style_of_bytes (record { size = size; byte = disk }) r.sector_size ≡ gpt)
      × (IsMbr r (build_mbr r)
          → ((j : ℕ) → j < r.sector_size → disk j ≡ (build_mbr r).byte j)
          → disk r.sector_size ≡ 0
          → style_of_bytes (record { size = size; byte = disk }) r.sector_size ≡ mbr)
unfolding style_of_bytes
style_of_bytes-written r size disk s two =
    let z = sizes r.sector_size s in
    let room : ltb (min r.sector_size size) 512 ≡ false = ground arith in
    (
      λ fits h. let e = holds_gpt r size disk s fits h in rw (room, e) refl,
      λ m h cleared.
          let no : holds_text (of_disk size disk) r.sector_size (text "EFI PART") ≡ false =
            unfold holds_text in ground arith in
          let a : disk 510 ≡ 0x55 = h 510 (omega arith) ∙ m.signature.0 in
          let b : disk 511 ≡ 0xAA = h 511 (omega arith) ∙ m.signature.1 in rw (room, no, a, b) refl,
    )

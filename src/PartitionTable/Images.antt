-- ===== src/PartitionTable/Images.antt =====
-- core/partition_table.cpp, buildGptPrimary(), buildGptBackup() and buildMbr(): where the parts of
-- an image stand.
use usb_restoration_tool.Bytes.{
  Bytes, append, write_le32, write_bytes, read_le, bytes4_lem, write_le64, append_first,
  append_second, read_le-agree,
}
use usb_restoration_tool.Safety.Sectors.{
  IsSectorSize, effective_sector_size, sector_or_default, is_supported_sector_size,
}
use usb_restoration_tool.Safety.Layout.{gpt_entry_array_sectors, mbr_max_sectors}
use usb_restoration_tool.Safety.Layout.Bounds.{backup_bytes, primary_bytes}
use usb_restoration_tool.PartitionTable.{
  PartitionTableRequest, sector_count, build_entry_array, unsealed_header, build_header,
}
use usb_restoration_tool.PartitionTable.Entries.{build_entry_array_size}
use usb_restoration_tool.PartitionTable.Build.{
  build_protective_mbr, entry_padding, build_gpt_primary, build_gpt_backup,
}
use usb_restoration_tool.Prelude.{
  ℕ, ◌+◌, ◌-◌, ◌*◌, ◌≤◌, ◌<◌, ◌≡◌, refl, sym, ◌∙◌, subst, inl, inr, Bool, true, false, arith, min,
  sub64,
}

-- The protective MBR, the header in the second sector, and the entries from the third.
pub record IsPrimaryImage (r : PartitionTableRequest) (b : Bytes) : Type 0 where
  pub size : b.size ≡ primary_bytes r.sector_size
  pub protective_type : b.byte 450 ≡ 0xEE
  pub protective_start : read_le 4 b 454 ≡ 1
  pub protective_sectors : read_le 4 b 458 ≡ min (sub64 (sector_count r) 1) mbr_max_sectors
  pub signature : (b.byte 510 ≡ 0x55) × (b.byte 511 ≡ 0xAA)
  pub header :
      (j : ℕ)
      → j < r.sector_size
      → b.byte (r.sector_size + j) ≡ (build_header r (build_entry_array r) true).byte j
  pub entries :
      (j : ℕ) → j < 128 * 128 → b.byte (2 * r.sector_size + j) ≡ (build_entry_array r).byte j

-- The entries, and the header in the last sector.
pub record IsBackupImage (r : PartitionTableRequest) (b : Bytes) : Type 0 where
  pub size : b.size ≡ backup_bytes r.sector_size
  pub entries : (j : ℕ) → j < 128 * 128 → b.byte j ≡ (build_entry_array r).byte j
  pub header :
      (j : ℕ)
      → j < r.sector_size
      → b.byte (b.size - r.sector_size + j) ≡ (build_header r (build_entry_array r) false).byte j

-- The sizes of the parts, at a supported sector size.
abbrev pub Sizes : ℕ → Type 0
Sizes s =
    (effective_sector_size s ≡ s)
    × (gpt_entry_array_sectors (effective_sector_size s) * effective_sector_size s
        ≡ gpt_entry_array_sectors s * s)
    × (128 * 128 ≤ gpt_entry_array_sectors s * s)
    × (primary_bytes s ≡ gpt_entry_array_sectors s * s + 2 * s)
    × (backup_bytes s ≡ gpt_entry_array_sectors s * s + s)
    × (512 ≤ s)

pub sizes : (s : ℕ) → IsSectorSize s → Sizes s
unfolding effective_sector_size gpt_entry_array_sectors sector_or_default is_supported_sector_size
sizes s (inl e) = subst Sizes (sym e) (omega arith)
sizes s (inr (inl e)) = subst Sizes (sym e) (omega arith)
sizes s (inr (inr (inl e))) = subst Sizes (sym e) (omega arith)
sizes s (inr (inr (inr e))) = subst Sizes (sym e) (omega arith)

module _ (r : PartitionTableRequest) where
  header_size :
      (entries : Bytes) (primary : Bool)
      → (build_header r entries primary).size ≡ effective_sector_size r.sector_size
  unfolding build_header unsealed_header write_le32 write_le64 write_bytes effective_sector_size
  header_size entries primary = refl

  entries_size : (build_entry_array r).size ≡ 128 * 128
  entries_size = build_entry_array_size r

  protective_size : (build_protective_mbr r).size ≡ effective_sector_size r.sector_size
  unfolding build_protective_mbr
  protective_size = refl

  padding_size :
      (entry_padding r (build_entry_array r)).size
      ≡ gpt_entry_array_sectors (effective_sector_size r.sector_size)
          * effective_sector_size r.sector_size
        - 128 * 128
  unfolding entry_padding
  padding_size = rw entries_size

  protective_bytes :
      let b = build_protective_mbr r in
      (b.byte 450 ≡ 0xEE)
      × (read_le 4 b 454 ≡ 1)
      × (read_le 4 b 458 ≡ min (sub64 (sector_count r) 1) mbr_max_sectors)
      × (b.byte 510 ≡ 0x55)
      × (b.byte 511 ≡ 0xAA)
  unfolding build_protective_mbr read_le
  protective_bytes = (
    refl,
    refl,
    bytes4_lem (min (sub64 (sector_count r) 1) mbr_max_sectors) ∙ omega arith,
    refl,
    refl,
  )

pub build_gpt_primary-IsPrimaryImage :
    (r : PartitionTableRequest)
    → IsSectorSize r.sector_size
    → IsPrimaryImage r (build_gpt_primary r)
unfolding build_gpt_primary
build_gpt_primary-IsPrimaryImage r size =
    let z = sizes r.sector_size size in
    let e = entries_size r in
    let entries = build_entry_array r in
    let head = build_header r entries true in
    let h = header_size r entries true in
    let front = build_protective_mbr r in
    let p = protective_size r in
    let padding = entry_padding r entries in
    let first : (j : ℕ) → j < r.sector_size → (build_gpt_primary r).byte j ≡ front.byte j = λ j k.
      append_first (append (append front head) entries) padding j (omega arith)
      ∙ append_first (append front head) entries j (omega arith)
      ∙ append_first front head j (omega arith) in
    record {
      size = omega (arith, padding_size r);
      protective_type = first 450 (omega arith) ∙ (protective_bytes r).0;
      protective_start =
          read_le-agree 4 (build_gpt_primary r) front 454 (λ j a b. first j (omega arith))
          ∙ (protective_bytes r).1;
      protective_sectors =
          read_le-agree 4 (build_gpt_primary r) front 458 (λ j a b. first j (omega arith))
          ∙ (protective_bytes r).2;
      signature = (
        first 510 (omega arith) ∙ (protective_bytes r).3,
        first 511 (omega arith) ∙ (protective_bytes r).4,
      );
      header = λ j k.
          append_first (append (append front head) entries) padding (r.sector_size + j)
            (omega arith)
          ∙ append_first (append front head) entries (r.sector_size + j) (omega arith)
          ∙ append_second front head r.sector_size j (omega arith);
      entries = λ j k.
          append_first (append (append front head) entries) padding (2 * r.sector_size + j)
            (omega arith)
          ∙ append_second (append front head) entries (2 * r.sector_size) j (omega arith);
    }

-- At a supported sector size, the image at the end of the disk is the entry array, and the backup
-- header in its last sector.
pub build_gpt_backup-IsBackupImage :
    (r : PartitionTableRequest) → IsSectorSize r.sector_size → IsBackupImage r (build_gpt_backup r)
unfolding build_gpt_backup
build_gpt_backup-IsBackupImage r size =
    let z = sizes r.sector_size size in
    let e = entries_size r in
    let entries = build_entry_array r in
    let head = build_header r entries false in
    let h = header_size r entries false in
    let padding = entry_padding r entries in
    record {
      size = omega (arith, padding_size r);
      entries = λ j k.
          append_first (append entries padding) head j (omega arith)
          ∙ append_first entries padding j (omega arith);
      header = λ j k. append_second (append entries padding) head _ j (omega arith);
    }

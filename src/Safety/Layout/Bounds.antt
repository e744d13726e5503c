-- ===== src/Safety/Layout/Bounds.antt =====
-- core/safety.cpp, calculateGptLayout(): where the computed partition lies.
use usb_restoration_tool.Safety.Sectors.{sector_or_default, sector_or_default-IsSectorSize}
use usb_restoration_tool.Safety.Layout.{
  GptLayout, calculate_gpt_layout, gpt_entry_array_sectors, one_mib,
}
use usb_restoration_tool.Prelude.{
  ℕ, ◌+◌, ◌-◌, ◌*◌, ◌/◌, ◌%◌, ◌≤◌, ◌<◌, ◌≡◌, ◌≢◌, ◌↔◌, inl, inr, arith, ltb, if◌then◌else◌,
}

-- The bytes behind the partition that the backup GPT takes: its entry array and its header.
abbrev pub backup_bytes : ℕ → ℕ
backup_bytes s = (gpt_entry_array_sectors s + 1) * sector_or_default s

-- In front of it: the protective MBR, the primary header and the entry array.
abbrev pub primary_bytes : ℕ → ℕ
primary_bytes s = (gpt_entry_array_sectors s + 2) * sector_or_default s

-- The shape of a layout with a partition, on a disk of `disk_size` bytes.
pub record IsLayoutFor (disk_size s : ℕ) (l : GptLayout) : Type 0 where
  pub start_at_mib : l.start_offset ≡ one_mib
  pub whole_mibs : l.length % one_mib ≡ 0
  pub clear_of_primary : primary_bytes s ≤ l.start_offset
  pub clear_of_backup : l.start_offset + l.length + backup_bytes s ≤ disk_size
  pub no_more_fits : disk_size < l.start_offset + l.length + one_mib + backup_bytes s

-- The layout at each sector size, as one test on the disk's size.
layout_at :
    (disk_size s : ℕ)
    → calculate_gpt_layout disk_size s ≡ (
        if ltb disk_size (2 * one_mib + backup_bytes s)
        then record { start_offset = 0; length = 0 }
        else record {
          start_offset = one_mib;
          length = (disk_size - one_mib - backup_bytes s) / one_mib * one_mib;
        })
unfolding calculate_gpt_layout
layout_at disk_size s = elim (sector_or_default-IsSectorSize s) [
  | inl e ↦ rw e (ground arith)
  | inr (inl e) ↦ rw e (ground arith)
  | inr (inr (inl e)) ↦ rw e (ground arith)
  | inr (inr (inr e)) ↦ rw e (ground arith)
]

primary_bytes-le : (s : ℕ) → primary_bytes s ≤ one_mib
unfolding gpt_entry_array_sectors
primary_bytes-le s = elim (sector_or_default-IsSectorSize s) [
  | inl e ↦ rw e (omega arith)
  | inr (inl e) ↦ rw e (omega arith)
  | inr (inr (inl e)) ↦ rw e (omega arith)
  | inr (inr (inr e)) ↦ rw e (omega arith)
]

pub backup_bytes-le : (s : ℕ) → backup_bytes s ≤ one_mib
unfolding gpt_entry_array_sectors
backup_bytes-le s = elim (sector_or_default-IsSectorSize s) [
  | inl e ↦ rw e (omega arith)
  | inr (inl e) ↦ rw e (omega arith)
  | inr (inr (inl e)) ↦ rw e (omega arith)
  | inr (inr (inr e)) ↦ rw e (omega arith)
]

-- A computed layout that holds a partition starts at one mebibyte, is a whole number of mebibytes
-- long, keeps clear of the primary and of the backup GPT, ends inside the disk, and leaves less
-- than one mebibyte unused in front of the backup GPT.
pub calculate_gpt_layout-IsLayoutFor :
    (disk_size s : ℕ)
    → (calculate_gpt_layout disk_size s).length ≢ 0
    → IsLayoutFor disk_size s (calculate_gpt_layout disk_size s)
calculate_gpt_layout-IsLayoutFor disk_size s h =
    rw (layout_at disk_size s) (ground (arith, primary_bytes-le s, layout_at disk_size s))

-- A disk gets no partition exactly when it is shorter than two mebibytes and the backup GPT.
pub calculate_gpt_layout_none :
    (disk_size s : ℕ)
    → ((calculate_gpt_layout disk_size s).length ≡ 0) ↔ (disk_size < 2 * one_mib + backup_bytes s)
calculate_gpt_layout_none disk_size s = rw (layout_at disk_size s) (ground arith)

-- ===== src/PartitionTable/Computed.antt =====
-- core/partition_table.cpp and core/safety.cpp: the layout that calculateGptLayout() computes
-- passes isWritablePartitionRequest().

use usb_restoration_tool.Safety.Sectors.{
  IsSectorSize, is_supported_sector_size, is_supported-IsSectorSize, sector_or_default,
  effective_sector_size,
}
use usb_restoration_tool.Safety.Layout.{
  GptLayout, gpt_entry_array_sectors, partition_layout_error, calculate_gpt_layout, one_mib,
}
use usb_restoration_tool.Safety.Layout.Bounds.{
  backup_bytes, IsLayoutFor, calculate_gpt_layout-IsLayoutFor,
}
use usb_restoration_tool.PartitionTable.{PartitionTableRequest, sector_count, gpt_geometry}
use usb_restoration_tool.PartitionTable.Build.{
  table_refusal, bounds_refusal, is_writable_partition_request,
}
use usb_restoration_tool.Prelude.{
  ℕ, ◌+◌, ◌-◌, ◌*◌, ◌/◌, ◌%◌, ◌≤◌, ◌<◌, ◌≡◌, sym, ap, subst, inl, inr, none, arith, add64, sub64,
  IsU64,
}

-- The tests of the gate on a layout from one mebibyte on, of whole mebibytes.
abbrev Tests : ℕ → Type 0
Tests s =
    (disk start len : ℕ)
    → IsU64 disk
    → start ≡ one_mib
    → len % one_mib ≡ 0
    → 0 < len
    → start + len + backup_bytes s ≤ disk
    → let sectors = disk / effective_sector_size s in
      let array = gpt_entry_array_sectors s in
      (start % s ≡ 0)
      × (len % s ≡ 0)
      × (0 < sectors)
      × (add64 start len / s ≤ sectors)
      × (array * 2 + 3 ≤ sectors)
      × (2 + array ≤ start / s)
      × (sub64 (add64 start len / s) 1 ≤ sectors - 1 - array - 1)

tests : (s : ℕ) → IsSectorSize s → Tests s
unfolding gpt_entry_array_sectors effective_sector_size sector_or_default is_supported_sector_size
tests s (inl e) = subst Tests (sym e) (λ disk start len word a b pos fits. omega arith)
tests s (inr (inl e)) = subst Tests (sym e) (λ disk start len word a b pos fits. omega arith)
tests s (inr (inr (inl e))) = subst Tests (sym e) (λ disk start len word a b pos fits. omega arith)
tests s (inr (inr (inr e))) = subst Tests (sym e) (λ disk start len word a b pos fits. omega arith)

layout_facts :
    (r : PartitionTableRequest)
    → partition_layout_error r.style r.layout r.sector_size ≡ none
    → IsSectorSize r.sector_size × (0 < r.layout.length)
unfolding partition_layout_error
layout_facts r h = (is_supported-IsSectorSize r.sector_size (ground arith), ground arith)

computed_layout :
    (r : PartitionTableRequest)
    → r.layout ≡ calculate_gpt_layout r.disk_size r.sector_size
    → 0 < r.layout.length
    → IsLayoutFor r.disk_size r.sector_size r.layout
computed_layout r e pos = subst (IsLayoutFor r.disk_size r.sector_size) (sym e) (
    calculate_gpt_layout-IsLayoutFor r.disk_size r.sector_size
      (λ z. omega (arith, ap (λ (l : GptLayout). l.length) e)))

-- A request for the computed layout, with identifiers of 16 bytes, passes the gate in either
-- style in which the layout itself can be written.
pub is_writable-computed :
    (r : PartitionTableRequest)
    → IsU64 r.disk_size
    → r.layout ≡ calculate_gpt_layout r.disk_size r.sector_size
    → r.disk_guid.size ≡ 16
    → r.partition_guid.size ≡ 16
    → partition_layout_error r.style r.layout r.sector_size ≡ none
    → is_writable_partition_request r ≡ none
unfolding is_writable_partition_request bounds_refusal table_refusal gpt_geometry sector_count
is_writable-computed r word e guid guid' allowed =
    let (size, pos) = layout_facts r allowed in
    let l = computed_layout r e pos in
    let t =
      tests r.sector_size size r.disk_size r.layout.start_offset r.layout.length word l.start_at_mib
        l.whole_mibs pos l.clear_of_backup in
    ground (arith, t)

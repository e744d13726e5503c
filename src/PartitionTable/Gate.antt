-- ===== src/PartitionTable/Gate.antt =====
-- core/partition_table.cpp, isWritablePartitionRequest(): what the gate guarantees, and that a
-- computed layout passes it.

use usb_restoration_tool.Disk.{gpt}
use usb_restoration_tool.Safety.Sectors.{
  IsSectorSize, is_supported_sector_size, is_supported-IsSectorSize, sector_or_default,
  effective_sector_size,
}
use usb_restoration_tool.Safety.Layout.{gpt_entry_array_sectors, partition_layout_error}
use usb_restoration_tool.Safety.Layout.Bounds.{backup_bytes, primary_bytes}
use usb_restoration_tool.PartitionTable.{PartitionTableRequest, sector_count, gpt_geometry}
use usb_restoration_tool.PartitionTable.Build.{
  table_refusal, bounds_refusal, is_writable_partition_request, gpt_backup_offset,
}
use usb_restoration_tool.Prelude.{
  ℕ, ◌+◌, ◌-◌, ◌*◌, ◌/◌, ◌%◌, ◌≤◌, ◌<◌, ◌≡◌, sym, subst, inl, inr, none, arith, add64, sub64, IsU64,
}

-- What a writable GPT request describes: the partition lies between the two tables, in whole
-- sectors, and the backup table ends in the last whole sector of the disk.
pub record FitsGpt (r : PartitionTableRequest) : Type 0 where
  pub sectors : IsSectorSize r.sector_size
  pub not_empty : 0 < r.layout.length
  pub start_aligned : r.layout.start_offset % r.sector_size ≡ 0
  pub length_aligned : r.layout.length % r.sector_size ≡ 0
  pub clear_of_primary : primary_bytes r.sector_size ≤ r.layout.start_offset
  pub clear_of_backup : r.layout.start_offset + r.layout.length ≤ gpt_backup_offset r
  pub backup_inside : gpt_backup_offset r + backup_bytes r.sector_size ≤ r.disk_size
  pub backup_at_end : r.disk_size < gpt_backup_offset r + backup_bytes r.sector_size + r.sector_size

gate_sectors :
    (r : PartitionTableRequest)
    → is_writable_partition_request r ≡ none
    → IsSectorSize r.sector_size
unfolding is_writable_partition_request partition_layout_error
gate_sectors r h = is_supported-IsSectorSize r.sector_size (ground arith)

-- The tests of the gate, as facts on numbers.
record GateFacts (r : PartitionTableRequest) : Type 0 where
  nonzero : 0 < r.layout.length
  start_whole : r.layout.start_offset % r.sector_size ≡ 0
  length_whole : r.layout.length % r.sector_size ≡ 0
  room : gpt_entry_array_sectors r.sector_size * 2 + 3 ≤ sector_count r
  first : 2 + gpt_entry_array_sectors r.sector_size ≤ r.layout.start_offset / r.sector_size
  last :
      sub64 (add64 r.layout.start_offset r.layout.length / r.sector_size) 1
      ≤ sector_count r - 1 - gpt_entry_array_sectors r.sector_size - 1

gate_facts :
    (r : PartitionTableRequest)
    → r.style ≡ gpt
    → is_writable_partition_request r ≡ none
    → GateFacts r
unfolding is_writable_partition_request partition_layout_error bounds_refusal table_refusal
    gpt_geometry
gate_facts r style h = record {
  nonzero = ground arith;
  start_whole = ground arith;
  length_whole = ground arith;
  room = ground arith;
  first = ground arith;
  last = ground arith;
}

backup_offset_lem :
    (r : PartitionTableRequest)
    → gpt_entry_array_sectors r.sector_size * 2 + 3 ≤ sector_count r
    → gpt_backup_offset r
      ≡ (sector_count r - 1 - gpt_entry_array_sectors r.sector_size)
        * effective_sector_size r.sector_size
unfolding gpt_backup_offset gpt_geometry
backup_offset_lem r h = ground arith

-- The same on plain numbers.
abbrev Geometry : ℕ → Type 0
Geometry s =
    (disk start len : ℕ)
    → IsU64 (start + len)
    → 0 < len
    → start % s ≡ 0
    → len % s ≡ 0
    → gpt_entry_array_sectors s * 2 + 3 ≤ disk / effective_sector_size s
    → 2 + gpt_entry_array_sectors s ≤ start / s
    → sub64 (add64 start len / s) 1
      ≤ disk / effective_sector_size s - 1 - gpt_entry_array_sectors s - 1
    → let backup =
        (disk / effective_sector_size s - 1 - gpt_entry_array_sectors s)
        * effective_sector_size s in
      (primary_bytes s ≤ start)
      × (start + len ≤ backup)
      × (backup + backup_bytes s ≤ disk)
      × (disk < backup + backup_bytes s + s)

geometry : (s : ℕ) → IsSectorSize s → Geometry s
unfolding gpt_entry_array_sectors effective_sector_size sector_or_default is_supported_sector_size
geometry s (inl e) =
    subst Geometry (sym e) (λ disk start len word pos a b room first last. omega arith)
geometry s (inr (inl e)) =
    subst Geometry (sym e) (λ disk start len word pos a b room first last. omega arith)
geometry s (inr (inr (inl e))) =
    subst Geometry (sym e) (λ disk start len word pos a b room first last. omega arith)
geometry s (inr (inr (inr e))) =
    subst Geometry (sym e) (λ disk start len word pos a b room first last. omega arith)

-- A request that passes the gate in GPT style, with offsets that are 64-bit numbers and do not
-- wrap when added, has a partition of whole sectors between the two tables, and its backup table
-- ends in the last whole sector of the disk.
pub is_writable-FitsGpt :
    (r : PartitionTableRequest)
    → r.style ≡ gpt
    → IsU64 (r.layout.start_offset + r.layout.length)
    → is_writable_partition_request r ≡ none
    → FitsGpt r
unfolding sector_count
is_writable-FitsGpt r style word h =
    let f = gate_facts r style h in
    let size = gate_sectors r h in
    let g =
      geometry r.sector_size size r.disk_size r.layout.start_offset r.layout.length word f.nonzero
        f.start_whole f.length_whole f.room f.first f.last in
    let off = backup_offset_lem r f.room in
    record {
      sectors = size;
      not_empty = f.nonzero;
      start_aligned = f.start_whole;
      length_aligned = f.length_whole;
      clear_of_primary = g.0;
      clear_of_backup = rw off g.1;
      backup_inside = rw off g.2;
      backup_at_end = rw off g.3;
    }

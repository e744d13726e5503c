-- ===== src/Safety/Sectors/Ranges.antt =====
-- core/safety.cpp: what the device ranges computed and tested there cover.
use native.Mathlib.Nat.{div-add-mod, mod-lt}
use usb_restoration_tool.Safety.Sectors.{
  is_supported_sector_size, sector_or_default, IsSectorSize, sector_or_default-IsSectorSize,
  signature_clear_bytes, SignatureClearRange, signature_clear_range, unaligned_zero_range_error,
  bounded_entry_count, is_valid_device_range,
}
use usb_restoration_tool.Prelude.{
  ℕ, ◌+◌, ◌-◌, ◌*◌, ◌/◌, ◌%◌, ◌≤◌, ◌<◌, ◌≡◌, ◌↔◌, ◌⊎◌, inl, inr, true, none, arith, min,
}

-- Two ranges of `bytes` bytes, at 0 and at `tail_offset`.
pub record Clears (disk_size : ℕ) (r : SignatureClearRange) : Type 0 where
  pub at_most : r.bytes ≤ signature_clear_bytes
  pub apart : 0 < r.bytes → r.bytes ≤ r.tail_offset
  pub inside : r.tail_offset + r.bytes ≤ disk_size
  pub to_the_end : 0 < r.bytes → disk_size < r.tail_offset + r.bytes + r.sector_size
  pub head_aligned : unaligned_zero_range_error 0 r.bytes r.sector_size ≡ none
  pub tail_aligned : unaligned_zero_range_error r.tail_offset r.bytes r.sector_size ≡ none

-- The two ranges that a restore zeroes are whole sectors, at most 4 MiB each, do not overlap, and
-- the second ends in the last whole sector of the disk.
pub signature_clear_range-Clears :
    (disk_size s : ℕ) → Clears disk_size (signature_clear_range disk_size s)
unfolding signature_clear_range unaligned_zero_range_error is_supported_sector_size
signature_clear_range-Clears disk_size s = elim (sector_or_default-IsSectorSize s) [
  | inl e ↦ rw e (ground arith)
  | inr (inl e) ↦ rw e (ground arith)
  | inr (inr (inl e)) ↦ rw e (ground arith)
  | inr (inr (inr e)) ↦ rw e (ground arith)
]

-- Nothing is cleared exactly when a quarter of the disk is less than a sector.
pub signature_clear_range_zero :
    (disk_size s : ℕ)
    → ((signature_clear_range disk_size s).bytes ≡ 0) ↔ (disk_size < 4 * sector_or_default s)
unfolding signature_clear_range is_supported_sector_size
signature_clear_range_zero disk_size s = elim (sector_or_default-IsSectorSize s) [
  | inl e ↦ rw e (ground arith)
  | inr (inl e) ↦ rw e (ground arith)
  | inr (inr (inl e)) ↦ rw e (ground arith)
  | inr (inr (inr e)) ↦ rw e (ground arith)
]

entries_fit :
    (reported q entry room : ℕ)
    → q * entry ≤ room
    → room < q * entry + entry
    → (min reported q * entry ≤ room)
      × ((min reported q ≡ reported) ⊎ (room < (min reported q + 1) * entry))
entries_fit reported q entry room low high = grind arith

-- The count of entries that may be read: at most the reported count, all of them inside the
-- returned bytes, and one more would exceed the one or the other.
pub bounded_entry_count_bounds :
    (reported returned header entry : ℕ)
    → 0 < entry
    → header ≤ returned
    → let n = bounded_entry_count reported returned header entry in
      (n ≤ reported)
      × (header + n * entry ≤ returned)
      × ((n ≡ reported) ⊎ (returned < header + (n + 1) * entry))
unfolding bounded_entry_count
bounded_entry_count_bounds reported returned header entry pos fits =
    let room = returned - header in
    let q = room / entry in
    ground (
      arith,
      div-add-mod room entry,
      mod-lt room pos,
      entries_fit reported q entry room (grind (arith, div-add-mod room entry))
          (grind (arith, div-add-mod room entry, mod-lt room pos)),
    )

-- A range is accepted exactly when it is not empty, lies in the device, and is a whole number of
-- sectors of a supported size from a sector's start.
pub is_valid_device_range_iff :
    (size offset len s : ℕ)
    → (is_valid_device_range size offset len s ≡ true)
      ↔ (IsSectorSize s × (0 < len) × (offset + len ≤ size) × (offset % s ≡ 0) × (len % s ≡ 0))
unfolding is_valid_device_range is_supported_sector_size
is_valid_device_range_iff size offset len s = ground arith

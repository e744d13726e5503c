-- ===== src/Safety/Sectors.antt =====
-- core/safety.cpp: the supported sector sizes, and the tests on device ranges that use them.
pub mod Ranges
use usb_restoration_tool.Prelude.{
  ℕ, ◌-◌, ◌*◌, ◌/◌, ◌%◌, ◌≡◌, ◌⊎◌, Bool, true, false, ◌&&◌, ◌||◌, Option, none, some, arith, min,
  ltb, leb, ◌==◌, if◌then◌else◌,
}

unfoldable pub is_supported_sector_size : ℕ → Bool
is_supported_sector_size s = s == 512 || (s == 1024 || (s == 2048 || s == 4096))

unfoldable pub effective_sector_size : ℕ → ℕ
effective_sector_size s = if s == 0 then 512 else s

-- The sector size that the layout, the clearing and the zeroing fall back to.
unfoldable pub sector_or_default : ℕ → ℕ
sector_or_default s = if is_supported_sector_size s then s else 512

-- The four sizes, as cases.
abbrev pub IsSectorSize : ℕ → Type 0
IsSectorSize s = (s ≡ 512) ⊎ ((s ≡ 1024) ⊎ ((s ≡ 2048) ⊎ (s ≡ 4096)))

pub is_supported-IsSectorSize : (s : ℕ) → is_supported_sector_size s ≡ true → IsSectorSize s
unfolding is_supported_sector_size
is_supported-IsSectorSize s h = ground arith

pub sector_or_default-IsSectorSize : (s : ℕ) → IsSectorSize (sector_or_default s)
unfolding is_supported_sector_size sector_or_default
sector_or_default-IsSectorSize s = ground arith

pub sector_or_default-supported :
    (s : ℕ) → is_supported_sector_size s ≡ true → sector_or_default s ≡ s
unfolding sector_or_default
sector_or_default-supported s h = rw h

pub IsSectorSize-is_supported : (s : ℕ) → IsSectorSize s → is_supported_sector_size s ≡ true
unfolding is_supported_sector_size
IsSectorSize-is_supported s h = ground arith

abbrev pub signature_clear_bytes : ℕ
signature_clear_bytes = 4 * 1024 * 1024

pub record SignatureClearRange : Type 0 where
  pub bytes : ℕ
  pub tail_offset : ℕ
  pub sector_size : ℕ

clear_bytes : ℕ → ℕ
clear_bytes disk_size =
    if ltb (disk_size / 4) signature_clear_bytes then disk_size / 4 else signature_clear_bytes

unfoldable pub signature_clear_range : ℕ → ℕ → SignatureClearRange
unfolding clear_bytes sector_or_default
signature_clear_range disk_size sector_size =
    let sector = sector_or_default sector_size in
    let bytes = clear_bytes disk_size / sector * sector in
    record {
      bytes = bytes;
      tail_offset = if ltb 0 bytes then (disk_size - bytes) / sector * sector else 0;
      sector_size = sector;
    }

-- The refusal of a zeroing that would leave part of a sector: bytes, offset and sector size.
pub data UnalignedZeroRange : Type 0 where
  unaligned : ℕ → ℕ → ℕ → UnalignedZeroRange

unfoldable pub unaligned_zero_range_error : ℕ → ℕ → ℕ → Option UnalignedZeroRange
unfolding sector_or_default
unaligned_zero_range_error offset bytes sector_size =
    let sector = sector_or_default sector_size in
    if offset % sector == 0 && bytes % sector == 0
    then none
    else some (unaligned bytes offset sector)

unfoldable pub is_partition_at_disk_start : Option ℕ → Bool
is_partition_at_disk_start none = false
is_partition_at_disk_start (some offset) = offset == 0

unfoldable pub bounded_entry_count : ℕ → ℕ → ℕ → ℕ → ℕ
bounded_entry_count reported_count returned_bytes header_bytes entry_bytes =
    if entry_bytes == 0 || ltb returned_bytes header_bytes
    then 0
    else min reported_count ((returned_bytes - header_bytes) / entry_bytes)

unfoldable pub is_valid_device_range : ℕ → ℕ → ℕ → ℕ → Bool
is_valid_device_range size offset len sector_size =
    is_supported_sector_size sector_size
    && (ltb 0 len
        && (leb offset size
            && (leb len (size - offset) && (offset % sector_size == 0 && len % sector_size == 0))))

-- ===== src/PartitionTable/Fields.antt =====
-- core/partition_table.cpp, buildHeader(): the fields of a GPT header, read back from its bytes.
use native.Mathlib.Nat.{div-le_self}
use usb_restoration_tool.Bytes.{
  bytes8, bytes4_lem, bytes8_lem, Bytes, write_le32, read_le, left, write_le32-other, write_le64,
  write_le64-other, write_bytes, write_le32-clear, write_bytes_at,
}
use usb_restoration_tool.Safety.Sectors.{effective_sector_size}
use usb_restoration_tool.Safety.Layout.{gpt_entry_array_sectors}
use usb_restoration_tool.PartitionTable.{
  PartitionTableRequest, GptGeometry, gpt_geometry, unsealed_header, build_header, gpt_crc32,
  sector_count,
}
use usb_restoration_tool.Prelude.{
  ℕ, ◌+◌, ◌-◌, ◌*◌, ◌%◌, ◌≤◌, ◌<◌, ◌≡◌, refl, ap, ◌∙◌, inl, inr, Bool, true, false, arith,
  if◌then◌else◌, u32_mod, IsU64,
}

-- A header at `my_lba`, with its twin at `alternate_lba` and its entries from `entry_lba`.
pub record IsHeader (r : PartitionTableRequest) (entries h : Bytes)
    (my_lba alternate_lba entry_lba : ℕ) : Type 0 where
  pub one_sector : h.size ≡ effective_sector_size r.sector_size
  pub signature : read_le 8 h 0 ≡ 0x5452415020494645
  pub revision : read_le 4 h 8 ≡ 0x00010000
  pub header_size : read_le 4 h 12 ≡ 92
  pub reserved : read_le 4 h 20 ≡ 0
  pub at : read_le 8 h 24 ≡ my_lba
  pub alternate : read_le 8 h 32 ≡ alternate_lba
  pub first_usable : read_le 8 h 40 ≡ 2 + gpt_entry_array_sectors r.sector_size
  pub last_usable : read_le 8 h 48 ≡ sector_count r - 1 - gpt_entry_array_sectors r.sector_size - 1
  pub disk_guid : (i : ℕ) → i < 16 → i < r.disk_guid.size → h.byte (56 + i) ≡ r.disk_guid.byte i
  pub entry_start : read_le 8 h 72 ≡ entry_lba
  pub entry_count : read_le 4 h 80 ≡ 128
  pub entry_size : read_le 4 h 84 ≡ 128
  pub entries_checksum : read_le 4 h 88 ≡ gpt_crc32 entries % u32_mod
  -- The checksum is that of the first 92 bytes, taken while its own four bytes are zero.
  pub own_checksum : read_le 4 h 16 ≡ gpt_crc32 (left (write_le32 h 16 0) 92) % u32_mod

geometry_fits :
    (r : PartitionTableRequest)
    → gpt_entry_array_sectors r.sector_size * 2 + 3 ≤ sector_count r
    → gpt_geometry r ≡ record {
      fits = true;
      array_sectors = gpt_entry_array_sectors r.sector_size;
      last_lba = sector_count r - 1;
      primary_entry_lba = 2;
      backup_entry_lba = sector_count r - 1 - gpt_entry_array_sectors r.sector_size;
      first_usable_lba = 2 + gpt_entry_array_sectors r.sector_size;
      last_usable_lba = sector_count r - 1 - gpt_entry_array_sectors r.sector_size - 1;
    }
unfolding gpt_geometry
geometry_fits r h = ground arith

-- All of them are 64-bit numbers.
record GeometryWords (g : GptGeometry) : Type 0 where
  last : IsU64 g.last_lba
  backup : IsU64 g.backup_entry_lba
  first_usable : IsU64 g.first_usable_lba
  last_usable : IsU64 g.last_usable_lba
  primary : IsU64 g.primary_entry_lba

geometry_words :
    (r : PartitionTableRequest)
    → IsU64 r.disk_size
    → gpt_entry_array_sectors r.sector_size * 2 + 3 ≤ sector_count r
    → GeometryWords (gpt_geometry r)
unfolding sector_count
geometry_words r word room =
    let le = div-le_self r.disk_size (effective_sector_size r.sector_size) in
    rw (geometry_fits r room) (omega arith)

choose64 :
    (p : Bool) (a b : ℕ) → IsU64 a → IsU64 b → bytes8 (if p then a else b) ≡ (if p then a else b)
choose64 true a b h k = bytes8_lem a h
choose64 false a b h k = bytes8_lem b k

module _ (r : PartitionTableRequest) (entries : Bytes) (primary : Bool) where
  abbrev unsealed : Bytes
  unsealed = unsealed_header r entries primary

  abbrev header : Bytes
  header = build_header r entries primary

  resealed : write_le32 header 16 0 ≡ unsealed
  unfolding build_header unsealed_header write_le32 write_le64 write_bytes
  resealed = λ i. record {
    size = unsealed.size;
    byte = λ j. write_le32-clear unsealed (gpt_crc32 (left unsealed 92)) j refl refl refl refl i;
  }

  guid_bytes : (i : ℕ) → i < 16 → i < r.disk_guid.size → header.byte (56 + i) ≡ r.disk_guid.byte i
  unfolding build_header unsealed_header
  guid_bytes i h k = rw (write_le32-other _ 16 _ (56 + i) (inr (omega arith))) (
      rw (write_le32-other _ 88 _ (56 + i) (inl (omega arith))) (
        rw (write_le32-other _ 84 _ (56 + i) (inl (omega arith))) (
          rw (write_le32-other _ 80 _ (56 + i) (inl (omega arith))) (
            rw (write_le64-other _ 72 _ (56 + i) (inl (omega arith)))
              (write_bytes_at _ r.disk_guid 56 16 i h k)))))

-- Each GPT header, of a disk with room for both tables: it takes one sector and states its
-- own sector, its twin's and its entries', the usable sectors, the disk's identifier, the size and
-- checksum of the entries, and the checksum of itself.
pub build_header-IsHeader :
    (r : PartitionTableRequest) (entries : Bytes) (primary : Bool)
    → IsU64 r.disk_size
    → gpt_entry_array_sectors r.sector_size * 2 + 3 ≤ sector_count r
    → let last = sector_count r - 1 in
      let backup = last - gpt_entry_array_sectors r.sector_size in
      IsHeader r entries
        (build_header r entries primary)
        (if primary then 1 else last)
        (if primary then last else 1)
        (if primary then 2 else backup)
unfolding build_header unsealed_header write_le32 write_le64 write_bytes read_le
build_header-IsHeader r entries primary word room =
    let g = gpt_geometry r in
    let e = geometry_fits r room in
    let w = geometry_words r word room in
    record {
      one_sector = refl;
      signature = refl;
      revision = refl;
      header_size = refl;
      reserved = refl;
      at =
          choose64 primary 1 g.last_lba (omega arith) w.last
          ∙ ap (λ g. if primary then 1 else g.last_lba) e;
      alternate =
          choose64 primary g.last_lba 1 w.last (omega arith)
          ∙ ap (λ g. if primary then g.last_lba else 1) e;
      first_usable = bytes8_lem g.first_usable_lba w.first_usable ∙ ap (λ g. g.first_usable_lba) e;
      last_usable = bytes8_lem g.last_usable_lba w.last_usable ∙ ap (λ g. g.last_usable_lba) e;
      disk_guid = guid_bytes r entries primary;
      entry_start =
          choose64 primary g.primary_entry_lba g.backup_entry_lba w.primary w.backup
          ∙ ap (λ g. if primary then g.primary_entry_lba else g.backup_entry_lba) e;
      entry_count = refl;
      entry_size = refl;
      entries_checksum = bytes4_lem (gpt_crc32 entries);
      own_checksum =
          rw (resealed r entries primary)
            (bytes4_lem (gpt_crc32 (left (unsealed r entries primary) 92)));
    }

-- ===== src/PartitionTable/Mbr.antt =====
-- core/partition_table.cpp, buildMbr(): the one entry of an MBR, read back from its bytes.
use usb_restoration_tool.Bytes.{
  Bytes, write_le32, write_bytes, write_bytes_at, write_le32-other, read_le, bytes4, bytes4_lem,
  left, zeros,
}
use usb_restoration_tool.Disk.{mbr}
use usb_restoration_tool.Safety.Sectors.{
  IsSectorSize, effective_sector_size, is_supported-IsSectorSize,
}
use usb_restoration_tool.Safety.Layout.{mbr_max_sectors, partition_layout_error}
use usb_restoration_tool.PartitionTable.{PartitionTableRequest, write_chs, mbr_partition_type}
use usb_restoration_tool.PartitionTable.Build.{
  build_mbr, is_writable_partition_request, bounds_refusal, table_refusal,
}
use usb_restoration_tool.Prelude.{
  ℕ, ◌+◌, ◌*◌, ◌/◌, ◌%◌, ◌≤◌, ◌<◌, ◌≡◌, refl, sym, ◌∙◌, subst, ◌⊎◌, inl, inr, none, arith, min,
  u32_mod, add64, IsU64,
}

-- The first entry describes the request's layout; the boot code and the other entries are zero.
pub record IsMbr (r : PartitionTableRequest) (b : Bytes) : Type 0 where
  pub size : b.size ≡ r.sector_size
  pub no_boot_code : (j : ℕ) → j < 440 → b.byte j ≡ 0
  pub disk_signature : (i : ℕ) → i < 4 → b.byte (440 + i) ≡ r.disk_guid.byte i
  pub not_bootable : b.byte 446 ≡ 0
  pub type : b.byte 450 ≡ mbr_partition_type r.file_system
  pub first : read_le 4 b 454 * r.sector_size ≡ r.layout.start_offset
  pub span : read_le 4 b 458 * r.sector_size ≡ r.layout.length
  pub others_free : (j : ℕ) → 462 ≤ j → j < 510 → b.byte j ≡ 0
  pub signature : (b.byte 510 ≡ 0x55) × (b.byte 511 ≡ 0xAA)

write_chs-other :
    (b : Bytes) (offset lba j : ℕ)
    → (j < offset) ⊎ (offset + 3 ≤ j)
    → (write_chs b offset lba).byte j ≡ b.byte j
unfolding write_chs
write_chs-other b offset lba j h = ground arith

write_chs-size : (b : Bytes) (offset lba : ℕ) → (write_chs b offset lba).size ≡ b.size
unfolding write_chs
write_chs-size b offset lba = ground arith

record GateFacts (r : PartitionTableRequest) : Type 0 where
  sectors : IsSectorSize r.sector_size
  start_whole : r.layout.start_offset % r.sector_size ≡ 0
  length_whole : r.layout.length % r.sector_size ≡ 0
  addressable : add64 r.layout.start_offset r.layout.length / r.sector_size ≤ mbr_max_sectors
  identifier : 4 ≤ r.disk_guid.size

gate_facts :
    (r : PartitionTableRequest)
    → r.style ≡ mbr
    → is_writable_partition_request r ≡ none
    → GateFacts r
unfolding is_writable_partition_request partition_layout_error bounds_refusal table_refusal
gate_facts r style h = record {
  sectors = is_supported-IsSectorSize r.sector_size (ground arith);
  start_whole = ground arith;
  length_whole = ground arith;
  addressable = ground arith;
  identifier = ground arith;
}

abbrev Lbas : ℕ → Type 0
Lbas s =
    (start len : ℕ)
    → IsU64 (start + len)
    → start % s ≡ 0
    → len % s ≡ 0
    → add64 start len / s ≤ mbr_max_sectors
    → let t = effective_sector_size s in
      (min (start / t) mbr_max_sectors % u32_mod * s ≡ start)
      × (min (len / t) mbr_max_sectors % u32_mod * s ≡ len)

lbas : (s : ℕ) → IsSectorSize s → Lbas s
unfolding effective_sector_size
lbas s (inl e) = subst Lbas (sym e) (λ start len word a b m. omega arith)
lbas s (inr (inl e)) = subst Lbas (sym e) (λ start len word a b m. omega arith)
lbas s (inr (inr (inl e))) = subst Lbas (sym e) (λ start len word a b m. omega arith)
lbas s (inr (inr (inr e))) = subst Lbas (sym e) (λ start len word a b m. omega arith)

signature_lem :
    (r : PartitionTableRequest) → ((build_mbr r).byte 510 ≡ 0x55) × ((build_mbr r).byte 511 ≡ 0xAA)
unfolding build_mbr
signature_lem r = (refl, refl)

module _ (r : PartitionTableRequest) (given : 4 ≤ r.disk_guid.size) where
  abbrev with_signature : Bytes
  with_signature =
      write_bytes (zeros (effective_sector_size r.sector_size)) 440 (left r.disk_guid 4) 4

  -- In front of the entry only the disk signature is written.
  front_byte : (j : ℕ) → j < 446 → (build_mbr r).byte j ≡ with_signature.byte j
  unfolding build_mbr
  front_byte j h = rw (write_le32-other _ 458 _ j (inl (omega arith))) (
      rw (write_le32-other _ 454 _ j (inl (omega arith))) (
        rw (write_chs-other _ 451 _ j (inl (omega arith)))
          (rw (write_chs-other _ 447 _ j (inl (omega arith))) (ground arith))))

  signature_bytes : (i : ℕ) → i < 4 → (build_mbr r).byte (440 + i) ≡ r.disk_guid.byte i
  signature_bytes i h =
      front_byte (440 + i) (omega arith)
      ∙ write_bytes_at (zeros (effective_sector_size r.sector_size)) (left r.disk_guid 4) 440 4 i h
          (omega arith)

  boot_code : (j : ℕ) → j < 440 → (build_mbr r).byte j ≡ 0
  unfolding write_bytes
  boot_code j h = front_byte j (omega arith) ∙ ground arith

  behind_byte : (j : ℕ) → 462 ≤ j → j < 510 → (build_mbr r).byte j ≡ 0
  unfolding build_mbr write_bytes
  behind_byte j h k = rw (write_le32-other _ 458 _ j (inr (omega arith))) (
      rw (write_le32-other _ 454 _ j (inr (omega arith))) (
        rw (write_chs-other _ 451 _ j (inr (omega arith)))
          (rw (write_chs-other _ 447 _ j (inr (omega arith))) (ground arith))))

  entry_bytes :
      let b = build_mbr r in
      let t = effective_sector_size r.sector_size in
      (b.byte 446 ≡ 0)
      × (b.byte 450 ≡ mbr_partition_type r.file_system)
      × (read_le 4 b 454 ≡ bytes4 (min (r.layout.start_offset / t) mbr_max_sectors))
      × (read_le 4 b 458 ≡ bytes4 (min (r.layout.length / t) mbr_max_sectors))
      × (b.size ≡ t)
  unfolding build_mbr read_le write_le32 write_bytes
  entry_bytes = (
    rw (write_chs-other _ 451 _ 446 (inl (omega arith)))
        (rw (write_chs-other _ 447 _ 446 (inl (omega arith))) refl),
    rw (write_chs-other _ 451 _ 450 (inl (omega arith))) refl,
    refl,
    refl,
    rw (write_chs-size _ 451 _) (rw (write_chs-size _ 447 _) (ground arith)),
  )

-- The MBR of a request that passes the gate in MBR style, whose offsets are 64-bit numbers that do
-- not wrap when added: its entry states the layout's first sector and its sectors.
pub build_mbr-IsMbr :
    (r : PartitionTableRequest)
    → r.style ≡ mbr
    → IsU64 (r.layout.start_offset + r.layout.length)
    → is_writable_partition_request r ≡ none
    → IsMbr r (build_mbr r)
unfolding effective_sector_size
build_mbr-IsMbr r style word h =
    let g = gate_facts r style h in
    let l =
      lbas r.sector_size g.sectors r.layout.start_offset r.layout.length word g.start_whole
        g.length_whole g.addressable in
    let e = entry_bytes r g.identifier in
    record {
      size = e.4 ∙ ground (arith, g.sectors);
      no_boot_code = boot_code r g.identifier;
      disk_signature = signature_bytes r g.identifier;
      not_bootable = e.0;
      type = e.1;
      first = rw (e.2 ∙ bytes4_lem _) l.0;
      span = rw (e.3 ∙ bytes4_lem _) l.1;
      others_free = behind_byte r g.identifier;
      signature = signature_lem r;
    }

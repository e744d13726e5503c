-- ===== src/PartitionTable/Entries.antt =====
-- core/partition_table.cpp, buildEntryArray(): the one entry of the array, read back from its bytes.

use usb_restoration_tool.Disk.{FileSystemType, ex_fat, fat32, ntfs, ext4}
use usb_restoration_tool.Bytes.{
  Bytes, AllU16, zeros, read_le, write_le64-other, write_bytes_at, write_units-other,
  read-write_units, write_bytes, write_le64, write_units, read_le-agree, bytes8_lem,
  write_units-size, AllU16-take,
}
use usb_restoration_tool.Safety.Sectors.{IsSectorSize, effective_sector_size}
use usb_restoration_tool.PartitionTable.{
  PartitionTableRequest, build_entry_array, gpt_partition_type_guid,
}
use usb_restoration_tool.Prelude.{
  ℕ, ◌+◌, ◌*◌, ◌/◌, ◌%◌, ◌≤◌, ◌<◌, ◌≡◌, refl, sym, ◌∙◌, subst, ◌⊎◌, inl, inr, arith, length, get_or,
  take, length-take, get_or-take, add64, sub64, IsU64,
}

-- The first entry describes the request's layout, and the other entries are free.
pub record IsEntryArray (r : PartitionTableRequest) (b : Bytes) : Type 0 where
  pub size : b.size ≡ 128 * 128
  pub type_guid : (i : ℕ) → i < 16 → b.byte i ≡ (gpt_partition_type_guid r.file_system).byte i
  pub partition_guid :
      (i : ℕ) → i < 16 → i < r.partition_guid.size → b.byte (16 + i) ≡ r.partition_guid.byte i
  pub first : read_le 8 b 32 * r.sector_size ≡ r.layout.start_offset
  pub last : (read_le 8 b 40 + 1) * r.sector_size ≡ r.layout.start_offset + r.layout.length
  pub no_attributes : read_le 8 b 48 ≡ 0
  pub name :
      (i : ℕ)
      → i < 36
      → i < length r.partition_name
      → read_le 2 b (56 + 2 * i) ≡ get_or r.partition_name i 0
  pub rest_free : (j : ℕ) → 128 ≤ j → b.byte j ≡ 0

type_guid_size : (f : FileSystemType) → (gpt_partition_type_guid f).size ≡ 16
unfolding gpt_partition_type_guid
type_guid_size ex_fat = refl
type_guid_size fat32 = refl
type_guid_size ntfs = refl
type_guid_size ext4 = refl

-- Everything but the name.
before_name : PartitionTableRequest → Bytes
before_name r =
    let sector = effective_sector_size r.sector_size in
    let first_lba = r.layout.start_offset / sector in
    let last_lba = sub64 (add64 r.layout.start_offset r.layout.length / sector) 1 in
    write_le64
      (write_le64
        (write_le64
          (write_bytes
            (write_bytes (zeros (128 * 128)) 0 (gpt_partition_type_guid r.file_system) 16) 16
            r.partition_guid 16)
          32 first_lba)
        40 last_lba)
      48 0

before_name_lem :
    (r : PartitionTableRequest)
    → build_entry_array r ≡ write_units (before_name r) 56 (take 36 r.partition_name)
unfolding build_entry_array before_name
before_name_lem r = refl

pub build_entry_array_size : (r : PartitionTableRequest) → (build_entry_array r).size ≡ 128 * 128
unfolding before_name write_bytes write_le64
build_entry_array_size r =
    rw (before_name_lem r) (write_units-size (take 36 r.partition_name) (before_name r) 56)

name_length : (r : PartitionTableRequest) → length (take 36 r.partition_name) ≤ 36
name_length r = omega (arith, length-take 36 r.partition_name)

-- The two sector numbers, for an aligned layout.
abbrev Lbas : ℕ → Type 0
Lbas s =
    (start len : ℕ)
    → IsU64 (start + len)
    → 0 < len
    → start % s ≡ 0
    → len % s ≡ 0
    → let t = effective_sector_size s in
      IsU64 (start / t)
      × (start / t * s ≡ start)
      × ((sub64 (add64 start len / t) 1 + 1) * s ≡ start + len)
      × IsU64 (sub64 (add64 start len / t) 1)

lbas : (s : ℕ) → IsSectorSize s → Lbas s
unfolding effective_sector_size
lbas s (inl e) = subst Lbas (sym e) (λ start len word pos a b. omega arith)
lbas s (inr (inl e)) = subst Lbas (sym e) (λ start len word pos a b. omega arith)
lbas s (inr (inr (inl e))) = subst Lbas (sym e) (λ start len word pos a b. omega arith)
lbas s (inr (inr (inr e))) = subst Lbas (sym e) (λ start len word pos a b. omega arith)

module _ (r : PartitionTableRequest) where
  outside_name :
      (j : ℕ) → (j < 56) ⊎ (128 ≤ j) → (build_entry_array r).byte j ≡ (before_name r).byte j
  outside_name j h = rw (before_name_lem r) (
      write_units-other (take 36 r.partition_name) (before_name r) 56 j
        (omega (arith, name_length r)))

  before_free : (j : ℕ) → 128 ≤ j → (before_name r).byte j ≡ 0
  unfolding before_name write_bytes
  before_free j h = rw (write_le64-other _ 48 0 j (inr (omega arith))) (
      rw (write_le64-other _ 40 _ j (inr (omega arith)))
        (rw (write_le64-other _ 32 _ j (inr (omega arith))) (ground arith)))

  before_guid :
      (i : ℕ)
      → i < 16
      → i < r.partition_guid.size
      → (before_name r).byte (16 + i) ≡ r.partition_guid.byte i
  unfolding before_name
  before_guid i h k = rw (write_le64-other _ 48 0 (16 + i) (inl (omega arith))) (
      rw (write_le64-other _ 40 _ (16 + i) (inl (omega arith))) (
        rw (write_le64-other _ 32 _ (16 + i) (inl (omega arith)))
          (write_bytes_at _ r.partition_guid 16 16 i h k)))

  before_type :
      (i : ℕ) → i < 16 → (before_name r).byte i ≡ (gpt_partition_type_guid r.file_system).byte i
  unfolding before_name write_bytes
  before_type i h = rw (write_le64-other _ 48 0 i (inl (omega arith))) (
      rw (write_le64-other _ 40 _ i (inl (omega arith))) (
        rw (write_le64-other _ 32 _ i (inl (omega arith)))
          (ground (arith, type_guid_size r.file_system))))

  read_before :
      (offset : ℕ)
      → offset < 49
      → read_le 8 (build_entry_array r) offset ≡ read_le 8 (before_name r) offset
  read_before offset h =
      read_le-agree 8 (build_entry_array r) (before_name r) offset
        (λ j a b. outside_name j (inl (omega arith)))

-- The entry array of an aligned layout that is not empty, with a supported sector size.
pub build_entry_array-IsEntryArray :
    (r : PartitionTableRequest)
    → IsSectorSize r.sector_size
    → IsU64 (r.layout.start_offset + r.layout.length)
    → 0 < r.layout.length
    → r.layout.start_offset % r.sector_size ≡ 0
    → r.layout.length % r.sector_size ≡ 0
    → AllU16 r.partition_name
    → IsEntryArray r (build_entry_array r)
unfolding before_name read_le write_bytes write_le64
build_entry_array-IsEntryArray r size word pos a b units =
    let l = lbas r.sector_size size r.layout.start_offset r.layout.length word pos a b in
    record {
      size =
          rw (before_name_lem r) (write_units-size (take 36 r.partition_name) (before_name r) 56);
      type_guid = λ i h. outside_name r i (inl (omega arith)) ∙ before_type r i h;
      partition_guid = λ i h k. outside_name r (16 + i) (inl (omega arith)) ∙ before_guid r i h k;
      first = rw (read_before r 32 (omega arith)) (rw (bytes8_lem _ l.0) l.1);
      last = rw (read_before r 40 (omega arith)) (rw (bytes8_lem _ l.3) l.2);
      no_attributes = read_before r 48 (omega arith) ∙ refl;
      name = λ i h k. rw (before_name_lem r) (
          read-write_units (take 36 r.partition_name) (before_name r) 56 i
            (omega (arith, length-take 36 r.partition_name)) (AllU16-take 36 r.partition_name units)
          ∙ get_or-take 36 r.partition_name i 0 h);
      rest_free = λ j h. outside_name r j (inr h) ∙ before_free r j h;
    }

-- ===== src/Safety/Fat32.antt =====
-- core/safety.cpp: the FAT32 geometry, which decides the allocation unit and the volume limits.
pub mod Clusters
pub mod Volume
pub mod Units
pub mod Limits
use usb_restoration_tool.Safety.Sectors.{is_supported_sector_size}
use usb_restoration_tool.Prelude.{
  ℕ, zero, suc, ◌+◌, ◌-◌, ◌*◌, ◌/◌, ◌%◌, Bool, true, false, not, ◌&&◌, ◌||◌, List, [], ◌∷◌, ltb,
  leb, ◌==◌, if◌then◌else◌, add64, sub64, mul64,
}

abbrev pub reserved_sectors : ℕ
reserved_sectors = 32

abbrev pub fat_count : ℕ
fat_count = 2

abbrev pub fat_entry_bytes : ℕ
fat_entry_bytes = 4

-- The sectors that a volume of so many clusters takes, in `std::uint64_t` arithmetic.
unfoldable pub required_sectors : ℕ → ℕ → ℕ → ℕ
required_sectors sector_size sectors_per_cluster clusters =
    let fat_bytes = mul64 (add64 clusters 2) fat_entry_bytes in
    let fat_sectors = sub64 (add64 fat_bytes sector_size) 1 / sector_size in
    add64 (add64 reserved_sectors (mul64 fat_count fat_sectors))
      (mul64 clusters sectors_per_cluster)

-- `while (low < high)` with fuel: the largest value up to `high` that passes the test, or `low`.
unfoldable pub bisect : ℕ → (ℕ → Bool) → ℕ → ℕ → ℕ
bisect zero test low high = low
bisect (suc fuel) test low high =
    let clusters = low + (high - low + 1) / 2 in
    elim (ltb low high) [
      | true ↦ elim (test clusters) [
        | true ↦ bisect fuel test clusters high
        | false ↦ bisect fuel test low (clusters - 1)
      ]
      | false ↦ low
    ]

-- A 64-bit interval is halved at most 64 times.
unfoldable pub fat32_data_cluster_count : ℕ → ℕ → ℕ → ℕ
fat32_data_cluster_count volume_size sector_size allocation_unit_size =
    let total_sectors = volume_size / sector_size in
    let sectors_per_cluster = allocation_unit_size / sector_size in
    let count =
      bisect 64 (λ n. leb (required_sectors sector_size sectors_per_cluster n) total_sectors) 0
        ((total_sectors - reserved_sectors) / sectors_per_cluster) in
    if sector_size == 0
      || (ltb allocation_unit_size sector_size
          || (not (allocation_unit_size % sector_size == 0)
              || not (volume_size % sector_size == 0)))
    then 0
    else if leb total_sectors reserved_sectors
    then 0
    else count

abbrev pub minimum_clusters : ℕ
minimum_clusters = 65527

abbrev pub maximum_clusters : ℕ
maximum_clusters = 4177917

abbrev pub allocation_unit_sizes : List ℕ
allocation_unit_sizes =
    512
    ∷ 1024
    ∷ 2048
    ∷ 4096
    ∷ 8192
    ∷ (16 * 1024)
    ∷ (32 * 1024)
    ∷ (64 * 1024)
    ∷ (128 * 1024)
    ∷ (256 * 1024)
    ∷ []

abbrev fat_mib : ℕ
fat_mib = 1024 * 1024

-- format.com's default unit for a volume size.
unfoldable pub preferred_unit : ℕ → ℕ
preferred_unit volume_size =
    if leb volume_size (64 * fat_mib)
    then 512
    else if leb volume_size (128 * fat_mib)
    then 1024
    else if leb volume_size (256 * fat_mib)
    then 2048
    else if leb volume_size (8 * 1024 * fat_mib)
    then 4096
    else if leb volume_size (16 * 1024 * fat_mib)
    then 8 * 1024
    else if leb volume_size (32 * 1024 * fat_mib)
    then 16 * 1024
    else 32 * 1024

-- The two `continue` tests of the loop, together.
unfoldable pub is_legal_unit : ℕ → ℕ → ℕ → Bool
is_legal_unit volume_size sector_size unit =
    let clusters = fat32_data_cluster_count volume_size sector_size unit in
    not (
      (ltb (64 * 1024) unit && sector_size == 512)
      || (ltb unit sector_size || not (unit % sector_size == 0)))
    && not (ltb clusters minimum_clusters || ltb maximum_clusters clusters)

-- The loop over the units: a later one replaces `best` if there is none yet or it is preferred.
unfoldable pub pick_unit : (ℕ → Bool) → ℕ → ℕ → List ℕ → ℕ
pick_unit legal preferred best [] = best
pick_unit legal preferred best (unit ∷ units) =
    pick_unit legal preferred
      (if legal unit && (best == 0 || leb unit preferred) then unit else best) units

unfoldable pub fat32_allocation_unit_size : ℕ → ℕ → ℕ → ℕ
fat32_allocation_unit_size volume_size sector_size maximum_volume_size =
    if not (is_supported_sector_size sector_size)
      || (volume_size == 0 || ltb maximum_volume_size volume_size)
    then 0
    else pick_unit (is_legal_unit volume_size sector_size) (preferred_unit volume_size) 0
        allocation_unit_sizes

abbrev pub mkfs_minimum_clusters : ℕ
mkfs_minimum_clusters = 65525

unfoldable pub minimum_mkfs_fat32_volume_bytes : ℕ → ℕ
minimum_mkfs_fat32_volume_bytes s =
    let fat_bytes = (mkfs_minimum_clusters + 2) * fat_entry_bytes in
    let fat_sectors = (fat_bytes + s - 1) / s in
    let bare = (reserved_sectors + fat_count * fat_sectors + mkfs_minimum_clusters) * s in
    if not (is_supported_sector_size s) then 0 else (bare + fat_mib - 1) / fat_mib * fat_mib

unfoldable pub maximum_mkfs_fat32_volume_bytes : ℕ → ℕ
maximum_mkfs_fat32_volume_bytes s = if not (is_supported_sector_size s) then 0 else 0xFFFFFFFF * s

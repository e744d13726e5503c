-- ===== src/Safety/Fat32/Limits.antt =====
-- core/safety.cpp, minimumMkfsFat32VolumeBytes() and maximumMkfsFat32VolumeBytes().
use usb_restoration_tool.Safety.Sectors.{IsSectorSize, is_supported_sector_size}
use usb_restoration_tool.Safety.Fat32.{
  fat32_data_cluster_count, mkfs_minimum_clusters, minimum_mkfs_fat32_volume_bytes,
  maximum_mkfs_fat32_volume_bytes,
}
use usb_restoration_tool.Safety.Fat32.Volume.{sectors_for, fat32_data_cluster_count_largest}
use usb_restoration_tool.Prelude.{ℕ, ◌/◌, ◌%◌, ◌≤◌, ◌≡◌, ◌↔◌, inl, inr, arith, IsU32, IsU64}

minimum_holds :
    (s v : ℕ)
    → IsSectorSize s
    → minimum_mkfs_fat32_volume_bytes s ≤ v
    → sectors_for s (s / s) mkfs_minimum_clusters ≤ v / s
unfolding minimum_mkfs_fat32_volume_bytes is_supported_sector_size
minimum_holds s v (inl e) h = rw e (let h' = (rw e at h) in omega arith)
minimum_holds s v (inr (inl e)) h = rw e (let h' = (rw e at h) in omega arith)
minimum_holds s v (inr (inr (inl e))) h = rw e (let h' = (rw e at h) in omega arith)
minimum_holds s v (inr (inr (inr e))) h = rw e (let h' = (rw e at h) in omega arith)

whole_units : (s : ℕ) → IsSectorSize s → s % s ≡ 0
whole_units s h = ground arith

maximum_iff :
    (s v : ℕ) → IsSectorSize s → v % s ≡ 0 → (v ≤ maximum_mkfs_fat32_volume_bytes s) ↔ IsU32 (v / s)
unfolding maximum_mkfs_fat32_volume_bytes is_supported_sector_size
maximum_iff s v size whole = ground arith

-- A volume of whole sectors that is at least the minimum, with one sector for each cluster, has the
-- clusters that mkfs.vfat wants for FAT32; and a volume of whole sectors is at most the maximum
-- exactly when its sectors are counted by a 32-bit number.
pub mkfs_fat32_limits :
    (s v : ℕ)
    → IsSectorSize s
    → IsU64 v
    → v % s ≡ 0
    → (minimum_mkfs_fat32_volume_bytes s ≤ v
        → mkfs_minimum_clusters ≤ fat32_data_cluster_count v s s)
      × ((v ≤ maximum_mkfs_fat32_volume_bytes s) ↔ IsU32 (v / s))
mkfs_fat32_limits s v size word whole = (
  λ h.
      (fat32_data_cluster_count_largest v s s size word (omega arith) (whole_units s size) whole).1
        mkfs_minimum_clusters (minimum_holds s v size h),
  maximum_iff s v size whole,
)

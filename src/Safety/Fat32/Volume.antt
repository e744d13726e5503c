-- ===== src/Safety/Fat32/Volume.antt =====
-- core/safety.cpp, fat32DataClusterCount(): the count is the largest that the volume holds.
use native.Mathlib.Nat.{le-div_iff_mul-le, div-le_self}
use usb_restoration_tool.Safety.Sectors.{IsSectorSize}
use usb_restoration_tool.Safety.Fat32.{required_sectors, bisect, fat32_data_cluster_count}
use usb_restoration_tool.Safety.Fat32.Clusters.{bisect-Largest}
use usb_restoration_tool.Prelude.{
  ℕ, ◌+◌, ◌-◌, ◌*◌, ◌/◌, ◌%◌, ◌^◌, ◌≤◌, ◌<◌, ◌≡◌, refl, ◌↔◌, ◌⊎◌, inl, inr, Bool, true, false,
  arith, dec_lt, leb, Bool-cases, IsU64,
}

-- The sectors that a FAT32 volume of so many clusters takes: the reserved sectors, two tables with
-- four bytes for each cluster and the two first entries, and the clusters.
abbrev pub sectors_for : ℕ → ℕ → ℕ → ℕ
sectors_for s per_cluster clusters =
    32 + 2 * (((clusters + 2) * 4 + s - 1) / s) + clusters * per_cluster

-- In range, the words do not wrap.
required_sectors-sectors_for :
    (s per_cluster n : ℕ)
    → IsSectorSize s
    → n < 2 ^ 56
    → n * per_cluster < 2 ^ 56
    → required_sectors s per_cluster n ≡ sectors_for s per_cluster n
unfolding required_sectors
required_sectors-sectors_for s per_cluster n (inl e) h k = rw e (omega arith)
required_sectors-sectors_for s per_cluster n (inr (inl e)) h k = rw e (omega arith)
required_sectors-sectors_for s per_cluster n (inr (inr (inl e))) h k = rw e (omega arith)
required_sectors-sectors_for s per_cluster n (inr (inr (inr e))) h k = rw e (omega arith)

tables_mono :
    (s m n : ℕ) → IsSectorSize s → m ≤ n → ((m + 2) * 4 + s - 1) / s ≤ ((n + 2) * 4 + s - 1) / s
tables_mono s m n (inl e) h = rw e (omega arith)
tables_mono s m n (inr (inl e)) h = rw e (omega arith)
tables_mono s m n (inr (inr (inl e))) h = rw e (omega arith)
tables_mono s m n (inr (inr (inr e))) h = rw e (omega arith)

sectors_for_mono :
    (s per_cluster m n : ℕ)
    → IsSectorSize s
    → m ≤ n
    → sectors_for s per_cluster m ≤ sectors_for s per_cluster n
sectors_for_mono s per_cluster m n i h = grind (arith, tables_mono s m n i h)

-- The test and the upper end of the loop.
abbrev loop_test : ℕ → ℕ → ℕ → ℕ → Bool
loop_test s per_cluster total n = leb (required_sectors s per_cluster n) total

abbrev loop_high : ℕ → ℕ → ℕ
loop_high per_cluster total = (total - 32) / per_cluster

-- The counts that the loop meets are in the range where the words do not wrap.
module _ (s per_cluster total : ℕ) (size : IsSectorSize s) (per : 0 < per_cluster)
    (small : total < 2 ^ 55) where
  abbrev passes : ℕ → Bool
  passes = loop_test s per_cluster total

  abbrev high : ℕ
  high = loop_high per_cluster total

  within : (n : ℕ) → n ≤ high → n * per_cluster ≤ total
  within n h = omega (arith, (le-div_iff_mul-le {k = per_cluster} {x = n} {y = total - 32} per).0 h)

  small_count : (n : ℕ) → n ≤ high → n < 2 ^ 56
  small_count n h = omega (arith, div-le_self (total - 32) per_cluster)

  passes_iff : (n : ℕ) → n ≤ high → (passes n ≡ true) ↔ (sectors_for s per_cluster n ≤ total)
  passes_iff n h = ground (
    arith,
    required_sectors-sectors_for s per_cluster n size (small_count n h) (omega (arith, within n h)),
  )

  passes_down : (m n : ℕ) → m ≤ n → n ≤ high → passes n ≡ true → passes m ≡ true
  passes_down m n le h e =
      (passes_iff m (omega arith)).1
        (omega (arith, sectors_for_mono s per_cluster m n size le, (passes_iff n h).0 e))

  -- The bisection finds the largest count that fits.
  largest_count :
      let r = bisect 64 passes 0 high in
      ((r ≡ 0) ⊎ (sectors_for s per_cluster r ≤ total))
      × ((m : ℕ) → sectors_for s per_cluster m ≤ total → m ≤ r)
  largest_count =
      let r =
        bisect-Largest passes 64 0 high passes_down (omega arith)
          (omega (arith, div-le_self (total - 32) per_cluster)) in
      (
        elim r.passes [ inl e ↦ inl e | inr e ↦ inr ((passes_iff _ r.below).0 e) ],
        λ m fits. elim (dec_lt 0 m) [
          | yes p ↦
              let le : m ≤ high =
                (le-div_iff_mul-le {k = per_cluster} {x = m} {y = total - 32} per).1
                  (omega arith) in
              r.largest m le p ((passes_iff m le).1 fits)
          | no p ↦ omega arith
        ],
      )

tables_pos : (s m : ℕ) → IsSectorSize s → 0 < ((m + 2) * 4 + s - 1) / s
tables_pos s m (inl e) = rw e (omega arith)
tables_pos s m (inr (inl e)) = rw e (omega arith)
tables_pos s m (inr (inr (inl e))) = rw e (omega arith)
tables_pos s m (inr (inr (inr e))) = rw e (omega arith)

sector_pos : (s : ℕ) → IsSectorSize s → 0 < s
sector_pos s h = ground arith

unit_pos : (s unit : ℕ) → IsSectorSize s → s ≤ unit → 0 < unit / s
unit_pos s unit size le =
    (le-div_iff_mul-le {k = s} {x = 1} {y = unit} (sector_pos s size)).1 (omega arith)

total_small : (v s : ℕ) → IsSectorSize s → IsU64 v → v / s < 2 ^ 55
total_small v s (inl e) h = rw e (omega arith)
total_small v s (inr (inl e)) h = rw e (omega arith)
total_small v s (inr (inr (inl e))) h = rw e (omega arith)
total_small v s (inr (inr (inr e))) h = rw e (omega arith)

count_of_tiny :
    (v s unit : ℕ) → IsSectorSize s → leb (v / s) 32 ≡ true → fat32_data_cluster_count v s unit ≡ 0
unfolding fat32_data_cluster_count
count_of_tiny v s unit size small = ground arith

-- Where the early returns do not apply, the count is the result of the loop.
count_of_volume :
    (v s unit : ℕ)
    → IsSectorSize s
    → s ≤ unit
    → unit % s ≡ 0
    → v % s ≡ 0
    → leb (v / s) 32 ≡ false
    → fat32_data_cluster_count v s unit
      ≡ bisect 64 (loop_test s (unit / s) (v / s)) 0 (loop_high (unit / s) (v / s))
unfolding fat32_data_cluster_count
count_of_volume v s unit size le whole_unit whole large = ground arith

-- The number of data clusters of a volume of whole sectors, with a unit of whole sectors, is the
-- largest number whose clusters, file allocation tables and reserved sectors fit the volume; it is
-- 0 if not even one cluster fits.
pub fat32_data_cluster_count_largest :
    (volume_size s unit : ℕ)
    → IsSectorSize s
    → IsU64 volume_size
    → s ≤ unit
    → unit % s ≡ 0
    → volume_size % s ≡ 0
    → let r = fat32_data_cluster_count volume_size s unit in
      ((r ≡ 0) ⊎ (sectors_for s (unit / s) r ≤ volume_size / s))
      × ((m : ℕ) → sectors_for s (unit / s) m ≤ volume_size / s → m ≤ r)
unfolding fat32_data_cluster_count
fat32_data_cluster_count_largest volume_size s unit size word le whole_unit whole =
    elim (Bool-cases (leb (volume_size / s) 32)) [
      | inl small ↦
          rw (count_of_tiny volume_size s unit size small)
            (inl refl, λ m fits. absurd (ground (arith, tables_pos s m size)))
      | inr large ↦ rw (count_of_volume volume_size s unit size le whole_unit whole large) (
          largest_count s (unit / s) (volume_size / s) size (unit_pos s unit size le)
            (total_small volume_size s size word))
    ]

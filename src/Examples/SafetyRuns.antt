-- ===== src/Examples/SafetyRuns.antt =====
-- Runs of the definitions of core/safety.cpp, and its theorems at concrete inputs.
use usb_restoration_tool.Text.{Text, text, text_eq, is_empty, starts_with}
use usb_restoration_tool.Examples.Data.{ascii, stick, guard}
use usb_restoration_tool.Qt.{trimmed, drop_while}
use usb_restoration_tool.Safety.Mounts.{
  looks_like_drive_letter, forward_slashes, chop_slashes, directory_prefix, is_guarded_by,
}
use usb_restoration_tool.Safety.Target.{
  normalized_identity, both_known_and_equal, is_protected_device, contains_protected_mount_point,
}
use usb_restoration_tool.Safety.Fat32.{required_sectors, bisect, pick_unit}
use usb_restoration_tool.Safety.Layout.{gpt_entry_array_sectors}
use usb_restoration_tool.Disk.{no_disk}
use usb_restoration_tool.Safety.Sectors.{is_supported_sector_size, sector_or_default}
use usb_restoration_tool.Safety.Layout.{calculate_gpt_layout}
use usb_restoration_tool.Safety.Layout.Bounds.{IsLayoutFor, calculate_gpt_layout-IsLayoutFor}
use usb_restoration_tool.Safety.Fat32.{
  fat32_data_cluster_count, fat32_allocation_unit_size, allocation_unit_sizes, is_legal_unit,
  preferred_unit,
}
use usb_restoration_tool.Safety.Fat32.Volume.{sectors_for, fat32_data_cluster_count_largest}
use usb_restoration_tool.Safety.Fat32.Units.{Beats, All, fat32_allocation_unit_size_best}
use usb_restoration_tool.Safety.Mounts.{is_protected_mount_point, normalized_mount_point}
use usb_restoration_tool.Safety.Mounts.Cover.{Covers, is_protected_mount_point_iff}
use usb_restoration_tool.Safety.Target.{is_safe_restore_target, is_same_restore_target}
use usb_restoration_tool.Safety.Target.Safe.{IsSafe, is_safe_restore_target-IsSafe}
use usb_restoration_tool.Safety.Target.Same.{IsSame, is_same_restore_target-IsSame}
use usb_restoration_tool.Prelude.{
  ℕ, ◌*◌, ◌/◌, ◌^◌, ◌≤◌, ◌≡◌, refl, ◌≢◌, ◌↔◌, ◌⊎◌, inl, true, none, [], ◌∷◌, Memᴰ, any, arith,
}

-- What the runs compute with.
runs : Unit {0}
unfolding text_eq is_empty starts_with any drop_while trimmed is_supported_sector_size
    sector_or_default gpt_entry_array_sectors calculate_gpt_layout looks_like_drive_letter
    forward_slashes chop_slashes normalized_mount_point directory_prefix is_guarded_by
    is_protected_mount_point normalized_identity both_known_and_equal is_protected_device
    contains_protected_mount_point is_safe_restore_target required_sectors bisect
    fat32_data_cluster_count preferred_unit is_legal_unit pick_unit fat32_allocation_unit_size
runs = tt

stick_is_safe : is_safe_restore_target ascii stick guard ≡ none
unfolding runs
stick_is_safe = refl

root_holds_boot :
    is_protected_mount_point ascii (text "/boot/efi/") (text "/boot/efi/EFI" ∷ []) ≡ true
unfolding runs
root_holds_boot = refl

stick_layout : (calculate_gpt_layout 16000000000 512).length ≡ 15257 * 1048576
unfolding runs
stick_layout = refl

stick_unit : fat32_allocation_unit_size (15257 * 1048576) 512 (2 ^ 41) ≡ 8192
unfolding runs
stick_unit = refl

calculate_gpt_layout-IsLayoutFor_example :
    IsLayoutFor 16000000000 512 (calculate_gpt_layout 16000000000 512)
unfolding runs
calculate_gpt_layout-IsLayoutFor_example =
    calculate_gpt_layout-IsLayoutFor 16000000000 512 (λ e. omega arith)

fat32_data_cluster_count_largest_example :
    let r = fat32_data_cluster_count 67108864 512 512 in
    ((r ≡ 0) ⊎ (sectors_for 512 (512 / 512) r ≤ 67108864 / 512))
    × ((m : ℕ) → sectors_for 512 (512 / 512) m ≤ 67108864 / 512 → m ≤ r)
fat32_data_cluster_count_largest_example =
    fat32_data_cluster_count_largest 67108864 512 512 (inl refl) (omega arith) (omega arith) refl
      refl

fat32_allocation_unit_size_best_example :
    let r = fat32_allocation_unit_size 1073741824 512 2199023255040 in
    ((r ≡ 0) ⊎ (Memᴰ r allocation_unit_sizes × (is_legal_unit 1073741824 512 r ≡ true)))
    × All
        (λ u. is_legal_unit 1073741824 512 u ≡ true → Beats (preferred_unit 1073741824) r u)
        allocation_unit_sizes
unfolding is_supported_sector_size
fat32_allocation_unit_size_best_example =
    fat32_allocation_unit_size_best 1073741824 512 2199023255040 refl (omega arith) (omega arith)

is_protected_mount_point_iff_example :
    (is_protected_mount_point ascii (text "/home") (text "/home/dave" ∷ []) ≡ true) ↔ (
      (normalized_mount_point ascii (text "/home") ≢ [])
      × (p : Text) × Memᴰ p (text "/home/dave" ∷ [])
      × (normalized_mount_point ascii p ≢ [])
      × Covers ascii (normalized_mount_point ascii (text "/home")) (normalized_mount_point ascii p))
is_protected_mount_point_iff_example =
    is_protected_mount_point_iff ascii (text "/home") (text "/home/dave" ∷ [])

is_safe_restore_target-IsSafe_example :
    (is_safe_restore_target ascii stick guard ≡ none) ↔ IsSafe ascii stick guard
is_safe_restore_target-IsSafe_example = is_safe_restore_target-IsSafe ascii stick guard

is_same_restore_target-IsSame_example :
    (is_same_restore_target ascii stick no_disk ≡ none) ↔ IsSame ascii stick no_disk
is_same_restore_target-IsSame_example = is_same_restore_target-IsSame ascii stick no_disk

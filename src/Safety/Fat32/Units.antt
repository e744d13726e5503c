-- ===== src/Safety/Fat32/Units.antt =====
-- core/safety.cpp, fat32AllocationUnitSize(): which unit the loop settles on.
use mathlib.Core.List.{Memᴰ}
use usb_restoration_tool.Safety.Sectors.{is_supported_sector_size}
use usb_restoration_tool.Safety.Fat32.{
  allocation_unit_sizes, preferred_unit, is_legal_unit, pick_unit, fat32_allocation_unit_size,
}
use usb_restoration_tool.Prelude.{
  ℕ, ◌≤◌, ◌<◌, ◌≡◌, refl, ◌∙◌, ◌≢◌, ◌⊎◌, inl, inr, Bool, true, false, ◌&&◌, ◌||◌, List, [], ◌∷◌,
  arith, leb, ◌==◌, if◌then◌else◌,
}

-- Each number of the list is larger than the ones before it, and than the bound.
abbrev Ascending : ℕ → List ℕ → Type 0
Ascending b [] = Unit {0}
Ascending b (u ∷ us) = (b < u) × Ascending u us

-- The chosen unit is at least as good as `u`: the largest of those up to the preferred one, and
-- if there are none, the smallest above it.
abbrev pub Beats : ℕ → ℕ → ℕ → Type 0
Beats preferred r u =
    (r ≢ 0) × (u ≤ preferred → (u ≤ r) × (r ≤ preferred)) × (preferred < u → r ≤ u)

abbrev pub All {ℓ} : (ℕ → Type ℓ) → List ℕ → Type ℓ
All P [] = Unit
All P (u ∷ us) = P u × All P us

module _ (legal : ℕ → Bool) (preferred : ℕ) where
  -- What the loop makes of the best unit so far and the units to come.
  record Picked (best : ℕ) (us : List ℕ) (r : ℕ) : Type 0 where
    from : (r ≡ best) ⊎ (Memᴰ r us × (legal r ≡ true))
    grows : best ≤ r
    keeps_low : best ≢ 0 → best ≤ preferred → r ≤ preferred
    keeps_high : preferred < best → r ≡ best
    beats : All (λ u. legal u ≡ true → Beats preferred r u) us

  pick_step : ℕ → ℕ → ℕ
  pick_step best u = if legal u && (best == 0 || leb u preferred) then u else best

  pick_step_cases :
      (best u : ℕ)
      → ((pick_step best u ≡ u) × (legal u ≡ true) × ((best ≡ 0) ⊎ (u ≤ preferred)))
        ⊎ ((pick_step best u ≡ best) × ((legal u ≡ false) ⊎ ((best ≢ 0) × (preferred < u))))
  unfolding pick_step
  pick_step_cases best u = ground arith

  Picked-cons :
      (best u r : ℕ) (us : List ℕ)
      → best < u
      → Picked (pick_step best u) us r
      → Picked best (u ∷ us) r
  Picked-cons best u r us lt p = record {
    from = elim (pick_step_cases best u) [
      | inl (e, l, _) ↦ elim p.from [
        | inl q ↦ inr (Memᴰ.head (q ∙ e), rw (q ∙ e) l)
        | inr (m, l') ↦ inr (Memᴰ.tail m, l')
      ]
      | inr (e, _) ↦ elim p.from [ inl q ↦ inl (q ∙ e) | inr (m, l') ↦ inr (Memᴰ.tail m, l') ]
    ];
    grows = ground (arith, pick_step_cases best u);
    keeps_low = ground (arith, pick_step_cases best u);
    keeps_high = ground (arith, pick_step_cases best u);
    beats = (ground (arith, pick_step_cases best u), p.beats);
  }

  pick_unit-Picked :
      (best b : ℕ) (us : List ℕ)
      → best ≤ b
      → Ascending b us
      → Picked best us (pick_unit legal preferred best us)
  unfolding pick_unit pick_step
  pick_unit-Picked best b [] le up = record {
    from = inl refl;
    grows = omega arith;
    keeps_low = λ h k. k;
    keeps_high = λ h. refl;
    beats = tt;
  }
  pick_unit-Picked best b (u ∷ us) le up =
      Picked-cons best u _ us (omega arith)
        (pick_unit-Picked (pick_step best u) u us (ground arith) up.1)

accepted :
    (volume_size s maximum : ℕ)
    → is_supported_sector_size s ≡ true
    → 0 < volume_size
    → volume_size ≤ maximum
    → fat32_allocation_unit_size volume_size s maximum
      ≡ pick_unit (is_legal_unit volume_size s) (preferred_unit volume_size) 0 allocation_unit_sizes
unfolding fat32_allocation_unit_size
accepted volume_size s maximum supported pos le = ground arith

-- The unit for a FAT32 volume: either no unit of the list is legal and the result is 0, or it is a
-- legal unit of the list, the largest up to the preferred one or, failing those, the smallest.
pub fat32_allocation_unit_size_best :
    (volume_size s maximum : ℕ)
    → is_supported_sector_size s ≡ true
    → 0 < volume_size
    → volume_size ≤ maximum
    → let r = fat32_allocation_unit_size volume_size s maximum in
      ((r ≡ 0) ⊎ (Memᴰ r allocation_unit_sizes × (is_legal_unit volume_size s r ≡ true)))
      × All
          (λ u. is_legal_unit volume_size s u ≡ true → Beats (preferred_unit volume_size) r u)
          allocation_unit_sizes
unfolding fat32_allocation_unit_size
fat32_allocation_unit_size_best volume_size s maximum supported pos le =
    let p =
      pick_unit-Picked (is_legal_unit volume_size s) (preferred_unit volume_size) 0 0
        allocation_unit_sizes (omega arith) (omega arith) in
    rw (accepted volume_size s maximum supported pos le) (p.from, p.beats)

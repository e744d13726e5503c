-- ===== src/RestorePlan/Order.antt =====
-- core/restore_message.cpp, firstDestructiveStepOf(): the boundary that the GUI calls safe.
use usb_restoration_tool.RestorePlan.{
  RestoreStep, changes_disk_contents, first_destructive_from, first_destructive_step_of,
}
use usb_restoration_tool.Prelude.{
  ℕ, zero, suc, ◌+◌, ◌≤◌, ◌<◌, ◌≡◌, true, false, some, List, [], ◌∷◌, arith, length, get_elem?,
}

first_destructive_from_bounds :
    (index : ℕ) (plan : List RestoreStep)
    → (index < first_destructive_from index plan)
      × (first_destructive_from index plan ≤ index + length plan + 1)
unfolding first_destructive_from
first_destructive_from_bounds index [] = omega arith
first_destructive_from_bounds index (s ∷ rest) =
    ground (arith, first_destructive_from_bounds (index + 1) rest)

harmless_from :
    (index : ℕ) (plan : List RestoreStep) (i : ℕ) (s : RestoreStep)
    → get_elem? plan i ≡ some s
    → index + i + 1 < first_destructive_from index plan
    → changes_disk_contents s ≡ false
unfolding first_destructive_from
harmless_from index [] i s e h = cc
harmless_from index (p ∷ plan) zero s e h = ground arith
harmless_from index (p ∷ plan) (suc i) s e h = ground (arith, harmless_from (index + 1) plan i s e)

destructive_at :
    (index : ℕ) (plan : List RestoreStep) (i : ℕ) (s : RestoreStep)
    → get_elem? plan i ≡ some s
    → index + i + 1 ≡ first_destructive_from index plan
    → changes_disk_contents s ≡ true
unfolding first_destructive_from
destructive_at index [] i s e h = cc
destructive_at index (p ∷ plan) zero s e h =
    ground (arith, first_destructive_from_bounds (index + 1) plan)
destructive_at index (p ∷ plan) (suc i) s e h =
    ground (arith, destructive_at (index + 1) plan i s e)

-- The number of the first destructive step of a plan lies between 1 and one behind the plan's
-- size; no step with a smaller number changes the disk's contents, and the step with that number
-- does, if the plan has one.
pub first_destructive_step_of_lem :
    (plan : List RestoreStep)
    → let n = first_destructive_step_of plan in
      (0 < n)
      × (n ≤ length plan + 1)
      × ((i : ℕ) (s : RestoreStep)
          → get_elem? plan i ≡ some s
          → (i + 1 < n → changes_disk_contents s ≡ false)
            × (i + 1 ≡ n → changes_disk_contents s ≡ true))
unfolding first_destructive_step_of
first_destructive_step_of_lem plan =
    let b = first_destructive_from_bounds 0 plan in
    (
      b.0,
      omega arith,
      λ i s e. (
        λ h. harmless_from 0 plan i s e (omega arith),
        λ h. destructive_at 0 plan i s e (omega arith),
      ),
    )

-- ===== src/RestorePlan.antt =====
-- core/restore_message.h and core/restore_message.cpp: the steps of a restore, the order in which
-- each backend reports them, and the counter that holds a backend to its order.
pub mod Order
pub mod Counter
pub mod Messages
use usb_restoration_tool.Prelude.{
  ℕ, ◌+◌, Bool, true, false, not, Option, none, some, List, [], ◌∷◌, if◌then◌else◌, get_elem?,
}

pub data RestoreStep : Type 0 where
  verify_disk identify_device unmount open_exclusive open_drive : RestoreStep
  refresh_metadata detach_drive_letters delete_partitions lock_drive : RestoreStep
  clear_signatures reset_to_raw write_partition_table create_partition : RestoreStep
  reread_partition_table wait_for_partition wait_for_volume : RestoreStep
  refresh_new_volume assign_drive_letter format complete : RestoreStep

pub RestoreStep-discrete : Discrete RestoreStep
RestoreStep-discrete = hlevel

unfoldable pub changes_disk_contents : RestoreStep → Bool
changes_disk_contents delete_partitions = true
changes_disk_contents clear_signatures = true
changes_disk_contents reset_to_raw = true
changes_disk_contents write_partition_table = true
changes_disk_contents create_partition = true
changes_disk_contents format = true
changes_disk_contents verify_disk = false
changes_disk_contents identify_device = false
changes_disk_contents unmount = false
changes_disk_contents open_exclusive = false
changes_disk_contents open_drive = false
changes_disk_contents refresh_metadata = false
changes_disk_contents detach_drive_letters = false
changes_disk_contents lock_drive = false
changes_disk_contents reread_partition_table = false
changes_disk_contents wait_for_partition = false
changes_disk_contents wait_for_volume = false
changes_disk_contents refresh_new_volume = false
changes_disk_contents assign_drive_letter = false
changes_disk_contents complete = false

abbrev pub linux_restore_plan : List RestoreStep
linux_restore_plan =
    verify_disk ∷ identify_device ∷ unmount ∷ open_exclusive ∷ clear_signatures
    ∷ write_partition_table ∷ format ∷ reread_partition_table ∷ wait_for_partition ∷ complete ∷ []

abbrev pub windows_restore_plan : List RestoreStep
windows_restore_plan =
    verify_disk ∷ open_drive ∷ refresh_metadata ∷ detach_drive_letters ∷ delete_partitions
    ∷ lock_drive ∷ clear_signatures ∷ reset_to_raw ∷ create_partition ∷ wait_for_volume
    ∷ refresh_new_volume ∷ assign_drive_letter ∷ format ∷ complete ∷ []

-- The loop from `index` on; behind the last step it is the size of the plan and one.
first_destructive_from : ℕ → List RestoreStep → ℕ
first_destructive_from index [] = index + 1
first_destructive_from index (step ∷ rest) =
    if changes_disk_contents step then index + 1 else first_destructive_from (index + 1) rest

unfoldable pub first_destructive_step_of : List RestoreStep → ℕ
unfolding first_destructive_from
first_destructive_step_of plan = first_destructive_from 0 plan

pub record RestoreStepCounter : Type 0 where
  pub plan : List RestoreStep
  pub done : ℕ

abbrev pub counter : List RestoreStep → RestoreStepCounter
counter plan = record { plan = plan; done = 0 }

same_step : Option RestoreStep → RestoreStep → Bool
same_step none step = false
same_step (some s) step = elim (RestoreStep-discrete s step) [ yes e ↦ true | no e ↦ false ]

-- The number of the step, or 0 without advancing if it is not the next one. A position behind the
-- plan's end has no step.
unfoldable pub advance : RestoreStepCounter → RestoreStep → RestoreStepCounter × ℕ
unfolding same_step
advance c step =
    if not (same_step (get_elem? c.plan c.done) step)
    then (c, 0)
    else (record c { done = c.done + 1 }, c.done + 1)

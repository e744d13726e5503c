-- ===== src/Linux/Restore/Gates.antt =====
-- linux/linux_restore.cpp: what is known before the first byte of the disk is changed.
use usb_restoration_tool.Text.{Text}
use usb_restoration_tool.Qt.{Qt}
use usb_restoration_tool.Disk.{DiskInfo}
use usb_restoration_tool.RestorePlan.{RestoreStep}
use usb_restoration_tool.Safety.Layout.{can_create_partition_layout}
use usb_restoration_tool.Safety.Target.{is_safe_restore_target, is_same_restore_target}
use usb_restoration_tool.PartitionTable.Build.{is_writable_partition_request}
use usb_restoration_tool.Linux.Identity.{verify_identity}
use usb_restoration_tool.Linux.Tools.{can_create_file_system_on}
use usb_restoration_tool.Linux.Restore.{
  RestoreRequest, World, Stop, System, Act, and_then, give, report, ◌>>=◌,
}
use usb_restoration_tool.Linux.Restore.Phases.{
  Ready, find_disk, claim_disk, perform_linux_restore, table_request, configures, open_attempts,
  unmounts,
}
use usb_restoration_tool.Prelude.{
  ℕ, ◌≡◌, refl, ap, subst, ◌≢◌, true, false, none, some, List, arith, Result, ok, err,
}

-- The disk that was found again may be restored as it was asked for.
pub record IsFound (qt : Qt) (request : RestoreRequest) (world : World) (disk : DiskInfo)
    : Type 0 where
  pub asked_safe : is_safe_restore_target qt request.disk request.guard ≡ none
  pub found : world.refreshed ≡ some disk
  pub same : is_same_restore_target qt request.disk disk ≡ none
  pub safe : is_safe_restore_target qt disk request.guard ≡ none
  pub layout : can_create_partition_layout request.style disk ≡ none
  pub file_system : can_create_file_system_on request.file_system disk ≡ none

-- The node is the disk, three times over, nobody cancelled, and the table may be written.
pub record IsClaimed (qt : Qt) (request : RestoreRequest) (world : World) (disk : DiskInfo)
    : Type 0 where
  pub inspected : verify_identity qt disk world.inspected ≡ none
  pub claimed : verify_identity qt disk world.claimed ≡ none
  pub rechecked : verify_identity qt disk world.rechecked ≡ none
  pub not_cancelled :
      (world.cancel_before_unmount ≡ false)
      × (world.cancel_before_table ≡ false)
      × (world.cancel_before_erase ≡ false)
  pub unmounted : unmounts qt world 0 ≡ ok tt
  pub opened : open_attempts qt 3 0 world ≡ ok tt
  pub writable : is_writable_partition_request (table_request request world disk) ≡ none
  pub mapped : configures world (table_request request world disk) ≡ true

pub find_disk-IsFound :
    (qt : Qt) (request : RestoreRequest) (world : World) (s : System) (disk : DiskInfo)
    → (find_disk qt request world s).result ≡ ok disk
    → IsFound qt request world disk
unfolding find_disk ◌>>=◌ give report
find_disk-IsFound qt request world s disk h = record {
  asked_safe = ground arith;
  found = ground arith;
  same = ground arith;
  safe = ground arith;
  layout = ground arith;
  file_system = ground arith;
}

pub claim_disk-IsClaimed :
    (qt : Qt) (request : RestoreRequest) (world : World) (disk : DiskInfo) (s : System)
    (ready : Ready)
    → (claim_disk qt request world disk s).result ≡ ok ready
    → IsClaimed qt request world disk
      × (ready ≡ record { disk = disk; table = table_request request world disk })
unfolding claim_disk ◌>>=◌ give report
claim_disk-IsClaimed qt request world disk s ready h = (
  record {
    inspected = ground arith;
    claimed = ground arith;
    rechecked = ground arith;
    not_cancelled = ground arith;
    unmounted = ground arith;
    opened = ground arith;
    writable = ground arith;
    mapped = ground arith;
  },
  ground arith,
)

pub find_disk-keeps :
    (qt : Qt) (request : RestoreRequest) (world : World) (s : System)
    → (find_disk qt request world s).system ≡ s
unfolding find_disk ◌>>=◌ give report
find_disk-keeps qt request world s = ground arith

pub claim_disk-keeps :
    (qt : Qt) (request : RestoreRequest) (world : World) (disk : DiskInfo) (s : System)
    → (claim_disk qt request world disk s).system ≡ s
unfolding claim_disk ◌>>=◌ give report
claim_disk-keeps qt request world disk s = ground arith

-- A chain that changes a byte goes on behind an act that changes none.
module _ (s : System) (i : ℕ) where
  behind :
      {A B : Type 0} (steps : List RestoreStep) (sys : System) (r : Result Stop A) (f : A → Act B)
      → sys ≡ s
      → (and_then steps sys r f).system.disk i ≢ s.disk i
      → (a : A) × (r ≡ ok a) × ((f a s).system.disk i ≢ s.disk i)
  behind steps sys (ok a) f e h = (a, refl, subst (λ z. (f a z).system.disk i ≢ s.disk i) e h)
  behind steps sys (err x) f e h = absurd (h (ap (λ (z : System). z.disk i) e))

  changes :
      {A B : Type 0} (m : Act A) (f : A → Act B)
      → (m s).system ≡ s
      → ((m >>= f) s).system.disk i ≢ s.disk i
      → (a : A) × ((m s).result ≡ ok a) × ((f a s).system.disk i ≢ s.disk i)
  unfolding ◌>>=◌
  changes m f e h = behind (m s).steps (m s).system (m s).result f e h

-- If any byte of the disk is other behind a restore than before it, in whatever way the restore
-- ended, then the request was safe, the disk was found again, it is the disk that was selected, is
-- itself safe and takes the layout and the file system; it was unmounted and opened exclusively;
-- its node passed the identity check before the unmounting, behind the exclusive open and again
-- before the first write; nobody had cancelled at any of the three points; the formatter's mapping
-- was in place; and the table may be written.
pub perform_linux_restore-gates :
    (qt : Qt) (file_name : Text → Text) (request : RestoreRequest) (world : World) (s : System)
    (i : ℕ)
    → (perform_linux_restore qt file_name request world s).system.disk i ≢ s.disk i
    → (disk : DiskInfo) × IsFound qt request world disk × IsClaimed qt request world disk
unfolding perform_linux_restore
perform_linux_restore-gates qt file_name request world s i h =
    let (disk, e, h') =
      changes s i (find_disk qt request world) _ (find_disk-keeps qt request world s) h in
    let (ready, e', _) =
      changes s i (claim_disk qt request world disk) _ (claim_disk-keeps qt request world disk s)
        h' in
    let (claimed, _) = claim_disk-IsClaimed qt request world disk s ready e' in
    (disk, find_disk-IsFound qt request world s disk e, claimed)

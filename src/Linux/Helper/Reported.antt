-- ===== src/Linux/Helper/Reported.antt =====
-- helper/main.cpp, runRestore(): what stands between a call of the helper and a write.
use usb_restoration_tool.Text.{Text}
use usb_restoration_tool.Qt.{Qt}
use usb_restoration_tool.Disk.{DiskInfo}
use usb_restoration_tool.Safety.Target.{is_safe_restore_target, is_same_restore_target}
use usb_restoration_tool.Protocol.Arguments.{RestoreArguments, ArgumentError}
use usb_restoration_tool.Protocol.Arguments.Parse.{parse_restore_arguments}
use usb_restoration_tool.Protocol.Verdict.{restore_exit_success}
use usb_restoration_tool.Linux.Restore.{System}
use usb_restoration_tool.Linux.Restore.Phases.{perform_linux_restore}
use usb_restoration_tool.Linux.Helper.{
  HelperWorld, HelperRun, helper_restore, judge_parsed, judge_refreshed, judge_safe, judge_same,
  request_of, restored, helper_misused, version_announcement, not_root,
}
use usb_restoration_tool.Prelude.{
  ◌≡◌, refl, ap, ◌∙◌, ◌≢◌, ◌⊎◌, inl, inr, Bool, true, false, not, none, List, [], ◌∷◌, arith,
  if◌then◌else◌, Result, ok, err, Result-cases, Option-cases,
}

-- What the helper knows before it restores: it is root, the command line is one that it takes, and
-- the disk that is there under that name now is one that may be restored and the one that was shown.
pub record IsGranted (qt : Qt) (w : HelperWorld) (arguments : List Text) (parsed : RestoreArguments)
    (disk : DiskInfo) : Type 0 where
  pub root : w.is_root ≡ true
  pub arguments_parsed : parse_restore_arguments qt arguments ≡ ok parsed
  pub refreshed : w.refreshed parsed.expected.device_id ≡ ok disk
  pub safe : is_safe_restore_target qt disk w.guard ≡ none
  pub same : is_same_restore_target qt parsed.expected disk ≡ none

module _ (qt : Qt) (w : HelperWorld) (arguments : List Text) (s : System) where
  abbrev pub IsRefused : HelperRun → Type 0
  IsRefused run = (run.system ≡ s) × (run.exit_code ≢ restore_exit_success)

  abbrev pub IsRestored : HelperRun → Type 0
  IsRestored run =
      (parsed : RestoreArguments) × (disk : DiskInfo) × IsGranted qt w arguments parsed disk
      × (run
          ≡ restored qt w parsed
              (perform_linux_restore qt w.file_name (request_of w parsed disk) w.world s))

  by_disk :
      (parsed : RestoreArguments) (disk : DiskInfo)
      → w.is_root ≡ true
      → parse_restore_arguments qt arguments ≡ ok parsed
      → w.refreshed parsed.expected.device_id ≡ ok disk
      → IsRefused (judge_refreshed qt w parsed s (ok disk))
        ⊎ IsRestored (judge_refreshed qt w parsed s (ok disk))
  by_disk parsed disk root p d = elim (Option-cases (is_safe_restore_target qt disk w.guard)) [
    | inr (r, e) ↦ rw e (inl (refl, omega arith))
    | inl e ↦ elim (Option-cases (is_same_restore_target qt parsed.expected disk)) [
      | inr (r, f) ↦ rw (e, f) (inl (refl, omega arith))
      | inl f ↦
          rw (e, f)
            (inr (
              parsed,
              disk,
              record { root = root; arguments_parsed = p; refreshed = d; safe = e; same = f },
              refl,
            ))
    ]
  ]

  by_arguments :
      (root : w.is_root ≡ true)
      → (r : Result ArgumentError RestoreArguments) → parse_restore_arguments qt arguments ≡ r
      → IsRefused (judge_parsed qt w s r) ⊎ IsRestored (judge_parsed qt w s r)
  by_arguments root (err e) p = inl (refl, omega arith)
  by_arguments root (ok parsed) p = elim (Result-cases (w.refreshed parsed.expected.device_id)) [
    | inl (disk, d) ↦ rw d (by_disk parsed disk root p d)
    | inr (e, d) ↦ rw d (inl (refl, omega arith))
  ]

  by_root :
      (root : Bool)
      → w.is_root ≡ root
      → let run =
          if not root
          then helper_misused qt w (version_announcement qt w ∷ []) not_root s
          else judge_parsed qt w s (parse_restore_arguments qt arguments) in
        IsRefused run ⊎ IsRestored run
  by_root true e = by_arguments e (parse_restore_arguments qt arguments) refl
  by_root false e = inl (refl, omega arith)

  -- The helper either refuses, with the disk as it was and an exit code that is not the one of
  -- success, or it does what performLinuxRestore() does; and that only as root, on a command line
  -- that parses, and on a disk that was read again, may be restored and is the one that was shown.
  pub helper_restore-gates :
      IsRefused (helper_restore qt w arguments s) ⊎ IsRestored (helper_restore qt w arguments s)
  unfolding helper_restore
  helper_restore-gates = by_root w.is_root refl

  -- Where the disk is granted, the helper restores it.
  pub helper_restore_granted :
      (parsed : RestoreArguments) (disk : DiskInfo)
      → IsGranted qt w arguments parsed disk
      → helper_restore qt w arguments s
        ≡ restored qt w parsed
            (perform_linux_restore qt w.file_name (request_of w parsed disk) w.world s)
  unfolding helper_restore
  helper_restore_granted parsed disk g =
      ap
        (λ root.
          if not root
          then helper_misused qt w (version_announcement qt w ∷ []) not_root s
          else judge_parsed qt w s (parse_restore_arguments qt arguments))
        g.root
      ∙ ap (judge_parsed qt w s) g.arguments_parsed
      ∙ ap (judge_refreshed qt w parsed s) g.refreshed
      ∙ ap (judge_safe qt w parsed disk s) g.safe
      ∙ ap (judge_same qt w parsed disk s) g.same

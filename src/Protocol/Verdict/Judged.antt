-- ===== src/Protocol/Verdict/Judged.antt =====
-- core/restore_protocol.cpp, judgeHelperRun(): when a run is believed.
use usb_restoration_tool.Text.{is_empty}
use usb_restoration_tool.Qt.{Qt}
use usb_restoration_tool.Language.{TextMode}
use usb_restoration_tool.Protocol.Verdict.{
  HelperRunObservation, succeeded, cancelled, failed, judge_helper_run, describe_restore_exit,
  no_text, exit_text, restore_exit_success, restore_exit_cancelled,
}
use usb_restoration_tool.Prelude.{◌≡◌, ◌≢◌, ◌↔◌, ◌⊎◌, Bool, true, false, arith}

-- The helper spoke, was accepted and ended with success at a known place.
pub record IsSuccess (run : HelperRunObservation) : Type 0 where
  pub not_crashed : run.crashed ≡ false
  pub spoke : run.saw_version ≡ true
  pub agreed : run.version_accepted ≡ true
  pub exit_success : run.exit_code ≡ restore_exit_success
  pub has_location : is_empty run.location ≡ false

-- A restore counts as done exactly when the helper ended normally, announced a version and a plan
-- that were accepted, ended with the exit code of success, and told where the volume is.
pub judge_helper_run-IsSuccess :
    (qt : Qt) (translated : Bool) (run : HelperRunObservation) (mode : TextMode)
    → (judge_helper_run qt translated run mode ≡ succeeded) ↔ IsSuccess run
unfolding judge_helper_run
judge_helper_run-IsSuccess qt translated run mode = (
  λ h. record {
    not_crashed = ground arith;
    spoke = ground arith;
    agreed = ground arith;
    exit_success = ground arith;
    has_location = ground arith;
  },
  λ h.
      let a = h.not_crashed in
      let b = h.spoke in
      let c = h.agreed in let d = h.exit_success in let e = h.has_location in ground arith,
)

-- A cancellation is believed in two cases alone: a kill was asked for and the process ended before
-- it announced a version, by a crash or with the exit code of a dismissed authentication; or the
-- helper was accepted, ended normally and said itself that it had stopped.
pub judge_helper_run-cancelled :
    (qt : Qt) (translated : Bool) (run : HelperRunObservation) (mode : TextMode)
    → (judge_helper_run qt translated run mode ≡ cancelled) ↔ (
        ((run.kill_requested ≡ true)
          × (run.saw_version ≡ false)
          × ((run.crashed ≡ true) ⊎ (run.exit_code ≡ 126)))
        ⊎ ((run.crashed ≡ false)
            × (run.saw_version ≡ true)
            × (run.version_accepted ≡ true)
            × (run.exit_code ≡ restore_exit_cancelled)))
unfolding judge_helper_run
judge_helper_run-cancelled qt translated run mode = ground arith

-- A verdict of failure never comes without a text.
pub judge_helper_run-has_text :
    (qt : Qt) (translated : Bool) (run : HelperRunObservation) (mode : TextMode)
    → judge_helper_run qt translated run mode ≢ failed (exit_text no_text)
unfolding judge_helper_run describe_restore_exit
judge_helper_run-has_text qt translated run mode h = ground arith

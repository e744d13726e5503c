-- ===== src/Examples/WorkerRuns.antt =====
-- Runs of platform/restore_worker.cpp and linux/linux_disk_service.cpp, and their theorems at concrete
-- inputs.
use usb_restoration_tool.Examples.Data.{ascii, request, world, system, reader}
use usb_restoration_tool.Examples.HelperRuns.{helper_runs, host}
use usb_restoration_tool.Text.{Text, text}
use usb_restoration_tool.Linux.Restore.Phases.{perform_linux_restore}
use usb_restoration_tool.Linux.Service.{
  Texts, restore, direct_outcome, helper_outcome, privilege_mode, is_helper_available,
}
use usb_restoration_tool.Linux.Service.Cancelled.{run_worker-restore}
use usb_restoration_tool.Worker.{
  Signal, finished, progress, Outcome, made_step, made_detail, run_worker, ending, on_events,
  on_event, log_step_duration,
}
use usb_restoration_tool.Worker
use usb_restoration_tool.Worker.Ends.{IsEnding, run_worker-IsEnding, ends}
use usb_restoration_tool.Worker.Progress.{progress_numbers, steps_made, run_worker-progress}
use usb_restoration_tool.Prelude.{
  ℕ, ◌+◌, ◌*◌, ◌<◌, ◌≡◌, refl, ◌↔◌, true, false, none, List, [], ◌∷◌, min, ok, length, get_or, take,
  drop,
}

worker_runs : Unit {0}
unfolding helper_runs direct_outcome helper_outcome restore run_worker ending on_events on_event
    log_step_duration progress_numbers steps_made ends privilege_mode is_helper_available
worker_runs = tt

-- A service that reports two steps and fails.
abbrev two_steps : Outcome
two_steps = record {
  events =
      made_step (text "One") (text "Eins")
      ∷ made_detail (text "sdb")
      ∷ made_step (text "Two") (text "Zwei")
      ∷ [];
  restored = none;
  error = text "no";
  display_error = [];
}

abbrev clock : ℕ → ℕ
clock i = 7 * i

abbrev signals : List Signal
signals = (run_worker clock 10 (text "failed") true two_steps).signals

numbered : progress_numbers signals ≡ 1 ∷ 2 ∷ []
unfolding worker_runs
numbered = refl

run_worker-IsEnding_example : IsEnding (text "failed") true two_steps signals
run_worker-IsEnding_example = run_worker-IsEnding clock 10 (text "failed") true two_steps

run_worker-progress_example :
    (length (progress_numbers signals) ≡ 2)
    × ((i : ℕ) → i < 2 → get_or (progress_numbers signals) i 0 ≡ min (i + 1) 10)
unfolding steps_made
run_worker-progress_example = run_worker-progress clock 10 (text "failed") true two_steps

abbrev texts : Texts
texts = record {
  display_step = λ step style file_system. text "Schritt";
  wording = λ stop. text "stopped";
  display_wording = λ stop. text "angehalten";
  client_wording = λ failure. text "failed";
  client_display_wording = λ failure. text "fehlgeschlagen";
}

abbrev file_name : Text → Text
file_name path = drop 5 path

abbrev told : List Signal
told =
    (run_worker clock 10 (text "failed") false
      (restore ascii file_name texts request true world system reader host)).signals

run_worker-restore_example :
    let done = perform_linux_restore ascii file_name request world system in
    (finished (text "/dev/sdb1") ≡ Worker.cancelled → (false ≡ true) × (done.system ≡ system))
    × ((location : Text)
        → (finished (text "/dev/sdb1") ≡ finished location) ↔ (done.result ≡ ok location))
unfolding worker_runs
run_worker-restore_example =
    run_worker-restore texts request ascii file_name world system reader host clock 10
      (text "failed") false (take 32 told) (finished (text "/dev/sdb1")) (λ stop ne e. cc) refl

-- A cancellation in front of the unmounting.
stopped_early :
    let stopped = record world { cancel_before_unmount = true } in
    (drop 8
        (run_worker clock 10
          (text "failed")
          true
          (restore ascii file_name texts request true stopped system reader host)).signals
      ≡ Worker.cancelled ∷ [])
    × ((perform_linux_restore ascii file_name request stopped system).system ≡ system)
unfolding worker_runs
stopped_early = (refl, refl)

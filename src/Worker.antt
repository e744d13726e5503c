-- ===== src/Worker.antt =====
-- platform/restore_worker.cpp: the thread around a restore, and the signals that the window gets.
-- The clock is a function, elapsed() at each of its calls; it never goes back. What the service does
-- is a list of the calls that it makes, and how it ends.
pub mod Ends
pub mod Progress
use usb_restoration_tool.Text.{Text, text, is_empty}
use usb_restoration_tool.Protocol.Decimal.{number}
use usb_restoration_tool.Prelude.{
  ℕ, ◌+◌, ◌-◌, Bool, ◌&&◌, Option, none, some, List, [], ◌∷◌, ◌++◌, min, ◌==◌, if◌then◌else◌,
}

pub data Event : Type 0 where
  -- The English text and the one for the user.
  made_step : Text → Text → Event
  made_detail : Text → Event

pub data Signal : Type 0 where
  progress : ℕ → ℕ → Text → Signal
  log_message log_file_only failed finished : Text → Signal
  cancelled : Signal

pub record Worker : Type 0 where
  pub step : ℕ
  pub step_started : ℕ
  pub clock_reads : ℕ
  pub signals : List Signal

-- `error` and `display_error` stand behind a restore that did not succeed.
pub record Outcome : Type 0 where
  pub events : List Event
  pub restored : Option Text
  pub error : Text
  pub display_error : Text

abbrev pub new_worker : Worker
new_worker = record { step = 0; step_started = 0; clock_reads = 0; signals = [] }

abbrev pub emit : Signal → Worker → Worker
emit s w = record w { signals = w.signals ++ s ∷ [] }

abbrev pub took : Text → ℕ → Text
took what time = what ++ (text " took " ++ (number time ++ text " ms"))

-- What is emitted behind the service's restore().
unfoldable pub ending : Text → Bool → Outcome → Option Text → List Signal
unfolding is_empty
ending fallback cancel_requested o (some location) = finished location ∷ []
ending fallback cancel_requested o none =
    if cancel_requested && is_empty o.error
    then cancelled ∷ []
    else log_message
        (text "ERROR: " ++ (if is_empty o.error then text "The restore failed." else o.error))
      ∷ failed (
          if is_empty o.display_error
          then if is_empty o.error then fallback else o.error
          else o.display_error)
      ∷ []

module _ (clock : ℕ → ℕ) where
  unfoldable pub log_step_duration : Worker → Worker
  log_step_duration w =
      let now = clock w.clock_reads in
      let what =
        if w.step == 0
        then took (text "Restore setup") now
        else took (text "Step " ++ number w.step) (now - w.step_started) in
      emit (log_file_only what) (record w { step_started = now; clock_reads = w.clock_reads + 1 })

  unfoldable pub on_event : ℕ → Event → Worker → Worker
  unfolding log_step_duration
  on_event total (made_step english display) w =
      let timed = log_step_duration w in
      let step = min (timed.step + 1) total in
      emit (progress step total display) (emit (log_message english) (record timed { step = step }))
  on_event total (made_detail message) w = emit (log_file_only message) w

  unfoldable pub on_events : ℕ → List Event → Worker → Worker
  unfolding on_event
  on_events total [] w = w
  on_events total (e ∷ es) w = on_events total es (on_event total e w)

  -- run(): `fallback` is the text for the user where there is no error.
  unfoldable pub run_worker : ℕ → Text → Bool → Outcome → Worker
  unfolding on_events log_step_duration ending
  run_worker total fallback cancel_requested o =
      let timed = log_step_duration (on_events total o.events new_worker) in
      let attempt = took (text "Restore attempt") (clock timed.clock_reads) in
      let logged =
        emit (log_file_only attempt) (record timed { clock_reads = timed.clock_reads + 1 }) in
      record logged { signals = logged.signals ++ ending fallback cancel_requested o o.restored }

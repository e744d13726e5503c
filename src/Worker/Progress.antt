-- ===== src/Worker/Progress.antt =====
-- platform/restore_worker.cpp, step(): the numbers that the progress signals carry.
use usb_restoration_tool.Text.{Text, text}
use usb_restoration_tool.Worker.{
  Event, made_step, made_detail, Signal, progress, log_message, log_file_only, failed, finished,
  cancelled, Worker, new_worker, Outcome, log_step_duration, on_event, on_events, ending,
  run_worker, emit, took,
}
use usb_restoration_tool.Prelude.{
  ℕ, zero, suc, ◌+◌, ◌<◌, ◌≡◌, refl, sym, ap, ◌∙◌, Bool, Option, none, some, List, [], ◌∷◌, ◌++◌,
  append-nil, append_assoc, arith, min, length, get_or,
}

abbrev pub with_number : Signal → List ℕ → List ℕ
with_number (progress n total message) rest = n ∷ rest
with_number (log_message t) rest = rest
with_number (log_file_only t) rest = rest
with_number (failed t) rest = rest
with_number (finished t) rest = rest
with_number cancelled rest = rest

unfoldable pub progress_numbers : List Signal → List ℕ
progress_numbers [] = []
progress_numbers (s ∷ ss) = with_number s (progress_numbers ss)

-- The steps that the service reports.
unfoldable pub steps_made : List Event → ℕ
steps_made [] = 0
steps_made (made_step english display ∷ es) = suc (steps_made es)
steps_made (made_detail message ∷ es) = steps_made es

with_number-append :
    (s : Signal) (xs ys : List ℕ) → with_number s (xs ++ ys) ≡ with_number s xs ++ ys
with_number-append (progress n total message) xs ys = refl
with_number-append (log_message t) xs ys = refl
with_number-append (log_file_only t) xs ys = refl
with_number-append (failed t) xs ys = refl
with_number-append (finished t) xs ys = refl
with_number-append cancelled xs ys = refl

progress_numbers-append :
    (xs ys : List Signal) → progress_numbers (xs ++ ys) ≡ progress_numbers xs ++ progress_numbers ys
unfolding progress_numbers
progress_numbers-append [] ys = refl
progress_numbers-append (x ∷ xs) ys =
    ap (λ rest. with_number x rest) (progress_numbers-append xs ys)
    ∙ with_number-append x (progress_numbers xs) (progress_numbers ys)

-- A signal without a number.
silent :
    (xs : List Signal) (s : Signal)
    → with_number s [] ≡ []
    → progress_numbers (xs ++ s ∷ []) ≡ progress_numbers xs
unfolding progress_numbers
silent xs s e =
    progress_numbers-append xs (s ∷ [])
    ∙ ap (λ n. progress_numbers xs ++ n) e
    ∙ append-nil (progress_numbers xs)

-- So many numbers behind the first `done`.
unfoldable capped : ℕ → ℕ → ℕ → List ℕ
capped total done zero = []
capped total done (suc n) = min (done + 1) total ∷ capped total (done + 1) n

capped_length : (total done n : ℕ) → length (capped total done n) ≡ n
unfolding capped
capped_length total done zero = refl
capped_length total done (suc n) = let l = capped_length total (done + 1) n in omega arith

capped_at :
    (total done n i : ℕ) → i < n → get_or (capped total done n) i 0 ≡ min (done + i + 1) total
unfolding capped
capped_at total done zero i h = absurd (omega arith)
capped_at total done (suc n) zero h = ap (λ k. min k total) (omega arith)
capped_at total done (suc n) (suc i) h =
    capped_at total (done + 1) n i (omega arith) ∙ ap (λ k. min k total) (omega arith)

module _ (clock : ℕ → ℕ) (total : ℕ) where
  step-numbers :
      (english display : Text) (w : Worker) (done : ℕ)
      → w.step ≡ min done total
      → let t = on_event clock total (made_step english display) w in
        (t.step ≡ min (done + 1) total)
        × (progress_numbers t.signals ≡ progress_numbers w.signals ++ min (done + 1) total ∷ [])
  unfolding on_event log_step_duration
  step-numbers english display w done h =
      let next : min (w.step + 1) total ≡ min (done + 1) total = ground arith in
      let timed = log_step_duration clock w in
      let shown = progress (min (w.step + 1) total) total display in
      (
        next,
        progress_numbers-append (emit (log_message english) timed).signals (shown ∷ [])
            ∙ ap (λ xs. xs ++ progress_numbers (shown ∷ []))
                (silent timed.signals (log_message english) refl ∙ silent w.signals _ refl)
            ∙ (unfold progress_numbers in ap (λ n. progress_numbers w.signals ++ n ∷ []) next),
      )

  on_events-numbers :
      (es : List Event) (w : Worker) (done : ℕ)
      → w.step ≡ min done total
      → progress_numbers (on_events clock total es w).signals
        ≡ progress_numbers w.signals ++ capped total done (steps_made es)
  unfolding on_events steps_made capped
  on_events-numbers [] w done h = sym (append-nil (progress_numbers w.signals))
  on_events-numbers (made_detail message ∷ es) w done h =
      on_events-numbers es (on_event clock total (made_detail message) w) done
        (unfold on_event in h)
      ∙ ap (λ xs. xs ++ capped total done (steps_made es))
          (unfold on_event in silent w.signals (log_file_only message) refl)
  on_events-numbers (made_step english display ∷ es) w done h =
      let (a, b) = step-numbers english display w done h in
      on_events-numbers es (on_event clock total (made_step english display) w) (done + 1) a
      ∙ ap (λ xs. xs ++ capped total (done + 1) (steps_made es)) b
      ∙ append_assoc (progress_numbers w.signals) (min (done + 1) total ∷ [])
          (capped total (done + 1) (steps_made es))

ending-silent :
    (fallback : Text) (cancel_requested : Bool) (o : Outcome) (r : Option Text)
    → progress_numbers (ending fallback cancel_requested o r) ≡ []
unfolding ending progress_numbers
ending-silent fallback cancel_requested o none = ground arith
ending-silent fallback cancel_requested o (some location) = refl

run_worker-numbers :
    (clock : ℕ → ℕ) (total : ℕ) (fallback : Text) (cancel_requested : Bool) (o : Outcome)
    → progress_numbers (run_worker clock total fallback cancel_requested o).signals
      ≡ capped total 0 (steps_made o.events)
unfolding run_worker log_step_duration
run_worker-numbers clock total fallback cancel_requested o =
    let w = on_events clock total o.events new_worker in
    let timed = log_step_duration clock w in
    let attempt = log_file_only (took (text "Restore attempt") (clock timed.clock_reads)) in
    progress_numbers-append (timed.signals ++ attempt ∷ [])
      (ending fallback cancel_requested o o.restored)
    ∙ ap (λ ys. progress_numbers (timed.signals ++ attempt ∷ []) ++ ys)
        (ending-silent fallback cancel_requested o o.restored)
    ∙ append-nil (progress_numbers (timed.signals ++ attempt ∷ []))
    ∙ silent timed.signals _ refl
    ∙ silent w.signals _ refl
    ∙ (unfold progress_numbers in on_events-numbers clock total o.events new_worker 0 (omega arith))

-- The window gets one number for each step that the service reports, in order: the number of the
-- step, or the last number of the plan where the service reports more steps than the plan has.
pub run_worker-progress :
    (clock : ℕ → ℕ) (total : ℕ) (fallback : Text) (cancel_requested : Bool) (o : Outcome)
    → let numbers = progress_numbers (run_worker clock total fallback cancel_requested o).signals in
      (length numbers ≡ steps_made o.events)
      × ((i : ℕ) → i < steps_made o.events → get_or numbers i 0 ≡ min (i + 1) total)
run_worker-progress clock total fallback cancel_requested o =
    let n = run_worker-numbers clock total fallback cancel_requested o in
    (
      ap (λ xs. length xs) n ∙ capped_length total 0 (steps_made o.events),
      λ i h.
          ap (λ xs. get_or xs i 0) n
          ∙ capped_at total 0 (steps_made o.events) i h
          ∙ ap (λ k. min k total) (omega arith),
    )

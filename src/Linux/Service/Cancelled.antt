-- ===== src/Linux/Service/Cancelled.antt =====
-- linux/linux_disk_service.cpp under platform/restore_worker.cpp: what a signal of the worker says of
-- the disk.
use usb_restoration_tool.Text.{Text}
use usb_restoration_tool.Qt.{Qt}
use usb_restoration_tool.Linux.Restore.{RestoreRequest, World, System, Stop, cancelled}
use usb_restoration_tool.Linux.Restore.Phases.{perform_linux_restore}
use usb_restoration_tool.Linux.Restore.Cancel.{perform_linux_restore-cancelled}
use usb_restoration_tool.Linux.Client.{Reader}
use usb_restoration_tool.Linux.Client.Run.{Host}
use usb_restoration_tool.Linux.Service.{
  Texts, restore, direct_outcome, step_event, stop_text, ended,
}
use usb_restoration_tool.Worker
use usb_restoration_tool.Worker.{Event, Signal, finished, Outcome, run_worker}
use usb_restoration_tool.Worker.Ends.{run_worker-IsEnding}
use usb_restoration_tool.Prelude.{
  ℕ, ◌≡◌, refl, sym, ap, ◌∙◌, ◌≢◌, ◌↔◌, ◌⊎◌, inl, inr, Bool, true, Option, none, some, List, [],
  ◌∷◌, ◌++◌, map, Result, ok, err,
}

last_signal : List Signal → Option Signal
last_signal [] = none
last_signal (s ∷ []) = some s
last_signal (s ∷ t ∷ ss) = last_signal (t ∷ ss)

last-append : (xs : List Signal) (s : Signal) → last_signal (xs ++ s ∷ []) ≡ some s
unfolding last_signal
last-append [] s = refl
last-append (x ∷ []) s = refl
last-append (x ∷ y ∷ xs) s = last-append (y ∷ xs) s

some-inj : {s t : Signal} → some s ≡ some t → s ≡ t
some-inj e = cc

snoc-inj : (xs ys : List Signal) (s t : Signal) → xs ++ s ∷ [] ≡ ys ++ t ∷ [] → s ≡ t
snoc-inj xs ys s t e = some-inj (sym (last-append xs s) ∙ ap last_signal e ∙ last-append ys t)

stop_cases :
    (wording : Stop → Text) (stop : Stop)
    → (stop ≡ cancelled) ⊎ ((stop ≢ cancelled) × (stop_text wording stop ≡ wording stop))
stop_cases wording cancelled = inl refl
stop_cases wording stop = inr (λ e. cc, refl)

module _ (texts : Texts) (request : RestoreRequest) where
  stopped :
      (events : List Event) (r : Result Stop Text)
      → ((stop : Stop) → stop ≢ cancelled → texts.wording stop ≢ [])
      → let o = ended events (stop_text texts.wording) (stop_text texts.display_wording) r in
        o.restored ≡ none → o.error ≡ [] → r ≡ err cancelled
  stopped events (ok location) worded n e = cc
  stopped events (err stop) worded n e = elim (stop_cases texts.wording stop) [
    | inl c ↦ ap err c
    | inr (ne, w) ↦ absurd (worded stop ne (sym w ∙ e))
  ]

  restored_iff :
      (events : List Event) (r : Result Stop Text) (location : Text)
      → let o = ended events (stop_text texts.wording) (stop_text texts.display_wording) r in
        (o.restored ≡ some location) ↔ (r ≡ ok location)
  restored_iff events (ok l) location = (λ h. cc, λ h. cc)
  restored_iff events (err e) location = (λ h. cc, λ h. cc)

  -- Run as root, a restore of which the window is told that it was cancelled has left every byte of
  -- the disk as it was, and one of which it is told that it finished ended at the location that is
  -- shown. The refusals have texts that are not empty.
  pub run_worker-restore :
      (qt : Qt) (file_name : Text → Text) (world : World) (s : System) (reader : Reader)
      (host : Host) (clock : ℕ → ℕ) (total : ℕ) (fallback : Text) (cancel_requested : Bool)
      (earlier : List Signal) (last : Signal)
      → ((stop : Stop) → stop ≢ cancelled → texts.wording stop ≢ [])
      → (run_worker clock total fallback cancel_requested
          (restore qt file_name texts request true world s reader host)).signals
        ≡ earlier ++ last ∷ []
      → let done = perform_linux_restore qt file_name request world s in
        (last ≡ Worker.cancelled → (cancel_requested ≡ true) × (done.system ≡ s))
        × ((location : Text) → (last ≡ finished location) ↔ (done.result ≡ ok location))
  unfolding restore direct_outcome
  run_worker-restore qt file_name world s reader host clock total fallback cancel_requested earlier
        last worded h =
      let done = perform_linux_restore qt file_name request world s in
      let o = restore qt file_name texts request true world s reader host in
      let ending = run_worker-IsEnding clock total fallback cancel_requested o in
      let same : ending.last ≡ last =
        snoc-inj ending.earlier earlier ending.last last (sym ending.placed ∙ h) in
      (
        λ c.
            let (r, asked, e) = ending.stopped.0 (same ∙ c) in
            (
              asked,
              perform_linux_restore-cancelled qt file_name request world s
                  (stopped (map (step_event texts request) done.steps) done.result worded r e),
            ),
        λ location.
            let success = ending.success location in
            let shown =
              restored_iff (map (step_event texts request) done.steps) done.result location in
            (λ e. shown.0 (success.0 (same ∙ e)), λ e. sym same ∙ success.1 (shown.1 e)),
      )

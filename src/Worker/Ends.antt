-- ===== src/Worker/Ends.antt =====
-- platform/restore_worker.cpp, run(): the signal that ends a restore.
use usb_restoration_tool.Text.{Text, text, is_empty, is_empty-eq, ne-is_empty}
use usb_restoration_tool.Worker.{
  Event, made_step, made_detail, Signal, progress, log_message, log_file_only, failed, finished,
  cancelled, Worker, new_worker, Outcome, log_step_duration, on_event, on_events, ending,
  run_worker, emit,
}
use usb_restoration_tool.Prelude.{
  ℕ, ◌+◌, ◌≡◌, refl, sym, ap, ◌∙◌, ◌≢◌, ◌↔◌, inl, inr, Bool, true, false, ◌&&◌, Option, none, some,
  List, [], ◌∷◌, ◌++◌, append-nil, append_assoc, arith, min, if◌then◌else◌, Bool-cases,
}

-- The signals that tell the window that the restore is over.
abbrev pub is_end : Signal → Bool
is_end (progress n total message) = false
is_end (log_message t) = false
is_end (log_file_only t) = false
is_end (failed t) = true
is_end (finished t) = true
is_end cancelled = true

unfoldable pub ends : List Signal → List Signal
ends [] = []
ends (s ∷ ss) = let rest = ends ss in if is_end s then s ∷ rest else rest

ends-append : (xs ys : List Signal) → ends (xs ++ ys) ≡ ends xs ++ ends ys
unfolding ends
ends-append [] ys = refl
ends-append (x ∷ xs) ys = ground (arith, ends-append xs ys)

-- What the user is told of a failure: the text that the service has for the user, its error where
-- there is none, and the fallback where there is neither.
pub record IsShown (fallback : Text) (o : Outcome) (t : Text) : Type 0 where
  pub display : o.display_error ≢ [] → t ≡ o.display_error
  pub error : o.display_error ≡ [] → o.error ≢ [] → t ≡ o.error
  pub neither : o.display_error ≡ [] → o.error ≡ [] → t ≡ fallback

pub record IsEnding (fallback : Text) (cancel_requested : Bool) (o : Outcome)
    (signals : List Signal) : Type 0 where
  pub last : Signal
  pub earlier : List Signal
  pub placed : signals ≡ earlier ++ last ∷ []
  pub is_last_end : is_end last ≡ true
  pub none_earlier : ends earlier ≡ []
  pub success : (location : Text) → (last ≡ finished location) ↔ (o.restored ≡ some location)
  pub stopped :
      (last ≡ cancelled) ↔ ((o.restored ≡ none) × (cancel_requested ≡ true) × (o.error ≡ []))
  pub failure :
      ((t : Text) × (last ≡ failed t))
      ↔ ((o.restored ≡ none) × ¬ ((cancel_requested ≡ true) × (o.error ≡ [])))
  pub shown : (t : Text) → last ≡ failed t → IsShown fallback o t

emitted : (xs : List Signal) (s : Signal) → is_end s ≡ false → ends (xs ++ s ∷ []) ≡ ends xs
unfolding ends
emitted xs s e = ends-append xs (s ∷ []) ∙ rw e (append-nil (ends xs))

module _ (clock : ℕ → ℕ) (total : ℕ) where
  logged-ends : (w : Worker) → ends (log_step_duration clock w).signals ≡ ends w.signals
  unfolding log_step_duration
  logged-ends w = emitted w.signals _ refl

  on_event-ends :
      (e : Event) (w : Worker) → ends (on_event clock total e w).signals ≡ ends w.signals
  unfolding on_event
  on_event-ends (made_step english display) w =
      let timed = log_step_duration clock w in
      let logged = emit (log_message english) timed in
      emitted logged.signals (progress (min (timed.step + 1) total) total display) refl
      ∙ emitted timed.signals (log_message english) refl
      ∙ logged-ends w
  on_event-ends (made_detail message) w = emitted w.signals (log_file_only message) refl

  on_events-ends :
      (es : List Event) (w : Worker) → ends (on_events clock total es w).signals ≡ ends w.signals
  unfolding on_events
  on_events-ends [] w = refl
  on_events-ends (e ∷ es) w = on_events-ends es (on_event clock total e w) ∙ on_event-ends e w

failed_text : {a b : Text} → failed a ≡ failed b → a ≡ b
failed_text h = cc

none_empty : is_empty {A = ℕ} [] ≡ true
unfolding is_empty
none_empty = refl

text-IsShown :
    (fallback : Text) (o : Outcome) (t : Text)
    → (if is_empty o.display_error
        then if is_empty o.error then fallback else o.error
        else o.display_error)
      ≡ t
    → IsShown fallback o t
text-IsShown fallback o t e = record {
  display = λ ne. let a = ne-is_empty o.display_error ne in ground arith;
  error = λ d ne.
      let a : is_empty o.display_error ≡ true = ap (λ t. is_empty t) d ∙ none_empty in
      let b = ne-is_empty o.error ne in ground arith;
  neither = λ d n.
      let a : is_empty o.display_error ≡ true = ap (λ t. is_empty t) d ∙ none_empty in
      let b : is_empty o.error ≡ true = ap (λ t. is_empty t) n ∙ none_empty in ground arith;
}

module _ (fallback : Text) (cancel_requested : Bool) (o : Outcome) where
  failed_ending :
      (earlier : List Signal)
      → ends earlier ≡ []
      → o.restored ≡ none
      → IsEnding fallback cancel_requested o (earlier ++ ending fallback cancel_requested o none)
  unfolding ending ends
  failed_ending earlier e r = elim (Bool-cases (cancel_requested && is_empty o.error)) [
    | inl c ↦ rw c (record {
      last = cancelled;
      earlier = earlier;
      placed = refl;
      none_earlier = e;
      success = λ l. (λ h. cc, λ h. cc);
      stopped = (λ h. (r, ground arith, is_empty-eq o.error (ground arith)), λ h. refl);
      is_last_end = refl;
      failure =
          (λ (t, h). cc, λ (n, f). absurd (f (ground arith, is_empty-eq o.error (ground arith))));
      shown = λ t h. cc;
    })
    | inr c ↦
        let other : ¬ ((cancel_requested ≡ true) × (o.error ≡ [])) = λ (c', z).
          let f : is_empty o.error ≡ true = ap (λ t. is_empty t) z ∙ none_empty in
          absurd (ground arith) in
        let logged =
          log_message (
            text "ERROR: " ++ (if is_empty o.error then text "The restore failed." else o.error)) in
        rw c (record {
          last = failed (
              if is_empty o.display_error
              then if is_empty o.error then fallback else o.error
              else o.display_error);
          earlier = earlier ++ logged ∷ [];
          placed = sym (append_assoc earlier (logged ∷ []) _);
          none_earlier = emitted earlier logged refl ∙ e;
          success = λ l. (λ h. cc, λ h. cc);
          is_last_end = refl;
          stopped = (λ h. cc, λ (n, c', z). absurd (other (c', z)));
          failure = (λ h. (r, other), λ h. (_, refl));
          shown = λ t h. text-IsShown fallback o t (failed_text h);
        })
  ]

  ending-IsEnding :
      (earlier : List Signal)
      → ends earlier ≡ []
      → (r : Option Text) → o.restored ≡ r
      → IsEnding fallback cancel_requested o (earlier ++ ending fallback cancel_requested o r)
  unfolding ending
  ending-IsEnding earlier e none r = failed_ending earlier e r
  ending-IsEnding earlier e (some location) r = record {
    last = finished location;
    earlier = earlier;
    placed = refl;
    none_earlier = e;
    success = λ l. (λ h. cc, λ h. cc);
    stopped = (λ h. cc, λ (h, c, n). cc);
    is_last_end = refl;
    failure = (λ (t, h). cc, λ (n, f). cc);
    shown = λ t h. cc;
  }

-- A restore in the worker ends with exactly one signal of an end, the last one of all. It is that
-- the restore finished, with the location, exactly where the service restored the disk; that it was
-- cancelled, exactly where the service did not, without an error, and the user asked for it; and
-- that it failed, exactly in the other cases. A failure shows the service's text for the user, its
-- error where that is empty, and the fallback where both are.
pub run_worker-IsEnding :
    (clock : ℕ → ℕ) (total : ℕ) (fallback : Text) (cancel_requested : Bool) (o : Outcome)
    → IsEnding fallback cancel_requested o
        (run_worker clock total fallback cancel_requested o).signals
unfolding run_worker ends
run_worker-IsEnding clock total fallback cancel_requested o =
    let w = on_events clock total o.events new_worker in
    let timed = log_step_duration clock w in
    ending-IsEnding fallback cancel_requested o (timed.signals ++ log_file_only _ ∷ [])
      (emitted timed.signals _ refl
        ∙ logged-ends clock total w
        ∙ on_events-ends clock total o.events new_worker)
      o.restored refl

-- ===== src/Linux/Client/Finished.antt =====
-- linux/helper_client.cpp, runHelperRestore(): what a run that succeeds has seen.
use usb_restoration_tool.Text.{Text, is_empty, is_empty-ne, ne-is_empty}
use usb_restoration_tool.Qt.{trimmed}
use usb_restoration_tool.Language.{english_text, display_text}
use usb_restoration_tool.Protocol.Verdict.{
  HelperRunVerdict, succeeded, cancelled, failed, judge_helper_run, restore_exit_success,
}
use usb_restoration_tool.Protocol.Verdict.Judged.{IsSuccess, judge_helper_run-IsSuccess}
use usb_restoration_tool.Protocol.Messages.{ProtocolLine, parse_protocol_line}
use usb_restoration_tool.Linux.Client.{
  Reader, ClientState, client_start, ask_helper_to_stop, announcement_refusal, consume, read_output,
  take_complete_lines, on_cancel,
}
use usb_restoration_tool.Linux.Client.Run.{
  Poll, poll, poll_all, Exit, drain, Host, finish_client, run_helper_restore, judge_client, probed,
  probe_answer, concluded, observation,
}
use usb_restoration_tool.Linux.Client.Heard.{parsed_lines, announcements, last_result, Hears}
use usb_restoration_tool.Linux.Client.Read.{
  poll_lines, helper_lines, IsRead, consume-IsRead, read_output-IsRead,
}
use usb_restoration_tool.Prelude.{
  ℕ, ◌≡◌, refl, sym, ap, ◌∙◌, subst, ◌≢◌, ◌↔◌, Bool, true, false, not, Option, none, some, List, [],
  ◌∷◌, ◌++◌, append-nil, append_assoc, arith, if◌then◌else◌, ok,
}

module _ (reader : Reader) where
  on_cancel-IsRead :
      (xs : List Text) (rest : List ℕ) (requested : Bool) (s : ClientState)
      → IsRead reader xs rest s
      → IsRead reader xs rest (on_cancel requested s)
  unfolding on_cancel ask_helper_to_stop
  on_cancel-IsRead xs rest requested s h =
      let a = h.hears.saw in
      let b = h.located in
      let c = h.buffered in
      record {
        hears = record {
          saw = ground arith;
          accepted = λ e. h.hears.accepted (ground arith);
          agrees = λ v e f. let d = h.hears.agrees v e f in ground arith;
        };
        located = ground arith;
        buffered = ground arith;
      }

  pub poll_all-IsRead :
      (ps : List Poll) (xs : List Text) (rest : List ℕ) (s : ClientState)
      → IsRead reader xs rest s
      → let polled = poll_lines reader rest ps in
        IsRead reader (xs ++ polled.0) polled.1 (poll_all reader ps s)
  unfolding poll_all poll_lines poll
  poll_all-IsRead [] xs rest s h = rw (append-nil xs) h
  poll_all-IsRead (p ∷ ps) xs rest s h =
      let taken = take_complete_lines reader (rest ++ p.output) in
      let t = on_cancel p.cancel_requested (read_output reader p.output s) in
      let polled = poll_lines reader taken.1 ps in
      subst (λ a. IsRead reader a polled.1 (poll_all reader ps t))
        (append_assoc xs taken.0 polled.0)
        (poll_all-IsRead ps (xs ++ taken.0) taken.1 t (
          on_cancel-IsRead (xs ++ taken.0) taken.1 p.cancel_requested
            (read_output reader p.output s) (read_output-IsRead reader xs rest p.output s h)))

  -- The lines, whatever is left of the buffer.
  abbrev pub HasRead : List Text → ClientState → Type 0
  HasRead xs s =
      Hears reader (announcements (parsed_lines reader xs)) s
      × (s.location ≡ last_result [] (parsed_lines reader xs))

  last_line :
      (xs : List Text) (rest : List ℕ) (s : ClientState)
      → IsRead reader xs rest s
      → (empty : Bool)
      → HasRead
          (xs ++ (if empty then [] else trimmed reader.qt (reader.decode rest) ∷ []))
          (if empty then s else consume reader (trimmed reader.qt (reader.decode s.buffer) ∷ []) s)
  last_line xs rest s h true = rw (append-nil xs) (h.hears, h.located)
  last_line xs rest s h false =
      let line = λ (b : List ℕ). trimmed reader.qt (reader.decode b) ∷ [] in
      let r = consume-IsRead reader xs (line s.buffer) rest s h in
      subst (λ b. HasRead (xs ++ line b) (consume reader (line s.buffer) s)) h.buffered
        (r.hears, r.located)

  pub start-IsRead : IsRead reader [] [] client_start
  unfolding announcements parsed_lines last_result is_empty
  start-IsRead = record {
    hears = record { saw = refl; accepted = λ e. cc; agrees = λ v e. cc };
    located = refl;
    buffered = refl;
  }

  pub finish_client-HasRead :
      (host : Host) → HasRead (helper_lines reader host) (finish_client reader host)
  unfolding finish_client drain helper_lines
  finish_client-HasRead host =
      let polled = poll_lines reader [] host.polls in
      let s = poll_all reader host.polls client_start in
      let taken = take_complete_lines reader (polled.1 ++ host.exit.output) in
      let t = read_output reader host.exit.output s in
      let r =
        read_output-IsRead reader polled.0 polled.1 host.exit.output s
          (poll_all-IsRead host.polls [] [] client_start start-IsRead) in
      let last = λ (e : Bool). if e then [] else trimmed reader.qt (reader.decode taken.1) ∷ [] in
      let end = λ (e : Bool).
        if e then t else consume reader (trimmed reader.qt (reader.decode t.buffer) ∷ []) t in
      subst (λ e. HasRead (polled.0 ++ (taken.0 ++ last (is_empty taken.1))) (end e))
        (ap (λ b. is_empty b) (sym r.buffered))
        (subst (λ xs. HasRead xs (end (is_empty taken.1)))
          (append_assoc polled.0 taken.0 (last (is_empty taken.1)))
          (last_line (polled.0 ++ taken.0) taken.1 t r (is_empty taken.1)))

-- What a success takes: the helper and pkexec were there, the helper answered to the version question with an
-- announcement that was accepted; the privileged process ended normally with the exit code of
-- success, announced itself exactly once, with a version and a plan that were accepted, and the last
-- result that it wrote is the location.
pub record IsFinished (reader : Reader) (host : Host) (location : Text) : Type 0 where
  pub executable : host.helper_executable ≡ true
  pub authorised : host.pkexec ≢ []
  pub probed_helper :
      (output : List ℕ) × (host.probe_output ≡ some output)
      × (announcement_refusal reader english_text
            (parse_protocol_line reader.qt reader.to_int (trimmed reader.qt (reader.decode output)))
          ≡ none)
  pub started : host.pkexec_starts ≡ true
  pub ended : (host.exit.crashed ≡ false) × (host.exit.exit_code ≡ restore_exit_success)
  pub announced :
      (v : ProtocolLine) × (announcements (parsed_lines reader (helper_lines reader host)) ≡ v ∷ [])
      × (announcement_refusal reader english_text v ≡ none)
  pub located : location ≡ last_result [] (parsed_lines reader (helper_lines reader host))
  pub known : location ≢ []

module _ (reader : Reader) where
  probed-ok :
      (o : Option (List ℕ))
      → probed reader o ≡ ok tt
      → (output : List ℕ) × (o ≡ some output)
        × (announcement_refusal reader english_text (
              parse_protocol_line reader.qt reader.to_int
                (trimmed reader.qt (reader.decode output)))
            ≡ none)
  probed-ok none h = cc
  probed-ok (some output) h = (output, refl, ground arith)

  concluded-ok :
      (verdict display : HelperRunVerdict) (location l : Text)
      → concluded verdict display location ≡ ok l
      → (verdict ≡ succeeded) × (location ≡ l)
  concluded-ok succeeded display location l h = (refl, ground arith)
  concluded-ok cancelled display location l h = cc
  concluded-ok (failed why) display location l h = cc

  judge_client-ok :
      (exit : Exit) (s : ClientState) (location : Text)
      → judge_client reader exit s ≡ ok location
      → IsSuccess (observation reader exit s) × (s.location ≡ location)
  unfolding judge_client
  judge_client-ok exit s location h =
      let run = observation reader exit s in
      let c =
        concluded-ok (judge_helper_run reader.qt reader.translated run english_text)
          (judge_helper_run reader.qt reader.translated
            (record run { version_error = s.display_version_error }) display_text)
          s.location location h in
      ((judge_helper_run-IsSuccess reader.qt reader.translated run english_text).0 c.0, c.1)

  probed_of :
      (o : Option (List ℕ)) (output : List ℕ)
      → o ≡ some output
      → announcement_refusal reader english_text
          (parse_protocol_line reader.qt reader.to_int (trimmed reader.qt (reader.decode output)))
        ≡ none
      → probed reader o ≡ ok tt
  probed_of none output e h = cc
  probed_of (some x) output e h =
      let same : output ≡ x = ground arith in
      let h' =
        subst
          (λ b.
            announcement_refusal reader english_text
              (parse_protocol_line reader.qt reader.to_int (trimmed reader.qt (reader.decode b)))
            ≡ none)
          same h in
      ap probe_answer h'

  finished_success :
      (host : Host) (location : Text)
      → IsFinished reader host location
      → judge_client reader host.exit (finish_client reader host) ≡ ok location
  unfolding judge_client
  finished_success host location f =
      let s = finish_client reader host in
      let (hears, located) = finish_client-HasRead reader host in
      let (v, heard, agreed) = f.announced in
      let place : s.location ≡ location = located ∙ sym f.located in
      let saw : s.saw_version ≡ true =
        hears.saw ∙ ap (λ l. not (is_empty l)) heard ∙ unfold is_empty in refl in
      let success : IsSuccess (observation reader host.exit s) = record {
        not_crashed = f.ended.0;
        spoke = saw;
        agreed = hears.agrees v heard agreed;
        exit_success = f.ended.1;
        has_location = ap (λ t. is_empty t) place ∙ ne-is_empty location f.known;
      } in
      let verdict =
        (judge_helper_run-IsSuccess reader.qt reader.translated (observation reader host.exit s)
            english_text).1
          success in
      rw (verdict, place) refl

  -- A restore is reported as done, at a location, exactly when it was done by a helper that was
  -- accepted, before it was started as root and once more by its own announcement, and that ended
  -- with success; the location is the last one that the helper wrote, and is not empty.
  pub run_helper_restore-IsFinished :
      (host : Host) (location : Text)
      → (run_helper_restore reader host ≡ ok location) ↔ IsFinished reader host location
  unfolding run_helper_restore
  run_helper_restore-IsFinished host location = (
    λ h.
        let judged : judge_client reader host.exit (finish_client reader host) ≡ ok location =
          ground arith in
        let (success, place) =
          judge_client-ok host.exit (finish_client reader host) location judged in
        let (hears, located) = finish_client-HasRead reader host in
        record {
          executable = ground arith;
          authorised = is_empty-ne host.pkexec (ground arith);
          probed_helper = probed-ok host.probe_output (ground arith);
          started = ground arith;
          ended = (success.not_crashed, success.exit_success);
          announced = hears.accepted success.agreed;
          located = sym place ∙ located;
          known = is_empty-ne location (ap (λ t. is_empty t) (sym place) ∙ success.has_location);
        },
    λ f.
        let (output, o, agreed) = f.probed_helper in
        let probe = probed_of host.probe_output output o agreed in
        let judged = finished_success host location f in
        let a = f.executable in
        let b = ne-is_empty host.pkexec f.authorised in let c = f.started in ground arith,
  )

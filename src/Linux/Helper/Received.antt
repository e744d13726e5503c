-- ===== src/Linux/Helper/Received.antt =====
-- helper/main.cpp and linux/helper_client.cpp together: what the application makes of the lines and
-- of the exit code of the helper.
use usb_restoration_tool.Text.{Text, is_empty}
use usb_restoration_tool.Qt.{QtLaws, trimmed}
use usb_restoration_tool.Language.{english_text}
use usb_restoration_tool.Disk.{DiskInfo, PartitionStyle, FileSystemType}
use usb_restoration_tool.RestorePlan.{
  RestoreStep, linux_restore_plan, first_destructive_step_of, changes_disk_contents,
}
use usb_restoration_tool.RestorePlan.Messages.{restore_step_message}
use usb_restoration_tool.Protocol.Arguments.{RestoreArguments}
use usb_restoration_tool.Protocol.Lines.{sanitize_protocol_text}
use usb_restoration_tool.Protocol.Verdict.{restore_exit_success}
use usb_restoration_tool.Protocol.Messages.{
  ProtocolLine, encode_version_line, encode_step_line, encode_result_line, parse_protocol_line,
  restore_protocol_version, version_line,
}
use usb_restoration_tool.Protocol.Messages.Sent.{ReadsNumbers, parse-encode_text_line}
use usb_restoration_tool.Protocol.Messages.Steps.{parse-encode_step_line}
use usb_restoration_tool.Protocol.Messages.Accepted.{
  parse-encode_version_line, accept-encode_version_line,
}
use usb_restoration_tool.Linux.Restore.{System, Stop, Done}
use usb_restoration_tool.Linux.Restore.Phases.{perform_linux_restore}
use usb_restoration_tool.Linux.Client.{Reader, announcement_refusal}
use usb_restoration_tool.Linux.Client.Run.{Host, run_helper_restore}
use usb_restoration_tool.Linux.Client.Heard.{parsed_lines, announcements, last_result}
use usb_restoration_tool.Linux.Client.Read.{helper_lines}
use usb_restoration_tool.Linux.Client.Finished.{run_helper_restore-IsFinished}
use usb_restoration_tool.Linux.Helper.{
  HelperWorld, HelperRun, helper_restore, version_announcement, step_lines, end_restore, request_of,
}
use usb_restoration_tool.Linux.Helper.Reported.{
  IsGranted, helper_restore-gates, helper_restore_granted,
}
use usb_restoration_tool.Prelude.{
  ℕ, ◌+◌, ◌^◌, ◌<◌, ◌≡◌, refl, sym, ap, ◌∙◌, ◌≢◌, ◌↔◌, inl, inr, true, false, none, some, List, [],
  ◌∷◌, ◌++◌, arith, min, Result, ok, err, length,
}

module _ (reader : Reader) (laws : QtLaws reader.qt) (ints : ReadsNumbers reader.to_int)
    (w : HelperWorld) where
  abbrev announcement : ProtocolLine
  announcement = parse_protocol_line reader.qt reader.to_int (version_announcement reader.qt w)

  announcement_accepted : announcement_refusal reader english_text announcement ≡ none
  unfolding first_destructive_step_of changes_disk_contents
  announcement_accepted =
      (accept-encode_version_line reader.qt reader.to_int laws ints restore_protocol_version
          w.app_version linux_restore_plan (omega arith) (omega arith) (omega arith)
          reader.translated english_text reader.our_version linux_restore_plan).1
        (refl, refl, refl)

  -- A step is no announcement and no result.
  steps_quiet :
      (style : PartitionStyle) (file_system : FileSystemType) (reported : ℕ)
      (steps : List RestoreStep) (rest : List Text) (location : Text)
      → (announcements
            (parsed_lines reader (step_lines reader.qt style file_system reported steps ++ rest))
          ≡ announcements (parsed_lines reader rest))
        × (last_result location
              (parsed_lines reader (step_lines reader.qt style file_system reported steps ++ rest))
            ≡ last_result location (parsed_lines reader rest))
  unfolding parsed_lines is_empty announcements last_result encode_step_line step_lines
  steps_quiet style file_system reported [] rest location = (refl, refl)
  steps_quiet style file_system reported (step ∷ steps) rest location =
      let total = length linux_restore_plan in
      let number = min (reported + 1) total in
      let small : number < 2 ^ 31 = ground arith in
      let more = step_lines reader.qt style file_system number steps ++ rest in
      let p =
        parse-encode_step_line reader.qt reader.to_int laws ints number total small (omega arith)
          (restore_step_message step style file_system) in
      let quiet = steps_quiet style file_system number steps rest location in
      (
        ap (λ l. announcements (l ∷ parsed_lines reader more)) p ∙ quiet.0,
        ap (λ l. last_result location (l ∷ parsed_lines reader more)) p ∙ quiet.1,
      )

  abbrev success_lines : PartitionStyle → FileSystemType → List RestoreStep → Text → List Text
  success_lines style file_system steps location =
      (version_announcement reader.qt w ∷ step_lines reader.qt style file_system 0 steps)
      ++ encode_result_line reader.qt location ∷ []

  announcement_first :
      (v : ProtocolLine) (ls : List ProtocolLine) (location : Text)
      → v.kind ≡ version_line
      → (announcements (v ∷ ls) ≡ v ∷ announcements ls)
        × (last_result location (v ∷ ls) ≡ last_result location ls)
  unfolding announcements last_result
  announcement_first v ls location k = (ground arith, ground arith)

  result_heard :
      (location : Text)
      → let parsed = parsed_lines reader (encode_result_line reader.qt location ∷ []) in
        (announcements parsed ≡ [])
        × (last_result [] parsed ≡ sanitize_protocol_text reader.qt location)
  unfolding parsed_lines is_empty announcements last_result encode_result_line
  result_heard location =
      let p = (parse-encode_text_line reader.qt reader.to_int location laws).2 in
      (ap (λ l. announcements (l ∷ [])) p, ap (λ l. last_result [] (l ∷ [])) p)

  success_heard :
      (style : PartitionStyle) (file_system : FileSystemType) (steps : List RestoreStep)
      (location : Text)
      → let parsed = parsed_lines reader (success_lines style file_system steps location) in
        (announcements parsed ≡ announcement ∷ [])
        × (last_result [] parsed ≡ sanitize_protocol_text reader.qt location)
  unfolding parsed_lines is_empty encode_version_line first_destructive_step_of
      changes_disk_contents
  success_heard style file_system steps location =
      let more =
        step_lines reader.qt style file_system 0 steps
        ++ encode_result_line reader.qt location ∷ [] in
      let k : announcement.kind ≡ version_line =
        ap (λ l. l.kind)
          (parse-encode_version_line reader.qt reader.to_int laws ints restore_protocol_version
            w.app_version linux_restore_plan (omega arith) (omega arith) (omega arith)) in
      let first = announcement_first announcement (parsed_lines reader more) [] k in
      let quiet =
        steps_quiet style file_system 0 steps (encode_result_line reader.qt location ∷ []) [] in
      let last = result_heard location in
      (first.0 ∙ ap (λ ls. announcement ∷ ls) (quiet.0 ∙ last.0), first.1 ∙ quiet.1 ∙ last.1)

  ended_well :
      (lines : List Text) (s : System) (r : Result Stop Text)
      → (end_restore reader.qt w lines s r).exit_code ≡ restore_exit_success
      → (location : Text) × (r ≡ ok location)
  unfolding end_restore
  ended_well lines s (ok location) h = (location, refl)
  ended_well lines s (err stop) h = ground arith

  module _ (arguments : List Text) (s : System) (host : Host) where
    abbrev run : HelperRun
    run = helper_restore reader.qt w arguments s

    abbrev performed : RestoreArguments → DiskInfo → Done Text
    performed parsed disk =
        perform_linux_restore reader.qt w.file_name (request_of w parsed disk) w.world s

    -- A restore that the helper granted and that ended at a location, as the application shows it.
    abbrev pub IsDone : Text → Type 0
    IsDone shown =
        (parsed : RestoreArguments) × (disk : DiskInfo) × IsGranted reader.qt w arguments parsed
          disk
        × (location : Text) × ((performed parsed disk).result ≡ ok location)
        × (shown ≡ sanitize_protocol_text reader.qt location)

    -- What the helper does on a restore that went well.
    granted-run :
        (parsed : RestoreArguments) (disk : DiskInfo) (location : Text)
        → IsGranted reader.qt w arguments parsed disk
        → (performed parsed disk).result ≡ ok location
        → (run.exit_code ≡ restore_exit_success)
          × (run.lines
              ≡ success_lines parsed.style parsed.file_system
                  (performed parsed disk).steps
                  location)
    unfolding end_restore
    granted-run parsed disk location g e =
        let r = helper_restore_granted reader.qt w arguments s parsed disk g in
        let done = performed parsed disk in
        let sent =
          version_announcement reader.qt w
          ∷ step_lines reader.qt parsed.style parsed.file_system 0 done.steps in
        (
          ap (λ h. h.exit_code) r
              ∙ ap (λ o. (end_restore reader.qt w sent done.system o).exit_code) e,
          ap (λ h. h.lines) r ∙ ap (λ o. (end_restore reader.qt w sent done.system o).lines) e,
        )

    granted_heard :
        (parsed : RestoreArguments) (disk : DiskInfo) (location : Text)
        → IsGranted reader.qt w arguments parsed disk
        → (performed parsed disk).result ≡ ok location
        → helper_lines reader host ≡ run.lines
        → let heard = parsed_lines reader (helper_lines reader host) in
          (run.exit_code ≡ restore_exit_success)
          × (announcements heard ≡ announcement ∷ [])
          × (last_result [] heard ≡ sanitize_protocol_text reader.qt location)
    granted_heard parsed disk location g e lines =
        let sent = granted-run parsed disk location g e in
        let heard =
          success_heard parsed.style parsed.file_system (performed parsed disk).steps location in
        let same = ap (λ ls. parsed_lines reader ls) (lines ∙ sent.1) in
        (
          sent.0,
          ap (λ ls. announcements ls) same ∙ heard.0,
          ap (λ ls. last_result [] ls) same ∙ heard.1,
        )

    -- The application says that the restore succeeded, and where, exactly when the helper did it: the
    -- disk was granted, performLinuxRestore() ended at a location, and that is what is shown, made one
    -- line, and not empty. The two are of the same release, pkexec and the helper are there, the
    -- process ends normally, and its lines and its exit code reach the application.
    pub run_helper_restore-IsDone :
        (output : List ℕ) (shown : Text)
        → host.helper_executable ≡ true
        → host.pkexec ≢ []
        → host.probe_output ≡ some output
        → trimmed reader.qt (reader.decode output) ≡ version_announcement reader.qt w
        → host.pkexec_starts ≡ true
        → host.exit.crashed ≡ false
        → host.exit.exit_code ≡ run.exit_code
        → helper_lines reader host ≡ run.lines
        → (run_helper_restore reader host ≡ ok shown) ↔ (IsDone shown × (shown ≢ []))
    run_helper_restore-IsDone output shown there authorised probe version started normally code
          lines =
        let finished = run_helper_restore-IsFinished reader host shown in
        (
          λ h.
              let f = finished.0 h in
              let exits = sym code ∙ f.ended.1 in
              elim (helper_restore-gates reader.qt w arguments s) [
                | inl refused ↦ absurd (refused.1 exits)
                | inr (parsed, disk, g, e) ↦
                    let done = performed parsed disk in
                    let (location, r) =
                      ended_well
                        (version_announcement reader.qt w
                          ∷ step_lines reader.qt parsed.style parsed.file_system 0 done.steps)
                        done.system done.result (ap (λ h. h.exit_code) (sym e) ∙ exits) in
                    let heard = granted_heard parsed disk location g r lines in
                    ((parsed, disk, g, location, r, f.located ∙ heard.2), f.known)
              ],
          λ ((parsed, disk, g, location, r, e), known).
              let heard = granted_heard parsed disk location g r lines in
              finished.1 (record {
                executable = there;
                authorised = authorised;
                probed_helper = (
                  output,
                  probe,
                  ap
                        (λ t.
                          announcement_refusal reader english_text
                            (parse_protocol_line reader.qt reader.to_int t))
                        version
                      ∙ announcement_accepted,
                );
                started = started;
                ended = (normally, code ∙ heard.0);
                announced = (announcement, heard.1, announcement_accepted);
                located = e ∙ sym heard.2;
                known = known;
              }),
        )

-- ===== src/Linux/Client/Read.antt =====
-- linux/helper_client.cpp, runHelperRestore(): the lines that a run reads, and what its variables say of them.
use usb_restoration_tool.Text.{Text, is_empty}
use usb_restoration_tool.Qt.{trimmed}
use usb_restoration_tool.Language.{english_text}
use usb_restoration_tool.Protocol.Messages.{
  ProtocolLine, ProtocolLineKind, unknown_line, version_line, step_line, detail_line, failure_line,
  result_line, parse_protocol_line, AnnouncementRefusal,
}
use usb_restoration_tool.Linux.Client.{
  Reader, ClientState, ask_helper_to_stop, announcement_refusal, answered, on_version, on_step,
  on_failure, dispatch, consume_line, consume, read_output, take_complete_lines,
}
use usb_restoration_tool.Linux.Client.Run.{Poll, Host}
use usb_restoration_tool.Linux.Client.Heard.{
  parsed_lines, announcements, last_result, Hears, consume-Hears, consume-location,
}
use usb_restoration_tool.Prelude.{
  ℕ, ◌≡◌, refl, sym, ap, ◌∙◌, subst, inl, inr, Option, none, some, List, [], ◌∷◌, ◌++◌, arith,
  if◌then◌else◌, Bool-cases,
}

-- The lines that the passes of the loop read, and the buffer that they leave.
unfoldable pub poll_lines : Reader → List ℕ → List Poll → List Text × List ℕ
poll_lines reader buffer [] = ([], buffer)
poll_lines reader buffer (p ∷ ps) =
    let taken = take_complete_lines reader (buffer ++ p.output) in
    let rest = poll_lines reader taken.1 ps in (taken.0 ++ rest.0, rest.1)

-- All lines of the process, the last one without a newline included.
unfoldable pub helper_lines : Reader → Host → List Text
unfolding is_empty poll_lines
helper_lines reader host =
    let polled = poll_lines reader [] host.polls in
    let taken = take_complete_lines reader (polled.1 ++ host.exit.output) in
    polled.0
    ++ (taken.0
        ++ (if is_empty taken.1 then [] else trimmed reader.qt (reader.decode taken.1) ∷ []))

-- The variables tell of the lines, and the buffer holds what is left.
pub record IsRead (reader : Reader) (lines : List Text) (rest : List ℕ) (s : ClientState)
    : Type 0 where
  pub hears : Hears reader (announcements (parsed_lines reader lines)) s
  pub located : s.location ≡ last_result [] (parsed_lines reader lines)
  pub buffered : s.buffer ≡ rest

module _ (reader : Reader) where
  parsed_lines-append :
      (xs ys : List Text)
      → parsed_lines reader (xs ++ ys) ≡ parsed_lines reader xs ++ parsed_lines reader ys
  unfolding parsed_lines
  parsed_lines-append [] ys = refl
  parsed_lines-append (x ∷ xs) ys = ground (arith, parsed_lines-append xs ys)

  announcements-append :
      (xs ys : List ProtocolLine) → announcements (xs ++ ys) ≡ announcements xs ++ announcements ys
  unfolding announcements
  announcements-append [] ys = refl
  announcements-append (x ∷ xs) ys = ground (arith, announcements-append xs ys)

  last_result-append :
      (xs ys : List ProtocolLine) (location : Text)
      → last_result location (xs ++ ys) ≡ last_result (last_result location xs) ys
  unfolding last_result
  last_result-append [] ys location = refl
  last_result-append (x ∷ xs) ys location = last_result-append xs ys _

  answered-buffer :
      (s : ClientState) (o : Option AnnouncementRefusal) → (answered reader s o).buffer ≡ s.buffer
  unfolding ask_helper_to_stop
  answered-buffer s none = refl
  answered-buffer s (some r) = ground arith

  dispatch-buffer :
      (line : Text) (l : ProtocolLine) (kind : ProtocolLineKind) (s : ClientState)
      → (dispatch reader line l kind s).buffer ≡ s.buffer
  unfolding on_version on_step on_failure ask_helper_to_stop
  dispatch-buffer line l version_line s =
      let a = answered-buffer s (announcement_refusal reader english_text l) in ground arith
  dispatch-buffer line l failure_line s = ground arith
  dispatch-buffer line l step_line s = refl
  dispatch-buffer line l detail_line s = refl
  dispatch-buffer line l result_line s = refl
  dispatch-buffer line l unknown_line s = refl

  consume-buffer :
      (lines : List Text) (s : ClientState) → (consume reader lines s).buffer ≡ s.buffer
  unfolding consume consume_line
  consume-buffer [] s = refl
  consume-buffer (line ∷ lines) s =
      consume-buffer lines (consume_line reader line s)
      ∙ (let l = parse_protocol_line reader.qt reader.to_int line in
          let d = dispatch-buffer line l l.kind s in
          elim (Bool-cases (is_empty line)) [ inl e ↦ rw e refl | inr e ↦ rw e d ])

  pub consume-IsRead :
      (xs lines : List Text) (rest : List ℕ) (s : ClientState)
      → IsRead reader xs rest s
      → IsRead reader (xs ++ lines) rest (consume reader lines s)
  consume-IsRead xs lines rest s h = record {
    hears =
        subst (λ a. Hears reader a (consume reader lines s))
          (sym (
            ap announcements (parsed_lines-append xs lines)
            ∙ announcements-append (parsed_lines reader xs) (parsed_lines reader lines)))
          (consume-Hears reader lines (announcements (parsed_lines reader xs)) s h.hears);
    located =
        consume-location reader lines s
        ∙ ap (λ t. last_result t (parsed_lines reader lines)) h.located
        ∙ sym (
            ap (last_result []) (parsed_lines-append xs lines)
            ∙ last_result-append (parsed_lines reader xs) (parsed_lines reader lines) []);
    buffered = consume-buffer lines s ∙ h.buffered;
  }

  pub read_output-IsRead :
      (xs : List Text) (rest output : List ℕ) (s : ClientState)
      → IsRead reader xs rest s
      → let taken = take_complete_lines reader (rest ++ output) in
        IsRead reader (xs ++ taken.0) taken.1 (read_output reader output s)
  unfolding read_output
  read_output-IsRead xs rest output s h =
      let taken = take_complete_lines reader (rest ++ output) in
      rw h.buffered (
        consume-IsRead xs taken.0 taken.1 (record s { buffer = taken.1 })
          (record {
            hears = record {
              saw = h.hears.saw;
              accepted = h.hears.accepted;
              agrees = h.hears.agrees;
            };
            located = h.located;
            buffered = refl;
          }))

-- ===== src/Linux/Client/Heard.antt =====
-- linux/helper_client.cpp, the lambda consume: what the variables say of the lines that were read.
use usb_restoration_tool.Text.{Text, is_empty, is_empty-eq}
use usb_restoration_tool.Language.{english_text, display_text}
use usb_restoration_tool.Protocol.Messages.{
  ProtocolLine, ProtocolLineKind, unknown_line, version_line, step_line, detail_line, failure_line,
  result_line, parse_protocol_line, is_version_line, AnnouncementRefusal,
}
use usb_restoration_tool.Linux.Client.{
  Reader, ClientState, ask_helper_to_stop, announcement_refusal, answered, on_version, on_step,
  on_failure, dispatch, consume_line, consume,
}
use usb_restoration_tool.Prelude.{
  ◌≡◌, refl, sym, ap, ◌∙◌, subst, ◌≢◌, inl, inr, Bool, true, false, not, ◌&&◌, Option, none, some,
  List, [], ◌∷◌, ◌++◌, append-nil, append_assoc, arith, if◌then◌else◌, Bool-cases,
}

-- The lines that are read, parsed; an empty line is passed over.
unfoldable pub parsed_lines : Reader → List Text → List ProtocolLine
unfolding is_empty
parsed_lines reader [] = []
parsed_lines reader (line ∷ lines) =
    let rest = parsed_lines reader lines in
    if is_empty line then rest else parse_protocol_line reader.qt reader.to_int line ∷ rest

unfoldable pub announcements : List ProtocolLine → List ProtocolLine
announcements [] = []
announcements (l ∷ ls) =
    let rest = announcements ls in if is_version_line l.kind then l ∷ rest else rest

abbrev pub is_result_line : ProtocolLineKind → Bool
is_result_line result_line = true
is_result_line unknown_line = false
is_result_line version_line = false
is_result_line step_line = false
is_result_line detail_line = false
is_result_line failure_line = false

-- The text of the last result, or the one before.
unfoldable pub last_result : Text → List ProtocolLine → Text
last_result location [] = location
last_result location (l ∷ ls) = last_result (if is_result_line l.kind then l.text else location) ls

-- The variables tell what was announced so far, and the last result.
pub record Hears (reader : Reader) (heard : List ProtocolLine) (s : ClientState) : Type 0 where
  pub saw : s.saw_version ≡ not (is_empty heard)
  pub accepted :
      s.version_accepted ≡ true
      → (v : ProtocolLine) × (heard ≡ v ∷ []) × (announcement_refusal reader english_text v ≡ none)
  pub agrees :
      (v : ProtocolLine)
      → heard ≡ v ∷ []
      → announcement_refusal reader english_text v ≡ none
      → s.version_accepted ≡ true

module _ (reader : Reader) where
  abbrev parse : Text → ProtocolLine
  parse line = parse_protocol_line reader.qt reader.to_int line

  not_empty : (heard : List ProtocolLine) (l : ProtocolLine) → is_empty (heard ++ l ∷ []) ≡ false
  unfolding is_empty
  not_empty [] l = refl
  not_empty (h ∷ hs) l = refl

  two_ne :
      (heard : List ProtocolLine) (l w : ProtocolLine)
      → is_empty heard ≡ false
      → heard ++ l ∷ [] ≢ w ∷ []
  unfolding is_empty
  two_ne [] l w h e = cc
  two_ne (x ∷ []) l w h e = cc
  two_ne (x ∷ y ∷ rest) l w h e = cc

  stop_keeps :
      (s : ClientState)
      → ((ask_helper_to_stop s).saw_version ≡ s.saw_version)
        × ((ask_helper_to_stop s).version_accepted ≡ s.version_accepted)
        × ((ask_helper_to_stop s).location ≡ s.location)
  unfolding ask_helper_to_stop
  stop_keeps s = ground arith

  answered-Hears :
      (s : ClientState) (v : ProtocolLine) (o : Option AnnouncementRefusal)
      → announcement_refusal reader english_text v ≡ o
      → Hears reader (v ∷ []) (answered reader s o)
  unfolding is_empty
  answered-Hears s v none e = record {
    saw = refl;
    accepted = λ h. (v, refl, e);
    agrees = λ w f g. refl;
  }
  answered-Hears s v (some r) e =
      let k = stop_keeps (record s {
        version_accepted = false;
        saw_version = true;
        version_error = reader.wording english_text r;
        display_version_error = reader.wording display_text r;
      }) in
      record {
        saw = k.0;
        accepted = λ h. cc (k.1, h);
        agrees = λ w f g.
            let same : v ≡ w = ground arith in
            let e' = subst (λ u. announcement_refusal reader english_text u ≡ some r) same e in
            cc (e', g);
      }

  version_step :
      (heard : List ProtocolLine) (v : ProtocolLine) (s : ClientState)
      → Hears reader heard s
      → (seen : Bool) → s.saw_version ≡ seen
      → Hears reader (heard ++ v ∷ []) (
          if seen
          then ask_helper_to_stop (record s { version_accepted = false; saw_version = true })
          else answered reader s (announcement_refusal reader english_text v))
  version_step heard v s h true e =
      let k = stop_keeps (record s { version_accepted = false; saw_version = true }) in
      record {
        saw = k.0 ∙ sym (ap not (not_empty heard v));
        accepted = λ a. cc (k.1, a);
        agrees = λ w f g. absurd (two_ne heard v w (let q = h.saw in ground arith) f);
      }
  version_step heard v s h false e =
      let none_yet : heard ≡ [] = is_empty-eq heard (let k = h.saw in ground arith) in
      rw none_yet (answered-Hears s v (announcement_refusal reader english_text v) refl)

  on_version-Hears :
      (heard : List ProtocolLine) (v : ProtocolLine) (s : ClientState)
      → Hears reader heard s
      → Hears reader (heard ++ v ∷ []) (on_version reader v s)
  unfolding on_version
  on_version-Hears heard v s h = version_step heard v s h s.saw_version refl

  if-Hears :
      (heard : List ProtocolLine) (a b : ClientState)
      → Hears reader heard a
      → Hears reader heard b
      → (c : Bool) → Hears reader heard (if c then a else b)
  if-Hears heard a b h k true = h
  if-Hears heard a b h k false = k

  dispatch-Hears :
      (heard : List ProtocolLine) (line : Text) (l : ProtocolLine) (kind : ProtocolLineKind)
      (s : ClientState)
      → Hears reader heard s
      → Hears reader
          (heard ++ (if is_version_line kind then l ∷ [] else []))
          (dispatch reader line l kind s)
  unfolding on_step on_failure
  dispatch-Hears heard line l version_line s h = on_version-Hears heard l s h
  dispatch-Hears heard line l step_line s h =
      rw (append-nil heard) (record { saw = h.saw; accepted = h.accepted; agrees = h.agrees })
  dispatch-Hears heard line l detail_line s h =
      rw (append-nil heard) (record { saw = h.saw; accepted = h.accepted; agrees = h.agrees })
  dispatch-Hears heard line l failure_line s h = rw (append-nil heard) (
      if-Hears heard (record s { display_failure = l.text }) s
        (record { saw = h.saw; accepted = h.accepted; agrees = h.agrees }) h
        (s.version_accepted && (is_empty s.display_failure && not (is_empty l.text))))
  dispatch-Hears heard line l result_line s h =
      rw (append-nil heard) (record { saw = h.saw; accepted = h.accepted; agrees = h.agrees })
  dispatch-Hears heard line l unknown_line s h =
      rw (append-nil heard) (record { saw = h.saw; accepted = h.accepted; agrees = h.agrees })

  -- What a line adds to the announcements.
  abbrev heard_if : Bool → ProtocolLine → List ProtocolLine
  heard_if empty l = if empty then [] else if is_version_line l.kind then l ∷ [] else []

  abbrev heard_line : Text → List ProtocolLine
  heard_line line = heard_if (is_empty line) (parse line)

  line_step :
      (heard : List ProtocolLine) (line : Text) (s : ClientState)
      → Hears reader heard s
      → (empty : Bool)
      → Hears reader
          (heard ++ heard_if empty (parse line))
          (if empty then s else dispatch reader line (parse line) (parse line).kind s)
  line_step heard line s h true = rw (append-nil heard) h
  line_step heard line s h false = dispatch-Hears heard line (parse line) (parse line).kind s h

  consume_line-Hears :
      (heard : List ProtocolLine) (line : Text) (s : ClientState)
      → Hears reader heard s
      → Hears reader (heard ++ heard_line line) (consume_line reader line s)
  unfolding consume_line
  consume_line-Hears heard line s h = line_step heard line s h (is_empty line)

  heard-cons :
      (line : Text) (lines : List Text)
      → announcements (parsed_lines reader (line ∷ lines))
        ≡ heard_line line ++ announcements (parsed_lines reader lines)
  unfolding announcements parsed_lines
  heard-cons line lines = ground arith

  pub consume-Hears :
      (lines : List Text) (heard : List ProtocolLine) (s : ClientState)
      → Hears reader heard s
      → Hears reader (heard ++ announcements (parsed_lines reader lines)) (consume reader lines s)
  unfolding consume announcements parsed_lines
  consume-Hears [] heard s h = rw (append-nil heard) h
  consume-Hears (line ∷ lines) heard s h =
      let more = announcements (parsed_lines reader lines) in
      subst (λ a. Hears reader a (consume reader lines (consume_line reader line s)))
        (append_assoc heard (heard_line line) more
          ∙ ap (λ a. heard ++ a) (sym (heard-cons line lines)))
        (consume-Hears lines (heard ++ heard_line line) (consume_line reader line s)
          (consume_line-Hears heard line s h))

  answered-location :
      (s : ClientState) (o : Option AnnouncementRefusal)
      → (answered reader s o).location ≡ s.location
  unfolding ask_helper_to_stop
  answered-location s none = refl
  answered-location s (some r) = ground arith

  dispatch-location :
      (line : Text) (l : ProtocolLine) (kind : ProtocolLineKind) (s : ClientState)
      → (dispatch reader line l kind s).location
        ≡ (if is_result_line kind then l.text else s.location)
  unfolding on_version on_step on_failure ask_helper_to_stop
  dispatch-location line l version_line s =
      let a = answered-location s (announcement_refusal reader english_text l) in ground arith
  dispatch-location line l step_line s = refl
  dispatch-location line l detail_line s = refl
  dispatch-location line l failure_line s = ground arith
  dispatch-location line l result_line s = refl
  dispatch-location line l unknown_line s = refl

  -- The location behind a line.
  abbrev located : Text → Text → Text
  located line location =
      if is_empty line
      then location
      else if is_result_line (parse line).kind
      then (parse line).text
      else location

  consume_line-location :
      (line : Text) (s : ClientState)
      → (consume_line reader line s).location ≡ located line s.location
  unfolding consume_line
  consume_line-location line s =
      let d = dispatch-location line (parse line) (parse line).kind s in
      elim (Bool-cases (is_empty line)) [ inl e ↦ rw e refl | inr e ↦ rw e d ]

  last_result-cons :
      (line location : Text) (lines : List Text)
      → last_result location (parsed_lines reader (line ∷ lines))
        ≡ last_result (located line location) (parsed_lines reader lines)
  unfolding parsed_lines last_result
  last_result-cons line location lines = elim (Bool-cases (is_empty line)) [
    | inl e ↦ rw e refl
    | inr e ↦ rw e refl
  ]

  pub consume-location :
      (lines : List Text) (s : ClientState)
      → (consume reader lines s).location ≡ last_result s.location (parsed_lines reader lines)
  unfolding consume
  consume-location [] s = unfold parsed_lines last_result in refl
  consume-location (line ∷ lines) s =
      consume-location lines (consume_line reader line s)
      ∙ ap (λ t. last_result t (parsed_lines reader lines)) (consume_line-location line s)
      ∙ sym (last_result-cons line s.location lines)

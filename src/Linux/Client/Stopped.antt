-- ===== src/Linux/Client/Stopped.antt =====
-- linux/helper_client.cpp: which helpers are asked to stop.
use usb_restoration_tool.Text.{is_empty, ne-is_empty}
use usb_restoration_tool.Language.{english_text}
use usb_restoration_tool.Protocol.Messages.{ProtocolLine, AnnouncementRefusal}
use usb_restoration_tool.Linux.Client.{
  Reader, ClientState, ask_helper_to_stop, announcement_refusal, answered, on_version, on_cancel,
}
use usb_restoration_tool.Linux.Client.Run.{Host, finish_client}
use usb_restoration_tool.Linux.Client.Heard.{parsed_lines, announcements}
use usb_restoration_tool.Linux.Client.Read.{helper_lines}
use usb_restoration_tool.Linux.Client.Finished.{finish_client-HasRead}
use usb_restoration_tool.Linux.Client.Preserved.{
  Flags, flags, IsKept, AllowedIn, finish_client-kept,
}
use usb_restoration_tool.Linux.Client.Counted.{finish_client-IsCounted}
use usb_restoration_tool.Prelude.{
  ◌≤◌, ◌≡◌, refl, ap, ◌∙◌, ◌≢◌, inl, inr, Bool, true, false, not, Option, none, some, List, [], ◌∷◌,
  arith, if◌then◌else◌, Bool-cases,
}

abbrev pub Never : Bool → Type 0
Never requested = requested ≡ false

-- Without a cancellation nothing is killed, and the token goes to a helper that was refused alone.
record IsUnasked (f : Flags) : Type 0 where
  alive : f.killed ≡ false
  refused : f.written ≡ true → (f.saw ≡ true) × (f.accepted ≡ false)

module _ (reader : Reader) where
  answered-IsUnasked :
      (s : ClientState) (o : Option AnnouncementRefusal)
      → IsUnasked (flags s)
      → s.saw_version ≡ false
      → IsUnasked (flags (answered reader s o))
  unfolding ask_helper_to_stop
  answered-IsUnasked s none h new = record {
    alive = h.alive;
    refused = λ w. let r = h.refused w in absurd (ground arith);
  }
  answered-IsUnasked s (some r) h new =
      let a = h.alive in
      record { alive = ground arith; refused = λ w. (ground arith, ground arith) }

  version-IsUnasked :
      (l : ProtocolLine) (s : ClientState)
      → IsUnasked (flags s)
      → (seen : Bool) → s.saw_version ≡ seen
      → IsUnasked (
          flags (
            if seen
            then ask_helper_to_stop (record s { version_accepted = false; saw_version = true })
            else answered reader s (announcement_refusal reader english_text l)))
  unfolding ask_helper_to_stop
  version-IsUnasked l s h true e =
      let a = h.alive in
      record { alive = ground arith; refused = λ w. (ground arith, ground arith) }
  version-IsUnasked l s h false e =
      answered-IsUnasked s (announcement_refusal reader english_text l) h e

  IsUnasked-IsKept : IsKept reader Never IsUnasked
  IsUnasked-IsKept = record {
    announces = λ l s h. unfold on_version in version-IsUnasked l s h s.saw_version refl;
    cancels = λ requested s a h. rw a (unfold on_cancel in h);
  }

  -- The announcements among all lines of the helper.
  abbrev pub heard : Host → List ProtocolLine
  heard host = announcements (parsed_lines reader (helper_lines reader host))

  -- An announcement that is accepted.
  abbrev pub IsAccepted : ProtocolLine → Type 0
  IsAccepted v = announcement_refusal reader english_text v ≡ none

-- How often the cancel token was written to the helper and the process killed, by the announcements
-- that the helper made and by the cancellations that the user wanted.
pub record IsAsked (reader : Reader) (host : Host) : Type 0 where
  pub once : (finish_client reader host).tokens ≤ 1
  pub one_kill : (finish_client reader host).kills ≤ 1
  pub unheard : heard reader host ≡ [] → (finish_client reader host).tokens ≡ 0
  pub refused :
      heard reader host ≢ []
      → ((v : ProtocolLine) → heard reader host ≡ v ∷ [] → ¬ IsAccepted reader v)
      → (finish_client reader host).tokens ≡ 1
  pub spared :
      (v : ProtocolLine)
      → heard reader host ≡ v ∷ []
      → IsAccepted reader v
      → AllowedIn Never host.polls
      → ((finish_client reader host).tokens ≡ 0) × ((finish_client reader host).kills ≡ 0)

module _ (reader : Reader) (host : Host) where
  abbrev last_state : ClientState
  last_state = finish_client reader host

  saw_heard : last_state.saw_version ≡ not (is_empty (heard reader host))
  saw_heard = (finish_client-HasRead reader host).0.saw

  not_accepted :
      ((v : ProtocolLine) → heard reader host ≡ v ∷ [] → ¬ IsAccepted reader v)
      → last_state.version_accepted ≡ false
  not_accepted none_good = elim (Bool-cases last_state.version_accepted) [
    | inl e ↦
        let (v, one, good) = (finish_client-HasRead reader host).0.accepted e in
        absurd (none_good v one good)
    | inr e ↦ e
  ]

  unasked : AllowedIn Never host.polls → IsUnasked (flags last_state)
  unasked a =
      finish_client-kept reader Never IsUnasked (IsUnasked-IsKept reader) host a
        (record { alive = refl; refused = λ w. cc })

  -- Whatever the helper writes and whenever the user cancels, the cancel token is written at most
  -- once and the process is killed at most once. A helper that never announces itself is not written
  -- the token; one that announces itself, but not exactly once with an announcement that is accepted,
  -- is; and one whose only announcement is accepted gets neither the token nor the kill, unless the
  -- user cancels.
  pub finish_client-IsAsked : IsAsked reader host
  finish_client-IsAsked =
      let c = finish_client-IsCounted reader host in
      let saw = saw_heard in
      let once = c.once in
      let one_kill = c.one_kill in
      record {
        once = ground arith;
        one_kill = ground arith;
        unheard = λ e.
            let a = c.announced in
            let n : is_empty (heard reader host) ≡ true =
              ap (λ t. is_empty t) e ∙ (unfold is_empty in refl) in
            ground arith;
        refused = λ ne none_good.
            let n = ne-is_empty (heard reader host) ne in
            let w = c.told (ground arith) (not_accepted none_good) in ground arith;
        spared = λ v one good a.
            let u = unasked a in
            let accepted = (finish_client-HasRead reader host).0.agrees v one good in
            let alive = u.alive in let refused = u.refused in (ground arith, ground arith);
      }

-- ===== src/Linux/Client/Preserved.antt =====
-- linux/helper_client.cpp: what each line, each read and each cancellation keeps, the whole run keeps.
use usb_restoration_tool.Text.{Text, is_empty}
use usb_restoration_tool.Qt.{trimmed}
use usb_restoration_tool.Protocol.Messages.{
  ProtocolLine, ProtocolLineKind, parse_protocol_line, version_line, failure_line, step_line,
  detail_line, result_line, unknown_line,
}
use usb_restoration_tool.Linux.Client.{
  Reader, ClientState, client_start, dispatch, consume_line, consume, read_output,
  take_complete_lines, on_cancel, on_version, on_step, on_failure,
}
use usb_restoration_tool.Linux.Client.Run.{Poll, poll, poll_all, drain, Exit, Host, finish_client}
use usb_restoration_tool.Prelude.{
  ℕ, ◌≡◌, refl, sym, subst, inl, inr, Bool, true, false, not, ◌&&◌, List, [], ◌∷◌, ◌++◌,
  if◌then◌else◌, Bool-cases,
}

-- What tells how the helper was asked to stop.
pub record Flags : Type 0 where
  pub saw : Bool
  pub accepted : Bool
  pub written : Bool
  pub killed : Bool
  pub tokens : ℕ
  pub kills : ℕ

abbrev pub flags : ClientState → Flags
flags s = record {
  saw = s.saw_version;
  accepted = s.version_accepted;
  written = s.cancel_token_written;
  killed = s.kill_requested;
  tokens = s.tokens;
  kills = s.kills;
}

-- A predicate on the flags that an announcement keeps, and a cancellation where it is allowed.
pub record IsKept (reader : Reader) (Allowed : Bool → Type 0) (P : Flags → Type 0) : Type 0 where
  pub announces :
      (l : ProtocolLine) (s : ClientState) → P (flags s) → P (flags (on_version reader l s))
  pub cancels :
      (requested : Bool) (s : ClientState)
      → Allowed requested
      → P (flags s)
      → P (flags (on_cancel requested s))

-- The user asks for a cancellation in allowed passes alone.
abbrev pub AllowedIn : (Bool → Type 0) → List Poll → Type 0
AllowedIn Allowed [] = Unit {0}
AllowedIn Allowed (p ∷ ps) = Allowed p.cancel_requested × AllowedIn Allowed ps

abbrev pub Always : Bool → Type 0
Always requested = Unit {0}

pub Always-AllowedIn : (ps : List Poll) → AllowedIn Always ps
Always-AllowedIn [] = tt
Always-AllowedIn (p ∷ ps) = (tt, Always-AllowedIn ps)

failure-flags : (l : ProtocolLine) (s : ClientState) → flags (on_failure l s) ≡ flags s
unfolding on_failure
failure-flags l s =
    elim (Bool-cases
      (s.version_accepted && (is_empty s.display_failure && not (is_empty l.text)))) [
        | inl e ↦ rw e refl
        | inr e ↦ rw e refl
      ]

module _ (reader : Reader) (Allowed : Bool → Type 0) (P : Flags → Type 0)
    (kept : IsKept reader Allowed P) where
  dispatched :
      (line : Text) (l : ProtocolLine) (kind : ProtocolLineKind) (s : ClientState)
      → P (flags s)
      → P (flags (dispatch reader line l kind s))
  unfolding on_step
  dispatched line l version_line s h = kept.announces l s h
  dispatched line l failure_line s h = subst P (sym (failure-flags l s)) h
  dispatched line l step_line s h = h
  dispatched line l detail_line s h = h
  dispatched line l result_line s h = h
  dispatched line l unknown_line s h = h

  kept_if :
      (s t : ClientState) → P (flags s) → P (flags t) → (c : Bool) → P (flags (if c then s else t))
  kept_if s t h k true = h
  kept_if s t h k false = k

  consume-kept :
      (lines : List Text) (s : ClientState) → P (flags s) → P (flags (consume reader lines s))
  unfolding consume consume_line
  consume-kept [] s h = h
  consume-kept (line ∷ lines) s h =
      let l = parse_protocol_line reader.qt reader.to_int line in
      consume-kept lines (consume_line reader line s) (
        kept_if s (dispatch reader line l l.kind s) h (dispatched line l l.kind s h)
          (is_empty line))

  read_output-kept :
      (output : List ℕ) (s : ClientState) → P (flags s) → P (flags (read_output reader output s))
  unfolding read_output
  read_output-kept output s h =
      let taken = take_complete_lines reader (s.buffer ++ output) in
      consume-kept taken.0 (record s { buffer = taken.1 }) h

  pub poll-kept :
      (p : Poll) (s : ClientState)
      → Allowed p.cancel_requested
      → P (flags s)
      → P (flags (poll reader p s))
  unfolding poll
  poll-kept p s a h =
      kept.cancels p.cancel_requested (read_output reader p.output s) a
        (read_output-kept p.output s h)

  pub poll_all-kept :
      (ps : List Poll) (s : ClientState)
      → AllowedIn Allowed ps
      → P (flags s)
      → P (flags (poll_all reader ps s))
  unfolding poll_all
  poll_all-kept [] s a h = h
  poll_all-kept (p ∷ ps) s (a, more) h = poll_all-kept ps (poll reader p s) more (poll-kept p s a h)

  pub drain-kept : (exit : Exit) (s : ClientState) → P (flags s) → P (flags (drain reader exit s))
  unfolding drain
  drain-kept exit s h =
      let t = read_output reader exit.output s in
      let k = read_output-kept exit.output s h in
      kept_if t (consume reader (trimmed reader.qt (reader.decode t.buffer) ∷ []) t) k
        (consume-kept (trimmed reader.qt (reader.decode t.buffer) ∷ []) t k) (is_empty t.buffer)

  pub finish_client-kept :
      (host : Host)
      → AllowedIn Allowed host.polls
      → P (flags client_start)
      → P (flags (finish_client reader host))
  unfolding finish_client
  finish_client-kept host a h =
      drain-kept host.exit (poll_all reader host.polls client_start)
        (poll_all-kept host.polls client_start a h)

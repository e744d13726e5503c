-- ===== src/Linux/Client/Counted.antt =====
-- linux/helper_client.cpp: how the helper is asked to stop.

use usb_restoration_tool.Language.{english_text}
use usb_restoration_tool.Protocol.Messages.{ProtocolLine, AnnouncementRefusal}
use usb_restoration_tool.Linux.Client.{
  Reader, ClientState, client_start, ask_helper_to_stop, announcement_refusal, answered, on_version,
  on_cancel,
}
use usb_restoration_tool.Linux.Client.Run.{Host, finish_client}
use usb_restoration_tool.Linux.Client.Preserved.{
  Flags, flags, IsKept, Always, Always-AllowedIn, finish_client-kept,
}
use usb_restoration_tool.Prelude.{
  ◌≡◌, refl, Bool, true, false, Option, none, some, arith, if◌then◌else◌,
}

-- What was written and killed is what the variables say, once at most; the token is only written to a
-- helper that announced itself, and to every one whose announcement was not accepted.
pub record IsCounted (f : Flags) : Type 0 where
  pub once : f.tokens ≡ (if f.written then 1 else 0)
  pub one_kill : f.kills ≡ (if f.killed then 1 else 0)
  pub announced : f.written ≡ true → f.saw ≡ true
  pub told : f.saw ≡ true → f.accepted ≡ false → f.written ≡ true

stop-IsCounted :
    (s : ClientState)
    → s.tokens ≡ (if s.cancel_token_written then 1 else 0)
    → s.kills ≡ (if s.kill_requested then 1 else 0)
    → s.saw_version ≡ true
    → IsCounted (flags (ask_helper_to_stop s))
unfolding ask_helper_to_stop
stop-IsCounted s h k v = record {
  once = ground arith;
  one_kill = ground arith;
  announced = λ a. ground arith;
  told = λ a b. ground arith;
}

module _ (reader : Reader) where
  answered-IsCounted :
      (s : ClientState) (o : Option AnnouncementRefusal)
      → IsCounted (flags s)
      → IsCounted (flags (answered reader s o))
  answered-IsCounted s none h = record {
    once = h.once;
    one_kill = h.one_kill;
    announced = λ a. refl;
    told = λ a b. cc;
  }
  answered-IsCounted s (some r) h = stop-IsCounted _ h.once h.one_kill refl

  version-IsCounted :
      (l : ProtocolLine) (s : ClientState)
      → IsCounted (flags s)
      → (seen : Bool)
      → IsCounted (
          flags (
            if seen
            then ask_helper_to_stop (record s { version_accepted = false; saw_version = true })
            else answered reader s (announcement_refusal reader english_text l)))
  version-IsCounted l s h true =
      stop-IsCounted (record s { version_accepted = false; saw_version = true }) h.once h.one_kill
        refl
  version-IsCounted l s h false =
      answered-IsCounted s (announcement_refusal reader english_text l) h

  on_cancel-IsCounted :
      (requested : Bool) (s : ClientState)
      → IsCounted (flags s)
      → IsCounted (flags (on_cancel requested s))
  unfolding on_cancel ask_helper_to_stop
  on_cancel-IsCounted requested s h =
      let a = h.once in
      let b = h.one_kill in
      let c = h.told in
      let d = h.announced in
      record {
        once = ground arith;
        one_kill = ground arith;
        announced = λ e. ground arith;
        told = λ e g. ground arith;
      }

  pub IsCounted-IsKept : IsKept reader Always IsCounted
  IsCounted-IsKept = record {
    announces = λ l s h. unfold on_version in version-IsCounted l s h s.saw_version;
    cancels = λ requested s a h. on_cancel-IsCounted requested s h;
  }

  pub client_start-IsCounted : IsCounted (flags client_start)
  client_start-IsCounted = record {
    once = refl;
    one_kill = refl;
    announced = λ a. cc;
    told = λ a b. cc;
  }

  pub finish_client-IsCounted : (host : Host) → IsCounted (flags (finish_client reader host))
  finish_client-IsCounted host =
      finish_client-kept reader Always IsCounted IsCounted-IsKept host (Always-AllowedIn host.polls)
        client_start-IsCounted

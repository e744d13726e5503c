-- ===== src/Linux/Client/Cancelled.antt =====
-- linux/helper_client.cpp: what a cancellation that the user wants comes to.
use usb_restoration_tool.Text.{is_empty, ne-is_empty}
use usb_restoration_tool.Language.{english_text}
use usb_restoration_tool.Protocol.Messages.{ProtocolLine, AnnouncementRefusal}
use usb_restoration_tool.Linux.Client.{
  Reader, ClientState, client_start, ask_helper_to_stop, announcement_refusal, answered, on_version,
  on_cancel,
}
use usb_restoration_tool.Linux.Client.Run.{Poll, poll, poll_all, drain, Host, finish_client}
use usb_restoration_tool.Linux.Client.Heard.{parsed_lines, announcements}
use usb_restoration_tool.Linux.Client.Read.{poll_lines}
use usb_restoration_tool.Linux.Client.Finished.{poll_all-IsRead, start-IsRead}
use usb_restoration_tool.Linux.Client.Preserved.{
  Flags, flags, IsKept, Always, Always-AllowedIn, poll_all-kept, drain-kept,
}
use usb_restoration_tool.Linux.Client.Counted.{
  IsCounted, IsCounted-IsKept, client_start-IsCounted, finish_client-IsCounted,
}
use usb_restoration_tool.Prelude.{
  ◌≡◌, refl, sym, ap, ◌∙◌, subst, ◌≢◌, true, false, not, Option, none, some, List, [], ◌∷◌, ◌++◌,
  arith,
}

-- Once the token is written, or the process killed, that stays so.
abbrev Written : Flags → Type 0
Written f = f.written ≡ true

abbrev Killed : Flags → Type 0
Killed f = f.killed ≡ true

module _ (reader : Reader) where
  answered-sticks :
      (s : ClientState) (o : Option AnnouncementRefusal)
      → (Written (flags s) → Written (flags (answered reader s o)))
        × (Killed (flags s) → Killed (flags (answered reader s o)))
  unfolding ask_helper_to_stop
  answered-sticks s none = (λ h. h, λ h. h)
  answered-sticks s (some r) = (λ h. ground arith, λ h. ground arith)

  version-sticks :
      (l : ProtocolLine) (s : ClientState)
      → (Written (flags s) → Written (flags (on_version reader l s)))
        × (Killed (flags s) → Killed (flags (on_version reader l s)))
  unfolding on_version ask_helper_to_stop
  version-sticks l s =
      let (w, k) = answered-sticks s (announcement_refusal reader english_text l) in
      (λ h. ground arith, λ h. ground arith)

  Written-IsKept : IsKept reader Always Written
  Written-IsKept = record {
    announces = λ l s. (version-sticks l s).0;
    cancels = λ requested s a h. unfold on_cancel in unfold ask_helper_to_stop in ground arith;
  }

  Killed-IsKept : IsKept reader Always Killed
  Killed-IsKept = record {
    announces = λ l s. (version-sticks l s).1;
    cancels = λ requested s a h. unfold on_cancel in unfold ask_helper_to_stop in ground arith;
  }

  poll_all-append :
      (ps qs : List Poll) (s : ClientState)
      → poll_all reader (ps ++ qs) s ≡ poll_all reader qs (poll_all reader ps s)
  unfolding poll_all
  poll_all-append [] qs s = refl
  poll_all-append (p ∷ ps) qs s = poll_all-append ps qs (poll reader p s)

  -- A cancellation writes the token to a helper that announced itself, and kills the others.
  pass_asks :
      (p : Poll) (s : ClientState)
      → p.cancel_requested ≡ true
      → let u = poll reader p s in
        IsCounted (flags u)
        → (u.saw_version ≡ true → Written (flags u)) × (u.saw_version ≡ false → Killed (flags u))
  unfolding poll on_cancel ask_helper_to_stop
  pass_asks p s wanted c = let told = c.announced in (λ a. ground arith, λ a. ground arith)

  abbrev behind : List Poll → Poll → ClientState
  behind before p = poll reader p (poll_all reader before client_start)

  -- What holds behind a pass and is kept holds at the end.
  kept_to_the_end :
      (P : Flags → Type 0)
      → IsKept reader Always P
      → (host : Host) (before : List Poll) (p : Poll) (after : List Poll)
      → host.polls ≡ before ++ p ∷ after
      → P (flags (behind before p))
      → P (flags (finish_client reader host))
  unfolding finish_client poll_all
  kept_to_the_end P k host before p after e h =
      subst (λ s. P (flags (drain reader host.exit s)))
        (sym (
          ap (λ ps. poll_all reader ps client_start) e
          ∙ poll_all-append before (p ∷ after) client_start))
        (drain-kept reader Always P k host.exit (poll_all reader after (behind before p))
          (poll_all-kept reader Always P k after (behind before p) (Always-AllowedIn after) h))

  behind_lem :
      (before : List Poll) (p : Poll)
      → poll_all reader (before ++ p ∷ []) client_start ≡ behind before p
  unfolding poll_all
  behind_lem before p = poll_all-append before (p ∷ []) client_start

  behind-IsCounted : (before : List Poll) (p : Poll) → IsCounted (flags (behind before p))
  behind-IsCounted before p =
      subst (λ s. IsCounted (flags s)) (behind_lem before p)
        (poll_all-kept reader Always IsCounted (IsCounted-IsKept reader) (before ++ p ∷ [])
          client_start (Always-AllowedIn (before ++ p ∷ [])) (client_start-IsCounted reader))

  -- A cancellation is never lost. Where the user wants one in some pass of the loop, then by the end of
  -- the run the cancel token was written to the helper, once, if an announcement had been read by
  -- that pass, and the process was killed, once, if none had.
  pub finish_client-cancels :
      (host : Host) (before : List Poll) (p : Poll) (after : List Poll)
      → host.polls ≡ before ++ p ∷ after
      → p.cancel_requested ≡ true
      → let so_far =
          announcements (parsed_lines reader (poll_lines reader [] (before ++ p ∷ [])).0) in
        (so_far ≢ [] → (finish_client reader host).tokens ≡ 1)
        × (so_far ≡ [] → (finish_client reader host).kills ≡ 1)
  finish_client-cancels host before p after e wanted =
      let so_far =
        announcements (parsed_lines reader (poll_lines reader [] (before ++ p ∷ [])).0) in
      let saw : (behind before p).saw_version ≡ not (is_empty so_far) =
        ap (λ s. s.saw_version) (sym (behind_lem before p))
        ∙ (poll_all-IsRead reader (before ++ p ∷ []) [] [] client_start
            (start-IsRead reader)).hears.saw in
      let asks =
        pass_asks p (poll_all reader before client_start) wanted (behind-IsCounted before p) in
      let c = finish_client-IsCounted reader host in
      let once = c.once in
      let one_kill = c.one_kill in
      (
        λ ne.
            let n = ne-is_empty so_far ne in
            let w =
              kept_to_the_end Written Written-IsKept host before p after e
                (asks.0 (ground arith)) in
            ground arith,
        λ none_yet.
            let n : is_empty so_far ≡ true =
              ap (λ t. is_empty t) none_yet ∙ (unfold is_empty in refl) in
            let k =
              kept_to_the_end Killed Killed-IsKept host before p after e (asks.1 (ground arith)) in
            ground arith,
      )

-- ===== src/Protocol/Messages/Accepted.antt =====
-- core/restore_protocol.cpp: which helper the application goes on with.
use usb_restoration_tool.Text.{Text, text, is_empty-ne}
use usb_restoration_tool.Qt.{Qt, QtLaws}
use usb_restoration_tool.Language.{TextMode}
use usb_restoration_tool.RestorePlan.{RestoreStep, first_destructive_step_of}
use usb_restoration_tool.Protocol.Decimal.{number}
use usb_restoration_tool.Protocol.Lines.{sanitize_protocol_text}
use usb_restoration_tool.Protocol.Messages.{
  encode_version_line, split_non_empty, parse_version, parse_keyword, parse_protocol_line,
  accept_helper_announcement, restore_protocol_version,
}
use usb_restoration_tool.Protocol.Messages.Sent.{
  ReadsNumbers, Solid, Solid-append, number-Solid, parse_line,
}
use usb_restoration_tool.Protocol.Messages.Announced.{
  plan_text, is_word, announced, plain_announcement, app_announcement,
}
use usb_restoration_tool.Prelude.{
  ℕ, ◌^◌, ◌<◌, ◌≡◌, refl, ◌∙◌, ◌↔◌, inr, Bool, true, false, Option, none, List, [], ◌∷◌, ◌++◌, any,
  arith, if◌then◌else◌, ℤ, length,
}

module _ (qt : Qt) (to_int : Text → Option ℤ) (laws : QtLaws qt) (ints : ReadsNumbers to_int)
    (version : ℕ) (app : Text) (plan : List RestoreStep) (small : version < 2 ^ 31)
    (small' : length plan < 2 ^ 31) (small'' : first_destructive_step_of plan < 2 ^ 31) where
  abbrev sent_plan : Text
  sent_plan = plan_text (length plan) (first_destructive_step_of plan)

  abbrev sent_app : Bool → Text → Text
  sent_app word s = if word then text " app " ++ s else []

  abbrev sent : Text → Text
  sent a = number version ++ (a ++ b' ' ∷ sent_plan)

  sent-Solid : (a : Text) → Solid qt (sent a)
  sent-Solid a = Solid-append qt (number version) (a ++ b' ' ∷ sent_plan) (
      Solid-append qt a (b' ' ∷ sent_plan) (
        Solid-append qt (text " steps ")
          (number (length plan)
            ++ (text " destructive " ++ number (first_destructive_step_of plan)))
          (Solid-append qt (number (length plan))
            (text " destructive " ++ number (first_destructive_step_of plan))
            (Solid-append qt (text " destructive ") (number (first_destructive_step_of plan))
              (number-Solid qt (first_destructive_step_of plan) laws)))))

  sent_line :
      (a : Text)
      → parse_protocol_line qt to_int (text "version " ++ sent a)
        ≡ parse_version to_int (split_non_empty b' ' (sent a))
  unfolding parse_keyword any
  sent_line a =
      parse_line qt to_int b'v' (text "ersio") b'n' (sent a) laws
        (laws.printable b'v' (omega arith) (omega arith))
        (laws.printable b'n' (omega arith) (omega arith)) refl (inr (sent-Solid a))

  read_app :
      (s : Text) (word : Bool)
      → is_word s ≡ word
      → parse_version to_int (split_non_empty b' ' (sent (sent_app word s)))
        ≡ announced version (if word then s else []) (length plan) (first_destructive_step_of plan)
  read_app s true e =
      app_announcement to_int ints version (length plan) (first_destructive_step_of plan) small
        small' small'' s (is_empty-ne s (ground arith)) (ground arith)
  read_app s false e =
      plain_announcement to_int ints version (length plan) (first_destructive_step_of plan) small
        small' small''

  -- The announcement is read with the version, the size of the plan and its first destructive step,
  -- and with the version of the application where that is one word.
  pub parse-encode_version_line :
      let s = sanitize_protocol_text qt app in
      parse_protocol_line qt to_int (encode_version_line qt version app plan)
      ≡ announced version
          (if is_word s then s else [])
          (length plan)
          (first_destructive_step_of plan)
  unfolding encode_version_line
  parse-encode_version_line =
      let s = sanitize_protocol_text qt app in
      sent_line (sent_app (is_word s) s) ∙ read_app s (is_word s) refl

  -- The application goes on with a helper exactly when that speaks its protocol, has as many steps
  -- in its plan, and changes the disk from the same step on; the version of the helper's
  -- application does not matter.
  pub accept-encode_version_line :
      (translated : Bool) (mode : TextMode) (our_version : Text) (our_plan : List RestoreStep)
      → (accept_helper_announcement qt translated mode
            (parse_protocol_line qt to_int (encode_version_line qt version app plan))
            our_version
            our_plan
          ≡ none)
        ↔ ((version ≡ restore_protocol_version)
            × (length plan ≡ length our_plan)
            × (first_destructive_step_of plan ≡ first_destructive_step_of our_plan))
  unfolding accept_helper_announcement
  accept-encode_version_line translated mode our_version our_plan =
      rw parse-encode_version_line (ground arith)

-- ===== src/Protocol/Messages.antt =====
-- core/restore_protocol.cpp, the encode functions, parseProtocolLine() and
-- acceptHelperAnnouncement(): the lines that the helper writes and the application reads. What
-- QString::toInt() reads is a parameter, `none` where it sets `ok` to false.
pub mod Fields
pub mod Trimmed
pub mod Sent
pub mod Steps
pub mod Announced
pub mod Accepted
use usb_restoration_tool.Text.{Text, text, text_eq, is_empty, contains}
use usb_restoration_tool.Qt.{Qt, trimmed}
use usb_restoration_tool.Language.{TextMode}
use usb_restoration_tool.RestorePlan.{RestoreStep, first_destructive_step_of}
use usb_restoration_tool.Protocol.Decimal.{number}
use usb_restoration_tool.Protocol.Lines.{sanitize_protocol_text}
use usb_restoration_tool.Protocol.Verdict.{ExitText, describe_restore_exit, restore_exit_usage}
use usb_restoration_tool.Prelude.{
  ℕ, Bool, true, false, not, ◌&&◌, ◌||◌, Option, none, some, List, [], ◌∷◌, ◌++◌, any, ◌==◌,
  if◌then◌else◌, ℤ, pos, int_eq, length,
}

abbrev pub restore_protocol_version : ℕ
restore_protocol_version = 5

pub data ProtocolLineKind : Type 0 where
  unknown_line version_line step_line detail_line failure_line result_line : ProtocolLineKind

pub record ProtocolLine : Type 0 where
  pub kind : ProtocolLineKind
  pub version : ℤ
  pub app_version : Text
  pub first_destructive_step : ℤ
  pub step : ℤ
  pub total_steps : ℤ
  pub text : Text

abbrev pub no_line : ProtocolLine
no_line = record {
  kind = unknown_line;
  version = pos 0;
  app_version = [];
  first_destructive_step = pos 0;
  step = pos 0;
  total_steps = pos 0;
  text = [];
}

abbrev has_space : Text → Bool
has_space t = any (λ c. c == b' ') t

unfoldable pub encode_version_line : Qt → ℕ → Text → List RestoreStep → Text
unfolding is_empty any
encode_version_line qt version app_version plan =
    let app = sanitize_protocol_text qt app_version in
    text "version "
    ++ (number version
        ++ ((if not (is_empty app) && not (any (λ c. c == b' ') app)
              then text " app " ++ app
              else [])
            ++ (text " steps "
                ++ (number (length plan)
                    ++ (text " destructive " ++ number (first_destructive_step_of plan))))))

unfoldable pub encode_step_line : Qt → ℕ → ℕ → Text → Text
encode_step_line qt step total_steps message =
    text "step "
    ++ (number step ++ (b'/' ∷ (number total_steps ++ (b' ' ∷ sanitize_protocol_text qt message))))

unfoldable pub encode_detail_line : Qt → Text → Text
encode_detail_line qt message = text "detail " ++ sanitize_protocol_text qt message

unfoldable pub encode_failure_line : Qt → Text → Text
encode_failure_line qt message = text "failure " ++ sanitize_protocol_text qt message

unfoldable pub encode_result_line : Qt → Text → Text
encode_result_line qt location = text "result " ++ sanitize_protocol_text qt location

-- What stands in front of the first `c`, or the whole text: indexOf() and left().
unfoldable pub before : ℕ → Text → Text
before c [] = []
before c (x ∷ xs) = if x == c then [] else x ∷ before c xs

-- What stands behind the first `c`, or nothing: indexOf() and mid().
unfoldable pub behind : ℕ → Text → Text
behind c [] = []
behind c (x ∷ xs) = if x == c then xs else behind c xs

abbrev pub grow : ℕ → List Text → List Text
grow x [] = (x ∷ []) ∷ []
grow x (part ∷ parts) = (x ∷ part) ∷ parts

-- QString::split() on a unit.
unfoldable pub split : ℕ → Text → List Text
split c [] = [] ∷ []
split c (x ∷ xs) = let rest = split c xs in if x == c then [] ∷ rest else grow x rest

abbrev pub non_empty : List Text → List Text
non_empty [] = []
non_empty ([] ∷ parts) = non_empty parts
non_empty ((x ∷ part) ∷ parts) = (x ∷ part) ∷ non_empty parts

-- split() with Qt::SkipEmptyParts.
unfoldable pub split_non_empty : ℕ → Text → List Text
unfolding split
split_non_empty c t = non_empty (split c t)

abbrev pub with_steps : ProtocolLine → Option ℤ → Option ProtocolLine
with_steps details none = none
with_steps details (some n) = some (record details { total_steps = n })

abbrev pub with_destructive : ProtocolLine → Option ℤ → Option ProtocolLine
with_destructive details none = none
with_destructive details (some n) = some (record details { first_destructive_step = n })

-- One pass of the loop over the details.
unfoldable pub take_detail : (Text → Option ℤ) → Text → Text → ProtocolLine → Option ProtocolLine
unfolding text_eq
take_detail to_int key value details =
    if text_eq key (text "app")
    then some (record details { app_version = value })
    else if text_eq key (text "steps")
    then with_steps details (to_int value)
    else if text_eq key (text "destructive")
    then with_destructive details (to_int value)
    else none

-- The loop over the fields behind the version; `none` where it returns without the details. A field
-- that is missing is empty.
unfoldable pub take_details :
    (Text → Option ℤ) → List Text → List Text → ProtocolLine → Option ProtocolLine
unfolding take_detail is_empty contains
take_details to_int [] seen details = some details
take_details to_int (key ∷ []) seen details = none
take_details to_int (key ∷ value ∷ rest) seen details = elim (is_empty value || contains seen key) [
  | true ↦ none
  | false ↦ elim (take_detail to_int key value details) [
    | none ↦ none
    | some more ↦ take_details to_int rest (seen ++ key ∷ []) more
  ]
]

abbrev pub or_parsed : ProtocolLine → Option ProtocolLine → ProtocolLine
or_parsed parsed none = parsed
or_parsed parsed (some details) = details

abbrev pub version_read : (Text → Option ℤ) → List Text → Option ℤ → ProtocolLine
version_read to_int rest none = no_line
version_read to_int rest (some n) =
    let parsed = record no_line { kind = version_line; version = n } in
    or_parsed parsed (take_details to_int rest [] parsed)

unfoldable pub parse_version : (Text → Option ℤ) → List Text → ProtocolLine
unfolding take_details
parse_version to_int [] = version_read to_int [] (to_int [])
parse_version to_int (field ∷ rest) = version_read to_int rest (to_int field)

abbrev pub counts_read : Text → Option ℤ → Option ℤ → ProtocolLine
counts_read message none total = no_line
counts_read message (some step) none = no_line
counts_read message (some step) (some total) = record no_line {
  kind = step_line;
  step = step;
  total_steps = total;
  text = message;
}

abbrev pub parse_counts : (Text → Option ℤ) → Text → List Text → ProtocolLine
parse_counts to_int message [] = no_line
parse_counts to_int message (a ∷ []) = no_line
parse_counts to_int message (a ∷ b ∷ []) = counts_read message (to_int a) (to_int b)
parse_counts to_int message (a ∷ b ∷ c ∷ more) = no_line

-- No counts are in front of the first space, or there is no text at all.
unfoldable pub parse_step : (Text → Option ℤ) → Text → ProtocolLine
unfolding is_empty before behind split
parse_step to_int remainder =
    if is_empty (before b' ' remainder)
    then no_line
    else parse_counts to_int (behind b' ' remainder) (split b'/' (before b' ' remainder))

unfoldable pub parse_keyword : (Text → Option ℤ) → Text → Text → ProtocolLine
unfolding text_eq
parse_keyword to_int keyword remainder =
    if text_eq keyword (text "version")
    then parse_version to_int (split_non_empty b' ' remainder)
    else if text_eq keyword (text "step")
    then parse_step to_int remainder
    else if text_eq keyword (text "detail")
    then record no_line { kind = detail_line; text = remainder }
    else if text_eq keyword (text "failure")
    then record no_line { kind = failure_line; text = remainder }
    else if text_eq keyword (text "result")
    then record no_line { kind = result_line; text = remainder }
    else no_line

unfoldable pub parse_protocol_line : Qt → (Text → Option ℤ) → Text → ProtocolLine
unfolding parse_keyword is_empty before behind
parse_protocol_line qt to_int line =
    let t = trimmed qt line in
    if is_empty t then no_line else parse_keyword to_int (before b' ' t) (behind b' ' t)

-- Whom the helper is said to be from.
pub data AnnouncementRefusal : Type 0 where
  no_announcement : ExitText → AnnouncementRefusal
  older_version : AnnouncementRefusal
  different_build other_version : Text → AnnouncementRefusal

abbrev pub is_version_line : ProtocolLineKind → Bool
is_version_line version_line = true
is_version_line unknown_line = false
is_version_line step_line = false
is_version_line detail_line = false
is_version_line failure_line = false
is_version_line result_line = false

unfoldable pub accept_helper_announcement :
    Qt → Bool → TextMode → ProtocolLine → Text → List RestoreStep → Option AnnouncementRefusal
unfolding text_eq is_empty
accept_helper_announcement qt translated mode announcement our_version plan =
    if not (is_version_line announcement.kind)
    then some (no_announcement (describe_restore_exit qt translated restore_exit_usage [] mode))
    else if int_eq announcement.version (pos restore_protocol_version)
        && (int_eq announcement.total_steps (pos (length plan))
            && int_eq announcement.first_destructive_step (pos (first_destructive_step_of plan)))
    then none
    else if is_empty announcement.app_version
    then some older_version
    else if text_eq announcement.app_version our_version
    then some (different_build announcement.app_version)
    else some (other_version announcement.app_version)

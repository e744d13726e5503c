-- ===== src/Language.antt =====
-- core/language.h and core/language.cpp: the language preference and how it is resolved.
use usb_restoration_tool.Text.{Text, text, text_eq}
use usb_restoration_tool.Prelude.{◌≡◌, refl, ◌≢◌, List, [], ◌∷◌, arith, if◌then◌else◌}

pub data TextMode : Type 0 where
  english_text display_text : TextMode

pub data Language : Type 0 where
  system english german : Language

-- What QLocale says of a locale's name.
pub data LocaleLanguage : Type 0 where
  german_locale english_locale other_locale : LocaleLanguage

unfoldable pub language_from_settings : Text → Language
unfolding text_eq
language_from_settings value =
    if text_eq value (text "en")
    then english
    else if text_eq value (text "de")
    then german
    else system

unfoldable pub language_to_settings : Language → Text
language_to_settings english = text "en"
language_to_settings german = text "de"
language_to_settings system = text "system"

-- The loop over the user's languages, for a preference that leaves it to the system.
first_known : (Text → LocaleLanguage) → List Text → Language
first_known locale [] = english
first_known locale (name ∷ names) = elim (locale name) [
  | german_locale ↦ german
  | english_locale ↦ english
  | other_locale ↦ first_known locale names
]

unfoldable pub resolve_language : (Text → LocaleLanguage) → Language → List Text → Language
unfolding first_known
resolve_language locale english names = english
resolve_language locale german names = german
resolve_language locale system names = first_known locale names

-- A saved preference is read back as it was.
pub from-to_settings : (l : Language) → language_from_settings (language_to_settings l) ≡ l
unfolding language_from_settings language_to_settings
from-to_settings system = refl
from-to_settings english = refl
from-to_settings german = refl

-- A resolved language is never the system's, so that it can be named to another process.
pub resolve_language-ne-system :
    (locale : Text → LocaleLanguage) (l : Language) (names : List Text)
    → resolve_language locale l names ≢ system
unfolding resolve_language
resolve_language-ne-system locale english names e = cc
resolve_language-ne-system locale german names e = cc
resolve_language-ne-system locale system [] e = cc
resolve_language-ne-system locale system (n ∷ ns) e =
    ground (arith, resolve_language-ne-system locale system ns)

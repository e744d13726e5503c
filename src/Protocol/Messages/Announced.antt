-- ===== src/Protocol/Messages/Announced.antt =====
-- core/restore_protocol.cpp: the announcement of the helper's version, and who accepts it.
use usb_restoration_tool.Text.{Text, text, text_eq, is_empty, contains, ne-is_empty}
use usb_restoration_tool.Protocol.Decimal.{number}
use usb_restoration_tool.Protocol.Messages.{
  ProtocolLine, no_line, version_line, split_non_empty, take_detail, take_details, parse_version,
  or_parsed,
}
use usb_restoration_tool.Protocol.Messages.Fields.{
  Lacks, split_non_empty-append, split_non_empty-Lacks, number-Lacks, number_ne,
}
use usb_restoration_tool.Protocol.Messages.Sent.{ReadsNumbers}
use usb_restoration_tool.Prelude.{
  ℕ, ◌^◌, ◌<◌, ◌≡◌, refl, ap, ◌∙◌, ◌≢◌, Bool, false, not, ◌&&◌, Option, some, List, [], ◌∷◌, ◌++◌,
  any, arith, ◌==◌, ℤ, pos,
}

-- What the two numbers of a plan are sent as, and read from.
abbrev pub plan_text : ℕ → ℕ → Text
plan_text steps destructive =
    text "steps " ++ (number steps ++ (text " destructive " ++ number destructive))

abbrev plan_fields : ℕ → ℕ → List Text
plan_fields steps destructive =
    text "steps" ∷ number steps ∷ text "destructive" ∷ number destructive ∷ []

word_fields :
    (w r : Text)
    → w ≢ []
    → Lacks b' ' w
    → split_non_empty b' ' (w ++ b' ' ∷ r) ≡ w ∷ split_non_empty b' ' r
word_fields w r = split_non_empty-append b' ' w r

module _ (to_int : Text → Option ℤ) where
  take_pass :
      (key value : Text) (rest seen : List Text) (details more : ProtocolLine)
      → value ≢ []
      → contains seen key ≡ false
      → take_detail to_int key value details ≡ some more
      → take_details to_int (key ∷ value ∷ rest) seen details
        ≡ take_details to_int rest (seen ++ key ∷ []) more
  unfolding take_details
  take_pass key value rest seen details more h k e = let h' = ne-is_empty value h in ground arith

  take_end :
      (seen : List Text) (details : ProtocolLine)
      → take_details to_int [] seen details ≡ some details
  unfolding take_details
  take_end seen details = refl

module _ (steps destructive : ℕ) where
  plan_split : split_non_empty b' ' (plan_text steps destructive) ≡ plan_fields steps destructive
  unfolding any
  plan_split =
      word_fields (text "steps") (number steps ++ (text " destructive " ++ number destructive))
        (λ e. cc) refl
      ∙ ap (λ t. text "steps" ∷ t)
          (word_fields (number steps) (text "destructive " ++ number destructive) (number_ne steps)
              (number-Lacks b' ' steps (omega arith))
            ∙ ap (λ t. number steps ∷ t)
                (word_fields (text "destructive") (number destructive) (λ e. cc) refl
                  ∙ ap (λ t. text "destructive" ∷ t)
                      (split_non_empty-Lacks b' ' (number destructive) (number_ne destructive)
                        (number-Lacks b' ' destructive (omega arith)))))

  module _ (to_int : Text → Option ℤ) (ints : ReadsNumbers to_int) (small : steps < 2 ^ 31)
      (small' : destructive < 2 ^ 31) where
    plan_taken :
        (seen : List Text) (details : ProtocolLine)
        → contains seen (text "steps") ≡ false
        → contains (seen ++ text "steps" ∷ []) (text "destructive") ≡ false
        → take_details to_int (plan_fields steps destructive) seen details
          ≡ some
              (record details { total_steps = pos steps; first_destructive_step = pos destructive })
    unfolding take_detail
    plan_taken seen details h k =
        take_pass to_int (text "steps") (number steps)
          (text "destructive" ∷ number destructive ∷ []) seen details
          (record details { total_steps = pos steps }) (number_ne steps) h
          (rw (ints.reads steps small) refl)
        ∙ take_pass to_int (text "destructive") (number destructive) [] (seen ++ text "steps" ∷ [])
            (record details { total_steps = pos steps })
            (record details { total_steps = pos steps; first_destructive_step = pos destructive })
            (number_ne destructive) k (rw (ints.reads destructive small') refl)
        ∙ take_end to_int (seen ++ text "steps" ∷ [] ++ text "destructive" ∷ [])
            (record details { total_steps = pos steps; first_destructive_step = pos destructive })

-- The version that is sent: one that is a single word.
abbrev pub is_word : Text → Bool
is_word app = not (is_empty app) && not (any (λ c. c == b' ') app)

-- What the helper says of itself.
abbrev pub announced : ℕ → Text → ℕ → ℕ → ProtocolLine
announced version app steps destructive = record no_line {
  kind = version_line;
  version = pos version;
  app_version = app;
  total_steps = pos steps;
  first_destructive_step = pos destructive;
}

module _ (to_int : Text → Option ℤ) (ints : ReadsNumbers to_int) (version steps destructive : ℕ)
    (small : version < 2 ^ 31) (small' : steps < 2 ^ 31) (small'' : destructive < 2 ^ 31) where
  abbrev versioned : ProtocolLine
  versioned = record no_line { kind = version_line; version = pos version }

  version_fields :
      (q : Text) (fields : List Text)
      → split_non_empty b' ' q ≡ fields
      → parse_version to_int (split_non_empty b' ' (number version ++ b' ' ∷ q))
        ≡ or_parsed versioned (take_details to_int fields [] versioned)
  unfolding parse_version
  version_fields q fields e =
      rw
        (word_fields (number version) q (number_ne version)
          (number-Lacks b' ' version (omega arith)))
        (rw (ints.reads version small, e) refl)

  pub plain_announcement :
      parse_version to_int
        (split_non_empty b' ' (number version ++ b' ' ∷ plan_text steps destructive))
      ≡ announced version [] steps destructive
  unfolding contains text_eq
  plain_announcement =
      version_fields (plan_text steps destructive) (plan_fields steps destructive)
        (plan_split steps destructive)
      ∙ ap (or_parsed versioned)
          (plan_taken steps destructive to_int ints small' small'' [] versioned refl refl)

  pub app_announcement :
      (app : Text)
      → app ≢ []
      → Lacks b' ' app
      → parse_version to_int (
          split_non_empty b' '
            (number version ++ b' ' ∷ (text "app " ++ (app ++ b' ' ∷ plan_text steps destructive))))
        ≡ announced version app steps destructive
  unfolding contains text_eq any take_detail
  app_announcement app ne h =
      version_fields (text "app " ++ (app ++ b' ' ∷ plan_text steps destructive))
        (text "app" ∷ app ∷ plan_fields steps destructive)
        (word_fields (text "app") (app ++ b' ' ∷ plan_text steps destructive) (λ e. cc) refl
          ∙ ap (λ t. text "app" ∷ t)
              (word_fields app (plan_text steps destructive) ne h
                ∙ ap (λ t. app ∷ t) (plan_split steps destructive)))
      ∙ ap (or_parsed versioned) (
          take_pass to_int (text "app") app (plan_fields steps destructive) [] versioned
            (record versioned { app_version = app }) ne refl refl
          ∙ plan_taken steps destructive to_int ints small' small'' (text "app" ∷ [])
              (record versioned { app_version = app }) refl refl)

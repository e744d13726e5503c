-- ===== src/Linux/Helper/Reporter.antt =====
-- helper/main.cpp, HelperReporter::cancelRequested(): the cancel token on the standard input.
use usb_restoration_tool.Text.{text, starts_with}
use usb_restoration_tool.Prelude.{
  ℕ, ◌≡◌, refl, sym, ap, ◌∙◌, inl, inr, Bool, true, false, ◌||◌, Option, none, some, List, [], ◌∷◌,
  ◌++◌, append-nil, append_assoc, arith, if◌then◌else◌, Bool-cases,
}

abbrev pub cancel_request_token : List ℕ
cancel_request_token = text "cancel"

-- What the standard input answers to one question: whether it is a terminal, and what `poll` and
-- `read` give, `none` where there is nothing to read or the caller is gone.
pub record Stdin : Type 0 where
  pub is_terminal : Bool
  pub received : Option (List ℕ)

pub record Reporter : Type 0 where
  pub request : List ℕ
  pub cancelled : Bool

abbrev pub new_reporter : Reporter
new_reporter = record { request = []; cancelled = false }

-- QByteArray::contains().
unfoldable pub holds : List ℕ → List ℕ → Bool
unfolding starts_with
holds token [] = starts_with [] token
holds token (x ∷ xs) = starts_with (x ∷ xs) token || holds token xs

abbrev pub received_more : Reporter → Option (List ℕ) → Reporter
received_more r none = r
received_more r (some bytes) = record {
  request = r.request ++ bytes;
  cancelled = holds cancel_request_token (r.request ++ bytes);
}

-- The reporter behind the question; its field `cancelled` is the answer.
unfoldable pub cancel_requested : Stdin → Reporter → Reporter
unfolding holds
cancel_requested stdin r =
    if r.cancelled then r else if stdin.is_terminal then r else received_more r stdin.received

unfoldable pub ask_all : List Stdin → Reporter → Reporter
unfolding cancel_requested
ask_all [] r = r
ask_all (stdin ∷ rest) r = ask_all rest (cancel_requested stdin r)

abbrev with_bytes : Option (List ℕ) → List ℕ → List ℕ
with_bytes none more = more
with_bytes (some bytes) more = bytes ++ more

-- All bytes that were there to be read, from an input that is no terminal.
unfoldable pub bytes_of : List Stdin → List ℕ
bytes_of [] = []
bytes_of (stdin ∷ rest) =
    let more = bytes_of rest in if stdin.is_terminal then more else with_bytes stdin.received more

still_starts_with : (xs ys t : List ℕ) → starts_with xs t ≡ true → starts_with (xs ++ ys) t ≡ true
unfolding starts_with
still_starts_with xs ys [] h = refl
still_starts_with [] ys (p ∷ ps) h = cc
still_starts_with (x ∷ xs) ys (p ∷ ps) h =
    let rest = still_starts_with xs ys ps (ground arith) in ground arith

holds_nothing : (xs : List ℕ) → holds [] xs ≡ true
unfolding holds starts_with
holds_nothing [] = refl
holds_nothing (x ∷ xs) = refl

still_holds : (token xs ys : List ℕ) → holds token xs ≡ true → holds token (xs ++ ys) ≡ true
unfolding holds starts_with
still_holds [] xs ys h = holds_nothing (xs ++ ys)
still_holds (p ∷ ps) [] ys h = cc
still_holds (p ∷ ps) (x ∷ xs) ys h = elim (Bool-cases (starts_with (x ∷ xs) (p ∷ ps))) [
  | inl e ↦ let a = still_starts_with (x ∷ xs) ys (p ∷ ps) e in ground arith
  | inr e ↦ let a = still_holds (p ∷ ps) xs ys (ground arith) in ground arith
]

stays : (stdins : List Stdin) (r : Reporter) → r.cancelled ≡ true → ask_all stdins r ≡ r
unfolding ask_all cancel_requested
stays [] r h = refl
stays (stdin ∷ rest) r h = ap (λ t. ask_all rest t) (ground arith) ∙ stays rest r h

abbrev Answers : List Stdin → Reporter → Type 0
Answers stdins r =
    r.cancelled ≡ holds cancel_request_token r.request
    → (ask_all stdins r).cancelled ≡ holds cancel_request_token (r.request ++ bytes_of stdins)

asked_once :
    (rest : List Stdin)
    → ((r : Reporter) → Answers rest r)
    → (terminal : Bool) (received : Option (List ℕ)) (r : Reporter)
    → r.cancelled ≡ holds cancel_request_token r.request
    → (ask_all rest (if terminal then r else received_more r received)).cancelled
      ≡ holds cancel_request_token
          (r.request ++ (if terminal then bytes_of rest else with_bytes received (bytes_of rest)))
asked_once rest answers true received r h = answers r h
asked_once rest answers false none r h = answers r h
asked_once rest answers false (some bytes) r h =
    answers (received_more r (some bytes)) refl
    ∙ ap (holds cancel_request_token) (append_assoc r.request bytes (bytes_of rest))

asked : (stdins : List Stdin) (r : Reporter) → Answers stdins r
unfolding ask_all bytes_of
asked [] r h = h ∙ ap (holds cancel_request_token) (sym (append-nil r.request))
asked (stdin ∷ rest) r h = elim (Bool-cases r.cancelled) [
  | inl e ↦
      ap (λ t. t.cancelled) (stays (stdin ∷ rest) r e)
      ∙ e
      ∙ sym (still_holds cancel_request_token r.request (bytes_of (stdin ∷ rest)) (sym h ∙ e))
  | inr e ↦
      ap (λ t. (ask_all rest t).cancelled) (unfold cancel_requested in ground arith)
      ∙ asked_once rest (asked rest) stdin.is_terminal stdin.received r h
]

-- However the bytes of the application are cut into reads, and whatever stands around it, the helper
-- takes the cancel token for what it is: after some questions it is cancelled exactly when the token
-- stands in what there was to be read so far, put together.
pub ask_all-holds :
    (stdins : List Stdin)
    → (ask_all stdins new_reporter).cancelled ≡ holds cancel_request_token (bytes_of stdins)
ask_all-holds stdins = asked stdins new_reporter (unfold holds in refl)

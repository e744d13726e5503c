-- ===== src/RestorePlan/Counter.antt =====
-- core/restore_message.cpp, RestoreStepCounter: which step() calls get a number.
use native.Mathlib.Numerals.{add-one}
use usb_restoration_tool.RestorePlan.{
  RestoreStep, RestoreStepCounter, counter, advance, same_step, RestoreStep-discrete,
}
use usb_restoration_tool.Prelude.{
  ℕ, zero, suc, ◌+◌, ◌≡◌, refl, sym, ap, ◌∙◌, subst, ◌≢◌, ◌↔◌, inl, inr, true, Option, none, some,
  List, [], ◌∷◌, ◌++◌, arith, Bool-cases, get_elem?, drop,
}

-- Whether every call in a row gets its number: the counter's position and one.
abbrev pub AllCounted : RestoreStepCounter → List RestoreStep → Type 0
AllCounted c [] = Unit {0}
AllCounted c (s ∷ steps) = ((advance c s).1 ≡ c.done + 1) × AllCounted (advance c s).0 steps

same_step-eq : (o : Option RestoreStep) (s : RestoreStep) → same_step o s ≡ true → o ≡ some s
unfolding same_step
same_step-eq none s h = cc
same_step-eq (some p) s h = elim (RestoreStep-discrete p s) [
  | yes e ↦ ap some e
  | no n ↦ ground arith
]

same_step_refl : (s : RestoreStep) → same_step (some s) s ≡ true
unfolding same_step
same_step_refl s = elim (RestoreStep-discrete s s) [ yes e ↦ ground arith | no n ↦ absurd (n refl) ]

pub advance-next :
    (c : RestoreStepCounter) (s : RestoreStep)
    → get_elem? c.plan c.done ≡ some s
    → advance c s ≡ (record c { done = c.done + 1 }, c.done + 1)
unfolding advance
advance-next c s e = rw e (rw (same_step_refl s))

advance-other :
    (c : RestoreStepCounter) (s : RestoreStep)
    → get_elem? c.plan c.done ≢ some s
    → advance c s ≡ (c, 0)
unfolding advance
advance-other c s h = elim (Bool-cases (same_step (get_elem? c.plan c.done) s)) [
  | inl t ↦ absurd (h (same_step-eq (get_elem? c.plan c.done) s t))
  | inr f ↦ rw f
]

drop-get_elem? :
    (n : ℕ) (xs : List RestoreStep) (s : RestoreStep)
    → get_elem? xs n ≡ some s
    → drop n xs ≡ s ∷ drop (suc n) xs
drop-get_elem? n [] s e = cc
drop-get_elem? zero (x ∷ xs) s e = cc
drop-get_elem? (suc n) (x ∷ xs) s e = drop-get_elem? n xs s e

get_elem?-drop :
    (n : ℕ) (xs : List RestoreStep) (s : RestoreStep) (rest : List RestoreStep)
    → drop n xs ≡ s ∷ rest
    → (get_elem? xs n ≡ some s) × (drop (suc n) xs ≡ rest)
get_elem?-drop zero [] s rest e = cc
get_elem?-drop (suc n) [] s rest e = cc
get_elem?-drop zero (x ∷ xs) s rest e = (cc, cc)
get_elem?-drop (suc n) (x ∷ xs) s rest e = get_elem?-drop n xs s rest e

drop_step : (n : ℕ) (xs : List RestoreStep) → drop (suc n) xs ≡ drop (n + 1) xs
drop_step n xs = ap (λ k. drop k xs) (sym (add-one n))

counted-prefix :
    (steps plan : List RestoreStep) (n : ℕ)
    → AllCounted (record { plan = plan; done = n }) steps
    → (rest : List RestoreStep) × (drop n plan ≡ steps ++ rest)
counted-prefix [] plan n h = (drop n plan, refl)
counted-prefix (s ∷ steps) plan n h =
    let c : RestoreStepCounter = record { plan = plan; done = n } in
    elim (Bool-cases (same_step (get_elem? plan n) s)) [
      | inl t ↦
          let e = same_step-eq (get_elem? plan n) s t in
          let moved = ap (λ (p : RestoreStepCounter × ℕ). p.0) (advance-next c s e) in
          let (rest, d) =
            counted-prefix steps plan (n + 1) (subst (λ x. AllCounted x steps) moved h.1) in
          (rest, drop-get_elem? n plan s e ∙ ap (◌∷◌ s) (drop_step n plan ∙ d))
      | inr f ↦
          let stuck =
            advance-other c s (λ e. cc (f, ap (λ o. same_step o s) e, same_step_refl s)) in
          absurd (omega (arith, h.0, ap (λ (p : RestoreStepCounter × ℕ). p.1) stuck))
    ]

prefix-counted :
    (steps plan rest : List RestoreStep) (n : ℕ)
    → drop n plan ≡ steps ++ rest
    → AllCounted (record { plan = plan; done = n }) steps
prefix-counted [] plan rest n e = tt
prefix-counted (s ∷ steps) plan rest n e =
    let c : RestoreStepCounter = record { plan = plan; done = n } in
    let (here, after) = get_elem?-drop n plan s (steps ++ rest) e in
    let moved = advance-next c s here in
    (
      ap (λ (p : RestoreStepCounter × ℕ). p.1) moved,
      subst (λ x. AllCounted x steps) (sym (ap (λ (p : RestoreStepCounter × ℕ). p.0) moved))
          (prefix-counted steps plan rest (n + 1) (sym (drop_step n plan) ∙ after)),
    )

-- A backend's step() calls all get their numbers, counted from 1, exactly when they are the
-- beginning of its plan.
pub AllCounted-iff :
    (plan steps : List RestoreStep)
    → AllCounted (counter plan) steps ↔ ((rest : List RestoreStep) × (plan ≡ steps ++ rest))
AllCounted-iff plan steps = (counted-prefix steps plan 0, λ h. prefix-counted steps plan h.0 0 h.1)

-- ===== src/Voice/Ivr/Dialogue.antt =====
-- How a menu of callstack/voice/ivr.py is gone through.
use callstack.Prelude.{
  ℕ, zero, suc, ◌+◌, ◌≤◌, ◌≡◌, ◌≢◌, refl, sym, subst, ap, ◌∙◌, Bool, true, false, List, [], ◌∷◌,
  ◌++◌, Option, none, some, Text, text_eq, text_eq_sound, text_eq_refl, ◌==◌, arith, All,
  Bool-cases, Option-cases, inl, inr,
}
use callstack.Voice.Ivr.{
  MenuOption, IvrMenu, store_option, is_valid_digit, option, find_option, Visit, Event, collected,
  called, played, Prompts, play, either, feedback, run_from, run,
}

abbrev pub handlers_of : List Event → List ℕ
handlers_of [] = []
handlers_of (called h ∷ events) = h ∷ handlers_of events
handlers_of (collected s ∷ events) = handlers_of events
handlers_of (played s ∷ events) = handlers_of events

abbrev pub prompts_of : List Event → ℕ
prompts_of [] = 0
prompts_of (called h ∷ events) = prompts_of events
prompts_of (collected s ∷ events) = suc (prompts_of events)
prompts_of (played s ∷ events) = prompts_of events

-- The option with this digit: it stands among the options, and none before it has the digit.
abbrev pub HasOption : IvrMenu → Text → MenuOption → Type 0
HasOption m d o =
    (before : List MenuOption) × (after : List MenuOption) × (m.options ≡ before ++ o ∷ after)
    × (o.digit ≡ d)
    × All (λ p. p.digit ≢ d) before

-- These are the handlers to call for the selection.
abbrev pub Calls : IvrMenu → Option Text → List ℕ → Type 0
Calls m none handlers = handlers ≡ []
Calls m (some d) handlers = (o : MenuOption) × HasOption m d o × (handlers ≡ o.handler ∷ [])

found :
    (m : IvrMenu) (d : Text) (options : List MenuOption) (o : MenuOption)
    → find_option d options ≡ some o
    → HasOption (record m { options = options }) d o
unfolding find_option
found m d [] o e = absurd (ground arith)
found m d (p ∷ options) o e = elim (Bool-cases (text_eq p.digit d)) [
  | inl q ↦
      let same : p ≡ o = ground arith in
      (
        [],
        options,
        ap (λ x. x ∷ options) same,
        ap (λ x. x.digit) (sym same) ∙ text_eq_sound p.digit d q,
        tt,
      )
  | inr q ↦
      let (before, after, split, digit, others) = found m d options o (ground arith) in
      (
        p ∷ before,
        after,
        ap (λ x. p ∷ x) split,
        digit,
        (
          (λ same.
              absurd (cc (q, subst (λ x. text_eq p.digit x ≡ true) same (text_eq_refl p.digit)))),
          others,
        ),
      )
]

-- The selection is a digit.
abbrev pub IsDigit : Option Text → Type 0
IsDigit none = Unit
IsDigit (some d) = is_valid_digit d ≡ true

-- What the options hold, and every registration keeps: valid digits.
abbrev pub IsMenu : IvrMenu → Type 0
IsMenu m = All (λ o. is_valid_digit o.digit ≡ true) m.options

store_option-IsMenu :
    (o : MenuOption) (options : List MenuOption)
    → is_valid_digit o.digit ≡ true
    → All (λ p. is_valid_digit p.digit ≡ true) options
    → All (λ p. is_valid_digit p.digit ≡ true) (store_option o options)
unfolding store_option
store_option-IsMenu o [] v h = (v, tt)
store_option-IsMenu o (p ∷ options) v h = elim (Bool-cases (text_eq p.digit o.digit)) [
  | inl e ↦ rw e (v, h.1)
  | inr e ↦ rw e (h.0, store_option-IsMenu o options v h.1)
]

pub option-IsMenu : (m n : IvrMenu) (o : MenuOption) → IsMenu m → option m o ≡ some n → IsMenu n
unfolding option
option-IsMenu m n o h e = elim (Bool-cases (is_valid_digit o.digit)) [
  | inl v ↦
      let q : record m { options = store_option o m.options } ≡ n = ground arith in
      subst IsMenu q (store_option-IsMenu o m.options v h)
  | inr v ↦ absurd (ground arith)
]

find_option-valid :
    (d : Text) (options : List MenuOption) (o : MenuOption)
    → All (λ p. is_valid_digit p.digit ≡ true) options
    → find_option d options ≡ some o
    → is_valid_digit d ≡ true
unfolding find_option
find_option-valid d [] o h e = absurd (ground arith)
find_option-valid d (p ∷ options) o h e = elim (Bool-cases (text_eq p.digit d)) [
  | inl q ↦ subst (λ x. is_valid_digit x ≡ true) (text_eq_sound p.digit d q) h.0
  | inr q ↦ find_option-valid d options o h.1 (ground arith)
]

handlers_of-append :
    (xs ys : List Event) → handlers_of (xs ++ ys) ≡ handlers_of xs ++ handlers_of ys
handlers_of-append [] ys = refl
handlers_of-append (called h ∷ xs) ys = ap (λ hs. h ∷ hs) (handlers_of-append xs ys)
handlers_of-append (collected s ∷ xs) ys = handlers_of-append xs ys
handlers_of-append (played s ∷ xs) ys = handlers_of-append xs ys

prompts_of-append : (xs ys : List Event) → prompts_of (xs ++ ys) ≡ prompts_of xs + prompts_of ys
prompts_of-append [] ys = omega arith
prompts_of-append (called h ∷ xs) ys = prompts_of-append xs ys
prompts_of-append (collected s ∷ xs) ys = omega (arith, prompts_of-append xs ys)
prompts_of-append (played s ∷ xs) ys = prompts_of-append xs ys

play_silent : (s : Text) → (handlers_of (play s) ≡ []) × (prompts_of (play s) ≡ 0)
play_silent [] = (refl, refl)
play_silent (c ∷ s) = (refl, refl)

feedback_silent :
    (p : Prompts) (b : Bool) (s : Text)
    → (handlers_of (feedback p b s) ≡ []) × (prompts_of (feedback p b s) ≡ 0)
unfolding feedback
feedback_silent p true s = (refl, refl)
feedback_silent p false [] = play_silent (either p.timeout_prompt p.invalid_prompt)
feedback_silent p false (c ∷ s) = play_silent p.invalid_prompt

-- One dialogue: no more prompts than attempts; the handlers that are called are that of the selection,
-- once, or none; and a selection is a digit.
pub record IsDialogue (m : IvrMenu) (attempts : ℕ) (r : List Event × Option Text) : Type 0 where
  pub prompts : prompts_of r.0 ≤ attempts
  pub handlers : Calls m r.1 (handlers_of r.0)
  pub digit : IsDigit r.1

run_from-IsDialogue :
    (m : IvrMenu) (p : Prompts) (left attempt : ℕ) (visit : ℕ → Visit)
    → IsMenu m
    → IsDialogue m left (run_from m p left attempt visit)
unfolding run_from
run_from-IsDialogue m p zero attempt visit h = elim (Bool-cases (visit attempt).active) [
  | inl e ↦
      let (a, b) = play_silent p.goodbye_prompt in
      rw e (record { prompts = omega (arith, b); handlers = a; digit = tt })
  | inr e ↦ rw e (record { prompts = omega arith; handlers = refl; digit = tt })
]
run_from-IsDialogue m p (suc left) attempt visit h = elim (Bool-cases (visit attempt).active) [
  | inr e ↦ rw e (record { prompts = omega arith; handlers = refl; digit = tt })
  | inl e ↦ elim (Option-cases (find_option (visit attempt).choice m.options)) [
    | inr (o, f) ↦ rw e (
        rw f (record {
          prompts = omega arith;
          handlers = (o, found m (visit attempt).choice m.options o f, refl);
          digit = find_option-valid (visit attempt).choice m.options o h f;
        }))
    | inl f ↦
        let rest = run_from-IsDialogue m p left (suc attempt) visit h in
        let r = run_from m p left (suc attempt) visit in
        let fb = feedback p (left == 0) (visit attempt).choice in
        let (a, b) = feedback_silent p (left == 0) (visit attempt).choice in
        let hs : handlers_of (fb ++ r.0) ≡ handlers_of r.0 =
          handlers_of-append fb r.0 ∙ ap (λ hs. hs ++ handlers_of r.0) a in
        let ps : prompts_of (fb ++ r.0) ≤ left =
          omega (arith, prompts_of-append fb r.0, b, rest.prompts) in
        rw e (
          rw f (record {
            prompts = omega (arith, ps);
            handlers = subst (Calls m r.1) (sym hs) rest.handlers;
            digit = rest.digit;
          }))
  ]
]

-- Whatever the caller does, a menu whose options are valid digits prompts at most as often as it may,
-- calls the handler that the options hold for the digit that it returns, once, and no other, and none
-- where it returns nothing; and what it returns is a digit or nothing.
pub run-IsDialogue :
    (m : IvrMenu) (p : Prompts) (retries : ℕ) (visit : ℕ → Visit)
    → IsMenu m
    → IsDialogue m retries (run m p retries visit)
unfolding run
run-IsDialogue m p retries visit h = run_from-IsDialogue m p retries 0 visit h

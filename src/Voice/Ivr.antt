-- ===== src/Voice/Ivr.antt =====
-- callstack/voice/ivr.py: `IVRMenu` and `IVRFlow`. A handler is a number, its call is kept in a trace
-- with the prompts that are played. A visit is what an attempt meets: whether the session is active, and
-- what is collected during the prompt, nothing being the empty text.
pub mod Dialogue
use callstack.Prelude.{
  ℕ, zero, suc, ◌+◌, Bool, true, false, not, ◌&&◌, List, [], ◌∷◌, ◌++◌, Option, none, some, Text,
  text_eq, ◌==◌, if◌then◌else◌,
}
use callstack.Protocol.Commands.{is_empty, is_dtmf}

pub record MenuOption : Type 0 where
  pub digit : Text
  pub description : Text
  pub handler : ℕ

-- `IVRMenu`: the options by their digits, in the order of insertion.
pub record IvrMenu : Type 0 where
  pub prompt : Text
  pub options : List MenuOption

unfoldable pub store_option : MenuOption → List MenuOption → List MenuOption
store_option o [] = o ∷ []
store_option o (p ∷ options) =
    let rest = store_option o options in if text_eq p.digit o.digit then o ∷ options else p ∷ rest

-- `digit in _VALID_DTMF`
unfoldable pub is_valid_digit : Text → Bool
is_valid_digit [] = false
is_valid_digit (c ∷ s) = is_empty s && is_dtmf c

-- Or a `ValueError`.
unfoldable pub option : IvrMenu → MenuOption → Option IvrMenu
option m o =
    if is_valid_digit o.digit then some (record m { options = store_option o m.options }) else none

unfoldable pub find_option : Text → List MenuOption → Option MenuOption
find_option choice [] = none
find_option choice (o ∷ options) =
    let rest = find_option choice options in if text_eq o.digit choice then some o else rest

pub record Visit : Type 0 where
  pub active : Bool
  pub choice : Text

pub data Event : Type 0 where
  collected : Text → Event
  called : ℕ → Event
  played : Text → Event

-- The prompts of `run`; the empty path is no prompt.
pub record Prompts : Type 0 where
  pub invalid_prompt : Text
  pub timeout_prompt : Text
  pub goodbye_prompt : Text

abbrev pub play : Text → List Event
play [] = []
play (c ∷ s) = played (c ∷ s) ∷ []

abbrev pub either : Text → Text → Text
either [] other = other
either (c ∷ s) other = c ∷ s

-- What follows a choice that is no option, unless it was the last attempt.
unfoldable pub feedback : Prompts → Bool → Text → List Event
feedback p is_last choice =
    if is_last
    then []
    else if is_empty choice
    then play (either p.timeout_prompt p.invalid_prompt)
    else play p.invalid_prompt

-- The attempts that are left, from one on, and the farewell.
unfoldable pub run_from : IvrMenu → Prompts → ℕ → ℕ → (ℕ → Visit) → List Event × Option Text
run_from m p zero attempt visit =
    (if (visit attempt).active then play p.goodbye_prompt else [], none)
run_from m p (suc left) attempt visit =
    let v = visit attempt in
    let rest = run_from m p left (suc attempt) visit in
    if not v.active then ([], none) else elim (find_option v.choice m.options) [
      | some o ↦ (collected m.prompt ∷ called o.handler ∷ [], some v.choice)
      | none ↦ (collected m.prompt ∷ (feedback p (left == 0) v.choice ++ rest.0), rest.1)
    ]

unfoldable pub run : IvrMenu → Prompts → ℕ → (ℕ → Visit) → List Event × Option Text
run m p retries visit = run_from m p retries 0 visit

-- `IVRFlow`
unfoldable pub add : List (Text × IvrMenu) → Text → IvrMenu → List (Text × IvrMenu)
add [] name menu = (name, menu) ∷ []
add ((k, m) ∷ menus) name menu =
    let rest = add menus name menu in if text_eq k name then (k, menu) ∷ menus else (k, m) ∷ rest

-- Or a `KeyError`.
unfoldable pub goto :
    List (Text × IvrMenu) → Text → Prompts → ℕ → (ℕ → Visit) → Option (List Event × Option Text)
goto [] name p retries visit = none
goto ((k, m) ∷ menus) name p retries visit =
    let rest = goto menus name p retries visit in
    if text_eq k name then some (run m p retries visit) else rest

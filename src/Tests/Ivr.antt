-- ===== src/Tests/Ivr.antt =====
-- A menu gone through (callstack/voice/ivr.py).
use callstack.Prelude.{text_eq, ℕ, ◌≡◌, refl, true, [], ◌∷◌, some, codes, ◌==◌, if◌then◌else◌}
use callstack.Voice.Ivr.{
  feedback, find_option, is_valid_digit, run_from, IvrMenu, Visit, Prompts, collected, called,
  played, run,
}
use callstack.Voice.Ivr.Dialogue.{IsDialogue, run-IsDialogue}

abbrev reception : IvrMenu
reception = record {
  prompt = codes "hello.wav";
  options =
      record { digit = codes "1"; description = codes "Sales"; handler = 11 }
      ∷ record { digit = codes "#"; description = codes "Help"; handler = 12 }
      ∷ [];
}

abbrev prompts : Prompts
prompts = record {
  invalid_prompt = codes "again.wav";
  timeout_prompt = [];
  goodbye_prompt = codes "bye.wav";
}

-- Nothing, then a digit that is no option, then one that is.
abbrev hesitant : ℕ → Visit
hesitant i = record {
  active = true;
  choice = if i == 0 then [] else if i == 1 then codes "7" else codes "#";
}

run-IsDialogue_example : IsDialogue reception 3 (run reception prompts 3 hesitant)
unfolding is_valid_digit
run-IsDialogue_example = run-IsDialogue reception prompts 3 hesitant (refl, (refl, tt))

hesitant_trace : run reception prompts 3 hesitant ≡ (
  collected (codes "hello.wav")
      ∷ played (codes "again.wav")
      ∷ collected (codes "hello.wav")
      ∷ played (codes "again.wav")
      ∷ collected (codes "hello.wav")
      ∷ called 12
      ∷ [],
  some (codes "#"),
)
unfolding run run_from find_option text_eq feedback
hesitant_trace = refl

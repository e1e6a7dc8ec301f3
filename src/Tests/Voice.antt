-- ===== src/Tests/Voice.antt =====
-- A call, as its listeners hear of it (callstack/voice/state.py), and the digits that are collected in it
-- (callstack/voice/dtmf.py).
use callstack.Prelude.{Bool, true, false, ◌≡◌, refl, List, [], ◌∷◌, ◌++◌, none, some, codes}
use callstack.Voice.Dtmf.{Round, DtmfCollector}
use callstack.Voice.State.{
  CallState, Listener, CallStateMachine, transition, enter, notify, allowed,
}
use callstack.Voice.State.Runs.{
  Request, to, force_idle, after, serve, serve_all, all_beside, recorder,
}

abbrev raising : CallState → CallState → Bool → Bool × Bool
raising old new w = (true, true)

abbrev a_call : List Request
a_call =
    to CallState.ringing
    ∷ to CallState.held
    ∷ to CallState.active
    ∷ force_idle
    ∷ to CallState.idle
    ∷ []

abbrev heard : CallStateMachine (Bool × List (CallState × CallState))
heard =
    serve_all
      (record {
        state = CallState.idle;
        listeners = all_beside (raising ∷ []) ++ recorder (λ w. w) ∷ all_beside (raising ∷ []);
        world = (false, []);
      })
      a_call

abbrev log_only : List (Listener (Bool × List (CallState × CallState)))
log_only = recorder (λ w. false) ∷ []

-- A listener that ends the call as soon as it rings, and what the listener behind it hears then.
abbrev hangs_up : Listener (Bool × List (CallState × CallState))
hangs_up CallState.idle CallState.ringing (s, w) =
    let m = serve (record { state = s; listeners = log_only; world = w }) (to CallState.ended) in
    ((m.state, m.world), false)
hangs_up old new x = (x, false)

abbrev cut_short : CallStateMachine (Bool × List (CallState × CallState))
cut_short =
    serve (record { state = CallState.idle; listeners = hangs_up ∷ log_only; world = (false, []) })
      (to CallState.ringing)

cut_short_heard :
    (cut_short.state ≡ CallState.ended)
    × (cut_short.world.1
        ≡ (CallState.ringing, CallState.ended) ∷ (CallState.idle, CallState.ringing) ∷ [])
unfolding serve after transition enter notify allowed
cut_short_heard = (refl, refl)

abbrev collector : DtmfCollector
collector = record {
  max_digits = 10;
  timeout = 10;
  terminator = codes "#";
  inter_digit_timeout = none;
}

abbrev pressed_keys : List Round
pressed_keys =
    record { now = 100; event = some (codes "4"); after = 101 }
    ∷ record { now = 101; event = some (codes "2"); after = 104 }
    ∷ record { now = 104; event = some (codes "#"); after = 105 }
    ∷ []

-- ===== src/Voice/State/Runs.antt =====
-- Runs of the call state machine, and what its listeners are told.
use callstack.Prelude.{Bool, true, false, ◌≡◌, List, [], ◌∷◌, ◌++◌}
use callstack.Voice.State.{
  CallState, allowed, is_idle, Listener, CallStateMachine, Outcome, moved, refused, transition,
  reset,
}

-- What a caller asks of the machine.
pub data Request : Type 0 where
  to : CallState → Request
  force_idle : Request

module _ {W : Type 0} where
  unfoldable pub after : CallStateMachine W → Outcome W → CallStateMachine W
  after m (moved m') = m'
  after m (refused old new) = m

  -- A refused transition raises, and leaves the machine as it is.
  unfoldable pub serve : CallStateMachine W → Request → CallStateMachine W
  serve m (to new) = after m (transition m new)
  serve m force_idle = reset m

  pub serve_all : CallStateMachine W → List Request → CallStateMachine W
  serve_all m [] = m
  serve_all m (r ∷ rs) = serve_all (serve m r) rs

-- The transitions of the table in the class's docstring, and the forced return to idle.
pub data Step : CallState → CallState → Type 0 where
  dial : Step CallState.idle CallState.dialing
  ring : Step CallState.idle CallState.ringing
  connect : Step CallState.dialing CallState.active
  answer : Step CallState.ringing CallState.active
  give_up : Step CallState.dialing CallState.ended
  reject : Step CallState.ringing CallState.ended
  hold : Step CallState.active CallState.held
  hang_up : Step CallState.active CallState.ended
  resume : Step CallState.held CallState.active
  drop_held : Step CallState.held CallState.ended
  settle : Step CallState.ended CallState.idle

pub allowed-Step : (s t : CallState) → allowed s t ≡ true → Step s t
unfolding allowed
allowed-Step CallState.idle CallState.dialing h = Step.dial
allowed-Step CallState.idle CallState.ringing h = Step.ring
allowed-Step CallState.dialing CallState.active h = Step.connect
allowed-Step CallState.ringing CallState.active h = Step.answer
allowed-Step CallState.dialing CallState.ended h = Step.give_up
allowed-Step CallState.ringing CallState.ended h = Step.reject
allowed-Step CallState.active CallState.held h = Step.hold
allowed-Step CallState.active CallState.ended h = Step.hang_up
allowed-Step CallState.held CallState.active h = Step.resume
allowed-Step CallState.held CallState.ended h = Step.drop_held
allowed-Step CallState.ended CallState.idle h = Step.settle
allowed-Step _ _ h = absurd (cc)

-- A change that listeners hear of: a step of the table, or a forced return from another state.
pub data Change : CallState → CallState → Type 0 where
  stepped : {s t : CallState} → Step s t → Change s t
  forced : {s t : CallState} → is_idle s ≡ false → t ≡ CallState.idle → Change s t

-- The changes lead from one state to another, each from where the one before it went.
abbrev pub Chain : CallState → List (CallState × CallState) → CallState → Type 0
Chain s [] t = s ≡ t
Chain s ((a, b) ∷ log) t = (s ≡ a) × Change a b × Chain b log t

module _ {W : Type 0} where
  -- A listener that leaves the log and the machine alone, and one that writes to the log; each may
  -- raise.
  abbrev pub beside :
      (CallState → CallState → W → W × Bool) → Listener (W × List (CallState × CallState))
  beside f old new (s, (w, log)) = let (w', raised) = f old new w in ((s, (w', log)), raised)

  abbrev pub recorder : (W → Bool) → Listener (W × List (CallState × CallState))
  recorder raises old new (s, (w, log)) = ((s, (w, log ++ (old, new) ∷ [])), raises w)

  abbrev pub all_beside :
      List (CallState → CallState → W → W × Bool)
      → List (Listener (W × List (CallState × CallState)))
  all_beside [] = []
  all_beside (f ∷ fs) = beside f ∷ all_beside fs

module _ {W : Type 0} (fs gs : List (CallState → CallState → W → W × Bool))
    (raises : W → Bool) where
  -- A machine with such listeners, whose log leads from idle to its state.
  record Logged (m : CallStateMachine (W × List (CallState × CallState))) : Type 0 where
    wired : m.listeners ≡ all_beside fs ++ recorder raises ∷ all_beside gs
    chain : Chain CallState.idle m.world.1 m.state

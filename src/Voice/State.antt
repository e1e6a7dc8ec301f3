-- ===== src/Voice/State.antt =====
-- callstack/voice/state.py: `CallStateMachine`, over `CallState` of callstack/events/types.py. A
-- listener is its effect on the machine's state and on the rest of the program, a world, so that one
-- that asks the machine for a transition while it is called is such a function too; it may raise,
-- which is logged and goes no further.
pub mod Runs
use callstack.Prelude.{Bool, true, false, ◌||◌, List, [], ◌∷◌, ◌++◌, if◌then◌else◌}

pub data CallState : Type 0 where
  idle dialing ringing active held ended : CallState

-- `new_state in TRANSITIONS.get(state, set())`
unfoldable pub allowed : CallState → CallState → Bool
allowed CallState.idle CallState.dialing = true
allowed CallState.idle CallState.ringing = true
allowed CallState.dialing CallState.active = true
allowed CallState.dialing CallState.ended = true
allowed CallState.ringing CallState.active = true
allowed CallState.ringing CallState.ended = true
allowed CallState.active CallState.held = true
allowed CallState.active CallState.ended = true
allowed CallState.held CallState.active = true
allowed CallState.held CallState.ended = true
allowed CallState.ended CallState.idle = true
allowed _ _ = false

unfoldable pub is_idle : CallState → Bool
is_idle CallState.idle = true
is_idle _ = false

-- A listener's call: the state of the machine and the world afterwards, and whether it raised.
abbrev pub Listener : Type 0 → Type 0
Listener W = CallState → CallState → CallState × W → (CallState × W) × Bool

module _ {W : Type 0} where
  -- The loop over the listeners, each under its own `try`.
  unfoldable pub notify : List (Listener W) → CallState → CallState → CallState × W → CallState × W
  notify [] old new x = x
  notify (f ∷ fs) old new x = notify fs old new (f old new x).0

-- The machine with the world that its listeners act on.
pub record CallStateMachine (W : Type 0) : Type 0 where
  pub state : CallState
  pub listeners : List (Listener W)
  pub world : W

-- A transition is made, or refused with `InvalidStateTransition(state, new_state)`.
pub data Outcome (W : Type 0) : Type 0 where
  moved : CallStateMachine W → Outcome W
  refused : CallState → CallState → Outcome W

module _ {W : Type 0} where
  unfoldable pub new_machine : W → CallStateMachine W
  new_machine w = record { state = CallState.idle; listeners = []; world = w }

  unfoldable pub on_transition : CallStateMachine W → Listener W → CallStateMachine W
  on_transition m f = record m { listeners = m.listeners ++ f ∷ [] }

  -- The state is set before the listeners are called.
  unfoldable pub enter : CallStateMachine W → CallState → CallStateMachine W
  enter m new =
      let x = notify m.listeners m.state new (new, m.world) in record m { state = x.0; world = x.1 }

  unfoldable pub transition : CallStateMachine W → CallState → Outcome W
  transition m new = if allowed m.state new then moved (enter m new) else refused m.state new

  unfoldable pub reset : CallStateMachine W → CallStateMachine W
  reset m = if is_idle m.state then m else enter m CallState.idle

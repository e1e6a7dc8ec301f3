-- ===== src/Voice/Service/Action.antt =====
-- The state of `CallService` (callstack/voice/service.py), and actions on it that return or raise.
use callstack.Prelude.{
  ℕ, suc, Bool, true, false, not, ◌&&◌, ◌||◌, List, ◌∷◌, Option, none, some, Text, ◌==◌,
  if◌then◌else◌,
}
use callstack.Voice.State.{CallState, allowed, is_idle}

-- `CallSession`
pub record CallSession : Type 0 where
  pub id : ℕ
  pub number : Text
  pub outbound : Bool

pub record Service : Type 0 where
  pub state : CallState
  pub running : Bool
  pub bridge_registered : Bool
  pub active_call : Option CallSession
  pub pending_caller : Option Text
  pub disconnect_generation : ℕ
  pub sessions : ℕ
  pub ended : List ℕ

-- The errors that are told apart.
pub data Error : Type 0 where
  invalid_transition transport_error other_error : Error
  dial_error answer_error at_command_error : List Text → Error

pub data Result (A : Type 0) : Type 0 where
  returned : A → Result A
  raised : Error → Result A

abbrev pub Action : Type 0 → Type 0
Action A = Service → Service × Result A

-- Behind a result, the rest goes on, or the error.
abbrev pub go_on : {A B : Type 0} → (A → Action B) → Service × Result A → Service × Result B
go_on f (s, returned a) = f a s
go_on f (s, raised e) = (s, raised e)

infixl 5 ◌>>=◌ ◌>>◌
abbrev pub ◌>>=◌ : {A B : Type 0} → Action A → (A → Action B) → Action B
◌>>=◌ m f s = go_on f (m s)

abbrev pub ◌>>◌ : {A B : Type 0} → Action A → Action B → Action B
◌>>◌ m n s = go_on (λ a. n) (m s)

abbrev pub pure : {A : Type 0} → A → Action A
pure a s = (s, returned a)

abbrev pub raise : {A : Type 0} → Error → Action A
raise e s = (s, raised e)

-- `try`: the result, an error as well.
abbrev pub attempt : {A : Type 0} → Action A → Action (Result A)
attempt m s = let r = m s in (r.0, returned r.1)

-- What was tried, once more.
abbrev pub settle : {A : Type 0} → Result A → Action A
settle (returned a) = pure a
settle (raised e) = raise e

abbrev pub update : (Service → Service) → Action (Unit {0})
update f s = (f s, returned tt)

abbrev pub read : {A : Type 0} → (Service → A) → Action A
read f s = (s, returned (f s))

abbrev pub whenever : Bool → Action (Unit {0}) → Action (Unit {0})
whenever b m s = if b then m s else (s, returned tt)

abbrev pub is_transport : Error → Bool
is_transport transport_error = true
is_transport _ = false

abbrev pub is_ended : CallState → Bool
is_ended CallState.ended = true
is_ended _ = false

abbrev pub is_ringing : CallState → Bool
is_ringing CallState.ringing = true
is_ringing _ = false

abbrev pub is_active_state : CallState → Bool
is_active_state CallState.active = true
is_active_state _ = false

-- `state not in (CallState.ENDED, CallState.IDLE)`
abbrev pub in_progress : CallState → Bool
in_progress s = not (is_ended s || is_idle s)

-- `_fsm.transition`
unfoldable pub transition : CallState → Action (Unit {0})
transition target s =
    if allowed s.state target
    then (record s { state = target }, returned tt)
    else (s, raised invalid_transition)

-- `_fsm.reset`
unfoldable pub reset : Service → Service
reset s = record s { state = CallState.idle }

-- `_reset_to_idle`, whose transition is allowed.
unfoldable pub reset_to_idle : Service → Service
reset_to_idle s = if is_ended s.state then record s { state = CallState.idle } else s

-- `if self._fsm.state not in (ENDED, IDLE): transition(ENDED)`
unfoldable pub end_call : Action (Unit {0})
end_call s = if in_progress s.state then transition CallState.ended s else (s, returned tt)

-- `_ended.set()` of the active call.
abbrev pub set_ended : Option CallSession → List ℕ → List ℕ
set_ended none ended = ended
set_ended (some c) ended = c.id ∷ ended

-- `if self._active_call: self._active_call._ended.set()`, and no call and no caller.
unfoldable pub forget_call : Service → Service
forget_call s = record s {
  ended = set_ended s.active_call s.ended;
  active_call = none;
  pending_caller = none;
}

-- The `finally` of the clean-up.
unfoldable pub finish_call : Service → Service
finish_call s = reset_to_idle (forget_call (record s { bridge_registered = false }))

-- A new session becomes the active one.
unfoldable pub open_session : Text → Bool → Action CallSession
open_session number outbound s =
    let c : CallSession = record { id = s.sessions; number = number; outbound = outbound } in
    (record s { sessions = suc s.sessions; active_call = some c }, returned c)

-- `CallSession.is_active`
unfoldable pub session_is_active : CallSession → Service → Bool
session_is_active c s =
    is_active_state s.state && elim s.active_call [ none ↦ false | some other ↦ other.id == c.id ]

-- Where the transition to the end is refused, the machine is reset.
unfoldable pub end_or_reset : Service → Service
end_or_reset s = let (t, r) = end_call s in elim r [ returned u ↦ t | raised e ↦ reset t ]

-- The end of `handle_modem_disconnected`.
unfoldable pub leave : Service → Service
leave s = if is_ended s.state then reset_to_idle s else if is_idle s.state then s else reset s

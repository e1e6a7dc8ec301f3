-- ===== src/Voice/Service/Dialed.antt =====
-- How `CallService.dial` and `answer` of callstack/voice/service.py come out, whatever happens while
-- they wait.
use callstack.Prelude.{
  ℕ, suc, ◌≡◌, refl, ap, ◌∙◌, Bool, true, false, ◌||◌, List, [], ◌∷◌, Option, none, some, Text,
  codes, Bool-cases, inl, inr, ◌==◌, ==_iff, ==_refl,
}
use callstack.Protocol.Commands.{dial}
use callstack.Voice.State.{CallState, is_idle, allowed}
use callstack.Voice.Service.Action.{
  CallSession, Service, Error, invalid_transition, dial_error, Result, returned, raised, ◌>>◌,
  raise, whenever, is_transport, is_ended, transition, reset_to_idle, forget_call, finish_call,
  open_session,
}
use callstack.Voice.Service.Audio.{
  disable_audio, Response, Surroundings, end_attempt, cleanup_failed_dial, silence_audio,
}
use callstack.Voice.Service.Calls.{on_call_state, on_remote_end, send_dial, dialed, dial_call}
use callstack.Voice.Service.Idle.{closed, end_call-closed}

-- The session is the active call, no disconnection was counted since; or there is an error and no call.
abbrev pub IsDialed : ℕ → Service × Result CallSession → Type 0
IsDialed generation (s, returned c) =
    (s.active_call ≡ some c) × (s.disconnect_generation ≡ generation)
IsDialed generation (s, raised e) = s.active_call ≡ none

reset_to_idle-call : (s : Service) → (reset_to_idle s).active_call ≡ s.active_call
unfolding reset_to_idle
reset_to_idle-call s = elim (Bool-cases (is_ended s.state)) [
  | inl e ↦ rw e refl
  | inr e ↦ rw e refl
]

cleanup_failed_dial-none :
    (w : Surroundings) (b : Bool) (s : Service) (e : Error) (generation : ℕ)
    → IsDialed generation ((cleanup_failed_dial w b >> raise e) s)
unfolding cleanup_failed_dial end_attempt
cleanup_failed_dial-none w b s e generation =
    let t = w.acquire (closed s) in
    let x = (whenever (t.running || t.bridge_registered) (silence_audio w b) t).0 in
    rw (end_call-closed s) (reset_to_idle-call (record x { active_call = none }))

dialed-IsDialed :
    (w : Surroundings) (number : Text) (generation : ℕ) (r : Result Response) (s : Service)
    → IsDialed generation (dialed w number generation r s)
unfolding dialed open_session
dialed-IsDialed w number generation (raised e) s =
    cleanup_failed_dial-none w (is_transport e) s e generation
dialed-IsDialed w number generation (returned (false, lines)) s =
    cleanup_failed_dial-none w false s (dial_error lines) generation
dialed-IsDialed w number generation (returned (true, lines)) s =
    elim (Bool-cases (s.disconnect_generation == generation)) [
      | inl e ↦ rw e (refl, (==_iff s.disconnect_generation generation).0 e)
      | inr e ↦ rw e refl
    ]

allowed-dialing : (c : CallState) → allowed c CallState.dialing ≡ is_idle c
unfolding allowed is_idle
allowed-dialing CallState.idle = refl
allowed-dialing CallState.dialing = refl
allowed-dialing CallState.ringing = refl
allowed-dialing CallState.active = refl
allowed-dialing CallState.held = refl
allowed-dialing CallState.ended = refl

-- The outcome of `dial` by whether the service was idle.
abbrev pub IsOutcome : Bool → Service → Service × Result CallSession → Type 0
IsOutcome true before r = IsDialed before.disconnect_generation r
IsOutcome false before r = r ≡ (before, raised invalid_transition)

dial_call-from :
    (w : Surroundings) (number : Text) (s : Service) (idle : Bool)
    → is_idle s.state ≡ idle
    → IsOutcome idle s (dial_call w number s)
unfolding dial_call transition
dial_call-from w number s true h =
    let t = record s { state = CallState.dialing } in
    let r = send_dial w number t in
    rw (allowed-dialing s.state ∙ h) (dialed-IsDialed w number s.disconnect_generation r.1 r.0)
dial_call-from w number s false h = rw (allowed-dialing s.state ∙ h) refl

-- `dial` is refused, with nothing changed, unless the service is idle. Else it returns a session that
-- is the active call, with no disconnection in between, or raises with no active call, whatever
-- the modem answers and whatever happens meanwhile.
pub dial_call-IsDialed :
    (w : Surroundings) (number : Text) (s : Service)
    → IsOutcome (is_idle s.state) s (dial_call w number s)
dial_call-IsDialed w number s = dial_call-from w number s (is_idle s.state) refl

-- An idle service without audio.
abbrev pub at_rest : Option Text → ℕ → ℕ → List ℕ → Service
at_rest caller generation sessions ended = record {
  state = CallState.idle;
  running = false;
  bridge_registered = false;
  active_call = none;
  pending_caller = caller;
  disconnect_generation = generation;
  sessions = sessions;
  ended = ended;
}

-- The same while it dials.
abbrev pub dialing_out : Option Text → ℕ → ℕ → List ℕ → Service
dialing_out caller g n ended = record (at_rest caller g n ended) { state = CallState.dialing }

-- Where nothing waits for the lock, the end of a call without audio is handled at once.
quiet_end :
    (w : Surroundings) (caller : Option Text) (g n : ℕ) (ended : List ℕ)
    → ((t : Service) → w.acquire t ≡ t)
    → (on_call_state w CallState.ended (dialing_out caller g n ended)).0 ≡ at_rest none g n ended
unfolding on_call_state on_remote_end transition disable_audio finish_call forget_call reset_to_idle
    allowed is_idle
quiet_end w caller g n ended free =
    ap (λ t. finish_call (disable_audio w t).0)
      (free (record (at_rest caller g n ended) { state = CallState.ended }))

-- Where the modem reports the end of the call while `dial` still waits for the answer to its command,
-- and that answer is `OK`, `dial` returns a session none the less: it stays the active call of an idle
-- service, and its event is not set.
pub dial_call-ended_meanwhile :
    (w : Surroundings) (number command : Text) (lines : List Text) (caller : Option Text) (g n : ℕ)
    (ended : List ℕ)
    → dial number ≡ some command
    → ((t : Service) → w.acquire t ≡ t)
    → w.execute command (codes "OK" ∷ []) (dialing_out caller g n ended)
      ≡ ((on_call_state w CallState.ended (dialing_out caller g n ended)).0, returned (true, lines))
    → dial_call w number (at_rest caller g n ended) ≡ (
      record (at_rest none g (suc n) ended) {
        active_call = some (record { id = n; number = number; outbound = true });
      },
      returned (record { id = n; number = number; outbound = true }),
    )
unfolding dial_call transition send_dial dialed open_session allowed
dial_call-ended_meanwhile w number command lines caller g n ended valid free reply =
    let sent : send_dial w number (dialing_out caller g n ended)
        ≡ (at_rest none g n ended, returned (true, lines)) =
      rw (valid, send_dial)
        (reply ∙ ap (λ t. (t, returned (true, lines))) (quiet_end w caller g n ended free)) in
    ap (λ (r : Service × Result Response). dialed w number g r.1 r.0) sent ∙ rw (==_refl g) refl

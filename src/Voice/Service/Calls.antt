-- ===== src/Voice/Service/Calls.antt =====
-- The calls of callstack/voice/service.py: dialling, answering, hanging up, and the handlers of the
-- events that the modem reports.
use callstack.Prelude.{
  ℕ, Bool, true, false, not, ◌&&◌, List, [], ◌∷◌, Option, none, some, Text, codes, ◌==◌,
  if◌then◌else◌,
}
use callstack.Protocol.Commands.{dial}
use callstack.Voice.State.{CallState, is_idle}
use callstack.Voice.Service.Action.{
  CallSession, Service, other_error, dial_error, answer_error, at_command_error, Result, returned,
  raised, Action, ◌>>=◌, ◌>>◌, pure, raise, attempt, update, read, whenever, is_transport, is_ended,
  is_ringing, is_active_state, in_progress, transition, end_call, finish_call, open_session,
}
use callstack.Voice.Service.Audio.{
  Response, Surroundings, ensure_audio_enabled, disable_audio, cleanup, cleanup_failed_dial,
  cleanup_failed_answer,
}

-- `self._pending_caller or "unknown"`
abbrev pub caller_or_unknown : Option Text → Text
caller_or_unknown none = codes "unknown"
caller_or_unknown (some []) = codes "unknown"
caller_or_unknown (some (c ∷ s)) = c ∷ s

abbrev pub drop_call : Service → Service
drop_call s = record s { active_call = none }

abbrev pub drop_caller : Service → Service
drop_caller s = record s { active_call = none; pending_caller = none }

module _ (w : Surroundings) where
  -- A number that is no number is an error of the same `try`.
  unfoldable pub send_dial : Text → Action Response
  send_dial number = elim (dial number) [
    | none ↦ raise other_error
    | some command ↦ w.execute command (codes "OK" ∷ [])
  ]

  -- What follows the command, by its result.
  unfoldable pub dialed : Text → ℕ → Result Response → Action CallSession
  dialed number generation (raised e) = do cleanup_failed_dial w (is_transport e); raise e
  dialed number generation (returned (false, lines)) = do
    cleanup_failed_dial w false
    raise (dial_error lines)
  dialed number generation (returned (true, lines)) = do
    s ← read (λ s. s)
    if s.disconnect_generation == generation
        then open_session number true
        else (update drop_call >> raise (dial_error (codes "modem disconnected during dial" ∷ [])))

  -- `CallService.dial`
  unfoldable pub dial_call : Text → Action CallSession
  dial_call number = do
    transition CallState.dialing
    generation ← read (λ s. s.disconnect_generation)
    r ← attempt (send_dial number)
    dialed number generation r

  unfoldable pub gone_while_answering : {A : Type 0} → Action A
  gone_while_answering = do
    update drop_caller
    raise (answer_error (codes "modem disconnected during answer" ∷ []))

  -- The session, once the audio is enabled.
  unfoldable pub connected : ℕ → Result (Unit {0}) → Action CallSession
  connected generation (raised e) = do cleanup_failed_answer w (is_transport e); raise e
  connected generation (returned u) = do
    s ← read (λ s. s)
    if s.disconnect_generation == generation
        then (do
          c ← open_session (caller_or_unknown s.pending_caller) false
          update (λ t. record t { pending_caller = none })
          pure c)
        else gone_while_answering

  unfoldable pub answered : ℕ → Result Response → Action CallSession
  answered generation (raised e) = do cleanup_failed_answer w (is_transport e); raise e
  answered generation (returned (false, lines)) = do
    cleanup_failed_answer w false
    raise (answer_error lines)
  answered generation (returned (true, lines)) = do
    s ← read (λ s. s)
    if s.disconnect_generation == generation
        then (do
          whenever (not (is_active_state s.state)) (transition CallState.active)
          r ← attempt (ensure_audio_enabled w)
          connected generation r)
        else gone_while_answering

  unfoldable pub answer : Action CallSession
  answer = do
    s ← read (λ s. s)
    if is_ringing s.state
        then (do
          r ← attempt (w.execute (codes "ATA") (codes "OK" ∷ codes "VOICE CALL: BEGIN" ∷ []))
          answered s.disconnect_generation r)
        else raise (answer_error (codes "Cannot answer call outside of RINGING state" ∷ []))

  -- `hangup` and `reject` differ in the results that they expect.
  unfoldable pub end_with : List Text → Action (Unit {0})
  end_with expect = do
    r ← w.execute (codes "ATH") expect
    if r.0 then (end_call >> cleanup w) else raise (at_command_error r.1)

  unfoldable pub hangup : Action (Unit {0})
  hangup = end_with (codes "OK" ∷ codes "VOICE CALL: END" ∷ [])

  unfoldable pub reject : Action (Unit {0})
  reject = end_with (codes "OK" ∷ [])

  unfoldable pub on_ring : Action (Unit {0})
  on_ring s = if is_idle s.state then transition CallState.ringing s else (s, returned tt)

  unfoldable pub on_caller_id : Text → Action (Unit {0})
  on_caller_id number s =
      (if is_ringing s.state then record s { pending_caller = some number } else s, returned tt)

  -- The call has ended on the other side: the error of the audio is logged.
  unfoldable pub on_remote_end : Action (Unit {0})
  on_remote_end = do
    transition CallState.ended
    attempt (update w.acquire >> disable_audio w)
    update finish_call

  unfoldable pub on_connect : Action (Unit {0})
  on_connect = transition CallState.active >> ensure_audio_enabled w

  abbrev pub may_connect : CallState → Bool
  may_connect CallState.dialing = true
  may_connect CallState.ringing = true
  may_connect _ = false

  unfoldable pub on_call_state : CallState → Action (Unit {0})
  on_call_state reported s =
      if is_active_state reported && may_connect s.state
      then on_connect s
      else if is_ended reported && in_progress s.state
      then on_remote_end s
      else (s, returned tt)

-- ===== src/Voice/Service/Audio.antt =====
-- The audio bridge of callstack/voice/service.py, and the clean-up after a call.
use callstack.Prelude.{
  suc, none, Bool, true, false, not, ◌&&◌, ◌||◌, List, [], ◌∷◌, Text, codes, if◌then◌else◌,
}
use callstack.Voice.Service.Action.{
  Service, Result, returned, raised, Action, ◌>>=◌, ◌>>◌, pure, raise, attempt, settle, update,
  read, whenever, is_transport, is_active_state, reset_to_idle, end_call, forget_call, finish_call,
  end_or_reset, leave,
}

-- The success of a command, and the lines of its response.
abbrev pub Response : Type 0
Response = Bool × List Text

-- What the service uses, each with all that happens while it waits: the executor, with the results
-- that it is to expect, the pipeline's start and stop, and the lock.
pub record Surroundings : Type 0 where
  pub execute : Text → List Text → Action Response
  pub start : Action (Unit {0})
  pub stop : Action (Unit {0})
  pub acquire : Service → Service

module _ (w : Surroundings) where
  -- The pipeline is started once the bridge is registered; a failure is logged.
  unfoldable pub register_bridge : Result Response → Action (Unit {0})
  register_bridge (raised e) = if is_transport e then raise e else pure tt
  register_bridge (returned (success, lines)) =
      whenever success
        (update (λ s. record s { bridge_registered = true }) >> (attempt w.start >> pure tt))

  unfoldable pub enable_audio : Action (Unit {0})
  enable_audio = do
    r ← attempt (w.execute (codes "AT+CPCMREG=1") (codes "OK" ∷ []))
    register_bridge r

  unfoldable pub ensure_audio_enabled : Action (Unit {0})
  ensure_audio_enabled = do
    update w.acquire
    s ← read (λ s. s)
    whenever (is_active_state s.state && not s.running && not s.bridge_registered) enable_audio

  -- The bridge is unregistered whatever the modem says.
  unfoldable pub release_bridge : Action (Unit {0})
  release_bridge = do
    r ← attempt (w.execute (codes "AT+CPCMREG=0") (codes "OK" ∷ codes "ERROR" ∷ []))
    update (λ s. record s { bridge_registered = false })
    settle r
    pure tt

  unfoldable pub disable_audio : Action (Unit {0})
  disable_audio = do
    running ← read (λ s. s.running)
    stopped ← attempt (whenever running w.stop)
    bridge ← read (λ s. s.bridge_registered)
    whenever bridge release_bridge
    settle stopped

  -- `_cleanup`
  unfoldable pub cleanup : Action (Unit {0})
  cleanup = do
    r ← attempt (do
      update w.acquire
      busy ← read (λ s. s.running || s.bridge_registered)
      whenever busy disable_audio)
    update finish_call
    settle r

  -- After a failed attempt, without the modem where the transport is gone.
  unfoldable pub silence_audio : Bool → Action (Unit {0})
  silence_audio true = do
    running ← read (λ s. s.running)
    whenever running w.stop
    update (λ s. record s { bridge_registered = false })
  silence_audio false = disable_audio

  -- What both clean-ups of failed attempts do first.
  unfoldable pub end_attempt : Bool → Action (Unit {0})
  end_attempt transport_disconnected = do
    end_call
    update w.acquire
    busy ← read (λ s. s.running || s.bridge_registered)
    attempt (whenever busy (silence_audio transport_disconnected))
    pure tt

  unfoldable pub cleanup_failed_dial : Bool → Action (Unit {0})
  cleanup_failed_dial transport_disconnected = do
    end_attempt transport_disconnected
    update (λ s. reset_to_idle (record s { active_call = none }))

  unfoldable pub cleanup_failed_answer : Bool → Action (Unit {0})
  cleanup_failed_answer transport_disconnected = do
    end_attempt transport_disconnected
    update (λ s. reset_to_idle (record s { active_call = none; pending_caller = none }))

  -- `handle_modem_disconnected`: the call ends here, and the modem is not asked.
  unfoldable pub handle_modem_disconnected : Action (Unit {0})
  handle_modem_disconnected = do
    update (λ s. end_or_reset (record s { disconnect_generation = suc s.disconnect_generation }))
    update w.acquire
    running ← read (λ s. s.running)
    attempt (whenever running w.stop)
    update (λ s. leave (forget_call (record s { bridge_registered = false })))

-- ===== src/Tests/Service.antt =====
-- The call service on concrete surroundings (callstack/voice/service.py).
use callstack.Pdu.Phone.{without_plus}
use callstack.Prelude.{◌≡◌, refl, true, false, [], ◌∷◌, none, some, codes}
use callstack.Protocol.Commands.{matches_number, validate_phone, dial}
use callstack.Voice.State.{allowed, CallState, is_idle}
use callstack.Voice.Service.Action.{transition, Service, returned, raised, transport_error}
use callstack.Voice.Service.Audio.{
  disable_audio, release_bridge, Surroundings, handle_modem_disconnected,
}
use callstack.Voice.Service.Calls.{on_remote_end, on_call_state, dial_call}
use callstack.Voice.Service.Idle.{IsClear, handle_modem_disconnected-idle}
use callstack.Voice.Service.Dialed.{
  IsDialed, at_rest, dial_call-IsDialed, dial_call-ended_meanwhile,
}

-- The modem says yes, and the audio stops with an error.
abbrev agreeable : Surroundings
agreeable = record {
  execute = λ command expect s. (s, returned (true, codes "OK" ∷ []));
  start = λ s. (record s { running = true }, returned tt);
  stop = λ s. (record s { running = false }, raised transport_error);
  acquire = λ s. s;
}

abbrev talking : Service
talking = record {
  state = CallState.active;
  running = true;
  bridge_registered = true;
  active_call = some (record { id = 4; number = codes "+4670"; outbound = false });
  pending_caller = none;
  disconnect_generation = 2;
  sessions = 5;
  ended = 3 ∷ [];
}

abbrev hung_up : Service
hung_up = record {
  state = CallState.idle;
  running = false;
  bridge_registered = false;
  active_call = none;
  pending_caller = none;
  disconnect_generation = 2;
  sessions = 5;
  ended = 4 ∷ 3 ∷ [];
}

handle_modem_disconnected-idle_example :
    IsClear (handle_modem_disconnected agreeable talking).0
    × ((handle_modem_disconnected agreeable talking).0.state ≡ CallState.idle)
handle_modem_disconnected-idle_example = handle_modem_disconnected-idle agreeable talking

dial_call-IsDialed_example : IsDialed 0 (dial_call agreeable (codes "112") (at_rest none 0 7 []))
unfolding dial_call is_idle
dial_call-IsDialed_example = dial_call-IsDialed agreeable (codes "112") (at_rest none 0 7 [])

-- The answer to a command comes after the end of the call.
abbrev hasty : Surroundings
hasty = record agreeable {
  execute = λ command expect s.
      ((on_call_state agreeable CallState.ended s).0, returned (true, codes "OK" ∷ []));
}

dial_call-ended_meanwhile_example : dial_call hasty (codes "112") (at_rest none 0 7 []) ≡ (
  record (at_rest none 0 8 []) {
    active_call = some (record { id = 7; number = codes "112"; outbound = true });
  },
  returned (record { id = 7; number = codes "112"; outbound = true }),
)
unfolding dial validate_phone matches_number without_plus on_call_state on_remote_end disable_audio
    release_bridge is_idle transition allowed
dial_call-ended_meanwhile_example =
    dial_call-ended_meanwhile hasty (codes "112") (codes "ATD112;") (codes "OK" ∷ []) none 0 7 []
      refl (λ t. refl) refl

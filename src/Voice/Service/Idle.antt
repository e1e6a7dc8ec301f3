-- ===== src/Voice/Service/Idle.antt =====
-- What a clean-up of callstack/voice/service.py leaves, whatever happens while it waits.
use callstack.Prelude.{
  suc, ◌≡◌, refl, sym, subst, ap, ◌∙◌, true, false, ◌||◌, [], ◌∷◌, none, codes, if◌then◌else◌,
  Bool-cases, inl, inr, arith, ◌⊎◌,
}
use callstack.Voice.State.{CallState, is_idle, allowed}
use callstack.Voice.Service.Action.{
  Service, at_command_error, Result, returned, raised, go_on, ◌>>◌, raise, settle, whenever,
  is_ended, in_progress, transition, reset, reset_to_idle, end_call, forget_call, finish_call,
  leave, end_or_reset,
}
use callstack.Voice.Service.Audio.{
  Response, Surroundings, disable_audio, cleanup, handle_modem_disconnected,
}
use callstack.Voice.Service.Calls.{end_with, hangup, reject, on_remote_end, on_call_state}

-- No call, no caller, no bridge, and no call that has ended but is still shown.
pub record IsClear (s : Service) : Type 0 where
  pub no_call : s.active_call ≡ none
  pub no_caller : s.pending_caller ≡ none
  pub no_bridge : s.bridge_registered ≡ false
  pub not_ended : is_ended s.state ≡ false

reset_to_idle-not_ended : (s : Service) → is_ended (reset_to_idle s).state ≡ false
unfolding reset_to_idle
reset_to_idle-not_ended s = elim (Bool-cases (is_ended s.state)) [
  | inl e ↦ rw e refl
  | inr e ↦ rw e e
]

finish_call-IsClear : (s : Service) → IsClear (finish_call s)
unfolding finish_call forget_call reset_to_idle
finish_call-IsClear s = elim (Bool-cases (is_ended s.state)) [
  | inl e ↦ rw e (record { no_call = refl; no_caller = refl; no_bridge = refl; not_ended = refl })
  | inr e ↦ rw e (record { no_call = refl; no_caller = refl; no_bridge = refl; not_ended = e })
]

-- A tried action, then one that does not wait, then the error once more: the state is the second one's.
settle-state : {A : Type 0} (r : Result A) (s : Service) → (settle r s).0 ≡ s
settle-state (returned a) s = refl
settle-state (raised e) s = refl

-- After `_cleanup` nothing is left of the call, whatever the lock, the modem and the audio pipeline did,
-- and whether it returns or raises.
cleanup-IsClear : (w : Surroundings) (s : Service) → IsClear (cleanup w s).0
unfolding cleanup
cleanup-IsClear w s =
    let busy = (w.acquire s).running || (w.acquire s).bridge_registered in
    let tried = whenever busy (disable_audio w) (w.acquire s) in
    subst IsClear (sym (settle-state tried.1 (finish_call tried.0))) (finish_call-IsClear tried.0)

in_progress-allowed : (c : CallState) → in_progress c ≡ true → allowed c CallState.ended ≡ true
unfolding allowed is_idle
in_progress-allowed CallState.idle h = absurd (ground arith)
in_progress-allowed CallState.dialing h = refl
in_progress-allowed CallState.ringing h = refl
in_progress-allowed CallState.active h = refl
in_progress-allowed CallState.held h = refl
in_progress-allowed CallState.ended h = absurd (ground arith)

-- The call that is ended, if there is one to end.
abbrev pub closed : Service → Service
closed s = if in_progress s.state then record s { state = CallState.ended } else s

pub end_call-closed : (s : Service) → end_call s ≡ (closed s, returned tt)
unfolding end_call transition
end_call-closed s = elim (Bool-cases (in_progress s.state)) [
  | inl e ↦ rw e (rw (in_progress-allowed s.state e) refl)
  | inr e ↦ rw e refl
]

remote_end-IsClear :
    (w : Surroundings) (s : Service) → in_progress s.state ≡ true → IsClear (on_remote_end w s).0
unfolding on_remote_end transition
remote_end-IsClear w s h =
    rw (in_progress-allowed s.state h)
      (finish_call-IsClear (disable_audio w (w.acquire (record s { state = CallState.ended }))).0)

-- When the modem reports the end of a call, the handler clears it away in every state that has a
-- call, whatever the audio does meanwhile.
pub on_call_state-IsClear :
    (w : Surroundings) (s : Service)
    → in_progress s.state ≡ true
    → IsClear (on_call_state w CallState.ended s).0
unfolding on_call_state
on_call_state-IsClear w s h = rw h (remote_end-IsClear w s h)

clean_or_raise :
    (w : Surroundings) (r : Service × Result Response) (t : Service) (u : Unit {0})
    → go_on (λ a. if a.0 then (end_call >> cleanup w) else raise (at_command_error a.1)) r
      ≡ (t, returned u)
    → IsClear t
clean_or_raise w (s, raised e) t u h = absurd (ground arith)
clean_or_raise w (s, returned (false, lines)) t u h = absurd (ground arith)
clean_or_raise w (s, returned (true, lines)) t u h =
    let e : cleanup w (closed s) ≡ (t, returned u) =
      sym (ap (go_on (λ a. cleanup w)) (end_call-closed s)) ∙ h in
    subst IsClear (ap (λ (r : Service × Result (Unit {0})). r.0) e) (cleanup-IsClear w (closed s))

-- When `hangup` returns, nothing is left of the call; and so for `reject`.
pub hangup-IsClear :
    (w : Surroundings) (s t : Service) (u : Unit {0})
    → (hangup w s ≡ (t, returned u)) ⊎ (reject w s ≡ (t, returned u))
    → IsClear t
unfolding hangup reject end_with
hangup-IsClear w s t u (inl h) =
    clean_or_raise w (w.execute (codes "ATH") (codes "OK" ∷ codes "VOICE CALL: END" ∷ []) s) t u h
hangup-IsClear w s t u (inr h) =
    clean_or_raise w (w.execute (codes "ATH") (codes "OK" ∷ []) s) t u h

left_idle : (c : CallState) → is_ended c ≡ false → is_idle c ≡ true → c ≡ CallState.idle
unfolding is_idle
left_idle CallState.idle h k = refl
left_idle CallState.dialing h k = absurd (ground arith)
left_idle CallState.ringing h k = absurd (ground arith)
left_idle CallState.active h k = absurd (ground arith)
left_idle CallState.held h k = absurd (ground arith)
left_idle CallState.ended h k = absurd (ground arith)

leave-idle :
    (s : Service)
    → IsClear (leave (forget_call (record s { bridge_registered = false })))
      × ((leave (forget_call (record s { bridge_registered = false }))).state ≡ CallState.idle)
unfolding leave forget_call reset_to_idle reset
leave-idle s = elim (Bool-cases (is_ended s.state)) [
  | inl e ↦
      rw e (record { no_call = refl; no_caller = refl; no_bridge = refl; not_ended = refl }, refl)
  | inr e ↦ elim (Bool-cases (is_idle s.state)) [
    | inl k ↦ rw e (
        rw k (
          record { no_call = refl; no_caller = refl; no_bridge = refl; not_ended = e },
          left_idle s.state e k,
        ))
    | inr k ↦ rw e (
        rw k
          (record { no_call = refl; no_caller = refl; no_bridge = refl; not_ended = refl }, refl))
  ]
]

-- After the modem is gone the service is idle, and nothing is left of a call, whatever the lock and the
-- audio pipeline did.
pub handle_modem_disconnected-idle :
    (w : Surroundings) (s : Service)
    → IsClear (handle_modem_disconnected w s).0
      × ((handle_modem_disconnected w s).0.state ≡ CallState.idle)
unfolding handle_modem_disconnected
handle_modem_disconnected-idle w s =
    let t =
      w.acquire (end_or_reset (record s { disconnect_generation = suc s.disconnect_generation })) in
    leave-idle (whenever t.running w.stop t).0

-- ===== src/Sms/Service/Stored.antt =====
-- What callstack/sms/service.py emits is stored first: `_on_incoming` for a notification, and `send`.
use callstack.Prelude.{
  ℕ, ◌≡◌, refl, ap, sym, ◌∙◌, [], ◌∷◌, ◌++◌, some, Text, Bytes, codes, ◌==◌, ==_refl, Option-cases,
  inl, inr, if_true, branches,
}
use callstack.Modem.{Answer, responded, failed}
use callstack.Protocol.Commands.{send_sms}
use callstack.Sms.Types.{Sms}
use callstack.Sms.Rows.{IsKeyed}
use callstack.Sms.Database.{Fault}
use callstack.Sms.Store.{Store, Result, returned, raised, assign_id, get}
use callstack.Sms.Store.Kept.{IsSavedAs, save-IsSavedAs, number, numbered}
use callstack.Sms.Service.{
  sent, Service, Outcome, finished, send_error, other_error, persistence_error, emit, new_sms,
  prompted, first_reference, accepted, submitted, send,
}
use callstack.Sms.Service.Payload.{payload}

-- What a call of `send` may leave: the message in the store and one event; one event and the messages
-- as they were, where the database fails behind the modem's acceptance; nothing.
abbrev pub IsSent : Text → Text → Service → Service × Outcome Sms → Type 0
IsSent to body s (t, finished m) =
    (t.emitted ≡ s.emitted ++ (sent to m.reference ∷ []))
    × (m.recipient ≡ to)
    × (m.body ≡ body)
    × ((i : ℕ) × (get i t.store ≡ some m))
IsSent to body s (t, persistence_error reference recipient) =
    (recipient ≡ to)
    × (t.emitted ≡ s.emitted ++ (sent to reference ∷ []))
    × (t.store.messages ≡ s.store.messages)
IsSent to body s (t, send_error) = t ≡ s
IsSent to body s (t, other_error) = t ≡ s

abbrev outgoing : ℕ → Text → Text → ℕ → Sms
outgoing now to body reference = new_sms [] to body (codes "sent") reference now

settled :
    (now : ℕ) (to body : Text) (reference : ℕ) (s : Service) (r : Store × Result Sms)
    → IsSavedAs
        (number (outgoing now to body reference) s.store)
        (numbered (outgoing now to body reference) s.store)
        s.store
        r
    → IsSent to body s (
      emit (sent to reference) (record s { store = r.0 }),
      elim r.1 [ returned n ↦ finished n | raised e ↦ persistence_error reference to ],
    )
unfolding emit assign_id
settled now to body reference s (t, raised e) (a, c) = (refl, refl, c)
settled now to body reference s (t, returned n) (a, c, k) =
    let i = number (outgoing now to body reference) s.store in
    (
      ap (λ (x : Sms). s.emitted ++ (sent to x.reference ∷ [])) (sym a),
      ap (λ (x : Sms). x.recipient) a,
      ap (λ (x : Sms). x.body) a,
      (i, c i ∙ if_true (i == i) _ _ (==_refl i)),
    )

accepted-IsSent :
    (f : Fault) (now : ℕ) (to body : Text) (reference : ℕ) (s : Service)
    → IsKeyed Sms.id s.store.messages
    → IsSent to body s (accepted f now to body reference s)
unfolding accepted
accepted-IsSent f now to body reference s k =
    settled now to body reference s _ (save-IsSavedAs f (outgoing now to body reference) s.store k)

submitted-IsSent :
    (f : Fault) (now : ℕ) (to body : Text) (a : Answer) (s : Service)
    → IsKeyed Sms.id s.store.messages
    → IsSent to body s (submitted f now to body a s)
unfolding submitted
submitted-IsSent f now to body failed s k = refl
submitted-IsSent f now to body (responded success lines) s k =
    branches (IsSent to body s) success
      (elim (Option-cases (first_reference lines)) [
        | inl e ↦ rw e refl
        | inr (reference, e) ↦ rw e (accepted-IsSent f now to body reference s k)
      ])
      refl

prompted-IsSent :
    (send_data : Bytes → Answer) (f : Fault) (now : ℕ) (to body : Text) (octets : Bytes)
    (a : Answer) (s : Service)
    → IsKeyed Sms.id s.store.messages
    → IsSent to body s (prompted send_data f now to body octets a s)
unfolding prompted
prompted-IsSent send_data f now to body octets failed s k = refl
prompted-IsSent send_data f now to body octets (responded success lines) s k =
    branches (IsSent to body s) success (submitted-IsSent f now to body (send_data octets) s k) refl

-- From a store whose messages have distinct ids, `send` returns the message, which is in the store
-- then, and emits its reference once; or it raises that the message was accepted but not saved, and
-- emits its reference once all the same; or it raises another error, and then nothing has changed.
pub send-IsSent :
    (execute : Text → Answer) (send_data : Bytes → Answer) (f : Fault) (now : ℕ) (to body : Text)
    (s : Service)
    → IsKeyed Sms.id s.store.messages
    → IsSent to body s (send execute send_data f now to body s)
unfolding send
send-IsSent execute send_data f now to body s k = elim (Option-cases (payload body)) [
  | inl e ↦ rw (e, send) refl
  | inr (octets, e) ↦ elim (Option-cases (send_sms to)) [
    | inl g ↦ rw (e, send) (rw g refl)
    | inr (command, g) ↦
        rw (e, send) (rw g (prompted-IsSent send_data f now to body octets (execute command) s k))
  ]
]

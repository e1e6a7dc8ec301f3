-- ===== src/Sms/Service/Received.antt =====
-- What `_on_incoming` of callstack/sms/service.py emits for a notification is stored first.
use callstack.Prelude.{
  ℕ, ◌≡◌, ◌⊎◌, refl, ap, sym, ◌∙◌, Bool, true, false, [], ◌∷◌, ◌++◌, Option, none, some, Text,
  codes, ◌==◌, ==_refl, Option-cases, inl, inr, if_true, branches,
}
use callstack.Modem.{Answer}
use callstack.Sms.Types.{Sms}
use callstack.Sms.Rows.{IsKeyed}
use callstack.Sms.Database.{Fault}
use callstack.Sms.Store.{Store, Result, returned, raised, assign_id, save, get}
use callstack.Sms.Store.Kept.{IsSavedAs, save-IsSavedAs, number, numbered}
use callstack.Sms.Service.{
  incoming, Slot, Service, Outcome, finished, send_error, other_error, persistence_error, emit,
  read_message, delete_slot,
}
use callstack.Sms.Service.Incoming.{
  already_accepted, fingerprint, retry_slot, accept, keep_sms, on_read, on_answer, on_notification,
}
use callstack.Sms.Service.Announced.{unread}

-- One event, and the store has a message under an id with what the event says, marked as unread.
abbrev pub IsReceived : Service → Service → Type 0
IsReceived s t =
    (i : ℕ) × (n : Sms) × (t.emitted ≡ s.emitted ++ (incoming n.sender n.body ∷ []))
    × (n.status ≡ codes "unread")
    × (get i t.store ≡ some n)

-- Nothing is emitted and the store has the same messages.
abbrev pub IsIgnored : Service → Service → Type 0
IsIgnored s t = (t.emitted ≡ s.emitted) × (t.store.messages ≡ s.store.messages)

numbered_text :
    (m : Sms) (s : Store)
    → ((numbered m s).sender ≡ m.sender)
      × ((numbered m s).body ≡ m.body)
      × ((numbered m s).status ≡ m.status)
unfolding assign_id
numbered_text m s = elim (Option-cases m.id) [
  | inl e ↦ rw e (refl, refl, refl)
  | inr (i, e) ↦ rw e (refl, refl, refl)
]

kept :
    (deleted : Bool) (k : Slot) (m : Sms) (s : Service) (r : Store × Result Sms)
    → IsSavedAs (number (unread m) s.store) (numbered (unread m) s.store) s.store r
    → IsIgnored s
        (accept deleted k m
          (record s { store = r.0 }, elim r.1 [ returned n ↦ true | raised e ↦ false ])).0
      ⊎ IsReceived s
          (accept deleted k m
            (record s { store = r.0 }, elim r.1 [ returned n ↦ true | raised e ↦ false ])).0
unfolding accept emit
kept deleted k m s (t, raised e) (a, c) = inl (refl, c)
kept deleted k m s (t, returned n) (a, c, h) =
    let i = number (unread m) s.store in
    let (from, body, status) = numbered_text (unread m) s.store in
    inr (
      i,
      n,
      ap (λ x. s.emitted ++ (incoming x m.body ∷ [])) (sym (ap (λ (x : Sms). x.sender) a ∙ from))
          ∙ ap (λ x. s.emitted ++ (incoming n.sender x ∷ []))
              (sym (ap (λ (x : Sms). x.body) a ∙ body)),
      ap (λ (x : Sms). x.status) a ∙ status,
      c i ∙ if_true (i == i) _ _ (==_refl i),
    )

read_once :
    (deleted : Bool) (f : Fault) (k : Slot) (m : Sms) (s : Service)
    → IsKeyed Sms.id s.store.messages
    → IsIgnored s (on_read deleted f k m s).0 ⊎ IsReceived s (on_read deleted f k m s).0
unfolding on_read retry_slot keep_sms
read_once deleted f k m s h =
    branches (λ (r : Service × Outcome (Unit {0})). IsIgnored s r.0 ⊎ IsReceived s r.0)
      (already_accepted k (fingerprint m) s)
      (inl (branches (IsIgnored s) deleted (refl, refl) (refl, refl)))
      (kept deleted k m s (save f (unread m) s.store) (save-IsSavedAs f (unread m) s.store h))

read_or_not :
    (deleted : Bool) (f : Fault) (k : Slot) (o : Outcome (Option Sms)) (s : Service)
    → IsKeyed Sms.id s.store.messages
    → IsIgnored s (on_answer deleted f k o s).0 ⊎ IsReceived s (on_answer deleted f k o s).0
unfolding on_answer
read_or_not deleted f k (finished none) s h = inl (refl, refl)
read_or_not deleted f k (finished (some m)) s h = read_once deleted f k m s h
read_or_not deleted f k send_error s h = inl (refl, refl)
read_or_not deleted f k other_error s h = inl (refl, refl)
read_or_not deleted f k (persistence_error i t) s h = inl (refl, refl)

-- From a store whose messages have distinct ids, the handler of a notification emits one event for a
-- message that is in the store then, marked as unread; or it emits nothing and the store has the
-- messages that it had.
pub on_notification-IsReceived :
    (time : Text → Option ℕ) (execute : Text → Answer) (f : Fault) (k : Slot) (s : Service)
    → IsKeyed Sms.id s.store.messages
    → IsIgnored s (on_notification time execute f k s).0
      ⊎ IsReceived s (on_notification time execute f k s).0
unfolding on_notification
on_notification-IsReceived time execute f k s h =
    read_or_not (delete_slot execute k.1) f k (read_message time execute k.1) s h

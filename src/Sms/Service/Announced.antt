-- ===== src/Sms/Service/Announced.antt =====
-- What the handler of incoming messages in callstack/sms/service.py emits: how often, and what is
-- stored by then.
use callstack.Prelude.{
  ℕ, ◌≡◌, refl, ap, sym, subst, ◌∙◌, Bool, true, false, List, [], ◌∷◌, ◌++◌, Option, none, some,
  Text, codes, text_eq_refl, ==_refl, if◌then◌else◌, Bool-cases, inl, inr, if_true, if_false,
  branches,
}
use callstack.Modem.{Answer}
use callstack.Sms.Types.{Sms}
use callstack.Sms.Database.{Fault}
use callstack.Sms.Store.{save}
use callstack.Sms.Service.{
  incoming, Slot, same_slot, get_slot, put_slot, pop_slot, Fingerprint, Service, Outcome, finished,
  emit, delete_slot, read_message,
}
use callstack.Sms.Service.Incoming.{
  fingerprint, same_time, same_print, already_accepted, retry_slot, accept, keep_sms, on_read,
  on_answer, on_notification,
}

get_slot-put :
    {A : Type 0} (k : Slot) (a : A) (ps : List (Slot × A)) → get_slot k (put_slot k a ps) ≡ some a
get_slot-put (k, i) a [] = rw (text_eq_refl k, ==_refl i) refl
get_slot-put k a ((l, b) ∷ ps) = elim (Bool-cases (same_slot l k)) [
  | inl h ↦
      ap (λ c. get_slot k (if c then (l, a) ∷ ps else (l, b) ∷ put_slot k a ps)) h ∙ if_true _ _ _ h
  | inr h ↦
      ap (λ c. get_slot k (if c then (l, a) ∷ ps else (l, b) ∷ put_slot k a ps)) h
      ∙ if_false _ _ _ h
      ∙ get_slot-put k a ps
]

same_time_refl : (t : Option ℕ) → same_time t t ≡ true
same_time_refl none = refl
same_time_refl (some a) = ==_refl a

same_print_refl : (p : Fingerprint) → same_print p p ≡ true
same_print_refl p = rw (text_eq_refl p.sender, text_eq_refl p.body, same_time_refl p.time) refl

-- A message that is announced: what the modem answers meanwhile, and what goes wrong in the database.
pub record Announcement : Type 0 where
  pub execute : Text → Answer
  pub fault : Fault

-- The handler on one announcement of the slot after the other.
abbrev pub notify_all : (Text → Option ℕ) → Slot → List Announcement → Service → Service
notify_all time k [] s = s
notify_all time k (a ∷ rest) s =
    notify_all time k rest (on_notification time a.execute a.fault k s).0

-- Each time the message is read from the slot, and it is not deleted but the last time, maybe.
abbrev pub IsAnnounced : (Text → Option ℕ) → Slot → Sms → List Announcement → Type 0
IsAnnounced time k m [] = Unit
IsAnnounced time k m (a ∷ []) = read_message time a.execute k.1 ≡ finished (some m)
IsAnnounced time k m (a ∷ b ∷ rest) =
    (read_message time a.execute k.1 ≡ finished (some m))
    × (delete_slot a.execute k.1 ≡ false)
    × IsAnnounced time k m (b ∷ rest)

-- One announcement, whose message is read.
notified :
    (time : Text → Option ℕ) (a : Announcement) (k : Slot) (m : Sms) (s : Service)
    → read_message time a.execute k.1 ≡ finished (some m)
    → on_notification time a.execute a.fault k s ≡ on_read (delete_slot a.execute k.1) a.fault k m s
unfolding on_notification on_answer
notified time a k m s h = ap (λ o. on_answer (delete_slot a.execute k.1) a.fault k o s) h

-- Where the message was accepted before, only its mark may go.
known :
    (deleted : Bool) (f : Fault) (k : Slot) (m : Sms) (s : Service)
    → already_accepted k (fingerprint m) s ≡ true
    → (on_read deleted f k m s).0 ≡ retry_slot deleted k s
unfolding on_read
known deleted f k m s h = ap (λ (r : Service × Outcome (Unit {0})). r.0) (if_true _ _ _ h)

-- Nothing is emitted and nothing is stored.
abbrev IsQuiet : Service → Service → Type 0
IsQuiet s t = (t.emitted ≡ s.emitted) × (t.store ≡ s.store)

retried : (deleted : Bool) (k : Slot) (s : Service) → IsQuiet s (retry_slot deleted k s)
unfolding retry_slot
retried deleted k s = branches (IsQuiet s) deleted (refl, refl) (refl, refl)

unmarked : (k : Slot) (s : Service) → retry_slot false k s ≡ s
unfolding retry_slot
unmarked k s = refl

again :
    (time : Text → Option ℕ) (k : Slot) (m : Sms) (rest : List Announcement) (s : Service)
    → already_accepted k (fingerprint m) s ≡ true
    → IsAnnounced time k m rest
    → IsQuiet s (notify_all time k rest s)
again time k m [] s h w = (refl, refl)
again time k m (a ∷ []) s h w =
    subst (IsQuiet s)
      (sym (
        ap (λ (r : Service × Outcome (Unit {0})). r.0) (notified time a k m s w)
        ∙ known (delete_slot a.execute k.1) a.fault k m s h))
      (retried (delete_slot a.execute k.1) k s)
again time k m (a ∷ b ∷ rest) s h (w, d, ws) =
    subst (λ (t : Service). IsQuiet s (notify_all time k (b ∷ rest) t))
      (sym (
        ap (λ (r : Service × Outcome (Unit {0})). r.0) (notified time a k m s w)
        ∙ known (delete_slot a.execute k.1) a.fault k m s h
        ∙ ap (λ c. retry_slot c k s) d
        ∙ unmarked k s))
      (again time k m (b ∷ rest) s h ws)

-- The message as it is saved.
abbrev pub unread : Sms → Sms
unread m = record m { status = codes "unread" }

-- The first time, where the save returns.
abbrev first_accepted : Bool → Fault → Slot → Sms → Service → Service
first_accepted deleted f k m s = emit (incoming m.sender m.body) (record s {
  store = (save f (unread m) s.store).0;
  slots = if deleted then pop_slot k s.slots else put_slot k (fingerprint m) s.slots;
})

on_read_first :
    (deleted : Bool) (f : Fault) (k : Slot) (m : Sms) (s : Service)
    → already_accepted k (fingerprint m) s ≡ false
    → (keep_sms f (unread m) s).1 ≡ true
    → (on_read deleted f k m s).0 ≡ first_accepted deleted f k m s
unfolding on_read accept keep_sms
on_read_first deleted f k m s h g =
    ap (λ (r : Service × Outcome (Unit {0})). r.0) (if_false _ _ _ h)
    ∙ ap (λ c. (accept deleted k m ((keep_sms f (unread m) s).0, c)).0) g

first_marks :
    (f : Fault) (k : Slot) (m : Sms) (s : Service)
    → already_accepted k (fingerprint m) (first_accepted false f k m s) ≡ true
unfolding already_accepted emit
first_marks f k m s =
    ap (λ (o : Option Fingerprint). elim o [ none ↦ false | some q ↦ same_print q (fingerprint m) ])
      (get_slot-put k (fingerprint m) s.slots)
    ∙ same_print_refl (fingerprint m)

first_emits :
    (deleted : Bool) (f : Fault) (k : Slot) (m : Sms) (s : Service)
    → ((first_accepted deleted f k m s).emitted ≡ s.emitted ++ (incoming m.sender m.body ∷ []))
      × ((first_accepted deleted f k m s).store ≡ (save f (unread m) s.store).0)
unfolding emit
first_emits deleted f k m s = (refl, refl)

-- A message that was not accepted before and is announced any number of times, where the save of the
-- first time returns, each time reads the message and none deletes it but the last maybe, is saved
-- once and emitted once, with its sender and its body.
pub notify_all-once :
    (time : Text → Option ℕ) (a : Announcement) (rest : List Announcement) (k : Slot) (m : Sms)
    (s : Service)
    → already_accepted k (fingerprint m) s ≡ false
    → (keep_sms a.fault (unread m) s).1 ≡ true
    → IsAnnounced time k m (a ∷ rest)
    → ((notify_all time k (a ∷ rest) s).emitted ≡ s.emitted ++ (incoming m.sender m.body ∷ []))
      × ((notify_all time k (a ∷ rest) s).store ≡ (save a.fault (unread m) s.store).0)
notify_all-once time a [] k m s h g w =
    subst
      (λ (t : Service).
        (t.emitted ≡ s.emitted ++ (incoming m.sender m.body ∷ []))
        × (t.store ≡ (save a.fault (unread m) s.store).0))
      (sym (
        ap (λ (r : Service × Outcome (Unit {0})). r.0) (notified time a k m s w)
        ∙ on_read_first (delete_slot a.execute k.1) a.fault k m s h g))
      (first_emits (delete_slot a.execute k.1) a.fault k m s)
notify_all-once time a (b ∷ rest) k m s h g (w, d, ws) =
    let t = first_accepted false a.fault k m s in
    let (e, c) = first_emits false a.fault k m s in
    subst
      (λ (u : Service).
        ((notify_all time k (b ∷ rest) u).emitted ≡ s.emitted ++ (incoming m.sender m.body ∷ []))
        × ((notify_all time k (b ∷ rest) u).store ≡ (save a.fault (unread m) s.store).0))
      (sym (
        ap (λ (r : Service × Outcome (Unit {0})). r.0) (notified time a k m s w)
        ∙ on_read_first (delete_slot a.execute k.1) a.fault k m s h g
        ∙ ap (λ b. first_accepted b a.fault k m s) d))
      (let (q, p) = again time k m (b ∷ rest) t (first_marks a.fault k m s) ws in (q ∙ e, p ∙ c))

-- ===== src/Metrics/Tallied.antt =====
-- What the counter of delivery reports holds (callstack/metrics.py).
use callstack.Prelude.{
  ℕ, ◌+◌, ◌≡◌, refl, sym, ap, ◌∙◌, subst, Bool, true, false, List, [], ◌∷◌, Text, codes, text_eq,
  text_eq_sound, text_eq_refl, if◌then◌else◌, All, arith, Bool-cases, inl, inr,
}
use callstack.Protocol.Lines.{is_in}
use callstack.Metrics.{
  Event, sms_delivery_report, incoming_sms, sms_sent, call_state, signal_quality,
  modem_disconnected, modem_reconnected, ussd_response, CallstackMetrics, new_metrics,
  delivery_statuses, increment, safe_delivery_status, observe,
}

-- The four words that may be a label.
abbrev pub labels : List Text
labels = codes "unknown" ∷ delivery_statuses

abbrev pub as_number : Bool → ℕ
as_number true = 1
as_number false = 0

-- The count under a label.
abbrev pub count_in : Text → List (Text × ℕ) → ℕ
count_in t [] = 0
count_in t ((s, n) ∷ counts) = if text_eq s t then n else count_in t counts

abbrev pub AreLabels : List (Text × ℕ) → Type 0
AreLabels counts = All (λ p. is_in p.0 labels ≡ true) counts

text_eq-left : (s t u : Text) → text_eq s t ≡ true → text_eq s u ≡ text_eq t u
text_eq-left s t u h = ap (λ x. text_eq x u) (text_eq_sound s t h)

count_in-increment :
    (t status : Text) (counts : List (Text × ℕ))
    → count_in t (increment status counts) ≡ as_number (text_eq status t) + count_in t counts
unfolding increment
count_in-increment t status [] = elim (Bool-cases (text_eq status t)) [
  | inl e ↦ rw e refl
  | inr e ↦ rw e refl
]
count_in-increment t status ((s, n) ∷ counts) =
    let rest = count_in-increment t status counts in
    elim (Bool-cases (text_eq s status)) [
      | inl e ↦ let q = text_eq-left s status t e in ground arith
      | inr e ↦ elim (Bool-cases (text_eq s t)) [
        | inr d ↦ ground arith
        | inl d ↦
            let q : s ≡ t = text_eq_sound s t d in
            elim (Bool-cases (text_eq status t)) [
              | inr f ↦ ground arith
              | inl f ↦
                  let same : s ≡ status = q ∙ sym (text_eq_sound status t f) in
                  let self : text_eq s status ≡ true =
                    subst (λ x. text_eq s x ≡ true) same (text_eq_refl s) in
                  absurd (ground arith)
            ]
      ]
    ]

increment-AreLabels :
    (status : Text) (counts : List (Text × ℕ))
    → is_in status labels ≡ true
    → AreLabels counts
    → AreLabels (increment status counts)
unfolding increment
increment-AreLabels status [] h k = (h, tt)
increment-AreLabels status ((s, n) ∷ counts) h k = elim (Bool-cases (text_eq s status)) [
  | inl e ↦ rw e (k.0, k.1)
  | inr e ↦ rw e (k.0, increment-AreLabels status counts h k.1)
]

module _ (lower : Text → Text) where
  safe_delivery_status-in :
      (status : Text) → is_in (safe_delivery_status lower status) labels ≡ true
  unfolding safe_delivery_status is_in text_eq
  safe_delivery_status-in status = ground arith

  -- Events one after the other.
  abbrev pub observe_all : CallstackMetrics → List Event → CallstackMetrics
  observe_all m [] = m
  observe_all m (e ∷ events) = observe_all (observe lower m e) events

  -- The reports whose status is shown under a label.
  abbrev pub reports_of : Text → List Event → ℕ
  reports_of t [] = 0
  reports_of t (sms_delivery_report reference recipient status ∷ events) =
      as_number (text_eq (safe_delivery_status lower status) t) + reports_of t events
  reports_of t (_ ∷ events) = reports_of t events

  -- A count for each label, and no label beside the four.
  abbrev pub IsTallied : List (Text × ℕ) → (Text → ℕ) → List Event → Type 0
  IsTallied counts before events =
      ((t : Text) → count_in t counts ≡ before t + reports_of t events) × AreLabels counts

  observe_all-from :
      (m : CallstackMetrics) (events : List Event)
      → AreLabels m.delivery_reports_total
      → IsTallied
          (observe_all m events).delivery_reports_total
          (λ t. count_in t m.delivery_reports_total)
          events
  unfolding observe
  observe_all-from m [] h = ((λ t. omega arith), h)
  observe_all-from m (sms_delivery_report reference recipient status ∷ events) h =
      let word = safe_delivery_status lower status in
      let r =
        observe_all-from (observe lower m (sms_delivery_report reference recipient status)) events
          (increment-AreLabels word m.delivery_reports_total (safe_delivery_status-in status) h) in
      ((λ t. omega (arith, r.0 t, count_in-increment t word m.delivery_reports_total)), r.1)
  observe_all-from m (incoming_sms sender body ∷ events) h =
      observe_all-from (observe lower m (incoming_sms sender body)) events h
  observe_all-from m (sms_sent recipient reference ∷ events) h =
      observe_all-from (observe lower m (sms_sent recipient reference)) events h
  observe_all-from m (call_state state ∷ events) h =
      observe_all-from (observe lower m (call_state state)) events h
  observe_all-from m (signal_quality rssi ber ∷ events) h =
      observe_all-from (observe lower m (signal_quality rssi ber)) events h
  observe_all-from m (modem_disconnected reason ∷ events) h =
      observe_all-from (observe lower m (modem_disconnected reason)) events h
  observe_all-from m (modem_reconnected ∷ events) h =
      observe_all-from (observe lower m modem_reconnected) events h
  observe_all-from m (ussd_response status message ∷ events) h =
      observe_all-from (observe lower m (ussd_response status message)) events h

  -- Whatever the events carry, the delivery reports are counted under four words only, and under each as
  -- many as there were reports with that status, everything else being unknown.
  pub observe_all-IsTallied :
      (events : List Event)
      → IsTallied (observe_all new_metrics events).delivery_reports_total (λ t. 0) events
  observe_all-IsTallied events = observe_all-from new_metrics events tt

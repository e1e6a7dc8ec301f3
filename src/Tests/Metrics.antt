-- ===== src/Tests/Metrics.antt =====
-- The metrics after a few events (callstack/metrics.py).
use callstack.Protocol.Lines.{is_in, is_space, lstrip, rstrip, strip}
use callstack.Prelude.{text_eq, ◌≡◌, refl, List, [], ◌∷◌, codes}
use callstack.Voice.State.{CallState}
use callstack.Metrics.{
  increment, observe, safe_delivery_status, Event, sms_delivery_report, incoming_sms, call_state,
  new_metrics,
}
use callstack.Metrics.Tallied.{observe_all}

abbrev seen : List Event
seen =
    incoming_sms (codes "+46") (codes "hi")
    ∷ sms_delivery_report 1 (codes "+46") (codes " delivered ")
    ∷ sms_delivery_report 2 (codes "+47") (codes "sender=+48")
    ∷ call_state CallState.ringing
    ∷ sms_delivery_report 3 (codes "+46") (codes "delivered")
    ∷ []

labels_seen :
    (observe_all (λ s. s) new_metrics seen).delivery_reports_total
    ≡ (codes "delivered", 2) ∷ (codes "unknown", 1) ∷ []
unfolding observe increment text_eq safe_delivery_status is_in strip rstrip lstrip is_space
labels_seen = refl

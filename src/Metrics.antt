-- ===== src/Metrics.antt =====
-- callstack/metrics.py: `CallstackMetrics`. The events come with all that they carry. `str.lower` and the
-- text of the uptime are parameters; the modem object, whose attributes the health check looks for,
-- is left out but for its answer.
pub mod Tallied
use callstack.Prelude.{
  ℕ, zero, suc, ◌+◌, Bool, true, false, ◌&&◌, ◌||◌, List, [], ◌∷◌, ◌++◌, Option, none, some, Text,
  codes, text_eq, ltb, ◌==◌, if◌then◌else◌,
}
use callstack.Voice.State.{CallState}
use callstack.Protocol.Lines.{strip, is_in}
use callstack.Protocol.Commands.{decimal}

-- The events that are subscribed to.
pub data Event : Type 0 where
  incoming_sms : Text → Text → Event
  sms_sent : Text → ℕ → Event
  sms_delivery_report : ℕ → Text → Text → Event
  call_state : CallState → Event
  signal_quality : ℕ → ℕ → Event
  modem_disconnected : Text → Event
  modem_reconnected : Event
  ussd_response : ℕ → Text → Event

pub record CallstackMetrics : Type 0 where
  pub sms_received_total : ℕ
  pub sms_sent_total : ℕ
  pub delivery_reports_total : List (Text × ℕ)
  pub active_calls : ℕ
  pub signal_rssi : Option ℕ
  pub signal_ber : Option ℕ
  pub modem_disconnects_total : ℕ
  pub modem_reconnects_total : ℕ
  pub ussd_responses_total : ℕ

abbrev pub new_metrics : CallstackMetrics
new_metrics = record {
  sms_received_total = 0;
  sms_sent_total = 0;
  delivery_reports_total = [];
  active_calls = 0;
  signal_rssi = none;
  signal_ber = none;
  modem_disconnects_total = 0;
  modem_reconnects_total = 0;
  ussd_responses_total = 0;
}

-- `_DELIVERY_STATUSES`
abbrev pub delivery_statuses : List Text
delivery_statuses = codes "delivered" ∷ codes "failed" ∷ codes "pending" ∷ []

-- `counter[status] += 1`
unfoldable pub increment : Text → List (Text × ℕ) → List (Text × ℕ)
increment status [] = (status, 1) ∷ []
increment status ((s, n) ∷ counts) =
    let rest = increment status counts in
    if text_eq s status then (s, suc n) ∷ counts else (s, n) ∷ rest

-- Dialling, ringing, active or held.
abbrev pub call_count : CallState → ℕ
call_count CallState.idle = 0
call_count CallState.ended = 0
call_count _ = 1

module _ (lower : Text → Text) where
  unfoldable pub safe_delivery_status : Text → Text
  safe_delivery_status status =
      let normalized = lower (strip status) in
      if is_in normalized delivery_statuses then normalized else codes "unknown"

  -- The handler of each event.
  unfoldable pub observe : CallstackMetrics → Event → CallstackMetrics
  observe m (incoming_sms sender body) = record m { sms_received_total = suc m.sms_received_total }
  observe m (sms_sent recipient reference) = record m { sms_sent_total = suc m.sms_sent_total }
  observe m (sms_delivery_report reference recipient status) = record m {
    delivery_reports_total = increment (safe_delivery_status status) m.delivery_reports_total;
  }
  observe m (call_state state) = record m { active_calls = call_count state }
  observe m (signal_quality rssi ber) = record m { signal_rssi = some rssi; signal_ber = some ber }
  observe m (modem_disconnected reason) = record m {
    modem_disconnects_total = suc m.modem_disconnects_total;
  }
  observe m modem_reconnected = record m { modem_reconnects_total = suc m.modem_reconnects_total }
  observe m (ussd_response status message) = record m {
    ussd_responses_total = suc m.ussd_responses_total;
  }

-- The order of texts, by their code points.
unfoldable pub text_before : Text → Text → Bool
text_before [] [] = false
text_before [] (d ∷ t) = true
text_before (c ∷ s) [] = false
text_before (c ∷ s) (d ∷ t) = ltb c d || ((c == d) && text_before s t)

unfoldable pub insert_sorted : Text × ℕ → List (Text × ℕ) → List (Text × ℕ)
insert_sorted p [] = p ∷ []
insert_sorted p (q ∷ counts) =
    let rest = insert_sorted p counts in if text_before q.0 p.0 then q ∷ rest else p ∷ q ∷ counts

-- `sorted` of the counter, whose keys are distinct.
unfoldable pub sort_counts : List (Text × ℕ) → List (Text × ℕ)
sort_counts [] = []
sort_counts (p ∷ counts) = insert_sorted p (sort_counts counts)

abbrev pub gauge : Text → ℕ → Text
gauge name n = name ++ (32 ∷ decimal n)

unfoldable pub report_lines : List (Text × ℕ) → List Text
report_lines [] = []
report_lines ((status, n) ∷ counts) =
    (codes "callstack_sms_delivery_reports_total{status=\""
      ++ (status ++ (codes "\"} " ++ decimal n)))
    ∷ report_lines counts

unfoldable pub optional_gauge : Text → Text → Text → Option ℕ → List Text
optional_gauge help type name none = []
optional_gauge help type name (some n) = help ∷ type ∷ gauge name n ∷ []

-- `"\n".join(lines)`
unfoldable pub join_lines : List Text → Text
join_lines [] = []
join_lines (l ∷ []) = l
join_lines (l ∷ k ∷ lines) = l ++ (10 ∷ join_lines (k ∷ lines))

unfoldable pub render_lines : Text → CallstackMetrics → List Text
render_lines uptime m =
    (codes "# HELP callstack_uptime_seconds Seconds since HTTP app startup."
      ∷ codes "# TYPE callstack_uptime_seconds gauge"
      ∷ (codes "callstack_uptime_seconds " ++ uptime)
      ∷ codes "# HELP callstack_sms_received_total Total completed inbound SMS messages."
      ∷ codes "# TYPE callstack_sms_received_total counter"
      ∷ gauge (codes "callstack_sms_received_total") m.sms_received_total
      ∷ codes
          "# HELP callstack_sms_sent_total Total outbound SMS messages accepted by the modem service."
      ∷ codes "# TYPE callstack_sms_sent_total counter"
      ∷ gauge (codes "callstack_sms_sent_total") m.sms_sent_total
      ∷ codes
          "# HELP callstack_sms_delivery_reports_total Total SMS delivery reports by sanitized status."
      ∷ codes "# TYPE callstack_sms_delivery_reports_total counter"
      ∷ [])
    ++ (report_lines (sort_counts m.delivery_reports_total)
        ++ ((codes "# HELP callstack_active_calls Current active/ringing/held/dialing call count."
              ∷ codes "# TYPE callstack_active_calls gauge"
              ∷ gauge (codes "callstack_active_calls") m.active_calls
              ∷ [])
            ++ (optional_gauge
                  (codes "# HELP callstack_signal_rssi Last observed signal RSSI value.")
                  (codes "# TYPE callstack_signal_rssi gauge") (codes "callstack_signal_rssi")
                  m.signal_rssi
                ++ (optional_gauge
                      (codes "# HELP callstack_signal_ber Last observed signal BER value.")
                      (codes "# TYPE callstack_signal_ber gauge") (codes "callstack_signal_ber")
                      m.signal_ber
                    ++ (codes
                          "# HELP callstack_modem_disconnects_total Total modem disconnect events."
                        ∷ codes "# TYPE callstack_modem_disconnects_total counter"
                        ∷ gauge (codes "callstack_modem_disconnects_total")
                            m.modem_disconnects_total
                        ∷ codes
                            "# HELP callstack_modem_reconnects_total Total modem reconnect events."
                        ∷ codes "# TYPE callstack_modem_reconnects_total counter"
                        ∷ gauge (codes "callstack_modem_reconnects_total") m.modem_reconnects_total
                        ∷ codes "# HELP callstack_ussd_responses_total Total USSD response events."
                        ∷ codes "# TYPE callstack_ussd_responses_total counter"
                        ∷ gauge (codes "callstack_ussd_responses_total") m.ussd_responses_total
                        ∷ []
                        ∷ [])))))

unfoldable pub render_prometheus : Text → CallstackMetrics → Text
render_prometheus uptime m = join_lines (render_lines uptime m)

-- `health_status`, by what `modem_connected` finds.
unfoldable pub health_status : Bool → ℕ
health_status connected = if connected then 200 else 503

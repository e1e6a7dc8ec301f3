-- ===== src/Sms/Service/Incoming.antt =====
-- The handlers of callstack/sms/service.py for what the modem reports: `_on_incoming` and
-- `_handle_delivery_report`.
use callstack.Prelude.{
  ℕ, Bool, true, false, ◌&&◌, List, [], ◌∷◌, Option, none, some, Text, codes, text_eq, starts_with,
  ◌==◌, if◌then◌else◌,
}
use callstack.Modem.{Answer, data_lines}
use callstack.Protocol.Commands.{is_empty, ℤ, pos, read_sms}
use callstack.Protocol.Parser.{parse_cmti, parse_cmt}
use callstack.Sms.Types.{Sms, DeliveryReport}
use callstack.Sms.Database.{Fault}
use callstack.Sms.Store.{save, returned, raised}
use callstack.Sms.Store.Reports.{save_delivery_report}
use callstack.Sms.Service.{
  incoming, reported, Slot, get_slot, put_slot, pop_slot, Fingerprint, Service, Outcome, finished,
  other_error, emit, new_sms, ask, delete_slot, read_message,
}
use callstack.Sms.Service.Replies.{StatusReport, parse_cmgr_status_report}

-- `_cmti_sms_fingerprint`
abbrev pub fingerprint : Sms → Fingerprint
fingerprint m = record { sender = m.sender; body = m.body; time = m.timestamp }

abbrev pub same_time : Option ℕ → Option ℕ → Bool
same_time none none = true
same_time (some a) (some b) = a == b
same_time _ _ = false

abbrev pub same_print : Fingerprint → Fingerprint → Bool
same_print p q = text_eq p.sender q.sender && text_eq p.body q.body && same_time p.time q.time

-- `self._accepted_uncleared_cmti_slots.get(slot_key) == fingerprint`
unfoldable pub already_accepted : Slot → Fingerprint → Service → Bool
already_accepted k p s = elim (get_slot k s.slots) [ none ↦ false | some q ↦ same_print q p ]

abbrev pub Done : Type 0
Done = Outcome (Unit {0})

-- The slot of an accepted message, cleared once more.
unfoldable pub retry_slot : Bool → Slot → Service → Service
retry_slot deleted k s = if deleted then record s { slots = pop_slot k s.slots } else s

-- Behind the save: the slot is cleared or kept in mind, and the event is emitted.
unfoldable pub accept : Bool → Slot → Sms → Service × Bool → Service × Done
accept deleted k m (s, true) = (
  emit (incoming m.sender m.body) (record s {
    slots = if deleted then pop_slot k s.slots else put_slot k (fingerprint m) s.slots;
  }),
  finished tt,
)
accept deleted k m (s, false) = (s, other_error)

-- `await self._store.save(sms)`, and whether it returns.
unfoldable pub keep_sms : Fault → Sms → Service → Service × Bool
keep_sms f m s =
    let r = save f m s.store in
    (record s { store = r.0 }, elim r.1 [ returned n ↦ true | raised e ↦ false ])

-- A message that was read from its slot.
unfoldable pub on_read : Bool → Fault → Slot → Sms → Service → Service × Done
on_read deleted f k m s =
    if already_accepted k (fingerprint m) s
    then (retry_slot deleted k s, finished tt)
    else accept deleted k m (keep_sms f (record m { status = codes "unread" }) s)

-- What was read from the slot, if the read did not raise.
unfoldable pub on_answer : Bool → Fault → Slot → Outcome (Option Sms) → Service → Service × Done
on_answer deleted f k (finished none) s = (s, finished tt)
on_answer deleted f k (finished (some m)) s = on_read deleted f k m s
on_answer deleted f k _ s = (s, other_error)

-- `event.sender or ATResponseParser.parse_cmt(raw) or "unknown"`
abbrev pub or_unknown : Option Text → Text
or_unknown none = codes "unknown"
or_unknown (some t) = if is_empty t then codes "unknown" else t

abbrev pub sender_of : Text → Text → Text
sender_of sender raw = if is_empty sender then or_unknown (parse_cmt raw) else sender

-- Direct delivery: the event is emitted whether the message is saved or not.
unfoldable pub on_direct : Fault → ℕ → Text → Text → Service → Service × Done
on_direct f now sender body s = (
  emit (incoming sender body) (keep_sms f (new_sms sender [] body (codes "unread") 0 now) s).0,
  finished tt,
)

module _ (parse_timestamp : Text → Option ℕ) where
  -- A notification: the message is read from its slot, saved, deleted there and emitted.
  unfoldable pub on_notification : (Text → Answer) → Fault → Slot → Service → Service × Done
  on_notification execute f k s =
      on_answer (delete_slot execute k.1) f k (read_message parse_timestamp execute k.1) s

  -- `_on_incoming`
  unfoldable pub on_incoming :
      (Text → Answer) → Fault → ℕ → Text → Text → Text → Service → Service × Done
  on_incoming execute f now raw sender body s =
      if starts_with (codes "+CMTI:") raw
      then elim (parse_cmti raw) [
        | none ↦ (s, finished tt)
        | some k ↦ on_notification execute f k s
      ]
      else if starts_with (codes "+CMT:") raw
      then on_direct f now (sender_of sender raw) body s
      else (s, finished tt)

abbrev pub same_report : StatusReport → StatusReport → Bool
same_report p q =
    (p.reference == q.reference) && text_eq p.recipient q.recipient && text_eq p.status q.status

unfoldable pub report_accepted : Slot → StatusReport → Service → Bool
report_accepted k p s = elim (get_slot k s.report_slots) [ none ↦ false | some q ↦ same_report q p ]

-- `self._store.save_delivery_report`, and whether it returns.
unfoldable pub keep_report : Fault → ℕ → StatusReport → Service → Service × Bool
keep_report f now p s =
    let report : DeliveryReport = record {
      reference = p.reference;
      recipient = p.recipient;
      status = p.status;
      timestamp = none;
      discharge_time = none;
      id = none;
      message_id = none;
    } in
    let r = save_delivery_report f now report s.store in
    (record s { store = r.0 }, elim r.1 [ returned n ↦ true | raised e ↦ false ])

unfoldable pub accept_report : Bool → Slot → StatusReport → Service × Bool → Service
accept_report deleted k p (s, true) = emit (reported p.reference p.recipient p.status) (record s {
  report_slots = if deleted then pop_slot k s.report_slots else put_slot k p s.report_slots;
})
accept_report deleted k p (s, false) = s

unfoldable pub on_report : Bool → Fault → ℕ → Slot → StatusReport → Service → Service
on_report deleted f now k p s =
    if report_accepted k p s
    then (if deleted then record s { report_slots = pop_slot k s.report_slots } else s)
    else accept_report deleted k p (keep_report f now p s)

module _ (csv_fields : Text → Option (List Text)) (reference_number : Text → Option ℕ)
    (int : Text → Option ℤ) where
  -- The last report among the lines; one without a status counts as none.
  unfoldable pub last_report : Option StatusReport → List Text → Option StatusReport
  last_report found [] = found
  last_report found (line ∷ lines) =
      elim (parse_cmgr_status_report csv_fields reference_number int line) [
        | none ↦ last_report found lines
        | some report ↦ last_report (some report) lines
      ]

  -- `_handle_delivery_report`
  unfoldable pub handle_delivery_report :
      (Text → Answer) → Fault → ℕ → Slot → Service → Service × Done
  handle_delivery_report execute f now k s = elim (ask execute (read_sms (pos k.1))) [
    | none ↦ (s, other_error)
    | some (success, lines) ↦
        if success
        then elim (last_report none (data_lines lines)) [
          | none ↦ (s, finished tt)
          | some p ↦ (on_report (delete_slot execute k.1) f now k p s, finished tt)
        ]
        else (s, finished tt)
  ]

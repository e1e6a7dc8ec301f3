-- ===== src/Sms/Store/Reports.antt =====
-- The delivery reports of callstack/sms/store.py: `save_delivery_report` and the message that a
-- report is about.
use callstack.Prelude.{
  ℕ, suc, Bool, true, false, not, ◌&&◌, ◌||◌, List, [], ◌∷◌, ◌++◌, Option, none, some, Text,
  text_eq, ◌==◌, if◌then◌else◌,
}
use callstack.Sms.Types.{Sms, DeliveryReport}
use callstack.Sms.Rows.{is_key, find, put}
use callstack.Sms.Database.{
  Fault, Statement, update_message, insert_report, update_report, execute, transact,
}
use callstack.Sms.Store.{
  Pending, pending_key, Store, database_error, Result, returned, raised, was_assigned, is_none,
}

abbrev pub is_blank : Text → Bool
is_blank [] = true
is_blank (c ∷ t) = false

abbrev pub reverse : {A : Type 0} → List A → List A
reverse [] = []
reverse (x ∷ xs) = reverse xs ++ (x ∷ [])

-- A stored outbound message of the report's reference and recipient.
unfoldable pub matches : DeliveryReport → Sms → Bool
matches r m =
    not (is_none m.id)
    && not (is_blank m.recipient)
    && (m.reference == r.reference)
    && text_eq m.recipient r.recipient

abbrev pub first_match : DeliveryReport → List Sms → Option Sms
first_match r [] = none
first_match r (m ∷ ms) = if matches r m then some m else first_match r ms

-- `_latest_matching_message`
unfoldable pub latest_matching_message : DeliveryReport → List Sms → Option Sms
latest_matching_message r ms = if is_blank r.recipient then none else first_match r (reverse ms)

-- `report.id`, `report.timestamp` and `report.message_id` of a report that is saved at the time.
abbrev pub number_report : DeliveryReport → Store → Option ℕ → Store × (ℕ × DeliveryReport)
number_report r s (some i) = (s, (i, r))
number_report r s none = (
  record s { next_report_id = suc s.next_report_id },
  (s.next_report_id, record r { id = some s.next_report_id }),
)

unfoldable pub assign_report_id : DeliveryReport → Store → Store × (ℕ × DeliveryReport)
assign_report_id r s = number_report r s r.id

abbrev pub stamp : ℕ → DeliveryReport → DeliveryReport
stamp now r = elim r.timestamp [ some t ↦ r | none ↦ record r { timestamp = some now } ]

abbrev pub link : Option Sms → DeliveryReport → DeliveryReport
link none r = r
link (some m) r = record r { message_id = m.id }

-- `matched.status = report.status`: the object is in the list and may be among the pending ones.
abbrev pub with_status : ℕ → Text → List Sms → List Sms
with_status i status [] = []
with_status i status (m ∷ ms) =
    (if is_key m.id i then record m { status = status } else m) ∷ with_status i status ms

abbrev pub pending_status : ℕ → Text → List (Pending Sms) → List (Pending Sms)
pending_status i status [] = []
pending_status i status (p ∷ ps) =
    (if is_key p.value.id i then record p { value = record p.value { status = status } } else p)
    ∷ pending_status i status ps

abbrev pub update_status : Option ℕ → Text → Store → Store
update_status none status s = s
update_status (some i) status s = record s {
  messages = with_status i status s.messages;
  pending_saves = pending_status i status s.pending_saves;
}

abbrev pub update_matched : Option Sms → Text → Store → Store
update_matched none status s = s
update_matched (some m) status s = update_status m.id status s

-- The row of the report and the row of its message.
abbrev pub matched_statement : Option Sms → Text → List Statement
matched_statement none status = []
matched_statement (some m) status = elim m.id [
  | none ↦ []
  | some i ↦ update_message i (record m { status = status }) ∷ []
]

unfoldable pub report_statements : ℕ → DeliveryReport → Option Sms → Store → List Statement
report_statements i r matched s =
    elim (find DeliveryReport.id i s.delivery_reports) [
      | some old ↦ update_report i r
      | none ↦ insert_report i r
    ]
    ∷ matched_statement matched r.status

-- The statements, and the commit where it is asked for.
unfoldable pub run_statements : Fault → Bool → List Statement → Store → Store × Bool
run_statements f commits ss s =
    let r = if commits then transact f ss s.database else execute f ss s.database in
    (record s { database = r.0 }, r.1)

-- `self._pending_delivery_reports[report.id] = (report, pending_auto_assigned)`
unfoldable pub note_report : Bool → ℕ → DeliveryReport → Store → Store
note_report assigned i r s =
    let p : Pending DeliveryReport = record {
      key = i;
      value = r;
      auto_assigned = assigned || was_assigned i s.pending_reports;
    } in
    record s { pending_reports = put pending_key i p s.pending_reports }

unfoldable pub write_report :
    Fault → Bool → Bool → ℕ → DeliveryReport → Option Sms → Store → Store × Bool
write_report f commits assigned i r matched s =
    if s.connected
    then run_statements f commits (report_statements i r matched s) s
    else (if s.has_path then note_report assigned i r s else s, true)

-- The end of `_save_delivery_report_locked`, behind the write to SQLite.
unfoldable pub finish_report :
    ℕ → DeliveryReport → Option Sms → Store × Bool → Store × Result DeliveryReport
finish_report i r matched (s, ok) =
    if ok
    then (
      record (update_matched matched r.status s) {
        delivery_reports = put DeliveryReport.id i r s.delivery_reports;
      },
      returned r,
    )
    else (s, raised database_error)

-- `_save_delivery_report_locked`
unfoldable pub save_report_locked :
    Fault → Bool → ℕ → DeliveryReport → Store → Store × Result DeliveryReport
save_report_locked f commits now r s =
    let (t, (i, q)) = assign_report_id r s in
    let matched = latest_matching_message q t.messages in
    let report = link matched (stamp now q) in
    finish_report i report matched (write_report f commits (is_none r.id) i report matched t)

-- `save_delivery_report`
unfoldable pub save_delivery_report :
    Fault → ℕ → DeliveryReport → Store → Store × Result DeliveryReport
save_delivery_report f now r s = save_report_locked f true now r s

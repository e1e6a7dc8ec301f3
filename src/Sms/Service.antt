-- ===== src/Sms/Service.antt =====
-- `SMSService` of callstack/sms/service.py over the store and the bus: sending, and the handlers of
-- incoming messages and delivery reports. What the modem answers and what goes wrong in the database
-- are arguments of each operation. Payload.antt and Replies.antt have what is written and read.
pub mod Payload
pub mod Replies
pub mod Incoming
pub mod Announced
pub mod Stored
pub mod Received
pub mod Listing
use callstack.Prelude.{
  ℕ, Bool, true, false, ◌&&◌, ◌||◌, List, [], ◌∷◌, ◌++◌, Option, none, some, Text, Bytes, codes,
  text_eq, starts_with, ◌==◌, if◌then◌else◌,
}
use callstack.Modem.{Answer, responded, failed, send_each}
use callstack.Protocol.Commands.{is_empty, ℤ, pos, read_sms, delete_sms, list_sms, send_sms}
use callstack.Protocol.Parser.{parse_cmti, parse_cmt, parse_cmgs}
use callstack.Sms.Types.{Sms, DeliveryReport}
use callstack.Sms.Database.{Fault}
use callstack.Sms.Store.Open
use callstack.Sms.Store.{Surroundings, Store, save, returned, raised}
use callstack.Sms.Store.Reports.{save_delivery_report}
use callstack.Sms.Service.Payload.{payload}
use callstack.Sms.Service.Replies.{
  parse_single_message, parse_message_list, StatusReport, parse_cmgr_status_report,
}

-- `IncomingSMSEvent`, `SMSSentEvent` and `SMSDeliveryReportEvent`
pub data Event : Type 0 where
  incoming : Text → Text → Event
  sent : Text → ℕ → Event
  reported : ℕ → Text → Text → Event

-- A storage and an index in it.
abbrev pub Slot : Type 0
Slot = Text × ℕ

abbrev pub same_slot : Slot → Slot → Bool
same_slot (a, i) (b, j) = text_eq a b && (i == j)

module _ {A : Type 0} where
  abbrev pub get_slot : Slot → List (Slot × A) → Option A
  get_slot k [] = none
  get_slot k ((l, a) ∷ ps) = if same_slot l k then some a else get_slot k ps

  abbrev pub put_slot : Slot → A → List (Slot × A) → List (Slot × A)
  put_slot k a [] = (k, a) ∷ []
  put_slot k a ((l, b) ∷ ps) = if same_slot l k then (l, a) ∷ ps else (l, b) ∷ put_slot k a ps

  abbrev pub pop_slot : Slot → List (Slot × A) → List (Slot × A)
  pop_slot k [] = []
  pop_slot k ((l, b) ∷ ps) = if same_slot l k then ps else (l, b) ∷ pop_slot k ps

-- The sender, the body and the time of a message.
pub record Fingerprint : Type 0 where
  pub sender : Text
  pub body : Text
  pub time : Option ℕ

-- The two dictionaries of accepted slots, the store, and what was emitted, the last event last.
pub record Service : Type 0 where
  pub store : Store
  pub slots : List (Slot × Fingerprint)
  pub report_slots : List (Slot × StatusReport)
  pub emitted : List Event

pub data Outcome (A : Type 0) : Type 0 where
  finished : A → Outcome A
  send_error other_error : Outcome A
  persistence_error : ℕ → Text → Outcome A

unfoldable pub emit : Event → Service → Service
emit e s = record s { emitted = s.emitted ++ (e ∷ []) }

-- `initialize`: the store, and then the commands up to one that raises; and whether all went well.
unfoldable pub initialize :
    (Text → Answer) → Surroundings → Bool → ℕ → Service → Service × (List Text × Bool)
initialize execute w opens now s =
    let r = Open.initialize w opens now s.store in
    (
      record s { store = r.0 },
      elim r.1 [
        | raised e ↦ ([], false)
        | returned u ↦ send_each execute (
            codes "AT+CMGF=1"
            ∷ codes "AT+CSCS=\"GSM\""
            ∷ codes "AT+CNMI=2,1,0,1,0"
            ∷ codes "AT+CSMP=49,167,0,0"
            ∷ [])
      ],
    )

-- `_FilteredStream.__anext__`: the first message of the sender, and the events behind it.
unfoldable pub next_message : Option Text → List Event → Option (Text × (Text × List Event))
next_message filter [] = none
next_message filter (incoming sender body ∷ events) =
    let rest = next_message filter events in
    if elim filter [ none ↦ true | some wanted ↦ text_eq sender wanted ]
    then some (sender, (body, events))
    else rest
next_message filter (e ∷ events) = next_message filter events

-- The first reference among the lines.
unfoldable pub first_reference : List Text → Option ℕ
first_reference [] = none
first_reference (line ∷ lines) = elim (parse_cmgs line) [
  | some reference ↦ some reference
  | none ↦ first_reference lines
]

abbrev pub new_sms : Text → Text → Text → Text → ℕ → ℕ → Sms
new_sms sender recipient body status reference now = record {
  sender = sender;
  recipient = recipient;
  body = body;
  timestamp = some now;
  status = status;
  reference = reference;
  id = none;
  storage_index = none;
}

-- The end of `send`, with the reference of a message that the modem has accepted.
unfoldable pub accepted : Fault → ℕ → Text → Text → ℕ → Service → Service × Outcome Sms
accepted f now to body reference s =
    let r = save f (new_sms [] to body (codes "sent") reference now) s.store in
    (
      emit (sent to reference) (record s { store = r.0 }),
      elim r.1 [ returned m ↦ finished m | raised e ↦ persistence_error reference to ],
    )

unfoldable pub submitted : Fault → ℕ → Text → Text → Answer → Service → Service × Outcome Sms
submitted f now to body failed s = (s, other_error)
submitted f now to body (responded success lines) s =
    if success
    then elim (first_reference lines) [
      | none ↦ (s, send_error)
      | some reference ↦ accepted f now to body reference s
    ]
    else (s, send_error)

-- Behind the prompt the octets are sent.
unfoldable pub prompted :
    (Bytes → Answer) → Fault → ℕ → Text → Text → Bytes → Answer → Service → Service × Outcome Sms
prompted send_data f now to body octets failed s = (s, other_error)
prompted send_data f now to body octets (responded success lines) s =
    if success then submitted f now to body (send_data octets) s else (s, send_error)

-- `send`, with the modem's answer to the command and to the octets that follow the prompt.
unfoldable pub send :
    (Text → Answer) → (Bytes → Answer) → Fault → ℕ → Text → Text → Service → Service × Outcome Sms
send execute send_data f now to body s = elim (payload body) [
  | none ↦ (s, send_error)
  | some octets ↦ elim (send_sms to) [
    | none ↦ (s, other_error)
    | some command ↦ prompted send_data f now to body octets (execute command) s
  ]
]

-- Of a command that may be refused, the success and the lines, or `none` for an error.
abbrev pub ask : (Text → Answer) → Option Text → Option (Bool × List Text)
ask execute none = none
ask execute (some command) = elim (execute command) [
  | failed ↦ none
  | responded success lines ↦ some (success, lines)
]

-- `delete_message`, `_delete_accepted_cmti_slot` and `_delete_delivery_report_slot`
unfoldable pub delete_message : (Text → Answer) → ℕ → Outcome Bool
delete_message execute index = elim (ask execute (delete_sms (pos index))) [
  | none ↦ other_error
  | some r ↦ finished r.0
]

unfoldable pub delete_slot : (Text → Answer) → ℕ → Bool
delete_slot execute index = elim (delete_message execute index) [
  | finished deleted ↦ deleted
  | _ ↦ false
]

unfoldable pub delete_all : (Text → Answer) → Outcome Bool
delete_all execute = elim (ask execute (some (codes "AT+CMGD=1,4"))) [
  | none ↦ other_error
  | some r ↦ finished r.0
]

module _ (parse_timestamp : Text → Option ℕ) where
  -- `read_message`
  unfoldable pub read_message : (Text → Answer) → ℕ → Outcome (Option Sms)
  read_message execute index = elim (ask execute (read_sms (pos index))) [
    | none ↦ other_error
    | some r ↦ finished (if r.0 then parse_single_message parse_timestamp r.1 index else none)
  ]

  -- `list_messages`
  unfoldable pub list_messages : (Text → Answer) → Text → Outcome (List Sms)
  list_messages execute status = elim (ask execute (list_sms status)) [
    | none ↦ other_error
    | some r ↦ finished (if r.0 then parse_message_list parse_timestamp r.1 else [])
  ]

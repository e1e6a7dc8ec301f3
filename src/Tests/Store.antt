-- ===== src/Tests/Store.antt =====
-- The store of callstack/sms/store.py, connected, closed and opened again.
use callstack.Prelude.{◌≡◌, refl, true, false, [], ◌∷◌, none, some, codes, text_eq}
use callstack.Sms.Types.{Sms, DeliveryReport}
use callstack.Sms.Rows.{find, IsKeyed}
use callstack.Sms.Database.{
  insert_message, update_message, Database, nothing, at_commit, at_statement, insert_report,
  update_report, transact, execute, commit, rollback,
}
use callstack.Sms.Store.{
  assign_id, finish_save, write_message, on_connection, write_statement, Store, Surroundings, get,
  save, clear, close,
}
use callstack.Sms.Store.Reports.{
  save_delivery_report, save_report_locked, finish_report, write_report, assign_report_id,
  latest_matching_message, note_report, matches, run_statements, report_statements,
}
use callstack.Sms.Store.Open.{
  opening, open_messages, initialize, open_reports, merged, load, resolve_report, renumber_report,
}
use callstack.Sms.Store.Kept.{IsSaved, save-IsSaved}
use callstack.Sms.Store.Mirrored.{IsMirrored, save-IsMirrored}
use callstack.Sms.Store.Reopened.{IsClosed, IsArrived, open_messages-row, open_messages-pending}
use callstack.Sms.Store.Restart.{initialize-close}
use callstack.Sms.Store.Faults.{IsCleared, clear-IsCleared, save-uncommitted}
use callstack.Sms.Store.Matched.{IsReported, save_delivery_report-IsReported}

abbrev alice : Sms
alice = record {
  sender = [];
  recipient = codes "+15551234";
  body = codes "hello";
  timestamp = some 100;
  status = codes "sent";
  reference = 7;
  id = some 1;
  storage_index = none;
}

-- A message that is not stored yet.
abbrev draft : Sms
draft = record alice { body = codes "again"; id = none }

abbrev receipt : DeliveryReport
receipt = record {
  reference = 7;
  recipient = codes "+15551234";
  status = codes "delivered";
  timestamp = none;
  discharge_time = none;
  id = none;
  message_id = none;
}

abbrev tables : Database
tables = record {
  messages = alice ∷ [];
  reports = [];
  stored_messages = alice ∷ [];
  stored_reports = [];
}

abbrev pub open_store : Store
open_store = record {
  messages = alice ∷ [];
  delivery_reports = [];
  next_id = 2;
  next_report_id = 1;
  has_path = true;
  connected = true;
  pending_saves = [];
  pending_reports = [];
  database = tables;
}

-- Another message was saved while SQLite was closed, under an id that a row has.
abbrev closed_store : Store
closed_store = record open_store {
  messages = record alice { body = codes "again" } ∷ [];
  connected = false;
  pending_saves =
      record { key = 1; value = record alice { body = codes "again" }; auto_assigned = true } ∷ [];
}

abbrev installed : Surroundings
installed = record { importable = true; exists = true; close_fails = false }

abbrev hard_to_close : Surroundings
hard_to_close = record installed { close_fails = true }

pub alice-IsKeyed : IsKeyed Sms.id (alice ∷ [])
alice-IsKeyed = ((1, refl, refl), tt)

open_store-IsMirrored : IsMirrored open_store
open_store-IsMirrored = record {
  connected = refl;
  keyed = alice-IsKeyed;
  rows = λ i. refl;
  committed = refl;
}

closed_store-IsClosed : IsClosed closed_store
closed_store-IsClosed = record { rows = alice-IsKeyed; pending = ((1, refl, refl), tt) }

save-IsSaved_example : IsSaved draft open_store (save nothing draft open_store)
save-IsSaved_example = save-IsSaved nothing draft open_store alice-IsKeyed

save-IsMirrored_example : IsMirrored (save (at_statement 0) draft open_store).0
save-IsMirrored_example =
    save-IsMirrored (at_statement 0) draft open_store open_store-IsMirrored refl

open_messages-row_example : get 1 (open_messages closed_store) ≡ some alice
open_messages-row_example = open_messages-row 1 alice closed_store closed_store-IsClosed refl refl

open_messages-pending_example :
    IsArrived
      (record { key = 1; value = record alice { body = codes "again" }; auto_assigned = true })
      1
      (alice ∷ [])
      (open_messages closed_store).messages
open_messages-pending_example =
    open_messages-pending 1
      (record { key = 1; value = record alice { body = codes "again" }; auto_assigned = true })
      closed_store closed_store-IsClosed refl

initialize-close_example :
    get 1 (initialize installed true 5 (close open_store)).0 ≡ get 1 open_store
initialize-close_example =
    initialize-close installed 5 1 open_store open_store-IsMirrored alice-IsKeyed refl refl refl
      refl

clear-IsCleared_example : IsCleared true closed_store (clear hard_to_close nothing closed_store)
clear-IsCleared_example = clear-IsCleared hard_to_close nothing closed_store

save_delivery_report-IsReported_example :
    IsReported receipt open_store (save_delivery_report nothing 5 receipt open_store)
save_delivery_report-IsReported_example =
    save_delivery_report-IsReported nothing 5 receipt open_store alice-IsKeyed

save-uncommitted_example :
    (get 2 (save nothing alice (save at_commit draft open_store).0).0 ≡ none)
    × (find Sms.id 2
          (save nothing alice (save at_commit draft open_store).0).0.database.stored_messages
        ≡ some (record draft { id = some 2 }))
unfolding get assign_id
save-uncommitted_example =
    save-uncommitted draft alice 1 open_store open_store-IsMirrored refl refl refl

-- A report that was saved before the first connection keeps its id, and the next one takes the same
-- id and its place.
abbrev reported_early : Store
reported_early =
    (save_delivery_report nothing 5 receipt (record open_store {
      connected = false;
      messages = [];
      database = record tables { messages = []; stored_messages = [] };
    })).0

abbrev reported_late : Store
reported_late =
    (save_delivery_report nothing 9 (record receipt { reference = 8 })
      (initialize installed true 5 reported_early).0).0

reported_late_lost :
    reported_late.delivery_reports
    ≡ record receipt { reference = 8; timestamp = some 9; id = some 1 } ∷ []
unfolding save_delivery_report save_report_locked finish_report write_report assign_report_id
    latest_matching_message note_report matches run_statements report_statements insert_report
    update_report transact execute commit resolve_report renumber_report initialize open_reports
    open_messages merged load rollback text_eq opening
reported_late_lost = refl

-- A message that is saved under an id ahead of the next one is replaced by the next that has none.
abbrev numbered_ahead : Store
numbered_ahead = (save nothing (record alice { id = some 2 }) open_store).0

abbrev replaced : Store
replaced = (save nothing draft numbered_ahead).0

numbered_ahead_lost : replaced.messages ≡ alice ∷ record draft { id = some 2 } ∷ []
unfolding save finish_save write_message assign_id on_connection transact execute write_statement
    insert_message update_message commit
numbered_ahead_lost = refl

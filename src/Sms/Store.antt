-- ===== src/Sms/Store.antt =====
-- `SMSStore` of callstack/sms/store.py: its state, and the operations on it. What goes wrong in the
-- database is an argument of each operation, and so is the clock. The store keeps objects, and the
-- entry of `_pending_saves` under an id is the object of that id in the list: a new status is
-- written to both. A cancellation is not modelled, nor an error of `rollback`; of
-- the errors of `close`, that of the connection which `delete` and `clear` open for themselves is.
pub mod Reports
pub mod Kept
pub mod Mirrored
pub mod Open
pub mod Free
pub mod Merged
pub mod Reopened
pub mod Restart
pub mod Faults
pub mod Reported
pub mod Matched
pub mod Listed
use callstack.Prelude.{
  ℕ, suc, ◌-◌, ◌≡◌, refl, Bool, true, false, not, ◌&&◌, ◌||◌, List, [], ◌∷◌, ◌++◌, Option, none,
  some, Text, text_eq, length, drop, ◌==◌, leb, if◌then◌else◌,
}
use callstack.Sms.Types.{Sms, DeliveryReport}
use callstack.Sms.Rows.{is_key, find, put, pop}
use callstack.Sms.Database.{
  Database, Fault, Statement, insert_message, update_message, delete_message, insert_report,
  update_report, delete_messages, delete_reports, prepare, execute, transact, rollback,
}

-- An entry of `_pending_saves` and of `_pending_delivery_reports`.
pub record Pending (A : Type 0) : Type 0 where
  pub key : ℕ
  pub value : A
  pub auto_assigned : Bool

abbrev pub pending_key : {A : Type 0} → Pending A → Option ℕ
pending_key p = some p.key

pub record Store : Type 0 where
  pub messages : List Sms
  pub delivery_reports : List DeliveryReport
  pub next_id : ℕ
  pub next_report_id : ℕ
  pub has_path : Bool
  pub connected : Bool
  pub pending_saves : List (Pending Sms)
  pub pending_reports : List (Pending DeliveryReport)
  pub database : Database

-- Whether `aiosqlite` can be imported, whether the file of the database is there, and whether closing
-- a connection that was opened for one operation fails.
pub record Surroundings : Type 0 where
  pub importable : Bool
  pub exists : Bool
  pub close_fails : Bool

pub data Error : Type 0 where
  database_error runtime_error value_error : Error

pub data Result (A : Type 0) : Type 0 where
  returned : A → Result A
  raised : Error → Result A

-- `previous[1] if previous else False`
abbrev pub was_assigned : {A : Type 0} → ℕ → List (Pending A) → Bool
was_assigned i ps = elim (find pending_key i ps) [ none ↦ false | some p ↦ p.auto_assigned ]

abbrev pub is_none : Option ℕ → Bool
is_none none = true
is_none (some i) = false

-- The new id of a message that has none.
unfoldable pub assign_id : Sms → Store → Store × (ℕ × Sms)
assign_id m s = elim m.id [
  | some i ↦ (s, (i, m))
  | none ↦ (record s { next_id = suc s.next_id }, (s.next_id, record m { id = some s.next_id }))
]

-- `UPDATE` where the list has the id, `INSERT` where it has not.
unfoldable pub write_statement : ℕ → Sms → Store → Statement
write_statement i m s = elim (find Sms.id i s.messages) [
  | some old ↦ update_message i m
  | none ↦ insert_message i m
]

-- The statements in a transaction of the store's connection, and whether they and the commit went
-- well; and those in a transaction of a connection for just them, which is closed again.
unfoldable pub on_connection : Fault → List Statement → Store → Store × Bool
on_connection f ss s = let r = transact f ss s.database in (record s { database = r.0 }, r.1)

unfoldable pub on_own_connection : Fault → List Statement → Store → Store × Bool
on_own_connection f ss s =
    let r = transact f ss (rollback s.database) in (record s { database = rollback r.0 }, r.1)

-- `self._pending_saves[sms.id] = (sms, pending_auto_assigned)`
unfoldable pub note_pending : Bool → ℕ → Sms → Store → Store
note_pending assigned i m s =
    let p : Pending Sms = record {
      key = i;
      value = m;
      auto_assigned = assigned || was_assigned i s.pending_saves;
    } in
    record s { pending_saves = put pending_key i p s.pending_saves }

-- The write to SQLite, or the note to write it later; and whether it went well.
unfoldable pub write_message : Fault → Bool → ℕ → Sms → Store → Store × Bool
write_message f assigned i m s =
    if s.connected
    then on_connection f (write_statement i m s ∷ []) s
    else (if s.has_path then note_pending assigned i m s else s, true)

-- The end of `save`, behind the write to SQLite.
unfoldable pub finish_save : ℕ → Sms → Store × Bool → Store × Result Sms
finish_save i m (s, ok) =
    if ok
    then (record s { messages = put Sms.id i m s.messages }, returned m)
    else (s, raised database_error)

-- `save`
unfoldable pub save : Fault → Sms → Store → Store × Result Sms
save f m s =
    let (t, (i, n)) = assign_id m s in finish_save i n (write_message f (is_none m.id) i n t)

unfoldable pub get : ℕ → Store → Option Sms
get i s = find Sms.id i s.messages

abbrev pub keep : {A : Type 0} → (A → Bool) → List A → List A
keep p [] = []
keep p (x ∷ xs) = if p x then x ∷ keep p xs else keep p xs

-- `if sender: results = [m for m in results if m.sender == sender]`
unfoldable pub keep_equal : Option Text → (Sms → Text) → List Sms → List Sms
keep_equal none field ms = ms
keep_equal (some []) field ms = ms
keep_equal (some (c ∷ t)) field ms = keep (λ m. text_eq (field m) (c ∷ t)) ms

-- `results[-limit:]`
unfoldable pub last_items : {A : Type 0} → ℕ → List A → List A
last_items n xs = drop (length xs - n) xs

-- `list`, with `_validate_list_limit`
unfoldable pub list_messages :
    Option Text → Option Text → Option Text → ℕ → Store → Result (List Sms)
list_messages sender recipient status limit s =
    if limit == 0
    then raised value_error
    else returned (
        last_items limit (
          keep_equal status Sms.status
            (keep_equal recipient Sms.recipient (keep_equal sender Sms.sender s.messages))))

-- `list_delivery_reports`
unfoldable pub list_delivery_reports : ℕ → Store → Result (List DeliveryReport)
list_delivery_reports limit s =
    if limit == 0 then raised value_error else returned (last_items limit s.delivery_reports)

unfoldable pub count : Store → ℕ
count s = length s.messages

-- The end of `delete`, behind the durable deletion.
unfoldable pub drop_message : ℕ → Store × Bool → Store × Result Bool
drop_message i (s, ok) =
    if ok
    then (
      record s {
        messages = pop Sms.id i s.messages;
        pending_saves = pop pending_key i s.pending_saves;
      },
      returned true,
    )
    else (s, raised database_error)

-- `delete`
unfoldable pub delete : Surroundings → Fault → ℕ → Store → Store × Result Bool
delete w f i s = elim (find Sms.id i s.messages) [
  | none ↦ (s, returned false)
  | some m ↦
      if s.connected
      then drop_message i (on_connection f (delete_message i ∷ []) s)
      else if s.has_path && w.exists && not (was_assigned i s.pending_saves)
      then if w.importable
        then (let r = on_own_connection f (prepare ∷ prepare ∷ delete_message i ∷ []) s in
            drop_message i (r.0, r.1 && not w.close_fails))
        else (s, returned false)
      else drop_message i (s, true)
]

-- The four collections of the memory, emptied.
unfoldable pub erased : Store → Store
erased s = record s {
  messages = [];
  delivery_reports = [];
  pending_saves = [];
  pending_reports = [];
}

-- The end of `clear`, behind the durable deletion: the memory is emptied before the connection of its
-- own is closed, which may fail.
unfoldable pub finish_clear : Bool → Store × Bool → Store × Result (Unit {0})
finish_clear close_fails (s, ok) =
    if ok
    then (erased s, if close_fails then raised database_error else returned tt)
    else (record s { database = rollback s.database }, raised database_error)

-- `clear`
unfoldable pub clear : Surroundings → Fault → Store → Store × Result (Unit {0})
clear w f s =
    if s.connected
    then finish_clear false (on_connection f (delete_messages ∷ delete_reports ∷ []) s)
    else if s.has_path
    then if w.importable
      then finish_clear w.close_fails (
          on_own_connection f (prepare ∷ prepare ∷ prepare ∷ delete_messages ∷ delete_reports ∷ [])
            s)
      else (s, raised runtime_error)
    else (erased s, returned tt)

-- `close`
unfoldable pub close : Store → Store
close s = if s.connected then record s { connected = false; database = rollback s.database } else s

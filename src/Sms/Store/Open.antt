-- ===== src/Sms/Store/Open.antt =====
-- `initialize` of callstack/sms/store.py: the rows that are loaded, what was saved while SQLite was
-- closed, and the ids that decide between them. The database may fail before the rows are loaded; an
-- error behind that is not modelled.
use callstack.Prelude.{
  ℕ, zero, suc, ◌+◌, Bool, true, false, not, ◌&&◌, ◌||◌, List, [], ◌∷◌, ◌++◌, Option, none, some,
  any, length, leb, ◌==◌, if◌then◌else◌,
}
use callstack.Sms.Types.{Sms, DeliveryReport}
use callstack.Sms.Rows.{is_key, put}
use callstack.Sms.Database.{
  rollback, nothing, Statement, insert_message, update_message, transact, commit,
}
use callstack.Sms.Store.{Pending, Store, Surroundings, database_error, Result, returned, raised}
use callstack.Sms.Store.Reports.{save_report_locked}

-- `sms.id or 0`
abbrev pub or_zero : Option ℕ → ℕ
or_zero none = 0
or_zero (some i) = i

-- A stable sort by the id: `ORDER BY id`, and `loaded_messages.sort(key=lambda sms: sms.id or 0)`.
abbrev pub insert_by : {A : Type 0} → (A → Option ℕ) → A → List A → List A
insert_by key x [] = x ∷ []
insert_by key x (y ∷ ys) =
    if leb (or_zero (key x)) (or_zero (key y)) then x ∷ y ∷ ys else y ∷ insert_by key x ys

abbrev pub sort_by : {A : Type 0} → (A → Option ℕ) → List A → List A
sort_by key [] = []
sort_by key (x ∷ xs) = insert_by key x (sort_by key xs)

-- The next id behind the rows that were loaded: `if row[0] >= next_id: next_id = row[0] + 1`.
abbrev pub past : ℕ → Option ℕ → ℕ
past next none = next
past next (some i) = if leb next i then suc i else next

abbrev pub next_past : {A : Type 0} → (A → Option ℕ) → ℕ → List A → ℕ
next_past key next [] = next
next_past key next (x ∷ xs) = next_past key (past next (key x)) xs

-- What is merged so far: the messages, the next id, and the ids that pending messages keep.
pub record Merge : Type 0 where
  pub loaded : List Sms
  pub next_id : ℕ
  pub reserved : List ℕ
  pub written : List Statement

-- `sms.id in loaded_ids`
abbrev pub has_id : {A : Type 0} → (A → Option ℕ) → ℕ → List A → Bool
has_id key i xs = any (λ x. is_key (key x) i) xs

abbrev pub is_in : ℕ → List ℕ → Bool
is_in i js = any (λ j. j == i) js

-- `while next_id in loaded_ids or next_id in reserved_pending_ids: next_id += 1`
abbrev pub next_free : {A : Type 0} → (A → Option ℕ) → ℕ → ℕ → List A → List ℕ → ℕ
next_free key zero next loaded reserved = next
next_free key (suc fuel) next loaded reserved =
    if has_id key next loaded || is_in next reserved
    then next_free key fuel (suc next) loaded reserved
    else next

-- As many steps as there are ids to step over.
abbrev pub steps : {A : Type 0} → List A → List ℕ → ℕ
steps loaded reserved = length loaded + length reserved

-- `reserved_pending_ids.discard`
abbrev pub discard : ℕ → List ℕ → List ℕ
discard i [] = []
discard i (j ∷ js) = if j == i then discard i js else j ∷ discard i js

-- `if sms.id is None: sms.id = next_id; next_id += 1`
abbrev pub own_id : Pending Sms → Merge → Merge × ℕ
own_id p g = elim p.value.id [
  | some i ↦ (g, i)
  | none ↦ (record g { next_id = suc g.next_id }, g.next_id)
]

-- A new id, behind the rows and beside those that pending messages keep.
unfoldable pub free_id : ℕ → Merge → ℕ
free_id own g =
    next_free Sms.id (steps g.loaded (discard own g.reserved)) g.next_id g.loaded
      (discard own g.reserved)

unfoldable pub renumber : ℕ → Merge → Merge × ℕ
renumber own g =
    let free = free_id own g in
    (record g { next_id = suc free; reserved = free ∷ discard own g.reserved }, free)

-- The id of a pending message: its own, or a new one where a row has it and it was only assigned.
unfoldable pub resolve : Pending Sms → Merge → Merge × ℕ
resolve p g =
    let (h, own) = own_id p g in
    if has_id Sms.id own h.loaded && p.auto_assigned then renumber own h else (h, own)

-- Over the loaded message of the id, or behind the others.
unfoldable pub settle : Sms → Merge × ℕ → Merge
settle m (g, i) = record g {
  loaded = put Sms.id i (record m { id = some i }) g.loaded;
  next_id = past g.next_id (some i);
  written =
      g.written
      ++ ((if has_id Sms.id i g.loaded
            then update_message i (record m { id = some i })
            else insert_message i (record m { id = some i }))
          ∷ []);
}

unfoldable pub merge_pending : Pending Sms → Merge → Merge
merge_pending p g = settle p.value (resolve p g)

abbrev pub merge_all : List (Pending Sms) → Merge → Merge
merge_all [] g = g
merge_all (p ∷ ps) g = merge_all ps (merge_pending p g)

-- `reserved_pending_ids`
abbrev pub reserved_ids : List (Pending Sms) → List ℕ
reserved_ids [] = []
reserved_ids (p ∷ ps) = elim p.value.id [ none ↦ reserved_ids ps | some i ↦ i ∷ reserved_ids ps ]

-- The rows in the order of their ids.
unfoldable pub load : List Sms → List (Pending Sms) → Merge
load rows ps = record {
  loaded = sort_by Sms.id rows;
  next_id = next_past Sms.id 1 (sort_by Sms.id rows);
  reserved = reserved_ids ps;
  written = [];
}

unfoldable pub merged : Store → Merge
merged s = merge_all s.pending_saves (load s.database.messages s.pending_saves)

-- The messages: the rows and what was pending, sorted, and written where anything was pending.
unfoldable pub open_messages : Store → Store
open_messages s = record s {
  messages = sort_by Sms.id (merged s).loaded;
  next_id = (merged s).next_id;
  database = (transact nothing (merged s).written s.database).0;
  pending_saves = [];
}

-- A new id for a report.
unfoldable pub renumber_report : ℕ → DeliveryReport → Store → Store × DeliveryReport
renumber_report free r s = (record s { next_report_id = suc free }, record r { id = some free })

abbrev pub has_report : Option ℕ → List DeliveryReport → Bool
has_report none rs = false
has_report (some i) rs = has_id DeliveryReport.id i rs

-- The id of a pending report: its own, or a new one where a row has it and it was only assigned.
unfoldable pub resolve_report : Pending DeliveryReport → Store → Store × DeliveryReport
resolve_report p s =
    if has_report p.value.id s.delivery_reports && p.auto_assigned
    then renumber_report
        (next_free DeliveryReport.id (length s.delivery_reports) s.next_report_id s.delivery_reports
          [])
        p.value s
    else (s, p.value)

abbrev pub save_pending_reports : ℕ → List (Pending DeliveryReport) → Store → Store
save_pending_reports now [] s = s
save_pending_reports now (p ∷ ps) s =
    let (t, r) = resolve_report p s in
    save_pending_reports now ps (save_report_locked nothing false now r t).0

-- The delivery reports: the rows, and then what was pending, each saved without a commit.
unfoldable pub open_reports : ℕ → Store → Store
open_reports now s =
    let rows = sort_by DeliveryReport.id s.database.reports in
    let t =
      save_pending_reports now s.pending_reports (record s {
        delivery_reports = rows;
        next_report_id = next_past DeliveryReport.id 1 rows;
      }) in
    record t { database = (commit nothing t.database).0; pending_reports = [] }

-- Connected anew: the connection sees what is on the disk.
unfoldable pub opening : Store → Store
opening s = record s { connected = true; database = rollback s.database }

-- `initialize`, where the database opens or fails to.
unfoldable pub initialize : Surroundings → Bool → ℕ → Store → Store × Result (Unit {0})
initialize w opens now s =
    if not s.has_path || s.connected || not w.importable
    then (s, returned tt)
    else if opens
    then (open_reports now (open_messages (opening s)), returned tt)
    else (s, raised database_error)

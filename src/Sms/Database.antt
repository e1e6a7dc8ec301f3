-- ===== src/Sms/Database.antt =====
-- What callstack/sms/store.py asks of SQLite: statements in a transaction, each of which may fail,
-- and the commit, which may fail as well and then leaves the transaction open.
pub mod Placed
use callstack.Prelude.{
  ℕ, zero, suc, ◌≡◌, refl, Bool, true, false, List, [], ◌∷◌, ◌++◌, Option, none, some,
  if◌then◌else◌,
}
use callstack.Sms.Types.{Sms, DeliveryReport}
use callstack.Sms.Rows.{find, overwrite, erase}

-- The two tables as the connection sees them, and as they are on the disk.
pub record Database : Type 0 where
  pub messages : List Sms
  pub reports : List DeliveryReport
  pub stored_messages : List Sms
  pub stored_reports : List DeliveryReport

-- What goes wrong in one transaction: nothing, a statement (its place among them) or the commit.
pub data Fault : Type 0 where
  nothing at_commit : Fault
  at_statement : ℕ → Fault

-- A statement is carried out or refused.
abbrev pub Statement : Type 0
Statement = Database → Option Database

-- An `INSERT` with a primary key that is in use is refused.
unfoldable pub insert_message : ℕ → Sms → Statement
insert_message i m d = elim (find Sms.id i d.messages) [
  | some row ↦ none
  | none ↦ some (record d { messages = d.messages ++ (m ∷ []) })
]

unfoldable pub update_message : ℕ → Sms → Statement
update_message i m d = some (record d { messages = overwrite Sms.id i m d.messages })

unfoldable pub delete_message : ℕ → Statement
delete_message i d = some (record d { messages = erase Sms.id i d.messages })

unfoldable pub insert_report : ℕ → DeliveryReport → Statement
insert_report i r d = elim (find DeliveryReport.id i d.reports) [
  | some row ↦ none
  | none ↦ some (record d { reports = d.reports ++ (r ∷ []) })
]

unfoldable pub update_report : ℕ → DeliveryReport → Statement
update_report i r d = some (record d { reports = overwrite DeliveryReport.id i r d.reports })

unfoldable pub delete_messages : Statement
delete_messages d = some (record d { messages = [] })

unfoldable pub delete_reports : Statement
delete_reports d = some (record d { reports = [] })

-- Connecting and `CREATE TABLE IF NOT EXISTS` can fail and leave the rows as they are.
unfoldable pub prepare : Statement
prepare d = some d

-- What is left to go wrong behind a statement.
abbrev pub later : Fault → Fault
later (at_statement (suc n)) = at_statement n
later f = f

abbrev pub fails_here : Fault → Bool
fails_here (at_statement zero) = true
fails_here _ = false

-- The statements up to the first that fails, and whether none did.
unfoldable pub execute : Fault → List Statement → Database → Database × Bool
execute f [] d = (d, true)
execute f (s ∷ ss) d =
    if fails_here f
    then (d, false)
    else elim (s d) [ none ↦ (d, false) | some e ↦ execute (later f) ss e ]

unfoldable pub commit : Fault → Database → Database × Bool
commit at_commit d = (d, false)
commit _ d = (record d { stored_messages = d.messages; stored_reports = d.reports }, true)

-- The statements and then the commit; an error leaves the transaction as it is.
unfoldable pub transact : Fault → List Statement → Database → Database × Bool
transact f ss d = let r = execute f ss d in if r.1 then commit f r.0 else r

-- What was not committed is undone, also when the connection is closed.
unfoldable pub rollback : Database → Database
rollback d = record d { messages = d.stored_messages; reports = d.stored_reports }

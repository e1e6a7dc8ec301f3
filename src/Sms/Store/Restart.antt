-- ===== src/Sms/Store/Restart.antt =====
-- The table of callstack/sms/store.py after `initialize`, and a store that is closed and opened again.
use callstack.Prelude.{
  ℕ, ◌≡◌, refl, ap, sym, subst, ◌∙◌, Bool, true, false, not, ◌||◌, List, [], ◌∷◌, ◌++◌, some, arith,
  if◌then◌else◌, Option-cases, inl, inr, if_true, if_false,
}
use callstack.Sms.Types.{Sms, DeliveryReport}
use callstack.Sms.Rows.{find, IsKeyed}
use callstack.Sms.Rows.Sorted.{find-sort, sort-IsKeyed}
use callstack.Sms.Database.{
  Database, nothing, Statement, insert_message, update_message, execute, commit, transact, rollback,
}
use callstack.Sms.Database.Placed.{
  SameRows, IsPlaced, insert_message-IsPlaced, update_message-IsPlaced,
}
use callstack.Sms.Store.{Pending, Store, Surroundings, Result, get, close}
use callstack.Sms.Store.Open.{
  opening, has_id, Merge, resolve, settle, merge_pending, merge_all, load, merged, open_messages,
  save_pending_reports, open_reports, initialize, sort_by, next_past,
}
use callstack.Sms.Store.Merged.{own, has_id-find, IsMerging}
use callstack.Sms.Store.Mirrored.{IsMirrored}
use callstack.Sms.Store.Reopened.{
  resolved, merged_step, IsClosed, load-IsMerging, merged-IsMerging, get-open_messages,
}

merge_statement :
    (i : ℕ) (n : Sms) (d : Database) (ms : List Sms)
    → n.id ≡ some i
    → SameRows d.messages ms
    → IsPlaced i n d ms (if has_id Sms.id i ms then update_message i n else insert_message i n)
merge_statement i n d ms h r = elim (Option-cases (find Sms.id i ms)) [
  | inl f ↦
      subst (IsPlaced i n d ms) (sym (if_false _ _ _ (has_id-find Sms.id i ms ∙ rw f refl)))
        (insert_message-IsPlaced i n d ms h r f)
  | inr (old, f) ↦
      subst (IsPlaced i n d ms) (sym (if_true _ _ _ (has_id-find Sms.id i ms ∙ rw f refl)))
        (update_message-IsPlaced i n old d ms h r f)
]

execute-append :
    (ss ts : List Statement) (d e : Database)
    → execute nothing ss d ≡ (e, true)
    → execute nothing (ss ++ ts) d ≡ execute nothing ts e
unfolding execute
execute-append [] ts d e h = ap (λ (r : Database × Bool). execute nothing ts r.0) h
execute-append (s ∷ ss) ts d e h = elim (Option-cases (s d)) [
  | inl f ↦
      let t : (execute nothing (s ∷ ss) d).1 ≡ false = rw f refl in
      absurd (ground (arith, sym t ∙ ap (λ (r : Database × Bool). r.1) h))
  | inr (c, f) ↦ rw f (execute-append ss ts c e (sym (rw f refl) ∙ h))
]

-- The statements so far bring the table to the messages so far.
IsWritten : Database → Merge → Type 0
IsWritten d g =
    (e : Database) × (execute nothing g.written d ≡ (e, true)) × SameRows e.messages g.loaded

step-IsWritten :
    (d : Database) (p : Pending Sms) (ps : List (Pending Sms)) (g : Merge)
    → IsMerging (p ∷ ps) g
    → IsWritten d g
    → IsWritten d (merge_pending p g)
unfolding merge_pending settle IsWritten execute
step-IsWritten d p ps g m (e, x, r) =
    let h = resolved p ps g m in
    let i = (resolve p g).1 in
    let n = record p.value { id = some i } in
    let (c, y, t) =
      merge_statement i n e (resolve p g).0.loaded refl
        (λ j. r j ∙ ap (λ ms. find Sms.id j ms) (sym h.loaded)) in
    (
      c,
      execute-append (resolve p g).0.written _ d e (ap (λ ws. execute nothing ws d) h.written ∙ x)
          ∙ rw y refl,
      t,
    )

all-IsWritten :
    (d : Database) (ps : List (Pending Sms)) (g : Merge)
    → IsMerging ps g
    → IsWritten d g
    → IsWritten d (merge_all ps g)
all-IsWritten d [] g m w = w
all-IsWritten d (p ∷ ps) g m w =
    all-IsWritten d ps (merge_pending p g) (merged_step p ps g m) (step-IsWritten d p ps g m w)

merged-IsWritten : (s : Store) → IsClosed s → IsWritten s.database (merged s)
unfolding merged load IsWritten execute
merged-IsWritten s c =
    all-IsWritten s.database s.pending_saves (load s.database.messages s.pending_saves)
      (load-IsMerging s c)
      (s.database, refl, λ j. sym (find-sort Sms.id j s.database.messages c.rows))

-- What is opened mirrors its table: whatever was pending is merged into both alike and committed.
pub open_messages-IsMirrored :
    (s : Store) → IsClosed s → s.connected ≡ true → IsMirrored (open_messages s)
unfolding open_messages IsWritten transact commit
open_messages-IsMirrored s c o =
    let (e, x, r) = merged-IsWritten s c in
    let m = merged-IsMerging s c in
    record {
      connected = o;
      keyed = sort-IsKeyed Sms.id (merged s).loaded m.keyed;
      rows = λ j. rw x (r j ∙ sym (find-sort Sms.id j (merged s).loaded m.keyed));
      committed = rw x refl;
    }

-- With no report pending, the reports that are loaded leave the messages.
get-open_reports :
    (now i : ℕ) (s : Store) → s.pending_reports ≡ [] → get i (open_reports now s) ≡ get i s
unfolding open_reports get
get-open_reports now i s b =
    ap
      (λ ps.
        find Sms.id i
          (save_pending_reports now ps (record s {
            delivery_reports = sort_by DeliveryReport.id s.database.reports;
            next_report_id =
                next_past DeliveryReport.id 1 (sort_by DeliveryReport.id s.database.reports);
          })).messages)
      b

-- With no message pending, the rows are what is found.
get-reopened :
    (i : ℕ) (s : Store)
    → IsKeyed Sms.id s.database.messages
    → s.pending_saves ≡ []
    → get i (open_messages s) ≡ find Sms.id i s.database.messages
unfolding merged load
get-reopened i s k a =
    get-open_messages i s (record { rows = k; pending = subst (IsKeyed own) (sym a) tt })
    ∙ ap (λ ps. find Sms.id i (merge_all ps (load s.database.messages ps)).loaded) a
    ∙ find-sort Sms.id i s.database.messages k

initialize_close_lem :
    (w : Surroundings) (now : ℕ) (s : Store)
    → s.connected ≡ true
    → s.has_path ≡ true
    → w.importable ≡ true
    → (initialize w true now (close s)).0 ≡ open_reports now (open_messages (opening s))
unfolding initialize close opening rollback
initialize_close_lem w now s c p q =
    ap (λ (t : Store). (initialize w true now t).0) (if_true s.connected _ _ c)
    ∙ ap (λ (r : Store × Result (Unit {0})). r.0)
        (if_false (not s.has_path || false || not w.importable) _ _ (rw (p, q) refl))

-- A store with a path that mirrors its table, whose rows have distinct ids, that has nothing pending
-- and is closed and opened again, where SQLite can be imported, finds the same messages under the
-- same ids.
pub initialize-close :
    (w : Surroundings) (now i : ℕ) (s : Store)
    → IsMirrored s
    → IsKeyed Sms.id s.database.messages
    → s.has_path ≡ true
    → w.importable ≡ true
    → s.pending_saves ≡ []
    → s.pending_reports ≡ []
    → get i (initialize w true now (close s)).0 ≡ get i s
unfolding rollback get open_messages opening
initialize-close w now i s m k p q a b =
    ap (get i) (initialize_close_lem w now s m.connected p q)
    ∙ get-open_reports now i (open_messages (opening s)) b
    ∙ get-reopened i (opening s) (subst (IsKeyed Sms.id) (sym m.committed) k) a
    ∙ ap (λ ms. find Sms.id i ms) m.committed
    ∙ m.rows i

-- ===== src/Sms/Store/Faults.antt =====
-- Errors of the database under callstack/sms/store.py: `clear` behind one, and what the failed commit
-- of `save` leaves behind.
use callstack.Prelude.{
  ℕ, zero, suc, ◌≡◌, ◌⊎◌, refl, ap, ◌∙◌, Bool, true, false, ◌||◌, List, [], ◌∷◌, Option, none, some,
  arith, ◌==◌, Option-cases, inl, inr, branches, if_cases, if◌then◌else◌, if_true, if_false,
  ==_refl,
}
use callstack.Sms.Types.{Sms}
use callstack.Sms.Rows.{find, put}
use callstack.Sms.Rows.Found.{find-put}
use callstack.Sms.Database.{
  Database, Fault, nothing, at_commit, at_statement, Statement, delete_messages, delete_reports,
  prepare, execute, commit, transact, rollback,
}
use callstack.Sms.Database.Placed.{
  SameRows, IsPlaced, insert_message-IsPlaced, update_message-IsPlaced,
}
use callstack.Sms.Store.{
  Store, Surroundings, Result, returned, raised, database_error, get, save, assign_id, is_none,
  write_statement, write_message, finish_save, on_connection, on_own_connection, erased,
  finish_clear, clear,
}
use callstack.Sms.Store.Kept.{number, numbered, numbered-id, assign_id-messages}
use callstack.Sms.Store.Mirrored.{
  IsMirrored, settled, assign_id-IsMirrored, write_statement-IsPlaced,
}

-- Both tables empty on the disk where it went well, and as they were where it did not.
abbrev IsErased : Database → Database × Bool → Type 0
IsErased d (e, true) = (e.stored_messages ≡ []) × (e.stored_reports ≡ [])
IsErased d (e, false) =
    (e.stored_messages ≡ d.stored_messages) × (e.stored_reports ≡ d.stored_reports)

erase_both :
    (f : Fault) (d : Database) → IsErased d (transact f (delete_messages ∷ delete_reports ∷ []) d)
unfolding transact execute commit delete_messages delete_reports
erase_both nothing d = (refl, refl)
erase_both at_commit d = (refl, refl)
erase_both (at_statement zero) d = (refl, refl)
erase_both (at_statement (suc zero)) d = (refl, refl)
erase_both (at_statement (suc (suc n))) d = (refl, refl)

-- Behind statements that leave the rows as they are.
prepared :
    (f : Fault) (ss : List Statement) (d : Database)
    → ((g : Fault) → IsErased d (transact g ss d))
    → IsErased d (transact f (prepare ∷ ss) d)
unfolding transact execute prepare commit
prepared nothing ss d h = h nothing
prepared at_commit ss d h = h at_commit
prepared (at_statement zero) ss d h = (refl, refl)
prepared (at_statement (suc n)) ss d h = h (at_statement n)

-- A connection for just these statements begins with what is on the disk.
on_disk : (d : Database) (r : Database × Bool) → IsErased (rollback d) r → IsErased d r
unfolding rollback
on_disk d (e, true) h = h
on_disk d (e, false) h = h

erase_anew :
    (f : Fault) (d : Database)
    → IsErased d (
        transact f
          (prepare ∷ prepare ∷ prepare ∷ delete_messages ∷ delete_reports ∷ [])
          (rollback d))
erase_anew f d =
    on_disk d
      (transact f (prepare ∷ prepare ∷ prepare ∷ delete_messages ∷ delete_reports ∷ [])
        (rollback d))
      (prepared f _ (rollback d) (λ g.
        prepared g _ (rollback d)
          (λ h. prepared h _ (rollback d) (λ k. erase_both k (rollback d)))))

-- Nothing in memory; nothing in the tables on the disk; all as it was in memory and on the disk.
abbrev pub IsForgotten : Store → Type 0
IsForgotten t =
    (t.messages ≡ [])
    × (t.delivery_reports ≡ [])
    × (t.pending_saves ≡ [])
    × (t.pending_reports ≡ [])

abbrev pub HasNoRows : Store → Type 0
HasNoRows t = (t.database.stored_messages ≡ []) × (t.database.stored_reports ≡ [])

abbrev pub IsUntouched : Store → Store → Type 0
IsUntouched s t =
    (t.messages ≡ s.messages)
    × (t.delivery_reports ≡ s.delivery_reports)
    × (t.pending_saves ≡ s.pending_saves)
    × (t.pending_reports ≡ s.pending_reports)
    × (t.database.stored_messages ≡ s.database.stored_messages)
    × (t.database.stored_reports ≡ s.database.stored_reports)

-- What a call of `clear` may leave: nothing in memory and, where there is a database, nothing in its
-- tables; where it raises, all as it was, or, where a connection could not be closed, nothing in
-- either.
abbrev pub IsCleared : Bool → Store → Store × Result (Unit {0}) → Type 0
IsCleared close_fails s (t, returned u) =
    IsForgotten t × (((s.connected || s.has_path) ≡ false) ⊎ HasNoRows t)
IsCleared close_fails s (t, raised e) =
    IsUntouched s t ⊎ ((close_fails ≡ true) × IsForgotten t × HasNoRows t)

-- Where no connection is closed, the same holds whether closing would fail or not.
kept_open :
    (close_fails : Bool) (s : Store) (r : Store × Result (Unit {0}))
    → IsCleared false s r
    → IsCleared close_fails s r
kept_open close_fails s (t, returned u) h = h
kept_open close_fails s (t, raised e) (inl h) = inl h
kept_open close_fails s (t, raised e) (inr h) = absurd (cc h.0)

closed_badly :
    (s t : Store) (close_fails : Bool)
    → IsForgotten t
    → HasNoRows t
    → IsCleared close_fails s (t, if close_fails then raised database_error else returned tt)
closed_badly s t true h k = inr (refl, h, k)
closed_badly s t false h k = (h, inr k)

finished :
    (close_fails : Bool) (s : Store) (r : Database × Bool)
    → IsErased s.database r
    → IsCleared close_fails s (finish_clear close_fails (record s { database = r.0 }, r.1))
      × IsCleared close_fails s
          (finish_clear close_fails (record s { database = rollback r.0 }, r.1))
unfolding finish_clear erased rollback
finished b s (e, true) h = (
  closed_badly s (erased (record s { database = e })) b (refl, refl, refl, refl) h,
  closed_badly s (erased (record s { database = rollback e })) b (refl, refl, refl, refl) h,
)
finished b s (e, false) (m, r) =
    (inl (refl, refl, refl, refl, m, r), inl (refl, refl, refl, refl, m, r))

-- `clear` empties the memory and the tables on the disk and returns; or it raises and leaves both as
-- they were; or it raises with both emptied, which it does only where the connection that it opened
-- cannot be closed. So whether the store is connected or closed or has no database, and whichever
-- statement, commit or close of the database fails with an error.
pub clear-IsCleared :
    (w : Surroundings) (f : Fault) (s : Store) → IsCleared w.close_fails s (clear w f s)
unfolding clear on_connection on_own_connection erased
clear-IsCleared w f s =
    if_cases (IsCleared w.close_fails s) s.connected
      (λ c.
        kept_open w.close_fails s
          (finish_clear false (on_connection f (delete_messages ∷ delete_reports ∷ []) s))
          (finished false s _ (erase_both f s.database)).0)
      (λ c.
        if_cases (IsCleared w.close_fails s) s.has_path
          (λ p.
            branches (IsCleared w.close_fails s) w.importable
              (finished w.close_fails s _ (erase_anew f s.database)).1
              (inl (refl, refl, refl, refl, refl, refl)))
          (λ p. ((refl, refl, refl, refl), inl (rw (c, p) refl))))

-- A commit that fails leaves the statement in the open transaction.
uncommitted :
    (st : Statement) (d e : Database) → st d ≡ some e → transact at_commit (st ∷ []) d ≡ (e, false)
unfolding transact execute commit
uncommitted st d e h = rw h refl

committed :
    (st : Statement) (d e : Database)
    → st d ≡ some e
    → transact nothing (st ∷ []) d ≡ (settled e, true)
unfolding transact execute commit
committed st d e h = rw h refl

-- The store behind a `save` that failed to commit.
abbrev failed : Sms → Store → Database → Store
failed m s e = record (assign_id m s).0 { database = e }

save-failed :
    (m : Sms) (s : Store)
    → IsMirrored s
    → (e : Database) × (save at_commit m s ≡ (failed m s e, raised database_error))
      × SameRows e.messages (put Sms.id (number m s) (numbered m s) (assign_id m s).0.messages)
unfolding save write_message on_connection finish_save
save-failed m s h =
    let t = (assign_id m s).0 in
    let ht = assign_id-IsMirrored m s h in
    let (e, x, r) = write_statement-IsPlaced (number m s) (numbered m s) t (numbered-id m s) ht in
    (
      e,
      ap (finish_save (number m s) (numbered m s)) (if_true t.connected _ _ ht.connected)
          ∙ ap
              (λ (c : Database × Bool).
                finish_save (number m s) (numbered m s) (record t { database = c.0 }, c.1))
              (uncommitted (write_statement (number m s) (numbered m s) t) t.database e x),
      r,
    )

-- `save` of a message with an id, where the store is connected.
save_own :
    (n : Sms) (j : ℕ) (t : Store) (e : Database)
    → n.id ≡ some j
    → t.connected ≡ true
    → write_statement j n t t.database ≡ some e
    → (save nothing n t).0 ≡ record t { database = settled e; messages = put Sms.id j n t.messages }
unfolding save assign_id write_message on_connection finish_save
save_own n j t e h c x =
    ap
      (λ (o : Option ℕ).
        let r : Store × (ℕ × Sms) = elim o [
          | some i ↦ (t, (i, n))
          | none ↦
              (record t { next_id = suc t.next_id }, (t.next_id, record n { id = some t.next_id }))
        ] in
        (finish_save r.1.0 r.1.1 (write_message nothing (is_none n.id) r.1.0 r.1.1 r.0)).0)
      h
    ∙ ap (λ (w : Store × Bool). (finish_save j n w).0) (if_true t.connected _ _ c)
    ∙ ap (λ (c : Database × Bool). (finish_save j n (record t { database = c.0 }, c.1)).0)
        (committed (write_statement j n t) t.database e x)

other_statement :
    (i j : ℕ) (m n : Sms) (t : Store)
    → m.id ≡ some i
    → n.id ≡ some j
    → (i == j) ≡ false
    → SameRows t.database.messages (put Sms.id i m t.messages)
    → IsPlaced j n t.database t.database.messages (write_statement j n t)
unfolding write_statement
other_statement i j m n t h k d r = elim (Option-cases (find Sms.id j t.messages)) [
  | inl f ↦
      rw (f, write_statement)
        (insert_message-IsPlaced j n t.database t.database.messages k (λ l. refl)
          (r j ∙ find-put Sms.id j i m t.messages h ∙ rw d f))
  | inr (old, f) ↦
      rw (f, write_statement)
        (update_message-IsPlaced j n old t.database t.database.messages k (λ l. refl)
          (r j ∙ find-put Sms.id j i m t.messages h ∙ rw d f))
]

-- From a store that mirrors its table, a new message whose `save` fails at the commit is not in memory,
-- and the next `save`, of a message with another id, which goes well, commits it all the same: it is
-- on the disk then and not in memory.
pub save-uncommitted :
    (m n : Sms) (j : ℕ) (s : Store)
    → IsMirrored s
    → get (number m s) s ≡ none
    → n.id ≡ some j
    → (number m s == j) ≡ false
    → let u = (save nothing n (save at_commit m s).0).0 in
      (get (number m s) u ≡ none)
      × (find Sms.id (number m s) u.database.stored_messages ≡ some (numbered m s))
unfolding get
save-uncommitted m n j s h a k d =
    let i = number m s in
    let (e, x, r) = save-failed m s h in
    let t = failed m s e in
    let (c, y, p) = other_statement i j (numbered m s) n t (numbered-id m s) k d r in
    let q : (save nothing n (save at_commit m s).0).0
        ≡ record t { database = settled c; messages = put Sms.id j n t.messages } =
      ap (λ (w : Store × Result Sms). (save nothing n w.0).0) x
      ∙ save_own n j t c k (assign_id-IsMirrored m s h).connected y in
    (
      ap (λ (u : Store). find Sms.id i u.messages) q
          ∙ find-put Sms.id i j n t.messages k
          ∙ if_false (j == i) _ _ (ground arith)
          ∙ ap (λ ms. find Sms.id i ms) (assign_id-messages m s)
          ∙ a,
      ap (λ (u : Store). find Sms.id i u.database.stored_messages) q
          ∙ p i
          ∙ find-put Sms.id i j n e.messages k
          ∙ if_false (j == i) _ _ (ground arith)
          ∙ r i
          ∙ find-put Sms.id i i (numbered m s) t.messages (numbered-id m s)
          ∙ if_true (i == i) _ _ (==_refl i),
    )

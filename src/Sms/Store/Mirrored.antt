-- ===== src/Sms/Store/Mirrored.antt =====
-- While it is connected, the store of callstack/sms/store.py is the table of its messages: what
-- `save`, `delete` and `clear` do to both, and what an error of a commit leaves.
use callstack.Prelude.{
  ℕ, zero, suc, if_true, ◌≡◌, ◌⊎◌, refl, ap, sym, subst, ◌∙◌, Bool, true, false, [], ◌∷◌, arith,
  none, some, ◌==◌, if◌then◌else◌, Option-cases, inl, inr,
}
use callstack.Sms.Types.{Sms}
use callstack.Sms.Rows.{find, put, pop, erase, IsKeyed}
use callstack.Sms.Rows.Found.{find-pop, put-IsKeyed, pop-IsKeyed, find-erase}
use callstack.Sms.Database.{
  Database, Fault, nothing, at_commit, at_statement, Statement, delete_message, execute, commit,
  transact,
}
use callstack.Sms.Database.Placed.{
  SameRows, IsPlaced, insert_message-IsPlaced, update_message-IsPlaced,
}
use callstack.Sms.Store.{
  Store, Result, assign_id, on_connection, write_statement, write_message, finish_save, save,
  delete, drop_message, Surroundings,
}
use callstack.Sms.Store.Kept.{number, numbered, numbered-id}

-- Connected, with distinct ids, the same messages in the list and in the table, and nothing that
-- waits for a commit.
pub record IsMirrored (s : Store) : Type 0 where
  pub connected : s.connected ≡ true
  pub keyed : IsKeyed Sms.id s.messages
  pub rows : SameRows s.database.messages s.messages
  pub committed : s.database.stored_messages ≡ s.database.messages

abbrev pub fails_commit : Fault → Bool
fails_commit at_commit = true
fails_commit _ = false

-- The tables on the disk are those of the connection.
abbrev pub settled : Database → Database
settled d = record d { stored_messages = d.messages; stored_reports = d.reports }

pub transact_one :
    (f : Fault) (st : Statement) (d e : Database)
    → st d ≡ some e
    → fails_commit f ≡ false
    → (transact f (st ∷ []) d ≡ (settled e, true)) ⊎ (transact f (st ∷ []) d ≡ (d, false))
unfolding transact execute commit
transact_one nothing st d e h g = inl (rw h refl)
transact_one at_commit st d e h g = absurd (ground arith)
transact_one (at_statement zero) st d e h g = inr refl
transact_one (at_statement (suc n)) st d e h g = inl (rw h refl)

pub write_statement-IsPlaced :
    (i : ℕ) (n : Sms) (s : Store)
    → n.id ≡ some i
    → IsMirrored s
    → IsPlaced i n s.database s.messages (write_statement i n s)
unfolding write_statement
write_statement-IsPlaced i n s h m = elim (Option-cases (find Sms.id i s.messages)) [
  | inl f ↦ rw (f, write_statement) (insert_message-IsPlaced i n s.database s.messages h m.rows f)
  | inr (old, f) ↦
      rw (f, write_statement) (update_message-IsPlaced i n old s.database s.messages h m.rows f)
]

pub assign_id-IsMirrored : (m : Sms) (s : Store) → IsMirrored s → IsMirrored (assign_id m s).0
unfolding assign_id
assign_id-IsMirrored m s h = elim (Option-cases m.id) [
  | inl e ↦
      rw e (record {
        connected = h.connected;
        keyed = h.keyed;
        rows = h.rows;
        committed = h.committed;
      })
  | inr (i, e) ↦ rw e h
]

stored_or_not :
    (i : ℕ) (n : Sms) (s : Store) (e : Database) (r : Database × Bool)
    → n.id ≡ some i
    → IsMirrored s
    → ((j : ℕ) → find Sms.id j e.messages ≡ find Sms.id j (put Sms.id i n s.messages))
    → (r ≡ (settled e, true)) ⊎ (r ≡ (s.database, false))
    → IsMirrored (finish_save i n (record s { database = r.0 }, r.1)).0
unfolding finish_save
stored_or_not i n s e r h m g (inl w) = rw w (record {
  connected = m.connected;
  keyed = put-IsKeyed Sms.id i n s.messages h m.keyed;
  rows = g;
  committed = refl;
})
stored_or_not i n s e r h m g (inr w) =
    rw w
      (record { connected = m.connected; keyed = m.keyed; rows = m.rows; committed = m.committed })

-- While the store mirrors its table, `save` leaves it so, whatever statement fails; only an error of
-- the commit may not.
pub save-IsMirrored :
    (f : Fault) (m : Sms) (s : Store)
    → IsMirrored s
    → fails_commit f ≡ false
    → IsMirrored (save f m s).0
unfolding save write_message on_connection
save-IsMirrored f m s h g =
    let t = (assign_id m s).0 in
    let ht = assign_id-IsMirrored m s h in
    let (e, c, r) = write_statement-IsPlaced (number m s) (numbered m s) t (numbered-id m s) ht in
    subst (λ w. IsMirrored (finish_save (number m s) (numbered m s) w).0)
      (sym (if_true t.connected _ _ ht.connected))
      (stored_or_not (number m s) (numbered m s) t e _ (numbered-id m s) ht r
        (transact_one f (write_statement (number m s) (numbered m s) t) t.database e c g))

erased_rows :
    (j : ℕ) (s : Store) (i : ℕ)
    → IsMirrored s
    → find Sms.id i (erase Sms.id j s.database.messages) ≡ find Sms.id i (pop Sms.id j s.messages)
erased_rows j s i h =
    find-erase Sms.id i j s.database.messages
    ∙ ap (λ o. if j == i then none else o) (h.rows i)
    ∙ sym (find-pop Sms.id i j s.messages h.keyed)

deleted_or_not :
    (j : ℕ) (s : Store) (r : Database × Bool)
    → IsMirrored s
    → (r ≡ (settled (record s.database { messages = erase Sms.id j s.database.messages }), true))
      ⊎ (r ≡ (s.database, false))
    → IsMirrored (drop_message j (record s { database = r.0 }, r.1)).0
unfolding drop_message
deleted_or_not j s r h (inl w) = rw w (record {
  connected = h.connected;
  keyed = pop-IsKeyed Sms.id j s.messages h.keyed;
  rows = λ i. erased_rows j s i h;
  committed = refl;
})
deleted_or_not j s r h (inr w) =
    rw w
      (record { connected = h.connected; keyed = h.keyed; rows = h.rows; committed = h.committed })

-- So does `delete`.
pub delete-IsMirrored :
    (w : Surroundings) (f : Fault) (j : ℕ) (s : Store)
    → IsMirrored s
    → fails_commit f ≡ false
    → IsMirrored (delete w f j s).0
unfolding delete on_connection delete_message
delete-IsMirrored w f j s h g = elim (Option-cases (find Sms.id j s.messages)) [
  | inl e ↦ rw (e, delete) h
  | inr (m, e) ↦
      rw (e, delete)
        (subst (λ (r : Store × Result Bool). IsMirrored r.0)
          (sym (if_true s.connected _ _ h.connected))
          (deleted_or_not j s _ h (
            transact_one f (delete_message j) s.database
              (record s.database { messages = erase Sms.id j s.database.messages }) refl g)))
]

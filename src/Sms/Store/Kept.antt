-- ===== src/Sms/Store/Kept.antt =====
-- `save`, `get` and `delete` of callstack/sms/store.py as a map from ids to messages, and what an
-- error leaves of it.
use callstack.Prelude.{
  branches, ℕ, ◌≡◌, refl, ap, sym, subst, not, ◌&&◌, ◌∙◌, Bool, true, false, Option, none, some,
  ◌==◌, if◌then◌else◌, Bool-cases, Option-cases, inl, inr,
}
use callstack.Sms.Types.{Sms}
use callstack.Sms.Rows.{find, IsKeyed}
use callstack.Sms.Rows.Found.{find-put, find-pop, put-IsKeyed, pop-IsKeyed}
use callstack.Sms.Database.{Fault}
use callstack.Sms.Store.{
  Store, Result, returned, raised, database_error, assign_id, on_connection, note_pending,
  write_message, finish_save, save, get, is_none, delete, drop_message, Surroundings, was_assigned,
  on_own_connection,
}

-- The message as it is stored: with its id, or with the next one.
abbrev pub numbered : Sms → Store → Sms
numbered m s = (assign_id m s).1.1

abbrev pub number : Sms → Store → ℕ
number m s = (assign_id m s).1.0

pub numbered-id : (m : Sms) (s : Store) → (numbered m s).id ≡ some (number m s)
unfolding assign_id
numbered-id m s = elim (Option-cases m.id) [ inl e ↦ rw e refl | inr (i, e) ↦ rw e refl ]

-- A write changes nothing of the lists.
write_message-messages :
    (f : Fault) (a : Bool) (i : ℕ) (m : Sms) (s : Store)
    → (write_message f a i m s).0.messages ≡ s.messages
unfolding write_message on_connection note_pending
write_message-messages f a i m s = elim (Bool-cases s.connected) [
  | inl c ↦ rw c refl
  | inr c ↦ elim (Bool-cases s.has_path) [ inl p ↦ rw (c, p) refl | inr p ↦ rw (c, p) refl ]
]

pub assign_id-messages : (m : Sms) (s : Store) → (assign_id m s).0.messages ≡ s.messages
unfolding assign_id
assign_id-messages m s = elim (Option-cases m.id) [ inl e ↦ rw e refl | inr (i, e) ↦ rw e refl ]

-- The message's own id, or the store's counter where it has none.
abbrev pub own_or_next : Option ℕ → ℕ → ℕ
own_or_next none next_id = next_id
own_or_next (some i) next_id = i

number-own_or_next : (m : Sms) (s : Store) → number m s ≡ own_or_next m.id s.next_id
unfolding assign_id
number-own_or_next m s = elim (Option-cases m.id) [ inl e ↦ rw e refl | inr (i, e) ↦ rw e refl ]

numbered-own_or_next :
    (m : Sms) (s : Store) → numbered m s ≡ record m { id = some (own_or_next m.id s.next_id) }
unfolding assign_id
numbered-own_or_next m s = elim (Option-cases m.id) [ inl e ↦ rw e refl | inr (i, e) ↦ rw e refl ]

-- What is left of the store where `n` is kept under `i`, and where the call raises.
abbrev pub IsSavedAs : ℕ → Sms → Store → Store × Result Sms → Type 0
IsSavedAs i n s (t, returned x) =
    (x ≡ n) × ((j : ℕ) → get j t ≡ (if i == j then some x else get j s)) × IsKeyed Sms.id t.messages
IsSavedAs i n s (t, raised e) = (e ≡ database_error) × (t.messages ≡ s.messages)

-- What a call of `save` may leave: the message under its id or under the counter, with this id, and
-- the messages of all other ids as they were, where it returns; all as it was, where it raises.
abbrev pub IsSaved : Sms → Store → Store × Result Sms → Type 0
IsSaved m s =
    IsSavedAs (own_or_next m.id s.next_id) (record m { id = some (own_or_next m.id s.next_id) }) s

settled :
    (m : Sms) (s u : Store) (ok : Bool)
    → u.messages ≡ s.messages
    → IsKeyed Sms.id s.messages
    → IsSavedAs (number m s) (numbered m s) s (finish_save (number m s) (numbered m s) (u, ok))
unfolding finish_save get
settled m s u true e k = (
  refl,
  λ i.
      find-put Sms.id i (number m s) (numbered m s) u.messages (numbered-id m s)
      ∙ ap (λ ms. if number m s == i then some (numbered m s) else find Sms.id i ms) e,
  put-IsKeyed Sms.id (number m s) (numbered m s) u.messages (numbered-id m s)
      (subst (IsKeyed Sms.id) (sym e) k),
)
settled m s u false e k = (refl, e)

-- The same, in terms of the number that `save` takes.
pub save-IsSavedAs :
    (f : Fault) (m : Sms) (s : Store)
    → IsKeyed Sms.id s.messages
    → IsSavedAs (number m s) (numbered m s) s (save f m s)
unfolding save
save-IsSavedAs f m s k =
    let w = write_message f (is_none m.id) (number m s) (numbered m s) (assign_id m s).0 in
    settled m s w.0 w.1
      (write_message-messages f (is_none m.id) (number m s) (numbered m s) (assign_id m s).0
        ∙ assign_id-messages m s)
      k

-- From a store whose messages have distinct ids, `save` returns the message with its own id, or with
-- the counter `_next_id` where it has none, and otherwise as it was given; it is found under that id,
-- in place of the message that had the id, if one had it, every other id has the message that it had,
-- and the ids stay distinct. Or it raises, and the messages are as they were. So whether the
-- store is connected or not, and whatever fails of the database.
pub save-IsSaved :
    (f : Fault) (m : Sms) (s : Store) → IsKeyed Sms.id s.messages → IsSaved m s (save f m s)
save-IsSaved f m s k =
    subst (λ i. IsSavedAs i (record m { id = some i }) s (save f m s)) (number-own_or_next m s)
      (subst (λ n. IsSavedAs (number m s) n s (save f m s))
        (numbered-own_or_next m s
          ∙ ap (λ i. record m { id = some i }) (sym (number-own_or_next m s)))
        (save-IsSavedAs f m s k))

-- What a call of `delete` may leave: without the message and with the others as they were; all as it
-- was, where there is no such message or no way to delete it; all as it was, where it raises.
abbrev pub IsDeleted : ℕ → Store → Store × Result Bool → Type 0
IsDeleted j s (t, returned true) =
    ((i : ℕ) → get i t ≡ (if j == i then none else get i s)) × IsKeyed Sms.id t.messages
IsDeleted j s (t, returned false) = t ≡ s
IsDeleted j s (t, raised e) = (e ≡ database_error) × (t.messages ≡ s.messages)

dropped :
    (j : ℕ) (s u : Store) (ok : Bool)
    → u.messages ≡ s.messages
    → IsKeyed Sms.id s.messages
    → IsDeleted j s (drop_message j (u, ok))
unfolding drop_message get
dropped j s u true e k = (
  λ i.
      find-pop Sms.id i j u.messages (subst (IsKeyed Sms.id) (sym e) k)
      ∙ ap (λ ms. if j == i then none else find Sms.id i ms) e,
  pop-IsKeyed Sms.id j u.messages (subst (IsKeyed Sms.id) (sym e) k),
)
dropped j s u false e k = (refl, e)

-- From a store whose messages have distinct ids, `delete` removes the message and no other; where it
-- returns `False` nothing has changed, and where it raises the messages are as they were.
pub delete-IsDeleted :
    (w : Surroundings) (f : Fault) (j : ℕ) (s : Store)
    → IsKeyed Sms.id s.messages
    → IsDeleted j s (delete w f j s)
unfolding delete on_connection on_own_connection
delete-IsDeleted w f j s k = elim (Option-cases (find Sms.id j s.messages)) [
  | inl e ↦ rw (e, delete) refl
  | inr (m, e) ↦
      rw (e, delete)
        (branches (IsDeleted j s) s.connected (dropped j s _ _ refl k) (
          branches (IsDeleted j s) (s.has_path && w.exists && not (was_assigned j s.pending_saves))
            (branches (IsDeleted j s) w.importable (dropped j s _ _ refl k) refl)
            (dropped j s s true refl k)))
]

-- ===== src/Sms/Database/Placed.antt =====
-- The statements of callstack/sms/store.py for a message do to a table with the same messages what
-- `put` does to the list.
use callstack.Prelude.{
  ℕ, ◌≡◌, refl, ap, sym, ◌∙◌, List, [], ◌∷◌, ◌++◌, none, some, ◌==◌, if◌then◌else◌,
}
use callstack.Sms.Types.{Sms}
use callstack.Sms.Rows.{find, put, overwrite}
use callstack.Sms.Rows.Found.{find-put, find-overwrite, find-append}
use callstack.Sms.Database.{Database, Statement, insert_message, update_message}

-- The same messages under the same ids.
abbrev pub SameRows : List Sms → List Sms → Type 0
SameRows rows ms = (j : ℕ) → find Sms.id j rows ≡ find Sms.id j ms

-- The statement is carried out, and then the tables have the message as well.
abbrev pub IsPlaced : ℕ → Sms → Database → List Sms → Statement → Type 0
IsPlaced i n d ms st = (e : Database) × (st d ≡ some e) × SameRows e.messages (put Sms.id i n ms)

pub insert_message-IsPlaced :
    (i : ℕ) (n : Sms) (d : Database) (ms : List Sms)
    → n.id ≡ some i
    → SameRows d.messages ms
    → find Sms.id i ms ≡ none
    → IsPlaced i n d ms (insert_message i n)
unfolding insert_message
insert_message-IsPlaced i n d ms h r f = (
  record d { messages = d.messages ++ (n ∷ []) },
  rw (r i ∙ f, insert_message) refl,
  λ j.
      find-append Sms.id j i n d.messages h (r i ∙ f)
      ∙ ap (λ o. if i == j then some n else o) (r j)
      ∙ sym (find-put Sms.id j i n ms h),
)

pub update_message-IsPlaced :
    (i : ℕ) (n old : Sms) (d : Database) (ms : List Sms)
    → n.id ≡ some i
    → SameRows d.messages ms
    → find Sms.id i ms ≡ some old
    → IsPlaced i n d ms (update_message i n)
unfolding update_message
update_message-IsPlaced i n old d ms h r f = (
  record d { messages = overwrite Sms.id i n d.messages },
  refl,
  λ j.
      find-overwrite Sms.id j i n old d.messages h (r i ∙ f)
      ∙ ap (λ o. if i == j then some n else o) (r j)
      ∙ sym (find-put Sms.id j i n ms h),
)

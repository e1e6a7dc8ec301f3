-- ===== src/Sms/Store/Listed.antt =====
-- `list` of callstack/sms/store.py against one filter and the last messages that pass it.
use callstack.Prelude.{
  ℕ, ◌-◌, ◌≡◌, refl, ap, sym, subst, ◌∙◌, Bool, true, ◌&&◌, List, [], ◌∷◌, ◌++◌, Option, none, some,
  arith, Text, text_eq, length, take, length-drop, take-append-drop, ltb, ◌==◌, if◌then◌else◌,
  Bool-cases, inl, inr, if_cases, ==_iff,
}
use callstack.Sms.Types.{Sms}
use callstack.Sms.Store.{
  Store, Result, returned, raised, value_error, keep, keep_equal, last_items, list_messages,
}

-- A filter that is not given, or is empty, lets every text pass.
abbrev pub wanted : Option Text → Text → Bool
wanted none t = true
wanted (some []) t = true
wanted (some (c ∷ u)) t = text_eq t (c ∷ u)

abbrev pub is_wanted : Option Text → Option Text → Option Text → Sms → Bool
is_wanted sender recipient status m =
    wanted sender m.sender && wanted recipient m.recipient && wanted status m.status

keep-keep : (p q : Sms → Bool) (ms : List Sms) → keep q (keep p ms) ≡ keep (λ m. p m && q m) ms
keep-keep p q [] = refl
keep-keep p q (m ∷ ms) = elim (Bool-cases (p m)) [
  | inl h ↦ rw h (ap (λ ns. if q m then m ∷ ns else ns) (keep-keep p q ms))
  | inr h ↦ rw h (keep-keep p q ms)
]

keep-true : (ms : List Sms) → keep (λ m. true) ms ≡ ms
keep-true [] = refl
keep-true (m ∷ ms) = ap (λ ns. m ∷ ns) (keep-true ms)

keep_equal_lem :
    (o : Option Text) (field : Sms → Text) (ms : List Sms)
    → keep_equal o field ms ≡ keep (λ m. wanted o (field m)) ms
unfolding keep_equal
keep_equal_lem none field ms = sym (keep-true ms)
keep_equal_lem (some []) field ms = sym (keep-true ms)
keep_equal_lem (some (c ∷ t)) field ms = refl

-- The end of a list: no more items than asked for, and all of them where there are no more.
pub last_items_lem :
    (n : ℕ) (ms : List Sms)
    → (take (length ms - n) ms ++ last_items n ms ≡ ms)
      × (length (last_items n ms) ≡ (if ltb n (length ms) then n else length ms))
unfolding last_items
last_items_lem n ms =
    (take-append-drop (length ms - n) ms, ground (arith, length-drop (length ms - n) ms))

list_messages_lem :
    (sender recipient status : Option Text) (limit : ℕ) (s : Store)
    → list_messages sender recipient status limit s ≡ (
        if limit == 0
        then raised value_error
        else returned (last_items limit (keep (is_wanted sender recipient status) s.messages)))
unfolding list_messages
list_messages_lem sender recipient status limit s =
    ap (λ ms. if limit == 0 then raised value_error else returned (last_items limit ms))
      (ap (λ ms. keep_equal status Sms.status (keep_equal recipient Sms.recipient ms))
          (keep_equal_lem sender Sms.sender s.messages)
        ∙ ap (keep_equal status Sms.status) (keep_equal_lem recipient Sms.recipient _)
        ∙ keep_equal_lem status Sms.status _
        ∙ ap (keep (λ m. wanted status m.status)) (keep-keep _ _ s.messages)
        ∙ keep-keep _ _ s.messages)

-- The wanted messages end in those that are returned, which are as many as the limit or all.
abbrev pub IsListed : ℕ → List Sms → Result (List Sms) → Type 0
IsListed limit wanted_messages (raised e) = limit ≡ 0
IsListed limit wanted_messages (returned ms) =
    (front : List Sms) × (front ++ ms ≡ wanted_messages)
    × (length ms ≡ (if ltb limit (length wanted_messages) then limit else length wanted_messages))

-- `list` raises an error for the limit 0, and for any other limit it returns the last of the messages
-- that pass the three filters, in their order: as many as the limit says, or all of them.
pub list_messages-IsListed :
    (sender recipient status : Option Text) (limit : ℕ) (s : Store)
    → IsListed limit
        (keep (is_wanted sender recipient status) s.messages)
        (list_messages sender recipient status limit s)
list_messages-IsListed sender recipient status limit s =
    let ms = keep (is_wanted sender recipient status) s.messages in
    subst (IsListed limit ms) (sym (list_messages_lem sender recipient status limit s)) (
      if_cases (IsListed limit ms) (limit == 0) (λ h. (==_iff limit 0).0 h)
        (λ h.
          (take (length ms - limit) ms, (last_items_lem limit ms).0, (last_items_lem limit ms).1)))

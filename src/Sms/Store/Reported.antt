-- ===== src/Sms/Store/Reported.antt =====
-- `save_delivery_report` of callstack/sms/store.py: which message a report is about, and what it
-- changes.
use callstack.Prelude.{
  ℕ, ◌≡◌, refl, ap, sym, subst, ◌∙◌, Bool, true, false, not, ◌&&◌, List, [], ◌∷◌, ◌++◌, Option,
  none, some, any, arith, Text, text_eq, ◌==◌, if◌then◌else◌, Bool-cases, inl, inr, if_cases,
  if_true, if_false, ==_iff, ==_refl, some_injective,
}
use callstack.Sms.Types.{Sms, DeliveryReport}
use callstack.Sms.Rows.{is_key, find, IsKeyed}
use callstack.Sms.Rows.Found.{head_absent, is_key_same}
use callstack.Sms.Store.{is_none}
use callstack.Sms.Store.Reports.{
  is_blank, reverse, matches, first_match, latest_matching_message, with_status,
}

-- The match is in the list, and behind it there is none; or there is none at all.
abbrev pub IsLatest : DeliveryReport → List Sms → Option Sms → Type 0
IsLatest r ms none = any (matches r) ms ≡ false
IsLatest r ms (some m) =
    (before : List Sms) × (after : List Sms) × (ms ≡ before ++ (m ∷ after))
    × (matches r m ≡ true)
    × (any (matches r) after ≡ false)

abbrev behind : DeliveryReport → Sms → Option Sms → Option Sms
behind r m none = if matches r m then some m else none
behind r m (some n) = some n

first_append :
    (r : DeliveryReport) (ms : List Sms) (m : Sms)
    → first_match r (ms ++ (m ∷ [])) ≡ behind r m (first_match r ms)
first_append r [] m = refl
first_append r (n ∷ ms) m = elim (Bool-cases (matches r n)) [
  | inl h ↦ rw h refl
  | inr h ↦ rw h (first_append r ms m)
]

behind-IsLatest :
    (r : DeliveryReport) (m : Sms) (ms : List Sms) (o : Option Sms)
    → IsLatest r ms o
    → IsLatest r (m ∷ ms) (behind r m o)
behind-IsLatest r m ms (some n) (before, after, e, h, l) =
    (m ∷ before, after, ap (λ ns. m ∷ ns) e, h, l)
behind-IsLatest r m ms none h =
    if_cases (IsLatest r (m ∷ ms)) (matches r m) (λ t. ([], ms, refl, t, h)) (λ f. rw f h)

reverse-IsLatest : (r : DeliveryReport) (ms : List Sms) → IsLatest r ms (first_match r (reverse ms))
reverse-IsLatest r [] = refl
reverse-IsLatest r (m ∷ ms) =
    subst (IsLatest r (m ∷ ms)) (sym (first_append r (reverse ms) m))
      (behind-IsLatest r m ms (first_match r (reverse ms)) (reverse-IsLatest r ms))

blank_match :
    (a b : Bool) (t u : Text)
    → is_blank u ≡ true
    → (a && not (is_blank t) && b && text_eq t u) ≡ false
unfolding text_eq
blank_match true true [] [] h = refl
blank_match true false [] [] h = refl
blank_match false b t u h = refl
blank_match true true (c ∷ t) [] h = refl
blank_match true false (c ∷ t) [] h = refl
blank_match true b t (c ∷ u) h = absurd (ground arith)

blank_none :
    (r : DeliveryReport) (ms : List Sms) → is_blank r.recipient ≡ true → any (matches r) ms ≡ false
unfolding matches
blank_none r [] h = refl
blank_none r (m ∷ ms) h =
    rw (blank_match (not (is_none m.id)) (m.reference == r.reference) m.recipient r.recipient h)
      (blank_none r ms h)

-- `_latest_matching_message` finds the last message in the list that was sent to the report's
-- recipient under its reference and has an id, and finds none only where there is none.
pub latest_matching_message-IsLatest :
    (r : DeliveryReport) (ms : List Sms) → IsLatest r ms (latest_matching_message r ms)
unfolding latest_matching_message
latest_matching_message-IsLatest r ms =
    if_cases (IsLatest r ms) (is_blank r.recipient) (λ h. blank_none r ms h)
      (λ h. reverse-IsLatest r ms)

pub first_match_same :
    (r : DeliveryReport) (o : Option ℕ) (ms : List Sms)
    → first_match (record r { id = o }) ms ≡ first_match r ms
unfolding matches
first_match_same r o [] = refl
first_match_same r o (m ∷ ms) =
    ap (λ p. if matches r m then some m else p) (first_match_same r o ms)

-- The message that is matched is the one that is found under its id.
pub find_middle :
    (j : ℕ) (m : Sms) (before after : List Sms)
    → IsKeyed Sms.id (before ++ (m ∷ after))
    → m.id ≡ some j
    → find Sms.id j (before ++ (m ∷ after)) ≡ some m
find_middle j m [] after k e = if_true _ _ _ (ap (λ o. is_key o j) e ∙ ==_refl j)
find_middle j m (b ∷ before) after k e = elim (Bool-cases (is_key b.id j)) [
  | inl h ↦ absurd (
      ground (
        arith,
        head_absent Sms.id j b (before ++ (m ∷ after)) k h,
        find_middle j m before after k.1 e,
      ))
  | inr h ↦ if_false _ _ _ h ∙ find_middle j m before after k.1 e
]

status_other :
    (i j : ℕ) (t : Text) (ms : List Sms)
    → (j == i) ≡ false
    → find Sms.id i (with_status j t ms) ≡ find Sms.id i ms
status_other i j t [] n = refl
status_other i j t (m ∷ ms) n = elim (Bool-cases (is_key m.id j)) [
  | inl h ↦
      let other : is_key m.id i ≡ false = is_key_same m.id i j h ∙ n in
      ap (λ b. find Sms.id i ((if b then record m { status = t } else m) ∷ with_status j t ms)) h
      ∙ if_false _ _ _ other
      ∙ status_other i j t ms n
      ∙ sym (if_false _ _ _ other)
  | inr h ↦
      ap (λ b. find Sms.id i ((if b then record m { status = t } else m) ∷ with_status j t ms)) h
      ∙ ap (λ o. if is_key m.id i then some m else o) (status_other i j t ms n)
]

status_self :
    (j : ℕ) (t : Text) (m : Sms) (ms : List Sms)
    → find Sms.id j ms ≡ some m
    → find Sms.id j (with_status j t ms) ≡ some (record m { status = t })
status_self j t m [] f = absurd (ground arith)
status_self j t m (n ∷ ms) f = elim (Bool-cases (is_key n.id j)) [
  | inl h ↦
      ap (λ b. find Sms.id j ((if b then record n { status = t } else n) ∷ with_status j t ms)) h
      ∙ if_true _ _ _ h
      ∙ ap (λ (x : Sms). some (record x { status = t }))
          (some_injective n m (sym (if_true _ _ _ h) ∙ f))
  | inr h ↦
      ap (λ b. find Sms.id j ((if b then record n { status = t } else n) ∷ with_status j t ms)) h
      ∙ if_false _ _ _ h
      ∙ status_self j t m ms (sym (if_false _ _ _ h) ∙ f)
]

pub find-with_status :
    (i j : ℕ) (t : Text) (m : Sms) (ms : List Sms)
    → find Sms.id j ms ≡ some m
    → find Sms.id i (with_status j t ms)
      ≡ (if j == i then some (record m { status = t }) else find Sms.id i ms)
find-with_status i j t m ms f = elim (Bool-cases (j == i)) [
  | inl e ↦
      subst (λ l. find Sms.id l (with_status j t ms) ≡ some (record m { status = t }))
        ((==_iff j i).0 e) (status_self j t m ms f)
      ∙ sym (if_true _ _ _ e)
  | inr e ↦ status_other i j t ms e ∙ sym (if_false _ _ _ e)
]

-- ===== src/Sms/Store/Matched.antt =====
-- What `save_delivery_report` of callstack/sms/store.py changes of the messages.
use callstack.Prelude.{
  arith, ℕ, ◌≡◌, ◌≢◌, ◌⊎◌, [], ◌∷◌, ◌++◌, any, All, Text, text_eq, text_eq_sound, text_eq_refl,
  ==_iff, Bool-cases, refl, ap, sym, subst, ◌∙◌, Bool, true, false, List, Option, none, some, ◌==◌,
  if◌then◌else◌, Option-cases, inl, inr, branches,
}
use callstack.Sms.Types.{Sms, DeliveryReport}
use callstack.Sms.Rows.{find, IsKeyed}
use callstack.Sms.Database.{Fault}
use callstack.Sms.Store.{Store, Result, returned, raised, get, is_none}
use callstack.Sms.Store.Reports.{
  latest_matching_message, reverse, is_blank, number_report, assign_report_id, stamp, link, matches,
  update_status, finish_report, run_statements, note_report, write_report, save_report_locked,
  save_delivery_report,
}
use callstack.Sms.Store.Reported.{
  IsLatest, latest_matching_message-IsLatest, first_match_same, find_middle, find-with_status,
}

-- The message has an id, and the report has its reference and its recipient, which is not empty.
abbrev pub IsAbout : DeliveryReport → Sms → Type 0
IsAbout r m =
    (j : ℕ) × (m.id ≡ some j)
    × (m.recipient ≢ [])
    × (m.reference ≡ r.reference)
    × (m.recipient ≡ r.recipient)

is_blank-none : (t : Text) → is_blank t ≡ false → t ≢ []
is_blank-none [] h = λ e. absurd (cc h)
is_blank-none (c ∷ t) h = λ e. absurd (cc e)

is_blank-some : (t : Text) → t ≢ [] → is_blank t ≡ false
is_blank-some [] h = absurd (h refl)
is_blank-some (c ∷ t) h = refl

matches-IsAbout : (r : DeliveryReport) (m : Sms) → matches r m ≡ true → IsAbout r m
unfolding matches
matches-IsAbout r m h = elim (Option-cases m.id) [
  | inl n ↦ absurd (ground (arith, h, n))
  | inr (j, n) ↦ (
    j,
    n,
    is_blank-none m.recipient (ground (arith, h)),
    (==_iff m.reference r.reference).0 (ground (arith, h)),
    text_eq_sound m.recipient r.recipient (ground (arith, h)),
  )
]

IsAbout-matches : (r : DeliveryReport) (m : Sms) → IsAbout r m → matches r m ≡ true
unfolding matches
IsAbout-matches r m (j, n, full, reference, recipient) =
    let a = is_blank-some m.recipient full in
    let b : (m.reference == r.reference) ≡ true = (==_iff m.reference r.reference).1 reference in
    let c : text_eq m.recipient r.recipient ≡ true =
      subst (λ t. text_eq m.recipient t ≡ true) recipient (text_eq_refl m.recipient) in
    ground (arith, n, a, b, c)

none-IsAbout :
    (r : DeliveryReport) (ms : List Sms)
    → any (matches r) ms ≡ false
    → All (λ m. IsAbout r m → ⊥) ms
none-IsAbout r [] h = tt
none-IsAbout r (m ∷ ms) h = elim (Bool-cases (matches r m)) [
  | inl e ↦ absurd (ground (arith, h, e))
  | inr e ↦ (λ a. absurd (cc (e, IsAbout-matches r m a)), none-IsAbout r ms (ground (arith, h, e)))
]

-- The latest match has the status of the report and its id is in the report; every other message is
-- as it was.
abbrev IsMatched : DeliveryReport → Store → Store → DeliveryReport → Option Sms → Type 0
IsMatched r s t q none = t.messages ≡ s.messages
IsMatched r s t q (some m) =
    (j : ℕ) × (m.id ≡ some j)
    × (q.message_id ≡ some j)
    × ((i : ℕ) → get i t ≡ (if j == i then some (record m { status = r.status }) else get i s))

abbrev IsNoted : DeliveryReport → Store → Store × Result DeliveryReport → Type 0
IsNoted r s (t, returned q) = IsMatched r s t q (latest_matching_message r s.messages)
IsNoted r s (t, raised e) = t.messages ≡ s.messages

-- The last message of the list that the report is about has the status of the report, its id is in the
-- report, and the messages of all other ids are as they were.
abbrev pub HasMatch : DeliveryReport → Store → Store → DeliveryReport → Type 0
HasMatch r s t q =
    (before : List Sms) × (m : Sms) × (after : List Sms) × (s.messages ≡ before ++ (m ∷ after))
    × IsAbout r m
    × All (λ n. IsAbout r n → ⊥) after
    × (j : ℕ) × (m.id ≡ some j)
    × (q.message_id ≡ some j)
    × ((i : ℕ) → get i t ≡ (if j == i then some (record m { status = r.status }) else get i s))

-- The report is about no message, and all are as they were.
abbrev pub HasNoMatch : DeliveryReport → Store → Store → Type 0
HasNoMatch r s t = All (λ n. IsAbout r n → ⊥) s.messages × (t.messages ≡ s.messages)

-- What a call of `save_delivery_report` may leave.
abbrev pub IsReported : DeliveryReport → Store → Store × Result DeliveryReport → Type 0
IsReported r s (t, returned q) = HasMatch r s t q ⊎ HasNoMatch r s t
IsReported r s (t, raised e) = t.messages ≡ s.messages

described :
    (r : DeliveryReport) (s t : Store) (q : DeliveryReport) (o : Option Sms)
    → IsLatest r s.messages o
    → IsMatched r s t q o
    → HasMatch r s t q ⊎ HasNoMatch r s t
described r s t q none l h = inr (none-IsAbout r s.messages l, h)
described r s t q (some m) (before, after, e, about, l) (j, i, n, h) =
    inl (before, m, after, e, matches-IsAbout r m about, none-IsAbout r after l, j, i, n, h)

IsNoted-IsReported :
    (r : DeliveryReport) (s : Store) (x : Store × Result DeliveryReport)
    → IsNoted r s x
    → IsReported r s x
IsNoted-IsReported r s (t, returned q) h =
    described r s t q (latest_matching_message r s.messages)
      (latest_matching_message-IsLatest r s.messages) h
IsNoted-IsReported r s (t, raised e) h = h

report_messages :
    (f : Fault) (c a : Bool) (i : ℕ) (r : DeliveryReport) (o : Option Sms) (s : Store)
    → (write_report f c a i r o s).0.messages ≡ s.messages
unfolding write_report run_statements note_report
report_messages f c a i r o s =
    branches (λ (w : Store × Bool). w.0.messages ≡ s.messages) s.connected refl
      (branches (λ (t : Store). t.messages ≡ s.messages) s.has_path refl refl)

assigned_messages :
    (r : DeliveryReport) (s : Store) (o : Option ℕ) → (number_report r s o).0.messages ≡ s.messages
assigned_messages r s none = refl
assigned_messages r s (some i) = refl

-- The report is about the same message whatever its id.
assigned_match :
    (r : DeliveryReport) (s : Store) (ms : List Sms) (o : Option ℕ)
    → latest_matching_message (number_report r s o).1.1 ms ≡ latest_matching_message r ms
unfolding latest_matching_message
assigned_match r s ms none =
    ap (λ p. if is_blank r.recipient then none else p)
      (first_match_same r (some s.next_report_id) (reverse ms))
assigned_match r s ms (some i) = refl

stamped_status :
    (now : ℕ) (r : DeliveryReport) (s : Store) (o : Option ℕ)
    → (stamp now (number_report r s o).1.1).status ≡ r.status
stamped_status now r s none = elim (Option-cases r.timestamp) [
  | inl e ↦ rw e refl
  | inr (t, e) ↦ rw e refl
]
stamped_status now r s (some i) = elim (Option-cases r.timestamp) [
  | inl e ↦ rw e refl
  | inr (t, e) ↦ rw e refl
]

-- The id of the match, which the list has.
latest_found :
    (r : DeliveryReport) (ms : List Sms) (m : Sms)
    → IsKeyed Sms.id ms
    → IsLatest r ms (some m)
    → (j : ℕ) × (m.id ≡ some j) × (find Sms.id j ms ≡ some m)
unfolding matches
latest_found r ms m k (before, after, e, h, l) = elim (Option-cases m.id) [
  | inl n ↦ absurd (ground (arith, h, n))
  | inr (j, n) ↦ (
    j,
    n,
    ap (λ ns. find Sms.id j ns) e ∙ find_middle j m before after (subst (IsKeyed Sms.id) e k) n,
  )
]

-- What the end of the method leaves, behind the write.
finished :
    (k : ℕ) (q r : DeliveryReport) (s u : Store) (ok : Bool) (o : Option Sms)
    → u.messages ≡ s.messages
    → q.status ≡ r.status
    → IsKeyed Sms.id s.messages
    → IsLatest r s.messages o
    → latest_matching_message r s.messages ≡ o
    → IsNoted r s (finish_report k (link o q) o (u, ok))
unfolding finish_report get
finished k q r s u false o e g c l w = e
finished k q r s u true none e g c l w =
    subst (IsMatched r s (finish_report k q none (u, true)).0 q) (sym w) e
finished k q r s u true (some m) e g c l w =
    let (j, n, f) = latest_found r s.messages m c l in
    subst (IsMatched r s (finish_report k (link (some m) q) (some m) (u, true)).0 (link (some m) q))
      (sym w)
      (
        j,
        n,
        n,
        λ i.
            ap (λ o. find Sms.id i (update_status o q.status u).messages) n
            ∙ find-with_status i j q.status m u.messages (ap (λ ms. find Sms.id j ms) e ∙ f)
            ∙ ap (λ t. if j == i then some (record m { status = t }) else find Sms.id i u.messages)
                g
            ∙ ap (λ ms. if j == i then some (record m { status = r.status }) else find Sms.id i ms)
                e,
      )

saved-IsNoted :
    (f : Fault) (now : ℕ) (r : DeliveryReport) (s : Store)
    → IsKeyed Sms.id s.messages
    → IsNoted r s (save_delivery_report f now r s)
unfolding save_delivery_report save_report_locked assign_report_id
saved-IsNoted f now r s k =
    let (t, (i, q)) = number_report r s r.id in
    let o = latest_matching_message q t.messages in
    let same : o ≡ latest_matching_message r s.messages =
      ap (latest_matching_message q) (assigned_messages r s r.id)
      ∙ assigned_match r s s.messages r.id in
    let w = write_report f true (is_none r.id) i (link o (stamp now q)) o t in
    finished i (stamp now q) r s w.0 w.1 o
      (report_messages f true (is_none r.id) i (link o (stamp now q)) o t
        ∙ assigned_messages r s r.id)
      (stamped_status now r s r.id) k
      (subst (IsLatest r s.messages) (sym same) (latest_matching_message-IsLatest r s.messages))
      (sym same)

-- From a store whose messages have distinct ids: where the list has a message with an id, of the
-- report's recipient, which is not empty, and of its reference, `save_delivery_report` gives the last
-- such message of the list the status of the report, puts its id into the report and leaves the
-- messages of all other ids as they were; without such a message, and where the call raises, all
-- messages are as they were.
pub save_delivery_report-IsReported :
    (f : Fault) (now : ℕ) (r : DeliveryReport) (s : Store)
    → IsKeyed Sms.id s.messages
    → IsReported r s (save_delivery_report f now r s)
save_delivery_report-IsReported f now r s k =
    IsNoted-IsReported r s (save_delivery_report f now r s) (saved-IsNoted f now r s k)

-- ===== src/Protocol/Commands/Inert.antt =====
-- Characters that neither end a line nor a quotation, and the arguments that have only such.
use callstack.Prelude.{
  ℕ, zero, suc, ◌+◌, ◌/◌, ◌%◌, ◌≡◌, refl, sym, ◌∙◌, subst, Bool, true, false, not, ◌&&◌, List, [],
  ◌∷◌, ◌++◌, some, Text, all, any, ◌==◌, if◌then◌else◌, Bool-cases, inl, inr, arith, text_eq,
  text_eq_sound,
}
use callstack.Pdu.Phone.{is_digit, without_plus, matches_recipient}
use callstack.Protocol.Lines.{is_in}
use callstack.Protocol.Commands.{
  in_groups, matches_service, matches_number, validate_phone, is_breakout, decimal_digits,
}

-- Neither a quotation mark nor the end of a line.
abbrev pub inert : ℕ → Bool
inert c = not (is_breakout c)

unfoldable pub quotes : Text → ℕ
quotes [] = 0
quotes (c ∷ s) = if c == b'"' then suc (quotes s) else quotes s

-- One line, with so many quotation marks.
abbrev pub IsFramed : ℕ → Text → Type 0
IsFramed q t = (quotes t ≡ q) × (all (λ c. not (c == 13) && not (c == 10)) t ≡ true)

pub quotes-append : (s t : Text) → quotes (s ++ t) ≡ quotes s + quotes t
unfolding quotes
quotes-append [] t = omega arith
quotes-append (c ∷ s) t = ground (arith, quotes-append s t)

pub all-append : (p : ℕ → Bool) (s t : Text) → all p (s ++ t) ≡ (all p s && all p t)
all-append p [] t = refl
all-append p (c ∷ s) t = ground (arith, all-append p s t)

abbrev pub on_line : ℕ → Bool
on_line c = not (c == 13) && not (c == 10)

pub append-IsFramed :
    (p q : ℕ) (s t : Text) → IsFramed p s → IsFramed q t → IsFramed (p + q) (s ++ t)
append-IsFramed p q s t h k =
    let (a, x) = h in
    let (b, y) = k in
    (
      omega (arith, quotes-append s t),
      all-append on_line s t ∙ ground (arith, all-append on_line s t),
    )

pub inert-IsFramed : (t : Text) → all inert t ≡ true → IsFramed 0 t
unfolding quotes
inert-IsFramed [] h = (refl, refl)
inert-IsFramed (c ∷ t) h = let rest = inert-IsFramed t (ground arith) in ground arith

-- A test that only inert characters pass.
pub all-inert :
    (p : ℕ → Bool) (t : Text)
    → ((c : ℕ) → p c ≡ true → inert c ≡ true)
    → all p t ≡ true
    → all inert t ≡ true
all-inert p [] h a = refl
all-inert p (c ∷ t) h a = let rest = all-inert p t h in ground (arith, rest, h c)

pub digit_inert : (c : ℕ) → is_digit c ≡ true → inert c ≡ true
digit_inert c h = ground arith

pub decimal_inert :
    (fuel n : ℕ) (out : Text) → all inert out ≡ true → all inert (decimal_digits fuel n out) ≡ true
unfolding decimal_digits
decimal_inert zero n out h = h
decimal_inert (suc fuel) n out h =
    let rest = decimal_inert fuel (n / 10) ((b'0' + n % 10) ∷ out) in
    let d : inert (b'0' + n % 10) ≡ true = digit_inert (b'0' + n % 10) (ground arith) in
    ground (arith, rest, d)

pub service_inert : (seen : Bool) (s : Text) → in_groups seen s ≡ true → all inert s ≡ true
unfolding in_groups
service_inert seen [] h = refl
service_inert seen (c ∷ []) h = ground arith
service_inert seen (c ∷ d ∷ s) h =
    let rest = service_inert (is_digit c) (d ∷ s) in ground (arith, rest)

pub phone_inert : (s : Text) → matches_number s ≡ true → all inert s ≡ true
unfolding matches_number without_plus
phone_inert [] h = refl
phone_inert (c ∷ s) h =
    let digits = all-inert is_digit s digit_inert in
    let d = digit_inert c in ground (arith, digits, d)

pub dial_inert : (s t : Text) → validate_phone s ≡ some t → (s ≡ t) × (all inert s ≡ true)
unfolding validate_phone matches_service matches_number without_plus
dial_inert [] t h = absurd (ground arith)
dial_inert (c ∷ s) t h =
    let number = phone_inert (c ∷ s) in
    let service = service_inert false s in ground (arith, number, service)

pub recipient_inert : (s : Text) → matches_recipient s ≡ true → all inert s ≡ true
unfolding matches_recipient without_plus
recipient_inert [] h = refl
recipient_inert (c ∷ s) h =
    let digits = all-inert is_digit s digit_inert in
    let d = digit_inert c in ground (arith, digits, d)

pub code_inert : (s : Text) → any is_breakout s ≡ false → all inert s ≡ true
code_inert [] h = refl
code_inert (c ∷ s) h = let rest = code_inert s in ground (arith, rest)

pub status_inert :
    (s : Text) (valid : List Text)
    → is_in s valid ≡ true
    → all (all inert) valid ≡ true
    → all inert s ≡ true
unfolding is_in
status_inert s [] h k = absurd (ground arith)
status_inert s (v ∷ valid) h k = elim (Bool-cases (text_eq s v)) [
  | inl e ↦ subst (λ t. all inert t ≡ true) (sym (text_eq_sound s v e)) (ground arith)
  | inr e ↦ status_inert s valid (ground arith) (ground arith)
]

-- An inert argument between two texts.
pub argument :
    (p q : ℕ) (before arg behind : Text)
    → IsFramed p before
    → all inert arg ≡ true
    → IsFramed q behind
    → IsFramed (p + q) (before ++ (arg ++ behind))
argument p q before arg behind a b c =
    let rest = append-IsFramed 0 q arg behind (inert-IsFramed arg b) c in
    append-IsFramed p q before (arg ++ behind) a
      (subst (λ n. IsFramed n (arg ++ behind)) (omega arith) rest)

-- ===== src/Protocol/Parser/Printed.antt =====
-- What the scanners of callstack/protocol/parser.py make of printed pieces, with any spaces between.
use callstack.Prelude.{
  ℕ, zero, suc, ◌+◌, ◌-◌, ◌*◌, ◌/◌, ◌%◌, ◌≤◌, ◌<◌, ◌≡◌, refl, ap, ◌∙◌, Bool, true, false, not, [],
  ◌∷◌, ◌++◌, some, Text, all, ltb, ◌==◌, arith, Bool-cases, ltb→lt, inl, inr,
}
use callstack.Pdu.Phone.{is_digit}
use callstack.Protocol.Lines.{is_space, lstrip}
use callstack.Protocol.Commands.{decimal, decimal_digits}
use callstack.Protocol.Parser.Scan.{after, digits_from, number, up_to_mark, quoted, comma}

pub after-append : (p s : Text) → after p (p ++ s) ≡ some s
unfolding after
after-append [] s = refl
after-append (c ∷ p) s = ground (arith, after-append p s)

-- Spaces.
abbrev pub IsGap : Text → Type 0
IsGap g = all is_space g ≡ true

pub lstrip-gap :
    (g : Text) (c : ℕ) (s : Text) → IsGap g → is_space c ≡ false → lstrip (g ++ (c ∷ s)) ≡ c ∷ s
unfolding lstrip
lstrip-gap [] c s h k = ground arith
lstrip-gap (d ∷ g) c s h k = ground (arith, lstrip-gap g c s)

pub lstrip-blank : (g : Text) → IsGap g → lstrip g ≡ []
unfolding lstrip
lstrip-blank [] h = refl
lstrip-blank (d ∷ g) h = ground (arith, lstrip-blank g)

-- A text without a quotation mark.
abbrev pub unmarked : ℕ → Bool
unmarked c = not (c == b'"')

pub up_to_mark-append :
    (t s : Text) → all unmarked t ≡ true → up_to_mark (t ++ (b'"' ∷ s)) ≡ some (t, s)
unfolding up_to_mark
up_to_mark-append [] s h = refl
up_to_mark-append (c ∷ t) s h = rw (up_to_mark-append t s (ground arith)) (ground arith)

pub quoted-append :
    (t s : Text) → all unmarked t ≡ true → quoted (b'"' ∷ (t ++ (b'"' ∷ s))) ≡ some (t, s)
unfolding quoted after
quoted-append t s h = rw (up_to_mark-append t s h) refl

pub comma-gap :
    (g k : Text) (c : ℕ) (s : Text)
    → IsGap g
    → IsGap k
    → is_space c ≡ false
    → comma (g ++ (b',' ∷ (k ++ (c ∷ s)))) ≡ some (c ∷ s)
unfolding comma after is_space
comma-gap g k c s h l m =
    rw (lstrip-gap g b',' (k ++ (c ∷ s)) h refl) (ap some (lstrip-gap k c s l m))

pub ltb→ge : (a b : ℕ) → ltb a b ≡ false → b ≤ a
ltb→ge a b h = ground arith

-- A text that goes on with no digit.
abbrev pub Stops : Text → Type 0
Stops [] = Unit
Stops (c ∷ s) = is_digit c ≡ false

digits_from-Stops : (n : ℕ) (s : Text) → Stops s → digits_from n s ≡ (n, s)
unfolding digits_from
digits_from-Stops n [] h = refl
digits_from-Stops n (c ∷ s) h = ground arith

digits_from-digit :
    (m d v : ℕ) (t : Text)
    → d < 10
    → 10 * m + d ≡ v
    → digits_from m ((b'0' + d) ∷ t) ≡ digits_from v t
unfolding digits_from
digits_from-digit m d v t h e =
    let digit : is_digit (b'0' + d) ≡ true = ground arith in
    let value : 10 * m + (b'0' + d - b'0') ≡ v = omega arith in
    rw digit (ap (λ x. digits_from x t) value)

digits_from-decimal_digits :
    (fuel n : ℕ) (out s : Text)
    → n < fuel
    → digits_from 0 (decimal_digits fuel n out ++ s) ≡ digits_from n (out ++ s)
unfolding decimal_digits digits_from
digits_from-decimal_digits zero n out s h = absurd (omega arith)
digits_from-decimal_digits (suc fuel) n out s h = elim (Bool-cases (ltb n 10)) [
  | inl e ↦ rw e (digits_from-digit 0 n n (out ++ s) (ltb→lt n 10 e) (omega arith))
  | inr e ↦ rw e (
      digits_from-decimal_digits fuel (n / 10) ((b'0' + n % 10) ∷ out) s
        (omega (arith, ltb→ge n 10 e))
      ∙ digits_from-digit (n / 10) (n % 10) n (out ++ s) (omega arith) (omega arith))
]

-- The first digit.
decimal_digits-head :
    (fuel n : ℕ) (out : Text)
    → (c : ℕ) × (t : Text) × (decimal_digits (suc fuel) n out ≡ c ∷ t) × (is_digit c ≡ true)
unfolding decimal_digits
decimal_digits-head zero n out = elim (Bool-cases (ltb n 10)) [
  | inl e ↦ (b'0' + n, out, rw e refl, ground arith)
  | inr e ↦ (b'0' + n % 10, out, rw e refl, ground arith)
]
decimal_digits-head (suc fuel) n out = elim (Bool-cases (ltb n 10)) [
  | inl e ↦ (b'0' + n, out, rw e refl, ground arith)
  | inr e ↦
      let (c, t, q, d) = decimal_digits-head fuel (n / 10) ((b'0' + n % 10) ∷ out) in
      (c, t, rw e q, d)
]

pub decimal-head : (n : ℕ) → (c : ℕ) × (t : Text) × (decimal n ≡ c ∷ t) × (is_digit c ≡ true)
decimal-head n = decimal_digits-head n n []

number-digits_from :
    (c : ℕ) (t : Text) → is_digit c ≡ true → number (c ∷ t) ≡ some (digits_from 0 (c ∷ t))
unfolding number digits_from
number-digits_from c t h = ground arith

-- A printed number is read back, whatever follows that is no digit.
pub number-decimal : (n : ℕ) (s : Text) → Stops s → number (decimal n ++ s) ≡ some (n, s)
number-decimal n s h =
    let (c, t, q, d) = decimal-head n in
    let whole : digits_from 0 (decimal n ++ s) ≡ (n, s) =
      digits_from-decimal_digits (suc n) n [] s (omega arith) ∙ digits_from-Stops n s h in
    let first : number (decimal n ++ s) ≡ some (digits_from 0 (decimal n ++ s)) =
      rw q (number-digits_from c (t ++ s) d) in
    first ∙ ap some whole

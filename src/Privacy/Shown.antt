-- ===== src/Privacy/Shown.antt =====
-- How much of a number is shown (callstack/privacy.py).
use callstack.Prelude.{
  ℕ, ◌-◌, ◌≤◌, ◌<◌, ◌≡◌, refl, ap, ◌∙◌, Bool, false, [], ◌∷◌, ◌++◌, some, Text, codes, length,
  length-drop, leb, starts_with, arith, Bool-cases, inl, inr,
}
use callstack.Protocol.Lines.{lstrip}
use callstack.Protocol.Commands.{is_empty}
use callstack.Privacy.{digits_of, plus_of, suffix_of, redact_text, redact_phone_number}

module _ (is_decimal : ℕ → Bool) where
  digits_of-append :
      (s t : Text)
      → digits_of is_decimal (s ++ t) ≡ digits_of is_decimal s ++ digits_of is_decimal t
  unfolding digits_of
  digits_of-append [] t = refl
  digits_of-append (c ∷ s) t = ground (arith, digits_of-append s t)

  -- No more digits than there are characters.
  digits_of_le : (s : Text) → length (digits_of is_decimal s) ≤ length s
  unfolding digits_of
  digits_of_le [] = omega arith
  digits_of_le (c ∷ s) = ground (arith, digits_of_le s)

  module _ (star : is_decimal b'*' ≡ false) (plus : is_decimal b'+' ≡ false) where
    plus_of-digits : (s : Text) → digits_of is_decimal (plus_of is_decimal s) ≡ []
    unfolding digits_of
    plus_of-digits s = elim (Bool-cases (starts_with (codes "+") (lstrip s))) [
      | inl e ↦ rw e (rw plus refl)
      | inr e ↦ rw e refl
    ]

    hidden :
        (s t : Text)
        → digits_of is_decimal (plus_of is_decimal s ++ (codes "***" ++ t)) ≡ digits_of is_decimal t
    unfolding digits_of
    hidden s t =
        digits_of-append (plus_of is_decimal s) (codes "***" ++ t)
        ∙ (ap (λ x. x ++ digits_of is_decimal (codes "***" ++ t)) (plus_of-digits s) ∙ rw star refl)

    not_empty : (t : Text) → 1 ≤ length t → is_empty t ≡ false
    not_empty [] h = absurd (omega arith)
    not_empty (c ∷ t) h = refl

    -- Of a number at most four digits are shown, and never all of them.
    pub redact_phone_number_hides :
        (s : Text)
        → 1 ≤ length (digits_of is_decimal s)
        → (length (digits_of is_decimal (redact_phone_number is_decimal (some s))) ≤ 4)
          × (length (digits_of is_decimal (redact_phone_number is_decimal (some s)))
              < length (digits_of is_decimal s))
    unfolding redact_phone_number redact_text digits_of
    redact_phone_number_hides [] h = absurd (omega arith)
    redact_phone_number_hides (c ∷ s) h =
        let text = c ∷ s in
        let digits = digits_of is_decimal text in
        let some_digit : is_empty digits ≡ false = not_empty digits h in
        elim (Bool-cases (leb (length digits) 4)) [
          | inl e ↦
              let none_shown = ap length (hidden text []) in
              rw some_digit (rw e (rw none_shown (omega arith, h)))
          | inr e ↦
              let shown = ap length (hidden text (suffix_of is_decimal digits)) in
              let few = digits_of_le (suffix_of is_decimal digits) in
              let four = length-drop (length digits - 4) digits in
              let many : 4 < length digits = ground arith in
              rw some_digit (rw e (rw shown (omega arith, omega arith)))
        ]

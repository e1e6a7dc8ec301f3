-- ===== src/Tests/Privacy.antt =====
-- Numbers as the log shows them (callstack/privacy.py).
use callstack.Protocol.Lines.{is_space, lstrip}
use callstack.Prelude.{starts_with, ◌≤◌, ◌<◌, ◌≡◌, refl, some, codes, length, arith}
use callstack.Pdu.Phone.{is_digit}
use callstack.Privacy.{
  has_long_run, redact_label, redact_labels, redact_text, digits_of, redact_phone_number,
  redact_phone_like_host_labels,
}
use callstack.Privacy.Shown.{redact_phone_number_hides}

redact_phone_number_hides_example :
    (length (digits_of is_digit (redact_phone_number is_digit (some (codes "+46 70-123 45 67"))))
      ≤ 4)
    × (length (digits_of is_digit (redact_phone_number is_digit (some (codes "+46 70-123 45 67"))))
        < length (digits_of is_digit (codes "+46 70-123 45 67")))
unfolding digits_of
redact_phone_number_hides_example =
    redact_phone_number_hides is_digit refl refl (codes "+46 70-123 45 67") (omega arith)

number_shown : redact_phone_number is_digit (some (codes "+46 70-123 45 67")) ≡ codes "+***4567"
unfolding redact_phone_number redact_text digits_of starts_with lstrip is_space
number_shown = refl

host_shown :
    redact_phone_like_host_labels is_digit (codes "a.46701234567.se") ≡ codes "a.[redacted].se"
unfolding redact_phone_like_host_labels redact_labels redact_label has_long_run
host_shown = refl

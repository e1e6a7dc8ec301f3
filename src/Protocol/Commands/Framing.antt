-- ===== src/Protocol/Commands/Framing.antt =====
-- A built command is one line, and no argument leaves its quotation.
use callstack.Prelude.{
  ℕ, suc, ◌≡◌, refl, subst, Bool, true, ◌&&◌, ◌||◌, [], ◌++◌, Option, none, some, Text, codes,
  length, all, any, ◌==◌, if◌then◌else◌, Bool-cases, Option-cases, inl, inr, arith,
}
use callstack.Pdu.Phone.{matches_recipient}
use callstack.Protocol.Lines.{is_in}
use callstack.Protocol.Commands.{
  ℤ, pos, negsuc, is_empty, validate_phone, is_breakout, validate_ussd_code, validate_ussd_encoding,
  decimal, dial, send_sms, read_sms, delete_sms, valid_sms_statuses, list_sms, is_code, cpin_enter,
  cpin_puk, dtmf_duration_units, is_dtmf, dtmf_command, send_dtmf, ussd_send,
}
use callstack.Protocol.Commands.Inert.{
  inert, quotes, IsFramed, append-IsFramed, inert-IsFramed, all-inert, decimal_inert, dial_inert,
  recipient_inert, code_inert, status_inert, argument,
}

-- The builders.
pub data Request : Type 0 where
  to_dial : Text → Request
  to_send : Text → Request
  to_read : ℤ → Request
  to_delete : ℤ → Request
  to_list : Text → Request
  to_unlock : Text → Request
  to_unblock : Text → Text → Request
  to_tone : Text → Option ℤ → Request
  to_service : Text → ℤ → Request

-- The command for a request.
unfoldable pub build : (ℕ → Bool) → Request → Option Text
build isdigit (to_dial number) = dial number
build isdigit (to_send number) = send_sms number
build isdigit (to_read index) = read_sms index
build isdigit (to_delete index) = delete_sms index
build isdigit (to_list status) = list_sms status
build isdigit (to_unlock pin) = cpin_enter isdigit pin
build isdigit (to_unblock puk new_pin) = cpin_puk isdigit puk new_pin
build isdigit (to_tone digit duration) = send_dtmf digit duration
build isdigit (to_service code encoding) = ussd_send code encoding

-- The quotation marks of a command of this kind.
abbrev pub marks : Request → ℕ
marks (to_send number) = 2
marks (to_list status) = 2
marks (to_unlock pin) = 2
marks (to_unblock puk new_pin) = 4
marks (to_service code encoding) = 2
marks _ = 0

guarded : (b : Bool) (x t : Text) → (if b then some x else none) ≡ some t → (b ≡ true) × (x ≡ t)
guarded b x t h = ground arith

dial-Framed : (number t : Text) → dial number ≡ some t → IsFramed 0 t
unfolding dial quotes
dial-Framed number t h = elim (Option-cases (validate_phone number)) [
  | inl e ↦ absurd (ground arith)
  | inr (v, e) ↦
      let (same, ok) = dial_inert number v e in
      subst (IsFramed 0) (let w : codes "ATD" ++ (v ++ codes ";") ≡ t = ground arith in w) (
        argument 0 0 (codes "ATD") v (codes ";") (refl, refl)
          (subst (λ x. all inert x ≡ true) same ok) (refl, refl))
]

send-Framed : (number t : Text) → send_sms number ≡ some t → IsFramed 2 t
unfolding send_sms quotes
send-Framed number t h =
    let (ok, e) = guarded (matches_recipient number) _ t h in
    subst (IsFramed 2) e (
      argument 1 1 (codes "AT+CMGS=\"") number (codes "\"") (refl, refl) (recipient_inert number ok)
        (refl, refl))

-- A number behind a text without quotation marks.
number-Framed : (before : Text) (n : ℕ) → IsFramed 0 before → IsFramed 0 (before ++ decimal n)
number-Framed before n h =
    append-IsFramed 0 0 before (decimal n) h
      (inert-IsFramed (decimal n) (decimal_inert (suc n) n [] refl))

list-Framed : (status t : Text) → list_sms status ≡ some t → IsFramed 2 t
unfolding list_sms quotes
list-Framed status t h =
    let (ok, e) = guarded (is_in status valid_sms_statuses) _ t h in
    subst (IsFramed 2) e (
      argument 1 1 (codes "AT+CMGL=\"") status (codes "\"") (refl, refl)
        (status_inert status valid_sms_statuses ok refl) (refl, refl))

module _ (isdigit : ℕ → Bool) (plain : (c : ℕ) → isdigit c ≡ true → inert c ≡ true) where
  code_lem :
      (low high : ℕ) (pin : Text) → is_code isdigit low high pin ≡ true → all inert pin ≡ true
  unfolding is_code
  code_lem low high pin h = all-inert isdigit pin plain (ground arith)

  enter-Framed : (pin t : Text) → cpin_enter isdigit pin ≡ some t → IsFramed 2 t
  unfolding cpin_enter quotes
  enter-Framed pin t h =
      let (ok, e) = guarded (is_code isdigit 4 8 pin) _ t h in
      subst (IsFramed 2) e (
        argument 1 1 (codes "AT+CPIN=\"") pin (codes "\"") (refl, refl) (code_lem 4 8 pin ok)
          (refl, refl))

  puk-Framed : (puk new_pin t : Text) → cpin_puk isdigit puk new_pin ≡ some t → IsFramed 4 t
  unfolding cpin_puk quotes
  puk-Framed puk new_pin t h =
      let (ok, e) = guarded (is_code isdigit 8 8 puk && is_code isdigit 4 8 new_pin) _ t h in
      subst (IsFramed 4) e (
        argument 1 3 (codes "AT+CPIN=\"") puk _ (refl, refl) (code_lem 8 8 puk (ground arith))
          (argument 2 1 (codes "\",\"") new_pin (codes "\"") (refl, refl)
            (code_lem 4 8 new_pin (ground arith)) (refl, refl)))

dtmf_inert : (c : ℕ) → is_dtmf c ≡ true → inert c ≡ true
dtmf_inert c h = ground arith

tone-Framed :
    (digit t : Text) (duration : Option ℤ) → send_dtmf digit duration ≡ some t → IsFramed 0 t
unfolding send_dtmf dtmf_command quotes
tone-Framed digit t duration h = elim (Bool-cases ((length digit == 1) && all is_dtmf digit)) [
  | inr e ↦ absurd (ground arith)
  | inl e ↦
      let ok = all-inert is_dtmf digit dtmf_inert (ground arith) in
      elim (Option-cases (dtmf_duration_units duration)) [
        | inl f ↦ absurd (ground arith)
        | inr (none, f) ↦
            subst (IsFramed 0) (let w : codes "AT+VTS=" ++ digit ≡ t = ground arith in w)
              (append-IsFramed 0 0 (codes "AT+VTS=") digit (refl, refl) (inert-IsFramed digit ok))
        | inr (some units, f) ↦
            subst (IsFramed 0)
              (let w : codes "AT+VTS=" ++ (digit ++ (codes "," ++ decimal units)) ≡ t =
                  ground arith in
                w)
              (argument 0 0 (codes "AT+VTS=") digit _ (refl, refl) ok
                (number-Framed (codes ",") units (refl, refl)))
      ]
]

service-Framed : (code t : Text) (encoding : ℤ) → ussd_send code encoding ≡ some t → IsFramed 2 t
unfolding ussd_send validate_ussd_code quotes
service-Framed code t encoding h = elim (Bool-cases (is_empty code || any is_breakout code)) [
  | inl e ↦ absurd (ground arith)
  | inr e ↦ elim (Option-cases (validate_ussd_encoding encoding)) [
    | inl f ↦ absurd (ground arith)
    | inr (n, f) ↦
        subst (IsFramed 2)
          (let w : codes "AT+CUSD=1,\"" ++ (code ++ (codes "\"," ++ decimal n)) ≡ t =
              ground arith in
            w)
          (argument 1 1 (codes "AT+CUSD=1,\"") code _ (refl, refl) (code_inert code (ground arith))
            (append-IsFramed 1 0 (codes "\",") (decimal n) (refl, refl)
              (inert-IsFramed (decimal n) (decimal_inert (suc n) n [] refl))))
  ]
]

-- Whatever texts and numbers are given, a command that is built is one line, and holds only the
-- quotation marks of its own shape: no argument ends the command early or leaves its quotation. This
-- rests on `str.isdigit` telling neither a quotation mark nor the end of a line for a digit.
pub build-Framed :
    (isdigit : ℕ → Bool) (r : Request) (t : Text)
    → ((c : ℕ) → isdigit c ≡ true → inert c ≡ true)
    → build isdigit r ≡ some t
    → IsFramed (marks r) t
unfolding build read_sms delete_sms quotes
build-Framed isdigit (to_dial number) t plain h = dial-Framed number t h
build-Framed isdigit (to_send number) t plain h = send-Framed number t h
build-Framed isdigit (to_read (pos n)) t plain h =
    subst (IsFramed 0) (let w : codes "AT+CMGR=" ++ decimal n ≡ t = cc in w)
      (number-Framed (codes "AT+CMGR=") n (refl, refl))
build-Framed isdigit (to_read (negsuc n)) t plain h = absurd cc
build-Framed isdigit (to_delete (pos n)) t plain h =
    subst (IsFramed 0) (let w : codes "AT+CMGD=" ++ decimal n ≡ t = cc in w)
      (number-Framed (codes "AT+CMGD=") n (refl, refl))
build-Framed isdigit (to_delete (negsuc n)) t plain h = absurd cc
build-Framed isdigit (to_list status) t plain h = list-Framed status t h
build-Framed isdigit (to_unlock pin) t plain h = enter-Framed isdigit plain pin t h
build-Framed isdigit (to_unblock puk new_pin) t plain h = puk-Framed isdigit plain puk new_pin t h
build-Framed isdigit (to_tone digit duration) t plain h = tone-Framed digit t duration h
build-Framed isdigit (to_service code encoding) t plain h = service-Framed code t encoding h

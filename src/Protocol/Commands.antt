-- ===== src/Protocol/Commands.antt =====
-- callstack/protocol/commands.py: the builders of AT commands and their validation. A `ValueError`
-- is `none`. `str.isdigit`, which looks into Python's Unicode tables, is a parameter.
pub mod Inert
pub mod Framing
use callstack.Prelude.{
  ℕ, zero, suc, ◌+◌, ◌-◌, ◌*◌, ◌/◌, ◌%◌, Bool, true, false, not, ◌&&◌, ◌||◌, List, [], ◌∷◌, ◌++◌,
  Option, none, some, Text, codes, length, all, any, ltb, leb, ◌==◌, if◌then◌else◌, ◌>>=◌,
}
use callstack.Pdu.Phone.{is_digit, without_plus, matches_recipient}
use callstack.Protocol.Lines.{is_in}

-- Python's integers.
pub data ℤ : Type 0 where
  pos : ℕ → ℤ
  negsuc : ℕ → ℤ

abbrev pub is_empty : Text → Bool
is_empty [] = true
is_empty (c ∷ s) = false

-- The rest of `\*[0-9]+(?:\*[0-9]+)*#` from inside a group, which has a digit or not yet.
unfoldable pub in_groups : Bool → Text → Bool
in_groups some_digit [] = false
in_groups some_digit (c ∷ s) =
    let rest = in_groups (is_digit c) s in
    if is_digit c
    then rest
    else some_digit && (if c == b'*' then rest else (c == b'#') && is_empty s)

-- `_VOICE_DIAL_SERVICE_RE.fullmatch`
unfoldable pub matches_service : Text → Bool
matches_service [] = false
matches_service (c ∷ s) = (c == b'*') && in_groups false s

-- `_VOICE_DIAL_NUMBER_RE.fullmatch`
unfoldable pub matches_number : Text → Bool
matches_number s = let digits = without_plus s in not (is_empty digits) && all is_digit digits

unfoldable pub validate_phone : Text → Option Text
validate_phone number =
    if matches_number number || matches_service number then some number else none

-- `_USSD_BREAKOUT_CHARS`
abbrev pub is_breakout : ℕ → Bool
is_breakout c = (c == b'"') || (c == 13) || (c == 10)

unfoldable pub validate_ussd_code : Text → Option Text
validate_ussd_code code = if is_empty code || any is_breakout code then none else some code

unfoldable pub validate_ussd_encoding : ℤ → Option ℕ
validate_ussd_encoding (pos n) = if leb n 255 then some n else none
validate_ussd_encoding (negsuc n) = none

-- The decimal digits of a number before those that are there; every round divides by 10.
unfoldable pub decimal_digits : ℕ → ℕ → Text → Text
decimal_digits zero n out = out
decimal_digits (suc fuel) n out =
    let rest = decimal_digits fuel (n / 10) ((b'0' + n % 10) ∷ out) in
    if ltb n 10 then (b'0' + n) ∷ out else rest

-- `f"{n}"`
abbrev pub decimal : ℕ → Text
decimal n = decimal_digits (suc n) n []

unfoldable pub dial : Text → Option Text
dial number = do valid ← validate_phone number; some (codes "ATD" ++ (valid ++ codes ";"))

unfoldable pub send_sms : Text → Option Text
send_sms number =
    if matches_recipient number then some (codes "AT+CMGS=\"" ++ (number ++ codes "\"")) else none

unfoldable pub read_sms : ℤ → Option Text
read_sms (pos n) = some (codes "AT+CMGR=" ++ decimal n)
read_sms (negsuc n) = none

unfoldable pub delete_sms : ℤ → Option Text
delete_sms (pos n) = some (codes "AT+CMGD=" ++ decimal n)
delete_sms (negsuc n) = none

-- `_VALID_SMS_STATUSES`
abbrev pub valid_sms_statuses : List Text
valid_sms_statuses =
    codes "ALL" ∷ codes "REC UNREAD" ∷ codes "REC READ" ∷ codes "STO UNSENT" ∷ codes "STO SENT" ∷ []

unfoldable pub list_sms : Text → Option Text
list_sms status =
    if is_in status valid_sms_statuses
    then some (codes "AT+CMGL=\"" ++ (status ++ codes "\""))
    else none

module _ (isdigit : ℕ → Bool) where
  -- `pin and pin.isdigit() and low <= len(pin) <= high`
  unfoldable pub is_code : ℕ → ℕ → Text → Bool
  is_code low high pin =
      not (is_empty pin) && all isdigit pin && leb low (length pin) && leb (length pin) high

  unfoldable pub cpin_enter : Text → Option Text
  cpin_enter pin =
      if is_code 4 8 pin then some (codes "AT+CPIN=\"" ++ (pin ++ codes "\"")) else none

  unfoldable pub cpin_puk : Text → Text → Option Text
  cpin_puk puk new_pin =
      if is_code 8 8 puk && is_code 4 8 new_pin
      then some (codes "AT+CPIN=\"" ++ (puk ++ (codes "\",\"" ++ (new_pin ++ codes "\""))))
      else none

-- No duration asked for, or so many units of 100 ms; or an error.
unfoldable pub dtmf_duration_units : Option ℤ → Option (Option ℕ)
dtmf_duration_units none = some none
dtmf_duration_units (some (negsuc n)) = none
dtmf_duration_units (some (pos n)) =
    if n == 0
    then some none
    else if not (leb 100 n && leb n 25500) || not (n % 100 == 0)
    then none
    else some (some (n / 100))

-- `_VALID_DTMF`
abbrev pub is_dtmf : ℕ → Bool
is_dtmf c = is_digit c || (c == b'*') || (c == b'#') || (leb b'A' c && leb c b'D')

unfoldable pub dtmf_command : Text → Option ℕ → Text
dtmf_command digit none = codes "AT+VTS=" ++ digit
dtmf_command digit (some units) = codes "AT+VTS=" ++ (digit ++ (codes "," ++ decimal units))

unfoldable pub send_dtmf : Text → Option ℤ → Option Text
send_dtmf digit duration_ms =
    if (length digit == 1) && all is_dtmf digit
    then (do units ← dtmf_duration_units duration_ms; some (dtmf_command digit units))
    else none

unfoldable pub ussd_send : Text → ℤ → Option Text
ussd_send code encoding = do
  valid ← validate_ussd_code code
  scheme ← validate_ussd_encoding encoding
  some (codes "AT+CUSD=1,\"" ++ (valid ++ (codes "\"," ++ decimal scheme)))

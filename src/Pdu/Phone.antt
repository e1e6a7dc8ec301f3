-- ===== src/Pdu/Phone.antt =====
-- callstack/sms/pdu.py: recipients and semi-octet phone numbers (`_validate_sms_recipient`,
-- `encode_phone_number`, `decode_phone_number`, `_is_valid_numeric_originator_bcd`). An exception
-- is `none`.
pub mod RoundTrip
use callstack.Prelude.{
  ℕ, zero, suc, ◌+◌, ◌%◌, Bool, true, false, not, ◌&&◌, ◌||◌, List, [], ◌∷◌, ◌++◌, Option, none,
  some, Text, length, take, drop, all, leb, ◌==◌, if◌then◌else◌, ◌>>=◌,
}

-- `"0" <= char <= "9"`
abbrev pub is_digit : ℕ → Bool
is_digit c = leb b'0' c && leb c b'9'

-- `number[1:]` under `number.startswith("+")`, and the number itself elsewhere.
unfoldable pub without_plus : Text → Text
without_plus [] = []
without_plus (c ∷ s) = if c == b'+' then s else c ∷ s

unfoldable pub has_plus : Text → Bool
has_plus [] = false
has_plus (c ∷ s) = c == b'+'

-- `_SMS_RECIPIENT_RE.fullmatch`: an optional plus and 3 to 15 digits.
unfoldable pub matches_recipient : Text → Bool
matches_recipient s =
    let digits = without_plus s in
    leb 3 (length digits) && leb (length digits) 15 && all is_digit digits

unfoldable pub validate_sms_recipient : Text → Option Text
validate_sms_recipient s = if matches_recipient s then some s else none

-- The loop that appends `number[i + 1] + number[i]`; an odd length ends in an `IndexError`.
unfoldable pub swap_pairs : Text → Option Text
swap_pairs [] = some []
swap_pairs (a ∷ []) = none
swap_pairs (a ∷ b ∷ s) = do rest ← swap_pairs s; some (b ∷ a ∷ rest)

-- The type of address: 0x91 for an international number, 0x81 for any other.
unfoldable pub type_of_address : Text → ℕ
type_of_address number = if has_plus number then 0x91 else 0x81

unfoldable pub pad_odd : Text → Text
pad_odd s = if length s % 2 == 0 then s else s ++ b'F' ∷ []

unfoldable pub encode_phone_number : Text → Option (Text × ℕ)
encode_phone_number number = do
  encoded ← swap_pairs (pad_odd (without_plus number))
  some (encoded, type_of_address number)

abbrev pub is_pad : ℕ → Bool
is_pad c = (c == b'F') || (c == b'f')

-- `number.rstrip("Ff")`
unfoldable pub strip_padding : Text → Text
strip_padding [] = []
strip_padding (c ∷ s) = elim (strip_padding s) [
  | [] ↦ if is_pad c then [] else c ∷ []
  | d ∷ t ↦ c ∷ d ∷ t
]

unfoldable pub decode_phone_number : Text → ℕ → Option Text
decode_phone_number encoded toa = do
  digits ← swap_pairs encoded
  some (if toa == 0x91 then b'+' ∷ strip_padding digits else strip_padding digits)

-- `padding.upper() == "F"`
unfoldable pub is_padding : Text → Bool
is_padding (c ∷ []) = is_pad c
is_padding _ = false

unfoldable pub is_valid_numeric_originator_bcd : Text → ℕ → Bool
is_valid_numeric_originator_bcd encoded digit_count =
    if (digit_count == 0) || not (length encoded == digit_count + digit_count % 2)
    then false
    else elim (swap_pairs encoded) [
      | none ↦ false
      | some digits ↦
          if digit_count % 2 == 0
          then all is_digit digits
          else all is_digit (take digit_count digits) && is_padding (drop digit_count digits)
    ]

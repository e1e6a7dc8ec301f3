-- ===== src/Pdu/Phone/RoundTrip.antt =====
-- Phone numbers through the semi-octets and back.
use callstack.Prelude.{
  ℕ, ◌%◌, ◌≡◌, refl, ap, true, not, [], ◌∷◌, ◌++◌, arith, none, some, Text, length, take, drop, all,
  ◌==◌, if◌then◌else◌, take-append_exact, drop-append_exact, Bool-cases, Option-cases, ◌⊎◌, ◌↔◌,
  ◌≤◌, inl, inr, length-append, length-take, take-append-drop,
}
use callstack.Pdu.Phone.{
  is_digit, without_plus, has_plus, matches_recipient, validate_sms_recipient, swap_pairs,
  type_of_address, pad_odd, encode_phone_number, strip_padding, decode_phone_number, is_padding,
  is_valid_numeric_originator_bcd,
}

-- Swapping is its own inverse, on the texts of even length.
pub swap-swap :
    (s : Text)
    → length s % 2 ≡ 0
    → (t : Text) × (swap_pairs s ≡ some t) × (swap_pairs t ≡ some s) × (length t ≡ length s)
unfolding swap_pairs
swap-swap [] h = ([], refl, refl, refl)
swap-swap (a ∷ []) h = absurd (omega arith)
swap-swap (a ∷ b ∷ s) h =
    let (t, there, back, size) = swap-swap s (omega arith) in
    (b ∷ a ∷ t, rw there, rw back, omega arith)

pub pad_even : (s : Text) → length (pad_odd s) % 2 ≡ 0
unfolding pad_odd
pad_even s = ground (arith, length-append s (b'F' ∷ []))

strip-digits : (s : Text) → all is_digit s ≡ true → strip_padding s ≡ s
unfolding strip_padding
strip-digits [] h = refl
strip-digits (c ∷ []) h = ground arith
strip-digits (c ∷ d ∷ s) h = ground (arith, strip-digits (d ∷ s))

strip-padded : (s : Text) → all is_digit s ≡ true → strip_padding (s ++ b'F' ∷ []) ≡ s
unfolding strip_padding
strip-padded [] h = refl
strip-padded (c ∷ []) h = ground arith
strip-padded (c ∷ d ∷ s) h = ground (arith, strip-padded (d ∷ s))

strip-pad_odd : (s : Text) → all is_digit s ≡ true → strip_padding (pad_odd s) ≡ s
unfolding pad_odd
strip-pad_odd s h = ground (arith, strip-digits s h, strip-padded s h)

plus_back :
    (number : Text)
    → (if type_of_address number == 0x91 then b'+' ∷ without_plus number else without_plus number)
      ≡ number
unfolding type_of_address has_plus without_plus
plus_back [] = refl
plus_back (c ∷ s) = ground arith

bcd_of :
    (s t : Text)
    → all is_digit s ≡ true
    → swap_pairs t ≡ some (pad_odd s)
    → length t ≡ length (pad_odd s)
    → is_valid_numeric_originator_bcd t (length s) ≡ not (length s == 0)
unfolding is_valid_numeric_originator_bcd pad_odd is_padding
bcd_of s t h back size = elim (Bool-cases (length s % 2 == 0)) [
  | inl e ↦ ground arith
  | inr e ↦ ground (
    arith,
    length-append s (b'F' ∷ []),
    take-append_exact s (b'F' ∷ []),
    drop-append_exact s (b'F' ∷ []),
    (let pad : is_padding (b'F' ∷ []) ≡ true = refl in pad),
  )
]

-- A number of digits, with or without a leading plus and of any length, is encoded without an
-- error and decoded to itself, and its semi-octets pass the decoder's test of a numeric originator
-- when there is a digit at all.
pub decode-encode_phone_number :
    (number : Text)
    → all is_digit (without_plus number) ≡ true
    → (encoded : Text) × (encode_phone_number number ≡ some (encoded, type_of_address number))
      × (decode_phone_number encoded (type_of_address number) ≡ some number)
      × (is_valid_numeric_originator_bcd encoded (length (without_plus number))
          ≡ not (length (without_plus number) == 0))
unfolding encode_phone_number decode_phone_number is_valid_numeric_originator_bcd
decode-encode_phone_number number h =
    let s = without_plus number in
    let (t, there, back, size) = swap-swap (pad_odd s) (pad_even s) in
    (t, rw there, rw (back, strip-pad_odd s h) (ap some (plus_back number)), bcd_of s t h back size)

-- A recipient that the validation lets through is returned unchanged, and every other is refused.
pub validate_sms_recipient_iff :
    (s : Text)
    → ((validate_sms_recipient s ≡ some s) ⊎ (validate_sms_recipient s ≡ none))
      × ((validate_sms_recipient s ≡ some s) ↔ (
          (3 ≤ length (without_plus s))
          × (length (without_plus s) ≤ 15)
          × (all is_digit (without_plus s) ≡ true)))
unfolding validate_sms_recipient matches_recipient
validate_sms_recipient_iff s = (ground arith, (λ h. ground arith, λ h. ground arith))

length-swap : (s t : Text) → swap_pairs s ≡ some t → (length t ≡ length s) × (length s % 2 ≡ 0)
unfolding swap_pairs
length-swap [] t h = ground arith
length-swap (a ∷ []) t h = cc
length-swap (a ∷ b ∷ s) t h = elim (Option-cases (swap_pairs s)) [
  | inl e ↦ ground arith
  | inr (r, e) ↦ let (size, even) = length-swap s r e in ground arith
]

strip-padding :
    (s pad : Text) → all is_digit s ≡ true → is_padding pad ≡ true → strip_padding (s ++ pad) ≡ s
unfolding strip_padding is_padding
strip-padding [] [] h p = refl
strip-padding [] (c ∷ []) h p = ground arith
strip-padding [] (c ∷ d ∷ pad) h p = cc
strip-padding (c ∷ []) [] h p = cc
strip-padding (c ∷ []) (d ∷ []) h p = ground arith
strip-padding (c ∷ []) (d ∷ e ∷ pad) h p = cc
strip-padding (c ∷ d ∷ s) pad h p = ground (arith, strip-padding (d ∷ s) pad)

-- What an accepted originator decodes to: as many decimal digits as its length octet says, behind
-- a plus sign exactly when the address is international.
pub originator_digits :
    (encoded : Text) (count toa : ℕ)
    → is_valid_numeric_originator_bcd encoded count ≡ true
    → (s : Text) × (decode_phone_number encoded toa ≡ some (if toa == 0x91 then b'+' ∷ s else s))
      × (length s ≡ count)
      × (all is_digit s ≡ true)
unfolding is_valid_numeric_originator_bcd decode_phone_number
originator_digits encoded count toa h = elim (Option-cases (swap_pairs encoded)) [
  | inl e ↦ absurd (ground arith)
  | inr (digits, e) ↦
      let (size, even) = length-swap encoded digits e in
      elim (Bool-cases (count % 2 == 0)) [
        | inl p ↦ (digits, ground (arith, strip-digits digits), ground arith, ground arith)
        | inr p ↦
            let joined = take-append-drop count digits in
            let s = take count digits in
            (
              s,
              ground (arith, joined, strip-padding s (drop count digits)),
              ground (arith, length-take count digits),
              ground arith,
            )
      ]
]

-- What the recipient pattern says of the digits.
pub recipient_digits :
    (s : Text)
    → matches_recipient s ≡ true
    → (3 ≤ length (without_plus s))
      × (length (without_plus s) ≤ 15)
      × (all is_digit (without_plus s) ≡ true)
unfolding matches_recipient
recipient_digits s h = ground arith

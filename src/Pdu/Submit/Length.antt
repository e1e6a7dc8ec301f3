-- ===== src/Pdu/Submit/Length.antt =====
-- The length that a SUBMIT PDU is announced with.
use callstack.Prelude.{
  ℕ, ◌+◌, ◌*◌, ◌/◌, ◌%◌, ◌<◌, ◌≡◌, refl, ◌∙◌, List, [], ◌∷◌, ◌++◌, arith, some, true, false, Bytes,
  Text, codes, length, length-append, All, all,
}
use callstack.Pdu.Alphabet.{gsm7_septets}
use callstack.Pdu.Pack.{pack_gsm7_septets}
use callstack.Pdu.Pack.RoundTrip.{pack-IsBytes, length-pack}
use callstack.Pdu.Phone.{
  is_digit, without_plus, matches_recipient, validate_sms_recipient, pad_odd, type_of_address,
  encode_phone_number,
}
use callstack.Pdu.Phone.RoundTrip.{swap-swap, pad_even, recipient_digits}
use callstack.Pdu.Hex.{format_02X, hex_upper, length-format_02X, length-hex_upper}
use callstack.Pdu.Submit.{lstrip_plus, destination_address, frame, build_submit_pdu}

length-pad_odd : (s : Text) → length (pad_odd s) ≡ (length s + 1) / 2 * 2
unfolding pad_odd
length-pad_odd s = ground (arith, length-append s (b'F' ∷ []))

lstrip-digits : (s : Text) → all is_digit s ≡ true → lstrip_plus s ≡ s
unfolding lstrip_plus
lstrip-digits [] h = refl
lstrip-digits (c ∷ s) h = ground arith

-- On digits behind one plus at most, `lstrip` takes what `number[1:]` takes.
lstrip-without : (s : Text) → all is_digit (without_plus s) ≡ true → lstrip_plus s ≡ without_plus s
unfolding lstrip_plus without_plus
lstrip-without [] h = refl
lstrip-without (c ∷ s) h = ground (arith, lstrip-digits s)

toa_lt : (s : Text) → type_of_address s < 256
unfolding type_of_address
toa_lt s = ground arith

pub destination_lem :
    (s : Text)
    → all is_digit (without_plus s) ≡ true
    → length (without_plus s) < 256
    → (da : Text) × (destination_address s ≡ some da)
      × (length da ≡ 4 + (length (without_plus s) + 1) / 2 * 2)
unfolding destination_address encode_phone_number
destination_lem s h lt =
    let (t, there, back, size) = swap-swap (pad_odd (without_plus s)) (pad_even (without_plus s)) in
    let digits = length-format_02X (length (without_plus s)) lt in
    let toa = length-format_02X (type_of_address s) (toa_lt s) in
    (
      format_02X (length (without_plus s)) ++ (format_02X (type_of_address s) ++ t),
      rw (there, lstrip-without s h),
      omega (
        arith,
        length-append (format_02X (length (without_plus s))) (format_02X (type_of_address s) ++ t),
        length-append (format_02X (type_of_address s)) t,
        length-pad_odd (without_plus s),
      ),
    )

pub frame_lem :
    (da : Text) (udl : ℕ) (ud : Bytes) (a b : ℕ)
    → udl < 256
    → All (λ x. x < 256) ud
    → length da % 2 ≡ 0
    → (length ((frame (a ∷ b ∷ []) da udl ud).0) ≡ 2 * (frame (a ∷ b ∷ []) da udl ud).1 + 2)
      × ((frame (a ∷ b ∷ []) da udl ud).1 ≡ 6 + length da / 2 + length ud)
frame_lem da udl ud a b lt bytes even =
    let l1 =
      length-append da
        (codes "00" ++ (codes "00" ++ (codes "A7" ++ (format_02X udl ++ hex_upper ud)))) in
    let l2 = length-append (format_02X udl) (hex_upper ud) in
    let l3 = length-format_02X udl lt in
    let l4 = length-hex_upper ud bytes in (omega arith, omega arith)

-- A valid recipient and a body of at most 255 septets that the alphabet covers give a PDU, whose
-- announced length counts its octets behind the service centre's, and is made up of the eight
-- single octets, two digits of the recipient to an octet and eight septets of the body to seven.
pub build_submit-length :
    (recipient body : Text) (ss : List ℕ)
    → matches_recipient recipient ≡ true
    → gsm7_septets false body ≡ some ss
    → length ss < 256
    → (pdu : Text) × (n : ℕ) × (build_submit_pdu recipient body ≡ some (pdu, n))
      × (length pdu ≡ 2 * n + 2)
      × (n ≡ 8 + (length (without_plus recipient) + 1) / 2 + (length ss * 7 + 7) / 8)
unfolding build_submit_pdu validate_sms_recipient
build_submit-length recipient body ss valid septets lt =
    let (_, short, digits) = recipient_digits recipient valid in
    let (da, at, size) = destination_lem recipient digits (omega arith) in
    let ud = pack_gsm7_septets ss 0 in
    let p = frame (codes "31") da (length ss) ud in
    let (whole, count) =
      frame_lem da (length ss) ud b'3' b'1' lt (pack-IsBytes ss 0) (omega arith) in
    (p.0, p.1, rw (valid, at, septets), whole, count ∙ omega (arith, length-pack ss 0))

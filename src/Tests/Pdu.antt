-- ===== src/Tests/Pdu.antt =====
-- Concrete numbers, texts and messages (callstack/sms/pdu.py).
use callstack.Prelude.{
  ℕ, ◌≡◌, refl, true, false, List, [], ◌∷◌, some, arith, Text, codes, Bytes, any, ◌>>=◌,
}
use callstack.Pdu.Alphabet.{gsm7_septets, gsm7_encode, gsm7_extension, char_septets}
use callstack.Pdu.Pack.{pack_gsm7_with_udh}
use callstack.Pdu.Gsm7.{encode_gsm7, decode_gsm7}
use callstack.Pdu.Gsm7.RoundTrip.{shown, LacksEscape, decode-encode}
use callstack.Pdu.Udh.{parse_concatenation_udh, has_malformed_concatenation_udh}
use callstack.Pdu.Udh.Elements.{Element, header, first_concatenation, is_malformed}
use callstack.Pdu.Udh.Walks.{walks_header}
use callstack.Pdu.Phone.{without_plus, matches_recipient}
use callstack.Pdu.Submit.{concatenation_udh}
use callstack.Pdu.UserData.{decode_with_header}
use callstack.Pdu.UserData.Parts.{info_of, decode-part}

abbrev number : Text
number = codes "+4915112"

abbrev body : Text
body = codes "{ok}"

abbrev septets : List ℕ
septets = 0x1b ∷ 0x28 ∷ 0x6f ∷ 0x6b ∷ 0x1b ∷ 0x29 ∷ []

body-septets : gsm7_septets false body ≡ some septets
unfolding gsm7_septets char_septets gsm7_encode gsm7_extension
body-septets = refl

body-LacksEscape : LacksEscape body
body-LacksEscape =
    (λ e. omega arith, (λ e. omega arith, (λ e. omega arith, (λ e. omega arith, tt))))

abbrev first_header : Bytes
first_header = 6 ∷ 8 ∷ 4 ∷ 0 ∷ 7 ∷ 2 ∷ 1 ∷ []

decode-encode_example :
    (do (octets, count) ← encode_gsm7 (codes "a😀b"); decode_gsm7 octets count 0)
    ≡ some (codes "a?b")
unfolding shown char_septets gsm7_extension gsm7_encode
decode-encode_example =
    decode-encode (codes "a😀b") (λ e. omega arith, (λ e. omega arith, (λ e. omega arith, tt)))

-- A concatenation that is malformed, and a whole one behind it.
abbrev two_elements : List Element
two_elements =
    record { iei = 0; payload = 7 ∷ 2 ∷ 3 ∷ [] }
    ∷ record { iei = 8; payload = 1 ∷ 0 ∷ 2 ∷ 1 ∷ [] }
    ∷ []

walks_header_example :
    (parse_concatenation_udh (header two_elements) ≡ first_concatenation two_elements)
    × (has_malformed_concatenation_udh (header two_elements) ≡ any is_malformed two_elements)
walks_header_example = walks_header two_elements

matches_number : matches_recipient number ≡ true
unfolding matches_recipient without_plus
matches_number = refl

decode-part_example :
    (udh : Bytes) × (concatenation_udh 7 2 1 ≡ some udh)
    × (decode_with_header (pack_gsm7_with_udh udh septets).0 (pack_gsm7_with_udh udh septets).1
        ≡ some (record { body = body; multipart = some (info_of 7 2 1) }))
decode-part_example =
    decode-part 7 2 1 body septets (omega arith) (omega arith) (omega arith) (omega arith)
      body-LacksEscape body-septets

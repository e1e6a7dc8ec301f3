-- ===== src/Pdu/Gsm7.antt =====
-- callstack/sms/pdu.py: `PDUEncoder.encode_gsm7` and `PDUDecoder.decode_gsm7`. A `ValueError` is
-- `none`. Counts and offsets are natural numbers, so the two sign tests of the decoder's guard
-- have nothing to refuse.
pub mod RoundTrip
use callstack.Prelude.{
  ℕ, ◌+◌, ◌*◌, List, [], ◌∷◌, Option, none, some, true, Bytes, Text, length, get_or, ltb, ◌==◌,
  if◌then◌else◌, ◌>>=◌,
}
use callstack.Pdu.Alphabet.{gsm7_basic, gsm7_escape, gsm7_extension_decode, gsm7_septets}
use callstack.Pdu.Pack.{pack_gsm7_septets, unpack_septets}

unfoldable pub encode_gsm7 : Text → Option (Bytes × ℕ)
encode_gsm7 text = do
  septets ← gsm7_septets true text
  some (pack_gsm7_septets septets 0, length septets)

-- `GSM7_BASIC[septet] if septet < len(GSM7_BASIC) else "?"`
abbrev pub basic_char : ℕ → ℕ
basic_char s = get_or gsm7_basic s b'?'

-- The second loop of `decode_gsm7`, over the septets that are left.
unfoldable pub decode_septets : List ℕ → Text
decode_septets [] = []
decode_septets (s ∷ []) = basic_char s ∷ []
decode_septets (s ∷ t ∷ rest) = elim (if s == gsm7_escape then gsm7_extension_decode t else none) [
  | some c ↦ c ∷ decode_septets rest
  | none ↦ basic_char s ∷ decode_septets (t ∷ rest)
]

unfoldable pub decode_gsm7 : Bytes → ℕ → ℕ → Option Text
decode_gsm7 octets count offset =
    if ltb (length octets * 8) (offset + count * 7)
    then none
    else some (decode_septets (unpack_septets octets offset 0 count))

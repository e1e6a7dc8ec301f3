-- ===== src/Pdu/UserData.antt =====
-- callstack/sms/pdu.py: the GSM 7-bit branch of `PDUDecoder.decode_deliver_pdu`, from the octets of
-- the user data to the body and the multipart metadata. `return None` and an exception are `none`.
pub mod Parts
use callstack.Prelude.{
  ℕ, ◌+◌, ◌-◌, ◌*◌, Bool, not, [], ◌∷◌, Option, none, some, Bytes, Text, length, take, ltb,
  if◌then◌else◌, ◌>>=◌,
}
use callstack.Prelude.Bits.{has_bit}
use callstack.Pdu.Pack.{header_septets}
use callstack.Pdu.Gsm7.{decode_gsm7}
use callstack.Pdu.Udh.{
  MultipartInfo, is_valid_udh, has_malformed_concatenation_udh, parse_concatenation_udh,
}

pub record Decoded : Type 0 where
  pub body : Text
  pub multipart : Option MultipartInfo

-- The branch under TP-UDHI.
unfoldable pub decode_with_header : Bytes → ℕ → Option Decoded
decode_with_header [] udl = none
decode_with_header (udhl ∷ rest) udl =
    let user_data = udhl ∷ rest in
    let udh_octets = udhl + 1 in
    let udh = take udh_octets user_data in
    let header = header_septets udh_octets in
    if ltb (length user_data) udh_octets
    then none
    else if not (is_valid_udh udh)
    then none
    else if has_malformed_concatenation_udh udh
    then none
    else if ltb udl header
    then none
    else do
      body ← decode_gsm7 user_data (udl - header) (header * 7)
      some (record { body = body; multipart = parse_concatenation_udh udh })

unfoldable pub decode_gsm7_user_data : ℕ → Bytes → ℕ → Option Decoded
decode_gsm7_user_data pdu_type user_data udl =
    let plain = decode_gsm7 user_data udl 0 in
    let headed = decode_with_header user_data udl in
    if has_bit pdu_type 6
    then headed
    else do body ← plain; some (record { body = body; multipart = none })

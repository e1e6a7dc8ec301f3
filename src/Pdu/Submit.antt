-- ===== src/Pdu/Submit.antt =====
-- callstack/sms/pdu.py: `PDUEncoder.build_submit_pdu` and `_build_submit_pdu_with_user_data`. A
-- `ValueError` is `none`.
pub mod Length
use callstack.Prelude.{
  ℕ, ◌+◌, ◌/◌, ◌%◌, List, [], ◌∷◌, ◌++◌, Option, none, some, false, leb, ◌&&◌, Bytes, Text, codes,
  length, ◌==◌, if◌then◌else◌, ◌>>=◌,
}
use callstack.Pdu.Alphabet.{gsm7_septets}
use callstack.Pdu.Pack.{pack_gsm7_septets, pack_gsm7_with_udh}
use callstack.Pdu.Phone.{validate_sms_recipient, encode_phone_number}
use callstack.Pdu.Hex.{format_02X, hex_upper}

-- `recipient.lstrip("+")`
unfoldable pub lstrip_plus : Text → Text
lstrip_plus [] = []
lstrip_plus (c ∷ s) = let rest = lstrip_plus s in if c == b'+' then rest else c ∷ s

-- The destination address: its number of digits, its type and its semi-octets.
unfoldable pub destination_address : Text → Option Text
destination_address recipient = do
  (encoded, toa) ← encode_phone_number recipient
  some (format_02X (length (lstrip_plus recipient)) ++ (format_02X toa ++ encoded))

-- `pdu_type + mr + da + pid + dcs + vp + udl + ud`, and behind it the service centre's "00".
abbrev pub frame : Text → Text → ℕ → Bytes → Text × ℕ
frame pdu_type da udl ud =
    let tpdu =
      pdu_type
      ++ (codes "00"
          ++ (da
              ++ (codes "00"
                  ++ (codes "00" ++ (codes "A7" ++ (format_02X udl ++ hex_upper ud)))))) in
    (codes "00" ++ tpdu, length tpdu / 2)

unfoldable pub build_submit_pdu : Text → Text → Option (Text × ℕ)
build_submit_pdu recipient body = do
  valid ← validate_sms_recipient recipient
  da ← destination_address valid
  septets ← gsm7_septets false body
  some (frame (codes "31") da (length septets) (pack_gsm7_septets septets 0))

-- The header octets of one part: a 16-bit concatenation element. `bytes([...])` takes no number over
-- 255.
unfoldable pub concatenation_udh : ℕ → ℕ → ℕ → Option Bytes
concatenation_udh reference total_parts sequence =
    if leb total_parts 255 && leb sequence 255
    then some (
        0x06
        ∷ 0x08
        ∷ 0x04
        ∷ (reference / 256) % 256
        ∷ reference % 256
        ∷ total_parts
        ∷ sequence
        ∷ [])
    else none

unfoldable pub build_submit_pdu_with_user_data : Text → List ℕ → ℕ → ℕ → ℕ → Option (Text × ℕ)
build_submit_pdu_with_user_data recipient septets reference total_parts sequence = do
  da ← destination_address recipient
  udh ← concatenation_udh reference total_parts sequence
  let user_data = pack_gsm7_with_udh udh septets
  some (frame (codes "71") da (user_data.1) (user_data.0))

-- ===== src/Multipart.antt =====
-- A long message from callstack/sms/pdu.py (the sender's build, the receiver's decoding) through
-- callstack/sms/reassembly.py (the receiver's accumulator).
use callstack.Prelude.{
  ℕ, zero, suc, ◌-◌, ◌≡◌, true, List, [], ◌∷◌, ◌++◌, some, Text, length, Bytes, codes,
}
use callstack.Pdu.Hex.{format_02X, hex_upper}
use callstack.Pdu.Submit.{destination_address}
use callstack.Pdu.Segments.{MultipartSubmitPdu}
use callstack.Pdu.UserData.{decode_with_header}
use callstack.Pdu.UserData.Parts.{info_of}
use callstack.Reassembly.Message.{Message}

-- The body of the part with this number, counted from `index`.
abbrev pub body_from : List MultipartSubmitPdu → ℕ → Text
body_from [] n = []
body_from (p ∷ ps) zero = p.body
body_from (p ∷ ps) (suc n) = body_from ps n

-- The message that the parts make up for a receiver.
abbrev pub received : Text → ℕ → List MultipartSubmitPdu → Message
received sender reference parts = record {
  sender = sender;
  reference = reference;
  total_parts = length parts;
  is_16bit = true;
  body = λ s. body_from parts (s - 1);
}

-- A SUBMIT PDU with a user data header: the service centre's octet, the type with its flags, the
-- message's reference, the address, the protocol, the coding, the validity, the length of the user
-- data in septets, and the user data.
abbrev pub submit_pdu : Text → ℕ → Bytes → Text
submit_pdu da udl ud =
    codes "007100" ++ (da ++ (codes "0000A7" ++ (format_02X udl ++ hex_upper ud)))

-- What is sent for the part with this number: a PDU to the recipient, whose user data the receiver
-- decodes to the part's body, this number, the reference and the number of parts.
abbrev pub IsSent : Text → ℕ → ℕ → ℕ → MultipartSubmitPdu → Type 0
IsSent recipient reference total index p =
    (da : Text) × (ud : Bytes) × (udl : ℕ) × (destination_address recipient ≡ some da)
    × (p.pdu ≡ submit_pdu da udl ud)
    × (decode_with_header ud udl
        ≡ some (record { body = p.body; multipart = some (info_of reference total index) }))

-- The parts of a list are sent with the numbers from this one on.
abbrev pub SentFrom : Text → ℕ → ℕ → ℕ → List MultipartSubmitPdu → Type 0
SentFrom recipient reference total index [] = Unit
SentFrom recipient reference total index (p ∷ ps) =
    IsSent recipient reference total index p × SentFrom recipient reference total (suc index) ps

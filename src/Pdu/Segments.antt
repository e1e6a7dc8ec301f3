-- ===== src/Pdu/Segments.antt =====
-- callstack/sms/pdu.py: `PDUEncoder.build_multipart_submit_pdus` and `MultipartSubmitPDU`. A
-- `ValueError` is `none`; the number that `secrets.randbits(16)` returns is an argument.
pub mod Split
pub mod Parts
use callstack.Prelude.{
  ℕ, suc, ◌+◌, ◌-◌, ◌*◌, ◌/◌, Bool, true, false, not, ◌&&◌, ◌||◌, List, [], ◌∷◌, ◌++◌, Option, none,
  some, Text, length, ltb, if◌then◌else◌, ◌>>=◌,
}
use callstack.Pdu.Alphabet.{gsm7_septets}
use callstack.Pdu.Pack.{header_septets}
use callstack.Pdu.Phone.{validate_sms_recipient}
use callstack.Pdu.Submit.{build_submit_pdu_with_user_data}

-- `_GSM7_16BIT_CONCAT_PAYLOAD_SEPTETS`: 160 less the septets of a header of 7 octets.
abbrev pub max_payload : ℕ
max_payload = 160 - (7 * 8 + 6) / 7

-- A segment's text and septets, a pair of `segment_inputs`.
pub record Input : Type 0 where
  pub text : Text
  pub septets : List ℕ

-- The loop's variables: `segment_inputs`, and `current_text` with `current_septets`.
pub record Splitting : Type 0 where
  pub inputs : List Input
  pub current : Input

abbrev pub is_empty {ℓ} : {A : Type ℓ} → List A → Bool
is_empty [] = true
is_empty (x ∷ xs) = false

-- The character does not fit behind what the segment holds already.
unfoldable pub is_full : Splitting → List ℕ → Bool
is_full s septets =
    not (is_empty s.current.septets) && ltb max_payload (length s.current.septets + length septets)

-- The body of the loop for one character with its septets.
unfoldable pub admit : Splitting → ℕ → List ℕ → Splitting
admit s c septets =
    if is_full s septets
    then record {
      inputs = s.inputs ++ s.current ∷ [];
      current = record { text = c ∷ []; septets = septets };
    }
    else record {
      inputs = s.inputs;
      current = record { text = s.current.text ++ c ∷ []; septets = s.current.septets ++ septets };
    }

unfoldable pub split_from : Splitting → Text → Option (List Input)
split_from s [] = some (
    if not (is_empty s.current.text) || is_empty s.inputs
    then s.inputs ++ s.current ∷ []
    else s.inputs)
split_from s (c ∷ body) = do
  septets ← gsm7_septets false (c ∷ [])
  split_from (admit s c septets) body

abbrev pub nothing_split : Splitting
nothing_split = record { inputs = []; current = record { text = []; septets = [] } }

pub record MultipartSubmitPdu : Type 0 where
  pub pdu : Text
  pub tpdu_length : ℕ
  pub sequence : ℕ
  pub total_parts : ℕ
  pub reference : ℕ
  pub body : Text
  pub payload_septets : ℕ

-- The second loop, from the segment with this sequence number.
unfoldable pub build_from : Text → ℕ → ℕ → ℕ → List Input → Option (List MultipartSubmitPdu)
build_from recipient reference total_parts index [] = some []
build_from recipient reference total_parts index (s ∷ inputs) = do
  (pdu, n) ← build_submit_pdu_with_user_data recipient s.septets reference total_parts index
  rest ← build_from recipient reference total_parts (suc index) inputs
  some (
      record {
        pdu = pdu;
        tpdu_length = n;
        sequence = index;
        total_parts = total_parts;
        reference = reference;
        body = s.text;
        payload_septets = length s.septets;
      }
      ∷ rest)

abbrev pub chosen : Option ℕ → ℕ → ℕ
chosen none random = random
chosen (some r) random = r

unfoldable pub build_multipart_submit_pdus :
    Text → Text → Option ℕ → ℕ → Option (List MultipartSubmitPdu)
build_multipart_submit_pdus recipient body reference random = do
  valid ← validate_sms_recipient recipient
  let r = chosen reference random
  if ltb 0xffff r then none else do
    inputs ← split_from nothing_split body
    if ltb 255 (length inputs) then none else build_from valid r (length inputs) 1 inputs

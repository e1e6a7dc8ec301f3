-- ===== src/Pdu/Udh.antt =====
-- callstack/sms/pdu.py: the walks over a user-data header (`_is_valid_udh`,
-- `_has_malformed_concatenation_udh`, `PDUDecoder.parse_concatenation_udh`) and `MultipartInfo`.
-- Each loop moves its position on by two octets or more, so the header's length is fuel enough; a
-- slice or an index past the end is read where the source's own tests keep it inside.
pub mod Elements
pub mod Walks
use callstack.Prelude.{
  ℕ, zero, suc, ◌+◌, ◌*◌, Bool, true, false, not, ◌&&◌, ◌||◌, List, [], ◌∷◌, Option, none, some,
  Bytes, length, get_or, take, drop, ltb, leb, ◌==◌, if◌then◌else◌,
}

pub record MultipartInfo : Type 0 where
  pub reference : ℕ
  pub total_parts : ℕ
  pub sequence : ℕ
  pub is_16bit : Bool

-- The loop of `_is_valid_udh`.
valid_from : ℕ → Bytes → ℕ → Bool
valid_from zero udh pos = false
valid_from (suc fuel) udh pos =
    let ie_end = pos + 2 + get_or udh (pos + 1) 0 in
    let rest = valid_from fuel udh ie_end in
    if leb (length udh) pos
    then true
    else if ltb (length udh) (pos + 2)
    then false
    else if ltb (length udh) ie_end
    then false
    else rest

unfoldable pub is_valid_udh : Bytes → Bool
unfolding valid_from
is_valid_udh [] = false
is_valid_udh (udhl ∷ ies) =
    (length (udhl ∷ ies) == udhl + 1) && valid_from (length (udhl ∷ ies)) (udhl ∷ ies) 1

-- `total_parts and 1 <= sequence <= total_parts`
unfoldable pub parts_fit : ℕ → ℕ → Bool
parts_fit total sequence = not (total == 0) && leb 1 sequence && leb sequence total

-- The test that `_has_malformed_concatenation_udh` makes of one element.
unfoldable pub malformed_element : ℕ → ℕ → Bytes → Bool
unfolding parts_fit
malformed_element iei ie_len ie_data =
    if iei == 0x00
    then not (ie_len == 3) || not (parts_fit (get_or ie_data 1 0) (get_or ie_data 2 0))
    else if iei == 0x08
    then not (ie_len == 4) || not (parts_fit (get_or ie_data 2 0) (get_or ie_data 3 0))
    else false

malformed_from : ℕ → Bytes → ℕ → Bool
malformed_from zero udh pos = false
malformed_from (suc fuel) udh pos =
    let ie_len = get_or udh (pos + 1) 0 in
    let ie_data = take ie_len (drop (pos + 2) udh) in
    let rest = malformed_from fuel udh (pos + (2 + ie_len)) in
    if leb (length udh) pos
    then false
    else if malformed_element (get_or udh pos 0) ie_len ie_data
    then true
    else rest

unfoldable pub has_malformed_concatenation_udh : Bytes → Bool
unfolding malformed_from malformed_element
has_malformed_concatenation_udh udh = malformed_from (length udh) udh 1

-- The metadata that one element states, read at the position of its data. The octets are bytes, so
-- `(hi << 8) | lo` is a sum.
unfoldable pub element_info : Bytes → ℕ → ℕ → ℕ → Option MultipartInfo
unfolding parts_fit
element_info udh iei ie_len pos =
    if (iei == 0x00) && (ie_len == 3)
    then (if parts_fit (get_or udh (pos + 1) 0) (get_or udh (pos + 2) 0)
        then some (record {
          reference = get_or udh pos 0;
          total_parts = get_or udh (pos + 1) 0;
          sequence = get_or udh (pos + 2) 0;
          is_16bit = false;
        })
        else none)
    else if (iei == 0x08) && (ie_len == 4)
    then (if parts_fit (get_or udh (pos + 2) 0) (get_or udh (pos + 3) 0)
        then some (record {
          reference = get_or udh pos 0 * 256 + get_or udh (pos + 1) 0;
          total_parts = get_or udh (pos + 2) 0;
          sequence = get_or udh (pos + 3) 0;
          is_16bit = true;
        })
        else none)
    else none

parse_from : ℕ → Bytes → ℕ → ℕ → Option MultipartInfo
parse_from zero udh end pos = none
parse_from (suc fuel) udh end pos =
    let ie_len = get_or udh (pos + 1) 0 in
    let ie_end = pos + 2 + ie_len in
    let rest = parse_from fuel udh end ie_end in
    if ltb end (pos + 2)
    then none
    else if ltb end ie_end
    then none
    else elim (element_info udh (get_or udh pos 0) ie_len (pos + 2)) [
      | some info ↦ some info
      | none ↦ rest
    ]

unfoldable pub parse_concatenation_udh : Bytes → Option MultipartInfo
unfolding parse_from element_info
parse_concatenation_udh [] = none
parse_concatenation_udh (udhl ∷ ies) =
    if ltb (length (udhl ∷ ies)) (udhl + 1)
    then none
    else parse_from (length (udhl ∷ ies)) (udhl ∷ ies) (1 + udhl) 1

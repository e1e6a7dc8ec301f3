-- ===== src/Pdu/Pack.antt =====
-- callstack/sms/pdu.py: the packing of 7-bit values into octets at a bit offset
-- (`_pack_gsm7_septets`, `_pack_gsm7_with_udh`) and the unpacking loop of
-- `PDUDecoder.decode_gsm7`. The proofs are in the children.
pub mod Put
pub mod RoundTrip
use callstack.Prelude.{
  ℕ, zero, suc, ◌+◌, ◌*◌, ◌/◌, ◌%◌, Bool, List, [], ◌∷◌, ◌++◌, Bytes, length, get_or, set, drop,
  replicate, if◌then◌else◌,
}
use callstack.Prelude.Bits.{has_bit, with_bit}

-- `range(7)`
abbrev pub shifts : List ℕ
shifts = 0 ∷ 1 ∷ 2 ∷ 3 ∷ 4 ∷ 5 ∷ 6 ∷ []

-- `data[t // 8] & (1 << (t % 8))`
pub get_bit : Bytes → ℕ → Bool
get_bit p t = has_bit (get_or p (t / 8) 0) (t % 8)

-- `packed[t // 8] |= 1 << (t % 8)`
pub set_bit : Bytes → ℕ → Bytes
set_bit p t = set p (t / 8) (with_bit (get_or p (t / 8) 0) (t % 8))

-- The inner loop of `_pack_gsm7_septets`, over the shifts that are left.
pub put_septet : Bytes → ℕ → ℕ → List ℕ → Bytes
put_septet p current s [] = p
put_septet p current s (k ∷ ks) =
    put_septet (if has_bit s k then set_bit p (current + k) else p) current s ks

-- The outer loop, from the septet with this index.
pub put_septets : ℕ → ℕ → Bytes → List ℕ → Bytes
put_septets offset index p [] = p
put_septets offset index p (s ∷ ss) =
    put_septets offset (suc index) (put_septet p (offset + index * 7) s shifts) ss

unfoldable pub pack_gsm7_septets : List ℕ → ℕ → Bytes
unfolding put_septets put_septet set_bit has_bit with_bit
pack_gsm7_septets septets offset =
    put_septets offset 0 (replicate ((offset + length septets * 7 + 7) / 8) 0) septets

-- The number of septets that the header takes, `(len(udh) * 8 + 6) // 7`.
unfoldable pub header_septets : ℕ → ℕ
header_septets octets = (octets * 8 + 6) / 7

-- `payload[:len(udh)] = udh`: the slice is replaced, whatever its length.
unfoldable pub pack_gsm7_with_udh : Bytes → List ℕ → Bytes × ℕ
pack_gsm7_with_udh udh septets =
    let header = header_septets (length udh) in
    let payload = pack_gsm7_septets septets (header * 7) in
    (udh ++ drop (length udh) payload, header + length septets)

-- The inner loop of `decode_gsm7`, over the shifts that are left.
pub take_septet : Bytes → ℕ → ℕ → List ℕ → ℕ
take_septet p current s [] = s
take_septet p current s (k ∷ ks) =
    take_septet p current (if get_bit p (current + k) then with_bit s k else s) ks

-- The outer loop, from an index with so many septets to read.
unfoldable pub unpack_septets : Bytes → ℕ → ℕ → ℕ → List ℕ
unfolding take_septet get_bit has_bit with_bit
unpack_septets p offset index zero = []
unpack_septets p offset index (suc n) =
    take_septet p (offset + index * 7) 0 shifts ∷ unpack_septets p offset (suc index) n

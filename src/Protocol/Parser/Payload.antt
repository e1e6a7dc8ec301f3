-- ===== src/Protocol/Parser/Payload.antt =====
-- callstack/protocol/parser.py: `_decode_cusd_message`. `bytes.fromhex` skips ASCII spaces between
-- octets; UTF-16 pairs surrogates and has no place for a lone one.
use callstack.Prelude.{
  ℕ, ◌+◌, ◌-◌, ◌*◌, Bool, true, false, not, ◌&&◌, ◌||◌, List, [], ◌∷◌, Option, none, some, Text,
  Bytes, leb, ltb, ◌==◌, if◌then◌else◌, ◌>>=◌,
}
use callstack.Pdu.Phone.{is_digit}
use callstack.Protocol.Commands.{is_empty}

unfoldable pub hex_value : ℕ → Option ℕ
hex_value c =
    if is_digit c
    then some (c - b'0')
    else if leb b'A' c && leb c b'F'
    then some (c - b'A' + 10)
    else if leb b'a' c && leb c b'f'
    then some (c - b'a' + 10)
    else none

abbrev pub is_ascii_space : ℕ → Bool
is_ascii_space c = (leb 9 c && leb c 13) || (c == 32)

-- `bytes.fromhex`, with the first digit of an octet read or not.
unfoldable pub fromhex_from : Option ℕ → Text → Option Bytes
fromhex_from none [] = some []
fromhex_from (some h) [] = none
fromhex_from none (c ∷ s) = elim (is_ascii_space c) [
  | true ↦ fromhex_from none s
  | false ↦ elim (hex_value c) [ none ↦ none | some h ↦ fromhex_from (some h) s ]
]
fromhex_from (some h) (c ∷ s) = elim (hex_value c) [
  | none ↦ none
  | some l ↦ do bs ← fromhex_from none s; some ((16 * h + l) ∷ bs)
]

abbrev pub is_high : ℕ → Bool
is_high u = leb 0xd800 u && ltb u 0xdc00

abbrev pub is_low : ℕ → Bool
is_low u = leb 0xdc00 u && ltb u 0xe000

-- The code units of octets.
unfoldable pub units : Bytes → Option (List ℕ)
units [] = some []
units (a ∷ []) = none
units (a ∷ b ∷ bs) = do us ← units bs; some ((256 * a + b) ∷ us)

-- The code points of units, with a high surrogate read or not.
unfoldable pub points : Option ℕ → List ℕ → Option Text
points none [] = some []
points (some h) [] = none
points none (u ∷ us) = elim (is_high u) [
  | true ↦ points (some u) us
  | false ↦ if is_low u then none else (do s ← points none us; some (u ∷ s))
]
points (some h) (u ∷ us) =
    if is_low u
    then (do s ← points none us; some ((0x10000 + 1024 * (h - 0xd800) + (u - 0xdc00)) ∷ s))
    else none

-- `.decode("utf-16-be")`
unfoldable pub decode_utf_16_be : Bytes → Option Text
decode_utf_16_be bs = do us ← units bs; points none us

unfoldable pub decode_cusd_message : Text → ℕ → Text
decode_cusd_message message encoding =
    if (encoding == 72) && not (is_empty message)
    then elim (do bs ← fromhex_from none message; decode_utf_16_be bs) [
      | none ↦ message
      | some text ↦ text
    ]
    else message

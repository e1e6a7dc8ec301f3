-- ===== src/Pdu/Alphabet.antt =====
-- callstack/sms/pdu.py: the GSM 7-bit default alphabet and its extension table, as tables of code
-- points, and `_gsm7_septets`.
pub mod Laws
use callstack.Prelude.{
  ℕ, suc, List, [], ◌∷◌, ◌++◌, Option, none, some, Bool, Text, ◌==◌, if◌then◌else◌, ◌>>=◌,
}

-- `GSM7_BASIC`
abbrev pub gsm7_basic : Text
gsm7_basic =
    0x40 ∷ 0xa3 ∷ 0x24 ∷ 0xa5 ∷ 0xe8 ∷ 0xe9 ∷ 0xf9 ∷ 0xec ∷ 0xf2 ∷ 0xc7 ∷ 0x0a ∷ 0xd8 ∷ 0xf8 ∷ 0x0d
    ∷ 0xc5 ∷ 0xe5 ∷ 0x394 ∷ 0x5f ∷ 0x3a6 ∷ 0x393 ∷ 0x39b ∷ 0x3a9 ∷ 0x3a0 ∷ 0x3a8 ∷ 0x3a3 ∷ 0x398
    ∷ 0x39e ∷ 0x1b ∷ 0xc6 ∷ 0xe6 ∷ 0xdf ∷ 0xc9 ∷ 0x20 ∷ 0x21 ∷ 0x22 ∷ 0x23 ∷ 0xa4 ∷ 0x25 ∷ 0x26
    ∷ 0x27 ∷ 0x28 ∷ 0x29 ∷ 0x2a ∷ 0x2b ∷ 0x2c ∷ 0x2d ∷ 0x2e ∷ 0x2f ∷ 0x30 ∷ 0x31 ∷ 0x32 ∷ 0x33
    ∷ 0x34 ∷ 0x35 ∷ 0x36 ∷ 0x37 ∷ 0x38 ∷ 0x39 ∷ 0x3a ∷ 0x3b ∷ 0x3c ∷ 0x3d ∷ 0x3e ∷ 0x3f ∷ 0xa1
    ∷ 0x41 ∷ 0x42 ∷ 0x43 ∷ 0x44 ∷ 0x45 ∷ 0x46 ∷ 0x47 ∷ 0x48 ∷ 0x49 ∷ 0x4a ∷ 0x4b ∷ 0x4c ∷ 0x4d
    ∷ 0x4e ∷ 0x4f ∷ 0x50 ∷ 0x51 ∷ 0x52 ∷ 0x53 ∷ 0x54 ∷ 0x55 ∷ 0x56 ∷ 0x57 ∷ 0x58 ∷ 0x59 ∷ 0x5a
    ∷ 0xc4 ∷ 0xd6 ∷ 0xd1 ∷ 0xdc ∷ 0xa7 ∷ 0xbf ∷ 0x61 ∷ 0x62 ∷ 0x63 ∷ 0x64 ∷ 0x65 ∷ 0x66 ∷ 0x67
    ∷ 0x68 ∷ 0x69 ∷ 0x6a ∷ 0x6b ∷ 0x6c ∷ 0x6d ∷ 0x6e ∷ 0x6f ∷ 0x70 ∷ 0x71 ∷ 0x72 ∷ 0x73 ∷ 0x74
    ∷ 0x75 ∷ 0x76 ∷ 0x77 ∷ 0x78 ∷ 0x79 ∷ 0x7a ∷ 0xe4 ∷ 0xf6 ∷ 0xf1 ∷ 0xfc ∷ 0xe0 ∷ []

-- `GSM7_ESCAPE`
abbrev pub gsm7_escape : ℕ
gsm7_escape = 0x1b

-- `GSM7_EXTENSION.get(char)`
unfoldable pub gsm7_extension : ℕ → Option ℕ
gsm7_extension c =
    if c == 0x0c
    then some 0x0a
    else if c == 0x5e
    then some 0x14
    else if c == 0x7b
    then some 0x28
    else if c == 0x7d
    then some 0x29
    else if c == 0x5c
    then some 0x2f
    else if c == 0x5b
    then some 0x3c
    else if c == 0x7e
    then some 0x3d
    else if c == 0x5d
    then some 0x3e
    else if c == 0x7c
    then some 0x40
    else if c == 0x20ac
    then some 0x65
    else none

-- `_GSM7_EXTENSION_DECODE.get(code)`
unfoldable pub gsm7_extension_decode : ℕ → Option ℕ
gsm7_extension_decode c =
    if c == 0x0a
    then some 0x0c
    else if c == 0x14
    then some 0x5e
    else if c == 0x28
    then some 0x7b
    else if c == 0x29
    then some 0x7d
    else if c == 0x2f
    then some 0x5c
    else if c == 0x3c
    then some 0x5b
    else if c == 0x3d
    then some 0x7e
    else if c == 0x3e
    then some 0x5d
    else if c == 0x40
    then some 0x7c
    else if c == 0x65
    then some 0x20ac
    else none

-- `{c: i for i, c in enumerate(text)}.get(char)`, from an index: a later entry wins.
enumerated : ℕ → Text → ℕ → Option ℕ
enumerated i [] c = none
enumerated i (x ∷ xs) c = elim (enumerated (suc i) xs c) [
  | some j ↦ some j
  | none ↦ if x == c then some i else none
]

-- `_GSM7_ENCODE.get(char)`
unfoldable pub gsm7_encode : ℕ → Option ℕ
unfolding enumerated
gsm7_encode = enumerated 0 gsm7_basic

-- `_GSM7_ENCODE.get("?", 0x3F)`
abbrev pub fallback_code : ℕ
fallback_code = elim (gsm7_encode 0x3f) [ some i ↦ i | none ↦ 0x3f ]

-- One round of the loop: the septets of a character, `none` where the source raises `ValueError`.
unfoldable pub char_septets : Bool → ℕ → Option (List ℕ)
char_septets allow_fallback c = elim (gsm7_extension c) [
  | some e ↦ some (gsm7_escape ∷ e ∷ [])
  | none ↦ elim (gsm7_encode c) [
    | some i ↦ some (i ∷ [])
    | none ↦ if allow_fallback then some (fallback_code ∷ []) else none
  ]
]

unfoldable pub gsm7_septets : Bool → Text → Option (List ℕ)
gsm7_septets allow_fallback [] = some []
gsm7_septets allow_fallback (c ∷ text) = do
  s ← char_septets allow_fallback c
  rest ← gsm7_septets allow_fallback text
  some (s ++ rest)

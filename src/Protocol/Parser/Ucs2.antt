-- ===== src/Protocol/Parser/Ucs2.antt =====
-- A USSD answer in UCS-2, as a network prints it and callstack/protocol/parser.py reads it.
use callstack.Prelude.{
  subst, ℕ, zero, suc, ◌+◌, ◌-◌, ◌*◌, ◌/◌, ◌%◌, ◌<◌, ◌≡◌, ◌⊎◌, refl, ap, ◌∙◌, true, false, List, [],
  ◌∷◌, none, some, Text, Bytes, all, All, ltb, ◌==◌, if◌then◌else◌, arith, Bool-cases, inl, inr,
  ltb→lt,
}
use callstack.Pdu.Hex.{hex_digit, hex_digits, format_02X, hex_upper}
use callstack.Protocol.Parser.Printed.{ltb→ge, unmarked}
use callstack.Protocol.Parser.Payload.{
  hex_value, is_ascii_space, fromhex_from, is_high, is_low, units, points, decode_utf_16_be,
  decode_cusd_message,
}

-- The two digits of an octet.
format_02X-digits : (b : ℕ) → b < 256 → format_02X b ≡ hex_digit (b / 16) ∷ hex_digit (b % 16) ∷ []
unfolding format_02X hex_digits hex_digit
format_02X-digits zero h = refl
format_02X-digits (suc b) h = ground arith

hex_value-hex_digit : (d : ℕ) → d < 16 → hex_value (hex_digit d) ≡ some d
unfolding hex_value hex_digit
hex_value-hex_digit d h = ground arith

hex_digit-visible :
    (d : ℕ) → d < 16 → (is_ascii_space (hex_digit d) ≡ false) × ((hex_digit d == b'"') ≡ false)
unfolding hex_digit
hex_digit-visible d h = ground arith

fromhex_from-first :
    (c h : ℕ) (s : Text)
    → is_ascii_space c ≡ false
    → hex_value c ≡ some h
    → fromhex_from none (c ∷ s) ≡ fromhex_from (some h) s
unfolding fromhex_from
fromhex_from-first c h s e v = ground arith

fromhex_from-second :
    (h c l b : ℕ) (s : Text) (bs : Bytes)
    → hex_value c ≡ some l
    → 16 * h + l ≡ b
    → fromhex_from none s ≡ some bs
    → fromhex_from (some h) (c ∷ s) ≡ some (b ∷ bs)
unfolding fromhex_from
fromhex_from-second h c l b s bs v e r = ground arith

fromhex_from-hex_upper :
    (bs : Bytes) → All (λ b. b < 256) bs → fromhex_from none (hex_upper bs) ≡ some bs
unfolding fromhex_from hex_upper
fromhex_from-hex_upper [] h = refl
fromhex_from-hex_upper (b ∷ bs) h =
    let low : b % 16 < 16 = omega arith in
    let high : b / 16 < 16 = omega (arith, h.0) in
    let value : 16 * (b / 16) + b % 16 ≡ b = omega arith in
    rw (format_02X-digits b h.0) (
      fromhex_from-first (hex_digit (b / 16)) (b / 16) (hex_digit (b % 16) ∷ hex_upper bs)
        ((hex_digit-visible (b / 16) high).0) (hex_value-hex_digit (b / 16) high)
      ∙ fromhex_from-second (b / 16) (hex_digit (b % 16)) (b % 16) b (hex_upper bs) bs
          (hex_value-hex_digit (b % 16) low) value (fromhex_from-hex_upper bs h.1))

-- A code point, but for a surrogate.
abbrev pub IsScalar : ℕ → Type 0
IsScalar c = (c < 0xd800) ⊎ ((0xdfff < c) × (c < 0x110000))

-- `text.encode("utf-16-be")`: the units, and their octets.
abbrev pub units_of : Text → List ℕ
units_of [] = []
units_of (c ∷ s) =
    let rest = units_of s in
    if ltb c 0x10000
    then c ∷ rest
    else (0xd800 + (c - 0x10000) / 1024) ∷ (0xdc00 + (c - 0x10000) % 1024) ∷ rest

abbrev pub octets_of : List ℕ → Bytes
octets_of [] = []
octets_of (u ∷ us) = (u / 256) ∷ (u % 256) ∷ octets_of us

pub octets_of-Bytes : (us : List ℕ) → All (λ u. u < 65536) us → All (λ b. b < 256) (octets_of us)
octets_of-Bytes [] h = tt
octets_of-Bytes (u ∷ us) h = (omega (arith, h.0), (omega arith, octets_of-Bytes us h.1))

units-octets_of : (us : List ℕ) → units (octets_of us) ≡ some us
unfolding units
units-octets_of [] = refl
units-octets_of (u ∷ us) =
    rw (units-octets_of us)
      (ap some (ap (λ v. v ∷ us) (let q : 256 * (u / 256) + u % 256 ≡ u = omega arith in q)))

below : (c : ℕ) → IsScalar c → c < 0x110000
below c (inl h) = omega (arith, h)
below c (inr h) = h.1

pub units_of-Units : (s : Text) → All IsScalar s → All (λ u. u < 65536) (units_of s)
units_of-Units [] h = tt
units_of-Units (c ∷ s) h = elim (Bool-cases (ltb c 0x10000)) [
  | inl e ↦ rw e (ltb→lt c 0x10000 e, units_of-Units s h.1)
  | inr e ↦
      let small : c < 0x110000 = below c h.0 in
      rw e (omega arith, (omega arith, units_of-Units s h.1))
]

points-plain :
    (u : ℕ) (us : List ℕ) (s : Text)
    → is_high u ≡ false
    → is_low u ≡ false
    → points none us ≡ some s
    → points none (u ∷ us) ≡ some (u ∷ s)
unfolding points
points-plain u us s h l r = ground arith

points-pair :
    (u v c : ℕ) (us : List ℕ) (s : Text)
    → is_high u ≡ true
    → is_low v ≡ true
    → 0x10000 + 1024 * (u - 0xd800) + (v - 0xdc00) ≡ c
    → points none us ≡ some s
    → points none (u ∷ v ∷ us) ≡ some (c ∷ s)
unfolding points
points-pair u v c us s h l e r = ground arith

scalar_plain : (c : ℕ) → IsScalar c → c < 0x10000 → (is_high c ≡ false) × (is_low c ≡ false)
scalar_plain c (inl h) k = ground arith
scalar_plain c (inr h) k = ground arith

scalar_pair :
    (d : ℕ)
    → d < 0x100000
    → (is_high (0xd800 + d / 1024) ≡ true) × (is_low (0xdc00 + d % 1024) ≡ true)
scalar_pair d h = ground arith

points-units_of : (s : Text) → All IsScalar s → points none (units_of s) ≡ some s
unfolding points
points-units_of [] h = refl
points-units_of (c ∷ s) h = elim (Bool-cases (ltb c 0x10000)) [
  | inl e ↦
      let (high, low) = scalar_plain c h.0 (ltb→lt c 0x10000 e) in
      rw e (points-plain c (units_of s) s high low (points-units_of s h.1))
  | inr e ↦
      let small : c < 0x110000 = below c h.0 in
      let (high, low) = scalar_pair (c - 0x10000) (omega arith) in
      rw e (
        points-pair (0xd800 + (c - 0x10000) / 1024) (0xdc00 + (c - 0x10000) % 1024) c (units_of s) s
          high low (omega (arith, ltb→ge c 0x10000 e)) (points-units_of s h.1))
]

-- The hexadecimal digits of a text.
abbrev pub print_ucs2 : Text → Text
print_ucs2 s = hex_upper (octets_of (units_of s))

decode_utf_16_be-octets_of :
    (s : Text) → All IsScalar s → decode_utf_16_be (octets_of (units_of s)) ≡ some s
unfolding decode_utf_16_be
decode_utf_16_be-octets_of s h = rw (units-octets_of (units_of s)) (points-units_of s h)

decode_cusd_message-octets :
    (m : Text) (bs : Bytes) (s : Text)
    → fromhex_from none m ≡ some bs
    → decode_utf_16_be bs ≡ some s
    → decode_cusd_message m 72 ≡ s
unfolding decode_cusd_message fromhex_from decode_utf_16_be units points
decode_cusd_message-octets [] bs s h k =
    let none_read : bs ≡ [] = ground arith in
    let none_made : decode_utf_16_be [] ≡ some s =
      subst (λ b. decode_utf_16_be b ≡ some s) none_read k in
    ground arith
decode_cusd_message-octets (c ∷ m) bs s h k = rw h (rw k refl)

-- A text of any code points, surrogates apart, comes back from its UCS-2 digits.
pub decode_cusd_message-print_ucs2 :
    (s : Text) → All IsScalar s → decode_cusd_message (print_ucs2 s) 72 ≡ s
decode_cusd_message-print_ucs2 s h =
    decode_cusd_message-octets (print_ucs2 s) (octets_of (units_of s)) s
      (fromhex_from-hex_upper (octets_of (units_of s))
        (octets_of-Bytes (units_of s) (units_of-Units s h)))
      (decode_utf_16_be-octets_of s h)

pub hex_upper-unmarked : (bs : Bytes) → All (λ b. b < 256) bs → all unmarked (hex_upper bs) ≡ true
unfolding hex_upper
hex_upper-unmarked [] h = refl
hex_upper-unmarked (b ∷ bs) h =
    let low = (hex_digit-visible (b % 16) (omega arith)).1 in
    let high = (hex_digit-visible (b / 16) (omega (arith, h.0))).1 in
    let rest = hex_upper-unmarked bs h.1 in rw (format_02X-digits b h.0) (rw high (rw low rest))

-- ===== src/Pdu/Hex.antt =====
-- Python's upper-case hexadecimal: `f"{n:02X}"` and `data.hex().upper()`.
use callstack.Prelude.{
  ℕ, zero, suc, ◌+◌, ◌-◌, ◌*◌, ◌/◌, ◌%◌, ◌<◌, ◌≡◌, refl, [], ◌∷◌, ◌++◌, arith, Text, Bytes, length,
  ltb, if◌then◌else◌, All, length-append,
}

unfoldable pub hex_digit : ℕ → ℕ
hex_digit n = if ltb n 10 then b'0' + n else b'A' + n - 10

-- The digits of a number before those that are there; every round divides by 16.
unfoldable pub hex_digits : ℕ → ℕ → Text → Text
hex_digits zero n out = out
hex_digits (suc fuel) n out =
    let rest = hex_digits fuel (n / 16) (hex_digit (n % 16) ∷ out) in
    if ltb n 16 then hex_digit n ∷ out else rest

-- At least two digits, padded with zeros on the left.
unfoldable pub format_02X : ℕ → Text
unfolding hex_digits hex_digit
format_02X n =
    let digits = hex_digits (suc n) n [] in if ltb (length digits) 2 then b'0' ∷ digits else digits

unfoldable pub hex_upper : Bytes → Text
unfolding format_02X
hex_upper [] = []
hex_upper (b ∷ bs) = format_02X b ++ hex_upper bs

-- An octet takes two digits.
pub length-format_02X : (n : ℕ) → n < 256 → length (format_02X n) ≡ 2
unfolding format_02X
length-format_02X zero h = refl
length-format_02X (suc n) h = ground arith

pub length-hex_upper : (bs : Bytes) → All (λ b. b < 256) bs → length (hex_upper bs) ≡ 2 * length bs
unfolding hex_upper
length-hex_upper [] h = refl
length-hex_upper (b ∷ bs) h = omega (
  arith,
  length-append (format_02X b) (hex_upper bs),
  length-format_02X b h.0,
  length-hex_upper bs h.1,
)

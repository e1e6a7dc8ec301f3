-- ===== src/Protocol/Parser/RoundTrip.antt =====
-- Printed answers of the modem, read by callstack/protocol/parser.py, with any spaces where the
-- expressions allow them.
use callstack.Prelude.{
  ℕ, ◌≡◌, refl, ap, ◌∙◌, true, false, [], ◌∷◌, ◌++◌, some, Text, codes, all, All, arith,
}
use callstack.Pdu.Phone.{is_digit}
use callstack.Protocol.Lines.{is_space, lstrip}
use callstack.Protocol.Commands.{decimal}
use callstack.Protocol.Parser.Scan.{comma, blank_end, at_end}
use callstack.Protocol.Parser.Printed.{
  after-append, IsGap, lstrip-gap, lstrip-blank, unmarked, quoted-append, comma-gap, Stops,
  decimal-head, number-decimal,
}
use callstack.Protocol.Parser.{
  parse_signal_quality, stored, parse_cdsi, parse_cusd, cusd_fields, cusd_encoding,
}
use callstack.Protocol.Parser.Payload.{decode_cusd_message}
use callstack.Protocol.Parser.Ucs2.{
  IsScalar, units_of, octets_of, octets_of-Bytes, units_of-Units, print_ucs2, hex_upper-unmarked,
  decode_cusd_message-print_ucs2,
}

digit_visible : (c : ℕ) → is_digit c ≡ true → is_space c ≡ false
unfolding is_space
digit_visible c h = ground arith

pub gap-Stops : (g : Text) → IsGap g → Stops g
unfolding is_space
gap-Stops [] h = tt
gap-Stops (c ∷ g) h = ground arith

-- A comma stops a number, spaces before it included.
pub gap_comma-Stops : (g s : Text) → IsGap g → Stops (g ++ b',' ∷ s)
unfolding is_space
gap_comma-Stops [] s h = refl
gap_comma-Stops (c ∷ g) s h = ground arith

pub lstrip-decimal :
    (g : Text) (n : ℕ) (s : Text) → IsGap g → lstrip (g ++ (decimal n ++ s)) ≡ decimal n ++ s
lstrip-decimal g n s h =
    let (c, t, q, d) = decimal-head n in rw q (lstrip-gap g c (t ++ s) h (digit_visible c d))

pub comma-decimal :
    (g k : Text) (n : ℕ) (s : Text)
    → IsGap g
    → IsGap k
    → comma (g ++ (b',' ∷ (k ++ (decimal n ++ s)))) ≡ some (decimal n ++ s)
comma-decimal g k n s h l =
    let (c, t, q, d) = decimal-head n in rw q (comma-gap g k c (t ++ s) h l (digit_visible c d))

-- A string and a number, as they are printed.
abbrev pub print_stored : Text → Text → ℕ → Text → Text → Text
print_stored storage g n k z = b'"' ∷ (storage ++ (b'"' ∷ (g ++ (b',' ∷ (k ++ (decimal n ++ z))))))

stored-print_stored :
    (storage g : Text) (n : ℕ) (k z : Text)
    → all unmarked storage ≡ true
    → IsGap g
    → IsGap k
    → IsGap z
    → stored (print_stored storage g n k z) ≡ some (storage, n)
unfolding stored blank_end
stored-print_stored storage g n k z u h l m =
    rw (quoted-append storage (g ++ (b',' ∷ (k ++ (decimal n ++ z)))) u) (
      rw (comma-decimal g k n z h l)
        (rw (number-decimal n z (gap-Stops z m)) (rw (lstrip-blank z m) refl)))

-- The announcement of a delivery report is read back, the storage and the index, for any storage
-- without a quotation mark, any index, and any spaces.
pub parse_cdsi-printed :
    (storage : Text) (n : ℕ) (f g k z : Text)
    → all unmarked storage ≡ true
    → IsGap f
    → IsGap g
    → IsGap k
    → IsGap z
    → parse_cdsi (codes "+CDSI:" ++ (f ++ print_stored storage g n k z)) ≡ some (storage, n)
unfolding parse_cdsi is_space
parse_cdsi-printed storage n f g k z u e h l m =
    rw (after-append (codes "+CDSI:") (f ++ print_stored storage g n k z)) (
      rw (lstrip-gap f b'"' (storage ++ (b'"' ∷ (g ++ (b',' ∷ (k ++ (decimal n ++ z)))))) e refl)
        (stored-print_stored storage g n k z u h l m))

-- The answer to `AT+CSQ` is read back.
pub parse_signal_quality-printed :
    (rssi ber : ℕ) (f g k : Text)
    → IsGap f
    → IsGap g
    → IsGap k
    → parse_signal_quality
        (codes "+CSQ:" ++ (f ++ (decimal rssi ++ (g ++ (b',' ∷ (k ++ (decimal ber ++ [])))))))
      ≡ some (rssi, ber)
unfolding parse_signal_quality at_end
parse_signal_quality-printed rssi ber f g k e h l =
    let rest = g ++ (b',' ∷ (k ++ (decimal ber ++ []))) in
    rw (after-append (codes "+CSQ:") (f ++ (decimal rssi ++ rest))) (
      rw (lstrip-decimal f rssi rest e) (
        rw (number-decimal rssi rest (gap_comma-Stops g (k ++ (decimal ber ++ [])) h))
          (rw (comma-decimal g k ber [] h l) (rw (number-decimal ber [] tt) refl))))

-- The answer of the network to a USSD request, as it is printed with spaces between its parts.
abbrev pub print_cusd : ℕ → Text → ℕ → Text → Text → Text → Text → Text → Text → Text
print_cusd status message encoding f g k x y z =
    codes "+CUSD:"
    ++ (f
        ++ (decimal status
            ++ (g
                ++ (b','
                    ∷ (k
                        ++ (b'"'
                            ∷ (message
                                ++ (b'"' ∷ (x ++ (b',' ∷ (y ++ (decimal encoding ++ z))))))))))))

parse_cusd-print_cusd :
    (status : ℕ) (message : Text) (encoding : ℕ) (f g k x y z : Text)
    → all unmarked message ≡ true
    → All IsGap (f ∷ g ∷ k ∷ x ∷ y ∷ z ∷ [])
    → parse_cusd (print_cusd status message encoding f g k x y z)
      ≡ some (status, decode_cusd_message message encoding, encoding)
unfolding parse_cusd cusd_fields cusd_encoding blank_end is_space
parse_cusd-print_cusd status message encoding f g k x y z u gaps =
    let (hf, (hg, (hk, (hx, (hy, (hz, _)))))) = gaps in
    let coded = x ++ (b',' ∷ (y ++ (decimal encoding ++ z))) in
    let string = b'"' ∷ (message ++ (b'"' ∷ coded)) in
    let fields = g ++ (b',' ∷ (k ++ string)) in
    rw (after-append (codes "+CUSD:") (f ++ (decimal status ++ fields))) (
      rw (lstrip-decimal f status fields hf) (
        rw (number-decimal status fields (gap_comma-Stops g (k ++ string) hg)) (
          rw (comma-gap g k b'"' (message ++ (b'"' ∷ coded)) hg hk refl, cusd_fields)
            (rw (quoted-append message coded u) (
              rw (comma-decimal x y encoding z hx hy, cusd_encoding)
                (rw (number-decimal encoding z (gap-Stops z hz)) (rw (lstrip-blank z hz) refl)))))))

-- A network's answer in UCS-2 is read back: its status, its text, whatever characters that has, and
-- its encoding, with any spaces between the parts.
pub parse_cusd-ucs2 :
    (status : ℕ) (text f g k x y z : Text)
    → All IsScalar text
    → All IsGap (f ∷ g ∷ k ∷ x ∷ y ∷ z ∷ [])
    → parse_cusd (print_cusd status (print_ucs2 text) 72 f g k x y z) ≡ some (status, text, 72)
parse_cusd-ucs2 status text f g k x y z h gaps =
    parse_cusd-print_cusd status (print_ucs2 text) 72 f g k x y z
      (hex_upper-unmarked (octets_of (units_of text))
        (octets_of-Bytes (units_of text) (units_of-Units text h)))
      gaps
    ∙ ap (λ t. some (status, t, 72)) (decode_cusd_message-print_ucs2 text h)

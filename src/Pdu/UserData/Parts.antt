-- ===== src/Pdu/UserData/Parts.antt =====
-- The user data that the encoder builds, as the decoder reads it.
use callstack.Prelude.{
  ℕ, suc, ◌+◌, ◌-◌, ◌*◌, ◌/◌, ◌%◌, ◌≤◌, ◌<◌, ◌≡◌, refl, ap, ◌∙◌, true, false, List, [], ◌∷◌, ◌++◌,
  arith, some, leb, ◌&&◌, if_true, Bytes, Text, length, take, drop, ◌>>=◌, take-append_exact,
  length-append,
}
use callstack.Pdu.Alphabet.{gsm7_septets}
use callstack.Pdu.Pack.{header_septets, pack_gsm7_septets, pack_gsm7_with_udh}
use callstack.Pdu.Pack.RoundTrip.{IsSeptets, unpack-pack_with_udh}
use callstack.Pdu.Gsm7.{decode_septets, decode_gsm7}
use callstack.Pdu.Gsm7.RoundTrip.{LacksEscape, decode-strict}
use callstack.Pdu.Udh.{
  MultipartInfo, is_valid_udh, has_malformed_concatenation_udh, parse_concatenation_udh,
}
use callstack.Pdu.Udh.Elements.{Element, first_concatenation, is_malformed}
use callstack.Pdu.Udh.Walks.{walks_header, is_valid_udh_iff}
use callstack.Pdu.Submit.{concatenation_udh}
use callstack.Pdu.UserData.{decode_with_header}

abbrev pub info_of : ℕ → ℕ → ℕ → MultipartInfo
info_of reference total sequence = record {
  reference = reference;
  total_parts = total;
  sequence = sequence;
  is_16bit = true;
}

-- The element of the encoder's header.
abbrev wide_element : ℕ → ℕ → ℕ → Element
wide_element reference total sequence = record {
  iei = 0x08;
  payload = (reference / 256) % 256 ∷ reference % 256 ∷ total ∷ sequence ∷ [];
}

module _ (reference total sequence : ℕ) (wide : reference < 65536) (first : 1 ≤ sequence)
    (last : sequence ≤ total) where
  abbrev header : Bytes
  header = 0x06 ∷ 0x08 ∷ 0x04 ∷ (wide_element reference total sequence).payload

  udh_lem :
      (is_valid_udh header ≡ true)
      × (has_malformed_concatenation_udh header ≡ false)
      × (parse_concatenation_udh header ≡ some (info_of reference total sequence))
  unfolding first_concatenation is_malformed
  udh_lem =
      let e = wide_element reference total sequence in
      let walks = walks_header (e ∷ []) in
      let whole : (reference / 256) % 256 * 256 + reference % 256 ≡ reference = omega arith in
      ((is_valid_udh_iff _).1 (e ∷ [], refl), walks.1 ∙ ground arith, walks.0 ∙ ground arith)

-- The branch on user data that begins with a whole header.
with_header_lem :
    (udhl : ℕ) (ies rest : Bytes) (udl : ℕ)
    → length ies ≡ udhl
    → is_valid_udh (udhl ∷ ies) ≡ true
    → has_malformed_concatenation_udh (udhl ∷ ies) ≡ false
    → header_septets (udhl + 1) ≤ udl
    → decode_with_header (udhl ∷ ies ++ rest) udl ≡ (do
      body ←
          decode_gsm7
            (udhl ∷ ies ++ rest)
            (udl - header_septets (udhl + 1))
            (header_septets (udhl + 1) * 7)
      some (record { body = body; multipart = parse_concatenation_udh (udhl ∷ ies) }))
unfolding decode_with_header
with_header_lem udhl ies rest udl size valid fine enough =
    let front : take (udhl + 1) (udhl ∷ ies ++ rest) ≡ udhl ∷ ies =
      ap (λ n. take n (udhl ∷ ies ++ rest)) (let e : udhl + 1 ≡ suc (length ies) = omega arith in e)
      ∙ ap (λ t. udhl ∷ t) (take-append_exact ies rest) in
    let whole = length-append ies rest in rw front (rw (valid, fine) (ground arith))

decode_gsm7-packed :
    (udh : Bytes) (ss : List ℕ) (body : Text)
    → decode_septets ss ≡ body
    → IsSeptets ss
    → decode_gsm7 (pack_gsm7_with_udh udh ss).0 (length ss) (header_septets (length udh) * 7)
      ≡ some body
unfolding decode_gsm7
decode_gsm7-packed udh ss body decoded fits =
    let (count, size, front, back) = unpack-pack_with_udh udh ss fits in
    ground (arith, count, size, back, decoded)

-- User data for one part of a message: for every reference of 16 bits, 1 ≤ sequence ≤ total ≤ 255, and
-- body that the alphabet covers without the escape character, the header is built, and behind it the
-- decoder reads the body that was encoded, with the part's reference, number of parts and sequence
-- number.
pub decode-part :
    (reference total sequence : ℕ) (body : Text) (ss : List ℕ)
    → reference < 65536
    → 1 ≤ sequence
    → sequence ≤ total
    → total ≤ 255
    → LacksEscape body
    → gsm7_septets false body ≡ some ss
    → (udh : Bytes) × (concatenation_udh reference total sequence ≡ some udh)
      × (decode_with_header (pack_gsm7_with_udh udh ss).0 (pack_gsm7_with_udh udh ss).1
          ≡ some (record { body = body; multipart = some (info_of reference total sequence) }))
unfolding concatenation_udh pack_gsm7_with_udh
decode-part reference total sequence body ss wide first last few plain e =
    let guard : (leb total 255 && leb sequence 255) ≡ true = ground arith in
    let (valid, fine, parsed) = udh_lem reference total sequence wide first last in
    let (decoded, fits) = decode-strict body ss plain e in
    let ies = 0x08 ∷ 0x04 ∷ (wide_element reference total sequence).payload in
    let h = header_septets 7 in
    let rest = drop 7 (pack_gsm7_septets ss (h * 7)) in
    let less : h + length ss - h ≡ length ss = omega arith in
    let step = with_header_lem 6 ies rest (h + length ss) refl valid fine (omega arith) in
    let read = decode_gsm7-packed (0x06 ∷ ies) ss body decoded fits in
    (0x06 ∷ ies, if_true _ _ _ guard, step ∙ (rw (less, read, parsed)))

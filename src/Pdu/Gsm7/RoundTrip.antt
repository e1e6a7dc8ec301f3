-- ===== src/Pdu/Gsm7/RoundTrip.antt =====
-- Text through the encoder and back.
use callstack.Prelude.{
  ℕ, ◌<◌, ◌≡◌, ◌≢◌, refl, ap, subst, ◌∙◌, List, [], ◌∷◌, ◌++◌, arith, none, some, Bool, true, false,
  Text, All, All-append, Option-cases, inl, inr, map, ◌>>=◌,
}
use callstack.Pdu.Alphabet.{
  gsm7_escape, gsm7_extension, gsm7_extension_decode, gsm7_encode, char_septets, gsm7_septets,
}
use callstack.Pdu.Alphabet.Laws.{gsm7_encode_sound, gsm7_encode-ne-escape, extension-decode}
use callstack.Pdu.Pack.RoundTrip.{IsSeptets, unpack-pack}
use callstack.Pdu.Gsm7.{encode_gsm7, basic_char, decode_septets, decode_gsm7}

-- What the receiver reads for a character: itself if the alphabet has it, else a question mark.
unfoldable pub shown : ℕ → ℕ
shown c = elim (char_septets false c) [ some s ↦ c | none ↦ b'?' ]

pub decode-plain :
    (s : ℕ) (ss : List ℕ)
    → s ≢ gsm7_escape
    → decode_septets (s ∷ ss) ≡ basic_char s ∷ decode_septets ss
unfolding decode_septets
decode-plain s [] h = refl
decode-plain s (t ∷ ss) h = ground arith

pub decode-escaped :
    (e c : ℕ) (ss : List ℕ)
    → gsm7_extension_decode e ≡ some c
    → decode_septets (gsm7_escape ∷ e ∷ ss) ≡ c ∷ decode_septets ss
unfolding decode_septets
decode-escaped e c ss h = ground arith

-- One character at the head of the septets.
abbrev Head : Bool → ℕ → List ℕ → Type 0
Head allow c s =
    ((ss : List ℕ) → decode_septets (s ++ ss) ≡ shown c ∷ decode_septets ss) × IsSeptets s

fallback_lem : gsm7_encode b'?' ≡ some b'?'
unfolding gsm7_encode
fallback_lem = refl

-- What the loop appends for a character, in its three cases.
extension-Head :
    (allow : Bool) (c e : ℕ) → gsm7_extension c ≡ some e → Head allow c (gsm7_escape ∷ e ∷ [])
unfolding char_septets shown
extension-Head allow c e x =
    let (back, lt) = extension-decode c e x in
    (λ ss. ground (arith, decode-escaped e c ss back), omega arith)

basic-Head :
    (allow : Bool) (c i : ℕ)
    → c ≢ gsm7_escape
    → gsm7_extension c ≡ none
    → gsm7_encode c ≡ some i
    → Head allow c (i ∷ [])
unfolding char_septets shown
basic-Head allow c i h x e =
    let (lt, back) = gsm7_encode_sound c i e in
    (λ ss. ground (arith, decode-plain i ss (gsm7_encode-ne-escape c i h e)), omega arith)

fallback-Head : (c : ℕ) → gsm7_extension c ≡ none → gsm7_encode c ≡ none → Head true c (b'?' ∷ [])
unfolding char_septets shown
fallback-Head c x e = (λ ss. ground (arith, decode-plain b'?' ss (omega arith)), omega arith)

-- With the fallback, every character has septets; without it, only those that are shown.
char_septets-IsSeptets :
    (c : ℕ) → c ≢ gsm7_escape → (s : List ℕ) × (char_septets true c ≡ some s) × Head true c s
unfolding char_septets
char_septets-IsSeptets c h = elim (Option-cases (gsm7_extension c)) [
  | inr (e, x) ↦ (gsm7_escape ∷ e ∷ [], ground arith, extension-Head true c e x)
  | inl x ↦ elim (Option-cases (gsm7_encode c)) [
    | inr (i, e) ↦ (i ∷ [], ground arith, basic-Head true c i h x e)
    | inl e ↦ (b'?' ∷ [], ground (arith, fallback_lem), fallback-Head c x e)
  ]
]

-- No character of the text is the escape code's own.
abbrev pub LacksEscape : Text → Type 0
LacksEscape = All (λ c. c ≢ gsm7_escape)

pub text-IsSeptets :
    (text : Text)
    → LacksEscape text
    → (ss : List ℕ) × (gsm7_septets true text ≡ some ss)
      × (decode_septets ss ≡ map shown text)
      × IsSeptets ss
unfolding gsm7_septets
text-IsSeptets [] h = ([], refl, unfold decode_septets in refl, tt)
text-IsSeptets (c ∷ text) h =
    let (s, at, (head, fits)) = char_septets-IsSeptets c h.0 in
    let (ss, rest, decoded, all) = text-IsSeptets text h.1 in
    (
      s ++ ss,
      rw (at, rest),
      head ss ∙ ap (λ t. shown c ∷ t) decoded,
      All-append (λ k. k < 128) s ss fits all,
    )

-- For every text without the escape character the encoder succeeds, and the decoder, given its
-- octets and its count, returns the text with a question mark for each character that the
-- alphabet lacks.
pub decode-encode :
    (text : Text)
    → LacksEscape text
    → (do (octets, count) ← encode_gsm7 text; decode_gsm7 octets count 0) ≡ some (map shown text)
unfolding encode_gsm7 decode_gsm7
decode-encode text h =
    let (ss, at, decoded, fits) = text-IsSeptets text h in
    let (back, size) = unpack-pack ss 0 fits in rw at (ground (arith, back, size, decoded))

strict_char :
    (c : ℕ) (s : List ℕ)
    → char_septets false c ≡ some s
    → (char_septets true c ≡ some s) × (shown c ≡ c)
unfolding char_septets shown
strict_char c s h = ground arith

-- Where the encoder without fallback accepts a text, the one with fallback gives the same septets
-- and every character is shown as itself.
pub strict_septets :
    (text : Text) (ss : List ℕ)
    → gsm7_septets false text ≡ some ss
    → (gsm7_septets true text ≡ some ss) × (map shown text ≡ text)
unfolding gsm7_septets
strict_septets [] ss h = (h, refl)
strict_septets (c ∷ text) ss h = elim (Option-cases (char_septets false c)) [
  | inl e ↦ cc
  | inr (s, e) ↦ elim (Option-cases (gsm7_septets false text)) [
    | inl e' ↦ ground arith
    | inr (rest, e') ↦
        let (at, same) = strict_char c s e in
        let (at', same') = strict_septets text rest e' in (ground arith, cc)
  ]
]

-- So the septets of a text that it accepts are decoded to the text.
pub decode-strict :
    (text : Text) (ss : List ℕ)
    → LacksEscape text
    → gsm7_septets false text ≡ some ss
    → (decode_septets ss ≡ text) × IsSeptets ss
decode-strict text ss plain e =
    let (at, same) = strict_septets text ss e in
    let (ss', at', decoded, fits) = text-IsSeptets text plain in
    let eq : ss' ≡ ss = cc (at, at') in
    subst (λ r. (decode_septets r ≡ text) × IsSeptets r) eq (decoded ∙ same, fits)

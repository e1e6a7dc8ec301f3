-- ===== src/Sms/Service/Payload.antt =====
-- The octets that `send` of callstack/sms/service.py writes for a body, in the text mode of the modem:
-- the character 0x1A ends the message and 0x1B abandons it.
use callstack.Prelude.{
  ℕ, ◌≡◌, ◌≢◌, refl, ap, sym, ◌∙◌, true, false, ◌||◌, [], ◌∷◌, ◌++◌, Option, none, some, Text,
  Bytes, All, All-append, any, arith, ◌==◌, if◌then◌else◌, ◌>>=◌, Option-cases, Bool-cases, inl,
  inr, some_injective, subst,
}
use callstack.Pdu.Alphabet.{gsm7_extension, gsm7_extension_decode, gsm7_encode}
use callstack.Pdu.Alphabet.Laws.{gsm7_encode_sound, extension-decode}
use callstack.Pdu.Gsm7.{decode_septets}
use callstack.Pdu.Gsm7.RoundTrip.{decode-plain, decode-escaped}

-- `_GSM_TEXT_EXTENDED.get(char)`, which has the entries of the extension table.
abbrev pub gsm_text_extended : ℕ → Option ℕ
gsm_text_extended = gsm7_extension

-- `_GSM_TEXT_BASIC.get(char)`
unfoldable pub gsm_text_basic : ℕ → Option ℕ
gsm_text_basic c = elim (gsm7_encode c) [
  | none ↦ none
  | some code ↦ if (code == 0x1a) || (code == 0x1b) then none else some code
]

-- The octets of one character, if it has any.
unfoldable pub char_octets : ℕ → Option Bytes
char_octets c = elim (gsm_text_extended c) [
  | some code ↦ some (0x1b ∷ code ∷ [])
  | none ↦ elim (gsm_text_basic c) [ some code ↦ some (code ∷ []) | none ↦ none ]
]

unfoldable pub body_octets : Text → Option Bytes
body_octets [] = some []
body_octets (c ∷ body) = do s ← char_octets c; rest ← body_octets body; some (s ++ rest)

-- The payload, or the error of a character that has no octets.
unfoldable pub payload : Text → Option Bytes
payload body = do octets ← body_octets body; some (octets ++ (0x1a ∷ []))

-- What the octets of a character are: they read back as it, and do not end the message.
abbrev IsChar : ℕ → Bytes → Type 0
IsChar c s =
    ((ss : Bytes) → decode_septets (s ++ ss) ≡ c ∷ decode_septets ss) × All (λ k. k ≢ 0x1a) s

extended-IsChar : (c e : ℕ) → gsm7_extension c ≡ some e → IsChar c (0x1b ∷ e ∷ [])
unfolding gsm7_extension_decode
extended-IsChar c e x =
    let (back, small) = extension-decode c e x in (λ ss. decode-escaped e c ss back, ground arith)

basic-IsChar : (c e : ℕ) → gsm_text_basic c ≡ some e → IsChar c (e ∷ [])
unfolding gsm_text_basic
basic-IsChar c e x = elim (Option-cases (gsm7_encode c)) [
  | inl n ↦ absurd (ground (arith, x, n))
  | inr (i, n) ↦ elim (Bool-cases ((i == 0x1a) || (i == 0x1b))) [
    | inl r ↦ absurd (ground (arith, x, n, r))
    | inr r ↦
        let same : i ≡ e = some_injective i e (sym (rw (n, gsm_text_basic) (rw r refl)) ∙ x) in
        let (small, back) = gsm7_encode_sound c i n in
        subst (λ k. IsChar c (k ∷ [])) same
          (
            λ ss. decode-plain i ss (ground arith) ∙ ap (λ k. k ∷ decode_septets ss) back,
            (ground arith, tt),
          )
  ]
]

char_octets-IsChar : (c : ℕ) (s : Bytes) → char_octets c ≡ some s → IsChar c s
unfolding char_octets
char_octets-IsChar c s x = elim (Option-cases (gsm7_extension c)) [
  | inr (e, g) ↦
      subst (IsChar c) (some_injective (0x1b ∷ e ∷ []) s (sym (rw (g, char_octets) refl) ∙ x))
        (extended-IsChar c e g)
  | inl g ↦ elim (Option-cases (gsm_text_basic c)) [
    | inr (e, b) ↦
        subst (IsChar c) (some_injective (e ∷ []) s (sym (rw (g, char_octets) (rw b refl)) ∙ x))
          (basic-IsChar c e b)
    | inl b ↦ absurd (ground (arith, x, g, b))
  ]
]

-- What may come of a body: octets that read back as it, then the end of the message, which none of
-- them is; or an error, and then there is a character without octets.
abbrev pub IsPayload : Text → Option Bytes → Type 0
IsPayload body (some p) =
    (octets : Bytes) × (p ≡ octets ++ (0x1a ∷ []))
    × All (λ k. k ≢ 0x1a) octets
    × (decode_septets octets ≡ body)
IsPayload body none = any (λ c. elim (char_octets c) [ none ↦ true | some s ↦ false ]) body ≡ true

abbrev IsBody : Text → Option Bytes → Type 0
IsBody body (some octets) = All (λ k. k ≢ 0x1a) octets × (decode_septets octets ≡ body)
IsBody body none = any (λ c. elim (char_octets c) [ none ↦ true | some s ↦ false ]) body ≡ true

-- With one character more in front.
in_front-IsBody :
    (c : ℕ) (s : Bytes) (body : Text) (o : Option Bytes)
    → char_octets c ≡ some s
    → IsBody body o
    → IsBody (c ∷ body) (do rest ← o; some (s ++ rest))
in_front-IsBody c s body none n h = rw n h
in_front-IsBody c s body (some octets) n h =
    let (head, clean) = char_octets-IsChar c s n in
    (All-append (λ k. k ≢ 0x1a) s octets clean h.0, head octets ∙ ap (λ t. c ∷ t) h.1)

body_octets-IsBody : (body : Text) → IsBody body (body_octets body)
unfolding body_octets
body_octets-IsBody [] = (tt, unfold decode_septets in refl)
body_octets-IsBody (c ∷ body) = elim (Option-cases (char_octets c)) [
  | inl n ↦ rw n (rw n refl)
  | inr (s, n) ↦ rw n (in_front-IsBody c s body (body_octets body) n (body_octets-IsBody body))
]

ended-IsPayload :
    (body : Text) (o : Option Bytes)
    → IsBody body o
    → IsPayload body (do octets ← o; some (octets ++ (0x1a ∷ [])))
ended-IsPayload body none h = h
ended-IsPayload body (some octets) h = (octets, refl, h.0, h.1)

-- What `send` writes to the modem for a body: octets that the receiver reads back as the body, and
-- behind them the end of the message, which does not occur before; so nothing of a body ends its
-- message early. An error is raised only for a body with a character that has no octets.
pub payload-IsPayload : (body : Text) → IsPayload body (payload body)
unfolding payload
payload-IsPayload body = ended-IsPayload body (body_octets body) (body_octets-IsBody body)

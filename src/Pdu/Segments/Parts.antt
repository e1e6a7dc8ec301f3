-- ===== src/Pdu/Segments/Parts.antt =====
-- The parts of a multipart message.
use callstack.Prelude.{
  ℕ, suc, ◌+◌, ◌/◌, ◌%◌, ◌&&◌, leb, Bytes, if_true, ◌≤◌, ◌≡◌, ◌↔◌, refl, ap, subst, ◌∙◌, not, ◌||◌,
  true, false, List, [], ◌∷◌, ◌++◌, arith, Option, none, some, Text, codes, length, ltb,
  if◌then◌else◌, Bool-cases, Option-cases, inl, inr, ◌⊎◌, All,
}
use callstack.Pdu.Alphabet.{gsm7_septets}
use callstack.Pdu.Pack.{pack_gsm7_with_udh}
use callstack.Pdu.Phone.{matches_recipient, validate_sms_recipient}
use callstack.Pdu.Phone.RoundTrip.{recipient_digits}
use callstack.Pdu.Submit.{frame, concatenation_udh, build_submit_pdu_with_user_data}
use callstack.Pdu.Submit.Length.{destination_lem}
use callstack.Pdu.Segments.{
  max_payload, Input, Splitting, is_empty, admit, split_from, nothing_split, MultipartSubmitPdu,
  build_from, chosen, build_multipart_submit_pdus,
}
use callstack.Pdu.Segments.Split.{IsSegment, joined, split_lem}

-- A part with this number: its metadata, the septets of its body, and its PDU around them.
pub record IsPart (recipient : Text) (reference total index : ℕ) (p : MultipartSubmitPdu)
    : Type 0 where
  pub numbered : p.sequence ≡ index
  pub counted : p.total_parts ≡ total
  pub labelled : p.reference ≡ reference
  pub septets : List ℕ
  pub encoded : gsm7_septets false p.body ≡ some septets
  pub sized : p.payload_septets ≡ length septets
  pub fits : length septets ≤ max_payload
  pub built :
      build_submit_pdu_with_user_data recipient septets reference total index
      ≡ some (p.pdu, p.tpdu_length)

-- Parts with consecutive numbers.
abbrev pub PartsFrom : Text → ℕ → ℕ → ℕ → List MultipartSubmitPdu → Type 0
PartsFrom recipient reference total index [] = Unit
PartsFrom recipient reference total index (p ∷ ps) =
    IsPart recipient reference total index p × PartsFrom recipient reference total (suc index) ps

abbrev pub bodies : List MultipartSubmitPdu → Text
bodies [] = []
bodies (p ∷ ps) = p.body ++ bodies ps

udh_total :
    (reference total index : ℕ)
    → total ≤ 255
    → index ≤ total
    → (udh : Bytes) × (concatenation_udh reference total index ≡ some udh)
unfolding concatenation_udh
udh_total reference total index few last =
    let guard : (leb total 255 && leb index 255) ≡ true = ground arith in
    (
      0x06 ∷ 0x08 ∷ 0x04 ∷ (reference / 256) % 256 ∷ reference % 256 ∷ total ∷ index ∷ [],
      if_true _ _ _ guard,
    )

module _ (recipient : Text) (reference total : ℕ) (valid : matches_recipient recipient ≡ true) where
  with_user_data_total :
      (ss : List ℕ) (index : ℕ)
      → total ≤ 255
      → index ≤ total
      → (r : Text × ℕ) × (build_submit_pdu_with_user_data recipient ss reference total index
          ≡ some r)
  unfolding build_submit_pdu_with_user_data
  with_user_data_total ss index few last =
      let (_, short, digits) = recipient_digits recipient valid in
      let (da, at, size) = destination_lem recipient digits (omega arith) in
      let (udh, made) = udh_total reference total index few last in
      let ud = pack_gsm7_with_udh udh ss in (frame (codes "71") da ud.1 ud.0, rw (at, made))

  build_from_lem :
      (index : ℕ) (inputs : List Input)
      → total ≤ 255
      → index + length inputs ≤ total + 1
      → All IsSegment inputs
      → (parts : List MultipartSubmitPdu) × (build_from recipient reference total index inputs
          ≡ some parts)
        × PartsFrom recipient reference total index parts
        × (bodies parts ≡ joined inputs)
        × (length parts ≡ length inputs)
  unfolding build_from
  build_from_lem index [] few last h = ([], refl, tt, refl, refl)
  build_from_lem index (s ∷ inputs) few last h =
      let ((pdu, n), at) = with_user_data_total s.septets index few (omega arith) in
      let (ps, rest, ok, whole, size) = build_from_lem (suc index) inputs few (omega arith) h.1 in
      let p : MultipartSubmitPdu = record {
        pdu = pdu;
        tpdu_length = n;
        sequence = index;
        total_parts = total;
        reference = reference;
        body = s.text;
        payload_septets = length s.septets;
      } in
      (
        p ∷ ps,
        rw (at, rest),
        (
          record {
            numbered = refl;
            counted = refl;
            labelled = refl;
            septets = s.septets;
            encoded = (h.0).encoded;
            sized = refl;
            fits = (h.0).fits;
            built = at;
          },
          ok,
        ),
        ap (λ t. s.text ++ t) whole,
        ap suc size,
      )

-- What a message was split into, with the segments that the split made.
pub record IsMultipart (recipient body : Text) (reference : ℕ) (parts : List MultipartSubmitPdu)
    : Type 0 where
  pub consecutive : PartsFrom recipient reference (length parts) 1 parts
  pub whole : bodies parts ≡ body
  pub some_part : 1 ≤ length parts
  pub few : length parts ≤ 255

close_ne :
    (xs : List Input) (t : Text) (x : Input)
    → 1 ≤ length (if not (is_empty t) || is_empty xs then xs ++ x ∷ [] else xs)
close_ne [] [] x = omega arith
close_ne [] (c ∷ t) x = omega arith
close_ne (y ∷ xs) [] x = omega arith
close_ne (y ∷ xs) (c ∷ t) x = omega arith

split_some :
    (body : Text) (s : Splitting) (inputs : List Input)
    → split_from s body ≡ some inputs
    → 1 ≤ length inputs
unfolding split_from
split_some [] s inputs h =
    let done : (if not (is_empty s.current.text) || is_empty s.inputs
          then s.inputs ++ s.current ∷ []
          else s.inputs)
        ≡ inputs =
      cc in
    rw (← done) (close_ne s.inputs s.current.text s.current)
split_some (c ∷ body) s inputs h = elim (Option-cases (gsm7_septets false (c ∷ []))) [
  | inl e ↦ absurd (ground arith)
  | inr (cs, e) ↦ split_some body (admit s c cs) inputs (rw e at h)
]

module _ (recipient body : Text) (reference : Option ℕ) (random : ℕ) where
  abbrev result : Option (List MultipartSubmitPdu)
  result = build_multipart_submit_pdus recipient body reference random

  -- The four ways to fail, and success.
  build_cases :
      ((matches_recipient recipient ≡ false) × (result ≡ none))
      ⊎ ((65536 ≤ chosen reference random) × (result ≡ none))
      ⊎ ((split_from nothing_split body ≡ none) × (result ≡ none))
      ⊎ ((inputs : List Input) × (split_from nothing_split body ≡ some inputs)
          × (256 ≤ length inputs)
          × (result ≡ none))
      ⊎ ((inputs : List Input) × (matches_recipient recipient ≡ true)
          × (chosen reference random ≤ 65535)
          × (split_from nothing_split body ≡ some inputs)
          × (length inputs ≤ 255)
          × ((parts : List MultipartSubmitPdu) × (result ≡ some parts)
              × IsMultipart recipient body (chosen reference random) parts))
  unfolding build_multipart_submit_pdus validate_sms_recipient
  build_cases = elim (Bool-cases (matches_recipient recipient)) [
    | inr e ↦ inl (e, rw e)
    | inl v ↦ elim (Bool-cases (ltb 0xffff (chosen reference random))) [
      | inl e ↦ inr (inl (ground arith, rw (v, e)))
      | inr r ↦ elim (Option-cases (split_from nothing_split body)) [
        | inl e ↦ inr (inr (inl (e, rw (v, r, e))))
        | inr (inputs, e) ↦ elim (Bool-cases (ltb 255 (length inputs))) [
          | inl l ↦ inr (inr (inr (inl (inputs, e, ground arith, rw (v, r, e, l)))))
          | inr l ↦
              let sp = (split_lem body).1 inputs e in
              let (parts, at, ok, whole, size) =
                build_from_lem recipient (chosen reference random) (length inputs) v 1 inputs
                  (ground arith) (omega arith) sp.fitting in
              let n = split_some body nothing_split inputs e in
              inr (
                inr (
                  inr (
                    inr (
                      inputs,
                      v,
                      ground arith,
                      e,
                      ground arith,
                      (
                        parts,
                        rw (v, r, e, l, at),
                        record {
                          consecutive = rw size ok;
                          whole = whole ∙ sp.whole;
                          some_part = omega arith;
                          few = ground arith;
                        },
                      ),
                    ))))
        ]
      ]
    ]
  ]

  -- The build fails exactly when the recipient is no recipient, the reference has more than 16
  -- bits, the alphabet lacks a character of the body, or there are more than 255 segments.
  pub build_multipart_none : (result ≡ none) ↔ (
      (matches_recipient recipient ≡ false)
      ⊎ (65536 ≤ chosen reference random)
      ⊎ (gsm7_septets false body ≡ none)
      ⊎ ((inputs : List Input) × (split_from nothing_split body ≡ some inputs)
          × (256 ≤ length inputs)))
  build_multipart_none = (
    λ h. elim build_cases [
      | inl (e, f) ↦ inl e
      | inr (inl (e, f)) ↦ inr (inl e)
      | inr (inr (inl (e, f))) ↦ inr (inr (inl (((split_lem body).0).0 e)))
      | inr (inr (inr (inl (inputs, e, l, f)))) ↦ inr (inr (inr (inputs, e, l)))
      | inr (inr (inr (inr (inputs, v, r, e, l, (parts, at, ok))))) ↦ absurd (cc (h, at))
    ],
    λ h. elim build_cases [
      | inl (e, f) ↦ f
      | inr (inl (e, f)) ↦ f
      | inr (inr (inl (e, f))) ↦ f
      | inr (inr (inr (inl (inputs, e, l, f)))) ↦ f
      | inr (inr (inr (inr (inputs, v, r, e, l, (parts, at, ok))))) ↦ elim h [
        | inl bad ↦ absurd (cc (v, bad))
        | inr (inl big) ↦ absurd (omega arith)
        | inr (inr (inl bad)) ↦ absurd (cc (e, ((split_lem body).0).1 bad))
        | inr (inr (inr (other, e', many))) ↦ absurd (
            let same : other ≡ inputs = cc (e, e') in
            let big : 256 ≤ length inputs = subst (λ t. 256 ≤ length t) same many in omega arith)
      ]
    ],
  )

-- ===== src/Pdu/Segments/Split.antt =====
-- The split of a body into segments.
use callstack.Prelude.{
  ℕ, ◌≤◌, ◌≡◌, ◌≢◌, refl, ap, sym, subst, ◌∙◌, true, false, not, ◌||◌, List, [], ◌∷◌, ◌++◌,
  append_assoc, append-nil, arith, none, some, Text, length, All, All-append, if◌then◌else◌,
  Bool-cases, Option-cases, inl, inr, ◌⊎◌, ◌↔◌, length-append,
}
use callstack.Pdu.Alphabet.{char_septets, gsm7_septets}
use callstack.Pdu.Segments.{
  max_payload, Input, Splitting, is_empty, admit, split_from, nothing_split, is_full,
}

-- A segment holds the septets of its text, and they fit behind the header.
pub record IsSegment (s : Input) : Type 0 where
  pub encoded : gsm7_septets false s.text ≡ some s.septets
  pub fits : length s.septets ≤ max_payload

-- The texts of the segments, joined.
abbrev pub joined : List Input → Text
joined [] = []
joined (s ∷ ss) = s.text ++ joined ss

joined-append : (ss ts : List Input) → joined (ss ++ ts) ≡ joined ss ++ joined ts
joined-append [] ts = refl
joined-append (s ∷ ss) ts =
    ap (λ t. s.text ++ t) (joined-append ss ts) ∙ sym (append_assoc s.text (joined ss) (joined ts))

joined-push : (ss : List Input) (s : Input) → joined (ss ++ s ∷ []) ≡ joined ss ++ s.text
joined-push ss s = joined-append ss (s ∷ []) ∙ ap (λ t. joined ss ++ t) (append-nil s.text)

septets-append :
    (s t : Text) (a b : List ℕ)
    → gsm7_septets false s ≡ some a
    → gsm7_septets false t ≡ some b
    → gsm7_septets false (s ++ t) ≡ some (a ++ b)
unfolding gsm7_septets
septets-append [] t [] b h k = k
septets-append [] t (x ∷ a) b h k = absurd (cc)
septets-append (c ∷ s) t a b h k = elim (Option-cases (char_septets false c)) [
  | inl e ↦ absurd (ground arith)
  | inr (x, e) ↦ elim (Option-cases (gsm7_septets false s)) [
    | inl e' ↦ absurd (ground arith)
    | inr (r, e') ↦
        let ih = septets-append s t r b e' k in
        let same : x ++ r ≡ a = ground arith in rw (e, ih, ← same, append_assoc)
  ]
]

char_count : (c : ℕ) (cs : List ℕ) → gsm7_septets false (c ∷ []) ≡ some cs → length cs ≤ 2
unfolding gsm7_septets char_septets
char_count c cs h = ground arith

-- What holds of the loop's variables when the characters `seen` are behind it.
record IsSplit (seen : Text) (s : Splitting) : Type 0 where
  segments : All IsSegment s.inputs
  open_segment : IsSegment s.current
  filled : All (λ i. i.text ≢ []) s.inputs
  whole : joined s.inputs ++ s.current.text ≡ seen

full-filled :
    (s : Splitting) (cs : List ℕ) → IsSegment s.current → is_full s cs ≡ true → s.current.text ≢ []
unfolding is_full gsm7_septets
full-filled s cs h full e =
    let none_yet : s.current.septets ≡ [] = cc (h.encoded, ap (gsm7_septets false) e) in
    absurd (ground arith)

room-fits :
    (s : Splitting) (cs : List ℕ)
    → length cs ≤ 2
    → is_full s cs ≡ false
    → length (s.current.septets ++ cs) ≤ max_payload
unfolding is_full
room-fits s cs two room = ground (arith, length-append s.current.septets cs)

admit-IsSplit :
    (seen : Text) (s : Splitting) (c : ℕ) (cs : List ℕ)
    → gsm7_septets false (c ∷ []) ≡ some cs
    → IsSplit seen s
    → IsSplit (seen ++ c ∷ []) (admit s c cs)
unfolding admit
admit-IsSplit seen s c cs e h = elim (Bool-cases (is_full s cs)) [
  | inl full ↦ rw full (record {
    segments = All-append IsSegment s.inputs (s.current ∷ []) h.segments (h.open_segment, tt);
    open_segment = record { encoded = e; fits = let n = char_count c cs e in omega arith };
    filled =
        All-append (λ i. i.text ≢ []) s.inputs (s.current ∷ []) h.filled
          (full-filled s cs h.open_segment full, tt);
    whole = ap (λ t. t ++ c ∷ []) (joined-push s.inputs s.current ∙ h.whole);
  })
  | inr room ↦ rw room (record {
    segments = h.segments;
    open_segment = record {
      encoded =
          septets-append s.current.text (c ∷ []) s.current.septets cs h.open_segment.encoded e;
      fits = room-fits s cs (char_count c cs e) room;
    };
    filled = h.filled;
    whole =
        sym (append_assoc (joined s.inputs) s.current.text (c ∷ []))
        ∙ ap (λ t. t ++ c ∷ []) h.whole;
  })
]

-- What holds of the segments that a body is split into.
pub record IsSplitOf (body : Text) (segments : List Input) : Type 0 where
  pub fitting : All IsSegment segments
  pub whole : joined segments ≡ body
  pub filled : (body ≡ []) ⊎ All (λ i. i.text ≢ []) segments

module _ (septets : List ℕ) where
  abbrev closed : List Input → Text → List Input
  closed inputs text =
      if not (is_empty text) || is_empty inputs
      then inputs ++ record { text = text; septets = septets } ∷ []
      else inputs

  close :
      (inputs : List Input) (text : Text)
      → All IsSegment inputs
      → IsSegment (record { text = text; septets = septets })
      → All (λ i. i.text ≢ []) inputs
      → IsSplitOf (joined inputs ++ text) (closed inputs text)
  close [] [] fit last full = record { fitting = (last, tt); whole = refl; filled = inl refl }
  close [] (c ∷ text) fit last full = record {
    fitting = (last, tt);
    whole = append-nil (c ∷ text);
    filled = inr ((λ e. cc), tt);
  }
  close (i ∷ inputs) [] fit last full = record {
    fitting = fit;
    whole = sym (append-nil (joined (i ∷ inputs)));
    filled = inr full;
  }
  close (i ∷ inputs) (c ∷ text) fit last full =
      let end : Input = record { text = c ∷ text; septets = septets } in
      record {
        fitting = All-append IsSegment (i ∷ inputs) (end ∷ []) fit (last, tt);
        whole = joined-push (i ∷ inputs) end;
        filled = inr (All-append (λ x. x.text ≢ []) (i ∷ inputs) (end ∷ []) full ((λ e. cc), tt));
      }

close-IsSplit :
    (seen : Text) (s : Splitting) (out : List Input)
    → IsSplit seen s
    → split_from s [] ≡ some out
    → IsSplitOf seen out
unfolding split_from
close-IsSplit seen s out h e =
    subst (IsSplitOf seen)
      (let same : closed s.current.septets s.inputs s.current.text ≡ out = cc in same)
      (subst (λ t. IsSplitOf t (closed s.current.septets s.inputs s.current.text)) h.whole
        (close s.current.septets s.inputs s.current.text h.segments h.open_segment h.filled))

split_from-IsSplitOf :
    (seen body : Text) (s : Splitting) (out : List Input)
    → IsSplit seen s
    → split_from s body ≡ some out
    → IsSplitOf (seen ++ body) out
unfolding split_from
split_from-IsSplitOf seen [] s out h e = rw append-nil (close-IsSplit seen s out h e)
split_from-IsSplitOf seen (c ∷ body) s out h e = elim (Option-cases (gsm7_septets false (c ∷ []))) [
  | inl none_for ↦ absurd (ground arith)
  | inr (cs, at) ↦ rw (← append_assoc seen (c ∷ []) body) (
      split_from-IsSplitOf (seen ++ c ∷ []) body (admit s c cs) out (admit-IsSplit seen s c cs at h)
        (rw at at e))
]

split_from-none :
    (body : Text) (s : Splitting) → gsm7_septets false body ≡ none → split_from s body ≡ none
unfolding split_from gsm7_septets
split_from-none [] s h = absurd (cc)
split_from-none (c ∷ body) s h = elim (Option-cases (char_septets false c)) [
  | inl e ↦ ground arith
  | inr (x, e) ↦ ground (arith, split_from-none body (admit s c (x ++ [])))
]

split_from-some :
    (body : Text) (s : Splitting) (ss : List ℕ)
    → gsm7_septets false body ≡ some ss
    → (out : List Input) × (split_from s body ≡ some out)
unfolding split_from gsm7_septets
split_from-some [] s ss h = (closed s.current.septets s.inputs s.current.text, refl)
split_from-some (c ∷ body) s ss h = elim (Option-cases (char_septets false c)) [
  | inl e ↦ absurd (ground arith)
  | inr (x, e) ↦ elim (Option-cases (gsm7_septets false body)) [
    | inl e' ↦ absurd (ground arith)
    | inr (r, e') ↦
        let (out, done) = split_from-some body (admit s c (x ++ [])) r e' in (out, rw e done)
  ]
]

nothing-IsSplit : IsSplit [] nothing_split
unfolding gsm7_septets
nothing-IsSplit = record {
  segments = tt;
  open_segment = record { encoded = refl; fits = omega arith };
  filled = tt;
  whole = refl;
}

-- The split succeeds on exactly the texts that the alphabet covers; its segments hold the septets
-- of their texts, none is longer than what fits behind the header, their texts joined are the body,
-- and none is empty unless the body is.
pub split_lem :
    (body : Text)
    → ((split_from nothing_split body ≡ none) ↔ (gsm7_septets false body ≡ none))
      × ((out : List Input) → split_from nothing_split body ≡ some out → IsSplitOf body out)
split_lem body = (
  (
    λ h. elim (Option-cases (gsm7_septets false body)) [
      | inl e ↦ e
      | inr (ss, e) ↦ absurd (let x = split_from-some body nothing_split ss e in cc (x.1, h))
    ],
    split_from-none body nothing_split,
  ),
  λ out. split_from-IsSplitOf [] body nothing_split out nothing-IsSplit,
)

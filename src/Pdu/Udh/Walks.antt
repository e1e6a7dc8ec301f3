-- ===== src/Pdu/Udh/Walks.antt =====
-- The three walks over a header, against the list of its elements.
use callstack.Prelude.{
  ℕ, zero, suc, ◌+◌, ◌≤◌, ◌<◌, ◌≡◌, refl, ap, sym, subst, ◌∙◌, ◌↔◌, true, List, [], ◌∷◌, ◌++◌,
  append_assoc, arith, Bytes, length, get_or, take, drop, any, length-append, take-append_exact,
}
use callstack.Pdu.Udh.{
  valid_from, is_valid_udh, malformed_element, malformed_from, has_malformed_concatenation_udh,
  element_info, parse_from, parse_concatenation_udh,
}
use callstack.Pdu.Udh.Elements.{
  Element, element_octets, elements_octets, header, concatenation, first_concatenation,
  is_malformed, read_at, read_here, drop_at, length_at, element_info_at, info_shape,
  malformed_shape,
}

-- A position in a header, with these elements to come.
record Reads (udh : Bytes) (pos : ℕ) (es : List Element) : Type 0 where
  pre : Bytes
  cut : udh ≡ pre ++ elements_octets es
  here : pos ≡ length pre

Reads-next :
    (udh : Bytes) (pos : ℕ) (e : Element) (es : List Element)
    → Reads udh pos (e ∷ es)
    → Reads udh (pos + 2 + length e.payload) es
Reads-next udh pos e es r = record {
  pre = r.pre ++ element_octets e;
  cut = r.cut ∙ sym (append_assoc r.pre (element_octets e) (elements_octets es));
  here = let h = r.here in omega (arith, length-append r.pre (element_octets e));
}

Reads-header : (es : List Element) → Reads (header es) 1 es
Reads-header es = record { pre = length (elements_octets es) ∷ []; cut = refl; here = refl }

module _ (udh : Bytes) (pos : ℕ) (e : Element) (es : List Element)
    (r : Reads udh pos (e ∷ es)) where
  abbrev tail_octets : Bytes
  tail_octets = elements_octets (e ∷ es)

  iei_at : get_or udh pos 0 ≡ e.iei
  iei_at = read_here udh r.pre tail_octets pos r.cut r.here

  ie_len_at : get_or udh (pos + 1) 0 ≡ length e.payload
  ie_len_at = read_at udh r.pre tail_octets pos r.cut r.here 1

  info_at : element_info udh e.iei (length e.payload) (pos + 2) ≡ concatenation e
  info_at =
      element_info_at udh r.pre tail_octets pos r.cut r.here e.iei (length e.payload)
      ∙ info_shape e.iei e.payload (elements_octets es)

  ie_data_at : take (length e.payload) (drop (pos + 2) udh) ≡ e.payload
  ie_data_at =
      ap (take (length e.payload)) (drop_at udh r.pre tail_octets pos r.cut r.here 2)
      ∙ take-append_exact e.payload (elements_octets es)

  end_at : length udh ≡ pos + 2 + length e.payload + length (elements_octets es)
  end_at = omega (
    arith,
    length_at udh r.pre tail_octets pos r.cut r.here,
    length-append e.payload (elements_octets es),
  )

end_nil : (udh : Bytes) (pos : ℕ) → Reads udh pos [] → length udh ≡ pos
end_nil udh pos r = omega (arith, length_at udh r.pre [] pos r.cut r.here)

parse_from-Reads :
    (fuel : ℕ) (udh : Bytes) (pos : ℕ) (es : List Element)
    → length es < fuel
    → Reads udh pos es
    → parse_from fuel udh (length udh) pos ≡ first_concatenation es
unfolding parse_from first_concatenation
parse_from-Reads zero udh pos es lt r = absurd (omega arith)
parse_from-Reads (suc fuel) udh pos [] lt r = ground (arith, end_nil udh pos r)
parse_from-Reads (suc fuel) udh pos (e ∷ es) lt r = ground (
  arith,
  iei_at udh pos e es r,
  ie_len_at udh pos e es r,
  info_at udh pos e es r,
  end_at udh pos e es r,
  parse_from-Reads fuel udh (pos + 2 + length e.payload) es (omega arith)
      (Reads-next udh pos e es r),
)

malformed_from-Reads :
    (fuel : ℕ) (udh : Bytes) (pos : ℕ) (es : List Element)
    → length es < fuel
    → Reads udh pos es
    → malformed_from fuel udh pos ≡ any is_malformed es
unfolding malformed_from
malformed_from-Reads zero udh pos es lt r = absurd (omega arith)
malformed_from-Reads (suc fuel) udh pos [] lt r = ground (arith, end_nil udh pos r)
malformed_from-Reads (suc fuel) udh pos (e ∷ es) lt r = rw (iei_at udh pos e es r) (
    rw (ie_len_at udh pos e es r) (
      rw (ie_data_at udh pos e es r) (
        ground (
          arith,
          end_at udh pos e es r,
          (let m : malformed_element e.iei (length e.payload) e.payload ≡ is_malformed e =
                malformed_shape e.iei e.payload in
              m),
          malformed_from-Reads fuel udh (pos + (2 + length e.payload)) es (omega arith) (
              let at : pos + 2 + length e.payload ≡ pos + (2 + length e.payload) = omega arith in
              subst (λ n. Reads udh n es) at (Reads-next udh pos e es r)),
        ))))

valid_from-Reads :
    (fuel : ℕ) (udh : Bytes) (pos : ℕ) (es : List Element)
    → length es < fuel
    → Reads udh pos es
    → valid_from fuel udh pos ≡ true
unfolding valid_from
valid_from-Reads zero udh pos es lt r = absurd (omega arith)
valid_from-Reads (suc fuel) udh pos [] lt r = ground (arith, end_nil udh pos r)
valid_from-Reads (suc fuel) udh pos (e ∷ es) lt r = ground (
  arith,
  ie_len_at udh pos e es r,
  end_at udh pos e es r,
  valid_from-Reads fuel udh (pos + 2 + length e.payload) es (omega arith)
      (Reads-next udh pos e es r),
)

elements_le : (es : List Element) → length es ≤ length (elements_octets es)
elements_le [] = omega arith
elements_le (e ∷ es) = omega (arith, elements_le es, length-append e.payload (elements_octets es))

-- Whatever the elements of a header, the walk that reads the concatenation metadata returns that of
-- the first element that states a concatenation with 1 ≤ sequence ≤ total, and nothing if there is
-- none; and the walk that looks for malformed metadata finds it exactly when some element has one
-- of the two concatenation identifiers and states no such metadata.
pub walks_header :
    (es : List Element)
    → (parse_concatenation_udh (header es) ≡ first_concatenation es)
      × (has_malformed_concatenation_udh (header es) ≡ any is_malformed es)
unfolding parse_concatenation_udh has_malformed_concatenation_udh
walks_header es =
    let n = length (elements_octets es) in
    let le = elements_le es in
    (
      ground (arith, parse_from-Reads (suc n) (header es) 1 es (omega arith) (Reads-header es)),
      malformed_from-Reads (suc n) (header es) 1 es (omega arith) (Reads-header es),
    )

-- The elements of a suffix that the validity walk accepts.
split_at :
    (n : ℕ) (xs : Bytes) → n ≤ length xs → (length (take n xs) ≡ n) × (take n xs ++ drop n xs ≡ xs)
split_at zero xs h = (refl, refl)
split_at (suc n) [] h = absurd (omega arith)
split_at (suc n) (x ∷ xs) h =
    let (a, b) = split_at n xs (omega arith) in (ap suc a, ap (λ t. x ∷ t) b)

valid_from_step :
    (fuel : ℕ) (udh : Bytes) (pos : ℕ)
    → valid_from (suc fuel) udh pos ≡ true
    → pos < length udh
    → (pos + 2 + get_or udh (pos + 1) 0 ≤ length udh)
      × (valid_from fuel udh (pos + 2 + get_or udh (pos + 1) 0) ≡ true)
unfolding valid_from
valid_from_step fuel udh pos h lt = ground arith

join_element :
    (a l : ℕ) (ys : Bytes) (es : List Element)
    → length (take l ys) ≡ l
    → take l ys ++ drop l ys ≡ ys
    → drop l ys ≡ elements_octets es
    → a ∷ l ∷ ys ≡ elements_octets (record { iei = a; payload = take l ys } ∷ es)
join_element a l ys es taken joined rest = rw (← rest) (cc (taken, joined))

valid_from_sound :
    (fuel : ℕ) (udh pre ys : Bytes) (pos : ℕ)
    → udh ≡ pre ++ ys
    → pos ≡ length pre
    → valid_from fuel udh pos ≡ true
    → (es : List Element) × (ys ≡ elements_octets es)
unfolding valid_from
valid_from_sound zero udh pre ys pos cut here h = cc
valid_from_sound (suc fuel) udh pre [] pos cut here h = ([], refl)
valid_from_sound (suc fuel) udh pre (a ∷ []) pos cut here h =
    let size = length_at udh pre (a ∷ []) pos cut here in
    absurd (omega (arith, (valid_from_step fuel udh pos h (omega arith)).0))
valid_from_sound (suc fuel) udh pre (a ∷ l ∷ ys) pos cut here h =
    let size = length_at udh pre (a ∷ l ∷ ys) pos cut here in
    let len : get_or udh (pos + 1) 0 ≡ l = read_at udh pre (a ∷ l ∷ ys) pos cut here 1 in
    let (fits, more) = valid_from_step fuel udh pos h (omega arith) in
    let (taken, joined) = split_at l ys (omega arith) in
    let front : Bytes = a ∷ l ∷ take l ys in
    let (es, rest) =
      valid_from_sound fuel udh (pre ++ front) (drop l ys) (pos + 2 + get_or udh (pos + 1) 0)
        (cut ∙ ap (λ t. pre ++ (a ∷ l ∷ t)) (sym joined) ∙ sym (append_assoc pre front (drop l ys)))
        (omega (arith, length-append pre front)) more in
    (record { iei = a; payload = take l ys } ∷ es, join_element a l ys es taken joined rest)

is_valid_udh-header : (es : List Element) → is_valid_udh (header es) ≡ true
unfolding is_valid_udh
is_valid_udh-header es =
    let walk =
      valid_from-Reads (suc (length (elements_octets es))) (header es) 1 es
        (let le = elements_le es in omega arith) (Reads-header es) in
    ground arith

-- A header is accepted exactly when it is the length octet and the octets of information elements.
pub is_valid_udh_iff :
    (udh : Bytes) → (is_valid_udh udh ≡ true) ↔ ((es : List Element) × (udh ≡ header es))
unfolding is_valid_udh
is_valid_udh_iff [] = (λ h. cc, λ x. let e = x.1 in cc)
is_valid_udh_iff (udhl ∷ ies) = (
  λ h.
      let n : length ies ≡ udhl = ground arith in
      let w : valid_from (suc (length ies)) (udhl ∷ ies) 1 ≡ true = ground arith in
      let (es, e) =
        valid_from_sound (suc (length ies)) (udhl ∷ ies) (udhl ∷ []) ies 1 refl refl w in
      (es, cc (n, ap length e, e)),
  λ x. let (es, e) = x in subst (λ u. is_valid_udh u ≡ true) (sym e) (is_valid_udh-header es),
)

-- ===== src/Pdu/Udh/Elements.antt =====
-- A header as a list of information elements, and what the walks find in it.
use callstack.Prelude.{
  ℕ, suc, ◌+◌, ◌*◌, ◌≡◌, ap, ◌∙◌, Bool, true, false, ◌&&◌, ◌||◌, List, [], ◌∷◌, ◌++◌, arith, Option,
  none, some, Bytes, length, get_or, drop, leb, ◌==◌, if◌then◌else◌, length-append,
}
use callstack.Pdu.Udh.{MultipartInfo, parts_fit, malformed_element, element_info}

-- An information element: its identifier and its data.
pub record Element : Type 0 where
  pub iei : ℕ
  pub payload : Bytes

-- The octets of one element, and of several.
abbrev pub element_octets : Element → Bytes
element_octets e = e.iei ∷ length e.payload ∷ e.payload

abbrev pub elements_octets : List Element → Bytes
elements_octets [] = []
elements_octets (e ∷ es) = element_octets e ++ elements_octets es

-- The whole header, its length octet first.
abbrev pub header : List Element → Bytes
header es = length (elements_octets es) ∷ elements_octets es

get_or-behind : (xs ys : Bytes) (k : ℕ) → get_or (xs ++ ys) (length xs + k) 0 ≡ get_or ys k 0
get_or-behind [] ys k = ap (λ n. get_or ys n 0) (omega arith)
get_or-behind (x ∷ xs) ys k =
    ap (λ n. get_or (x ∷ xs ++ ys) n 0)
      (let e : suc (length xs) + k ≡ suc (length xs + k) = omega arith in e)
    ∙ get_or-behind xs ys k

drop-behind : (xs ys : Bytes) (k : ℕ) → drop (length xs + k) (xs ++ ys) ≡ drop k ys
drop-behind [] ys k = ap (λ n. drop n ys) (omega arith)
drop-behind (x ∷ xs) ys k =
    ap (λ n. drop n (x ∷ xs ++ ys))
      (let e : suc (length xs) + k ≡ suc (length xs + k) = omega arith in e)
    ∙ drop-behind xs ys k

-- A header read from a position that has `ys` before it to the end.
module _ (udh pre ys : Bytes) (pos : ℕ) (cut : udh ≡ pre ++ ys) (here : pos ≡ length pre) where
  pub read_at : (k : ℕ) → get_or udh (pos + k) 0 ≡ get_or ys k 0
  read_at k = rw (cut, here) (get_or-behind pre ys k)

  pub read_here : get_or udh pos 0 ≡ get_or ys 0 0
  read_here = ap (λ n. get_or udh n 0) (omega arith) ∙ read_at 0

  pub drop_at : (k : ℕ) → drop (pos + k) udh ≡ drop k ys
  drop_at k = rw (cut, here) (drop-behind pre ys k)

  pub length_at : length udh ≡ pos + length ys
  length_at = rw (cut, here) (length-append pre ys)

  pub element_info_at :
      (iei ie_len : ℕ) → element_info udh iei ie_len (pos + 2) ≡ element_info ys iei ie_len 2
  unfolding element_info
  element_info_at iei ie_len = ground (arith, read_at 2, read_at 3, read_at 4, read_at 5)

-- What an element states of a concatenation, by the shapes of 3GPP TS 23.040.
fitting : ℕ → ℕ → ℕ → Bool → Option MultipartInfo
fitting reference total sequence wide =
    if leb 1 sequence && leb sequence total
    then some (record {
      reference = reference;
      total_parts = total;
      sequence = sequence;
      is_16bit = wide;
    })
    else none

narrow_info : Bytes → Option MultipartInfo
narrow_info (r ∷ t ∷ s ∷ []) = fitting r t s false
narrow_info _ = none

wide_info : Bytes → Option MultipartInfo
wide_info (h ∷ l ∷ t ∷ s ∷ []) = fitting (h * 256 + l) t s true
wide_info _ = none

unfoldable pub concatenation : Element → Option MultipartInfo
unfolding fitting narrow_info wide_info
concatenation e =
    if e.iei == 0x00
    then narrow_info e.payload
    else if e.iei == 0x08
    then wide_info e.payload
    else none

-- The first element that states a concatenation.
unfoldable pub first_concatenation : List Element → Option MultipartInfo
first_concatenation [] = none
first_concatenation (e ∷ es) = elim (concatenation e) [
  | some info ↦ some info
  | none ↦ first_concatenation es
]

-- An element of the two identifiers that states none.
unfoldable pub is_malformed : Element → Bool
unfolding concatenation
is_malformed e =
    ((e.iei == 0x00) || (e.iei == 0x08))
    && elim (concatenation e) [ some info ↦ false | none ↦ true ]

pub info_shape :
    (iei : ℕ) (xs rest : Bytes)
    → element_info (iei ∷ length xs ∷ xs ++ rest) iei (length xs) 2
      ≡ concatenation (record { iei = iei; payload = xs })
unfolding element_info concatenation parts_fit
info_shape iei [] rest = ground arith
info_shape iei (a ∷ []) rest = ground arith
info_shape iei (a ∷ b ∷ []) rest = ground arith
info_shape iei (a ∷ b ∷ c ∷ []) rest = ground arith
info_shape iei (a ∷ b ∷ c ∷ d ∷ []) rest = ground arith
info_shape iei (a ∷ b ∷ c ∷ d ∷ e ∷ xs) rest = ground arith

pub malformed_shape :
    (iei : ℕ) (xs : Bytes)
    → malformed_element iei (length xs) xs ≡ is_malformed (record { iei = iei; payload = xs })
unfolding malformed_element is_malformed parts_fit
malformed_shape iei [] = ground arith
malformed_shape iei (a ∷ []) = ground arith
malformed_shape iei (a ∷ b ∷ []) = ground arith
malformed_shape iei (a ∷ b ∷ c ∷ []) = ground arith
malformed_shape iei (a ∷ b ∷ c ∷ d ∷ []) = ground arith
malformed_shape iei (a ∷ b ∷ c ∷ d ∷ e ∷ xs) = ground arith

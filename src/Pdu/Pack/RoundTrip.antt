-- ===== src/Pdu/Pack/RoundTrip.antt =====
-- Reading packed septets back, with and without a user-data header.
use callstack.Prelude.{
  ℕ, zero, suc, ◌+◌, ◌*◌, ◌/◌, ◌≤◌, ◌<◌, ◌≡◌, refl, ap, ◌∙◌, true, false, List, [], ◌∷◌, ◌++◌,
  arith, Bytes, length, get_or, take, drop, replicate, All, ◌==◌, ==_iff, if◌then◌else◌,
  length-replicate, get_or-replicate, All-replicate, take-append_exact,
}
use callstack.Prelude.Bits.{has_bit, with_bit, zero_bits, passes, passes_lt}
use callstack.Pdu.Pack.{
  shifts, get_bit, pack_gsm7_septets, header_septets, pack_gsm7_with_udh, take_septet,
  unpack_septets,
}
use callstack.Pdu.Pack.Put.{
  IsBytes, Carries, length-put_septets, put_septets-IsBytes, Carries-put_septets,
}

-- A septet is below 128.
abbrev pub IsSeptets : List ℕ → Type 0
IsSeptets = All (λ s. s < 128)

-- A value put together from its own bits.
rebuilt : ℕ → List ℕ → ℕ → ℕ
rebuilt s [] acc = acc
rebuilt s (k ∷ ks) acc = rebuilt s ks (if has_bit s k then with_bit acc k else acc)

rebuilt_table : passes (λ s. rebuilt s shifts 0 == s) 128 ≡ true
unfolding passes rebuilt has_bit with_bit
rebuilt_table = refl

rebuilt_septet : (s : ℕ) → s < 128 → rebuilt s shifts 0 ≡ s
rebuilt_septet s h = (==_iff _ s).0 (passes_lt _ 128 rebuilt_table s h)

take_septet-rebuilt :
    (p : Bytes) (c s : ℕ) (ks : List ℕ) (acc : ℕ)
    → ((k : ℕ) → k < 7 → get_bit p (c + k) ≡ has_bit s k)
    → All (λ k. k < 7) ks
    → take_septet p c acc ks ≡ rebuilt s ks acc
unfolding take_septet rebuilt
take_septet-rebuilt p c s [] acc h r = refl
take_septet-rebuilt p c s (k ∷ ks) acc h r =
    rw (h k r.0) (take_septet-rebuilt p c s ks (if has_bit s k then with_bit acc k else acc) h r.1)

pub unpack-Carries :
    (p : Bytes) (offset index : ℕ) (ss : List ℕ)
    → IsSeptets ss
    → Carries p offset index ss
    → unpack_septets p offset index (length ss) ≡ ss
unfolding unpack_septets
unpack-Carries p offset index [] h c = refl
unpack-Carries p offset index (s ∷ ss) h c =
    rw (take_septet-rebuilt p (offset + index * 7) s shifts 0 c.0 (omega arith))
      (rw (rebuilt_septet s h.0) (ap (λ t. s ∷ t) (unpack-Carries p offset (suc index) ss h.1 c.1)))

clear_bits : (n u : ℕ) → get_bit (replicate n 0) u ≡ false
unfolding get_bit
clear_bits n u = rw (get_or-replicate {A = ℕ} n (u / 8) 0) (zero_bits _ (omega arith))

module _ (ss : List ℕ) (offset : ℕ) where
  pub length-pack : length (pack_gsm7_septets ss offset) ≡ (offset + length ss * 7 + 7) / 8
  unfolding pack_gsm7_septets
  length-pack = length-put_septets offset 0 _ ss ∙ length-replicate _ 0

  pub pack-IsBytes : IsBytes (pack_gsm7_septets ss offset)
  unfolding pack_gsm7_septets
  pack-IsBytes = put_septets-IsBytes offset 0 _ ss (All-replicate (λ b. b < 256) _ 0 (omega arith))

  pub pack-Carries : Carries (pack_gsm7_septets ss offset) offset 0 ss
  unfolding pack_gsm7_septets
  pack-Carries =
      let n = (offset + length ss * 7 + 7) / 8 in
      Carries-put_septets offset 0 (replicate n 0) ss
        (All-replicate (λ b. b < 256) n 0 (omega arith))
        (omega (arith, length-replicate {A = ℕ} n 0)) (λ u _. clear_bits n u)

-- Septets packed at any bit offset are read back from there, all of them and unchanged, and the
-- packed string has the least number of octets that holds the offset and the septets.
pub unpack-pack :
    (ss : List ℕ) (offset : ℕ)
    → IsSeptets ss
    → (unpack_septets (pack_gsm7_septets ss offset) offset 0 (length ss) ≡ ss)
      × (length (pack_gsm7_septets ss offset) ≡ (offset + length ss * 7 + 7) / 8)
unpack-pack ss offset h =
    (unpack-Carries _ offset 0 ss h (pack-Carries ss offset), length-pack ss offset)

get_or_past : (xs : Bytes) (i : ℕ) → length xs ≤ i → get_or (xs ++ []) i 0 ≡ 0
get_or_past [] i h = refl
get_or_past (x ∷ xs) zero h = absurd (omega arith)
get_or_past (x ∷ xs) (suc i) h = get_or_past xs i (omega arith)

get_or-replace :
    (xs ys : Bytes) (i : ℕ) → length xs ≤ i → get_or (xs ++ drop (length xs) ys) i 0 ≡ get_or ys i 0
get_or-replace [] ys i h = refl
get_or-replace (x ∷ xs) ys zero h = absurd (omega arith)
get_or-replace (x ∷ xs) [] (suc i) h = get_or_past xs i (omega arith)
get_or-replace (x ∷ xs) (y ∷ ys) (suc i) h = get_or-replace xs ys i (omega arith)

Carries-replace :
    (xs p : Bytes) (offset index : ℕ) (ss : List ℕ)
    → 8 * length xs ≤ offset
    → Carries p offset index ss
    → Carries (xs ++ drop (length xs) p) offset index ss
unfolding get_bit
Carries-replace xs p offset index [] h c = tt
Carries-replace xs p offset index (s ∷ ss) h c = (
  λ k lt. rw (get_or-replace xs p ((offset + index * 7 + k) / 8) (omega arith)) (c.0 k lt),
  Carries-replace xs p offset (suc index) ss h c.1,
)

length-replace :
    (xs p : Bytes) → length xs ≤ length p → length (xs ++ drop (length xs) p) ≡ length p
length-replace [] p h = refl
length-replace (x ∷ xs) [] h = absurd (omega arith)
length-replace (x ∷ xs) (y ∷ p) h = ap suc (length-replace xs p (omega arith))

pub header_bits : (n : ℕ) → 8 * n ≤ header_septets n * 7
unfolding header_septets
header_bits n = omega arith

pub unpack-pack_with_udh :
    (udh : Bytes) (ss : List ℕ)
    → IsSeptets ss
    → ((pack_gsm7_with_udh udh ss).1 ≡ header_septets (length udh) + length ss)
      × (length (pack_gsm7_with_udh udh ss).0 ≡ ((pack_gsm7_with_udh udh ss).1 * 7 + 7) / 8)
      × (take (length udh) (pack_gsm7_with_udh udh ss).0 ≡ udh)
      × (unpack_septets
            (pack_gsm7_with_udh udh ss).0
            (header_septets (length udh) * 7)
            0
            (length ss)
          ≡ ss)
unfolding pack_gsm7_with_udh
unpack-pack_with_udh udh ss h =
    let offset = header_septets (length udh) * 7 in
    let payload = pack_gsm7_septets ss offset in
    let bits = header_bits (length udh) in
    let size = length-pack ss offset in
    (
      refl,
      length-replace udh payload (omega arith) ∙ omega arith,
      take-append_exact udh (drop (length udh) payload),
      unpack-Carries _ offset 0 ss h
          (Carries-replace udh payload offset 0 ss (omega arith) (pack-Carries ss offset)),
    )

-- ===== src/Pdu/Pack/Put.antt =====
-- The packing loops: which bits a septet sets, and that packed data carries the septets.
use callstack.Prelude.{
  ℕ, zero, suc, ◌+◌, ◌*◌, ◌/◌, ◌%◌, ◌≤◌, ◌<◌, ◌≡◌, refl, ap, ◌∙◌, Bool, false, ◌&&◌, ◌||◌, List, [],
  ◌∷◌, arith, Bytes, length, get_or, any, All, ◌==◌, Bool-cases, ◌⊎◌, inl, inr, length-set,
  get_or-set_self, get_or-set_ne, All-set, All-get_or,
}
use callstack.Prelude.Bits.{has_bit, with_bit, has_bit-with_bit, with_bit_lt}
use callstack.Pdu.Pack.{shifts, get_bit, set_bit, put_septet, put_septets}

-- Every octet of the string is a byte.
abbrev pub IsBytes : Bytes → Type 0
IsBytes = All (λ b. b < 256)

byte_at : (p : Bytes) (i : ℕ) → IsBytes p → get_or p i 0 < 256
byte_at p i h = All-get_or (λ b. b < 256) p i 0 (omega arith) h

set_bit-IsBytes : (p : Bytes) (t : ℕ) → IsBytes p → IsBytes (set_bit p t)
unfolding set_bit
set_bit-IsBytes p t h =
    All-set (λ b. b < 256) p (t / 8) _ (with_bit_lt _ _ (byte_at p (t / 8) h) (omega arith)) h

length-set_bit : (p : Bytes) (t : ℕ) → length (set_bit p t) ≡ length p
unfolding set_bit
length-set_bit p t = length-set p (t / 8) _

get_bit-set_bit :
    (p : Bytes) (t u : ℕ)
    → IsBytes p
    → t / 8 < length p
    → get_bit (set_bit p t) u ≡ ((u == t) || get_bit p u)
unfolding set_bit get_bit
get_bit-set_bit p t u h lt = elim (Bool-cases (u / 8 == t / 8)) [
  | inl e ↦ ground (
    arith,
    get_or-set_self p (t / 8) (with_bit (get_or p (t / 8) 0) (t % 8)) 0 lt,
    has_bit-with_bit (get_or p (t / 8) 0) (t % 8) (u % 8) (byte_at p (t / 8) h),
  )
  | inr e ↦
      ground (arith, get_or-set_ne p (t / 8) (u / 8) (with_bit (get_or p (t / 8) 0) (t % 8)) 0)
]

put_septet-IsBytes : (p : Bytes) (c s : ℕ) (ks : List ℕ) → IsBytes p → IsBytes (put_septet p c s ks)
unfolding put_septet
put_septet-IsBytes p c s [] h = h
put_septet-IsBytes p c s (k ∷ ks) h = elim (Bool-cases (has_bit s k)) [
  | inl e ↦ rw e (put_septet-IsBytes (set_bit p (c + k)) c s ks (set_bit-IsBytes p (c + k) h))
  | inr e ↦ rw e (put_septet-IsBytes p c s ks h)
]

length-put_septet : (p : Bytes) (c s : ℕ) (ks : List ℕ) → length (put_septet p c s ks) ≡ length p
unfolding put_septet
length-put_septet p c s [] = refl
length-put_septet p c s (k ∷ ks) = elim (Bool-cases (has_bit s k)) [
  | inl e ↦ rw e (length-put_septet (set_bit p (c + k)) c s ks ∙ length-set_bit p (c + k))
  | inr e ↦ rw e (length-put_septet p c s ks)
]

-- What the inner loop adds to a bit.
abbrev hit : ℕ → ℕ → ℕ → List ℕ → Bool
hit c s u ks = any (λ k. (u == c + k) && has_bit s k) ks

get_bit-put_septet :
    (p : Bytes) (c s : ℕ) (ks : List ℕ) (u : ℕ)
    → IsBytes p
    → All (λ k. (c + k) / 8 < length p) ks
    → get_bit (put_septet p c s ks) u ≡ (hit c s u ks || get_bit p u)
unfolding put_septet
get_bit-put_septet p c s [] u h r = refl
get_bit-put_septet p c s (k ∷ ks) u h r = elim (Bool-cases (has_bit s k)) [
  | inl e ↦ rw e (
      ground (
        arith,
        get_bit-put_septet (set_bit p (c + k)) c s ks u (set_bit-IsBytes p (c + k) h)
            (rw length-set_bit r.1),
        get_bit-set_bit p (c + k) u h r.0,
      ))
  | inr e ↦ rw e (ground (arith, get_bit-put_septet p c s ks u h r.1))
]

-- One septet: its seven bits are added, and no other bit changes.
hit_inside : (c s k : ℕ) → k < 7 → hit c s (c + k) shifts ≡ has_bit s k
hit_inside c s zero h = ground arith
hit_inside c s (suc zero) h = ground arith
hit_inside c s (suc (suc zero)) h = ground arith
hit_inside c s (suc (suc (suc zero))) h = ground arith
hit_inside c s (suc (suc (suc (suc zero)))) h = ground arith
hit_inside c s (suc (suc (suc (suc (suc zero))))) h = ground arith
hit_inside c s (suc (suc (suc (suc (suc (suc zero)))))) h = ground arith
hit_inside c s (suc (suc (suc (suc (suc (suc (suc k))))))) h = absurd (omega arith)

hit_outside : (c s u : ℕ) → (u < c) ⊎ (c + 7 ≤ u) → hit c s u shifts ≡ false
hit_outside c s u h = ground arith

shifts_fit : (p : Bytes) (c : ℕ) → c + 7 ≤ 8 * length p → All (λ k. (c + k) / 8 < length p) shifts
shifts_fit p c h = omega arith

module _ (p : Bytes) (c s : ℕ) (h : IsBytes p) (fits : c + 7 ≤ 8 * length p) where
  put_septet_outside :
      (u : ℕ) → (u < c) ⊎ (c + 7 ≤ u) → get_bit (put_septet p c s shifts) u ≡ get_bit p u
  put_septet_outside u o =
      get_bit-put_septet p c s shifts u h (shifts_fit p c fits)
      ∙ ap (λ b. b || get_bit p u) (hit_outside c s u o)

  put_septet_inside :
      (k : ℕ)
      → k < 7
      → get_bit p (c + k) ≡ false
      → get_bit (put_septet p c s shifts) (c + k) ≡ has_bit s k
  put_septet_inside k lt clear =
      ground (
        arith,
        get_bit-put_septet p c s shifts (c + k) h (shifts_fit p c fits),
        hit_inside c s k lt,
      )

-- The septets stand in the data at the offset, from this index on.
abbrev pub Carries : Bytes → ℕ → ℕ → List ℕ → Type 0
Carries p offset index [] = Unit
Carries p offset index (s ∷ ss) =
    ((k : ℕ) → k < 7 → get_bit p (offset + index * 7 + k) ≡ has_bit s k)
    × Carries p offset (suc index) ss

pub length-put_septets :
    (offset index : ℕ) (p : Bytes) (ss : List ℕ) → length (put_septets offset index p ss) ≡ length p
unfolding put_septets
length-put_septets offset index p [] = refl
length-put_septets offset index p (s ∷ ss) =
    length-put_septets offset (suc index) (put_septet p (offset + index * 7) s shifts) ss
    ∙ length-put_septet p (offset + index * 7) s shifts

pub put_septets-IsBytes :
    (offset index : ℕ) (p : Bytes) (ss : List ℕ)
    → IsBytes p
    → IsBytes (put_septets offset index p ss)
unfolding put_septets
put_septets-IsBytes offset index p [] h = h
put_septets-IsBytes offset index p (s ∷ ss) h =
    put_septets-IsBytes offset (suc index) (put_septet p (offset + index * 7) s shifts) ss
      (put_septet-IsBytes p (offset + index * 7) s shifts h)

put_septets_below :
    (offset index : ℕ) (p : Bytes) (ss : List ℕ)
    → IsBytes p
    → offset + (index + length ss) * 7 ≤ 8 * length p
    → (u : ℕ) → u < offset + index * 7
    → get_bit (put_septets offset index p ss) u ≡ get_bit p u
unfolding put_septets
put_septets_below offset index p [] h fits u lt = refl
put_septets_below offset index p (s ∷ ss) h fits u lt =
    let c = offset + index * 7 in
    let q = put_septet p c s shifts in
    let e : length q ≡ length p = length-put_septet p c s shifts in
    put_septets_below offset (suc index) q ss (put_septet-IsBytes p c s shifts h) (omega (arith, e))
      u (omega arith)
    ∙ put_septet_outside p c s h (omega arith) u (inl lt)

pub Carries-put_septets :
    (offset index : ℕ) (p : Bytes) (ss : List ℕ)
    → IsBytes p
    → offset + (index + length ss) * 7 ≤ 8 * length p
    → ((u : ℕ) → offset + index * 7 ≤ u → get_bit p u ≡ false)
    → Carries (put_septets offset index p ss) offset index ss
unfolding put_septets
Carries-put_septets offset index p [] h fits clear = tt
Carries-put_septets offset index p (s ∷ ss) h fits clear =
    let c = offset + index * 7 in
    let q = put_septet p c s shifts in
    let e : length q ≡ length p = length-put_septet p c s shifts in
    let hq : IsBytes q = put_septet-IsBytes p c s shifts h in
    (
      λ k lt.
          put_septets_below offset (suc index) q ss hq (omega (arith, e)) (c + k) (omega arith)
          ∙ put_septet_inside p c s h (omega arith) k lt (clear (c + k) (omega arith)),
      Carries-put_septets offset (suc index) q ss hq (omega (arith, e)) λ u le.
          put_septet_outside p c s h (omega arith) u (inr (omega arith)) ∙ clear u (omega arith),
    )

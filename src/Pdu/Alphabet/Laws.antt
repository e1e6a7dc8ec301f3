-- ===== src/Pdu/Alphabet/Laws.antt =====
-- The tables are inverse to each other.
use callstack.Prelude.{
  ℕ, suc, ◌+◌, ◌<◌, ◌≡◌, ◌≢◌, sym, ap, ◌∙◌, Option-cases, inl, inr, [], ◌∷◌, arith, some, Text,
  length, get_or,
}
use callstack.Pdu.Alphabet.{
  gsm7_basic, gsm7_escape, gsm7_extension, gsm7_extension_decode, enumerated, gsm7_encode,
}

enumerated_sound :
    (i : ℕ) (xs : Text) (c j : ℕ)
    → enumerated i xs c ≡ some j
    → (k : ℕ) × (j ≡ i + k) × (k < length xs) × (get_or xs k 63 ≡ c)
unfolding enumerated
enumerated_sound i [] c j h = ground arith
enumerated_sound i (x ∷ xs) c j h = elim (Option-cases (enumerated (suc i) xs c)) [
  | inl e ↦ (0, ground arith, omega arith, ground arith)
  | inr (m, e) ↦
      let (k, at, lt, found) = enumerated_sound (suc i) xs c m e in
      (suc k, ground arith, omega arith, found)
]

pub gsm7_encode_sound :
    (c j : ℕ) → gsm7_encode c ≡ some j → (j < 128) × (get_or gsm7_basic j 63 ≡ c)
unfolding gsm7_encode
gsm7_encode_sound c j h =
    let (k, at, lt, found) = enumerated_sound 0 gsm7_basic c j h in
    let e : j ≡ k = omega arith in rw e (lt, found)

pub gsm7_encode-ne-escape : (c j : ℕ) → c ≢ gsm7_escape → gsm7_encode c ≡ some j → j ≢ gsm7_escape
gsm7_encode-ne-escape c j h e at =
    h (sym ((gsm7_encode_sound c j e).1) ∙ ap (λ k. get_or gsm7_basic k 63) at)

pub extension-decode :
    (c e : ℕ) → gsm7_extension c ≡ some e → (gsm7_extension_decode e ≡ some c) × (e < 128)
unfolding gsm7_extension gsm7_extension_decode
extension-decode c e h = ground arith

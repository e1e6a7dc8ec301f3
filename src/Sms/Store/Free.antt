-- ===== src/Sms/Store/Free.antt =====
-- The loop of `initialize` in callstack/sms/store.py that steps over the ids in use ends at a free
-- one, at or behind where it starts.
use callstack.Prelude.{
  ℕ, zero, suc, ◌+◌, ◌≤◌, ◌≡◌, refl, sym, ◌∙◌, true, false, ◌||◌, List, [], ◌∷◌, Option, none, some,
  arith, length, leb, if◌then◌else◌, Bool-cases, inl, inr,
}
use callstack.Sms.Store.Open.{has_id, is_in, next_free}

-- How many ids are the number or more.
from : ℕ → List ℕ → ℕ
from n [] = 0
from n (j ∷ js) = (if leb n j then 1 else 0) + from n js

from_step : (n : ℕ) (js : List ℕ) → from (suc n) js ≤ from n js
unfolding from
from_step n [] = omega arith
from_step n (j ∷ js) = ground (arith, from_step n js)

from_in : (n : ℕ) (js : List ℕ) → is_in n js ≡ true → suc (from (suc n) js) ≤ from n js
unfolding from
from_in n [] h = absurd (ground arith)
from_in n (j ∷ js) h = ground (arith, from_step n js, from_in n js)

from_length : (n : ℕ) (js : List ℕ) → from n js ≤ length js
unfolding from
from_length n [] = omega arith
from_length n (j ∷ js) = ground (arith, from_length n js)

module _ {A : Type 0} (key : A → Option ℕ) where
  above : ℕ → List A → ℕ
  above n [] = 0
  above n (x ∷ xs) = elim (key x) [ none ↦ 0 | some j ↦ if leb n j then 1 else 0 ] + above n xs

  above_step : (n : ℕ) (xs : List A) → above (suc n) xs ≤ above n xs
  unfolding above
  above_step n [] = omega arith
  above_step n (x ∷ xs) = ground (arith, above_step n xs)

  above_in : (n : ℕ) (xs : List A) → has_id key n xs ≡ true → suc (above (suc n) xs) ≤ above n xs
  unfolding above
  above_in n [] h = absurd (ground arith)
  above_in n (x ∷ xs) h = ground (arith, above_step n xs, above_in n xs)

  above-length : (n : ℕ) (xs : List A) → above n xs ≤ length xs
  unfolding above
  above-length n [] = omega arith
  above-length n (x ∷ xs) = ground (arith, above-length n xs)

  used_up :
      (n : ℕ) (xs : List A) (js : List ℕ)
      → (has_id key n xs || is_in n js) ≡ true
      → suc (above (suc n) xs + from (suc n) js) ≤ above n xs + from n js
  used_up n xs js e = elim (Bool-cases (has_id key n xs)) [
    | inl h ↦ omega (arith, above_in n xs h, from_step n js)
    | inr h ↦ omega (arith, above_step n xs, from_in n js (sym (rw h refl) ∙ e))
  ]

  free_from :
      (fuel n : ℕ) (xs : List A) (js : List ℕ)
      → above n xs + from n js ≤ fuel
      → ((has_id key (next_free key fuel n xs js) xs || is_in (next_free key fuel n xs js) js)
          ≡ false)
        × (n ≤ next_free key fuel n xs js)
  free_from zero n xs js h = elim (Bool-cases (has_id key n xs || is_in n js)) [
    | inl e ↦ absurd (omega (arith, used_up n xs js e))
    | inr e ↦ (e, omega arith)
  ]
  free_from (suc fuel) n xs js h = elim (Bool-cases (has_id key n xs || is_in n js)) [
    | inl e ↦
        let (f, l) = free_from fuel (suc n) xs js (omega (arith, used_up n xs js e)) in
        rw e (f, omega arith)
    | inr e ↦ rw (e, e) (refl, omega arith)
  ]

  -- As many steps as there are ids end at a free id, and pass none that is free.
  pub next_free_lem :
      (n : ℕ) (xs : List A) (js : List ℕ)
      → (has_id key (next_free key (length xs + length js) n xs js) xs ≡ false)
        × (is_in (next_free key (length xs + length js) n xs js) js ≡ false)
        × (n ≤ next_free key (length xs + length js) n xs js)
  next_free_lem n xs js =
      let (f, l) =
        free_from (length xs + length js) n xs js
          (omega (arith, above-length n xs, from_length n js)) in
      (ground arith, ground arith, l)

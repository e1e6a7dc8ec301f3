-- ===== src/Reassembly/Parts.antt =====
-- The parts of a pending group: lookups, and when all of them are there.
use callstack.Prelude.{
  ℕ, zero, suc, ◌+◌, ◌≤◌, ◌<◌, ◌≡◌, ◌≢◌, refl, ap, ◌&&◌, List, [], ◌∷◌, ◌++◌, arith, none, some,
  Text, length, leb, ◌==◌, if◌then◌else◌, Bool-cases, Option-cases, inl, inr,
}
use callstack.Reassembly.{lookup_part, put_part, join_parts}

-- No two parts have the same number.
abbrev pub Distinct : List (ℕ × Text) → Type 0
Distinct [] = Unit
Distinct ((s, b) ∷ ps) = (lookup_part s ps ≡ none) × Distinct ps

-- Every part has a number from 1 to the number of parts.
abbrev pub InRange : ℕ → List (ℕ × Text) → Type 0
InRange total [] = Unit
InRange total ((s, b) ∷ ps) = (1 ≤ s) × (s ≤ total) × InRange total ps

lookup_part-append :
    (s r : ℕ) (b : Text) (ps : List (ℕ × Text))
    → lookup_part s (ps ++ (r, b) ∷ [])
      ≡ elim (lookup_part s ps) [ some c ↦ some c | none ↦ if s == r then some b else none ]
unfolding lookup_part
lookup_part-append s r b [] = ground arith
lookup_part-append s r b ((q, c) ∷ ps) = ground (arith, lookup_part-append s r b ps)

-- The first body with a number stays.
pub lookup_part-put_part :
    (s r : ℕ) (b : Text) (ps : List (ℕ × Text))
    → lookup_part s (put_part r b ps)
      ≡ elim (lookup_part s ps) [ some c ↦ some c | none ↦ if s == r then some b else none ]
unfolding put_part
lookup_part-put_part s r b ps = elim (Bool-cases (s == r)) [
  | inl e ↦
      let same : s ≡ r = ground arith in
      ground (arith, lookup_part-append s r b ps, ap (λ n. lookup_part n ps) same)
  | inr e ↦ ground (arith, lookup_part-append s r b ps)
]

append-Distinct :
    (r : ℕ) (b : Text) (ps : List (ℕ × Text))
    → lookup_part r ps ≡ none
    → Distinct ps
    → Distinct (ps ++ (r, b) ∷ [])
unfolding lookup_part
append-Distinct r b [] h d = (refl, tt)
append-Distinct r b ((s, c) ∷ ps) h d =
    (ground (arith, lookup_part-append s r b ps), append-Distinct r b ps (ground arith) d.1)

append-InRange :
    (total r : ℕ) (b : Text) (ps : List (ℕ × Text))
    → 1 ≤ r
    → r ≤ total
    → InRange total ps
    → InRange total (ps ++ (r, b) ∷ [])
append-InRange total r b [] first last h = (first, last, tt)
append-InRange total r b ((s, c) ∷ ps) first last h =
    (h.0, h.1, append-InRange total r b ps first last h.2)

pub put_part-Distinct :
    (r : ℕ) (b : Text) (ps : List (ℕ × Text)) → Distinct ps → Distinct (put_part r b ps)
unfolding put_part
put_part-Distinct r b ps h = elim (Option-cases (lookup_part r ps)) [
  | inl e ↦ rw (e, put_part) (append-Distinct r b ps e h)
  | inr (c, e) ↦ rw (e, put_part) h
]

pub put_part-InRange :
    (total r : ℕ) (b : Text) (ps : List (ℕ × Text))
    → 1 ≤ r
    → r ≤ total
    → InRange total ps
    → InRange total (put_part r b ps)
unfolding put_part
put_part-InRange total r b ps first last h = elim (Option-cases (lookup_part r ps)) [
  | inl e ↦ rw (e, put_part) (append-InRange total r b ps first last h)
  | inr (c, e) ↦ rw (e, put_part) h
]

-- How many of the numbers 1 to n have a part.
unfoldable pub present : List (ℕ × Text) → ℕ → ℕ
present ps zero = 0
present ps (suc n) = present ps n + elim (lookup_part (suc n) ps) [ some b ↦ 1 | none ↦ 0 ]

present-nil : (n : ℕ) → present [] n ≡ 0
unfolding present lookup_part
present-nil zero = refl
present-nil (suc n) = omega (arith, present-nil n)

present-cons :
    (s : ℕ) (b : Text) (ps : List (ℕ × Text)) (n : ℕ)
    → lookup_part s ps ≡ none
    → present ((s, b) ∷ ps) n ≡ present ps n + (if leb 1 s && leb s n then 1 else 0)
unfolding present lookup_part
present-cons s b ps zero h = ground arith
present-cons s b ps (suc n) h = ground (arith, present-cons s b ps n h)

pub present_all :
    (total : ℕ) (ps : List (ℕ × Text))
    → Distinct ps
    → InRange total ps
    → present ps total ≡ length ps
present_all total [] d r = present-nil total
present_all total ((s, b) ∷ ps) d r =
    ground (arith, present-cons s b ps total d.0, present_all total ps d.1 r.2)

pub present_le : (ps : List (ℕ × Text)) (n : ℕ) → present ps n ≤ n
unfolding present
present_le ps zero = omega arith
present_le ps (suc n) = ground (arith, present_le ps n)

present_full :
    (ps : List (ℕ × Text)) (n i : ℕ) → present ps n ≡ n → 1 ≤ i → i ≤ n → lookup_part i ps ≢ none
unfolding present
present_full ps zero i h first last e = omega arith
present_full ps (suc n) i h first last e = elim (Bool-cases (i == suc n)) [
  | inl at ↦ ground (arith, present_le ps n)
  | inr below ↦ ground (arith, present_le ps n, present_full ps n i)
]

-- With as many distinct parts as there are numbers, the join finds each of them.
join_found :
    (ps : List (ℕ × Text)) (seq n : ℕ)
    → ((i : ℕ) → seq ≤ i → i < seq + n → lookup_part i ps ≢ none)
    → (t : Text) × (join_parts ps seq n ≡ some t)
unfolding join_parts
join_found ps seq zero h = ([], refl)
join_found ps seq (suc n) h = elim (Option-cases (lookup_part seq ps)) [
  | inl e ↦ absurd (h seq (omega arith) (omega arith) e)
  | inr (b, e) ↦
      let (t, rest) = join_found ps (suc seq) n (λ i lo hi. h i (omega arith) (omega arith)) in
      (b ++ t, rw (e, rest))
]

pub join_full :
    (total : ℕ) (ps : List (ℕ × Text))
    → Distinct ps
    → InRange total ps
    → total ≤ length ps
    → (t : Text) × (join_parts ps 1 total ≡ some t)
join_full total ps d r h =
    let count = present_all total ps d r in
    let most = present_le ps total in
    join_found ps 1 total
      (λ i lo hi. present_full ps total i (omega arith) (omega arith) (omega arith))

pub length_le :
    (total : ℕ) (ps : List (ℕ × Text)) → Distinct ps → InRange total ps → length ps ≤ total
length_le total ps d r = omega (arith, present_all total ps d r, present_le ps total)

pub length-put_part : (r : ℕ) (b : Text) (ps : List (ℕ × Text)) → 1 ≤ length (put_part r b ps)
unfolding put_part lookup_part
length-put_part r b [] = omega arith
length-put_part r b ((s, c) ∷ ps) = elim (Option-cases (lookup_part r ((s, c) ∷ ps))) [
  | inl e ↦ ground arith
  | inr (d, e) ↦ ground arith
]

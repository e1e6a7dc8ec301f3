-- ===== src/Reassembly/Covers.antt =====
-- The parts of a group against the numbers that were seen: when the group is full, and what its
-- parts join to.
use callstack.Prelude.{
  ℕ, zero, suc, ◌+◌, ◌≤◌, ◌<◌, ◌≡◌, refl, ap, ◌∙◌, Bool, true, false, ◌&&◌, ◌||◌, List, [], ◌∷◌,
  ◌++◌, arith, none, some, Text, length, ltb, not, ◌==◌, if◌then◌else◌, Bool-cases, inl, inr,
}
use callstack.Reassembly.{lookup_part, put_part, join_parts}
use callstack.Reassembly.Parts.{
  Distinct, InRange, lookup_part-put_part, present, present_all, present_le,
}

-- The numbers seen so far.
abbrev pub seen_at : ℕ → List ℕ → Bool
seen_at s [] = false
seen_at s (r ∷ rs) = (s == r) || seen_at s rs

-- All of 1 to n are seen.
unfoldable pub covers : List ℕ → ℕ → Bool
covers seen zero = true
covers seen (suc n) = covers seen n && seen_at (suc n) seen

-- The bodies of the numbers from `seq` on, so many of them, joined in order.
abbrev pub whole : (ℕ → Text) → ℕ → ℕ → Text
whole f seq zero = []
whole f seq (suc n) = f seq ++ whole f (suc seq) n

-- The parts are those seen, each with the body of its number.
abbrev pub Holds : List (ℕ × Text) → (ℕ → Text) → List ℕ → Type 0
Holds ps f seen = (s : ℕ) → lookup_part s ps ≡ (if seen_at s seen then some (f s) else none)

pub put_part-Holds :
    (ps : List (ℕ × Text)) (f : ℕ → Text) (seen : List ℕ) (r : ℕ)
    → Holds ps f seen
    → Holds (put_part r (f r) ps) f (r ∷ seen)
put_part-Holds ps f seen r h s = elim (Bool-cases (s == r)) [
  | inl e ↦
      let same : s ≡ r = ground arith in
      ground (arith, h s, lookup_part-put_part s r (f r) ps, ap f same)
  | inr e ↦ ground (arith, h s, lookup_part-put_part s r (f r) ps)
]

covers_sound :
    (seen : List ℕ) (n i : ℕ) → covers seen n ≡ true → 1 ≤ i → i ≤ n → seen_at i seen ≡ true
unfolding covers
covers_sound seen zero i h lo hi = absurd (omega arith)
covers_sound seen (suc n) i h lo hi = elim (Bool-cases (i == suc n)) [
  | inl e ↦ let same : i ≡ suc n = ground arith in rw same (ground arith)
  | inr e ↦ covers_sound seen n i (ground arith) lo (ground arith)
]

present-covers :
    (ps : List (ℕ × Text)) (f : ℕ → Text) (seen : List ℕ) (n : ℕ)
    → Holds ps f seen
    → ltb (present ps n) n ≡ not (covers seen n)
unfolding present covers
present-covers ps f seen zero h = refl
present-covers ps f seen (suc n) h =
    ground (arith, present-covers ps f seen n h, present_le ps n, h (suc n))

pub full-covers :
    (total : ℕ) (ps : List (ℕ × Text)) (f : ℕ → Text) (seen : List ℕ)
    → Distinct ps
    → InRange total ps
    → Holds ps f seen
    → ltb (length ps) total ≡ not (covers seen total)
full-covers total ps f seen d r h =
    rw (← present_all total ps d r) (present-covers ps f seen total h)

join_range :
    (ps : List (ℕ × Text)) (f : ℕ → Text) (seq n : ℕ)
    → ((i : ℕ) → seq ≤ i → i < seq + n → lookup_part i ps ≡ some (f i))
    → join_parts ps seq n ≡ some (whole f seq n)
unfolding join_parts
join_range ps f seq zero h = refl
join_range ps f seq (suc n) h = rw (
  h seq (omega arith) (omega arith),
  join_range ps f (suc seq) n (λ i lo hi. h i (omega arith) (omega arith)),
)

pub join-whole :
    (total : ℕ) (ps : List (ℕ × Text)) (f : ℕ → Text) (seen : List ℕ)
    → Holds ps f seen
    → covers seen total ≡ true
    → join_parts ps 1 total ≡ some (whole f 1 total)
join-whole total ps f seen h c = join_range ps f 1 total λ i lo hi.
    h i ∙ ap (λ b. if b then some (f i) else none) (covers_sound seen total i c lo (omega arith))

-- ===== src/Voice/Dtmf/Collected.antt =====
-- Which digits are collected.
use callstack.Prelude.{
  ℕ, zero, suc, ◌+◌, ◌-◌, ◌≤◌, ◌<◌, ◌≡◌, refl, ap, sym, ◌∙◌, true, false, List, [], ◌∷◌, ◌++◌,
  append_assoc, append-nil, none, some, Text, text_eq, length, ltb, ◌==◌, if◌then◌else◌, take, All,
  arith, Bool-cases, Option-cases, inl, inr, length-append,
}
use callstack.Voice.Dtmf.{
  Round, DtmfCollector, moved_deadline, take_digit, round, collect_loop, join, collect_from_stream,
}

-- The digits that the stream gives, one a round, until it is silent.
abbrev pub pressed : List Round → List Text
pressed [] = []
pressed (r ∷ rounds) = elim r.event [ none ↦ [] | some d ↦ d ∷ pressed rounds ]

-- The digits in front of the first terminator.
abbrev pub before_terminator : Text → List Text → List Text
before_terminator t [] = []
before_terminator t (d ∷ ds) = if text_eq d t then [] else d ∷ before_terminator t ds

take_nothing : (n : ℕ) → take {A = Text} n [] ≡ []
take_nothing zero = refl
take_nothing (suc n) = refl

-- What is added to the digits so far.
abbrev more : List Text → ℕ → List Text → List Text
more digits n keys = digits ++ take n keys

more_nothing : (digits : List Text) (n : ℕ) → digits ≡ more digits n []
more_nothing digits n = sym (ap (λ t. digits ++ t) (take_nothing n) ∙ append-nil digits)

more_next :
    (digits keys : List Text) (d : Text) (n m : ℕ)
    → n ≡ suc m
    → more (digits ++ d ∷ []) m keys ≡ more digits n (d ∷ keys)
more_next digits keys d n m e =
    append_assoc digits (d ∷ []) (take m keys) ∙ sym (ap (λ k. more digits k (d ∷ keys)) e)

module _ (c : DtmfCollector) (max_d overall : ℕ) where
  abbrev keys : List Round → List Text
  keys rounds = before_terminator c.terminator (pressed rounds)

  -- One round in time, in its cases.
  round_silent :
      (digits : List Text) (r : Round)
      → r.event ≡ none
      → round c max_d none overall overall digits r ≡ none
  unfolding round take_digit
  round_silent digits r e = ground arith

  round_full :
      (digits : List Text) (r : Round)
      → length digits ≡ max_d
      → round c max_d none overall overall digits r ≡ none
  unfolding round
  round_full digits r e = ground arith

  round_end :
      (digits : List Text) (r : Round) (d : Text)
      → r.event ≡ some d
      → text_eq d c.terminator ≡ true
      → round c max_d none overall overall digits r ≡ none
  unfolding round take_digit
  round_end digits r d e f = ground arith

  round_digit :
      (digits : List Text) (r : Round) (d : Text)
      → length digits < max_d
      → r.now < overall
      → r.event ≡ some d
      → text_eq d c.terminator ≡ false
      → round c max_d none overall overall digits r ≡ some (overall, digits ++ d ∷ [])
  unfolding round take_digit moved_deadline
  round_digit digits r d few early e f = ground arith

  -- Every round starts in time, and no deadline between digits is set.
  loop_in_time :
      (digits : List Text) (rounds : List Round)
      → length digits ≤ max_d
      → All (λ r. r.now < overall) rounds
      → collect_loop c max_d none overall overall digits rounds
        ≡ more digits (max_d - length digits) (keys rounds)
  unfolding collect_loop
  loop_in_time digits [] few t = more_nothing digits (max_d - length digits)
  loop_in_time digits (r ∷ rounds) few t = elim (Bool-cases (ltb (length digits) max_d)) [
    | inr e ↦
        let all_there : length digits ≡ max_d = ground arith in
        let none_left : 0 ≡ max_d - length digits = omega arith in
        rw (round_full digits r all_there, collect_loop)
          (sym (append-nil digits) ∙ ap (λ n. more digits n (keys (r ∷ rounds))) none_left)
    | inl e ↦ elim (Option-cases r.event) [
      | inl f ↦
          rw (round_silent digits r f, collect_loop)
            (rw f (more_nothing digits (max_d - length digits)))
      | inr (d, f) ↦ elim (Bool-cases (text_eq d c.terminator)) [
        | inl g ↦
            rw (round_end digits r d f g, collect_loop)
              (rw f (rw g (more_nothing digits (max_d - length digits))))
        | inr g ↦
            let longer : length (digits ++ d ∷ []) ≡ suc (length digits) =
              length-append digits (d ∷ []) ∙ omega arith in
            let few' : length (digits ++ d ∷ []) ≤ max_d = ground arith in
            let step : max_d - length digits ≡ suc (max_d - length (digits ++ d ∷ [])) =
              ground arith in
            rw (round_digit digits r d (ground arith) t.0 f g, collect_loop)
              (rw f (
                rw g (
                  loop_in_time (digits ++ d ∷ []) rounds few' t.1
                  ∙ more_next digits (keys rounds) d (max_d - length digits)
                      (max_d - length (digits ++ d ∷ [])) step)))
      ]
    ]
  ]

-- When no deadline between digits is set and every round of the loop begins before the overall
-- deadline, the collection succeeds with the digits that were pressed in front of the first
-- terminator, joined, at most so many of them as are allowed; for every limit but zero.
pub collect-pressed :
    (c : DtmfCollector) (start max_d timeout : ℕ) (rounds : List Round)
    → 1 ≤ max_d
    → c.inter_digit_timeout ≡ none
    → All (λ r. r.now < start + timeout) rounds
    → collect_from_stream c start rounds (some max_d) (some timeout) none
      ≡ some (join (take max_d (before_terminator c.terminator (pressed rounds))))
unfolding collect_from_stream
collect-pressed c start max_d timeout rounds one plain t =
    let no : (max_d == 0) ≡ false = ground arith in
    let loop : collect_loop c max_d none (start + timeout) (start + timeout) [] rounds
        ≡ take (max_d - 0) (before_terminator c.terminator (pressed rounds)) =
      loop_in_time c max_d (start + timeout) [] rounds (omega arith) t in
    let unset =
      ap (λ i. collect_loop c max_d i (start + timeout) (start + timeout) [] rounds) plain in
    let all_left =
      ap (λ n. take n (before_terminator c.terminator (pressed rounds)))
        (let z : max_d - 0 ≡ max_d = omega arith in z) in
    rw (no, collect_from_stream) (ap (λ ds. some (join ds)) (unset ∙ loop ∙ all_left))

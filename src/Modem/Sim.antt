-- ===== src/Modem/Sim.antt =====
-- When a PIN is sent (callstack/modem.py): a SIM allows few attempts.
use callstack.Prelude.{
  ℕ, ◌≡◌, refl, ◌∙◌, ap, Bool, true, false, List, [], ◌∷◌, Option, none, some, Text, codes, text_eq,
  text_eq_sound, Bool-cases, Option-cases, inl, inr, ◌⊎◌, ◌++◌, subst, arith, some_injective,
  text_eq_refl, if_true, if_false,
}
use callstack.Protocol.Lines.{strip}
use callstack.Protocol.Parser.{parse_cpin}
use callstack.Protocol.Parser.Scan.{after}
use callstack.Protocol.Commands.{cpin_enter, is_empty}
use callstack.Modem.{
  data_lines, is_final_result_line, Answer, responded, failed, SimCheck, pin_required, puk_required,
  unlock_error, other_error, sim_status, after_pin, enter_pin, by_status, sim_answer, check_sim_pin,
  passes,
}

abbrev pub HasStatus : Text → List Text → Type 0
HasStatus status lines =
    (before : List Text) × (behind : List Text) × (s : Text) × (lines
      ≡ before ++ (codes "+CPIN:" ++ s) ∷ behind)
    × (strip s ≡ status)

HasStatus-later :
    (status line : Text) (lines : List Text)
    → HasStatus status lines
    → HasStatus status (line ∷ lines)
HasStatus-later status line lines (before, behind, s, e, h) =
    (line ∷ before, behind, s, ap (λ ls. line ∷ ls) e, h)

after_split : (p t s : Text) → after p t ≡ some s → t ≡ p ++ s
unfolding after
after_split [] t s h = some_injective t s h
after_split (c ∷ p) [] s h = absurd (ground arith)
after_split (c ∷ p) (d ∷ t) s h = ground (arith, after_split p t s)

-- What is parsed of a line, where it is not empty.
parse_cpin-lem :
    (line status : Text)
    → parse_cpin line ≡ some status
    → is_empty status ≡ false
    → (s : Text) × (line ≡ codes "+CPIN:" ++ s) × (strip s ≡ status)
unfolding parse_cpin
parse_cpin-lem line status h full = elim (Option-cases (after (codes "+CPIN:") line)) [
  | inl e ↦ absurd (ground arith)
  | inr (s, e) ↦ (s, after_split (codes "+CPIN:") line s e, ground arith)
]

sim_status-HasStatus :
    (first : Option Text) (status : Text) (lines : List Text)
    → sim_status first lines ≡ some status
    → is_empty status ≡ false
    → (first ≡ some status) ⊎ HasStatus status lines
unfolding sim_status
sim_status-HasStatus first status [] h full = inl h
sim_status-HasStatus first status (l ∷ lines) h full = elim (Option-cases (parse_cpin l)) [
  | inl e ↦ elim (sim_status-HasStatus (parse_cpin l) status lines (ground arith) full) [
    | inl k ↦ absurd (ground arith)
    | inr k ↦ inr (HasStatus-later status l lines k)
  ]
  | inr (t, e) ↦ elim (Bool-cases (text_eq t status)) [
    | inl k ↦
        let (s, split, same) =
          parse_cpin-lem l status (ground (arith, text_eq_sound t status k)) full in
        inr ([], lines, s, ap (λ x. x ∷ lines) split, same)
    | inr k ↦ elim (Bool-cases (is_empty t)) [
      | inl n ↦ elim (sim_status-HasStatus (parse_cpin l) status lines (ground arith) full) [
        | inl x ↦ absurd (ground arith)
        | inr x ↦ inr (HasStatus-later status l lines x)
      ]
      | inr n ↦ absurd (ground (arith, text_eq_refl status))
    ]
  ]
]

nothing_listed : (status : Text) → HasStatus status [] → ⊥
nothing_listed status ([], behind, s, e, h) = absurd (cc e)
nothing_listed status (b ∷ before, behind, s, e, h) = absurd (cc e)

data_lines-HasStatus :
    (status : Text) (lines : List Text)
    → HasStatus status (data_lines lines)
    → HasStatus status lines
unfolding data_lines
data_lines-HasStatus status [] h = h
data_lines-HasStatus status (l ∷ []) h = elim (Bool-cases (is_final_result_line l)) [
  | inl e ↦ absurd (nothing_listed status (subst (HasStatus status) (if_true _ _ _ e) h))
  | inr e ↦ subst (HasStatus status) (if_false _ _ _ e) h
]
data_lines-HasStatus status (l ∷ k ∷ lines) ([], behind, s, e, h) =
    ([], k ∷ lines, s, ground arith, h)
data_lines-HasStatus status (l ∷ k ∷ lines) (b ∷ before, behind, s, e, h) =
    HasStatus-later status l (k ∷ lines)
      (data_lines-HasStatus status (k ∷ lines) (before, behind, s, ground arith, h))

module _ (isdigit : ℕ → Bool) (execute : Text → Answer) where
  -- One of the lines with which the modem answers the query is `+CPIN:` and this status, with blanks
  -- around it at most.
  abbrev pub Reported : Text → Type 0
  Reported status =
      (lines : List Text) × (execute (codes "AT+CPIN?") ≡ responded true lines)
      × HasStatus status lines

  abbrev pub Accepted : Text → Type 0
  Accepted command = (lines : List Text) × (execute command ≡ responded true lines)

  -- No PIN is sent, and the check passes only if the SIM is reported to be ready; or the PIN that is
  -- configured is sent once, to a SIM that asks for it, and the check passes only if it is accepted.
  abbrev pub IsCareful : Option Text → List Text → SimCheck → Type 0
  IsCareful sim_pin sent end_ =
      ((sent ≡ []) × ((passes end_ ≡ false) ⊎ Reported (codes "READY")))
      ⊎ ((pin : Text) × (command : Text) × (sim_pin ≡ some pin)
          × Reported (codes "SIM PIN")
          × (cpin_enter isdigit pin ≡ some command)
          × (sent ≡ command ∷ [])
          × ((passes end_ ≡ false) ⊎ Accepted command))

  after_pin-Accepted :
      (command : Text) (a : Answer)
      → execute command ≡ a
      → (passes (after_pin a) ≡ false) ⊎ Accepted command
  unfolding after_pin
  after_pin-Accepted command failed e = inl refl
  after_pin-Accepted command (responded true lines) e = inr (lines, e)
  after_pin-Accepted command (responded false lines) e = inl refl

  -- Nothing is sent, and the check does not pass.
  refused :
      (sim_pin : Option Text) (end_ : SimCheck) → passes end_ ≡ false → IsCareful sim_pin [] end_
  refused sim_pin end_ h = inl (refl, inl h)

  enter_pin-IsCareful :
      (sim_pin : Option Text)
      → Reported (codes "SIM PIN")
      → (let r = enter_pin isdigit execute sim_pin in IsCareful sim_pin r.0 r.1)
  unfolding enter_pin
  enter_pin-IsCareful none r = refused none pin_required refl
  enter_pin-IsCareful (some pin) r = elim (Bool-cases (is_empty pin)) [
    | inl e ↦ rw e (refused (some pin) pin_required refl)
    | inr e ↦ elim (Option-cases (cpin_enter isdigit pin)) [
      | inl c ↦ rw e (rw c (refused (some pin) other_error refl))
      | inr (command, c) ↦ rw e (
          rw c (
            inr
              (pin, command, refl, r, c, refl, after_pin-Accepted command (execute command) refl)))
    ]
  ]

  -- What the check takes for the status stands in one of the lines.
  status-Reported :
      (status : Text) (lines : List Text)
      → execute (codes "AT+CPIN?") ≡ responded true lines
      → sim_status none (data_lines lines) ≡ some status
      → is_empty status ≡ false
      → Reported status
  status-Reported status lines e s full =
      elim (sim_status-HasStatus none status (data_lines lines) s full) [
        | inl k ↦ absurd (cc k)
        | inr k ↦ (lines, e, data_lines-HasStatus status lines k)
      ]

  by_status-IsCareful :
      (sim_pin status : Option Text) (lines : List Text)
      → execute (codes "AT+CPIN?") ≡ responded true lines
      → sim_status none (data_lines lines) ≡ status
      → (let r = by_status isdigit execute sim_pin status in IsCareful sim_pin r.0 r.1)
  unfolding by_status
  by_status-IsCareful sim_pin none lines e s = refused sim_pin unlock_error refl
  by_status-IsCareful sim_pin (some status) lines e s =
      elim (Bool-cases (text_eq status (codes "READY"))) [
        | inl a ↦
            let q = text_eq_sound status (codes "READY") a in
            rw a (inl (refl, inr (status-Reported (codes "READY") lines e (s ∙ ap some q) refl)))
        | inr a ↦ elim (Bool-cases (text_eq status (codes "SIM PIN"))) [
          | inl b ↦
              let q = text_eq_sound status (codes "SIM PIN") b in
              rw a (
                rw b (
                  enter_pin-IsCareful sim_pin
                    (status-Reported (codes "SIM PIN") lines e (s ∙ ap some q) refl)))
          | inr b ↦ elim (Bool-cases (text_eq status (codes "SIM PUK"))) [
            | inl c ↦ rw a (rw b (rw c (refused sim_pin puk_required refl)))
            | inr c ↦ rw a (rw b (rw c (refused sim_pin unlock_error refl)))
          ]
        ]
      ]

  sim_answer-IsCareful :
      (sim_pin : Option Text) (a : Answer)
      → execute (codes "AT+CPIN?") ≡ a
      → (let r = sim_answer isdigit execute sim_pin a in IsCareful sim_pin r.0 r.1)
  unfolding sim_answer
  sim_answer-IsCareful sim_pin failed e = refused sim_pin other_error refl
  sim_answer-IsCareful sim_pin (responded false lines) e = refused sim_pin unlock_error refl
  sim_answer-IsCareful sim_pin (responded true lines) e =
      by_status-IsCareful sim_pin (sim_status none (data_lines lines)) lines e refl

  -- The check of the SIM asks for its status first. It sends no PIN unless a line of the modem's
  -- answer says `+CPIN: SIM PIN`, sends the configured one and only once, and passes only where such
  -- a line says `+CPIN: READY` or that PIN is accepted, whatever the modem answers.
  pub check_sim_pin-IsCareful :
      (sim_pin : Option Text)
      → (sent : List Text) × ((check_sim_pin isdigit execute sim_pin).0 ≡ codes "AT+CPIN?" ∷ sent)
        × IsCareful sim_pin sent (check_sim_pin isdigit execute sim_pin).1
  unfolding check_sim_pin
  check_sim_pin-IsCareful sim_pin =
      let a = execute (codes "AT+CPIN?") in
      ((sim_answer isdigit execute sim_pin a).0, refl, sim_answer-IsCareful sim_pin a refl)

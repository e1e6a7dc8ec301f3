-- ===== src/Protocol/Executor/Response.antt =====
-- What a response holds, and what is dispatched while it is collected.
use callstack.Prelude.{
  Bool, true, false, not, ◌&&◌, ◌≡◌, refl, inl, inr, List, [], ◌∷◌, Option, none, some, Text, All,
  Bool-cases, Option-cases, arith,
}
use callstack.Protocol.Lines.{strip}
use callstack.Protocol.Executor.{
  Read, Result, Command, Collecting, collecting, Round, goes_on, ends, is_continuation, is_blank,
  round, hand_over, step_of, step, silence, collect_response, Executor, perform, execute,
}
use callstack.Protocol.Executor.Kept.{
  preserves, IsEvent, IsHeader, IsCollecting, ResponseHolds, RoundHolds, hand_over_lem,
  classify_lem,
}

module _ (c : Command) (s : Collecting) (h : IsCollecting c s) where
  round_lem : (raw : Text) → RoundHolds c (round c s raw)
  unfolding round
  round_lem raw = elim (Bool-cases (is_blank (strip raw) && not (preserves c))) [
    | inl e ↦ rw (e, round) h
    | inr e ↦ elim (Bool-cases (s.suppress && is_continuation c raw (strip raw))) [
      | inl f ↦ rw (e, round) (rw f h)
      | inr f ↦
          rw (e, round)
            (rw f (
              classify_lem c (record s { suppress = false })
                (record { kept = h.kept; events = h.events; header = h.header }) raw))
    ]
  ]

  step_of_lem :
      (w : Option Text)
      → ((x : Text) → w ≡ some x → IsHeader c x)
      → (r : Read) → RoundHolds c (step_of w c s r)
  unfolding step_of
  step_of_lem none hd (Read.line raw) = round_lem raw
  step_of_lem none hd Read.timeout = (tt, h.events)
  step_of_lem none hd Read.died = (tt, h.events)
  step_of_lem (some x) hd (Read.line raw) = hand_over_lem c s h x raw (hd x refl)
  step_of_lem (some x) hd Read.timeout = hand_over_lem c s h x [] (hd x refl)
  step_of_lem (some x) hd Read.died = (tt, h.events)

  step_lem : (r : Read) → RoundHolds c (step c s r)
  unfolding step
  step_lem r = step_of_lem s.waiting h.header r

  silence_lem : All (IsEvent c) (silence s).dispatched
  unfolding hand_over
  silence_lem = elim (Option-cases s.waiting) [
    | inl e ↦ rw e h.events
    | inr (x, e) ↦ rw e (hand_over_lem c s h x [] (h.header x e)).events
  ]

-- What holds when the collection is over.
abbrev pub Ended : Command → Result × Collecting → Type 0
Ended c o = ResponseHolds c o.0 × All (IsEvent c) o.1.dispatched

-- Whatever lines, timeouts and transport failures come: a response consists of lines that belong to
-- it and one final line. No line shows a credential-bearing command; none before the last is the
-- echo of the command, a final result, or, unless the command reads messages, an unsolicited code;
-- the last is an expected code when the response is a success, and else an error code or, for a dial
-- command, a failed dial. What is given to the dispatcher are unsolicited codes only, a second line
-- only with a code that has one, and nothing at all while messages are read.
pub collect_response-Ended :
    (c : Command) (s : Collecting) (reads : List Read)
    → IsCollecting c s
    → Ended c (collect_response c s reads)
unfolding collect_response
collect_response-Ended c s [] h = (tt, silence_lem c s h)
collect_response-Ended c s (r ∷ reads) h =
    after (step c s r) (λ s'. collect_response-Ended c s' reads) (step_lem c s h r)
  where
    after :
        (x : Round)
        → ((s' : Collecting) → IsCollecting c s' → Ended c (collect_response c s' reads))
        → RoundHolds c x
        → Ended c
            (elim x [ goes_on s' ↦ collect_response c s' reads | ends result s' ↦ (result, s') ])
    after (goes_on s') ih k = ih s' k
    after (ends result s') ih k = k

pub IsCollecting-start : (c : Command) → IsCollecting c collecting
IsCollecting-start c = record { kept = tt; events = tt; header = λ k e. absurd (cc e) }

-- `execute`, from any state of the executor and whether or not the write raises: what it returns and
-- dispatches is as above, no command is in flight afterwards, and an active reader's queue starts
-- empty, so no line that was left from before takes part.
pub execute-Ended :
    (e : Executor) (c : Command) (write_fails : Bool) (reads : List Read)
    → ResponseHolds c (execute e c write_fails reads).0
      × All (IsEvent c) (execute e c write_fails reads).1
      × ((execute e c write_fails reads).2.command_in_flight ≡ false)
      × (e.reader_active ≡ true → (execute e c write_fails reads).2.line_queue ≡ [])
unfolding execute perform
execute-Ended e c true reads = (tt, tt, refl, λ h. ground arith)
execute-Ended e c false reads =
    let ended = collect_response-Ended c collecting reads (IsCollecting-start c) in
    (ended.0, ended.1, refl, λ h. ground arith)

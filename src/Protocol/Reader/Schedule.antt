-- ===== src/Protocol/Reader/Schedule.antt =====
-- The reader among commands that start and end when they like.
use callstack.Prelude.{
  suc, ◌≡◌, refl, sym, Bool, true, false, List, [], ◌∷◌, ◌++◌, Option, none, some, Text, leb, subst,
  if◌then◌else◌, All, All-append, Bool-cases, ◌⊎◌, inl, inr,
}
use callstack.Protocol.Lines.{strip, is_urc, needs_followup}
use callstack.Protocol.Executor.{Read}
use callstack.Protocol.Reader.{
  Wait, at_head, for_body, for_more, stopped, Reader, Arrival, line, silence, broken, unexpected,
  cancelled, start_reader, finish, join_lines, is_blank, dispatch, idle_line, take_line,
  at_head_step, for_body_step, for_more_step, is_boundary, may_start, step_at, reader_step,
  begin_command, end_command, next_line,
}

-- What happens next: something arrives, or a command starts, ends, or takes the next line.
pub data Move : Type 0 where
  arrive : Arrival → Move
  begin : Move
  end : Move
  next : Move

unfoldable pub move : Reader → Move → Reader
move r (arrive a) = reader_step r a
move r begin = begin_command r
move r end = end_command r
move r next = (next_line r).1

unfoldable pub run : Reader → List Move → Reader
run r [] = r
run r (m ∷ ms) = run (move r m) ms

-- A pair for the dispatcher: an unsolicited code, with a second line only if it is one that has one.
pub record IsPair (e : Text × Text) : Type 0 where
  pub urc : is_urc e.0 ≡ true
  pub paired : (e.1 ≡ []) ⊎ (needs_followup e.0 ≡ true)

abbrev pub IsHeader : Text → Type 0
IsHeader h = (is_urc h ≡ true) × (needs_followup h ≡ true)

-- A wait behind a header is one behind a header that has a second line, and no command is in flight.
abbrev pub IsWait : Wait → Bool → Type 0
IsWait at_head busy = Unit
IsWait (for_body h) busy = IsHeader h × (busy ≡ false)
IsWait (for_more h lines) busy = IsHeader h × (busy ≡ false)
IsWait stopped busy = Unit

pub record IsReader (r : Reader) : Type 0 where
  pub waits : IsWait r.wait r.command_in_flight
  pub pairs : All IsPair r.dispatched

module _ (r : Reader) (pairs : All IsPair r.dispatched) where
  dispatch-IsReader :
      (h t : Text)
      → is_urc h ≡ true
      → (t ≡ []) ⊎ (needs_followup h ≡ true)
      → IsReader (dispatch r h t)
  dispatch-IsReader h t u p = record {
    waits = tt;
    pairs = All-append IsPair r.dispatched ((h, t) ∷ []) pairs (record { urc = u; paired = p }, tt);
  }

  finish-IsReader : IsReader (finish r)
  unfolding finish
  finish-IsReader = record { waits = tt; pairs = pairs }

idle_line-IsReader :
    (r : Reader) (control : Text)
    → IsReader r
    → r.command_in_flight ≡ false
    → IsReader (idle_line r control)
unfolding idle_line
idle_line-IsReader r control h free = elim (Bool-cases (is_blank control)) [
  | inl e ↦ rw e h
  | inr e ↦ elim (Bool-cases (is_urc control)) [
    | inr u ↦ rw e (rw u h)
    | inl u ↦ elim (Bool-cases (needs_followup control)) [
      | inl f ↦ rw e (rw u (rw f (record { waits = ((u, f), free); pairs = h.pairs })))
      | inr f ↦ rw e (rw u (rw f (dispatch-IsReader r h.pairs control [] u (inl refl))))
    ]
  ]
]

take_line-IsReader : (r : Reader) (raw : Text) → IsReader r → IsReader (take_line r raw)
unfolding take_line
take_line-IsReader r raw h = elim (Bool-cases r.command_in_flight) [
  | inl e ↦
      let queued : IsReader
          (record r { consecutive_errors = 0; line_queue = r.line_queue ++ Read.line raw ∷ [] }) =
        record { waits = h.waits; pairs = h.pairs } in
      subst
        (λ b. IsReader (
          if b
          then record r { consecutive_errors = 0; line_queue = r.line_queue ++ Read.line raw ∷ [] }
          else idle_line (record r { consecutive_errors = 0 }) (strip raw)))
        (sym e) queued
  | inr e ↦
      subst
        (λ b. IsReader (
          if b
          then record r { consecutive_errors = 0; line_queue = r.line_queue ++ Read.line raw ∷ [] }
          else idle_line (record r { consecutive_errors = 0 }) (strip raw)))
        (sym e)
        (idle_line-IsReader (record r { consecutive_errors = 0 }) (strip raw)
          (record { waits = h.waits; pairs = h.pairs }) e)
]

step_at-IsReader :
    (w : Wait) (r : Reader) (a : Arrival)
    → IsWait w r.command_in_flight
    → IsReader r
    → IsReader (step_at w r a)
unfolding step_at at_head_step for_body_step for_more_step
step_at-IsReader at_head r (line raw) w h = take_line-IsReader r raw h
step_at-IsReader at_head r silence w h = h
step_at-IsReader at_head r broken w h = finish-IsReader _ h.pairs
step_at-IsReader at_head r unexpected w h = elim (Bool-cases (leb 5 (suc r.consecutive_errors))) [
  | inl e ↦ rw e (finish-IsReader _ h.pairs)
  | inr e ↦ rw e (record { waits = h.waits; pairs = h.pairs })
]
step_at-IsReader at_head r cancelled w h = finish-IsReader r h.pairs
step_at-IsReader (for_body header) r (line raw) w h = record { waits = w; pairs = h.pairs }
step_at-IsReader (for_body header) r silence w h =
    dispatch-IsReader r h.pairs header [] w.0.0 (inl refl)
step_at-IsReader (for_body header) r broken w h = finish-IsReader r h.pairs
step_at-IsReader (for_body header) r unexpected w h = finish-IsReader r h.pairs
step_at-IsReader (for_body header) r cancelled w h = finish-IsReader r h.pairs
step_at-IsReader (for_more header lines) r (line raw) w h =
    elim (Bool-cases (is_boundary (strip raw))) [
      | inl e ↦ rw e (
          take_line-IsReader (dispatch r header (join_lines lines)) raw
            (dispatch-IsReader r h.pairs header (join_lines lines) w.0.0 (inr w.0.1)))
      | inr e ↦ rw e (record { waits = w; pairs = h.pairs })
    ]
step_at-IsReader (for_more header lines) r silence w h =
    dispatch-IsReader r h.pairs header (join_lines lines) w.0.0 (inr w.0.1)
step_at-IsReader (for_more header lines) r broken w h = finish-IsReader r h.pairs
step_at-IsReader (for_more header lines) r unexpected w h = finish-IsReader r h.pairs
step_at-IsReader (for_more header lines) r cancelled w h = finish-IsReader r h.pairs
step_at-IsReader stopped r a w h = h

-- A wait may be read with no command in flight.
IsWait-free : (w : Wait) (busy : Bool) → IsWait w busy → IsWait w false
IsWait-free at_head busy h = tt
IsWait-free (for_body t) busy h = (h.0, refl)
IsWait-free (for_more t lines) busy h = (h.0, refl)
IsWait-free stopped busy h = tt

begin-IsWait : (w : Wait) → may_start w ≡ true → IsWait w true
begin-IsWait at_head h = tt
begin-IsWait (for_body t) h = absurd (cc)
begin-IsWait (for_more t lines) h = absurd (cc)
begin-IsWait stopped h = tt

move-IsReader : (r : Reader) (m : Move) → IsReader r → IsReader (move r m)
unfolding move reader_step begin_command end_command next_line
move-IsReader r (arrive a) h = step_at-IsReader r.wait r a h.waits h
move-IsReader r begin h = elim (Bool-cases (may_start r.wait)) [
  | inl e ↦ rw e (record { waits = begin-IsWait r.wait e; pairs = h.pairs })
  | inr e ↦ rw e h
]
move-IsReader r end h = record {
  waits = IsWait-free r.wait r.command_in_flight h.waits;
  pairs = h.pairs;
}
move-IsReader r next h = taken r.line_queue
  where
    taken :
        (q : List Read)
        → IsReader
            (elim q as (λ x. Option Read × Reader) [
              | [] ↦ (none, r)
              | item ∷ rest ↦ (some item, record r { line_queue = rest })
            ]).1
    taken [] = h
    taken (item ∷ rest) = record { waits = h.waits; pairs = h.pairs }

-- Whatever arrives and whenever commands start, end and take lines, from the start of the reader on,
-- or from any state of which the same holds: what is dispatched are unsolicited codes only, a second line or a text only with a code that has
-- one; and while the reader waits for the text behind a header, the header is such a code and no
-- command is in flight.
pub run-IsReader : (r : Reader) (ms : List Move) → IsReader r → IsReader (run r ms)
unfolding run
run-IsReader r [] h = h
run-IsReader r (m ∷ ms) h = run-IsReader (move r m) ms (move-IsReader r m h)

pub start-IsReader : (queue : List Read) → IsReader (start_reader queue)
unfolding start_reader
start-IsReader queue = record { waits = tt; pairs = tt }

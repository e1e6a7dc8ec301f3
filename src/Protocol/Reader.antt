-- ===== src/Protocol/Reader.antt =====
-- callstack/protocol/executor.py: `_reader_loop`, the one task that reads while commands come and go,
-- and the follow-up of a `+CMT:` header. The loop is cut where it waits for the transport: for the
-- next line, for the line behind a header, or for more of a message's text. What stands between two
-- waits runs without another task, so a line that is pushed back is taken up in the same step. A
-- command starts only when it holds `_idle_followup_lock`, which the waits behind a header hold. Log
-- calls are left out, and a dispatch is the pair that the dispatcher is given.
pub mod Frames
pub mod Schedule
pub mod InFlight
use callstack.Prelude.{
  ℕ, suc, ◌+◌, Bool, true, false, List, [], ◌∷◌, ◌++◌, Option, none, some, Text, leb, if◌then◌else◌,
}
use callstack.Protocol.Lines.{strip, is_urc, needs_followup}
use callstack.Protocol.Executor.{Read}

-- Where the task waits: at the head of its loop; in `_read_idle_line` for what follows a header; in
-- `_collect_cmt_followup_continuation` with these lines; or not any more.
pub data Wait : Type 0 where
  at_head : Wait
  for_body : Text → Wait
  for_more : Text → List Text → Wait
  stopped : Wait

-- The state that the reader shares with commands, and what it gave to the dispatcher.
pub record Reader : Type 0 where
  pub wait : Wait
  pub line_queue : List Read
  pub command_in_flight : Bool
  pub transport_error : Bool
  pub consecutive_errors : ℕ
  pub dispatched : List (Text × Text)

-- What a wait ends with: a line; nothing in time, which the head of the loop does not ask for; the
-- end of the transport or its error; another exception; or the cancellation of the task.
pub data Arrival : Type 0 where
  line : Text → Arrival
  silence : Arrival
  broken : Arrival
  unexpected : Arrival
  cancelled : Arrival

abbrev pub max_consecutive_errors : ℕ
max_consecutive_errors = 5

-- `start_reader` on a queue that commands left.
unfoldable pub start_reader : List Read → Reader
start_reader queue = record {
  wait = at_head;
  line_queue = queue;
  command_in_flight = false;
  transport_error = false;
  consecutive_errors = 0;
  dispatched = [];
}

-- The `finally` of the loop.
unfoldable pub finish : Reader → Reader
finish r = record r { wait = stopped; command_in_flight = false }

-- `"\n".join(lines)`
unfoldable pub join_lines : List Text → Text
join_lines [] = []
join_lines (l ∷ []) = l
join_lines (l ∷ m ∷ ls) = l ++ (10 ∷ join_lines (m ∷ ls))

abbrev pub is_blank : Text → Bool
is_blank [] = true
is_blank (c ∷ s) = false

abbrev pub dispatch : Reader → Text → Text → Reader
dispatch r control followup = record r {
  wait = at_head;
  dispatched = r.dispatched ++ (control, followup) ∷ [];
}

-- A line while no command is in flight.
unfoldable pub idle_line : Reader → Text → Reader
idle_line r control =
    if is_blank control
    then r
    else if is_urc control
    then (if needs_followup control
        then record r { wait = for_body control }
        else dispatch r control [])
    else r

-- A line at the head of the loop, read or pushed back.
unfoldable pub take_line : Reader → Text → Reader
take_line r raw =
    let r' = record r { consecutive_errors = 0 } in
    if r.command_in_flight
    then record r' { line_queue = r.line_queue ++ Read.line raw ∷ [] }
    else idle_line r' (strip raw)

unfoldable pub at_head_step : Reader → Arrival → Reader
at_head_step r (line raw) = take_line r raw
at_head_step r silence = r
at_head_step r broken =
    finish (record r { transport_error = true; line_queue = r.line_queue ++ Read.died ∷ [] })
at_head_step r unexpected =
    let n = suc r.consecutive_errors in
    let r' = record r { consecutive_errors = n } in
    if leb max_consecutive_errors n then finish r' else r'
at_head_step r cancelled = finish r

-- Behind a header: the first line of the text, whatever it is, or none in time; anything else ends
-- the task.
unfoldable pub for_body_step : Reader → Text → Arrival → Reader
for_body_step r header (line raw) = record r { wait = for_more header (raw ∷ []) }
for_body_step r header silence = dispatch r header []
for_body_step r header _ = finish r

abbrev pub is_boundary : Text → Bool
is_boundary control = if is_blank control then false else is_urc control

-- Behind the first line: more lines, until a while without one, or an unsolicited code, which is
-- pushed back and taken at the head of the loop.
unfoldable pub for_more_step : Reader → Text → List Text → Arrival → Reader
for_more_step r header lines (line raw) =
    if is_boundary (strip raw)
    then take_line (dispatch r header (join_lines lines)) raw
    else record r { wait = for_more header (lines ++ raw ∷ []) }
for_more_step r header lines silence = dispatch r header (join_lines lines)
for_more_step r header lines _ = finish r

unfoldable pub step_at : Wait → Reader → Arrival → Reader
step_at at_head r a = at_head_step r a
step_at (for_body header) r a = for_body_step r header a
step_at (for_more header lines) r a = for_more_step r header lines a
step_at stopped r a = r

unfoldable pub reader_step : Reader → Arrival → Reader
reader_step r a = step_at r.wait r a

abbrev pub may_start : Wait → Bool
may_start at_head = true
may_start _ = false

-- `execute` and `send_data` up to their write, with an active reader: the queue is drained and the
-- flag set, once the lock is free.
unfoldable pub begin_command : Reader → Reader
begin_command r =
    if may_start r.wait then record r { line_queue = []; command_in_flight = true } else r

-- Their `finally`.
unfoldable pub end_command : Reader → Reader
end_command r = record r { command_in_flight = false }

-- `_next_line` with an active reader: the oldest item of the queue.
unfoldable pub next_line : Reader → Option Read × Reader
next_line r = elim r.line_queue [
  | [] ↦ (none, r)
  | item ∷ rest ↦ (some item, record r { line_queue = rest })
]

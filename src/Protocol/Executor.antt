-- ===== src/Protocol/Executor.antt =====
-- callstack/protocol/executor.py: `_collect_response` over the results of its reads, and `execute`
-- and `send_data` around it. A read gives a line, runs out of time, or finds the transport dead; a
-- schedule of reads that ends stands for silence until the deadline. The log calls are left out.
pub mod Framing
pub mod Kept
pub mod Response
use callstack.Prelude.{
  ℕ, Bool, true, false, not, ◌&&◌, ◌||◌, List, [], ◌∷◌, ◌++◌, Option, none, some, Text, codes,
  text_eq, starts_with, if◌then◌else◌,
}
use callstack.Protocol.Lines.{
  strip, is_in, starts_with_any, is_urc, needs_followup, final_dial_failure, is_final_error,
  is_sensitive_command_line,
}

-- What `_next_line` comes back with.
pub data Read : Type 0 where
  line : Text → Read
  timeout : Read
  died : Read

-- `ATResponse`
pub record AtResponse : Type 0 where
  pub success : Bool
  pub lines : List Text

-- What a command ends with: a response, an `ATTimeoutError` or a `TransportError`.
pub data Result : Type 0 where
  response : AtResponse → Result
  at_timeout : Result
  transport_error : Result

pub record Command : Type 0 where
  pub text : Text
  pub expect : List Text

unfoldable pub command_preserves_urc_like_payload : Text → Bool
command_preserves_urc_like_payload command =
    starts_with_any (codes "AT+CMGR" ∷ codes "AT+CMGL" ∷ []) command

unfoldable pub response_line_for_command : Text → Text → Text → Text
response_line_for_command command raw control =
    if starts_with (codes "AT+CMGR") command
    then (if starts_with (codes "+CMGR:") control then control else raw)
    else if starts_with (codes "AT+CMGL") command
    then (if starts_with (codes "+CMGL:") control then control else raw)
    else control

unfoldable pub line_matches_success : Command → Text → Text → Bool
line_matches_success c raw control =
    if command_preserves_urc_like_payload c.text then is_in raw c.expect else is_in control c.expect

unfoldable pub line_matches_error : Command → Text → Text → Bool
line_matches_error c raw control =
    is_final_error (if command_preserves_urc_like_payload c.text then raw else control)

unfoldable pub line_matches_dial_failure : Command → Text → Bool
line_matches_dial_failure c control =
    starts_with (codes "ATD") c.text && is_in control final_dial_failure

-- The variables of the loop: the lines, the flag `suppress_direct_cmt_continuation`, the header that
-- waits for its second line, and what was given to the dispatcher so far.
pub record Collecting : Type 0 where
  pub lines : List Text
  pub suppress : Bool
  pub waiting : Option Text
  pub dispatched : List (Text × Text)

abbrev pub collecting : Collecting
collecting = record { lines = []; suppress = false; waiting = none; dispatched = [] }

-- A round of the loop goes on, or returns or raises.
pub data Round : Type 0 where
  goes_on : Collecting → Round
  ends : Result → Collecting → Round

-- The last steps of a round, on a line that belongs to the response.
unfoldable pub take_line : Command → Collecting → Text → Text → Round
take_line c s raw control =
    let s' = record s { lines = s.lines ++ response_line_for_command c.text raw control ∷ [] } in
    if line_matches_success c raw control
    then ends (Result.response (record { success = true; lines = s'.lines })) s'
    else if line_matches_error c raw control
    then ends (Result.response (record { success = false; lines = s'.lines })) s'
    else goes_on s'

-- An unsolicited line: dispatched, or held until its second line is read.
unfoldable pub take_urc : Collecting → Text → Round
take_urc s control = goes_on (
    if needs_followup control
    then record s { waiting = some control }
    else record s { dispatched = s.dispatched ++ (control, []) ∷ [] })

-- A round on a line, from the test of the suppression flag on.
unfoldable pub classify : Command → Collecting → Text → Text → Round
classify c s raw control =
    if is_sensitive_command_line control
    then goes_on s
    else if text_eq control c.text
    then goes_on s
    else if line_matches_dial_failure c control
    then (let lines' = s.lines ++ response_line_for_command c.text raw control ∷ [] in
        ends (Result.response (record { success = false; lines = lines' }))
          (record s { lines = lines' }))
    else if is_urc control && not (command_preserves_urc_like_payload c.text)
    then take_urc s control
    else take_line c s raw control

-- A line that may be the rest of a message whose header was dispatched.
unfoldable pub is_continuation : Command → Text → Text → Bool
is_continuation c raw control =
    not (is_urc control)
    && not (line_matches_success c raw control)
    && not (line_matches_error c raw control)
    && not (line_matches_dial_failure c control)

abbrev is_blank : Text → Bool
is_blank [] = true
is_blank (c ∷ s) = false

unfoldable pub round : Command → Collecting → Text → Round
round c s raw =
    let control = strip raw in
    if is_blank control && not (command_preserves_urc_like_payload c.text)
    then goes_on s
    else if s.suppress && is_continuation c raw control
    then goes_on s
    else classify c (record s { suppress = false }) raw control

-- The second line of a header, or none in time: the pair is dispatched.
unfoldable pub hand_over : Collecting → Text → Text → Collecting
hand_over s header followup = record s {
  waiting = none;
  dispatched = s.dispatched ++ (header, followup) ∷ [];
  suppress = if starts_with (codes "+CMT:") header then true else s.suppress;
}

unfoldable pub step_of : Option Text → Command → Collecting → Read → Round
step_of w c s Read.died = ends Result.transport_error s
step_of (some header) c s (Read.line raw) = goes_on (hand_over s header raw)
step_of (some header) c s Read.timeout = goes_on (hand_over s header [])
step_of none c s (Read.line raw) = round c s raw
step_of none c s Read.timeout = ends Result.at_timeout s

unfoldable pub step : Command → Collecting → Read → Round
step c s r = step_of s.waiting c s r

-- A header still held when the reads end is dispatched with no second line.
abbrev silence : Collecting → Collecting
silence s = elim s.waiting [ none ↦ s | some header ↦ hand_over s header [] ]

unfoldable pub collect_response : Command → Collecting → List Read → Result × Collecting
collect_response c s [] = (Result.at_timeout, silence s)
collect_response c s (r ∷ reads) = elim (step c s r) [
  | goes_on s' ↦ collect_response c s' reads
  | ends result s' ↦ (result, s')
]

pub record Executor : Type 0 where
  pub reader_active : Bool
  pub command_in_flight : Bool
  pub line_queue : List Read
  pub written : List Text

-- `execute` and `send_data`, whose payload is the command's text with or without a line end: the
-- queue is drained and the flag set if the reader is active, and the flag is cleared however the
-- write and the collection end. `write_fails` says whether the transport's write raises.
unfoldable pub perform :
    Executor → Command → Text → Bool → List Read → Result × List (Text × Text) × Executor
perform e c payload write_fails reads =
    let e' =
      if e.reader_active then record e { line_queue = []; command_in_flight = true } else e in
    let (result, s) = collect_response c collecting reads in
    if write_fails then (Result.transport_error, [], record e' { command_in_flight = false }) else (
      result,
      s.dispatched,
      record e' { command_in_flight = false; written = e'.written ++ payload ∷ [] },
    )

unfoldable pub execute :
    Executor → Command → Bool → List Read → Result × List (Text × Text) × Executor
execute e c = perform e c (c.text ++ codes "\r\n")

unfoldable pub send_data :
    Executor → Text → List Text → Bool → List Read → Result × List (Text × Text) × Executor
send_data e payload expect =
    perform e (record { text = codes "<raw-data>"; expect = expect }) payload

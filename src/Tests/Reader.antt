-- ===== src/Tests/Reader.antt =====
-- The reader on concrete lines (callstack/protocol/executor.py).
use callstack.Prelude.{◌≡◌, refl, true, false, List, [], ◌∷◌, ◌++◌, codes}
use callstack.Protocol.Executor.{Read}
use callstack.Protocol.Reader.{at_head, Reader, line, silence, start_reader}
use callstack.Protocol.Reader.Schedule.{
  Move, arrive, begin, end, next, run, IsReader, run-IsReader, start-IsReader,
}
use callstack.Protocol.Reader.InFlight.{taken, taken-lines}
use callstack.Protocol.Reader.Frames.{Frame, code, message, noise}

abbrev busy_line : List Move
busy_line =
    arrive (line (codes "+CMT: x"))
    ∷ begin
    ∷ arrive (line (codes "text"))
    ∷ arrive silence
    ∷ begin
    ∷ arrive (line (codes "+CSQ: 1,0"))
    ∷ next
    ∷ end
    ∷ []

run-IsReader_example : IsReader (run (start_reader []) busy_line)
run-IsReader_example = run-IsReader (start_reader []) busy_line (start-IsReader [])

abbrev in_command : Reader
in_command = record {
  wait = at_head;
  line_queue = [];
  command_in_flight = true;
  transport_error = false;
  consecutive_errors = 0;
  dispatched = [];
}

abbrev traffic : List Move
traffic = next ∷ arrive (line (codes "RING")) ∷ next ∷ arrive (line (codes "OK")) ∷ []

taken-lines_example :
    (taken in_command traffic ++ (run in_command traffic).line_queue
      ≡ Read.line (codes "RING") ∷ Read.line (codes "OK") ∷ [])
    × ((run in_command traffic).dispatched ≡ [])
taken-lines_example = taken-lines in_command traffic refl refl (tt, (tt, (tt, (tt, tt))))

abbrev evening : List Frame
evening =
    noise (codes "^BOOT")
    ∷ message (codes "+CMT: \"+1\",,") (codes "RING") (codes "" ∷ codes "bye" ∷ [])
    ∷ code (codes "RING ")
    ∷ []

-- ===== src/Protocol/Reader/Frames.antt =====
-- What a quiet modem sends, and what the reader makes of it.
use callstack.Prelude.{◌≡◌, Bool, true, false, List, [], ◌∷◌, ◌++◌, Text, All}
use callstack.Protocol.Lines.{strip, is_urc, needs_followup}
use callstack.Protocol.Executor.{Read}
use callstack.Protocol.Reader.{
  Wait, Reader, Arrival, line, silence, join_lines, is_boundary, reader_step,
}

-- A code on one line; a message, its header and the lines of its text; a line that is no code; or a
-- while without a line.
pub data Frame : Type 0 where
  code : Text → Frame
  message : Text → Text → List Text → Frame
  noise : Text → Frame
  pause : Frame

abbrev pub lines : List Text → List Arrival
lines [] = []
lines (l ∷ ls) = line l ∷ lines ls

-- What arrives for a frame.
abbrev pub sent : Frame → List Arrival
sent (code raw) = line raw ∷ []
sent (message header first rest) = line header ∷ line first ∷ lines rest
sent (noise raw) = line raw ∷ []
sent pause = silence ∷ []

abbrev pub sent_all : List Frame → List Arrival
sent_all [] = []
sent_all (f ∷ fs) = sent f ++ sent_all fs

-- What it is for the dispatcher.
abbrev pub pair_of : Frame → List (Text × Text)
pair_of (code raw) = (strip raw, []) ∷ []
pair_of (message header first rest) = (strip header, join_lines (first ∷ rest)) ∷ []
pair_of (noise raw) = []
pair_of pause = []

abbrev pub pairs_of : List Frame → List (Text × Text)
pairs_of [] = []
pairs_of (f ∷ fs) = pair_of f ++ pairs_of fs

-- A code is one, on one line; a header is one with a text, whose lines but the first are no codes;
-- and noise is none.
abbrev pub IsFrame : Frame → Type 0
IsFrame (code raw) = (is_urc (strip raw) ≡ true) × (needs_followup (strip raw) ≡ false)
IsFrame (message header first rest) =
    (is_urc (strip header) ≡ true)
    × (needs_followup (strip header) ≡ true)
    × All (λ l. is_boundary (strip l) ≡ false) rest
IsFrame (noise raw) = is_urc (strip raw) ≡ false
IsFrame pause = Unit

-- A message is over when a code, another message or a pause follows.
abbrev pub Ends : List Frame → Type 0
Ends [] = ⊥
Ends (noise raw ∷ fs) = ⊥
Ends (_ ∷ fs) = Unit

abbrev pub AreFrames : List Frame → Type 0
AreFrames [] = Unit
AreFrames (message header first rest ∷ fs) =
    IsFrame (message header first rest) × Ends fs × AreFrames fs
AreFrames (f ∷ fs) = IsFrame f × AreFrames fs

unfoldable pub feed : Reader → List Arrival → Reader
feed r [] = r
feed r (a ∷ later) = feed (reader_step r a) later

module _ (queue : List Read) (dead : Bool) where
  -- A reader with no command in flight.
  abbrev pub waiting : Wait → List (Text × Text) → Reader
  waiting w d = record {
    wait = w;
    line_queue = queue;
    command_in_flight = false;
    transport_error = dead;
    consecutive_errors = 0;
    dispatched = d;
  }

-- ===== src/Protocol/Reader/InFlight.antt =====
-- The lines that arrive while a command is in flight.
use callstack.Prelude.{
  ◌≡◌, refl, ap, sym, ◌∙◌, true, List, [], ◌∷◌, ◌++◌, append_assoc, append-nil, Option, none, some,
  Text, All, arith,
}
use callstack.Protocol.Executor.{Read}
use callstack.Protocol.Reader.{
  at_head, Reader, Arrival, line, take_line, at_head_step, step_at, reader_step, next_line,
}
use callstack.Protocol.Reader.Schedule.{Move, arrive, begin, end, next, move, run}

-- Lines arrive, and the command takes them.
abbrev pub IsTraffic : Move → Type 0
IsTraffic (arrive (line raw)) = Unit
IsTraffic next = Unit
IsTraffic _ = ⊥

abbrev pub lines_of : List Move → List Read
lines_of [] = []
lines_of (arrive (line raw) ∷ ms) = Read.line raw ∷ lines_of ms
lines_of (_ ∷ ms) = lines_of ms

abbrev pub item_of : Option Read → List Read
item_of none = []
item_of (some item) = item ∷ []

-- What the command takes on the way.
unfoldable pub taken : Reader → List Move → List Read
taken r [] = []
taken r (next ∷ ms) = item_of (next_line r).0 ++ taken (move r next) ms
taken r (m ∷ ms) = taken (move r m) ms

next_line_lem :
    (r : Reader)
    → (item_of (next_line r).0 ++ (next_line r).1.line_queue ≡ r.line_queue)
      × ((next_line r).1.wait ≡ r.wait)
      × ((next_line r).1.command_in_flight ≡ r.command_in_flight)
      × ((next_line r).1.dispatched ≡ r.dispatched)
unfolding next_line
next_line_lem r = ground arith

line_lem :
    (r : Reader) (raw : Text)
    → r.wait ≡ at_head
    → r.command_in_flight ≡ true
    → ((reader_step r (line raw)).line_queue ≡ r.line_queue ++ Read.line raw ∷ [])
      × ((reader_step r (line raw)).wait ≡ at_head)
      × ((reader_step r (line raw)).command_in_flight ≡ true)
      × ((reader_step r (line raw)).dispatched ≡ r.dispatched)
unfolding reader_step step_at at_head_step take_line
line_lem r raw home busy = ground arith

-- While a command is in flight and only lines arrive, nothing is dispatched, and what the command
-- takes followed by what is left in the queue is the queue as it was followed by the lines in the
-- order of their arrival: no line is lost, taken twice or out of order, whenever the command takes
-- them.
pub taken-lines :
    (r : Reader) (ms : List Move)
    → r.wait ≡ at_head
    → r.command_in_flight ≡ true
    → All IsTraffic ms
    → (taken r ms ++ (run r ms).line_queue ≡ r.line_queue ++ lines_of ms)
      × ((run r ms).dispatched ≡ r.dispatched)
unfolding taken run move
taken-lines r [] home busy t = (sym (append-nil r.line_queue), refl)
taken-lines r (arrive (line raw) ∷ ms) home busy t =
    let (q, w, f, d) = line_lem r raw home busy in
    let (a, b) = taken-lines (reader_step r (line raw)) ms w f t.1 in
    (
      a
          ∙ ap (λ l. l ++ lines_of ms) q
          ∙ append_assoc r.line_queue (Read.line raw ∷ []) (lines_of ms),
      b ∙ d,
    )
taken-lines r (next ∷ ms) home busy t =
    let (q, w, f, d) = next_line_lem r in
    let (a, b) = taken-lines (next_line r).1 ms (w ∙ home) (f ∙ busy) t.1 in
    (
      append_assoc (item_of (next_line r).0) (taken (next_line r).1 ms)
            (run (next_line r).1 ms).line_queue
          ∙ ap (λ l. item_of (next_line r).0 ++ l) a
          ∙ sym (append_assoc (item_of (next_line r).0) (next_line r).1.line_queue (lines_of ms))
          ∙ ap (λ l. l ++ lines_of ms) q,
      b ∙ d,
    )
taken-lines r (arrive Arrival.silence ∷ ms) home busy t = absurd t.0
taken-lines r (arrive Arrival.broken ∷ ms) home busy t = absurd t.0
taken-lines r (arrive Arrival.unexpected ∷ ms) home busy t = absurd t.0
taken-lines r (arrive Arrival.cancelled ∷ ms) home busy t = absurd t.0
taken-lines r (begin ∷ ms) home busy t = absurd t.0
taken-lines r (end ∷ ms) home busy t = absurd t.0

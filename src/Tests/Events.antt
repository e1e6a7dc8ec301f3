-- ===== src/Tests/Events.antt =====
-- A full stream of a bus (callstack/events/bus.py).
use callstack.Prelude.{ℕ, none, arith, ◌≡◌, refl, List, [], ◌∷◌, some}
use callstack.Events.Bus.{drop_oldest, full, next_event, put_dropping_oldest, EventBus}
use callstack.Events.Bus.Window.{Move, emitted, asked, queue_moves, log_moves, stream-refines}

abbrev opened : EventBus ℕ
opened = record {
  subscribers = [];
  queues = (7, 1, record { maxsize = 2; dropped = 0; items = [] }) ∷ [];
  calls = [];
}

abbrev events : List (ℕ × ℕ)
events = (1, 10) ∷ (2, 99) ∷ (1, 11) ∷ (1, 12) ∷ []

abbrev bursts : List (Move ℕ)
bursts = asked ∷ emitted 1 ∷ emitted 2 ∷ emitted 3 ∷ asked ∷ emitted 4 ∷ asked ∷ asked ∷ []

stream-refines_example :
    (queue_moves (record { maxsize = 2; dropped = 0; items = [] }) bursts).1
    ≡ (log_moves (record { bound = 2; log = []; place = 0 }) bursts).1
stream-refines_example = stream-refines 2 bursts (omega arith)

-- The first event is passed over.
given :
    (queue_moves (record { maxsize = 2; dropped = 0; items = [] }) bursts).1
    ≡ none ∷ some 2 ∷ some 3 ∷ some 4 ∷ []
unfolding next_event put_dropping_oldest full drop_oldest
given = refl

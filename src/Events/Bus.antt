-- ===== src/Events/Bus.antt =====
-- callstack/events/bus.py: `EventBus` and its streams. The class of an event is a number, and so are
-- a subscribed function and the identity of a queue. A subscriber that raises is logged and the next
-- one is called; what a subscriber does is its own, and only its call is kept. The tasks of
-- asynchronous subscribers are left out.
pub mod Puts
pub mod Streams
pub mod Window
use callstack.Prelude.{
  ℕ, zero, suc, ◌+◌, Bool, true, false, not, ◌&&◌, List, [], ◌∷◌, ◌++◌, Option, none, some, length,
  leb, ◌==◌, if◌then◌else◌,
}

-- `_StreamQueue`
pub record StreamQueue (E : Type 0) : Type 0 where
  pub maxsize : ℕ
  pub dropped : ℕ
  pub items : List E

-- `EventBus`, with the calls of subscribers so far.
pub record EventBus (E : Type 0) : Type 0 where
  pub subscribers : List (ℕ × ℕ)
  pub queues : List (ℕ × ℕ × StreamQueue E)
  pub calls : List (ℕ × E)

-- The first pair is taken out.
unfoldable pub remove_first : ℕ → ℕ → List (ℕ × ℕ) → List (ℕ × ℕ)
remove_first kind handler [] = []
remove_first kind handler ((k, f) ∷ rest) =
    if (k == kind) && (f == handler) then rest else (k, f) ∷ remove_first kind handler rest

module _ {E : Type 0} where
  abbrev pub new_bus : EventBus E
  new_bus = record { subscribers = []; queues = []; calls = [] }

  unfoldable pub subscribe : EventBus E → ℕ → ℕ → EventBus E
  subscribe b kind handler = record b { subscribers = b.subscribers ++ (kind, handler) ∷ [] }

  unfoldable pub unsubscribe : EventBus E → ℕ → ℕ → EventBus E
  unsubscribe b kind handler = record b { subscribers = remove_first kind handler b.subscribers }

  -- `Queue.full`
  unfoldable pub full : StreamQueue E → Bool
  full q = not (q.maxsize == 0) && leb q.maxsize (length q.items)

  -- `get_nowait`, with the count of what was dropped.
  unfoldable pub drop_oldest : StreamQueue E → List E → StreamQueue E
  drop_oldest q [] = q
  drop_oldest q (e ∷ items) = record q { items = items; dropped = suc q.dropped }

  unfoldable pub put_dropping_oldest : StreamQueue E → E → StreamQueue E
  put_dropping_oldest q e =
      let q' = if full q then drop_oldest q q.items else q in
      record q' { items = q'.items ++ e ∷ [] }

  unfoldable pub put_all : ℕ → E → List (ℕ × ℕ × StreamQueue E) → List (ℕ × ℕ × StreamQueue E)
  put_all kind e [] = []
  put_all kind e ((i, k, q) ∷ queues) =
      (i, k, if k == kind then put_dropping_oldest q e else q) ∷ put_all kind e queues

  -- The subscribers of a class, in the order of subscription, each called with the event.
  unfoldable pub called : ℕ → E → List (ℕ × ℕ) → List (ℕ × E)
  called kind e [] = []
  called kind e ((k, f) ∷ rest) =
      if k == kind then (f, e) ∷ called kind e rest else called kind e rest

  unfoldable pub emit : EventBus E → ℕ → E → EventBus E
  emit b kind e = record b {
    queues = put_all kind e b.queues;
    calls = b.calls ++ called kind e b.subscribers;
  }

  unfoldable pub find_queue : ℕ → List (ℕ × ℕ × StreamQueue E) → Option (ℕ × StreamQueue E)
  find_queue i [] = none
  find_queue i ((j, k, q) ∷ queues) = if j == i then some (k, q) else find_queue i queues

  -- `stream`: a new queue at the end, or a `ValueError`.
  unfoldable pub open_stream : EventBus E → ℕ → ℕ → ℕ → Option (EventBus E)
  open_stream b i kind maxsize =
      if maxsize == 0
      then none
      else some (record b {
        queues = b.queues ++ (i, kind, record { maxsize = maxsize; dropped = 0; items = [] }) ∷ [];
      })

  -- `EventStream.next`: the oldest event, or none when the timeout comes first.
  unfoldable pub next_event : StreamQueue E → StreamQueue E × Option E
  next_event q = elim q.items [ [] ↦ (q, none) | e ∷ items ↦ (record q { items = items }, some e) ]

  unfoldable pub remove_queue : ℕ → List (ℕ × ℕ × StreamQueue E) → List (ℕ × ℕ × StreamQueue E)
  remove_queue i [] = []
  remove_queue i ((j, k, q) ∷ queues) =
      let rest = remove_queue i queues in if j == i then queues else (j, k, q) ∷ rest

  -- The end of `stream`: the queue is taken out, and one that is gone is no error.
  unfoldable pub close_stream : EventBus E → ℕ → EventBus E
  close_stream b i = record b { queues = remove_queue i b.queues }

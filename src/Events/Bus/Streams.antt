-- ===== src/Events/Bus/Streams.antt =====
-- What a stream's queue holds after the events of a run.
use callstack.Prelude.{
  ℕ, ◌-◌, ◌≤◌, ◌≡◌, refl, ap, sym, ◌∙◌, subst, true, false, List, [], ◌∷◌, ◌++◌, none, some, length,
  ◌==◌, if◌then◌else◌, drop, arith, append_assoc, append-nil, Bool-cases, ==_refl, inl, inr,
}
use callstack.Events.Bus.{
  StreamQueue, EventBus, put_dropping_oldest, put_all, emit, find_queue, open_stream,
}
use callstack.Events.Bus.Puts.{queue, next, Holds, put-Holds}

module _ {E : Type 0} where
  -- The events of one class among those emitted.
  abbrev pub of_kind : ℕ → List (ℕ × E) → List E
  of_kind kind [] = []
  of_kind kind ((k, e) ∷ events) =
      if k == kind then e ∷ of_kind kind events else of_kind kind events

  pub emit_all : EventBus E → List (ℕ × E) → EventBus E
  emit_all b [] = b
  emit_all b ((k, e) ∷ events) = emit_all (emit b k e) events

  find-put_all :
      (i kind k : ℕ) (e : E) (q : StreamQueue E) (queues : List (ℕ × ℕ × StreamQueue E))
      → find_queue i queues ≡ some (kind, q)
      → find_queue i (put_all k e queues)
        ≡ some (kind, if kind == k then put_dropping_oldest q e else q)
  unfolding find_queue put_all
  find-put_all i kind k e q [] h = absurd cc
  find-put_all i kind k e q ((j, c, r) ∷ queues) h =
      let rest = find-put_all i kind k e q queues in
      elim (Bool-cases (j == i)) [
        | inl here ↦
            let same_pair = rw here at h in
            let same : c ≡ kind = cc in let alike : r ≡ q = cc in rw here (cc (same, alike))
        | inr there ↦ let found = rw there at h in rw there (rest found)
      ]

  emit-Holds :
      (b : EventBus E) (i kind m before : ℕ) (q : StreamQueue E) (seen : List E)
      (events : List (ℕ × E))
      → 1 ≤ m
      → find_queue i b.queues ≡ some (kind, q)
      → Holds q m before seen
      → (r : StreamQueue E) × (find_queue i (emit_all b events).queues ≡ some (kind, r))
        × Holds r m before (seen ++ of_kind kind events)
  unfolding emit_all emit
  emit-Holds b i kind m before q seen [] one at h =
      (q, at, subst (Holds q m before) (sym (append-nil seen)) h)
  emit-Holds b i kind m before q seen ((k, e) ∷ events) one at h =
      let found = find-put_all i kind k e q b.queues at in
      elim (Bool-cases (k == kind)) [
        | inl same ↦
            let back : (kind == k) ≡ true = ground arith in
            let (r, there, holds) =
              emit-Holds (emit b k e) i kind m before (put_dropping_oldest q e) (next seen e) events
                one (rw back at found) (put-Holds q m before seen e one h) in
            rw same (
              r,
              there,
              subst (Holds r m before) (append_assoc seen (e ∷ []) (of_kind kind events)) holds,
            )
        | inr other ↦
            let back : (kind == k) ≡ false = ground arith in
            let (r, there, holds) =
              emit-Holds (emit b k e) i kind m before q seen events one (rw back at found) h in
            rw other (r, there, holds)
      ]

  find_last :
      (i kind : ℕ) (q : StreamQueue E) (queues : List (ℕ × ℕ × StreamQueue E))
      → find_queue i queues ≡ none
      → find_queue i (queues ++ (i, kind, q) ∷ []) ≡ some (kind, q)
  unfolding find_queue
  find_last i kind q [] h = rw (==_refl i) refl
  find_last i kind q ((j, c, r) ∷ queues) h = elim (Bool-cases (j == i)) [
    | inl here ↦ absurd (let found = rw here at h in cc)
    | inr there ↦ let none_yet = rw there at h in rw there (find_last i kind q queues none_yet)
  ]

  -- A stream that is opened with a new identity, and any events emitted afterwards, of its class and
  -- of others: its queue holds the latest events of its class in the order of their emission, as
  -- many as it has room for, and it has counted each one before these as dropped.
  pub stream-latest :
      (b opened : EventBus E) (i kind m : ℕ) (events : List (ℕ × E))
      → find_queue i b.queues ≡ none
      → open_stream b i kind m ≡ some opened
      → (q : StreamQueue E) × (find_queue i (emit_all opened events).queues ≡ some (kind, q))
        × (q.items ≡ drop (length (of_kind kind events) - m) (of_kind kind events))
        × (q.dropped ≡ length (of_kind kind events) - m)
  unfolding open_stream
  stream-latest b opened i kind m events fresh h = elim (Bool-cases (m == 0)) [
    | inl e ↦ absurd (ground arith)
    | inr e ↦
        let start = rw e at h in
        let found = find_last i kind (queue m 0 []) b.queues fresh in
        let placed : find_queue i opened.queues ≡ some (kind, queue m 0 []) =
          subst (λ o. find_queue i o ≡ some (kind, queue m 0 []))
            (let w : b.queues ++ (i, kind, queue m 0 []) ∷ [] ≡ opened.queues = cc in w) found in
        let empty : Holds (queue m 0 []) m 0 [] = record {
          sized = refl;
          latest = ap (λ k. drop {A = E} k []) (let z : 0 ≡ 0 - m = omega arith in z);
          counted = omega arith;
        } in
        let (q, there, holds) =
          emit-Holds opened i kind m 0 (queue m 0 []) [] events (ground arith) placed empty in
        (q, there, holds.latest, holds.counted ∙ omega arith)
  ]

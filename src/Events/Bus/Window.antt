-- ===== src/Events/Bus/Window.antt =====
-- A stream of callstack/events/bus.py as a window on the log of what was emitted: the consumer has a
-- place in the log, which moves on when it reads, or when it is more than the bound behind.
use callstack.Prelude.{
  ℕ, zero, suc, ◌+◌, ◌-◌, ◌≤◌, ◌<◌, ◌≡◌, refl, sym, ap, ◌∙◌, false, List, [], ◌∷◌, ◌++◌, Option,
  none, some, length, drop, get_elem?, length-drop, length-append, leb, ◌==◌, if◌then◌else◌, arith,
  Bool-cases, inl, inr, leb→le,
}
use callstack.Events.Bus.{StreamQueue, full, drop_oldest, put_dropping_oldest, next_event}

-- An event is emitted, or the consumer asks for one.
pub data Move (E : Type 0) : Type 0 where
  emitted : E → Move E
  asked : Move E

pub record Log (E : Type 0) : Type 0 where
  pub bound : ℕ
  pub log : List E
  pub place : ℕ

abbrev pub later : ℕ → ℕ → ℕ
later a b = if leb a b then b else a

module _ {E : Type 0} where
  -- The queue, and what the consumer is given.
  abbrev pub queue_moves : StreamQueue E → List (Move E) → StreamQueue E × List (Option E)
  queue_moves q [] = (q, [])
  queue_moves q (emitted e ∷ moves) = queue_moves (put_dropping_oldest q e) moves
  queue_moves q (asked ∷ moves) =
      let r = next_event q in let rest = queue_moves r.0 moves in (rest.0, r.1 ∷ rest.1)

  -- The specification: an event goes to the end of the log.
  unfoldable pub logged : Log E → E → Log E
  logged l e = record l {
    log = l.log ++ e ∷ [];
    place = later l.place (suc (length l.log) - l.bound);
  }

  unfoldable pub read_on : Log E → Log E × Option E
  read_on l = elim (get_elem? l.log l.place) [
    | none ↦ (l, none)
    | some e ↦ (record l { place = suc l.place }, some e)
  ]

  abbrev pub log_moves : Log E → List (Move E) → Log E × List (Option E)
  log_moves l [] = (l, [])
  log_moves l (emitted e ∷ moves) = log_moves (logged l e) moves
  log_moves l (asked ∷ moves) =
      let r = read_on l in let rest = log_moves r.0 moves in (rest.0, r.1 ∷ rest.1)

  drop-append : (n : ℕ) (xs ys : List E) → n ≤ length xs → drop n (xs ++ ys) ≡ drop n xs ++ ys
  drop-append zero xs ys h = refl
  drop-append (suc n) [] ys h = absurd (omega arith)
  drop-append (suc n) (x ∷ xs) ys h = drop-append n xs ys (omega arith)

  drop_front :
      (n : ℕ) (xs : List E) (e : E) (rest : List E)
      → drop n xs ≡ e ∷ rest
      → (get_elem? xs n ≡ some e) × (drop (suc n) xs ≡ rest) × (n < length xs)
  drop_front zero [] e rest h = absurd (ground arith)
  drop_front zero (x ∷ xs) e rest h = (ground arith, ground arith, omega arith)
  drop_front (suc n) [] e rest h = absurd (ground arith)
  drop_front (suc n) (x ∷ xs) e rest h =
      let (a, b, c) = drop_front n xs e rest h in (a, b, omega (arith, c))

  drop_end : (n : ℕ) (xs : List E) → drop n xs ≡ [] → get_elem? xs n ≡ none
  drop_end zero [] h = refl
  drop_end zero (x ∷ xs) h = absurd (ground arith)
  drop_end (suc n) [] h = refl
  drop_end (suc n) (x ∷ xs) h = drop_end n xs h

  -- The queue holds what is between the consumer's place and the end of the log.
  pub record IsWindow (q : StreamQueue E) (l : Log E) : Type 0 where
    pub same_bound : q.maxsize ≡ l.bound
    pub positive : 1 ≤ l.bound
    pub in_log : l.place ≤ length l.log
    pub near : length l.log ≤ l.place + l.bound
    pub window : q.items ≡ drop l.place l.log

  abbrev queue : ℕ → ℕ → List E → StreamQueue E
  queue m dropped items = record { maxsize = m; dropped = dropped; items = items }

  -- The window from another place on.
  logged-IsWindow :
      (m d : ℕ) (items : List E) (l : Log E) (e : E) (place : ℕ)
      → m ≡ l.bound
      → 1 ≤ l.bound
      → later l.place (suc (length l.log) - l.bound) ≡ place
      → place ≤ length l.log
      → suc (length l.log) ≤ place + l.bound
      → items ≡ drop place l.log
      → IsWindow (queue m d (items ++ e ∷ [])) (logged l e)
  unfolding logged
  logged-IsWindow m d items l e place b one p low high w =
      let n : length (l.log ++ e ∷ []) ≡ suc (length l.log) =
        omega (arith, length-append l.log (e ∷ [])) in
      let shown : items ++ e ∷ [] ≡ drop place (l.log ++ e ∷ []) =
        ap (λ xs. xs ++ e ∷ []) w ∙ sym (drop-append place l.log (e ∷ []) low) in
      rw p (record {
        same_bound = b;
        positive = one;
        in_log = omega arith;
        near = omega arith;
        window = shown;
      })

  put-IsWindow :
      (m d : ℕ) (items : List E) (l : Log E) (e : E)
      → IsWindow (queue m d items) l
      → IsWindow (put_dropping_oldest (queue m d items) e) (logged l e)
  unfolding put_dropping_oldest drop_oldest full
  put-IsWindow m d [] l e h =
      let positive = h.positive in
      let same = h.same_bound in
      let count : length l.log - l.place ≡ 0 =
        sym (length-drop l.place l.log) ∙ sym (ap length h.window) in
      let in_log = h.in_log in
      let e1 : leb m 0 ≡ false = ground arith in
      let some_room : (m == 0) ≡ false = ground arith in
      let stays : later l.place (suc (length l.log) - l.bound) ≡ l.place = ground arith in
      rw some_room (
        rw e1
          (logged-IsWindow m d [] l e l.place same positive stays in_log (omega arith) h.window))
  put-IsWindow m d (x ∷ items) l e h =
      let positive = h.positive in
      let same = h.same_bound in
      let near = h.near in
      let in_log = h.in_log in
      let count : length l.log - l.place ≡ suc (length items) =
        sym (length-drop l.place l.log) ∙ sym (ap length h.window) in
      let (found, rest, low) = drop_front l.place l.log x items (sym h.window) in
      let some_room : (m == 0) ≡ false = ground arith in
      elim (Bool-cases (leb m (suc (length items)))) [
        | inl e1 ↦
            let at_bound = leb→le m (suc (length items)) e1 in
            let moves : later l.place (suc (length l.log) - l.bound) ≡ suc l.place = ground arith in
            rw some_room (
              rw e1 (
                logged-IsWindow m (suc d) items l e (suc l.place) same positive moves (omega arith)
                  (omega arith) (sym rest)))
        | inr e1 ↦
            let below : suc (length items) < m = ground arith in
            let stays : later l.place (suc (length l.log) - l.bound) ≡ l.place = ground arith in
            rw some_room (
              rw e1 (
                logged-IsWindow m d (x ∷ items) l e l.place same positive stays in_log (omega arith)
                  h.window))
      ]

  next-IsWindow :
      (m d : ℕ) (items : List E) (l : Log E)
      → IsWindow (queue m d items) l
      → IsWindow (next_event (queue m d items)).0 (read_on l).0
        × ((next_event (queue m d items)).1 ≡ (read_on l).1)
  unfolding next_event read_on
  next-IsWindow m d [] l h = rw (drop_end l.place l.log (sym h.window), read_on) (h, refl)
  next-IsWindow m d (x ∷ items) l h =
      let (found, rest, low) = drop_front l.place l.log x items (sym h.window) in
      let w : IsWindow (queue m d items) (record l { place = suc l.place }) = record {
        same_bound = h.same_bound;
        positive = h.positive;
        in_log = omega arith;
        near = let near = h.near in omega arith;
        window = sym rest;
      } in
      rw (found, read_on) (w, refl)

  moves-refine :
      (q : StreamQueue E) (l : Log E) (moves : List (Move E))
      → IsWindow q l
      → IsWindow (queue_moves q moves).0 (log_moves l moves).0
        × ((queue_moves q moves).1 ≡ (log_moves l moves).1)
  moves-refine q l [] h = (h, refl)
  moves-refine q l (emitted e ∷ moves) h =
      moves-refine (put_dropping_oldest q e) (logged l e) moves
        (put-IsWindow q.maxsize q.dropped q.items l e h)
  moves-refine q l (asked ∷ moves) h =
      let (w, same) = next-IsWindow q.maxsize q.dropped q.items l h in
      let (v, rest) = moves-refine (next_event q).0 (read_on l).0 moves w in (v, cc (same, rest))

  -- A stream with a bound refines the window on the log: whatever is emitted and asked for, in
  -- whatever order, the consumer of the queue is given exactly what a reader of the log is given, whose
  -- place is moved on only when it is more than the bound behind.
  pub stream-refines :
      (m : ℕ) (moves : List (Move E))
      → 1 ≤ m
      → (queue_moves (record { maxsize = m; dropped = 0; items = [] }) moves).1
        ≡ (log_moves (record { bound = m; log = []; place = 0 }) moves).1
  stream-refines m moves h =
      (moves-refine (record { maxsize = m; dropped = 0; items = [] })
        (record { bound = m; log = []; place = 0 }) moves
        (record {
          same_bound = refl;
          positive = h;
          in_log = omega arith;
          near = omega arith;
          window = refl;
        })).1

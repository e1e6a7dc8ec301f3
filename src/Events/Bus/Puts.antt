-- ===== src/Events/Bus/Puts.antt =====
-- What one queue holds after a put.
use callstack.Prelude.{
  ℕ, zero, suc, ◌+◌, ◌-◌, ◌≤◌, ◌<◌, ◌≡◌, refl, ap, sym, ◌∙◌, subst, true, false, not, ◌&&◌, List,
  [], ◌∷◌, ◌++◌, length, leb, ◌==◌, drop, arith, Bool-cases, inl, inr, length-append,
}
use callstack.Events.Bus.{StreamQueue, full, drop_oldest, put_dropping_oldest}

module _ {E : Type 0} where
  drop_append : (n : ℕ) (xs ys : List E) → n ≤ length xs → drop n (xs ++ ys) ≡ drop n xs ++ ys
  drop_append zero xs ys h = refl
  drop_append (suc n) [] ys h = absurd (omega arith)
  drop_append (suc n) (x ∷ xs) ys h = drop_append n xs ys (omega arith)

  length-drop : (n : ℕ) (xs : List E) → length (drop n xs) ≡ length xs - n
  length-drop zero xs = omega arith
  length-drop (suc n) [] = omega arith
  length-drop (suc n) (x ∷ xs) = omega (arith, length-drop n xs)

  -- The rest of a list from a position, without its first element.
  drop_next : (n : ℕ) (xs ys : List E) (y : E) → drop n xs ≡ y ∷ ys → drop (suc n) xs ≡ ys
  drop_next zero [] ys y h = cc
  drop_next zero (x ∷ xs) ys y h = cc
  drop_next (suc n) [] ys y h = cc
  drop_next (suc n) (x ∷ xs) ys y h = drop_next n xs ys y h

  abbrev pub queue : ℕ → ℕ → List E → StreamQueue E
  queue m d items = record { maxsize = m; dropped = d; items = items }

  put_room :
      (m d : ℕ) (items : List E) (e : E)
      → length items < m
      → put_dropping_oldest (queue m d items) e ≡ queue m d (items ++ e ∷ [])
  unfolding put_dropping_oldest full
  put_room m d items e h =
      let no : (not (m == 0) && leb m (length items)) ≡ false = ground arith in rw no refl

  put_full :
      (m d : ℕ) (x : E) (items : List E) (e : E)
      → 1 ≤ m
      → m ≤ length (x ∷ items)
      → put_dropping_oldest (queue m d (x ∷ items)) e ≡ queue m (suc d) (items ++ e ∷ [])
  unfolding put_dropping_oldest full drop_oldest
  put_full m d x items e one h =
      let yes : (not (m == 0) && leb m (suc (length items))) ≡ true = ground arith in rw yes refl

  -- A queue that has been given these events since it was empty.
  pub record Holds (q : StreamQueue E) (m before : ℕ) (seen : List E) : Type 0 where
    pub sized : q.maxsize ≡ m
    pub latest : q.items ≡ drop (length seen - m) seen
    pub counted : q.dropped ≡ before + (length seen - m)

  abbrev pub next : List E → E → List E
  next seen e = seen ++ e ∷ []

  length-next : (seen : List E) (e : E) → length (next seen e) ≡ suc (length seen)
  length-next seen e = length-append seen (e ∷ []) ∙ omega arith

  room-Holds :
      (m before : ℕ) (seen items : List E) (e : E)
      → items ≡ drop (length seen - m) seen
      → length items < m
      → Holds (queue m (before + (length seen - m)) (next items e)) m before (next seen e)
  room-Holds m before seen items e h few =
      let size : length items ≡ length seen - (length seen - m) =
        ap length h ∙ length-drop (length seen - m) seen in
      let more = length-next seen e in
      let none_gone : length seen - m ≡ 0 = omega arith in
      let none_now : length (next seen e) - m ≡ 0 = omega arith in
      record {
        sized = refl;
        latest =
            ap (λ t. next t e) h
            ∙ ap (λ k. next (drop k seen) e) none_gone
            ∙ sym (ap (λ k. drop k (next seen e)) none_now);
        counted = omega arith;
      }

  full-Holds :
      (m before : ℕ) (seen : List E) (x : E) (items : List E) (e : E)
      → 1 ≤ m
      → x ∷ items ≡ drop (length seen - m) seen
      → m ≤ length (x ∷ items)
      → Holds (queue m (suc (before + (length seen - m))) (next items e)) m before (next seen e)
  full-Holds m before seen x items e one h many =
      let k = length seen - m in
      let size : suc (length items) ≡ length seen - (length seen - m) =
        ap length h ∙ length-drop (length seen - m) seen in
      let more = length-next seen e in
      let now : length (next seen e) - m ≡ suc (length seen - m) = omega arith in
      record {
        sized = refl;
        latest =
            ap (λ t. next t e) (sym (drop_next k seen items x (sym h)))
            ∙ sym (drop_append (suc k) seen (e ∷ []) (omega arith))
            ∙ sym (ap (λ j. drop j (next seen e)) now);
        counted = omega arith;
      }

  put_items :
      (m before : ℕ) (seen items : List E) (e : E)
      → 1 ≤ m
      → items ≡ drop (length seen - m) seen
      → Holds
          (put_dropping_oldest (queue m (before + (length seen - m)) items) e)
          m
          before
          (next seen e)
  put_items m before seen [] e one h =
      rw (put_room m (before + (length seen - m)) [] e (omega arith))
        (room-Holds m before seen [] e h (omega arith))
  put_items m before seen (x ∷ items) e one h = elim (Bool-cases (leb m (suc (length items)))) [
    | inl full_up ↦
        rw (put_full m (before + (length seen - m)) x items e one (ground arith))
          (full-Holds m before seen x items e one h (ground arith))
    | inr room ↦
        rw (put_room m (before + (length seen - m)) (x ∷ items) e (ground arith))
          (room-Holds m before seen (x ∷ items) e h (ground arith))
  ]

  pub put-Holds :
      (q : StreamQueue E) (m before : ℕ) (seen : List E) (e : E)
      → 1 ≤ m
      → Holds q m before seen
      → Holds (put_dropping_oldest q e) m before (next seen e)
  put-Holds q m before seen e one h =
      let same : q ≡ queue m (before + (length seen - m)) q.items =
        let a = h.sized in let b = h.counted in cc in
      subst (λ r. Holds (put_dropping_oldest r e) m before (next seen e)) (sym same)
        (put_items m before seen q.items e one h.latest)

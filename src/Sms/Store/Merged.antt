-- ===== src/Sms/Store/Merged.antt =====
-- `initialize` of callstack/sms/store.py merges what was saved while SQLite was closed with the rows
-- that are there: no row and no new message is lost.
use callstack.Prelude.{
  ℕ, suc, ◌≤◌, ◌≡◌, ◌⊎◌, refl, ap, sym, subst, ◌∙◌, true, false, ◌&&◌, List, [], ◌∷◌, Option, none,
  some, arith, ◌==◌, if◌then◌else◌, Bool-cases, Option-cases, inl, inr, ==_iff, ==_refl, if_cases,
  if_false,
}
use callstack.Sms.Types.{Sms}
use callstack.Sms.Rows.{is_key, find, IsKeyed}
use callstack.Sms.Rows.Found.{find-put, put-IsKeyed, head_absent}
use callstack.Sms.Rows.Sorted.{past_le, past_key, IsBelow}
use callstack.Sms.Store.{Pending}
use callstack.Sms.Store.Open.{has_id, is_in, discard, Merge, free_id, renumber, resolve, settle}
use callstack.Sms.Store.Free.{next_free_lem}

abbrev pub own : Pending Sms → Option ℕ
own p = p.value.id

pub has_id-find :
    {A : Type 0} (key : A → Option ℕ) (i : ℕ) (xs : List A)
    → has_id key i xs ≡ elim (find key i xs) [ none ↦ false | some x ↦ true ]
has_id-find key i [] = refl
has_id-find key i (x ∷ xs) = elim (Bool-cases (is_key (key x) i)) [
  | inl h ↦ rw h refl
  | inr h ↦ rw h (has_id-find key i xs)
]

no_id :
    {A : Type 0} (key : A → Option ℕ) (i : ℕ) (xs : List A)
    → has_id key i xs ≡ false
    → find key i xs ≡ none
no_id key i xs h = elim (Option-cases (find key i xs)) [
  | inl e ↦ e
  | inr (x, e) ↦ absurd (ground (arith, sym (has_id-find key i xs) ∙ h, e))
]

in_discard :
    (i j : ℕ) (js : List ℕ) → (j == i) ≡ false → is_in i js ≡ true → is_in i (discard j js) ≡ true
in_discard i j [] n h = h
in_discard i j (l ∷ js) n h = ground (arith, in_discard i j js)

-- What is so between the steps: distinct ids of the messages, the next id behind them, distinct ids of
-- what is still pending, and those reserved.
pub record IsMerging (ps : List (Pending Sms)) (g : Merge) : Type 0 where
  pub keyed : IsKeyed Sms.id g.loaded
  pub below : IsBelow Sms.id g.next_id g.loaded
  pub pending : IsKeyed own ps
  pub reserved : (i : ℕ) (p : Pending Sms) → find own i ps ≡ some p → is_in i g.reserved ≡ true

-- Another pending message has another id, and it is reserved.
others :
    (i j : ℕ) (p q : Pending Sms) (ps : List (Pending Sms)) (g : Merge)
    → own p ≡ some j
    → IsMerging (p ∷ ps) g
    → find own i ps ≡ some q
    → ((j == i) ≡ false) × (is_in i g.reserved ≡ true)
others i j p q ps g e h f = elim (Bool-cases (j == i)) [
  | inl s ↦ absurd (
      ground (
        arith,
        f,
        subst (λ l. find own l ps ≡ none) ((==_iff j i).0 s)
            (head_absent own j p ps h.pending (rw e (==_refl j))),
      ))
  | inr n ↦ (n, h.reserved i q (rw e (rw n f)))
]

-- The id that a pending message gets: no other has it, and branches no message has it or it is its
-- own and stays.
pub record IsResolved (p : Pending Sms) (ps : List (Pending Sms)) (g h : Merge) (i : ℕ)
    : Type 0 where
  pub loaded : h.loaded ≡ g.loaded
  pub written : h.written ≡ g.written
  pub alone : find own i ps ≡ none
  pub new_or_own : (find Sms.id i g.loaded ≡ none) ⊎ ((p.auto_assigned ≡ false) × (own p ≡ some i))
  pub next : g.next_id ≤ h.next_id
  pub reserved : (j : ℕ) (q : Pending Sms) → find own j ps ≡ some q → is_in j h.reserved ≡ true

open_case :
    (j : ℕ) (p : Pending Sms) (ps : List (Pending Sms)) (g : Merge)
    → own p ≡ some j
    → IsMerging (p ∷ ps) g
    → IsResolved p ps g (renumber j g).0 (renumber j g).1
unfolding renumber free_id
open_case j p ps g e h =
    let (unused, apart, behind) = next_free_lem Sms.id g.next_id g.loaded (discard j g.reserved) in
    let free = free_id j g in
    record {
      loaded = refl;
      written = refl;
      alone = elim (Option-cases (find own free ps)) [
        | inl none_there ↦ none_there
        | inr (q, f) ↦
            let (n, r) = others free j p q ps g e h f in
            absurd (ground (arith, sym (in_discard free j g.reserved n r) ∙ apart))
      ];
      new_or_own = inl (no_id Sms.id free g.loaded unused);
      next = omega (arith, behind);
      reserved = λ i q f.
          let (n, r) = others i j p q ps g e h f in ground (arith, in_discard i j g.reserved n r);
    }

own_case :
    (j : ℕ) (p : Pending Sms) (ps : List (Pending Sms)) (g : Merge)
    → own p ≡ some j
    → IsMerging (p ∷ ps) g
    → (find Sms.id j g.loaded ≡ none) ⊎ ((p.auto_assigned ≡ false) × (own p ≡ some j))
    → IsResolved p ps g g j
own_case j p ps g e h n = record {
  loaded = refl;
  written = refl;
  alone = head_absent own j p ps h.pending (rw e (==_refl j));
  new_or_own = n;
  next = omega arith;
  reserved = λ i q f. (others i j p q ps g e h f).1;
}

resolve-own :
    (j : ℕ) (p : Pending Sms) (g : Merge)
    → own p ≡ some j
    → resolve p g ≡ (if has_id Sms.id j g.loaded && p.auto_assigned then renumber j g else (g, j))
unfolding resolve
resolve-own j p g e =
    ap
      (λ (o : Option ℕ).
        let r : Merge × ℕ = elim o [
          | none ↦ (record g { next_id = suc g.next_id }, g.next_id)
          | some i ↦ (g, i)
        ] in
        if has_id Sms.id r.1 r.0.loaded && p.auto_assigned then renumber r.1 r.0 else r)
      e

pub resolve-IsResolved :
    (j : ℕ) (p : Pending Sms) (ps : List (Pending Sms)) (g : Merge)
    → own p ≡ some j
    → IsMerging (p ∷ ps) g
    → IsResolved p ps g (resolve p g).0 (resolve p g).1
resolve-IsResolved j p ps g e h =
    subst (λ (r : Merge × ℕ). IsResolved p ps g r.0 r.1) (sym (resolve-own j p g e))
      (if_cases (λ (r : Merge × ℕ). IsResolved p ps g r.0 r.1)
        (has_id Sms.id j g.loaded && p.auto_assigned) (λ b. open_case j p ps g e h)
        (λ b. own_case j p ps g e h (elim (Bool-cases (has_id Sms.id j g.loaded)) [
          | inl c ↦ inr (sym (ap (λ d. d && p.auto_assigned) c) ∙ b, e)
          | inr c ↦ inl (no_id Sms.id j g.loaded c)
        ])))

-- One pending message is merged.
pub step-IsMerging :
    (p : Pending Sms) (ps : List (Pending Sms)) (g h : Merge) (i : ℕ)
    → IsMerging (p ∷ ps) g
    → IsResolved p ps g h i
    → IsMerging ps (settle p.value (h, i))
unfolding settle
step-IsMerging p ps g h i m r = record {
  keyed =
      put-IsKeyed Sms.id i (record p.value { id = some i }) h.loaded refl
        (subst (IsKeyed Sms.id) (sym r.loaded) m.keyed);
  below = λ j x f. elim (Bool-cases (i == j)) [
    | inl e ↦ ground (arith, past_key h.next_id j (some i))
    | inr e ↦ omega (
      arith,
      past_le h.next_id (some i),
      r.next,
      m.below j x (
          ap (λ ms. find Sms.id j ms) (sym r.loaded)
          ∙ sym (if_false (i == j) _ _ e)
          ∙ sym (find-put Sms.id j i (record p.value { id = some i }) h.loaded refl)
          ∙ f),
    )
  ];
  pending = m.pending.1;
  reserved = r.reserved;
}

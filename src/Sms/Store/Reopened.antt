-- ===== src/Sms/Store/Reopened.antt =====
-- After `initialize` of callstack/sms/store.py: the rows and the pending messages, under which ids.
use callstack.Prelude.{
  ℕ, ◌≡◌, ◌⊎◌, refl, ap, sym, subst, ◌∙◌, Bool, true, false, not, List, [], ◌∷◌, Option, none, some,
  arith, ◌==◌, if◌then◌else◌, Bool-cases, inl, inr, ==_iff, ==_refl, if_true, if_false,
  some_injective,
}
use callstack.Sms.Types.{Sms}
use callstack.Sms.Rows.{is_key, find, IsKeyed}
use callstack.Sms.Rows.Found.{find-put, head_absent}
use callstack.Sms.Rows.Sorted.{find-sort, sort-IsKeyed, IsBelow, next_past-IsBelow}
use callstack.Sms.Store.{Pending, Store, get}
use callstack.Sms.Store.Open.{
  is_in, Merge, sort_by, resolve, settle, merge_pending, merge_all, reserved_ids, load, merged,
  open_messages,
}
use callstack.Sms.Store.Merged.{own, IsMerging, IsResolved, resolve-IsResolved, step-IsMerging}

-- A pending message that was saved under an id of the caller's replaces the row.
abbrev pub replaces : Option (Pending Sms) → Bool
replaces none = false
replaces (some p) = not p.auto_assigned

pub resolved :
    (p : Pending Sms) (ps : List (Pending Sms)) (g : Merge)
    → IsMerging (p ∷ ps) g
    → IsResolved p ps g (resolve p g).0 (resolve p g).1
resolved p ps g m = resolve-IsResolved m.pending.0.0 p ps g m.pending.0.1 m

pub merged_step :
    (p : Pending Sms) (ps : List (Pending Sms)) (g : Merge)
    → IsMerging (p ∷ ps) g
    → IsMerging ps (merge_pending p g)
unfolding merge_pending
merged_step p ps g m = step-IsMerging p ps g (resolve p g).0 (resolve p g).1 m (resolved p ps g m)

pub merge_all-IsMerging :
    (ps : List (Pending Sms)) (g : Merge) → IsMerging ps g → IsMerging [] (merge_all ps g)
merge_all-IsMerging [] g m = m
merge_all-IsMerging (p ∷ ps) g m = merge_all-IsMerging ps (merge_pending p g) (merged_step p ps g m)

-- What is found after one step.
find-merge_pending :
    (j : ℕ) (p : Pending Sms) (ps : List (Pending Sms)) (g : Merge)
    → IsMerging (p ∷ ps) g
    → find Sms.id j (merge_pending p g).loaded ≡ (
        if (resolve p g).1 == j
        then some (record p.value { id = some (resolve p g).1 })
        else find Sms.id j g.loaded)
unfolding merge_pending settle
find-merge_pending j p ps g m =
    let i = (resolve p g).1 in
    let r = resolved p ps g m in
    find-put Sms.id j i (record p.value { id = some i }) (resolve p g).0.loaded refl
    ∙ ap (λ ms. if i == j then some (record p.value { id = some i }) else find Sms.id j ms) r.loaded

kept_step :
    (j : ℕ) (x : Sms) (p : Pending Sms) (ps : List (Pending Sms)) (g : Merge)
    → IsMerging (p ∷ ps) g
    → find Sms.id j g.loaded ≡ some x
    → replaces (find own j (p ∷ ps)) ≡ false
    → find Sms.id j (merge_pending p g).loaded ≡ some x
kept_step j x p ps g m f n =
    let i = (resolve p g).1 in
    let r = resolved p ps g m in
    find-merge_pending j p ps g m ∙ elim (Bool-cases (i == j)) [
      | inr e ↦ rw e f
      | inl e ↦ elim r.new_or_own [
        | inl a ↦ absurd (
            ground
              (arith, a, subst (λ l. find Sms.id l g.loaded ≡ some x) (sym ((==_iff i j).0 e)) f))
        | inr (a, o) ↦
            let t : replaces (find own j (p ∷ ps)) ≡ true = rw o (rw (e, a) refl) in
            absurd (ground (arith, sym t ∙ n))
      ]
    ]

kept_rest :
    (j : ℕ) (p : Pending Sms) (ps : List (Pending Sms))
    → IsKeyed own (p ∷ ps)
    → replaces (find own j (p ∷ ps)) ≡ false
    → replaces (find own j ps) ≡ false
kept_rest j p ps k n = elim (Bool-cases (is_key (own p) j)) [
  | inl h ↦ rw (head_absent own j p ps k h) refl
  | inr h ↦ sym (rw h refl) ∙ n
]

kept_all :
    (j : ℕ) (x : Sms) (ps : List (Pending Sms)) (g : Merge)
    → IsMerging ps g
    → find Sms.id j g.loaded ≡ some x
    → replaces (find own j ps) ≡ false
    → find Sms.id j (merge_all ps g).loaded ≡ some x
kept_all j x [] g m f n = f
kept_all j x (p ∷ ps) g m f n =
    kept_all j x ps (merge_pending p g) (merged_step p ps g m) (kept_step j x p ps g m f n)
      (kept_rest j p ps m.pending n)

-- The message is there, under an id that no message had or under the caller's.
abbrev pub IsArrived : Pending Sms → ℕ → List Sms → List Sms → Type 0
IsArrived p k rows ms =
    (j : ℕ) × (find Sms.id j ms ≡ some (record p.value { id = some j }))
    × ((find Sms.id j rows ≡ none) ⊎ ((p.auto_assigned ≡ false) × (j ≡ k)))

fresh_before :
    (j : ℕ) (p : Pending Sms) (ps : List (Pending Sms)) (g : Merge)
    → IsMerging (p ∷ ps) g
    → find Sms.id j (merge_pending p g).loaded ≡ none
    → find Sms.id j g.loaded ≡ none
fresh_before j p ps g m f = elim (Bool-cases ((resolve p g).1 == j)) [
  | inl e ↦ absurd (ground (arith, sym (if_true _ _ _ e) ∙ sym (find-merge_pending j p ps g m) ∙ f))
  | inr e ↦ sym (if_false _ _ _ e) ∙ sym (find-merge_pending j p ps g m) ∙ f
]

merge_pending-IsArrived :
    (p : Pending Sms) (ps : List (Pending Sms)) (g : Merge)
    → (m : IsMerging (p ∷ ps) g)
    → IsArrived p m.pending.0.0 g.loaded (merge_all ps (merge_pending p g)).loaded
merge_pending-IsArrived p ps g m =
    let i = (resolve p g).1 in
    let r = resolved p ps g m in
    let put_there : find Sms.id i (merge_pending p g).loaded
        ≡ some (record p.value { id = some i }) =
      find-merge_pending i p ps g m ∙ if_true (i == i) _ _ (==_refl i) in
    (
      i,
      kept_all i (record p.value { id = some i }) ps (merge_pending p g) (merged_step p ps g m)
          put_there (rw r.alone refl),
      elim r.new_or_own [
        | inl a ↦ inl a
        | inr (a, o) ↦ inr (a, some_injective i m.pending.0.0 (sym o ∙ m.pending.0.1))
      ],
    )

merge_all-IsArrived :
    (k : ℕ) (q : Pending Sms) (ps : List (Pending Sms)) (g : Merge)
    → IsMerging ps g
    → find own k ps ≡ some q
    → IsArrived q k g.loaded (merge_all ps g).loaded
merge_all-IsArrived k q [] g m f = absurd (ground arith)
merge_all-IsArrived k q (p ∷ ps) g m f = elim (Bool-cases (is_key (own p) k)) [
  | inl h ↦
      let same : m.pending.0.0 ≡ k =
        (==_iff m.pending.0.0 k).0 (sym (ap (λ o. is_key o k) m.pending.0.1) ∙ h) in
      subst (λ x. IsArrived x k g.loaded (merge_all (p ∷ ps) g).loaded)
        (some_injective p q (sym (if_true _ _ _ h) ∙ f))
        (subst (λ l. IsArrived p l g.loaded (merge_all (p ∷ ps) g).loaded) same
          (merge_pending-IsArrived p ps g m))
  | inr h ↦
      let (j, there, new) =
        merge_all-IsArrived k q ps (merge_pending p g) (merged_step p ps g m)
          (sym (rw h refl) ∙ f) in
      (j, there, elim new [ inl a ↦ inl (fresh_before j p ps g m a) | inr b ↦ inr b ])
]

reserved_lem :
    (i : ℕ) (q : Pending Sms) (ps : List (Pending Sms))
    → IsKeyed own ps
    → find own i ps ≡ some q
    → is_in i (reserved_ids ps) ≡ true
reserved_lem i q [] k f = absurd (ground arith)
reserved_lem i q (p ∷ ps) ((j, e, n), k) f = rw e (elim (Bool-cases (j == i)) [
  | inl h ↦ rw h refl
  | inr h ↦ rw h (
      reserved_lem i q ps k
        (sym (if_false (is_key (own p) i) _ _ (ap (λ o. is_key o i) e ∙ h)) ∙ f))
])

-- The store as it is closed: distinct ids of the rows and of what is pending.
pub record IsClosed (s : Store) : Type 0 where
  pub rows : IsKeyed Sms.id s.database.messages
  pub pending : IsKeyed own s.pending_saves

pub load-IsMerging :
    (s : Store) → IsClosed s → IsMerging s.pending_saves (load s.database.messages s.pending_saves)
unfolding load
load-IsMerging s c = record {
  keyed = sort-IsKeyed Sms.id s.database.messages c.rows;
  below = next_past-IsBelow Sms.id 1 (sort_by Sms.id s.database.messages);
  pending = c.pending;
  reserved = λ i p f. reserved_lem i p s.pending_saves c.pending f;
}

pub merged-IsMerging : (s : Store) → IsClosed s → IsMerging [] (merged s)
unfolding merged
merged-IsMerging s c = merge_all-IsMerging s.pending_saves _ (load-IsMerging s c)

-- The sorted messages under an id are those that were merged.
pub get-open_messages :
    (i : ℕ) (s : Store) → IsClosed s → get i (open_messages s) ≡ find Sms.id i (merged s).loaded
unfolding get open_messages
get-open_messages i s c = find-sort Sms.id i (merged s).loaded (merged-IsMerging s c).keyed

-- When a store opens whose rows have distinct ids, and so has what is pending, every row is still
-- found under its id, but for those that the caller had saved again under an id of its own.
pub open_messages-row :
    (i : ℕ) (m : Sms) (s : Store)
    → IsClosed s
    → find Sms.id i s.database.messages ≡ some m
    → replaces (find own i s.pending_saves) ≡ false
    → get i (open_messages s) ≡ some m
unfolding load merged
open_messages-row i m s c f n =
    get-open_messages i s c
    ∙ kept_all i m s.pending_saves (load s.database.messages s.pending_saves) (load-IsMerging s c)
        (find-sort Sms.id i s.database.messages c.rows ∙ f) n

-- Where the rows have distinct ids, and so has what is pending, every message that was saved while the
-- store was closed is there when it opens: under an id that no row has, or under the one that the
-- caller had given it.
pub open_messages-pending :
    (k : ℕ) (p : Pending Sms) (s : Store)
    → IsClosed s
    → find own k s.pending_saves ≡ some p
    → IsArrived p k s.database.messages (open_messages s).messages
unfolding load merged open_messages
open_messages-pending k p s c f =
    let g = load s.database.messages s.pending_saves in
    let (j, there, new) = merge_all-IsArrived k p s.pending_saves g (load-IsMerging s c) f in
    (
      j,
      find-sort Sms.id j (merged s).loaded (merged-IsMerging s c).keyed ∙ there,
      elim new [
        | inl a ↦ inl (sym (find-sort Sms.id j s.database.messages c.rows) ∙ a)
        | inr b ↦ inr b
      ],
    )

-- No two messages have the same id then, and the next id is behind all of them.
pub open_messages-IsBelow :
    (s : Store)
    → IsClosed s
    → IsKeyed Sms.id (open_messages s).messages
      × IsBelow Sms.id (open_messages s).next_id (open_messages s).messages
unfolding open_messages
open_messages-IsBelow s c =
    let m = merged-IsMerging s c in
    (
      sort-IsKeyed Sms.id (merged s).loaded m.keyed,
      λ i x f. m.below i x (sym (find-sort Sms.id i (merged s).loaded m.keyed) ∙ f),
    )

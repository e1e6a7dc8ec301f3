-- ===== src/Reassembly/Invariant.antt =====
-- What holds of the accumulator between calls.
use callstack.Prelude.{
  ℕ, ◌+◌, ◌≤◌, ◌<◌, ◌≡◌, refl, sym, subst, ◌∙◌, [], ◌∷◌, arith, some, length, ltb, Bool-cases, inl,
  inr, ltb→lt,
}
use native.Mathlib.Nat.{le_trans}
use callstack.Reassembly.{
  GroupKey, PendingGroup, MultipartAccumulator, key_eq, lookup_group, store_group, delete_group,
  pop_oldest, is_expired, expire_groups, Added, settle,
}
use callstack.Reassembly.Parts.{Distinct, InRange, join_full}
use callstack.Reassembly.Groups.{
  Table, key_eq_sound, key_eq_refl, key_ne_sym, lookup-store_ne, lookup-expire_none, UniqueKeys,
  lookup-delete_ne,
}

-- A group under its key: its parts are distinct, in range, at least one and not yet all.
pub record IsPending (k : GroupKey) (g : PendingGroup) : Type 0 where
  pub keyed : g.total_parts ≡ k.total_parts
  pub distinct : Distinct g.parts
  pub in_range : InRange g.total_parts g.parts
  pub started : 1 ≤ length g.parts
  pub unfinished : length g.parts < g.total_parts

abbrev pub AllPending : Table → Type 0
AllPending [] = Unit
AllPending ((k, g) ∷ m) = IsPending k g × AllPending m

pub record IsAccumulator (a : MultipartAccumulator) : Type 0 where
  pub aged : 1 ≤ a.max_age
  pub roomy : 1 ≤ a.max_groups
  pub bounded : length a.pending ≤ a.max_groups
  pub unique : UniqueKeys a.pending
  pub groups : AllPending a.pending

-- Expiry only removes entries.
pub length-expire :
    (age now : ℕ) (m : Table)
    → length (expire_groups age now m).0 + (expire_groups age now m).1 ≡ length m
unfolding expire_groups
length-expire age now [] = refl
length-expire age now ((k, g) ∷ m) = ground (arith, length-expire age now m)

pub expire-UniqueKeys :
    (age now : ℕ) (m : Table) → UniqueKeys m → UniqueKeys (expire_groups age now m).0
unfolding expire_groups
expire-UniqueKeys age now [] u = tt
expire-UniqueKeys age now ((k, g) ∷ m) u = elim (Bool-cases (is_expired age now g)) [
  | inl e ↦ rw (e, expire_groups) (expire-UniqueKeys age now m u.1)
  | inr e ↦
      rw (e, expire_groups) (lookup-expire_none age now k m u.0, expire-UniqueKeys age now m u.1)
]

pub expire-AllPending :
    (age now : ℕ) (m : Table) → AllPending m → AllPending (expire_groups age now m).0
unfolding expire_groups
expire-AllPending age now [] p = tt
expire-AllPending age now ((k, g) ∷ m) p = elim (Bool-cases (is_expired age now g)) [
  | inl e ↦ rw (e, expire_groups) (expire-AllPending age now m p.1)
  | inr e ↦ rw (e, expire_groups) (p.0, expire-AllPending age now m p.1)
]

pub lookup-AllPending :
    (k : GroupKey) (g : PendingGroup) (m : Table)
    → AllPending m
    → lookup_group k m ≡ some g
    → IsPending k g
unfolding lookup_group
lookup-AllPending k g [] p h = absurd (cc)
lookup-AllPending k g ((j, x) ∷ m) p h = elim (Bool-cases (key_eq k j)) [
  | inl e ↦
      let same : k ≡ j = key_eq_sound k j e in
      let at : x ≡ g = ground arith in
      subst (IsPending k) at (subst (λ i. IsPending i x) (sym same) p.0)
  | inr e ↦ lookup-AllPending k g m p.1 (ground arith)
]

pub pop-lem :
    (m : Table)
    → UniqueKeys m
    → AllPending m
    → UniqueKeys (pop_oldest m) × AllPending (pop_oldest m)
unfolding pop_oldest
pop-lem [] u p = (tt, tt)
pop-lem (e ∷ m) u p = (u.1, p.1)

store-UniqueKeys :
    (k : GroupKey) (g : PendingGroup) (m : Table) → UniqueKeys m → UniqueKeys (store_group k g m)
unfolding store_group lookup_group
store-UniqueKeys k g [] u = (refl, tt)
store-UniqueKeys k g ((j, x) ∷ m) u = elim (Bool-cases (key_eq k j)) [
  | inl e ↦ rw (e, store_group) u
  | inr e ↦
      rw (e, store_group)
        (lookup-store_ne k j g m (key_ne_sym k j e) ∙ u.0, store-UniqueKeys k g m u.1)
]

delete-UniqueKeys : (k : GroupKey) (m : Table) → UniqueKeys m → UniqueKeys (delete_group k m)
unfolding delete_group
delete-UniqueKeys k [] u = tt
delete-UniqueKeys k ((j, x) ∷ m) u = elim (Bool-cases (key_eq k j)) [
  | inl e ↦ rw (e, delete_group) u.1
  | inr e ↦
      rw (e, delete_group)
        (lookup-delete_ne k j m (key_ne_sym k j e) ∙ u.0, delete-UniqueKeys k m u.1)
]

store-AllPending :
    (k : GroupKey) (g : PendingGroup) (m : Table)
    → IsPending k g
    → AllPending m
    → AllPending (store_group k g m)
unfolding store_group
store-AllPending k g [] pg p = (pg, tt)
store-AllPending k g ((j, x) ∷ m) pg p = elim (Bool-cases (key_eq k j)) [
  | inl e ↦
      let same : k ≡ j = key_eq_sound k j e in
      rw (e, store_group) (subst (λ i. IsPending i g) same pg, p.1)
  | inr e ↦ rw (e, store_group) (p.0, store-AllPending k g m pg p.1)
]

-- Storing under a key and deleting it leaves no more than there was.
delete-store_lem :
    (k : GroupKey) (g : PendingGroup) (m : Table)
    → AllPending m
    → AllPending (delete_group k (store_group k g m))
      × (length (delete_group k (store_group k g m)) ≤ length m)
unfolding store_group delete_group
delete-store_lem k g [] p = rw (key_eq_refl k) (tt, omega arith)
delete-store_lem k g ((j, x) ∷ m) p =
    let (rest, size) = delete-store_lem k g m p.1 in
    elim (Bool-cases (key_eq k j)) [
      | inl e ↦ rw (e, store_group) (rw (e, delete_group) (p.1, omega arith))
      | inr e ↦ rw (e, store_group) (rw (e, delete_group) ((p.0, rest), omega arith))
    ]

pub length-store :
    (k : GroupKey) (g : PendingGroup) (m : Table) → length (store_group k g m) ≤ length m + 1
unfolding store_group
length-store k g [] = omega arith
length-store k g ((j, x) ∷ m) = ground (arith, length-store k g m)

pub length-store_found :
    (k : GroupKey) (g h : PendingGroup) (m : Table)
    → lookup_group k m ≡ some h
    → length (store_group k g m) ≡ length m
unfolding store_group lookup_group
length-store_found k g h [] e = absurd (cc)
length-store_found k g h ((j, x) ∷ m) e = ground (arith, length-store_found k g h m)

-- A call ends in a state that keeps the invariant and the configuration, or refuses the fragment
-- with the state as it was; it never misses a part.
abbrev pub Keeps : MultipartAccumulator → Added → Type 0
Keeps a Added.invalid = Unit
Keeps a Added.missing_part = ⊥
Keeps a (Added.incomplete b) =
    IsAccumulator b × (b.max_age ≡ a.max_age) × (b.max_groups ≡ a.max_groups)
Keeps a (Added.complete b t) =
    IsAccumulator b × (b.max_age ≡ a.max_age) × (b.max_groups ≡ a.max_groups)

module _ (a : MultipartAccumulator) (k : GroupKey) (g : PendingGroup) (m : Table) where
  pub settle-Keeps :
      1 ≤ a.max_age
      → 1 ≤ a.max_groups
      → g.total_parts ≡ k.total_parts
      → Distinct g.parts
      → InRange g.total_parts g.parts
      → 1 ≤ length g.parts
      → UniqueKeys m
      → AllPending m
      → length m ≤ a.max_groups
      → length (store_group k g m) ≤ a.max_groups
      → Keeps a (settle a k g m)
  unfolding settle
  settle-Keeps aged roomy keyed d r started u p fits fits' =
      elim (Bool-cases (ltb (length g.parts) g.total_parts)) [
        | inl e ↦
            rw (e, settle)
              (
                record {
                  aged = aged;
                  roomy = roomy;
                  bounded = fits';
                  unique = store-UniqueKeys k g m u;
                  groups =
                      store-AllPending k g m
                        (record {
                          keyed = keyed;
                          distinct = d;
                          in_range = r;
                          started = started;
                          unfinished = ltb→lt _ _ e;
                        })
                        p;
                },
                refl,
                refl,
              )
        | inr e ↦
            let (t, joined) = join_full g.total_parts g.parts d r (ground arith) in
            let (all, size) = delete-store_lem k g m p in
            rw (e, joined, settle)
              (
                record {
                  aged = aged;
                  roomy = roomy;
                  bounded = le_trans size fits;
                  unique = delete-UniqueKeys k (store_group k g m) (store-UniqueKeys k g m u);
                  groups = all;
                },
                refl,
                refl,
              )
      ]

-- ===== src/Reassembly/Groups.antt =====
-- The table of pending groups.
use callstack.Prelude.{
  ℕ, ◌+◌, ◌<◌, ◌≡◌, refl, ap, sym, ◌∙◌, true, false, List, [], ◌∷◌, arith, none, some, Bool-cases,
  inl, inr, text_eq_sound, text_eq_refl,
}
use callstack.Reassembly.{
  GroupKey, PendingGroup, key_eq, lookup_group, store_group, delete_group, is_expired,
  expire_groups,
}

abbrev pub Table : Type 0
Table = List (GroupKey × PendingGroup)

pub key_eq_sound : (a b : GroupKey) → key_eq a b ≡ true → a ≡ b
unfolding key_eq
key_eq_sound a b h =
    let p : a.sender ≡ b.sender = text_eq_sound a.sender b.sender (ground arith) in
    let q : a.reference ≡ b.reference = ground arith in
    let r : a.total_parts ≡ b.total_parts = ground arith in
    let w : a.is_16bit ≡ b.is_16bit = ground arith in
    λ i. record { sender = p i; reference = q i; total_parts = r i; is_16bit = w i }

pub key_eq_refl : (a : GroupKey) → key_eq a a ≡ true
unfolding key_eq
key_eq_refl a = ground (arith, text_eq_refl a.sender)

pub key_ne_sym : (a b : GroupKey) → key_eq a b ≡ false → key_eq b a ≡ false
key_ne_sym a b h = elim (Bool-cases (key_eq b a)) [
  | inl e ↦
      let same : b ≡ a = key_eq_sound b a e in absurd (cc (h, key_eq_refl a, ap (key_eq a) same))
  | inr e ↦ e
]

pub lookup-store_self :
    (k : GroupKey) (g : PendingGroup) (m : Table) → lookup_group k (store_group k g m) ≡ some g
unfolding lookup_group store_group
lookup-store_self k g [] = ground (arith, key_eq_refl k)
lookup-store_self k g ((j, h) ∷ m) = ground (arith, lookup-store_self k g m)

-- Another key's entry is left alone.
pub lookup-store_ne :
    (k j : GroupKey) (g : PendingGroup) (m : Table)
    → key_eq j k ≡ false
    → lookup_group j (store_group k g m) ≡ lookup_group j m
unfolding lookup_group store_group
lookup-store_ne k j g [] h = ground arith
lookup-store_ne k j g ((i, x) ∷ m) h = elim (Bool-cases (key_eq k i)) [
  | inl e ↦
      let same : k ≡ i = key_eq_sound k i e in
      let no_match : key_eq j i ≡ false = ap (key_eq j) (sym same) ∙ h in ground arith
  | inr e ↦ ground (arith, lookup-store_ne k j g m h)
]

pub lookup-expire :
    (max_age now : ℕ) (k : GroupKey) (g : PendingGroup) (m : Table)
    → lookup_group k m ≡ some g
    → is_expired max_age now g ≡ false
    → lookup_group k (expire_groups max_age now m).0 ≡ some g
unfolding lookup_group expire_groups
lookup-expire max_age now k g [] h live = cc
lookup-expire max_age now k g ((j, x) ∷ m) h live = ground (arith, lookup-expire max_age now k g m)

pub lookup-expire_none :
    (max_age now : ℕ) (k : GroupKey) (m : Table)
    → lookup_group k m ≡ none
    → lookup_group k (expire_groups max_age now m).0 ≡ none
unfolding lookup_group expire_groups
lookup-expire_none max_age now k [] h = refl
lookup-expire_none max_age now k ((j, x) ∷ m) h = ground (arith, lookup-expire_none max_age now k m)

-- What is left after expiry is younger than the limit.
pub expire_young :
    (max_age now : ℕ) (k : GroupKey) (g : PendingGroup) (m : Table)
    → lookup_group k (expire_groups max_age now m).0 ≡ some g
    → now < g.first_seen + max_age
unfolding lookup_group expire_groups is_expired
expire_young max_age now k g [] h = absurd (cc)
expire_young max_age now k g ((j, x) ∷ m) h = ground (arith, expire_young max_age now k g m)

-- No two entries have the same key.
abbrev pub UniqueKeys : Table → Type 0
UniqueKeys [] = Unit
UniqueKeys ((k, g) ∷ m) = (lookup_group k m ≡ none) × UniqueKeys m

pub lookup-delete_self :
    (k : GroupKey) (m : Table) → UniqueKeys m → lookup_group k (delete_group k m) ≡ none
unfolding lookup_group delete_group
lookup-delete_self k [] u = refl
lookup-delete_self k ((j, g) ∷ m) u = elim (Bool-cases (key_eq k j)) [
  | inl e ↦ let same : k ≡ j = key_eq_sound k j e in ground (arith, ap (λ i. lookup_group i m) same)
  | inr e ↦ ground (arith, lookup-delete_self k m u.1)
]

pub lookup-delete_ne :
    (k j : GroupKey) (m : Table)
    → key_eq j k ≡ false
    → lookup_group j (delete_group k m) ≡ lookup_group j m
unfolding lookup_group delete_group
lookup-delete_ne k j [] h = refl
lookup-delete_ne k j ((i, g) ∷ m) h = elim (Bool-cases (key_eq k i)) [
  | inl e ↦
      let same : k ≡ i = key_eq_sound k i e in
      let no_match : key_eq j i ≡ false = ap (key_eq j) (sym same) ∙ h in ground arith
  | inr e ↦ ground (arith, lookup-delete_ne k j m h)
]

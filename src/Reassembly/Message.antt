-- ===== src/Reassembly/Message.antt =====
-- One fragment of a message, and the group that tracks the message.
use callstack.Prelude.{
  ℕ, ◌+◌, ◌≤◌, ◌<◌, ◌≡◌, refl, ap, ◌∙◌, Bool, true, false, not, List, [], ◌∷◌, arith, none, some,
  Text, length, ltb, Bool-cases, inl, inr,
}
use callstack.Pdu.Udh.{MultipartInfo}
use callstack.Reassembly.{
  GroupKey, PendingGroup, MultipartAccumulator, validate_multipart_info, lookup_group, lookup_part,
  make_room, is_expired, expire_groups, put_part, join_parts, Added, find_group, settle, add_part,
}
use callstack.Reassembly.Parts.{Distinct, InRange, put_part-Distinct, put_part-InRange}
use callstack.Reassembly.Covers.{covers, whole, Holds, put_part-Holds, full-covers, join-whole}
use callstack.Reassembly.Groups.{Table, lookup-store_self, lookup-expire, lookup-expire_none}

-- A message in parts: what its fragments say, and the body of each.
pub record Message : Type 0 where
  pub sender : Text
  pub reference : ℕ
  pub total_parts : ℕ
  pub is_16bit : Bool
  pub body : ℕ → Text

abbrev pub fragment : Message → ℕ → MultipartInfo
fragment x s = record {
  reference = x.reference;
  total_parts = x.total_parts;
  sequence = s;
  is_16bit = x.is_16bit;
}

abbrev pub message_key : Message → GroupKey
message_key x = record {
  sender = x.sender;
  reference = x.reference;
  total_parts = x.total_parts;
  is_16bit = x.is_16bit;
}

-- A group that holds the fragments seen, from the time of the first.
pub record Tracks (x : Message) (first : ℕ) (seen : List ℕ) (g : PendingGroup) : Type 0 where
  pub keyed : g.total_parts ≡ x.total_parts
  pub since : g.first_seen ≡ first
  pub distinct : Distinct g.parts
  pub in_range : InRange x.total_parts g.parts
  pub holds : Holds g.parts x.body seen

-- The table has the group of the message.
abbrev pub Open : Message → ℕ → List ℕ → Table → Type 0
Open x first seen m =
    (g : PendingGroup) × (lookup_group (message_key x) m ≡ some g) × Tracks x first seen g

-- The group after one more fragment.
abbrev grown : Message → ℕ → PendingGroup → PendingGroup
grown x s g = record g { parts = put_part s (x.body s) g.parts }

grown-Tracks :
    (x : Message) (first s : ℕ) (seen : List ℕ) (g : PendingGroup)
    → 1 ≤ s
    → s ≤ x.total_parts
    → Tracks x first seen g
    → Tracks x first (s ∷ seen) (grown x s g)
grown-Tracks x first s seen g lo hi t = record {
  keyed = t.keyed;
  since = t.since;
  distinct = put_part-Distinct s (x.body s) g.parts t.distinct;
  in_range = put_part-InRange x.total_parts s (x.body s) g.parts lo hi t.in_range;
  holds = put_part-Holds g.parts x.body seen s t.holds;
}

-- What one fragment leads to.
abbrev pub Outcome : Message → ℕ → List ℕ → MultipartAccumulator → Added → Type 0
Outcome x first seen a Added.invalid = ⊥
Outcome x first seen a Added.missing_part = ⊥
Outcome x first seen a (Added.incomplete b) =
    (covers seen x.total_parts ≡ false) × Open x first seen b.pending × (b.max_age ≡ a.max_age)
Outcome x first seen a (Added.complete b t) =
    (covers seen x.total_parts ≡ true) × (t ≡ whole x.body 1 x.total_parts)

settle_lem :
    (a : MultipartAccumulator) (x : Message) (first : ℕ) (seen : List ℕ) (g : PendingGroup)
    (m : Table)
    → Tracks x first seen g
    → Outcome x first seen a (settle a (message_key x) g m)
unfolding settle
settle_lem a x first seen g m t =
    let full : ltb (length g.parts) g.total_parts ≡ not (covers seen x.total_parts) =
      rw t.keyed (full-covers x.total_parts g.parts x.body seen t.distinct t.in_range t.holds) in
    elim (Bool-cases (covers seen x.total_parts)) [
      | inl c ↦
          let joined : join_parts g.parts 1 g.total_parts ≡ some (whole x.body 1 x.total_parts) =
            rw t.keyed (join-whole x.total_parts g.parts x.body seen t.holds c) in
          rw (full ∙ ap not c, settle) (rw joined (c, refl))
      | inr c ↦
          rw (full ∙ ap not c, settle) (c, (g, lookup-store_self (message_key x) g m, t), refl)
    ]

valid_number :
    (x : Message) (s : ℕ)
    → validate_multipart_info (fragment x s) ≡ true
    → (1 ≤ s) × (s ≤ x.total_parts)
unfolding validate_multipart_info
valid_number x s h = ground arith

module _ (a : MultipartAccumulator) (x : Message) (s now : ℕ)
    (valid : validate_multipart_info (fragment x s) ≡ true) where
  pub add_fresh :
      lookup_group (message_key x) a.pending ≡ none
      → Outcome x now (s ∷ []) a (add_part a x.sender (fragment x s) (x.body s) now)
  unfolding add_part find_group
  add_fresh none_yet =
      let k = message_key x in
      let m = (expire_groups a.max_age now a.pending).0 in
      let gone = lookup-expire_none a.max_age now k a.pending none_yet in
      let (lo, hi) = valid_number x s valid in
      let g : PendingGroup = record { total_parts = x.total_parts; first_seen = now; parts = [] } in
      rw (valid, add_part)
        (rw (gone, find_group)
          (settle_lem a x now (s ∷ []) (grown x s g) (make_room a.max_groups m) (
            grown-Tracks x now s [] g lo hi (record {
              keyed = refl;
              since = refl;
              distinct = tt;
              in_range = tt;
              holds = λ r. unfold lookup_part in refl;
            }))))

  pub add_tracked :
      (first : ℕ) (seen : List ℕ) (g : PendingGroup)
      → lookup_group (message_key x) a.pending ≡ some g
      → Tracks x first seen g
      → now < first + a.max_age
      → Outcome x first (s ∷ seen) a (add_part a x.sender (fragment x s) (x.body s) now)
  unfolding add_part find_group is_expired
  add_tracked first seen g found t young =
      let k = message_key x in
      let m = (expire_groups a.max_age now a.pending).0 in
      let since = t.since in
      let live : is_expired a.max_age now g ≡ false = ground arith in
      let kept = lookup-expire a.max_age now k g a.pending found live in
      let (lo, hi) = valid_number x s valid in
      rw (valid, add_part)
        (rw (kept, find_group)
          (settle_lem a x first (s ∷ seen) (grown x s g) m (grown-Tracks x first s seen g lo hi t)))

-- ===== src/Reassembly/AddPart.antt =====
-- `add_part` and `expire` keep the invariant.
use callstack.Prelude.{
  ℕ, ◌+◌, ◌≤◌, ◌<◌, ◌≡◌, refl, true, [], ◌∷◌, arith, some, Text, length, leb, Bool-cases,
  Option-cases, inl, inr,
}
use callstack.Pdu.Udh.{MultipartInfo}
use callstack.Reassembly.{
  GroupKey, PendingGroup, MultipartAccumulator, validate_multipart_info, lookup_group, pop_oldest,
  make_room, is_expired, expire_groups, expire, put_part, key_of, find_group, add_part,
}
use callstack.Reassembly.Parts.{put_part-Distinct, put_part-InRange, length-put_part}
use callstack.Reassembly.Groups.{Table, UniqueKeys, lookup-expire, expire_young}
use callstack.Reassembly.Invariant.{
  AllPending, IsAccumulator, length-expire, expire-UniqueKeys, expire-AllPending, lookup-AllPending,
  length-store, length-store_found, Keeps, settle-Keeps,
}

valid_sequence :
    (info : MultipartInfo)
    → validate_multipart_info info ≡ true
    → (1 ≤ info.sequence) × (info.sequence ≤ info.total_parts)
unfolding validate_multipart_info
valid_sequence info h = ground arith

make_room_lem :
    (max : ℕ) (m : Table)
    → 1 ≤ max
    → length m ≤ max
    → UniqueKeys m
    → AllPending m
    → UniqueKeys (make_room max m)
      × AllPending (make_room max m)
      × (length (make_room max m) + 1 ≤ max)
unfolding make_room pop_oldest
make_room_lem max [] h l u p = (ground arith, ground arith, ground arith)
make_room_lem max (e ∷ m) h l u p = elim (Bool-cases (leb max (length (e ∷ m)))) [
  | inl full ↦ rw full (u.1, p.1, omega arith)
  | inr room ↦ rw room (u, p, ground arith)
]

-- From a state that keeps the invariant, every call of `add_part` ends in one that does: no key
-- twice, no more groups than the limit, and in every group distinct numbers from 1 to its number of
-- parts, at least one part and not all. It leaves the configuration as it is and never raises a
-- `KeyError` for a missing part.
pub add_part-Keeps :
    (a : MultipartAccumulator) (sender : Text) (info : MultipartInfo) (body : Text) (now : ℕ)
    → IsAccumulator a
    → Keeps a (add_part a sender info body now)
unfolding add_part find_group
add_part-Keeps a sender info body now h = elim (Bool-cases (validate_multipart_info info)) [
  | inr e ↦ rw (e, add_part) tt
  | inl e ↦
      let (first, last) = valid_sequence info e in
      let k = key_of sender info in
      let m = (expire_groups a.max_age now a.pending).0 in
      let u = expire-UniqueKeys a.max_age now a.pending h.unique in
      let p = expire-AllPending a.max_age now a.pending h.groups in
      let size : length m ≤ a.max_groups =
        let b = h.bounded in omega (arith, length-expire a.max_age now a.pending) in
      elim (Option-cases (lookup_group k m)) [
        | inr (g, found) ↦
            let pg = lookup-AllPending k g m p found in
            let q = record g { parts = put_part info.sequence body g.parts } in
            rw (e, add_part)
              (rw (found, find_group)
                (settle-Keeps a k q m h.aged h.roomy pg.keyed
                  (put_part-Distinct info.sequence body g.parts pg.distinct)
                  (put_part-InRange g.total_parts info.sequence body g.parts first
                    (let kd = pg.keyed in omega arith) pg.in_range)
                  (length-put_part info.sequence body g.parts) u p size
                  (rw (length-store_found k q g m found) size)))
        | inl fresh ↦
            let q : PendingGroup = record {
              total_parts = k.total_parts;
              first_seen = now;
              parts = put_part info.sequence body [];
            } in
            let m' = make_room a.max_groups m in
            let (u', p', size') = make_room_lem a.max_groups m h.roomy size u p in
            rw (e, add_part)
              (rw (fresh, find_group)
                (settle-Keeps a k q m' h.aged h.roomy refl
                  (put_part-Distinct info.sequence body [] tt)
                  (put_part-InRange k.total_parts info.sequence body [] first last tt)
                  (length-put_part info.sequence body []) u' p' (omega arith)
                  (let stored = length-store k q m' in omega arith)))
      ]
]

-- `expire` keeps the invariant and returns how many groups it removed; it leaves every group that is
-- younger than the limit as it is, and no other.
pub expire_lem :
    (a : MultipartAccumulator) (now : ℕ)
    → IsAccumulator a
    → IsAccumulator (expire a now).0
      × (length (expire a now).0.pending + (expire a now).1 ≡ length a.pending)
      × ((k : GroupKey) (g : PendingGroup)
          → lookup_group k a.pending ≡ some g
          → now < g.first_seen + a.max_age
          → lookup_group k (expire a now).0.pending ≡ some g)
      × ((k : GroupKey) (g : PendingGroup)
          → lookup_group k (expire a now).0.pending ≡ some g
          → now < g.first_seen + a.max_age)
unfolding expire is_expired
expire_lem a now h =
    let size = length-expire a.max_age now a.pending in
    (
      record {
        aged = h.aged;
        roomy = h.roomy;
        bounded = let b = h.bounded in omega arith;
        unique = expire-UniqueKeys a.max_age now a.pending h.unique;
        groups = expire-AllPending a.max_age now a.pending h.groups;
      },
      size,
      λ k g found young. lookup-expire a.max_age now k g a.pending found (ground arith),
      λ k g found. expire_young a.max_age now k g a.pending found,
    )

-- ===== src/Reassembly.antt =====
-- callstack/sms/reassembly.py: `MultipartAccumulator`. The pending groups are an association list
-- in the order of insertion, oldest first, and so are the parts of a group. Times are natural
-- numbers of one monotonic clock and the tests on Python's types are the model's types; a
-- `ValueError` is `invalid` or `none`, and leaves the state as it was.
pub mod Parts
pub mod Covers
pub mod Groups
pub mod Invariant
pub mod AddPart
pub mod Message
pub mod Delivery
use callstack.Prelude.{
  ℕ, zero, suc, ◌+◌, Bool, true, false, not, ◌&&◌, ◌||◌, List, [], ◌∷◌, ◌++◌, Option, none, some,
  Text, text_eq, length, ltb, leb, ◌==◌, if◌then◌else◌, ◌>>=◌,
}
use callstack.Pdu.Udh.{MultipartInfo}

-- `_GroupKey`
pub record GroupKey : Type 0 where
  pub sender : Text
  pub reference : ℕ
  pub total_parts : ℕ
  pub is_16bit : Bool

-- `_PendingGroup`
pub record PendingGroup : Type 0 where
  pub total_parts : ℕ
  pub first_seen : ℕ
  pub parts : List (ℕ × Text)

pub record MultipartAccumulator : Type 0 where
  pub max_age : ℕ
  pub max_groups : ℕ
  pub pending : List (GroupKey × PendingGroup)

-- `__init__`, with `_validate_max_age` and `_validate_max_groups`.
unfoldable pub new_accumulator : ℕ → ℕ → Option MultipartAccumulator
new_accumulator max_age max_groups =
    if (max_age == 0) || (max_groups == 0)
    then none
    else some (record { max_age = max_age; max_groups = max_groups; pending = [] })

-- `_validate_multipart_info`
unfoldable pub validate_multipart_info : MultipartInfo → Bool
validate_multipart_info info =
    (leb 1 info.total_parts && leb info.total_parts 255)
    && (leb 1 info.sequence && leb info.sequence info.total_parts)
    && leb info.reference (if info.is_16bit then 65535 else 255)

abbrev same_bool : Bool → Bool → Bool
same_bool true b = b
same_bool false b = not b

unfoldable pub key_eq : GroupKey → GroupKey → Bool
key_eq a b =
    text_eq a.sender b.sender
    && (a.reference == b.reference)
    && (a.total_parts == b.total_parts)
    && same_bool a.is_16bit b.is_16bit

-- `self._pending.get(key)`
unfoldable pub lookup_group : GroupKey → List (GroupKey × PendingGroup) → Option PendingGroup
lookup_group k [] = none
lookup_group k ((j, g) ∷ m) = if key_eq k j then some g else lookup_group k m

-- `self._pending[key] = group`: in its place if the key is there, else at the end.
unfoldable pub store_group :
    GroupKey → PendingGroup → List (GroupKey × PendingGroup) → List (GroupKey × PendingGroup)
store_group k g [] = (k, g) ∷ []
store_group k g ((j, h) ∷ m) = if key_eq k j then (j, g) ∷ m else (j, h) ∷ store_group k g m

-- `del self._pending[key]`
unfoldable pub delete_group :
    GroupKey → List (GroupKey × PendingGroup) → List (GroupKey × PendingGroup)
delete_group k [] = []
delete_group k ((j, g) ∷ m) = if key_eq k j then m else (j, g) ∷ delete_group k m

-- `popitem(last=False)`
unfoldable pub pop_oldest : List (GroupKey × PendingGroup) → List (GroupKey × PendingGroup)
pop_oldest [] = []
pop_oldest (e ∷ m) = m

-- `now - group.first_seen >= self._max_age`
unfoldable pub is_expired : ℕ → ℕ → PendingGroup → Bool
is_expired max_age now g = leb (g.first_seen + max_age) now

-- `_expire` on the groups: the expired ones are deleted, and counted.
unfoldable pub expire_groups :
    ℕ → ℕ → List (GroupKey × PendingGroup) → List (GroupKey × PendingGroup) × ℕ
expire_groups max_age now [] = ([], 0)
expire_groups max_age now ((k, g) ∷ m) =
    let (kept, n) = expire_groups max_age now m in
    if is_expired max_age now g then (kept, suc n) else ((k, g) ∷ kept, n)

unfoldable pub expire : MultipartAccumulator → ℕ → MultipartAccumulator × ℕ
expire a now =
    let (kept, n) = expire_groups a.max_age now a.pending in (record a { pending = kept }, n)

-- `group.parts.get(seq)`
unfoldable pub lookup_part : ℕ → List (ℕ × Text) → Option Text
lookup_part s [] = none
lookup_part s ((r, b) ∷ ps) = if s == r then some b else lookup_part s ps

-- `if info.sequence not in group.parts: group.parts[info.sequence] = body`
unfoldable pub put_part : ℕ → Text → List (ℕ × Text) → List (ℕ × Text)
put_part s body parts = elim (lookup_part s parts) [
  | some b ↦ parts
  | none ↦ parts ++ (s, body) ∷ []
]

-- `"".join(group.parts[seq] for seq in …)` over so many numbers from `seq` on; a missing part is a
-- `KeyError`.
unfoldable pub join_parts : List (ℕ × Text) → ℕ → ℕ → Option Text
join_parts parts seq zero = some []
join_parts parts seq (suc n) = do
  body ← lookup_part seq parts
  rest ← join_parts parts (suc seq) n
  some (body ++ rest)

-- What a call of `add_part` ends with.
pub data Added : Type 0 where
  invalid : Added
  missing_part : Added
  incomplete : MultipartAccumulator → Added
  complete : MultipartAccumulator → Text → Added

abbrev pub key_of : Text → MultipartInfo → GroupKey
key_of sender info = record {
  sender = sender;
  reference = info.reference;
  total_parts = info.total_parts;
  is_16bit = info.is_16bit;
}

-- `if len(self._pending) >= self._max_groups: self._pending.popitem(last=False)`
unfoldable pub make_room : ℕ → List (GroupKey × PendingGroup) → List (GroupKey × PendingGroup)
make_room max_groups m = if leb max_groups (length m) then pop_oldest m else m

-- The group that the fragment goes to, and the groups with room made for a new one.
unfoldable pub find_group :
    ℕ
    → GroupKey
    → ℕ
    → List (GroupKey × PendingGroup)
    → PendingGroup × List (GroupKey × PendingGroup)
find_group max_groups k now m = elim (lookup_group k m) [
  | some g ↦ (g, m)
  | none ↦
      (record { total_parts = k.total_parts; first_seen = now; parts = [] }, make_room max_groups m)
]

-- The last steps of `add_part`, with the group's parts as they are after the fragment.
unfoldable pub settle :
    MultipartAccumulator → GroupKey → PendingGroup → List (GroupKey × PendingGroup) → Added
settle a k g m =
    let m' = store_group k g m in
    if ltb (length g.parts) g.total_parts
    then incomplete (record a { pending = m' })
    else elim (join_parts g.parts 1 g.total_parts) [
      | none ↦ missing_part
      | some joined ↦ complete (record a { pending = delete_group k m' }) joined
    ]

unfoldable pub add_part : MultipartAccumulator → Text → MultipartInfo → Text → ℕ → Added
add_part a sender info body now =
    let k = key_of sender info in
    let m = (expire_groups a.max_age now a.pending).0 in
    let (g, m') = find_group a.max_groups k now m in
    let filled = settle a k (record g { parts = put_part info.sequence body g.parts }) m' in
    if validate_multipart_info info then filled else invalid

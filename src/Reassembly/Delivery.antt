-- ===== src/Reassembly/Delivery.antt =====
-- The parts of one message, delivered in any order.
use callstack.Prelude.{
  ℕ, zero, suc, ◌+◌, ◌<◌, ◌≡◌, refl, sym, subst, Bool, true, false, List, [], ◌∷◌, arith, none,
}
use callstack.Reassembly.{
  MultipartAccumulator, validate_multipart_info, lookup_group, Added, add_part,
}
use callstack.Reassembly.Covers.{covers, whole, seen_at}
use callstack.Reassembly.Message.{
  Message, fragment, message_key, Open, Outcome, add_fresh, add_tracked,
}

-- The fragments with these numbers, at these times, until the message is complete.
pub deliver : MultipartAccumulator → Message → List (ℕ × ℕ) → Added
deliver a x [] = Added.incomplete a
deliver a x ((s, now) ∷ later) = elim (add_part a x.sender (fragment x s) (x.body s) now) [
  | Added.incomplete b ↦ deliver b x later
  | Added.complete b t ↦ Added.complete b t
  | Added.invalid ↦ Added.invalid
  | Added.missing_part ↦ Added.missing_part
]

-- The numbers of the fragments, the last one first, before those seen already.
abbrev pub numbers : List (ℕ × ℕ) → List ℕ → List ℕ
numbers [] seen = seen
numbers ((s, now) ∷ later) seen = numbers later (s ∷ seen)

seen-numbers :
    (i : ℕ) (ds : List (ℕ × ℕ)) (seen : List ℕ)
    → seen_at i seen ≡ true
    → seen_at i (numbers ds seen) ≡ true
seen-numbers i [] seen h = h
seen-numbers i ((s, now) ∷ ds) seen h = seen-numbers i ds (s ∷ seen) (ground arith)

covers-numbers :
    (n : ℕ) (ds : List (ℕ × ℕ)) (seen : List ℕ)
    → covers seen n ≡ true
    → covers (numbers ds seen) n ≡ true
unfolding covers
covers-numbers zero ds seen h = refl
covers-numbers (suc n) ds seen h =
    ground (arith, covers-numbers n ds seen, seen-numbers (suc n) ds seen)

-- The fragments are well formed, and none comes when the first is too old.
abbrev pub InTime : Message → ℕ → ℕ → List (ℕ × ℕ) → Type 0
InTime x first max_age [] = Unit
InTime x first max_age ((s, now) ∷ ds) =
    (validate_multipart_info (fragment x s) ≡ true)
    × (now < first + max_age)
    × InTime x first max_age ds

-- Complete with the message if all numbers are covered, and incomplete if not.
abbrev pub Delivered : Message → Bool → Added → Type 0
Delivered x all Added.invalid = ⊥
Delivered x all Added.missing_part = ⊥
Delivered x all (Added.incomplete b) = all ≡ false
Delivered x all (Added.complete b t) = (all ≡ true) × (t ≡ whole x.body 1 x.total_parts)

-- What `deliver` goes on with.
abbrev continued : Message → List (ℕ × ℕ) → Added → Added
continued x later Added.invalid = Added.invalid
continued x later Added.missing_part = Added.missing_part
continued x later (Added.incomplete b) = deliver b x later
continued x later (Added.complete b t) = Added.complete b t

module _ (x : Message) (first : ℕ) where
  InTime-age : (p q : ℕ) (ds : List (ℕ × ℕ)) → p ≡ q → InTime x first q ds → InTime x first p ds
  InTime-age p q ds e t = subst (λ n. InTime x first n ds) (sym e) t

  continued_lem :
      (a : MultipartAccumulator) (ds : List (ℕ × ℕ)) (seen : List ℕ) (r : Added)
      → ((b : MultipartAccumulator)
          → covers seen x.total_parts ≡ false
          → Open x first seen b.pending
          → InTime x first b.max_age ds
          → Delivered x (covers (numbers ds seen) x.total_parts) (deliver b x ds))
      → InTime x first a.max_age ds
      → Outcome x first seen a r
      → Delivered x (covers (numbers ds seen) x.total_parts) (continued x ds r)
  continued_lem a ds seen Added.invalid ih t o = o
  continued_lem a ds seen Added.missing_part ih t o = o
  continued_lem a ds seen (Added.incomplete b) ih t o =
      ih b o.0 o.1 (InTime-age b.max_age a.max_age ds o.2 t)
  continued_lem a ds seen (Added.complete b text) ih t o =
      (covers-numbers x.total_parts ds seen o.0, o.1)

  deliver-Open :
      (ds : List (ℕ × ℕ)) (seen : List ℕ) (a : MultipartAccumulator)
      → covers seen x.total_parts ≡ false
      → Open x first seen a.pending
      → InTime x first a.max_age ds
      → Delivered x (covers (numbers ds seen) x.total_parts) (deliver a x ds)
  unfolding deliver
  deliver-Open [] seen a c o t = c
  deliver-Open ((s, now) ∷ ds) seen a c o t =
      let (g, found, tr) = o in
      continued_lem a ds (s ∷ seen) (add_part a x.sender (fragment x s) (x.body s) now)
        (deliver-Open ds (s ∷ seen)) t.2 (add_tracked a x s now t.0 first seen g found tr t.1)

-- The fragments of one message, each well formed, in any order and with any repetitions, the first
-- when the accumulator has no group for the message and the others before the first is too old,
-- whatever other groups are pending: the accumulator completes the message if every number from 1
-- to the number of parts comes, and only then, and returns the bodies joined in the order of the
-- numbers.
pub deliver_lem :
    (x : Message) (a : MultipartAccumulator) (s first : ℕ) (later : List (ℕ × ℕ))
    → lookup_group (message_key x) a.pending ≡ none
    → InTime x first a.max_age ((s, first) ∷ later)
    → Delivered x
        (covers (numbers ((s, first) ∷ later) []) x.total_parts)
        (deliver a x ((s, first) ∷ later))
unfolding deliver
deliver_lem x a s first later none_yet t =
    continued_lem x first a later (s ∷ []) (add_part a x.sender (fragment x s) (x.body s) first)
      (deliver-Open x first later (s ∷ [])) t.2 (add_fresh a x s first t.0 none_yet)

-- ===== src/Voice/Dtmf.antt =====
-- callstack/voice/dtmf.py: `DTMFCollector`. Times are natural numbers of the loop's clock. A round of
-- the loop is what the clock says at its head, what `events.next` returns, and what the clock says
-- afterwards; rounds that end stand for a stream that stays silent. The stream is a parameter of
-- both collections, `collect` opens its own.
pub mod Collected
use callstack.Prelude.{
  ℕ, zero, suc, ◌+◌, Bool, true, false, ◌&&◌, List, [], ◌∷◌, ◌++◌, Option, none, some, Text,
  text_eq, length, ltb, leb, ◌==◌, if◌then◌else◌,
}

pub record Round : Type 0 where
  pub now : ℕ
  pub event : Option Text
  pub after : ℕ

pub record DtmfCollector : Type 0 where
  pub max_digits : ℕ
  pub timeout : ℕ
  pub terminator : Text
  pub inter_digit_timeout : Option ℕ

abbrev pub earliest : ℕ → ℕ → ℕ
earliest a b = if leb a b then a else b

-- `deadline` after a digit.
unfoldable pub moved_deadline : Option ℕ → ℕ → ℕ → ℕ → ℕ
moved_deadline none overall deadline after = deadline
moved_deadline (some idt) overall deadline after = earliest overall (after + idt)

-- A digit that ends the collection, or the deadline and the digits to go on with.
unfoldable pub take_digit :
    DtmfCollector → Option ℕ → ℕ → ℕ → List Text → ℕ → Option Text → Option (ℕ × List Text)
take_digit c idt overall deadline digits after none = none
take_digit c idt overall deadline digits after (some d) =
    if text_eq d c.terminator
    then none
    else some (moved_deadline idt overall deadline after, digits ++ d ∷ [])

unfoldable pub round :
    DtmfCollector → ℕ → Option ℕ → ℕ → ℕ → List Text → Round → Option (ℕ × List Text)
round c max_d idt overall deadline digits r =
    if ltb (length digits) max_d && ltb r.now deadline
    then take_digit c idt overall deadline digits r.after r.event
    else none

-- The loop of both collections.
unfoldable pub collect_loop :
    DtmfCollector → ℕ → Option ℕ → ℕ → ℕ → List Text → List Round → List Text
collect_loop c max_d idt overall deadline digits [] = digits
collect_loop c max_d idt overall deadline digits (r ∷ rounds) =
    elim (round c max_d idt overall deadline digits r) [
      | none ↦ digits
      | some (d, ds) ↦ collect_loop c max_d idt overall d ds rounds
    ]

-- `"".join(digits)`
unfoldable pub join : List Text → Text
join [] = []
join (d ∷ ds) = d ++ join ds

-- An override, where there is one.
abbrev pub or_own : Option ℕ → ℕ → ℕ
or_own none own = own
or_own (some x) own = x

abbrev pub or_own_timeout : Option ℕ → Option ℕ → Option ℕ
or_own_timeout none own = own
or_own_timeout (some x) own = some x

unfoldable pub collect_from_stream :
    DtmfCollector → ℕ → List Round → Option ℕ → Option ℕ → Option ℕ → Option Text
collect_from_stream c start rounds max_digits timeout idt =
    let max_d = or_own max_digits c.max_digits in
    let overall = start + or_own timeout c.timeout in
    if max_d == 0
    then none
    else some (
        join (
          collect_loop c max_d (or_own_timeout idt c.inter_digit_timeout) overall overall []
            rounds))

unfoldable pub collect :
    DtmfCollector → ℕ → List Round → Option ℕ → Option ℕ → Option ℕ → Option Text
collect c start rounds max_digits timeout idt =
    collect_from_stream c start rounds max_digits timeout idt

abbrev pub or_none : Option Text → Option (Option Text)
or_none none = none
or_none (some []) = some none
or_none (some (x ∷ s)) = some (some (x ∷ s))

-- One digit, no digit, or a `ValueError`.
unfoldable pub collect_one : DtmfCollector → ℕ → List Round → Option ℕ → Option (Option Text)
collect_one c start rounds timeout =
    or_none (collect c start rounds (some 1) (some (or_own timeout c.timeout)) none)

unfoldable pub collect_one_from_stream :
    DtmfCollector → ℕ → List Round → Option ℕ → Option (Option Text)
collect_one_from_stream c start rounds timeout =
    or_none (collect_from_stream c start rounds (some 1) (some (or_own timeout c.timeout)) none)

-- ===== src/Protocol/Executor/Framing.antt =====
-- The lines of a stored message reach the caller as they are.
use callstack.Prelude.{
  Bool, true, false, Bool-cases, ◌⊎◌, inl, inr, ◌≡◌, refl, ap, ◌∙◌, List, [], ◌∷◌, ◌++◌,
  append_assoc, none, Text, codes, text_eq, starts_with, All, arith, map,
}
use callstack.Protocol.Lines.{strip, starts_with_any, is_sensitive_command_line}
use callstack.Protocol.Executor.{
  Read, Result, Command, command_preserves_urc_like_payload, response_line_for_command,
  line_matches_success, line_matches_error, line_matches_dial_failure, Collecting, collecting,
  goes_on, ends, take_line, classify, round, step_of, step, collect_response,
}
use callstack.Protocol.Executor.Kept.{preserves}

-- A command that reads messages is no dial command.
not_dial :
    (t : Text) → command_preserves_urc_like_payload t ≡ true → starts_with (codes "ATD") t ≡ false
unfolding command_preserves_urc_like_payload starts_with_any starts_with
not_dial [] h = refl
not_dial (a ∷ []) h = ground arith
not_dial (a ∷ b ∷ []) h = ground arith
not_dial (a ∷ b ∷ d ∷ t) h = ground arith

-- A line that is no credential-bearing command and no echo, as it is shown to the caller.
abbrev pub IsOrdinary : Command → Text → Type 0
IsOrdinary c raw =
    (is_sensitive_command_line (strip raw) ≡ false) × (text_eq (strip raw) c.text ≡ false)

abbrev shown_as : Command → Text → Text
shown_as c raw = response_line_for_command c.text raw (strip raw)

-- The header of a message in what is stored: `+CMGR: ...` behind `AT+CMGR...` and `+CMGL: ...` behind
-- `AT+CMGL...`, with blanks around it at most.
abbrev pub IsHeader : Command → Text → Type 0
IsHeader c raw =
    ((starts_with (codes "AT+CMGR") c.text ≡ true)
      × (starts_with (codes "+CMGR:") (strip raw) ≡ true))
    ⊎ ((starts_with (codes "AT+CMGL") c.text ≡ true)
        × (starts_with (codes "+CMGL:") (strip raw) ≡ true))

-- The caller gets the line as it came, or without the blanks around it where it is a header.
abbrev pub IsShown : Command → Text → Text → Type 0
IsShown c raw t = (IsHeader c raw × (t ≡ strip raw)) ⊎ ((IsHeader c raw → ⊥) × (t ≡ raw))

-- The caller gets these lines, one for one.
abbrev pub AreShown : Command → List Text → List Text → Type 0
AreShown c [] [] = Unit
AreShown c [] (t ∷ ts) = ⊥
AreShown c (raw ∷ raws) [] = ⊥
AreShown c (raw ∷ raws) (t ∷ ts) = IsShown c raw t × AreShown c raws ts

-- No command begins in both ways.
one_reading :
    (t : Text)
    → starts_with (codes "AT+CMGR") t ≡ true
    → starts_with (codes "AT+CMGL") t ≡ true
    → (true ≡ false)
unfolding starts_with
one_reading (a ∷ b ∷ d ∷ e ∷ f ∷ g ∷ h ∷ t) p q = ground arith
one_reading _ p q = ground arith

unread : (b : Bool) → b ≡ false → b ≡ true → ⊥
unread b p q = absurd (cc (p, q))

list_IsShown :
    (c : Command) (raw : Text)
    → starts_with (codes "AT+CMGR") c.text ≡ false
    → starts_with (codes "AT+CMGL") c.text ≡ true
    → IsShown c raw (shown_as c raw)
unfolding response_line_for_command
list_IsShown c raw p r = elim (Bool-cases (starts_with (codes "+CMGL:") (strip raw))) [
  | inl q ↦ inl (inr (r, q), ground arith)
  | inr q ↦ inr (λ h. elim h [ inl x ↦ unread _ p x.0 | inr x ↦ unread _ q x.1 ], ground arith)
]

shown_as-IsShown : (c : Command) (raw : Text) → preserves c ≡ true → IsShown c raw (shown_as c raw)
unfolding response_line_for_command command_preserves_urc_like_payload starts_with_any
shown_as-IsShown c raw reading = elim (Bool-cases (starts_with (codes "AT+CMGR") c.text)) [
  | inr p ↦ list_IsShown c raw p (ground arith)
  | inl p ↦ elim (Bool-cases (starts_with (codes "+CMGR:") (strip raw))) [
    | inl q ↦ inl (inl (p, q), ground arith)
    | inr q ↦ inr (
      λ h. elim h [ inl x ↦ unread _ q x.1 | inr x ↦ absurd (cc (one_reading c.text p x.0)) ],
      ground arith,
    )
  ]
]

AreShown-map :
    (c : Command) (raws : List Text) (last : Text)
    → preserves c ≡ true
    → AreShown c (raws ++ last ∷ []) (map (shown_as c) raws ++ shown_as c last ∷ [])
AreShown-map c [] last reading = (shown_as-IsShown c last reading, tt)
AreShown-map c (raw ∷ raws) last reading =
    (shown_as-IsShown c raw reading, AreShown-map c raws last reading)

-- A line of the payload: ordinary and no final result.
abbrev pub IsPayload : Command → Text → Type 0
IsPayload c raw =
    (is_sensitive_command_line (strip raw) ≡ false)
    × (text_eq (strip raw) c.text ≡ false)
    × (line_matches_success c raw (strip raw) ≡ false)
    × (line_matches_error c raw (strip raw) ≡ false)

-- The loop between two lines of the payload.
abbrev gathered : List Text → Collecting
gathered ls = record { lines = ls; suppress = false; waiting = none; dispatched = [] }

module _ (c : Command) (reading : preserves c ≡ true) (ls : List Text) (raw : Text)
    (plain : IsOrdinary c raw) where
  round_taken : round c (gathered ls) raw ≡ take_line c (gathered ls) raw (strip raw)
  unfolding round classify line_matches_dial_failure
  round_taken = let dial = not_dial c.text reading in let (safe, other) = plain in ground arith

abbrev pub lines_then : List Text → List Read → List Read
lines_then [] reads = reads
lines_then (l ∷ ls) reads = Read.line l ∷ lines_then ls reads

module _ (c : Command) (reading : preserves c ≡ true) where
  payload_step :
      (ls : List Text) (raw : Text)
      → IsPayload c raw
      → step c (gathered ls) (Read.line raw) ≡ goes_on (gathered (ls ++ shown_as c raw ∷ []))
  unfolding step step_of take_line
  payload_step ls raw (safe, other, going, fine) =
      round_taken c reading ls raw (safe, other) ∙ ground arith

  final_step :
      (ls : List Text) (raw : Text)
      → IsOrdinary c raw
      → line_matches_success c raw (strip raw) ≡ true
      → step c (gathered ls) (Read.line raw)
        ≡ ends
            (Result.response (record { success = true; lines = ls ++ shown_as c raw ∷ [] }))
            (gathered (ls ++ shown_as c raw ∷ []))
  unfolding step step_of take_line
  final_step ls raw plain done = round_taken c reading ls raw plain ∙ ground arith

  collect_payload_from :
      (ls payload : List Text) (last : Text) (reads : List Read)
      → All (IsPayload c) payload
      → IsOrdinary c last
      → line_matches_success c last (strip last) ≡ true
      → collect_response c (gathered ls) (lines_then payload (Read.line last ∷ reads)) ≡ (
        Result.response (record {
          success = true;
          lines = ls ++ (map (shown_as c) payload ++ shown_as c last ∷ []);
        }),
        gathered (ls ++ (map (shown_as c) payload ++ shown_as c last ∷ [])),
      )
  unfolding collect_response
  collect_payload_from ls [] last reads p plain done =
      rw (final_step ls last plain done, collect_response)
  collect_payload_from ls (l ∷ payload) last reads p plain done =
      rw (payload_step ls l p.0, collect_response)
        (collect_payload_from (ls ++ shown_as c l ∷ []) payload last reads p.1 plain done
          ∙ rw append_assoc)

-- A command that reads stored messages, answered by lines that are neither credential-bearing
-- commands nor the command's echo nor a final result, whatever else their text is, blank lines and
-- texts like unsolicited codes included, and by an expected result code behind them: the response
-- is a success with these lines, in order and all of them, nothing is dispatched, and what comes
-- after the result code is not read. A line is returned as it came, save that the header of a message
-- loses the blanks around it.
pub collect_payload :
    (c : Command) (payload : List Text) (last : Text) (reads : List Read)
    → preserves c ≡ true
    → All (IsPayload c) payload
    → IsOrdinary c last
    → line_matches_success c last (strip last) ≡ true
    → (shown : List Text) × AreShown c (payload ++ last ∷ []) shown
      × ((collect_response c collecting (lines_then payload (Read.line last ∷ reads))).0
          ≡ Result.response (record { success = true; lines = shown }))
      × ((collect_response c collecting (lines_then payload (Read.line last ∷ reads))).1.dispatched
          ≡ [])
collect_payload c payload last reads reading p plain done =
    let e = collect_payload_from c reading [] payload last reads p plain done in
    (
      map (shown_as c) payload ++ shown_as c last ∷ [],
      AreShown-map c payload last reading,
      ap (λ o. o.0) e,
      ap (λ o. o.1.dispatched) e,
    )

-- ===== src/Protocol/Executor/Kept.antt =====
-- What a response holds, and how one line that was read changes it.
use callstack.Prelude.{
  Bool, true, false, not, ◌&&◌, ◌≡◌, refl, ◌⊎◌, inl, inr, List, [], ◌∷◌, ◌++◌, some, Text, text_eq,
  All, All-append, Bool-cases, arith, if◌then◌else◌, subst,
}
use callstack.Protocol.Lines.{strip, is_urc, needs_followup, is_sensitive_command_line}
use callstack.Protocol.Executor.{
  Result, Command, command_preserves_urc_like_payload, response_line_for_command,
  line_matches_success, line_matches_error, line_matches_dial_failure, Collecting, Round, goes_on,
  ends, take_line, take_urc, classify, hand_over,
}

abbrev pub preserves : Command → Bool
preserves c = command_preserves_urc_like_payload c.text

-- A line of the response before the last: it stands for a line that was read, which is no
-- credential, no echo and no final result, and is no unsolicited code unless the command reads
-- messages.
pub record Kept (c : Command) (l : Text) : Type 0 where
  pub raw : Text
  pub shown : l ≡ response_line_for_command c.text raw (strip raw)
  pub secret : is_sensitive_command_line (strip raw) ≡ false
  pub echo : text_eq (strip raw) c.text ≡ false
  pub solicited : (preserves c ≡ true) ⊎ (is_urc (strip raw) ≡ false)
  pub going : line_matches_success c raw (strip raw) ≡ false
  pub fine : line_matches_error c raw (strip raw) ≡ false

-- The last line: the expected result code, an error code, or a failure of a dial command.
pub record Final (c : Command) (success : Bool) (l : Text) : Type 0 where
  pub raw : Text
  pub shown : l ≡ response_line_for_command c.text raw (strip raw)
  pub secret : is_sensitive_command_line (strip raw) ≡ false
  pub code :
      if success
      then line_matches_success c raw (strip raw) ≡ true
      else (line_matches_error c raw (strip raw) ≡ true)
      ⊎ (line_matches_dial_failure c (strip raw) ≡ true)

-- A pair given to the dispatcher: an unsolicited code, with a second line only if it is one that has
-- one, and never while messages are read.
pub record IsEvent (c : Command) (e : Text × Text) : Type 0 where
  pub outside : preserves c ≡ false
  pub urc : is_urc e.0 ≡ true
  pub paired : (e.1 ≡ []) ⊎ (needs_followup e.0 ≡ true)

pub record IsHeader (c : Command) (h : Text) : Type 0 where
  pub outside : preserves c ≡ false
  pub urc : is_urc h ≡ true
  pub multiline : needs_followup h ≡ true

pub record IsCollecting (c : Command) (s : Collecting) : Type 0 where
  pub kept : All (Kept c) s.lines
  pub events : All (IsEvent c) s.dispatched
  pub header : (h : Text) → s.waiting ≡ some h → IsHeader c h

abbrev pub ResponseHolds : Command → Result → Type 0
ResponseHolds c (Result.response r) =
    (before : List Text) × (last : Text) × (r.lines ≡ before ++ last ∷ [])
    × All (Kept c) before
    × Final c r.success last
ResponseHolds c Result.at_timeout = Unit
ResponseHolds c Result.transport_error = Unit

-- What holds after a round.
abbrev pub RoundHolds : Command → Round → Type 0
RoundHolds c (goes_on s) = IsCollecting c s
RoundHolds c (ends r s) = ResponseHolds c r × All (IsEvent c) s.dispatched

module _ (c : Command) (s : Collecting) (h : IsCollecting c s) (raw : Text) where
  take_line_lem :
      is_sensitive_command_line (strip raw) ≡ false
      → text_eq (strip raw) c.text ≡ false
      → (preserves c ≡ true) ⊎ (is_urc (strip raw) ≡ false)
      → RoundHolds c (take_line c s raw (strip raw))
  unfolding take_line
  take_line_lem safe other own =
      let l = response_line_for_command c.text raw (strip raw) in
      elim (Bool-cases (line_matches_success c raw (strip raw))) [
        | inl e ↦
            rw (e, take_line)
              (
                (
                  s.lines,
                  l,
                  refl,
                  h.kept,
                  record { raw = raw; shown = refl; secret = safe; code = e },
                ),
                h.events,
              )
        | inr e ↦ elim (Bool-cases (line_matches_error c raw (strip raw))) [
          | inl f ↦
              rw (e, take_line)
                (rw f (
                  (
                    s.lines,
                    l,
                    refl,
                    h.kept,
                    record { raw = raw; shown = refl; secret = safe; code = inl f },
                  ),
                  h.events,
                ))
          | inr f ↦
              rw (e, take_line)
                (rw f (record {
                  kept = All-append (Kept c) s.lines (l ∷ []) h.kept (
                    record {
                      raw = raw;
                      shown = refl;
                      secret = safe;
                      echo = other;
                      solicited = own;
                      going = e;
                      fine = f;
                    },
                    tt,
                  );
                  events = h.events;
                  header = h.header;
                }))
        ]
      ]

module _ (c : Command) (s : Collecting) (h : IsCollecting c s) where
  dispatch_lem :
      (header followup : Text)
      → IsEvent c (header, followup)
      → All (IsEvent c) (s.dispatched ++ (header, followup) ∷ [])
  dispatch_lem header followup e =
      All-append (IsEvent c) s.dispatched ((header, followup) ∷ []) h.events (e, tt)

  pub hand_over_lem :
      (header followup : Text) → IsHeader c header → IsCollecting c (hand_over s header followup)
  unfolding hand_over
  hand_over_lem header followup x = record {
    kept = h.kept;
    events =
        dispatch_lem header followup
          (record { outside = x.outside; urc = x.urc; paired = inr x.multiline });
    header = λ k e. absurd (cc e);
  }

  take_urc_lem :
      (control : Text)
      → preserves c ≡ false
      → is_urc control ≡ true
      → RoundHolds c (take_urc s control)
  unfolding take_urc
  take_urc_lem control out u = elim (Bool-cases (needs_followup control)) [
    | inl e ↦
        rw (e, take_urc)
          (record {
            kept = h.kept;
            events = h.events;
            header = λ k at.
                let same : control ≡ k = cc at in
                subst (IsHeader c) same (record { outside = out; urc = u; multiline = e });
          })
    | inr e ↦
        rw (e, take_urc)
          (record {
            kept = h.kept;
            events = dispatch_lem control [] (record { outside = out; urc = u; paired = inl refl });
            header = h.header;
          })
  ]

  pub classify_lem : (raw : Text) → RoundHolds c (classify c s raw (strip raw))
  unfolding classify
  classify_lem raw =
      let control = strip raw in
      elim (Bool-cases (is_sensitive_command_line control)) [
        | inl e ↦ rw (e, classify) h
        | inr safe ↦ elim (Bool-cases (text_eq control c.text)) [
          | inl e ↦ rw (safe, classify) (rw e h)
          | inr other ↦ elim (Bool-cases (line_matches_dial_failure c control)) [
            | inl e ↦
                rw (safe, classify)
                  (rw other (
                    rw e (
                      (
                        s.lines,
                        response_line_for_command c.text raw control,
                        refl,
                        h.kept,
                        record { raw = raw; shown = refl; secret = safe; code = inr e },
                      ),
                      h.events,
                    )))
            | inr e ↦ elim (Bool-cases (is_urc control && not (preserves c))) [
              | inl u ↦
                  rw (safe, classify)
                    (rw other (rw e (rw u (take_urc_lem control (ground arith) (ground arith)))))
              | inr u ↦
                  rw (safe, classify)
                    (rw other (rw e (rw u (take_line_lem c s h raw safe other (solicited_of u)))))
            ]
          ]
        ]
      ]
    where
      solicited_of :
          (is_urc (strip raw) && not (preserves c)) ≡ false
          → (preserves c ≡ true) ⊎ (is_urc (strip raw) ≡ false)
      solicited_of u = ground arith

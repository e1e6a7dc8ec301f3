-- ===== src/Protocol/Urc/Logged.antt =====
-- What `log_safe_urc` returns for a code, and which lines make an event (callstack/protocol/urc.py).
use callstack.Prelude.{
  ◌≡◌, ◌≢◌, refl, sym, ◌∙◌, subst, true, false, ◌&&◌, List, [], ◌∷◌, ◌++◌, Option, none, some, Text,
  codes, text_eq, text_eq_sound, starts_with, all, length, if◌then◌else◌, ◌==◌, arith, Bool-cases,
  inl, inr, All, ℕ,
}
use callstack.Protocol.Lines.{is_in, starts_with_any, is_urc}
use callstack.Protocol.Commands.{is_empty, is_dtmf, send_dtmf, dtmf_command, dtmf_duration_units}
use callstack.Protocol.Parser.{parse_registration, parse_cdsi, parse_cusd}
use callstack.Protocol.Urc.{
  Event, dtmf, event_of, dtmf_event, report_event, ussd_event, parse_dtmf_digit, behind_colon,
  before_colon, registration_prefixes, status_for_log, log_safe_urc,
}

-- The codes that carry a text, a number, or a place.
abbrev pub private_prefixes : List Text
private_prefixes = codes "+CUSD:" ∷ codes "+CMT:" ∷ codes "+CMTI:" ∷ registration_prefixes

-- What the log shows, from the code's name and the parsed registration alone.
abbrev pub summary : Text → Text
summary line =
    if is_in (before_colon line) (codes "+CREG" ∷ codes "+CGREG" ∷ codes "+CEREG" ∷ [])
    then status_for_log (before_colon line) (parse_registration line)
    else before_colon line ++ codes ":<redacted>"

-- A line behind a prefix.
starts_with-split : (p t : Text) → starts_with p t ≡ true → (s : Text) × (t ≡ p ++ s)
unfolding starts_with
starts_with-split [] t h = (t, refl)
starts_with-split (c ∷ p) [] h = absurd (ground arith)
starts_with-split (c ∷ p) (d ∷ t) h =
    let (s, e) = starts_with-split p t (ground arith) in (s, ground (arith, e))

-- What holds of every line behind one of the prefixes holds of a line that begins with one of them.
each_prefix :
    (P : Text → Type 0) (prefixes : List Text) (line : Text)
    → starts_with_any prefixes line ≡ true
    → All (λ p. (s : Text) → P (p ++ s)) prefixes
    → P line
unfolding starts_with_any
each_prefix P [] line h all_of = absurd (ground arith)
each_prefix P (p ∷ prefixes) line h all_of = elim (Bool-cases (starts_with p line)) [
  | inl e ↦ let (s, q) = starts_with-split p line e in subst P (sym q) (all_of.0 s)
  | inr e ↦ each_prefix P prefixes line (ground arith) all_of.1
]

log-summary :
    (line : Text) → starts_with_any private_prefixes line ≡ true → log_safe_urc line ≡ summary line
unfolding log_safe_urc starts_with_any starts_with before_colon is_in text_eq
log-summary line h =
    each_prefix (λ l. log_safe_urc l ≡ summary l) private_prefixes line h
      ((λ s. refl), ((λ s. refl), ((λ s. refl), ((λ s. refl), ((λ s. refl), ((λ s. refl), tt))))))

-- What `log_safe_urc` returns for a line that begins like a code with a message, a USSD answer or a
-- registration depends on the name of the code and on the registration that is parsed of it, and on
-- nothing else of the line: two such lines that agree in these have the same result.
pub log_safe_urc_private :
    (line other : Text)
    → starts_with_any private_prefixes line ≡ true
    → starts_with_any private_prefixes other ≡ true
    → before_colon line ≡ before_colon other
    → parse_registration line ≡ parse_registration other
    → log_safe_urc line ≡ log_safe_urc other
log_safe_urc_private line other h k name registration =
    let same : summary line ≡ summary other = cc (name, registration) in
    log-summary line h ∙ (same ∙ sym (log-summary other k))

-- The prefixes that the branches of the dispatcher ask for.
abbrev branches : List Text
branches =
    codes "RING"
    ∷ codes "+CLIP:"
    ∷ codes "+DTMF:"
    ∷ codes "RXDTMF:"
    ∷ codes "VOICE CALL: BEGIN"
    ∷ codes "VOICE CALL: END"
    ∷ codes "NO CARRIER"
    ∷ codes "BUSY"
    ∷ codes "NO ANSWER"
    ∷ codes "NO DIALTONE"
    ∷ codes "NO DIAL TONE"
    ∷ codes "+CMT:"
    ∷ codes "+CMTI:"
    ∷ codes "+CDSI:"
    ∷ codes "+CUSD:"
    ∷ []

starts_with_self : (p : Text) → starts_with p p ≡ true
unfolding starts_with
starts_with_self [] = refl
starts_with_self (c ∷ p) = ground (arith, starts_with_self p)

text_eq-other : (p line : Text) → starts_with p line ≡ false → text_eq line p ≡ false
text_eq-other p line h = elim (Bool-cases (text_eq line p)) [
  | inl e ↦
      let q =
        subst (λ (l : Text). starts_with p l ≡ true) (sym (text_eq_sound line p e))
          (starts_with_self p) in
      absurd (ground arith)
  | inr e ↦ e
]

event_of-other :
    (line followup : Text) → starts_with_any branches line ≡ false → event_of line followup ≡ none
unfolding event_of starts_with_any is_in
event_of-other line followup h = ground (
  arith,
  text_eq-other (codes "RING") line,
  text_eq-other (codes "VOICE CALL: BEGIN") line,
  text_eq-other (codes "BUSY") line,
  text_eq-other (codes "NO CARRIER") line,
  text_eq-other (codes "NO ANSWER") line,
  text_eq-other (codes "NO DIALTONE") line,
  text_eq-other (codes "NO DIAL TONE") line,
)

-- Every line that makes an event is one that the reader takes for a code: no branch of the
-- dispatcher is out of the reader's reach.
pub event_of-is_urc :
    (line followup : Text) (e : Event) → event_of line followup ≡ some e → is_urc line ≡ true
unfolding is_urc starts_with_any starts_with
event_of-is_urc line followup e h = elim (Bool-cases (starts_with_any branches line)) [
  | inr q ↦ absurd (ground (arith, event_of-other line followup q))
  | inl q ↦
      each_prefix (λ l. is_urc l ≡ true) branches line q
        ((
          (λ s. refl),
          (
            (λ s. refl),
            (
              (λ s. refl),
              (
                (λ s. refl),
                (
                  (λ s. refl),
                  (
                    (λ s. refl),
                    (
                      (λ s. refl),
                      (
                        (λ s. refl),
                        (
                          (λ s. refl),
                          (
                            (λ s. refl),
                            (
                              (λ s. refl),
                              ((λ s. refl), ((λ s. refl), ((λ s. refl), ((λ s. refl), tt)))),
                            ),
                          ),
                        ),
                      ),
                    ),
                  ),
                ),
              ),
            ),
          ),
        ))
]

dtmf_event-text : (t s : Text) → dtmf_event t ≡ some (dtmf s) → (t ≡ s) × (is_empty t ≡ false)
dtmf_event-text [] s h = absurd (ground arith)
dtmf_event-text (c ∷ t) s h = (ground arith, refl)

report_event-dtmf : (r : Option (Text × ℕ)) (s : Text) → report_event r ≢ some (dtmf s)
report_event-dtmf none s h = absurd (ground arith)
report_event-dtmf (some (storage, index)) s h = absurd (ground arith)

ussd_event-dtmf : (r : Option (ℕ × Text × ℕ)) (s : Text) → ussd_event r ≢ some (dtmf s)
ussd_event-dtmf none s h = absurd (ground arith)
ussd_event-dtmf (some (status, message, encoding)) s h = absurd (ground arith)

event_of-dtmf :
    (line followup s : Text)
    → event_of line followup ≡ some (dtmf s)
    → dtmf_event (parse_dtmf_digit (behind_colon line)) ≡ some (dtmf s)
unfolding event_of
event_of-dtmf line followup s h =
    ground (arith, report_event-dtmf (parse_cdsi line) s, ussd_event-dtmf (parse_cusd line) s)

-- A tone that is announced is one of the digits that can be sent: the command to send it is built.
pub event_of-send_dtmf :
    (line followup s : Text)
    → event_of line followup ≡ some (dtmf s)
    → send_dtmf s none ≡ some (codes "AT+VTS=" ++ s)
unfolding parse_dtmf_digit send_dtmf dtmf_command dtmf_duration_units
event_of-send_dtmf line followup s h =
    let (e, full) =
      dtmf_event-text (parse_dtmf_digit (behind_colon line)) s (event_of-dtmf line followup s h) in
    let valid : ((length s == 1) && all is_dtmf s) ≡ true = ground arith in ground arith

-- ===== src/Protocol/Urc.antt =====
-- callstack/protocol/urc.py: `URCDispatcher`. What it sends to the bus is a list of events. A line of
-- the modem has fewer digits than `int` refuses, so that no parser raises. The list that a hook fills is a
-- part of the hook.
pub mod Captures
pub mod Logged
use callstack.Prelude.{
  ℕ, zero, suc, ◌+◌, Bool, true, false, not, ◌&&◌, ◌||◌, List, [], ◌∷◌, ◌++◌, map, Option, none,
  some, Text, codes, text_eq, starts_with, length, leb, ◌==◌, if◌then◌else◌, all,
}
use callstack.Protocol.Lines.{strip, is_in, starts_with_any, final_dial_failure}
use callstack.Protocol.Commands.{is_dtmf, decimal}
use callstack.Protocol.Parser.{parse_clip, parse_cmt, parse_cdsi, parse_cusd, parse_registration}
use callstack.Voice.State.{CallState}

-- The events that the dispatcher emits.
pub data Event : Type 0 where
  ring : Event
  caller_id : Text → Event
  dtmf : Text → Event
  call_state : CallState → Event
  raw_sms_notification : Text → Text → Text → Event
  raw_delivery_report : Text → ℕ → Event
  ussd_response : ℕ → Text → ℕ → Event

-- What the first colon has before it and behind it, nothing where there is none.
unfoldable pub before_colon : Text → Text
before_colon [] = []
before_colon (c ∷ s) = let rest = before_colon s in if c == b':' then [] else c ∷ rest

unfoldable pub behind_colon : Text → Text
behind_colon [] = []
behind_colon (c ∷ s) = let rest = behind_colon s in if c == b':' then s else rest

-- `digit[:-1]` with `digit[-1]`.
unfoldable pub unsnoc : ℕ → Text → Text × ℕ
unsnoc c [] = ([], c)
unsnoc c (d ∷ s) = let r = unsnoc d s in (c ∷ r.0, r.1)

-- The digit without a pair of quotation marks around it.
unfoldable pub unquoted : Text → Text
unquoted [] = []
unquoted (c ∷ []) = c ∷ []
unquoted (c ∷ d ∷ s) =
    let r = unsnoc d s in if (c == r.1) && ((c == b'"') || (c == 39)) then strip r.0 else c ∷ d ∷ s

unfoldable pub parse_dtmf_digit : Text → Text
parse_dtmf_digit payload =
    let digit = unquoted (strip payload) in
    if (length digit == 1) && all is_dtmf digit then digit else []

-- `x or ""`
abbrev pub or_empty : Option Text → Text
or_empty none = []
or_empty (some s) = s

abbrev pub dtmf_event : Text → Option Event
dtmf_event [] = none
dtmf_event (c ∷ s) = some (dtmf (c ∷ s))

abbrev pub report_event : Option (Text × ℕ) → Option Event
report_event none = none
report_event (some (storage, index)) = some (raw_delivery_report storage index)

abbrev pub ussd_event : Option (ℕ × Text × ℕ) → Option Event
ussd_event none = none
ussd_event (some (status, message, encoding)) = some (ussd_response status message encoding)

-- `_dispatch_event`: the event of a code and the line that follows it, if there is one.
unfoldable pub event_of : Text → Text → Option Event
event_of line followup =
    if text_eq line (codes "RING")
    then some ring
    else if starts_with (codes "+CLIP:") line
    then some (caller_id (or_empty (parse_clip line)))
    else if starts_with (codes "+DTMF:") line || starts_with (codes "RXDTMF:") line
    then dtmf_event (parse_dtmf_digit (behind_colon line))
    else if text_eq line (codes "VOICE CALL: BEGIN")
    then some (call_state CallState.active)
    else if starts_with (codes "VOICE CALL: END") line
    then some (call_state CallState.ended)
    else if is_in line final_dial_failure
    then some (call_state CallState.ended)
    else if starts_with (codes "+CMT:") line
    then some (raw_sms_notification (or_empty (parse_cmt line)) followup line)
    else if starts_with (codes "+CMTI:") line
    then some (raw_sms_notification [] [] line)
    else if starts_with (codes "+CDSI:") line
    then report_event (parse_cdsi line)
    else if starts_with (codes "+CUSD:") line
    then ussd_event (parse_cusd line)
    else none

abbrev pub registration_prefixes : List Text
registration_prefixes = codes "+CREG:" ∷ codes "+CGREG:" ∷ codes "+CEREG:" ∷ []

abbrev pub status_for_log : Text → Option (ℕ × ℕ) → Text
status_for_log family none = family ++ codes ":<redacted>"
status_for_log family (some (mode, status)) = family ++ (codes ": status=" ++ decimal status)

unfoldable pub log_safe_urc : Text → Text
log_safe_urc line =
    if starts_with (codes "+CUSD:") line
    then codes "+CUSD:<redacted>"
    else if starts_with_any (codes "+CMT:" ∷ codes "+CMTI:" ∷ []) line
    then before_colon line ++ codes ":<redacted>"
    else if starts_with_any registration_prefixes line
    then status_for_log (before_colon line) (parse_registration line)
    else line

-- A hook with the lines that it has collected.
pub record CaptureHook : Type 0 where
  pub prefixes : List Text
  pub lines : List Text

-- `URCDispatcher`, with what it has emitted.
pub record UrcDispatcher : Type 0 where
  pub capture_hooks : List CaptureHook
  pub emitted : List Event

unfoldable pub add_capture_hook : UrcDispatcher → List Text → List Text → UrcDispatcher
add_capture_hook d prefixes lines = record d {
  capture_hooks = d.capture_hooks ++ record { prefixes = prefixes; lines = lines } ∷ [];
}

unfoldable pub texts_eq : List Text → List Text → Bool
texts_eq [] [] = true
texts_eq [] (t ∷ ts) = false
texts_eq (s ∷ ss) [] = false
texts_eq (s ∷ ss) (t ∷ ts) = text_eq s t && texts_eq ss ts

-- `list.remove` of the pair: the first hook that is equal to it, and none is no error.
unfoldable pub remove_equal : List Text → List Text → List CaptureHook → List CaptureHook
remove_equal prefixes lines [] = []
remove_equal prefixes lines (h ∷ hooks) =
    let rest = remove_equal prefixes lines hooks in
    if texts_eq h.prefixes prefixes && texts_eq h.lines lines then hooks else h ∷ rest

unfoldable pub remove_capture_hook : UrcDispatcher → List Text → List Text → UrcDispatcher
remove_capture_hook d prefixes lines = record d {
  capture_hooks = remove_equal prefixes lines d.capture_hooks;
}

unfoldable pub capture : Text → CaptureHook → CaptureHook
capture line h =
    if starts_with_any h.prefixes line then record h { lines = h.lines ++ line ∷ [] } else h

abbrev pub as_list : Option Event → List Event
as_list none = []
as_list (some e) = e ∷ []

unfoldable pub dispatch : UrcDispatcher → Text → Text → UrcDispatcher
dispatch d line followup = record {
  capture_hooks = map (capture line) d.capture_hooks;
  emitted = d.emitted ++ as_list (event_of line followup);
}

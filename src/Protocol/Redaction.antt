-- ===== src/Protocol/Redaction.antt =====
-- callstack/protocol/executor.py: what the log shows of commands and of lines of responses.
use callstack.Prelude.{
  ◌≡◌, true, false, not, ◌&&◌, List, [], ◌∷◌, ◌++◌, Text, codes, text_eq, text_eq_refl,
  if◌then◌else◌, arith,
}
use callstack.Protocol.Lines.{
  strip, starts_with_any, is_sensitive_command_line, is_final_result_line,
}
use callstack.Protocol.Parser.{parse_registration}
use callstack.Protocol.Urc.{before_colon, registration_prefixes, status_for_log}

unfoldable pub command_for_log : Text → Text
command_for_log command =
    if is_sensitive_command_line command then codes "AT+CPIN=<redacted>" else command

abbrev pub reading_prefixes : List Text
reading_prefixes = codes "AT+CMGR" ∷ codes "AT+CMGL" ∷ []

unfoldable pub response_line_for_log : Text → Text → Text
response_line_for_log command raw =
    let control = strip raw in
    if is_sensitive_command_line control
    then command_for_log control
    else if not (text_eq (command_for_log command) command) && text_eq control command
    then command_for_log command
    else if starts_with_any registration_prefixes control
    then status_for_log (before_colon control) (parse_registration control)
    else if starts_with_any reading_prefixes command && not (is_final_result_line raw)
    then codes "<redacted SMS read response>"
    else if starts_with_any (codes "+CMT:" ∷ codes "+CMTI:" ∷ []) control
    then before_colon control ++ codes ":<redacted>"
    else raw

-- A line with a PIN in it looks the same in the log whatever the PIN is; and of the messages that a
-- reading command returns, no line but a registration or a final result is shown.
pub response_line_for_log_private :
    (command raw : Text)
    → (is_sensitive_command_line (strip raw) ≡ true
        → response_line_for_log command raw ≡ codes "AT+CPIN=<redacted>")
      × (is_sensitive_command_line (strip raw) ≡ false
          → is_sensitive_command_line command ≡ false
          → starts_with_any reading_prefixes command ≡ true
          → starts_with_any registration_prefixes (strip raw) ≡ false
          → is_final_result_line raw ≡ false
          → response_line_for_log command raw ≡ codes "<redacted SMS read response>")
unfolding response_line_for_log command_for_log
response_line_for_log_private command raw =
    ((λ h. ground arith), (λ h k r n f. let same = text_eq_refl command in ground arith))

-- ===== src/Tests/Modem.antt =====
-- The start-up of the modem on concrete answers (callstack/modem.py).
use callstack.Protocol.Parser.{parse_cpin}
use callstack.Protocol.Parser.Scan.{after, one_line}
use callstack.Protocol.Lines.{is_space, lstrip, rstrip, strip}
use callstack.Protocol.Commands.{cpin_enter, is_code}
use callstack.Prelude.{
  ◌≡◌, refl, true, false, List, [], ◌∷◌, some, Text, codes, text_eq, if◌then◌else◌,
}
use callstack.Pdu.Phone.{is_digit}
use callstack.Modem.{
  by_status, data_lines, enter_pin, sim_answer, sim_status, Answer, responded, check_sim_pin,
  Attempt,
}
use callstack.Modem.Sim.{IsCareful, check_sim_pin-IsCareful}

-- The SIM waits for its PIN, and takes any.
abbrev locked : Text → Answer
locked command = responded true (
    if text_eq command (codes "AT+CPIN?")
    then codes "+CPIN: SIM PIN" ∷ codes "OK" ∷ []
    else codes "OK" ∷ [])

check_sim_pin-IsCareful_example :
    (sent : List Text) × ((check_sim_pin is_digit locked (some (codes "1234"))).0
      ≡ codes "AT+CPIN?" ∷ sent)
    × IsCareful is_digit locked
        (some (codes "1234"))
        sent
        (check_sim_pin is_digit locked (some (codes "1234"))).1
check_sim_pin-IsCareful_example = check_sim_pin-IsCareful is_digit locked (some (codes "1234"))

pin_sent :
    (check_sim_pin is_digit locked (some (codes "1234"))).0
    ≡ codes "AT+CPIN?" ∷ codes "AT+CPIN=\"1234\"" ∷ []
unfolding check_sim_pin sim_answer by_status sim_status data_lines text_eq parse_cpin after lstrip
    is_space one_line strip rstrip enter_pin cpin_enter is_code
pin_sent = refl

abbrev in_vain : Attempt
in_vain = record { shut_before = false; shut_after = false; goes_through = false }

abbrev outage : List Attempt
outage = in_vain ∷ in_vain ∷ record in_vain { goes_through = true } ∷ in_vain ∷ []

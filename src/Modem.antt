-- ===== src/Modem.antt =====
-- callstack/modem.py: the start-up of the modem with the check of the SIM, and the loop that reconnects.
-- What a command comes to is a parameter, and so are `str.isdigit` and the initialisation of the SMS
-- service. Times are natural numbers of milliseconds.
pub mod Sim
pub mod Backoff
use callstack.Prelude.{
  ℕ, zero, suc, ◌*◌, Bool, true, false, not, ◌&&◌, ◌||◌, List, [], ◌∷◌, ◌++◌, Option, none, some,
  Text, codes, text_eq, leb, if◌then◌else◌,
}
use callstack.Protocol.Lines.{is_final_result_line}
use callstack.Protocol.Commands.{cpin_enter, cpin_puk, is_empty}
use callstack.Protocol.Parser.{parse_cpin}

-- `ATResponse.data_lines`
unfoldable pub data_lines : List Text → List Text
data_lines [] = []
data_lines (l ∷ []) = if is_final_result_line l then [] else l ∷ []
data_lines (l ∷ k ∷ lines) = l ∷ data_lines (k ∷ lines)

-- A response, its success and its lines, or an error that `execute` raises.
pub data Answer : Type 0 where
  responded : Bool → List Text → Answer
  failed : Answer

-- How the check of the SIM ends: the errors that it raises itself, and another error.
pub data SimCheck : Type 0 where
  sim_ready sim_unlocked pin_required puk_required unlock_error other_error : SimCheck

-- The loop over the lines: the first status that is not empty, or what the last line has.
unfoldable pub sim_status : Option Text → List Text → Option Text
sim_status status [] = status
sim_status status (l ∷ lines) =
    let rest = sim_status (parse_cpin l) lines in
    elim (parse_cpin l) [ none ↦ rest | some s ↦ if is_empty s then rest else some s ]

unfoldable pub after_pin : Answer → SimCheck
after_pin failed = other_error
after_pin (responded success lines) = if success then sim_unlocked else unlock_error

abbrev pub passes : SimCheck → Bool
passes sim_ready = true
passes sim_unlocked = true
passes _ = false

module _ (execute : Text → Answer) where
  -- Commands whose answers are not looked at, up to one that raises.
  unfoldable pub send_each : List Text → List Text × Bool
  send_each [] = ([], true)
  send_each (command ∷ commands) =
      let rest = send_each commands in
      elim (execute command) [
        | failed ↦ (command ∷ [], false)
        | responded success lines ↦ (command ∷ rest.0, rest.1)
      ]

module _ (isdigit : ℕ → Bool) (execute : Text → Answer) where
  -- The commands that are sent, and how it ends.
  unfoldable pub enter_pin : Option Text → List Text × SimCheck
  enter_pin none = ([], pin_required)
  enter_pin (some pin) =
      if is_empty pin then ([], pin_required) else elim (cpin_enter isdigit pin) [
        | none ↦ ([], other_error)
        | some command ↦ (command ∷ [], after_pin (execute command))
      ]

  unfoldable pub by_status : Option Text → Option Text → List Text × SimCheck
  by_status sim_pin none = ([], unlock_error)
  by_status sim_pin (some status) =
      if text_eq status (codes "READY")
      then ([], sim_ready)
      else if text_eq status (codes "SIM PIN")
      then enter_pin sim_pin
      else if text_eq status (codes "SIM PUK")
      then ([], puk_required)
      else ([], unlock_error)

  unfoldable pub sim_answer : Option Text → Answer → List Text × SimCheck
  sim_answer sim_pin failed = ([], other_error)
  sim_answer sim_pin (responded success lines) =
      if success then by_status sim_pin (sim_status none (data_lines lines)) else ([], unlock_error)

  -- `_check_sim_pin`
  unfoldable pub check_sim_pin : Option Text → List Text × SimCheck
  check_sim_pin sim_pin =
      let query = codes "AT+CPIN?" in
      let r = sim_answer sim_pin (execute query) in (query ∷ r.0, r.1)

  -- `_initialize_modem`: the commands, and whether it returns.
  unfoldable pub initialize_modem : Option Text → List Text × Bool
  initialize_modem sim_pin =
      let echo = send_each execute (codes "ATE0" ∷ []) in
      let sim = check_sim_pin sim_pin in
      let after =
        send_each execute (codes "AT+CLIP=1" ∷ codes "AT+CVHU=0" ∷ codes "AT+COLP=1" ∷ []) in
      if not echo.1
      then (echo.0, false)
      else if passes sim.1
      then (echo.0 ++ (sim.0 ++ after.0), after.1)
      else (echo.0 ++ sim.0, false)

  -- `unlock_puk`
  unfoldable pub unlock_puk : Text → Text → SimCheck
  unlock_puk puk new_pin = elim (cpin_puk isdigit puk new_pin) [
    | none ↦ other_error
    | some command ↦ after_pin (execute command)
  ]

-- An attempt to reconnect: whether the modem is shut down when the loop is at its head and after the
-- sleep, and whether opening, initialising and starting the reader go through.
pub record Attempt : Type 0 where
  pub shut_before : Bool
  pub shut_after : Bool
  pub goes_through : Bool

-- `min(delay * 2, max_delay)`
abbrev pub next_delay : ℕ → ℕ
next_delay delay = if leb (delay * 2) 60000 then delay * 2 else 60000

-- `_auto_reconnect`, over the attempts: the sleeps, and whether it has reconnected.
unfoldable pub auto_reconnect : ℕ → List Attempt → List ℕ × Bool
auto_reconnect delay [] = ([], false)
auto_reconnect delay (a ∷ attempts) =
    let rest = auto_reconnect (next_delay delay) attempts in
    if a.shut_before
    then ([], false)
    else if a.shut_after
    then (delay ∷ [], false)
    else if a.goes_through
    then (delay ∷ [], true)
    else (delay ∷ rest.0, rest.1)

-- ===== src/Network.antt =====
-- callstack/network.py: `NetworkService`. What the modem answers to a command is a parameter, and so is
-- the time that a poll takes; times are natural numbers of one clock.
pub mod Chosen
pub mod Waiting
use callstack.Prelude.{
  ℕ, zero, suc, ◌+◌, ◌-◌, Bool, true, false, not, ◌&&◌, ◌||◌, List, [], ◌∷◌, ◌++◌, Option, none,
  some, Text, codes, ltb, leb, ◌==◌, if◌then◌else◌, ◌>>=◌,
}
use callstack.Protocol.Lines.{lstrip}
use callstack.Protocol.Commands.{ℤ, decimal}
use callstack.Protocol.Parser.Scan.{after, number, quoted}
use callstack.Protocol.Parser.{parse_signal_quality, parse_registration}
use callstack.Utils.Signal.{rssi_to_dbm, rssi_to_description, ber_to_description}

pub record SignalInfo : Type 0 where
  pub rssi : ℕ
  pub ber : ℕ
  pub dbm : Option ℤ
  pub description : Text
  pub ber_description : Text

pub record RegistrationInfo : Type 0 where
  pub status : ℕ
  pub mode : ℕ

unfoldable pub registered : RegistrationInfo → Bool
registered info = (info.status == 1) || (info.status == 5)

unfoldable pub roaming : RegistrationInfo → Bool
roaming info = info.status == 5

unfoldable pub registration_description : RegistrationInfo → Text
registration_description info =
    if info.status == 0
    then codes "not registered"
    else if info.status == 1
    then codes "registered (home)"
    else if info.status == 2
    then codes "searching"
    else if info.status == 3
    then codes "registration denied"
    else if info.status == 4
    then codes "unknown"
    else if info.status == 5
    then codes "registered (roaming)"
    else codes "unknown (" ++ (decimal info.status ++ codes ")")

-- The first line that has a value.
unfoldable pub first_of : {A : Type 0} → (Text → Option A) → List Text → Option A
first_of f [] = none
first_of f (line ∷ lines) =
    let rest = first_of f lines in elim (f line) [ none ↦ rest | some a ↦ some a ]

-- The snapshot, and the numbers of the event that is emitted, if one is.
unfoldable pub signal_quality : List Text → SignalInfo × Option (ℕ × ℕ)
signal_quality lines = elim (first_of parse_signal_quality lines) [
  | none ↦ (
    record {
      rssi = 99;
      ber = 99;
      dbm = none;
      description = codes "unknown";
      ber_description = codes "unknown";
    },
    none,
  )
  | some (rssi, ber) ↦ (
    record {
      rssi = rssi;
      ber = ber;
      dbm = rssi_to_dbm rssi;
      description = rssi_to_description rssi;
      ber_description = ber_to_description ber;
    },
    some (rssi, ber),
  )
]

-- What a query comes to: the lines that are captured meanwhile, and whether it is answered, runs into
-- its timeout, or raises another error.
pub data Query : Type 0 where
  answered : List Text → Query
  timed_out : List Text → Query
  raised : Query

-- The loop over the commands: the lines captured by the end, or the error.
unfoldable pub query_all : (Text → Query) → List Text → List Text → Option (List Text)
query_all ask [] lines = some lines
query_all ask (command ∷ commands) lines = elim (ask command) [
  | answered more ↦ query_all ask commands (lines ++ more)
  | timed_out more ↦ elim (lines ++ more) [
    | [] ↦ query_all ask commands []
    | l ∷ ls ↦ some (l ∷ ls)
  ]
  | raised ↦ none
]

-- `ATCommand.REGISTRATION`, `PACKET_REGISTRATION` and `LTE_REGISTRATION`.
abbrev pub registration_commands : List Text
registration_commands = codes "AT+CREG?" ∷ codes "AT+CGREG?" ∷ codes "AT+CEREG?" ∷ []

-- `status_priority.get(info.status, 3)`
abbrev pub status_priority : RegistrationInfo → ℕ
status_priority info =
    if info.status == 3
    then 5
    else if info.status == 2
    then 4
    else if info.status == 4
    then 2
    else if info.status == 0
    then 1
    else 3

-- `max`, which keeps the first of the largest.
unfoldable pub max_by_priority : RegistrationInfo → List RegistrationInfo → RegistrationInfo
max_by_priority best [] = best
max_by_priority best (info ∷ infos) =
    max_by_priority (if ltb (status_priority best) (status_priority info) then info else best) infos

abbrev pub info_of : ℕ × ℕ → RegistrationInfo
info_of (mode, status) = record { status = status; mode = mode }

abbrev pub best_of : List RegistrationInfo → RegistrationInfo
best_of [] = record { status = 0; mode = 0 }
best_of (info ∷ infos) = max_by_priority info infos

-- The loop over the captured lines, and what follows it.
unfoldable pub choose : List RegistrationInfo → List Text → RegistrationInfo
choose parsed [] = best_of parsed
choose parsed (line ∷ lines) = elim (parse_registration line) [
  | none ↦ choose parsed lines
  | some (mode, status) ↦ elim (registered (info_of (mode, status))) [
    | true ↦ info_of (mode, status)
    | false ↦ choose (parsed ++ info_of (mode, status) ∷ []) lines
  ]
]

unfoldable pub registration : (Text → Query) → Option RegistrationInfo
registration ask = do lines ← query_all ask registration_commands []; some (choose [] lines)

-- `_COPS_RE`
unfoldable pub parse_cops : Text → Option Text
parse_cops line = do
  s ← after (codes "+COPS:") line
  mode ← number (lstrip s)
  t ← after (codes ",") mode.1
  format ← number t
  u ← after (codes ",") format.1
  name ← quoted u
  some name.0

unfoldable pub operator : List Text → Option Text
operator lines = first_of parse_cops lines

-- One poll, and the sleep after it: whether it raises, what it finds, how long it takes, and how much
-- later than asked for the loop wakes up.
pub record Poll : Type 0 where
  pub raises : Bool
  pub info : RegistrationInfo
  pub took : ℕ
  pub late : ℕ

abbrev pub smaller : ℕ → ℕ → ℕ
smaller a b = if leb a b then a else b

-- How the loop ends: with its answer, or with the error of a poll.
pub data Waited : Type 0 where
  answered : Bool → Waited
  poll_error : Waited

-- The loop of `wait_for_registration`, from a time on; a poll depends on when it is made.
unfoldable pub wait_loop : ℕ → ℕ → ℕ → ℕ → (ℕ → Poll) → Option Waited
wait_loop zero now deadline poll_interval poll = none
wait_loop (suc fuel) now deadline poll_interval poll =
    let p = poll now in
    let done = now + p.took in
    let rest =
      wait_loop fuel (done + smaller poll_interval (deadline - done) + p.late) deadline
        poll_interval poll in
    if not (ltb now deadline)
    then some (answered false)
    else if p.raises
    then some poll_error
    else if registered p.info
    then some (answered true)
    else if leb deadline done
    then some (answered false)
    else rest

-- Both are checked to be positive, or a `ValueError`.
unfoldable pub wait_for_registration : ℕ → ℕ → ℕ → ℕ → (ℕ → Poll) → Option Waited
wait_for_registration fuel start timeout poll_interval poll =
    if leb 1 timeout && leb 1 poll_interval
    then wait_loop fuel start (start + timeout) poll_interval poll
    else none

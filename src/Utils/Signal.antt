-- ===== src/Utils/Signal.antt =====
-- callstack/utils/signal_quality.py: what the numbers of `AT+CSQ` mean.
use callstack.Prelude.{
  ℕ, suc, ◌-◌, ◌*◌, ◌≡◌, Bool, true, Option, none, some, Text, codes, leb, ◌==◌, if◌then◌else◌,
  arith,
}
use callstack.Protocol.Commands.{ℤ, pos, negsuc}

-- `-113 + (2 * rssi)`
abbrev pub dbm_of : ℕ → ℤ
dbm_of rssi = if leb 113 (2 * rssi) then pos (2 * rssi - 113) else negsuc (112 - 2 * rssi)

-- `d >= -n`
abbrev pub at_least : ℤ → ℕ → Bool
at_least (pos d) n = true
at_least (negsuc d) n = leb (suc d) n

unfoldable pub rssi_to_dbm : ℕ → Option ℤ
rssi_to_dbm rssi = if rssi == 99 then none else some (dbm_of rssi)

abbrev pub describe_dbm : Option ℤ → Text
describe_dbm none = codes "unknown"
describe_dbm (some dbm) =
    if at_least dbm 70
    then codes "excellent"
    else if at_least dbm 85
    then codes "good"
    else if at_least dbm 100
    then codes "fair"
    else codes "poor"

unfoldable pub rssi_to_description : ℕ → Text
rssi_to_description rssi = if rssi == 99 then codes "unknown" else describe_dbm (rssi_to_dbm rssi)

unfoldable pub ber_to_description : ℕ → Text
ber_to_description ber =
    if ber == 99
    then codes "unknown"
    else if leb ber 1
    then codes "excellent"
    else if leb ber 3
    then codes "good"
    else if leb ber 5
    then codes "fair"
    else codes "poor"

-- The words by the modem's own scale, without decibels: 22 and more is excellent, 14 and more
-- good, 7 and more fair, less is poor, and 99 is unknown.
pub rssi_to_description-scale :
    (rssi : ℕ)
    → rssi_to_description rssi ≡ (
        if rssi == 99
        then codes "unknown"
        else if leb 22 rssi
        then codes "excellent"
        else if leb 14 rssi
        then codes "good"
        else if leb 7 rssi
        then codes "fair"
        else codes "poor")
unfolding rssi_to_description rssi_to_dbm
rssi_to_description-scale rssi = ground arith

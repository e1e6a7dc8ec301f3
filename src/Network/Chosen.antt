-- ===== src/Network/Chosen.antt =====
-- Which of the captured registrations is reported (callstack/network.py).
use callstack.Prelude.{◌≤◌, ◌≡◌, ◌⊎◌, true, false, List, [], ◌∷◌, none, some, Text, any, All}
use callstack.Protocol.Parser.{parse_registration}
use callstack.Network.{RegistrationInfo, registered, status_priority, info_of}

-- The registrations that can be read in the lines.
abbrev pub infos_of : List Text → List RegistrationInfo
infos_of [] = []
infos_of (line ∷ lines) =
    let rest = infos_of lines in
    elim (parse_registration line) [ none ↦ rest | some p ↦ info_of p ∷ rest ]

abbrev pub Among : RegistrationInfo → List RegistrationInfo → Type 0
Among r [] = ⊥
Among r (i ∷ infos) = (r ≡ i) ⊎ Among r infos

-- Registered where one of them is; of those that are not, the most telling; and none but one of them,
-- where there is one.
pub record IsChosen (r : RegistrationInfo) (infos : List RegistrationInfo) : Type 0 where
  pub as_any : registered r ≡ any registered infos
  pub highest : (registered r ≡ true) ⊎ All (λ i. status_priority i ≤ status_priority r) infos
  pub one_of : (infos ≡ []) ⊎ Among r infos

-- None of them is registered.
abbrev Unregistered : List RegistrationInfo → Type 0
Unregistered infos = any registered infos ≡ false

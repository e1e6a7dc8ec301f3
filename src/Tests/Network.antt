-- ===== src/Tests/Network.antt =====
-- The network service on concrete answers (callstack/network.py).
use callstack.Protocol.Parser.Scan.{after, digits_from, number, quoted, up_to_mark}
use callstack.Protocol.Lines.{is_space, lstrip}
use callstack.Prelude.{
  ℕ, ◌≤◌, ◌≡◌, refl, true, false, List, [], ◌∷◌, some, Text, codes, leb, if◌then◌else◌, arith,
}
use callstack.Network.{
  first_of, parse_cops, registered, Poll, Waited, answered, wait_for_registration, operator,
}
use callstack.Network.Waiting.{wait_for_registration_ends, wait_for_registration_live}

abbrev captured : List Text
captured =
    codes "+CREG: 0,2"
    ∷ codes "+CGREG: what"
    ∷ codes "+CEREG: 2,5,\"1F\",\"00A1\",7"
    ∷ codes "+CREG: 3"
    ∷ []

-- Registered from the time 7 on.
abbrev slow_start : ℕ → Poll
slow_start t = record {
  raises = false;
  info = record { status = if leb 7 t then 1 else 2; mode = 0 };
  took = 1;
  late = 1;
}

wait_for_registration_ends_example :
    (o : Waited) × (wait_for_registration 21 3 20 2 slow_start ≡ some o)
wait_for_registration_ends_example =
    wait_for_registration_ends 3 20 2 slow_start (omega arith) (omega arith)

slow_start-registered : (t : ℕ) → 7 ≤ t → registered (slow_start t).info ≡ true
unfolding registered
slow_start-registered t h = ground arith

wait_for_registration_live_example :
    wait_for_registration 21 3 20 2 slow_start ≡ some (answered true)
wait_for_registration_live_example =
    wait_for_registration_live 3 20 2 7 4 slow_start (omega arith) (λ t. refl) slow_start-registered
      (λ t. omega arith) (omega arith) (omega arith)

operator_name : operator (codes "OK" ∷ codes "+COPS: 0,0,\"Tele2\"" ∷ []) ≡ some (codes "Tele2")
unfolding operator first_of parse_cops after number lstrip is_space digits_from quoted up_to_mark
operator_name = refl

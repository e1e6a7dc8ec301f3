-- ===== src/Tests/Utils.antt =====
-- A call that fails twice (callstack/utils/retry.py).
use callstack.Prelude.{ℕ, Bool, true, ◌==◌, if◌then◌else◌}
use callstack.Utils.Retry.{Policy, Call, returned, raised}

abbrev thrice : Policy
thrice = record { max_attempts = 3; base_delay = 500; max_delay = 10000; backoff_factor = 2 }

abbrev all_errors : ℕ → Bool
all_errors e = true

abbrev flaky : ℕ → Call ℕ ℕ
flaky attempt = if attempt == 3 then returned 7 else raised attempt

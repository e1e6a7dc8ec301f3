-- ===== src/Utils/Retry.antt =====
-- callstack/utils/retry.py: the wrapper that `retry` makes. The function that is retried is what each
-- attempt ends with, by its number; the delays are natural numbers, and the log is left out.
pub mod Attempts
use callstack.Prelude.{
  ℕ, zero, suc, ◌+◌, ◌*◌, Bool, true, false, List, [], ◌∷◌, leb, ◌==◌, if◌then◌else◌,
}

pub record Policy : Type 0 where
  pub max_attempts : ℕ
  pub base_delay : ℕ
  pub max_delay : ℕ
  pub backoff_factor : ℕ

pub data Call (A E : Type 0) : Type 0 where
  returned : A → Call A E
  raised : E → Call A E

-- How the wrapper ends: with the value, with the exception, or with `raise None` when there is no
-- attempt.
pub data Ended (A E : Type 0) : Type 0 where
  result : A → Ended A E
  failure : E → Ended A E
  no_attempt : Ended A E

module _ {A E : Type 0} (p : Policy) (retryable : E → Bool) (fn : ℕ → Call A E) where
  -- `min(delay * backoff_factor, max_delay)`
  unfoldable pub backed_off : ℕ → ℕ
  backed_off delay =
      if leb (delay * p.backoff_factor) p.max_delay then delay * p.backoff_factor else p.max_delay

  -- One attempt, with how the later ones would end, and the delays in between.
  unfoldable pub after_attempt : ℕ → ℕ → Call A E → Ended A E × List ℕ → Ended A E × List ℕ
  after_attempt attempt delay (returned a) later = (result a, [])
  after_attempt attempt delay (raised e) later =
      if retryable e
      then if attempt == p.max_attempts then (failure e, []) else (later.0, delay ∷ later.1)
      else (failure e, [])

  -- The loop, with so many attempts left.
  unfoldable pub retry_from : ℕ → ℕ → ℕ → Ended A E × List ℕ
  retry_from zero attempt delay = (no_attempt, [])
  retry_from (suc left) attempt delay =
      after_attempt attempt delay (fn attempt) (retry_from left (suc attempt) (backed_off delay))

  unfoldable pub retry : Ended A E × List ℕ
  retry = retry_from p.max_attempts 1 p.base_delay

-- ===== src/Utils/Retry/Attempts.antt =====
-- How often a call is retried, and what comes of it.
use callstack.Prelude.{
  ℕ, zero, suc, ◌+◌, ◌≤◌, ◌<◌, ◌≡◌, refl, ap, ◌∙◌, Bool, true, false, List, [], ◌==◌, length, All,
  arith, ◌⊎◌, inl, inr, sym, subst,
}
use callstack.Utils.Retry.{
  Policy, Call, returned, raised, Ended, result, failure, backed_off, after_attempt, retry_from,
  retry,
}

module _ {A E : Type 0} (p : Policy) (retryable : E → Bool) (fn : ℕ → Call A E) where
  -- So many attempts from this one on fail in a way that is worth another.
  abbrev pub Failing : ℕ → ℕ → Type 0
  Failing attempt zero = Unit
  Failing attempt (suc n) =
      ((e : E) × (fn attempt ≡ raised e) × (retryable e ≡ true)) × Failing (suc attempt) n

  -- What the wrapper ends with after so many delays, none of them over the bound.
  abbrev pub EndsWith : Ended A E → ℕ → ℕ → Ended A E × List ℕ → Type 0
  EndsWith r n bound out = (out.0 ≡ r) × (length out.1 ≡ n) × All (λ d. d ≤ bound) out.1

  abbrev pub ending : Call A E → Ended A E
  ending (returned a) = result a
  ending (raised e) = failure e

  -- An attempt that is the last one: it returns, raises what is not retried, or is the last allowed.
  abbrev pub IsLast : ℕ → Call A E → Type 0
  IsLast attempt (returned a) = Unit
  IsLast attempt (raised e) = (retryable e ≡ false) ⊎ (attempt ≡ p.max_attempts)

  last_attempt :
      (attempt delay : ℕ) (c : Call A E) (later : Ended A E × List ℕ)
      → IsLast attempt c
      → after_attempt p retryable fn attempt delay c later ≡ (ending c, [])
  unfolding after_attempt
  last_attempt attempt delay (returned a) later l = refl
  last_attempt attempt delay (raised e) later (inl fatal) = rw fatal refl
  last_attempt attempt delay (raised e) later (inr last) = ground arith

  loop_result :
      (n left attempt delay bound : ℕ)
      → left + attempt ≡ suc p.max_attempts
      → n < left
      → delay ≤ bound
      → p.max_delay ≤ bound
      → Failing attempt n
      → IsLast (attempt + n) (fn (attempt + n))
      → EndsWith (ending (fn (attempt + n))) n bound (retry_from p retryable fn left attempt delay)
  unfolding retry_from after_attempt backed_off
  loop_result n zero attempt delay bound count few d m f l = absurd (omega arith)
  loop_result zero (suc left) attempt delay bound count few d m f l =
      let here : attempt + 0 ≡ attempt = omega arith in
      let last = subst (λ k. IsLast k (fn k)) here l in
      let out =
        last_attempt attempt delay (fn attempt)
          (retry_from p retryable fn left (suc attempt) (backed_off p retryable fn delay)) last in
      subst
        (λ k. EndsWith (ending (fn k)) 0 bound (retry_from p retryable fn (suc left) attempt delay))
        (sym here) (subst (EndsWith (ending (fn attempt)) 0 bound) (sym out) (refl, refl, tt))
  loop_result (suc n) (suc left) attempt delay bound count few d m f l =
      let (e, at, worth) = f.0 in
      let more : (attempt == p.max_attempts) ≡ false = ground arith in
      let capped : backed_off p retryable fn delay ≤ bound = ground arith in
      let there : attempt + suc n ≡ suc attempt + n = omega arith in
      let (x, y, z) =
        loop_result n left (suc attempt) (backed_off p retryable fn delay) bound (omega arith)
          (omega arith) capped m f.1 (subst (λ k. IsLast k (fn k)) there l) in
      rw (at, retry_from)
        (rw worth (rw more (x ∙ ap (λ k. ending (fn k)) (sym there), omega arith, (d, z))))

  -- When so many attempts fail in a way that is retried and the next one, which is allowed, returns,
  -- raises what is not retried or is the last allowed, then the wrapper ends as that attempt does,
  -- after one delay for each attempt before it, and no delay is over a bound that the base delay and
  -- the cap keep.
  pub retry_lem :
      (n bound : ℕ)
      → n < p.max_attempts
      → p.base_delay ≤ bound
      → p.max_delay ≤ bound
      → Failing 1 n
      → IsLast (1 + n) (fn (1 + n))
      → EndsWith (ending (fn (1 + n))) n bound (retry p retryable fn)
  unfolding retry
  retry_lem n bound few d m f l =
      loop_result n p.max_attempts 1 p.base_delay bound (omega arith) few d m f l

-- ===== src/Modem/Backoff.antt =====
-- The delays between the attempts to reconnect (callstack/modem.py).
use callstack.Prelude.{
  ℕ, suc, ◌≤◌, ◌≡◌, refl, ap, List, [], ◌∷◌, if◌then◌else◌, arith, length, Bool-cases, inl, inr,
}
use callstack.Modem.{Attempt, next_delay, auto_reconnect}

-- No delay is shorter than the one before it, or longer than a minute.
abbrev pub IsBackoff : ℕ → List ℕ → Type 0
IsBackoff before [] = Unit
IsBackoff before (d ∷ delays) = (before ≤ d) × (d ≤ 60000) × IsBackoff d delays

-- The number of attempts that are made: up to the shutdown, or to the one that goes through.
abbrev pub attempted : List Attempt → ℕ
attempted [] = 0
attempted (a ∷ attempts) =
    let rest = attempted attempts in
    if a.shut_before then 0 else if a.shut_after then 1 else if a.goes_through then 1 else suc rest

next_delay_bounds : (d : ℕ) → d ≤ 60000 → (d ≤ next_delay d) × (next_delay d ≤ 60000)
next_delay_bounds d h = ground arith

earlier-IsBackoff : (a b : ℕ) (delays : List ℕ) → a ≤ b → IsBackoff b delays → IsBackoff a delays
earlier-IsBackoff a b [] h k = tt
earlier-IsBackoff a b (d ∷ delays) h k = let (le, cap, rest) = k in (omega arith, cap, rest)

-- From an interval of at most a minute on, the delays never get shorter and never exceed a minute; there is
-- one before each attempt, and none after one that goes through or after the shutdown.
pub auto_reconnect-IsBackoff :
    (interval : ℕ) (attempts : List Attempt)
    → interval ≤ 60000
    → IsBackoff interval (auto_reconnect interval attempts).0
      × (length (auto_reconnect interval attempts).0 ≡ attempted attempts)
unfolding auto_reconnect
auto_reconnect-IsBackoff interval [] h = (tt, refl)
auto_reconnect-IsBackoff interval (a ∷ attempts) h = elim (Bool-cases a.shut_before) [
  | inl e ↦ rw e (tt, refl)
  | inr e ↦ elim (Bool-cases a.shut_after) [
    | inl f ↦ rw e (rw f ((omega arith, h, tt), refl))
    | inr f ↦ elim (Bool-cases a.goes_through) [
      | inl g ↦ rw e (rw f (rw g ((omega arith, h, tt), refl)))
      | inr g ↦
          let (low, high) = next_delay_bounds interval h in
          let (b, n) = auto_reconnect-IsBackoff (next_delay interval) attempts high in
          rw e (
            rw f (
              rw g (
                (
                  omega arith,
                  h,
                  earlier-IsBackoff interval (next_delay interval)
                      (auto_reconnect (next_delay interval) attempts).0 low b,
                ),
                ap suc n,
              )))
    ]
  ]
]

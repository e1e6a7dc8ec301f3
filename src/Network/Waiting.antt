-- ===== src/Network/Waiting.antt =====
-- How `wait_for_registration` of callstack/network.py ends.
use callstack.Prelude.{
  ℕ, zero, suc, ◌+◌, ◌-◌, ◌≤◌, ◌<◌, ◌≡◌, refl, true, false, ◌&&◌, some, ltb, leb, arith, Bool-cases,
  inl, inr, leb→le,
}
use callstack.Network.{
  registered, Poll, Waited, answered, poll_error, smaller, wait_loop, wait_for_registration,
}

leb→gt : (a b : ℕ) → leb a b ≡ false → b < a
leb→gt a b h = ground arith

module _ (deadline poll_interval : ℕ) (poll : ℕ → Poll) (positive : 1 ≤ poll_interval) where
  -- When the next poll is made.
  abbrev next : ℕ → ℕ
  next now =
      let done = now + (poll now).took in
      done + smaller poll_interval (deadline - done) + (poll now).late

  smaller_positive : (d : ℕ) → 1 ≤ d → 1 ≤ smaller poll_interval d
  smaller_positive d h = ground arith

  smaller_le : (d : ℕ) → smaller poll_interval d ≤ poll_interval
  smaller_le d = ground arith

  wait_loop-ends :
      (fuel now : ℕ)
      → deadline - now < fuel
      → (o : Waited) × (wait_loop fuel now deadline poll_interval poll ≡ some o)
  unfolding wait_loop
  wait_loop-ends zero now h = absurd (omega arith)
  wait_loop-ends (suc fuel) now h = elim (Bool-cases (ltb now deadline)) [
    | inr e ↦ (answered false, rw e refl)
    | inl e ↦ elim (Bool-cases (poll now).raises) [
      | inl x ↦ (poll_error, rw e (rw x refl))
      | inr x ↦ elim (Bool-cases (registered (poll now).info)) [
        | inl r ↦ (answered true, rw e (rw x (rw r refl)))
        | inr r ↦ elim (Bool-cases (leb deadline (now + (poll now).took))) [
          | inl d ↦ (answered false, rw e (rw x (rw r (rw d refl))))
          | inr d ↦
              let before = leb→gt deadline (now + (poll now).took) d in
              let later = smaller_positive (deadline - (now + (poll now).took)) (omega arith) in
              let (b, q) = wait_loop-ends fuel (next now) (omega arith) in
              (b, rw e (rw x (rw r (rw d q))))
        ]
      ]
    ]
  ]

  -- No poll raises, every poll from a time on finds the modem registered, and one round of the loop takes at most so long.
  module _ (from round : ℕ) (calm : (t : ℕ) → (poll t).raises ≡ false)
      (on : (t : ℕ) → from ≤ t → registered (poll t).info ≡ true)
      (quick : (t : ℕ) → (poll t).took + poll_interval + (poll t).late ≤ round) where
    not_yet : (now : ℕ) → registered (poll now).info ≡ false → now < from
    not_yet now r = elim (Bool-cases (leb from now)) [
      | inl e ↦ let yes_on = on now (leb→le from now e) in absurd (ground arith)
      | inr e ↦ leb→gt from now e
    ]

    wait_loop-registers :
        (fuel now : ℕ)
        → deadline - now < fuel
        → now ≤ from + round
        → from + round < deadline
        → wait_loop fuel now deadline poll_interval poll ≡ some (answered true)
    unfolding wait_loop
    wait_loop-registers zero now h k l = absurd (omega arith)
    wait_loop-registers (suc fuel) now h k l =
        let e : ltb now deadline ≡ true = ground arith in
        elim (Bool-cases (registered (poll now).info)) [
          | inl r ↦ rw e (rw (calm now) (rw r refl))
          | inr r ↦
              let early = not_yet now r in
              let short = quick now in
              let d : leb deadline (now + (poll now).took) ≡ false = ground arith in
              let later = smaller_positive (deadline - (now + (poll now).took)) (omega arith) in
              let sleep = smaller_le (deadline - (now + (poll now).took)) in
              rw e (
                rw (calm now)
                  (rw r (rw d (wait_loop-registers fuel (next now) (omega arith) (omega arith) l))))
        ]

-- Whatever the polls find or raise, and however long they take, the loop ends: so many rounds as the timeout has
-- units, and one more, are enough.
pub wait_for_registration_ends :
    (start timeout poll_interval : ℕ) (poll : ℕ → Poll)
    → 1 ≤ timeout
    → 1 ≤ poll_interval
    → (o : Waited) × (wait_for_registration (suc timeout) start timeout poll_interval poll ≡ some o)
unfolding wait_for_registration
wait_for_registration_ends start timeout poll_interval poll h k =
    let valid : (leb 1 timeout && leb 1 poll_interval) ≡ true = ground arith in
    let (b, e) =
      wait_loop-ends (start + timeout) poll_interval poll k (suc timeout) start (omega arith) in
    (b, rw valid e)

-- Where no poll raises, the modem is registered from a time on, and the deadline is more than one round
-- of the loop away from that time, the loop reports it: a round is a poll, the sleep and the delay
-- after it.
pub wait_for_registration_live :
    (start timeout poll_interval from round : ℕ) (poll : ℕ → Poll)
    → 1 ≤ poll_interval
    → ((t : ℕ) → (poll t).raises ≡ false)
    → ((t : ℕ) → from ≤ t → registered (poll t).info ≡ true)
    → ((t : ℕ) → (poll t).took + poll_interval + (poll t).late ≤ round)
    → start ≤ from
    → from + round < start + timeout
    → wait_for_registration (suc timeout) start timeout poll_interval poll ≡ some (answered true)
unfolding wait_for_registration
wait_for_registration_live start timeout poll_interval from round poll k calm on quick first l =
    let valid : (leb 1 timeout && leb 1 poll_interval) ≡ true = ground arith in
    rw valid (
      wait_loop-registers (start + timeout) poll_interval poll k from round calm on quick
        (suc timeout) start (omega arith) (omega arith) l)

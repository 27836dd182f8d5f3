-- ===== src/Pilot/Schedule.antt =====
-- When the autopilot resets the demo.
use displayfab_smart_factory.Prelude.{
  ℕ, zero, suc, ◌+◌, ◌*◌, ◌≤◌, ◌<◌, true, false, ◌≡◌, inl, inr, arith, any_of, leb, Bool-cases,
}
use displayfab_smart_factory.Pilot.{
  PilotSettings, Pilot, Jobs, beat_every, run_every, reset_every, after_sleep, tick, ticks,
}

module _ (s : PilotSettings) where
  -- a tick resets, or the counter of the reset has grown by a beat
  tick-resets :
      (p : Pilot)
      → ((tick s p).0.resets ≡ leb (reset_every s) (p.since_reset + beat_every s))
        × ((tick s p).0.resets ≡ false → (tick s p).1.since_reset ≡ p.since_reset + beat_every s)
  unfolding tick after_sleep
  tick-resets p = (ground arith, λ h. ground arith)

  -- From any state of its counters, the autopilot resets the demo within any number of ticks, one at
  -- least, whose sleeps and the time after_sleep already reach the interval of the resets.
  pub ticks-resets :
      (n : ℕ) (p : Pilot)
      → reset_every s ≤ p.since_reset + suc n * beat_every s
      → any_of (λ (j : Jobs). j.resets) (ticks s (suc n) p) ≡ true
  unfolding ticks any_of
  ticks-resets zero p h =
      let (due, grown) = tick-resets p in
      let now : leb (reset_every s) (p.since_reset + beat_every s) ≡ true = ground arith in
      ground arith
  ticks-resets (suc n) p h = elim (Bool-cases (tick s p).0.resets) [
    | inl t ↦ ground arith
    | inr f ↦
        let (due, grown) = tick-resets p in
        let later = ticks-resets n (tick s p).1 (omega (arith, grown f, h)) in ground arith
  ]

  -- the counters stay below their intervals
  pub tick-bounds :
      (p : Pilot)
      → ((tick s p).1.since_run < run_every s) × ((tick s p).1.since_reset < reset_every s)
  unfolding tick after_sleep
  tick-bounds p = (ground arith, ground arith)

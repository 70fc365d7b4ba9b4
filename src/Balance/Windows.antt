-- ===== src/Balance/Windows.antt =====
-- pipeline/load_balance.py, `_canary` and `tick`: what makes a bad window, and what it does.
use moirax_asm.Prelude.{
  ◌+◌, ◌≤◌, max, ◌≡◌, refl, true, false, not, ◌&&◌, ◌||◌, inl, inr, Option, none, some, leb,
  if◌then◌else◌, arith, Bool-cases,
}
use moirax_asm.Prelude.Num.{Num, IsOrdered, min_num, max_num, min_num-le_right}
use moirax_asm.Balance.{
  RateState, Settings, Probe, Balancer, current_qps, errors, compare_latency, canary, ramp, tick,
  after_bad, canary_due,
}

module _ {F : Type 0} ⦃N : Num F⦄ (c : Settings F) where
  slow-errors :
      (r : Probe F) (b : Option F) → errors c r ≡ false → (compare_latency c r b).1 ≡ false
  unfolding compare_latency errors
  slow-errors r none h = ground arith
  slow-errors r (some b) h = ground arith

  bad_only : (r : Probe F) (b : Option F) → (errors c r || (compare_latency c r b).1) ≡ errors c r
  bad_only r b = elim (Bool-cases (errors c r)) [
    | inl e ↦ rw e refl
    | inr e ↦ rw (e, slow-errors r b e) refl
  ]

  after_bad_lem :
      (b : Balancer F)
      → ((after_bad c b).1 ≡ not (leb c.bad_windows_limit b.state.bad_windows))
        × ((after_bad c b).0.state.bad_windows ≡ b.state.bad_windows)
        × ((after_bad c b).0.state.qps ≡ b.state.qps)
        × ((after_bad c b).0.state.paused
            ≡ (b.state.paused || leb c.bad_windows_limit b.state.bad_windows))
  unfolding after_bad
  after_bad_lem b = ground arith

  -- A canary is a bad window exactly if it was not answered: the latency that it measures never
  -- decides, since only an unanswered canary is compared with the baseline. A bad window divides the
  -- rate, counts, and pauses when the count reaches its limit; a good one starts the count anew and
  -- keeps the rate and the pause.
  pub canary-errors :
      (r : Probe F) (b : Balancer F)
      → let bad = errors c r in
        let n = b.state.bad_windows + 1 in
        ((canary c r b).0.state.bad_windows ≡ (if bad then n else 0))
        × ((canary c r b).0.state.qps ≡ (
            if bad then max_num (N.of_ℕ 1) (N.div b.state.qps c.throttle_divisor) else b.state.qps))
        × ((canary c r b).0.state.paused ≡ (b.state.paused || bad && leb c.bad_windows_limit n))
        × ((canary c r b).1 ≡ not (bad && leb c.bad_windows_limit n))
  unfolding canary
  canary-errors r b = elim (Bool-cases (errors c r)) [
    | inl e ↦
        let (answer, windows, rate, pause) = after_bad_lem (record b {
          state = record b.state {
            qps = max_num (N.of_ℕ 1) (N.div b.state.qps c.throttle_divisor);
            bad_windows = b.state.bad_windows + 1;
            baseline_latency = (compare_latency c r b.state.baseline_latency).0;
          };
        }) in
        rw e (windows, rate, pause, answer)
    | inr e ↦ rw (bad_only r b.state.baseline_latency, e) (refl, refl, ground arith, refl)
  ]

  ramp-paused :
      (now : F) (s : RateState F)
      → ((ramp c now s).paused ≡ s.paused) × ((ramp c now s).bad_windows ≡ s.bad_windows)
  unfolding ramp
  ramp-paused now s = ground arith

  -- `tick` answers whether the module is not paused after it, and a pause outlasts every tick.
  pub tick-paused :
      (now : F) (r : Probe F) (b : Balancer F)
      → ((tick c now r b).1 ≡ not (tick c now r b).0.state.paused)
        × (b.state.paused ≡ true → (tick c now r b).0.state.paused ≡ true)
  unfolding tick
  tick-paused now r b =
      let (p, n) = ramp-paused now b.state in
      let (windows, rate, pause, answer) =
        canary-errors r (record b { state = ramp c now b.state }) in
      elim (Bool-cases (canary_due c now (ramp c now b.state))) [
        | inl due ↦ rw (due, answer, pause, p) (ground arith, ground arith)
        | inr early ↦ rw (early, p) (refl, λ h. h)
      ]

  -- Given that truncation keeps the order, and so does the product with the breaker's throttle
  -- factor, the rate for the queries is at least one per second and at most the maximum times the
  -- factor.
  pub current_qps-bounded :
      IsOrdered N
      → ((x y : F) → N.le x y ≡ true → N.trunc x ≤ N.trunc y)
      → (factor : F) → ((x y : F) → N.le x y ≡ true → N.le (N.mul x factor) (N.mul y factor) ≡ true)
      → (s : RateState F)
      → (1 ≤ current_qps c factor s)
        × (current_qps c factor s ≤ max 1 (N.trunc (N.mul c.max_qps factor)))
  unfolding current_qps
  current_qps-bounded o mono factor scales s = (
    omega arith,
    omega (
      arith,
      mono (N.mul (min_num s.qps c.max_qps) factor) (N.mul c.max_qps factor)
          (scales (min_num s.qps c.max_qps) c.max_qps (min_num-le_right o s.qps c.max_qps)),
    ),
  )

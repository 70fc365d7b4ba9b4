-- ===== src/Balance.antt =====
-- pipeline/load_balance.py: the ramp and the canary of the DNS queries. One canary's answers, from
-- the native probe or the container, are a record; its lock makes a tick one step.
pub mod Windows
mod Samples
use moirax_asm.Prelude.{
  ℕ, zero, suc, ◌+◌, max, Bool, true, false, not, ◌&&◌, ◌||◌, Option, none, some, List, [], ◌∷◌,
  ◌++◌, if◌then◌else◌, leb, ◌==◌,
}
use moirax_asm.Prelude.Num.{Num, lt, min_num, max_num, is_zero}

pub record RateState (F : Type 0) : Type 0 where
  pub qps : F
  pub bad_windows : ℕ
  pub baseline_latency : Option F
  pub last_canary : F
  pub last_ramp : F
  pub paused : Bool

pub record Settings (F : Type 0) : Type 0 where
  pub ramp_start_qps : F
  pub ramp_step_qps : F
  pub ramp_interval_sec : F
  pub max_qps : F
  pub canary_interval_sec : F
  pub latency_multiplier : F
  pub throttle_divisor : F
  pub bad_windows_limit : ℕ
  -- 0.001, the least baseline
  pub least_latency : F
  pub fast_dns_enabled : Bool

-- One canary: whether the native UDP probe was answered, the container's exit code and whether
-- its output holds an answer, and the clock before and after.
pub record Probe (F : Type 0) : Type 0 where
  pub native_ok : Bool
  pub exit_code : ℕ
  pub answers : Bool
  pub started : F
  pub ended : F

pub record Balancer (F : Type 0) : Type 0 where
  pub state : RateState F
  pub forced_pauses : ℕ

module _ {F : Type 0} ⦃N : Num F⦄ (c : Settings F) where
  unfoldable pub init : F → Balancer F
  init now = record {
    state = record {
      qps = c.ramp_start_qps;
      bad_windows = 0;
      baseline_latency = none;
      last_canary = N.of_ℕ 0;
      last_ramp = now;
      paused = false;
    };
    forced_pauses = 0;
  }

  -- `factor` is the breaker's throttle factor of the module.
  unfoldable pub current_qps : F → RateState F → ℕ
  current_qps factor s = max 1 (N.trunc (N.mul (min_num s.qps c.max_qps) factor))

  abbrev pub native_hit : Probe F → Bool
  native_hit r = c.fast_dns_enabled && r.native_ok

  -- The result is that of the native probe, or of the container.
  unfoldable pub errors : Probe F → Bool
  errors r = not (native_hit r) && (not (r.exit_code == 0) || not (r.answers || native_hit r))

  abbrev latency : Probe F → F
  latency r = max_num (N.of_ℕ 0) (N.sub r.ended r.started)

  abbrev answered : Probe F → Bool
  answered r = not (errors r) && (native_hit r || r.answers)

  -- The baseline after the first test, and whether the answer was slow.
  unfoldable pub compare_latency : Probe F → Option F → Option F × Bool
  unfolding errors
  compare_latency r none =
      if not (errors r)
      then (some (if lt (N.of_ℕ 0) (latency r) then latency r else c.least_latency), false)
      else (none, false)
  compare_latency r (some b) =
      (some b, not (answered r) && lt (N.mul b c.latency_multiplier) (latency r))

  abbrev or_latency : Option F → F → Option F
  or_latency none l = some l
  or_latency (some b) l = some b

  after_bad : Balancer F → Balancer F × Bool
  after_bad b =
      if leb c.bad_windows_limit b.state.bad_windows
      then (
        record b { state = record b.state { paused = true }; forced_pauses = b.forced_pauses + 1 },
        false,
      )
      else (b, true)

  unfoldable pub canary : Probe F → Balancer F → Balancer F × Bool
  unfolding after_bad compare_latency
  canary r b =
      let (baseline, slow) = compare_latency r b.state.baseline_latency in
      let bad = record b.state {
        qps = max_num (N.of_ℕ 1) (N.div b.state.qps c.throttle_divisor);
        bad_windows = b.state.bad_windows + 1;
        baseline_latency = baseline;
      } in
      let good = record b.state {
        bad_windows = 0;
        baseline_latency = or_latency baseline (latency r);
      } in
      if errors r || slow
      then after_bad (record b { state = bad })
      else (record b { state = good }, true)

  unfoldable pub ramp : F → RateState F → RateState F
  ramp now s =
      if N.le c.ramp_interval_sec (N.sub now s.last_ramp)
      then record s { qps = min_num (N.add s.qps c.ramp_step_qps) c.max_qps; last_ramp = now }
      else s

  abbrev pub canary_due : F → RateState F → Bool
  canary_due now s = is_zero s.last_canary || N.le c.canary_interval_sec (N.sub now s.last_canary)

  abbrev stamped : F → Balancer F → Balancer F
  stamped now b = record b { state = record b.state { last_canary = now } }

  -- `false` if the canary paused the module.
  unfoldable pub tick : F → Probe F → Balancer F → Balancer F × Bool
  tick now r b =
      let s = ramp now b.state in
      let (b', fine) = canary r (record b { state = s }) in
      let done = stamped now b' in
      if canary_due now s
      then (done, fine && not done.state.paused)
      else (record b { state = s }, not s.paused)

-- ===== src/Balance/Samples.antt =====
-- A balancer over thousandths, and the theorems on it.
use moirax_asm.Prelude.{ℕ, ◌*◌, ◌/◌, ◌≤◌, ◌≡◌, true, false, leb, arith}
use moirax_asm.Prelude.Num.{milli}
use moirax_asm.Balance.{Settings, Probe, Balancer, init}

abbrev settings : Settings ℕ
settings = record {
  ramp_start_qps = 100000;
  ramp_step_qps = 50000;
  ramp_interval_sec = 60000;
  max_qps = 500000;
  canary_interval_sec = 120000;
  latency_multiplier = 3000;
  throttle_divisor = 2000;
  bad_windows_limit = 2;
  least_latency = 1;
  fast_dns_enabled = true;
}

-- No answer, after a second.
abbrev lost : Probe ℕ
lost = record { native_ok = false; exit_code = 1; answers = false; started = 0; ended = 1000 }

abbrev start : Balancer ℕ
start = init settings 0

trunc_mono : (a b : ℕ) → leb a b ≡ true → a / 1000 ≤ b / 1000
trunc_mono a b h = let k : a ≤ b = ground arith in omega (arith, k)

scales_half : (a b : ℕ) → leb a b ≡ true → leb (a * 500 / 1000) (b * 500 / 1000) ≡ true
scales_half a b h = let k : a ≤ b = ground arith in ground (arith, k)

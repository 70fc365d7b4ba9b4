-- ===== src/Pace/Samples.antt =====
-- A pacer over thousandths, and the theorems on it.
use moirax_asm.Prelude.{
  ℕ, ◌+◌, ◌*◌, ◌/◌, ◌≤◌, ◌≡◌, refl, Bool, true, false, [], ◌∷◌, Text, codes, max, leb, arith,
}
use moirax_asm.Prelude.Num.{milli, milli-IsOrdered}
use moirax_asm.Pace.{Settings, init, current_pps}
use moirax_asm.Pace.Rounds.{Round, IsLogged, ticks, ticks-IsLogged}
use moirax_asm.Pace.Rate.{InRange, current_pps-bounded}

abbrev settings : Settings ℕ
settings = record {
  ramp_start_pps = 100000;
  ramp_step_pps = 50000;
  ramp_interval_sec = 60000;
  canary_interval_sec = 120000;
  sentinel_limit = 3;
  bad_windows_limit = 2;
  full_rate_cap = 1000000;
}

abbrev sentinel : Text × ℕ
sentinel = (codes "10.0.0.1", 443)

abbrev silent : Text × ℕ → Bool
silent s = false

-- A round in which the sentinel is missed.
abbrev missed : ℕ → Round ℕ
missed now = record { now = now; sentinels = sentinel ∷ []; tcp_open = silent; cap = 500000 }

ticks-IsLogged_example :
    IsLogged (ticks settings (missed 1000 ∷ missed 200000 ∷ missed 400000 ∷ []) (init settings 0))
ticks-IsLogged_example =
    ticks-IsLogged settings 0 (missed 1000 ∷ missed 200000 ∷ missed 400000 ∷ [])

trunc_mono : (a b : ℕ) → leb a b ≡ true → a / 1000 ≤ b / 1000
trunc_mono a b h = let k : a ≤ b = ground arith in omega (arith, k)

current_pps-bounded_example :
    (1 ≤ current_pps settings (init settings 0).state 500000)
    × (current_pps settings (init settings 0).state 500000 ≤ max 1 (500000 / 1000))
current_pps-bounded_example =
    current_pps-bounded settings milli-IsOrdered trunc_mono (init settings 0).state 500000

grows : (a : ℕ) → leb a (a + 50000) ≡ true
grows a = ground arith

halves : (a : ℕ) → leb 1000 a ≡ true → leb (a * 1000 / 2000) a ≡ true
halves a h = ground arith

start-InRange : InRange settings milli-IsOrdered 500000 (init settings 0).state
unfolding init
start-InRange = record { least = refl; most = refl }

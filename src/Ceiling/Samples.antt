-- ===== src/Ceiling/Samples.antt =====
-- A ceiling over thousandths of a core, and the theorems on it.
use moirax_asm.Prelude.{ℕ, ◌*◌, ◌≤◌, ◌<◌, ◌≡◌, refl, ◌+◌, true, false, max, Option, none, some}
use moirax_asm.Prelude.Num.{milli, lt}
use moirax_asm.Ceiling.{Ceiling, Settings, Overlay, fits, plan, acquire, share, enough}
use moirax_asm.Ceiling.Plan.{plan_largest}

abbrev settings : Settings ℕ
settings = record {
  ram_mb = 2048;
  ram_mb_max = 8192;
  cpu_cores = 2000;
  cpu_cores_max = 12000;
  auto = true;
  cpu_reserve = 1000;
  ram_reserve_mb = 1024;
  container_cpu_floor = 500;
  container_ram_floor_mb = 256;
}

abbrev overlay : Overlay
overlay = record { cpu_cores = some 1; ram_mb = some 512 }

abbrev ceiling : Ceiling ℕ
ceiling = record {
  budget_ram_mb = 2048;
  budget_cpu = 2000;
  cpu_floor = 500;
  ram_floor = 256;
  running = 0;
}

abbrev no_meminfo : ℕ → Option ℕ
no_meminfo n = none

plan_largest_example :
    let l = plan 0 no_meminfo ceiling 6 in
    (1 ≤ l.concurrency)
    × (l.concurrency ≤ max 1 6)
    × (l.concurrency * l.memory_mb ≤ max 1 2048)
    × (1 < l.concurrency
        → (ceiling.ram_floor ≤ l.memory_mb)
          × (lt (◌+◌ l.cpus 0) ceiling.cpu_floor ≡ false)
          × (enough l.memory_mb (no_meminfo l.concurrency) ≡ true))
    × ((m : ℕ) → l.concurrency < m → m ≤ max 1 6 → fits 0 no_meminfo ceiling m ≡ false)
plan_largest_example = plan_largest 0 no_meminfo ceiling 6

two_fit : fits 0 no_meminfo (acquire 0 no_meminfo 2 ceiling).0 2 ≡ true
unfolding fits acquire share
two_fit = refl

-- ===== src/Adapter/Samples.antt =====
-- A tool with a fallback, and the theorems on it.
use moirax_asm.Prelude.{
  ℕ, true, false, Option, none, some, [], Text, text_eq, codes, if◌then◌else◌, ◌==◌,
}
use moirax_asm.Prelude.Num.{milli}
use moirax_asm.Breaker.{Settings}
use moirax_asm.Adapter.{Tool, ContainerRun, ran, no_run, Adapter, Request}

abbrev settings : Settings ℕ
settings = record {
  error_ratio_limit = 200;
  window_sec = 60000;
  bad_windows = 2;
  throttle_divisor = 2000;
  latency_multiplier = 2000;
  has_target_dir = true;
}

abbrev tools : Text → Option Tool
tools name =
    if text_eq name (codes "dnsx")
    then some (record { name = name; proxied = false; fallback = some (codes "massdns") })
    else some (record { name = name; proxied = false; fallback = none })

-- The third run succeeds, and the runner raises at the fourth.
abbrev run : ℕ → ContainerRun ℕ
run i =
    if i == 3
    then no_run
    else ran
        (record {
          returncode = if i == 2 then 0 else 1;
          duration = 1000;
          ended = i;
          seconds = 1;
          stamp = [];
        })
        false

abbrev request : Request
request = record {
  planned_concurrency = 1;
  retries = 1;
  allow_fallback = true;
  breaker_probe = false;
}

abbrev adapter : Adapter ℕ
adapter = record {
  rows = [];
  proxy_pool = none;
  ceiling = record {
    budget_ram_mb = 2048;
    budget_cpu = 2000;
    cpu_floor = 500;
    ram_floor = 256;
    running = 0;
  };
  runs = 0;
  log = [];
  slept = [];
}

abbrev unmasked : Text → Text
unmasked t = t

abbrev no_meminfo : ℕ → Option ℕ
no_meminfo n = none

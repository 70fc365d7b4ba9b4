-- ===== src/Breaker/Samples.antt =====
-- A breaker over thousandths, and the theorems on it.
use moirax_asm.Prelude.{ℕ, ◌≡◌, refl, true, false, none, List, [], ◌∷◌, codes}
use moirax_asm.Prelude.Num.{milli}
use moirax_asm.Prelude.{is_none, ◌&&◌}
use moirax_asm.Prelude.Dict.{lookup, Dict}
use moirax_asm.Breaker.Rows.{load_persisted_pauses, load_persisted_pauses-allows, allows}
use moirax_asm.Breaker.{
  World, Settings, fresh, record_event, force_pause, evaluate_errors, evaluate_latency, pause_row,
  count_window,
}
use moirax_asm.Breaker.Windows.{outcome, reset, start, IsTold}
use moirax_asm.Breaker.Pausing.{
  AnyCall, pause_needs_windows, plain, force, any_calls, IsAnnounced, any_calls-IsAnnounced,
}

-- The values of tools.yaml, in thousandths.
abbrev settings : Settings ℕ
settings = record {
  error_ratio_limit = 200;
  window_sec = 60000;
  bad_windows = 2;
  throttle_divisor = 2000;
  latency_multiplier = 2000;
  has_target_dir = true;
}

-- A failure in each of two windows that follow one another.
abbrev two_failures : List (AnyCall settings)
two_failures =
    plain (outcome 1000 false none none false) ∷ plain (outcome 70000 false none none false) ∷ []

two_failures_pause : (any_calls settings two_failures (start settings)).0.paused ≡ true
unfolding any_calls record_event evaluate_errors evaluate_latency pause_row count_window fresh
two_failures_pause = refl

pause_needs_windows_example :
    (last : ℕ) × IsTold settings 2 last (any_calls settings two_failures (start settings)).1.log
pause_needs_windows_example = pause_needs_windows settings two_failures refl two_failures_pause

any_calls-IsAnnounced_example : IsAnnounced settings (
    any_calls settings
      (force 1000 (codes "canary") ∷ plain (reset 2000 (codes "auto")) ∷ [])
      (start settings))
any_calls-IsAnnounced_example =
    any_calls-IsAnnounced settings
      (force 1000 (codes "canary") ∷ plain (reset 2000 (codes "auto")) ∷ [])

-- A row that a canary has paused.
abbrev paused_rows : Dict (World ℕ)
paused_rows = (codes "port-sweep", force_pause settings 1000 (codes "canary") (start settings)) ∷ []

load_persisted_pauses-allows_example :
    allows settings
      (load_persisted_pauses settings ((codes "ffuf", codes "canary") ∷ []) paused_rows)
      (codes "ffuf")
    ≡ (is_none (lookup (codes "ffuf") ((codes "ffuf", codes "canary") ∷ []))
        && allows settings paused_rows (codes "ffuf"))
load_persisted_pauses-allows_example =
    load_persisted_pauses-allows settings (codes "ffuf") ((codes "ffuf", codes "canary") ∷ [])
      paused_rows

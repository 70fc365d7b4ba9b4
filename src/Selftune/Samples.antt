-- ===== src/Selftune/Samples.antt =====
-- The settings of tools.yaml, and the theorems on them.
use moirax_asm.Prelude.{◌≡◌, min, ◌≤◌, [], ◌∷◌, List, Text, codes, some, true, arith}
use moirax_asm.Selftune.{Settings, Tuning, one, update_tuning, applied_budgets}
use moirax_asm.Selftune.Bounds.{applied_budgets-update_tuning}
use moirax_asm.Selftune.Signals.{clean_runs, clean_runs_settle}

abbrev settings : Settings
settings = record {
  enabled = true;
  low = 5000;
  high = 20000;
  growth = 12500;
  decay = 9000;
  clean_needed = 2;
  ledger_max = 50;
}

-- A multiplier of 1.25.
abbrev tuning : Tuning
tuning = record { passive = 12500; active = one; clean_streak = 0; ledger = [] }

abbrev markers : List Text
markers = codes "active_budget" ∷ codes "passive:crtsh:timeout" ∷ []

applied_budgets-update_tuning_example :
    (180000
      ≤ (applied_budgets settings 180000 360000
          (update_tuning settings markers [] (some tuning))).0)
    × (360000
        ≤ (applied_budgets settings 180000 360000
            (update_tuning settings markers [] (some tuning))).1)
applied_budgets-update_tuning_example =
    applied_budgets-update_tuning settings (omega arith) (omega arith) (omega arith) markers []
      tuning 180000 360000 (omega arith) (omega arith)

clean_runs_settle_example :
    ((clean_runs settings 2501 tuning).passive ≡ min 12500 one)
    × ((clean_runs settings 2501 tuning).active ≡ min one one)
clean_runs_settle_example =
    clean_runs_settle settings (omega arith) (omega arith) (omega arith) 2501 tuning
      (omega arith, omega arith) (omega arith, omega arith) (omega arith) (omega arith)

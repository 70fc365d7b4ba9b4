-- ===== src/Engine/Samples.antt =====
-- A machine whose environment is its clock, and the theorems on it.
use moirax_asm.Prelude.{ℕ, ◌≡◌, ◌↔◌, true, false, not, ◌&&◌, none, [], ◌∷◌, ◌+◌, codes, is_empty}
use moirax_asm.State.{run_completed}
use moirax_asm.Engine.{Machine, World, returned, raised}
use moirax_asm.Engine.Branches.{run_passive_modules, run_active_modules}
use moirax_asm.Engine.Ladder.{ExitCodes, classify_status}
use moirax_asm.Engine.Guarded.{AreDue, run_modules-IsDue}
use moirax_asm.Engine.Verdicts.{classify_status_completed_iff}

-- Each runner takes a tick; the merge throws.
abbrev machine : Machine ℕ
machine = record {
  names = codes "ffuf" ∷ [];
  target = codes "a.com";
  has_runner = λ name. true;
  run =
      λ name left w. record { env = w.env + 1; disk = w.disk; noted = []; outcome = returned none };
  time = λ e. e;
  saved_doc = λ name e. none;
  nested = λ w. record { env = w.env; disk = w.disk; noted = []; outcome = returned none };
  release = λ name e d. (e, d);
  ingest_live = λ e d. (e, d);
  after_failure = λ name reason e. e;
  merge =
      λ w. record { env = w.env; disk = w.disk; noted = []; outcome = raised (codes "disk full") };
  write_ledger = λ e. e;
  alerts = λ e. [];
  paused_names = λ e. [];
  pause_reason = λ name e. [];
  others = λ e d. (e, d);
}

abbrev world : World ℕ
world = record { env = 5; disk = none; partial = []; calls = [] }

abbrev exit_codes : ExitCodes
exit_codes = record { completed = 0; failed = 1; anomaly = 2; partial = 3; stopped = 4 }

run_modules-IsDue_example :
    AreDue (run_passive_modules machine 2 (codes "passive-recon" ∷ []) world)
    × AreDue (run_active_modules machine 2 (codes "passive-recon" ∷ []) world)
run_modules-IsDue_example = run_modules-IsDue machine 2 (codes "passive-recon" ∷ []) world tt

classify_status_completed_iff_example :
    ((classify_status machine true false world).status ≡ run_completed) ↔ (
      (is_empty (machine.alerts world.env)
        && is_empty (machine.paused_names world.env)
        && is_empty world.partial
        && not false)
      ≡ true)
classify_status_completed_iff_example = classify_status_completed_iff machine true false world

-- ===== src/Engine/Verdicts.antt =====
-- pipeline/engine.py, `_classify_status`: which runs are complete.
use moirax_asm.Prelude.{◌≡◌, ◌↔◌, Bool, true, not, ◌&&◌, is_empty, arith}
use moirax_asm.State.{run_completed}
use moirax_asm.Engine.{World, Machine}
use moirax_asm.Engine.Ladder.{classify_status}

-- A run is completed exactly if the breaker has neither alerted nor paused a module, no marker was
-- noted, and neither branch nor the merge failed: no failure passes for a completed run.
pub classify_status_completed_iff :
    {E : Type 0} (M : Machine E) (has_docs broken : Bool) (w : World E)
    → ((classify_status M has_docs broken w).status ≡ run_completed) ↔ (
        (is_empty (M.alerts w.env)
          && is_empty (M.paused_names w.env)
          && is_empty w.partial
          && not broken)
        ≡ true)
unfolding classify_status
classify_status_completed_iff M has_docs broken w = ground arith

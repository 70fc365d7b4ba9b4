-- ===== src/Engine/Ladder.antt =====
-- pipeline/engine.py: the stages after the branches, the status of a run and its exit code. What
-- the branches do in two threads is a parameter.
use moirax_asm.Prelude.{
  ℕ, Bool, false, not, ◌&&◌, ◌||◌, Option, none, some, List, [], ◌∷◌, ◌++◌, if◌then◌else◌, Text,
  codes, is_empty, take,
}
use moirax_asm.State.{
  RunStatus, run_running, run_completed, run_partial, run_failed, run_anomaly, run_stopped,
  set_run_status, fail_running_modules,
}
use moirax_asm.Engine.{
  Outcome, returned, stop_raised, no_wordlist, raised, World, Machine, is_stopped_now,
}

pub data Stage (E : Type 0) : Type 0 where
  passed : World E → Stage E
  halted : World E → Stage E

-- A branch has answered, with a document or none, or has failed; or the ladder threw before.
pub data Joined (E : Type 0) : Type 0 where
  joined : (has_docs broken : Bool) → World E → Joined E
  crashed : Text → World E → Joined E

-- The settings exit_code_*.
pub record ExitCodes : Type 0 where
  pub completed : ℕ
  pub failed : ℕ
  pub anomaly : ℕ
  pub partial : ℕ
  pub stopped : ℕ

unfoldable pub exit_code : ExitCodes → RunStatus → ℕ
exit_code c run_completed = c.completed
exit_code c run_failed = c.failed
exit_code c run_anomaly = c.anomaly
exit_code c run_partial = c.partial
exit_code c run_stopped = c.stopped
exit_code c run_running = 1

-- str(exc)
abbrev pub reason_of : Outcome → Text
reason_of (returned d) = []
reason_of stop_raised = codes "operator stop"
reason_of (no_wordlist reason) = reason
reason_of (raised reason) = reason

pub record Verdict : Type 0 where
  pub status : RunStatus
  pub reason : Option Text
  pub failing_module : Option Text

abbrev joined_text : List Text → Text
joined_text [] = []
joined_text (t ∷ []) = t
joined_text (t ∷ ts) = t ++ b';' ∷ b' ' ∷ joined_text ts

abbrev last_of : Text × Text → List (Text × Text) → Text × Text
last_of a [] = a
last_of a (b ∷ rest) = last_of b rest

unfoldable pub without_anomaly : Bool → Bool → List Text → Verdict
without_anomaly has_docs broken partial =
    if broken && not has_docs
    then record {
      status = run_failed;
      reason = some (codes "no branch produced assets");
      failing_module = none;
    }
    else if not (is_empty partial) || broken
    then record {
      status = run_partial;
      reason = some (if is_empty partial then codes "branch failure" else joined_text partial);
      failing_module = none;
    }
    else record { status = run_completed; reason = none; failing_module = none }

unfoldable pub alert_verdict : List (Text × Text) → Verdict → Verdict
alert_verdict [] v = v
alert_verdict (a ∷ rest) v = record {
  status = run_anomaly;
  reason = some (last_of a rest).1;
  failing_module = some (last_of a rest).0;
}

abbrev pub stop_verdict : Verdict
stop_verdict = record {
  status = run_stopped;
  reason = some (codes "operator stop");
  failing_module = none;
}

module _ {E : Type 0} (M : Machine E) where
  unfoldable pub paused_verdict : List Text → E → Verdict → Verdict
  paused_verdict [] env v = v
  paused_verdict (name ∷ names) env v = record {
    status = run_anomaly;
    reason = some (M.pause_reason name env);
    failing_module = some name;
  }

  -- `_classify_status`
  unfoldable pub classify_status : Bool → Bool → World E → Verdict
  unfolding without_anomaly paused_verdict alert_verdict
  classify_status has_docs broken w =
      alert_verdict (M.alerts w.env)
        (paused_verdict (M.paused_names w.env) w.env (without_anomaly has_docs broken w.partial))

  unfoldable pub set_run : Verdict → Bool → World E → World E
  unfolding set_run_status
  set_run v overwrite w = record w {
    disk =
        set_run_status M.names M.target (M.time w.env) v.status v.reason v.failing_module overwrite
          w.disk;
  }

  unfoldable pub fail_running : World E → World E
  unfolding fail_running_modules
  fail_running w = record w {
    disk = (fail_running_modules M.names M.target (M.time w.env) w.disk).0;
  }

  module _ (c : ExitCodes) where
    unfoldable pub finalize_stopped : World E → World E × ℕ
    unfolding fail_running set_run exit_code
    finalize_stopped w = (set_run stop_verdict false (fail_running w), exit_code c run_stopped)

    unfoldable pub finalize_crash : Text → World E → World E × ℕ
    unfolding is_stopped_now fail_running set_run exit_code
    finalize_crash reason w =
        let failed_run : Verdict = record {
          status = run_failed;
          reason = some (take 500 (codes "engine crash (disclosed): " ++ reason));
          failing_module = none;
        } in
        if is_stopped_now M w
        then (w, exit_code c run_stopped)
        else (set_run failed_run false (fail_running w), exit_code c run_failed)

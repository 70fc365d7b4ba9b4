-- ===== src/Engine/Terminal.antt =====
-- pipeline/engine.py: however its modules end, a run ends with a final status and its exit code.
use moirax_asm.Prelude.{ℕ, ◌≡◌, refl, Bool, true, false, Option, none, some, List, Text, arith}
use moirax_asm.State.{
  Disk, RunStatus, run_running, run_stopped, is_stopped, load_state, operator_stopped, empty_state,
}
use moirax_asm.State.Stop.{stopped}
use moirax_asm.Engine.{World, Machine, is_stopped_now}
use moirax_asm.Engine.Ladder.{ExitCodes, exit_code}

abbrev pub status_of : Disk → Option RunStatus
status_of none = none
status_of (some s) = some s.run.status

-- Neither under way nor, for a verdict, the operator's.
abbrev is_final : RunStatus → Bool
is_final run_running = false
is_final s = true

abbrev is_verdict : RunStatus → Bool
is_verdict run_running = false
is_verdict run_stopped = false
is_verdict s = true

module _ (names : List Text) (target : Text) (now : ℕ) where
  operator_stopped-eq : (d : Disk) → operator_stopped names target now d ≡ stopped d
  unfolding operator_stopped load_state empty_state is_stopped
  operator_stopped-eq none = refl
  operator_stopped-eq (some s) = refl

module _ {E : Type 0} (M : Machine E) where
  pub is_stopped_now-eq : (w : World E) → is_stopped_now M w ≡ stopped w.disk
  unfolding is_stopped_now
  is_stopped_now-eq w = operator_stopped-eq M.names M.target (M.time w.env) w.disk

verdict_unstopped : (s : RunStatus) → is_verdict s ≡ true → is_stopped s ≡ false
unfolding is_stopped
verdict_unstopped run_stopped h = cc
verdict_unstopped s h = ground arith

module _ {E : Type 0} (M : Machine E) (c : ExitCodes) where
  -- The document holds a final status, and the exit code is that of the status.
  pub record IsSettled (out : World E × ℕ) : Type 0 where
    pub status : RunStatus
    pub written : status_of out.0.disk ≡ some status
    pub over : is_final status ≡ true
    pub code : out.1 ≡ exit_code c status

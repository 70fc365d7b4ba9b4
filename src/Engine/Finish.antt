-- ===== src/Engine/Finish.antt =====
-- pipeline/engine.py, `_run_pipeline_impl` and `run_pipeline`: the stages after the branches, and
-- the end of a run. What follows the status, such as the history and the reports, is left out: it
-- writes no state.json, and its exceptions are caught.
use moirax_asm.Prelude.{
  ℕ, Bool, true, false, not, ◌||◌, Option, none, some, List, [], ◌∷◌, ◌++◌, if◌then◌else◌, Text,
  codes,
}
use moirax_asm.State.{Disk, run_running, running, init_state, new_run_state, skip_done}
use moirax_asm.Engine.{
  Outcome, returned, World, Machine, set, is_stopped_now, meanwhile, state_now, released, start,
  fail, complete,
}
use moirax_asm.Engine.Ladder.{
  Stage, passed, halted, Joined, joined, crashed, ExitCodes, reason_of, classify_status, set_run,
  finalize_stopped, finalize_crash, exit_code,
}

module _ {E : Type 0} (M : Machine E) where
  -- The nested DNS after FFUF-4, whose failure is a marker.
  unfoldable pub nested_after : Bool → World E → World E
  nested_after false w = w
  nested_after true w =
      let ran = M.nested w in
      record w {
        env = ran.env;
        disk = ran.disk;
        partial =
            w.partial
            ++ (ran.noted ++ elim ran.outcome [
              | returned d ↦ []
              | other ↦ (codes "nested-dns-ffuf4:" ++ reason_of other) ∷ []
            ]);
      }

  unfoldable pub stage_ended : Bool → Text → Text → World E × Outcome → World E
  unfolding nested_after complete fail
  stage_ended nested tag name (w, returned d) = complete M name (nested_after nested w)
  stage_ended nested tag name (w, other) =
      fail M name (tag ++ b':' ∷ reason_of other) (reason_of other) w

  -- PORT-SWEEP, FFUF-4 and OWASP-PASSIVE.
  unfoldable pub stage : Bool → Text → Text → World E → Stage E
  unfolding is_stopped_now state_now released start stage_ended skip_done
  stage nested tag name w =
      let seen = meanwhile M w in
      if not (M.has_runner name)
      then passed w
      else if is_stopped_now M seen
      then halted seen
      else if skip_done (state_now M seen) name
      then passed seen
      else passed (
          stage_ended nested tag name (
            start M name seen.disk (skip_done (state_now M seen) name) none
              (released M name (meanwhile M seen))))

  unfoldable pub merge_ended : Text → World E × Outcome → Bool × World E
  unfolding complete fail
  merge_ended name (w, returned d) = (false, complete M name w)
  merge_ended name (w, other) =
      (true, fail M name (codes "merge:" ++ reason_of other) (reason_of other) w)

  -- The merge, and whether it failed.
  unfoldable pub merge_stage : Text → World E → Bool × Stage E
  unfolding is_stopped_now state_now set merge_ended skip_done
  merge_stage name w =
      let seen = meanwhile M w in
      let begun = set M name running seen in
      let ran = M.merge begun in
      let after = merge_ended name (
        record begun { env = ran.env; disk = ran.disk; partial = begun.partial ++ ran.noted },
        ran.outcome,
      ) in
      if skip_done (state_now M w) name
      then (false, passed w)
      else if is_stopped_now M seen
      then (false, halted seen)
      else (after.0, passed after.1)

  -- The stages after the merge, as a tag, a module and whether the nested DNS follows.
  unfoldable pub stages : List (Text × Text × Bool) → World E → Stage E
  unfolding stage
  stages [] w = passed w
  stages ((tag, name, nested) ∷ rest) w = elim (stage nested tag name w) [
    | passed w' ↦ stages rest w'
    | halted w' ↦ halted w'
  ]

  module _ (c : ExitCodes) where
    -- From the verdict to the exit code.
    unfoldable pub conclude : Bool → Bool → World E → World E × ℕ
    unfolding is_stopped_now classify_status set_run finalize_stopped exit_code
    conclude has_docs broken w =
        let ledger = record w { env = M.write_ledger w.env } in
        let seen = meanwhile M ledger in
        let verdict = classify_status M has_docs broken seen in
        let judged = meanwhile M seen in
        let written = meanwhile M (set_run M verdict false judged) in
        if is_stopped_now M seen
        then finalize_stopped M c seen
        else if is_stopped_now M judged
        then finalize_stopped M c judged
        else if is_stopped_now M written
        then finalize_stopped M c written
        else (written, exit_code c verdict.status)

    abbrev pub after_stages : Bool → Bool → Stage E → World E × ℕ
    after_stages has_docs broken (passed w) = conclude has_docs broken w
    after_stages has_docs broken (halted w) = finalize_stopped M c w

    abbrev pub after_merge : List (Text × Text × Bool) → Bool → Bool → Bool × Stage E → World E × ℕ
    after_merge names has_docs broken (merge_broken, passed w) =
        after_stages has_docs (broken || merge_broken) (stages names w)
    after_merge names has_docs broken (merge_broken, halted w) = finalize_stopped M c w

    unfoldable pub after_branches : Text → List (Text × Text × Bool) → Joined E → World E × ℕ
    unfolding is_stopped_now finalize_stopped finalize_crash merge_stage stages conclude
    after_branches merge names (crashed reason w) = finalize_crash M c reason w
    after_branches merge names (joined has_docs broken w) =
        let seen = meanwhile M w in
        if is_stopped_now M seen
        then finalize_stopped M c seen
        else after_merge names has_docs broken (merge_stage merge seen)

    -- The document of a run that starts or resumes.
    unfoldable pub begun : Bool → World E → World E
    unfolding init_state new_run_state set_run
    begun resume w =
        let now = M.time w.env in
        let fresh = record w {
          disk =
              if resume
              then (init_state M.names M.target now w.disk).0
              else new_run_state M.names M.target now w.disk;
        } in
        set_run M (record { status = run_running; reason = none; failing_module = none }) resume
          fresh

    unfoldable pub after_pool :
        Option Text
        → (E → Disk → E × Disk)
        → (World E → Joined E)
        → Text
        → List (Text × Text × Bool)
        → World E
        → World E × ℕ
    unfolding finalize_crash after_branches
    after_pool (some reason) release_all branches merge names w = finalize_crash M c reason w
    after_pool none release_all branches merge names w =
        let free = release_all w.env w.disk in
        after_branches merge names (branches (record w { env = free.0; disk = free.1 }))

    -- The run from its start; `pool_refusal` is the reason of the proxy rule when it fails, and
    -- `release_all` the breaker's reset at the start.
    unfoldable pub run_pipeline :
        Bool
        → (E → Option Text)
        → (E → Disk → E × Disk)
        → (World E → Joined E)
        → Text
        → List (Text × Text × Bool)
        → World E
        → World E × ℕ
    unfolding begun is_stopped_now finalize_stopped after_pool
    run_pipeline resume pool_refusal release_all branches merge names w =
        let seen = meanwhile M (begun resume w) in
        if is_stopped_now M seen
        then finalize_stopped M c seen
        else after_pool (pool_refusal seen.env) release_all branches merge names seen

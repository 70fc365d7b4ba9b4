-- ===== src/State/Samples.antt =====
-- The document of one target, and the theorems on it.
use moirax_asm.Prelude.{◌≡◌, false, none, some, List, [], ◌∷◌, Text, codes}
use moirax_asm.State.{running, run_stopped, Disk, set_status, persist_pause}
use moirax_asm.State.Stop.{rows, stopped, persist_pause-unstops}

abbrev names : List Text
names = codes "merge" ∷ codes "port-sweep" ∷ []

abbrev target : Text
target = codes "example.com"

-- A run that the operator has stopped.
abbrev stopped_run : Disk
stopped_run = some (record {
  target = target;
  updated_at = 3;
  modules =
      (codes "merge", record { status = running; started_at = some 1; finished_at = none }) ∷ [];
  run = record { status = run_stopped; reason = none; failing_module = none; updated_at = 3 };
  paused = (codes "merge", record { reason = codes "slow"; paused_at = 2 }) ∷ [];
})

persist_pause-unstops_example :
    let e = persist_pause names target 4 (codes "merge") (codes "errors") stopped_run in
    (stopped e ≡ false)
    × (rows (set_status names target 5 (codes "port-sweep") running e).0 (codes "port-sweep")
        ≡ some (record { status = running; started_at = some 5; finished_at = none }))
persist_pause-unstops_example =
    persist_pause-unstops names target stopped_run 4 5 (codes "merge") (codes "port-sweep")
      (codes "errors")

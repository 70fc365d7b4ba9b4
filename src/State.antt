-- ===== src/State.antt =====
-- pipeline/state.py: the document state.json, its module rows, run status and breaker pauses.
-- The file is `none` until it is written; each operation gets the stamp of `_now()`.
pub mod Stop
pub mod Pauses
mod Samples
use moirax_asm.Prelude.{
  ℕ, Bool, true, false, not, ◌&&◌, ◌||◌, Option, none, some, List, [], ◌∷◌, if◌then◌else◌, Text,
  text_eq, is_empty, codes, is_none, mem,
}
use moirax_asm.Prelude.Dict.{Dict, lookup, insert, remove}

-- The module_status_values of tools.yaml; `invalid` stands for any other string.
pub data Status : Type 0 where
  pending running done failed invalid : Status

-- The run_status_* settings of tools.yaml.
pub data RunStatus : Type 0 where
  run_running run_completed run_partial run_failed run_anomaly run_stopped : RunStatus

pub record Row : Type 0 where
  pub status : Status
  pub started_at : Option ℕ
  pub finished_at : Option ℕ

pub record RunInfo : Type 0 where
  pub status : RunStatus
  pub reason : Option Text
  pub failing_module : Option Text
  pub updated_at : ℕ

pub record Pause : Type 0 where
  pub reason : Text
  pub paused_at : ℕ

pub record State : Type 0 where
  pub target : Text
  pub updated_at : ℕ
  pub modules : Dict Row
  pub run : RunInfo
  pub paused : Dict Pause

-- What is on disk at `state_path`.
abbrev pub Disk : Type 0
Disk = Option State

abbrev pub pending_row : Row
pending_row = record { status = pending; started_at = none; finished_at = none }

-- `modules[str(name)] = {...}` for each name of the setting pipeline_modules.
pending_rows : List Text → Dict Row → Dict Row
pending_rows [] rows = rows
pending_rows (name ∷ names) rows = pending_rows names (insert name pending_row rows)

unfoldable pub is_stopped : RunStatus → Bool
is_stopped run_stopped = true
is_stopped _ = false

unfoldable pub is_anomaly : RunStatus → Bool
is_anomaly run_anomaly = true
is_anomaly _ = false

unfoldable pub save_state : ℕ → State → Disk
save_state now s = some (record s { updated_at = now })

previous_pauses : Disk → Dict Pause
previous_pauses none = []
previous_pauses (some s) = s.paused

abbrev or_pending : Option Row → Row
or_pending none = pending_row
or_pending (some row) = row

abbrev stamp_row : Status → ℕ → Row → Row
stamp_row running now row = record row {
  status = running;
  started_at = some now;
  finished_at = none;
}
stamp_row done now row = record row { status = done; finished_at = some now }
stamp_row failed now row = record row { status = failed; finished_at = some now }
stamp_row s now row = record row { status = s }

write_row : ℕ → Text → Status → State → State
write_row now name status s = record s {
  modules = insert name (stamp_row status now (or_pending (lookup name s.modules))) s.modules;
}

abbrev saved : ℕ → State → Disk × Option State
unfolding save_state
saved now s = (save_state now s, some (record s { updated_at = now }))

abbrev is_running : Status → Bool
is_running running = true
is_running _ = false

running_names : Dict Row → List Text
running_names [] = []
running_names ((name, row) ∷ rows) =
    let rest = running_names rows in if is_running row.status then name ∷ rest else rest

abbrev is_done : Option Row → Bool
is_done none = false
is_done (some row) = elim row.status [ done ↦ true | _ ↦ false ]

unfoldable pub skip_done : State → Text → Bool
skip_done s name = is_done (lookup name s.modules)

-- `names` is the setting pipeline_modules; each operation is for one target directory.
module _ (names : List Text) (target : Text) where
  unfoldable pub empty_state : ℕ → State
  unfolding pending_rows
  empty_state now = record {
    target = target;
    updated_at = now;
    modules = pending_rows names [];
    run = record { status = run_running; reason = none; failing_module = none; updated_at = now };
    paused = [];
  }

  unfoldable pub load_state : ℕ → Disk → State
  load_state now none = empty_state now
  load_state now (some s) = s

  unfoldable pub init_state : ℕ → Disk → Disk × State
  unfolding load_state save_state
  init_state now none = (save_state now (empty_state now), empty_state now)
  init_state now (some s) = (some s, load_state now (some s))

  -- A fresh run resets the module rows and keeps the persisted pauses.
  unfoldable pub new_run_state : ℕ → Disk → Disk
  unfolding save_state previous_pauses
  new_run_state now d = save_state now (record (empty_state now) { paused = previous_pauses d })

  unfoldable pub operator_stopped : ℕ → Disk → Bool
  unfolding load_state is_stopped
  operator_stopped now d = is_stopped (load_state now d).run.status

  -- The disk afterwards and the returned document; `none` is the ValueError.
  unfoldable pub set_status : ℕ → Text → Status → Disk → Disk × Option State
  unfolding load_state operator_stopped write_row save_state
  set_status now name invalid d = (d, none)
  set_status now name running d =
      if operator_stopped now d
      then (d, some (load_state now d))
      else saved now (write_row now name running (load_state now d))
  set_status now name done d =
      saved now
        (write_row now name (if operator_stopped now d then failed else done) (load_state now d))
  set_status now name s d = saved now (write_row now name s (load_state now d))

  unfoldable pub set_run_status : ℕ → RunStatus → Option Text → Option Text → Bool → Disk → Disk
  unfolding load_state save_state is_stopped
  set_run_status now status reason failing overwrite_stopped d =
      let s = load_state now d in
      if is_stopped s.run.status && not (is_stopped status) && not overwrite_stopped
      then d
      else save_state now (record s {
        run = record {
          status = status;
          reason = reason;
          failing_module = failing;
          updated_at = now;
        };
      })

  unfoldable pub fail_all : ℕ → List Text → Disk → Disk
  fail_all now [] d = d
  fail_all now (name ∷ rest) d = fail_all now rest (set_status now name failed d).0

  unfoldable pub fail_running_modules : ℕ → Disk → Disk × List Text
  unfolding load_state running_names fail_all
  fail_running_modules now d =
      let running_now = running_names (load_state now d).modules in
      (fail_all now running_now d, running_now)

  unfoldable pub paused_modules : ℕ → Disk → Dict Pause
  unfolding load_state
  paused_modules now d = (load_state now d).paused

  -- The pause is mirrored into the run object at once.
  unfoldable pub persist_pause : ℕ → Text → Text → Disk → Disk
  unfolding load_state save_state
  persist_pause now name reason d =
      let s = load_state now d in
      save_state now (record s {
        paused = insert name (record { reason = reason; paused_at = now }) s.paused;
        run = record {
          status = run_anomaly;
          reason = some reason;
          failing_module = some name;
          updated_at = now;
        };
      })

  unfoldable pub clear_module_pause : ℕ → Text → Disk → Disk
  unfolding load_state save_state
  clear_module_pause now name d =
      let s = load_state now d in save_state now (record s { paused = remove name s.paused })

  unfoldable pub clear_breaker_pauses : ℕ → Disk → Disk
  unfolding load_state save_state is_anomaly
  clear_breaker_pauses now d =
      let s = load_state now d in
      let cleared : RunInfo = record {
        status = run_completed;
        reason = some (codes "breaker reset");
        failing_module = none;
        updated_at = now;
      } in
      save_state now
        (record s { paused = []; run = if is_anomaly s.run.status then cleared else s.run })

-- ===== src/Engine.antt =====
-- pipeline/engine.py: what a run holds, and how it starts, fails and completes a module. The runners
-- of the modules, the clock and the other processes are parameters; a runner answers with what it
-- has changed and how it ended.
pub mod Branches
pub mod Ladder
pub mod Finish
pub mod Terminal
pub mod Guarded
pub mod Verdicts
mod Samples
use moirax_asm.Prelude.{
  ℕ, ◌+◌, ◌-◌, Bool, true, false, not, ◌&&◌, ◌||◌, Option, none, some, List, [], ◌∷◌, ◌++◌,
  if◌then◌else◌, leb, Text, text_eq, codes, mem, filter, is_empty,
}
use moirax_asm.Prelude.Json.{Fields, str, get}
use moirax_asm.State.{
  Disk, State, Status, running, done, failed, set_status, operator_stopped, skip_done, load_state,
}

-- How a runner ends: with a document or none, with OperatorStop, with EmptyWordlistError, or with
-- another exception.
pub data Outcome : Type 0 where
  returned : Option Fields → Outcome
  stop_raised : Outcome
  no_wordlist raised : Text → Outcome

-- What the branches share: the rest of the machine, state.json, and the markers of `partial`.
-- `calls` holds a line for each runner that was started.
pub record Call : Type 0 where
  pub name : Text
  -- state.json at the check for STOP that comes before the start.
  pub seen : Disk
  pub was_done : Bool
  -- None for a stage after the merge, which has no budget.
  pub left : Option ℕ

pub record World (E : Type 0) : Type 0 where
  pub env : E
  pub disk : Disk
  pub partial : List Text
  pub calls : List Call

pub record Ran (E : Type 0) : Type 0 where
  pub env : E
  pub disk : Disk
  pub noted : List Text
  pub outcome : Outcome

-- What the engine calls: `RUNNERS`, the clock, the saved document of a module, the vhost pass's
-- nested DNS, `_release_breaker`, `_ingest_live`, and the log and agent after a failure.
-- `others` is what other processes and threads do to state.json before the engine reads it again,
-- and between a check for STOP and the start that follows it.
pub record Machine (E : Type 0) : Type 0 where
  pub names : List Text
  pub target : Text
  pub has_runner : Text → Bool
  pub run : Text → Option ℕ → World E → Ran E
  pub time : E → ℕ
  pub saved_doc : Text → E → Option Fields
  pub nested : World E → Ran E
  pub release : Text → E → Disk → E × Disk
  pub ingest_live : E → Disk → E × Disk
  pub after_failure : Text → Text → E → E
  -- `merge_branches`, and the rotation's ledger.
  pub merge : World E → Ran E
  pub write_ledger : E → E
  -- The alerts of the breaker, as module and reason, the modules that it has paused, and the reason
  -- of each.
  pub alerts : E → List (Text × Text)
  pub paused_names : E → List Text
  pub pause_reason : Text → E → Text
  pub others : E → Disk → E × Disk

pub data Branch (E : Type 0) : Type 0 where
  finished : List Fields → World E → Branch E
  halted : World E → Branch E

-- How `_one` ends.
pub data Turn (E : Type 0) : Type 0 where
  next : State → List Fields → World E → Turn E
  empty_list : List Fields → World E → Turn E
  stop : World E → Turn E

abbrev pub doc_list : Option Fields → List Fields
doc_list none = []
doc_list (some d) = d ∷ []

-- banned
abbrev pub banned : List Text
banned =
    codes "ffuf-4"
    ∷ codes "port-sweep"
    ∷ codes "owasp-passive"
    ∷ codes "merge"
    ∷ codes "passive-recon"
    ∷ []

unfoldable pub cleaned : List Text → List Text
unfolding mem text_eq
cleaned names = filter (λ n. not (mem n banned)) names

abbrev pub is_port_check : Text → Bool
is_port_check n = text_eq n (codes "port-check")

-- before, and after
unfoldable pub up_to_dns : List Text → List Text
unfolding text_eq
up_to_dns [] = []
up_to_dns (n ∷ names) =
    let rest = up_to_dns names in if text_eq n (codes "dns-resolve") then n ∷ [] else n ∷ rest

unfoldable pub past_dns : List Text → List Text
unfolding text_eq
past_dns [] = []
past_dns (n ∷ names) =
    let rest = past_dns names in if text_eq n (codes "dns-resolve") then names else rest

abbrev pub is_dns_doc : Fields → Bool
is_dns_doc d = elim (get (codes "module") d) [
  | some (str s) ↦ text_eq s (codes "dns-resolve")
  | _ ↦ false
]

module _ {E : Type 0} (M : Machine E) where
  abbrev pub note : Text → World E → World E
  note marker w = record w { partial = w.partial ++ marker ∷ [] }

  unfoldable pub set : Text → Status → World E → World E
  unfolding set_status
  set name s w = record w { disk = (set_status M.names M.target (M.time w.env) name s w.disk).0 }

  unfoldable pub is_stopped_now : World E → Bool
  unfolding operator_stopped
  is_stopped_now w = operator_stopped M.names M.target (M.time w.env) w.disk

  unfoldable pub state_now : World E → State
  unfolding load_state
  state_now w = load_state M.names M.target (M.time w.env) w.disk

  -- Before the engine reads state.json again.
  abbrev pub meanwhile : World E → World E
  meanwhile w = let (env, disk) = M.others w.env w.disk in record w { env = env; disk = disk }

  -- `_release_breaker`
  unfoldable pub released : Text → World E → World E
  released name w =
      let (env, disk) = M.release name w.env w.disk in record w { env = env; disk = disk }

  -- RUNNERS[name](...), once the module is set running.
  -- A STOP of the others after the check leaves the row as it is, and the module is started.
  unfoldable pub start : Text → Disk → Bool → Option ℕ → World E → World E × Outcome
  unfolding set
  start name seen was_done left w =
      let call : Call = record { name = name; seen = seen; was_done = was_done; left = left } in
      let begun = record (set name running (meanwhile w)) { calls = w.calls ++ call ∷ [] } in
      let ran = M.run name left begun in
      (
        record begun { env = ran.env; disk = ran.disk; partial = w.partial ++ ran.noted },
        ran.outcome,
      )

  -- After an exception: the row, the marker, the log and the agent.
  unfoldable pub fail : Text → Text → Text → World E → World E
  unfolding set
  fail name marker reason w =
      let w' = note marker (set name failed w) in
      record w' { env = M.after_failure name reason w'.env }

  unfoldable pub complete : Text → World E → World E
  unfolding set
  complete name w =
      let w' = set name done w in
      let (env, disk) = M.ingest_live w'.env w'.disk in record w' { env = env; disk = disk }

  -- The texts `branch:name:exc`.
  abbrev pub marker_of : Text → Text → Text → Text
  marker_of branch name reason = branch ++ b':' ∷ (name ++ b':' ∷ reason)

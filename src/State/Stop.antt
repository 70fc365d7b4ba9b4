-- ===== src/State/Stop.antt =====
-- pipeline/state.py: what an operator's STOP forbids, and the one operation that undoes it.
use moirax_asm.Prelude.{
  ℕ, ◌≡◌, refl, ◌∙◌, ◌⊎◌, Bool, ◌||◌, true, false, Option, none, some, List, Text, text_eq_refl,
}
use moirax_asm.Prelude.Dict.{lookup, lookup-insert}
use moirax_asm.State.{
  Status, running, done, RunStatus, Row, State, Disk, is_stopped, set_status, set_run_status,
  clear_module_pause, clear_breaker_pauses, fail_running_modules, persist_pause, load_state,
}

abbrev pub rows : Disk → Text → Option Row
rows none m = none
rows (some s) m = lookup m s.modules

-- The row of a module that is under way or complete.
abbrev pub is_active : Option Row → Bool
is_active none = false
is_active (some row) = elim row.status [ running ↦ true | done ↦ true | _ ↦ false ]

abbrev pub stopped : Disk → Bool
stopped none = false
stopped (some s) = is_stopped s.run.status

-- Each module that is under way or complete in `e` is so, with the same row, in `d`.
abbrev pub NoProgress : Disk → Disk → Type 0
NoProgress d e = (m : Text) → (rows e m ≡ rows d m) ⊎ (is_active (rows e m) ≡ false)

module _ (names : List Text) (target : Text) where
  -- The operations that a run performs on the document, with `overwrite_stopped` left off. The
  -- first of them is a pause by the breaker.
  pub data Step (d e : Disk) : Type 0 where
    pause : (now : ℕ) (m reason : Text) → e ≡ persist_pause names target now m reason d → Step d e
    status :
        (now : ℕ) (m : Text) (s : Status) → e ≡ (set_status names target now m s d).0 → Step d e
    run_status :
        (now : ℕ) (s : RunStatus) (reason failing : Option Text)
        → e ≡ set_run_status names target now s reason failing false d
        → Step d e
    unpause : (now : ℕ) (m : Text) → e ≡ clear_module_pause names target now m d → Step d e
    unpause_all : (now : ℕ) → e ≡ clear_breaker_pauses names target now d → Step d e
    fail_running : (now : ℕ) → e ≡ (fail_running_modules names target now d).0 → Step d e

  pub data Steps (d : Disk) : Disk → Type 0 where
    here : Steps d d
    next : {e f : Disk} → Steps d e → Step e f → Steps d f

  abbrev pub is_pause : {d e : Disk} → Step d e → Bool
  is_pause (pause now m reason q) = true
  is_pause step = false

  -- The breaker has paused a module in one of the steps.
  abbrev pub has_pause : {d e : Disk} → Steps d e → Bool
  has_pause here = false
  has_pause (next before step) = has_pause before || is_pause step

  -- A breaker pause takes the STOP back: whatever the document was, the run is then not stopped,
  -- and a module that is set running is recorded as running.
  pub persist_pause-unstops :
      (d : Disk) (now later : ℕ) (m j : Text) (reason : Text)
      → let e = persist_pause names target now m reason d in
        (stopped e ≡ false)
        × (rows (set_status names target later j running e).0 j
            ≡ some (record { status = running; started_at = some later; finished_at = none }))
  unfolding persist_pause
  persist_pause-unstops d now later m j reason = (
    unfold is_stopped in refl,
    unfold set_status in
        lookup-insert j j (record { status = running; started_at = some later; finished_at = none })
          (load_state names target now d).modules
        ∙ rw (text_eq_refl j) refl,
  )

-- ===== src/State/Pauses.antt =====
-- pipeline/state.py: the persisted breaker pauses, and what a fresh run keeps of the document.
use moirax_asm.Prelude.{
  ℕ, ◌≡◌, refl, ◌∙◌, true, false, Option, none, some, List, [], ◌∷◌, if◌then◌else◌, Text, text_eq,
  text_eq_iff, text_eq_refl, Bool-cases, inl, inr, arith, mem,
}
use moirax_asm.Prelude.Dict.{Dict, lookup, insert, lookup-insert, lookup-remove}
use moirax_asm.State.{
  Row, Pause, Disk, pending_row, pending_rows, new_run_state, paused_modules, persist_pause,
  clear_module_pause, clear_breaker_pauses, load_state, empty_state, set_status, done, skip_done,
  operator_stopped,
}
use moirax_asm.State.Stop.{rows, stopped}

lookup-pending_rows :
    (j : Text) (names : List Text) (d : Dict Row)
    → lookup j (pending_rows names d) ≡ (if mem j names then some pending_row else lookup j d)
unfolding pending_rows mem
lookup-pending_rows j [] d = refl
lookup-pending_rows j (n ∷ names) d = ground (
  arith,
  lookup-pending_rows j names (insert n pending_row d),
  lookup-insert n j pending_row d,
  text_eq_iff n j,
  text_eq_iff j n,
)

module _ (names : List Text) (target : Text) where
  abbrev pub pause_of : ℕ → Disk → Text → Option Pause
  pause_of now d m = lookup m (paused_modules names target now d)

  -- Of the pauses that the document holds, `persist_pause` writes that of its module,
  -- `clear_module_pause` removes that of its module, `clear_breaker_pauses` removes each, and
  -- neither touches another.
  pub pauses_after :
      (d : Disk) (now later : ℕ) (m j reason : Text)
      → (pause_of later (persist_pause names target now m reason d) j ≡ (
          if text_eq m j
          then some (record { reason = reason; paused_at = now })
          else pause_of now d j))
        × (pause_of later (clear_module_pause names target now m d) j
            ≡ (if text_eq m j then none else pause_of now d j))
        × (pause_of later (clear_breaker_pauses names target now d) j ≡ none)
  unfolding paused_modules persist_pause clear_module_pause clear_breaker_pauses
  pauses_after d now later m j reason = (
    lookup-insert m j (record { reason = reason; paused_at = now })
        (load_state names target now d).paused,
    lookup-remove m j (load_state names target now d).paused,
    unfold lookup in refl,
  )

  -- A fresh run keeps the pauses of the document before it, is not stopped, and has a pending row
  -- for each module of the pipeline and no other row.
  pub new_run_state-fresh :
      (d : Disk) (now later : ℕ) (j : Text)
      → let e = new_run_state names target now d in
        (pause_of later e j ≡ pause_of now d j)
        × (stopped e ≡ false)
        × (rows e j ≡ (if mem j names then some pending_row else none))
  unfolding new_run_state paused_modules empty_state
  new_run_state-fresh none now later j = (
    refl,
    unfold operator_stopped in refl,
    lookup-pending_rows j names [] ∙ unfold lookup in refl,
  )
  new_run_state-fresh (some s) now later j = (
    refl,
    unfold operator_stopped in refl,
    lookup-pending_rows j names [] ∙ unfold lookup in refl,
  )

  -- A module that is set done is skipped by a resumed run exactly if the operator has not stopped
  -- the run; otherwise its row is failed.
  pub skip_done-set_status :
      (d : Disk) (now later : ℕ) (m : Text)
      → skip_done (load_state names target later (set_status names target now m done d).0) m
        ≡ (if operator_stopped names target now d then false else true)
  unfolding skip_done set_status
  skip_done-set_status d now later m =
      rw (lookup-insert, text_eq_refl m)
        (elim (Bool-cases (operator_stopped names target now d)) [
          | inl stop ↦ rw stop refl
          | inr on ↦ rw on refl
        ])

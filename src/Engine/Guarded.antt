-- ===== src/Engine/Guarded.antt =====
-- pipeline/engine.py: which modules a run starts.
use moirax_asm.Prelude.{
  ℕ, ◌≡◌, refl, sym, ◌∙◌, false, not, Option, none, some, List, [], ◌∷◌, ◌<◌, ◌-◌, ◌+◌, Text, arith,
  if_elim, All, All-append, leb, filter,
}
use moirax_asm.Prelude.Json.{Fields}
use moirax_asm.State.{State, skip_done}
use moirax_asm.State.Stop.{stopped}
use moirax_asm.Engine.{
  Outcome, returned, stop_raised, no_wordlist, raised, World, Machine, Call, Branch, finished,
  halted, Turn, next, empty_list, stop, is_stopped_now, meanwhile, released, start, fail, complete,
  set, state_now, cleaned, up_to_dns, past_dns, is_port_check,
}
use moirax_asm.Engine.Branches.{
  passive_ended, passive_loop, active_ended, one, active_loop, with_port_docs, halted_after, beside,
  after_dns, run_passive_modules, run_active_modules, after_vhosts,
}
use moirax_asm.Engine.Terminal.{is_stopped_now-eq}

-- A module that is started after a check that has found no STOP, that the engine's copy of the
-- document does not show as done, and that has time left where the branch has a budget.
pub record IsDue (c : Call) : Type 0 where
  pub checked : stopped c.seen ≡ false
  pub fresh : c.was_done ≡ false
  pub in_budget : (n : ℕ) → c.left ≡ some n → 0 < n

module _ {E : Type 0} where
  abbrev pub world_of : Branch E → World E
  world_of (finished docs w) = w
  world_of (halted w) = w

  abbrev pub AreDue : Branch E → Type 0
  AreDue b = All IsDue (world_of b).calls

  abbrev pub turn_world : Turn E → World E
  turn_world (next st docs w) = w
  turn_world (empty_list docs w) = w
  turn_world (stop w) = w

  abbrev TurnIsDue : Turn E → Type 0
  TurnIsDue t = All IsDue (turn_world t).calls

module _ {E : Type 0} (M : Machine E) where
  -- The clock after the release of a pause, before which others act.
  abbrev released_now : Text → World E → World E
  released_now name seen = released M name (meanwhile M seen)

  abbrev begin : ℕ → Text → State → World E → World E × Outcome
  begin deadline name st seen =
      let free = released_now name seen in
      start M name seen.disk (skip_done st name) (some (deadline - M.time free.env)) free

  start-IsDue :
      (name : Text) (st : State) (deadline : ℕ) (seen : World E)
      → All IsDue seen.calls
      → is_stopped_now M seen ≡ false
      → skip_done st name ≡ false
      → leb deadline (M.time (released_now name seen).env) ≡ false
      → All IsDue (begin deadline name st seen).0.calls
  unfolding start released set
  start-IsDue name st deadline seen d h k l = All-append IsDue seen.calls _ d (
    record {
      checked = sym (is_stopped_now-eq M seen) ∙ h;
      fresh = k;
      in_budget = λ n e. ground (arith, l);
    },
    tt,
  )

  passive_ended-calls :
      (name : Text) (st : State) (docs : List Fields) (w : World E) (out : Outcome)
      → (passive_ended M name st docs (w, out)).1.calls ≡ w.calls
  unfolding passive_ended set complete fail
  passive_ended-calls name st docs w (returned doc) = ground arith
  passive_ended-calls name st docs w stop_raised = refl
  passive_ended-calls name st docs w (no_wordlist reason) = refl
  passive_ended-calls name st docs w (raised reason) = refl

  passive_went :
      (deadline : ℕ) (rest : List Text) (r : Option (State × List Fields) × World E)
      → All IsDue r.1.calls
      → ((st : State) (docs : List Fields) → AreDue (passive_loop M deadline rest st docs r.1))
      → AreDue (elim r.0 [
        | none ↦ halted r.1
        | some (st, docs) ↦ passive_loop M deadline rest st docs r.1
      ])
  passive_went deadline rest (none, w) d f = d
  passive_went deadline rest (some (st, docs), w) d f = f st docs

  passive_loop-IsDue :
      (deadline : ℕ) (names : List Text) (st : State) (docs : List Fields) (w : World E)
      → All IsDue w.calls
      → AreDue (passive_loop M deadline names st docs w)
  unfolding passive_loop released
  passive_loop-IsDue deadline [] st docs w d = d
  passive_loop-IsDue deadline (name ∷ rest) st docs w d =
      let seen = meanwhile M w in
      let free = released_now name seen in
      let begun = begin deadline name st seen in
      if_elim AreDue (not (M.has_runner name)) _ _
        (λ h. passive_loop-IsDue deadline rest st docs w d)
        (λ h.
          if_elim AreDue (is_stopped_now M seen) _ _ (λ h. d)
            (λ open_run.
              if_elim AreDue (skip_done st name) _ _
                (λ h. passive_loop-IsDue deadline rest st _ seen d)
                (λ todo.
                  if_elim AreDue (leb deadline (M.time free.env)) _ _ (λ h. d)
                    (λ early.
                      passive_went deadline rest (passive_ended M name st docs begun)
                        (rw (passive_ended-calls name st docs begun.0 begun.1)
                          (start-IsDue name st deadline seen d open_run todo early))
                        (λ st' docs'. passive_loop-IsDue deadline rest st' docs' _ (
                          rw (passive_ended-calls name st docs begun.0 begun.1)
                            (start-IsDue name st deadline seen d open_run todo early)))))))

  after_vhosts-calls :
      (name : Text) (docs : List Fields) (w : World E)
      → (after_vhosts M name docs w).1.calls ≡ w.calls
  unfolding after_vhosts
  after_vhosts-calls name docs w = ground arith

  active_ended-calls :
      (name : Text) (st : State) (docs : List Fields) (w : World E) (out : Outcome)
      → (turn_world (active_ended M name st docs (w, out))).calls ≡ w.calls
  unfolding active_ended set complete fail
  active_ended-calls name st docs w (returned doc) = ground (arith, after_vhosts-calls name docs w)
  active_ended-calls name st docs w stop_raised = refl
  active_ended-calls name st docs w (no_wordlist reason) = refl
  active_ended-calls name st docs w (raised reason) = refl

  one-IsDue :
      (deadline : ℕ) (name : Text) (st : State) (docs : List Fields) (w : World E)
      → All IsDue w.calls
      → TurnIsDue (one M deadline name st docs w)
  unfolding one released
  one-IsDue deadline name st docs w d =
      let seen = meanwhile M w in
      let free = released_now name seen in
      let begun = begin deadline name st seen in
      if_elim TurnIsDue (not (M.has_runner name)) _ _ (λ h. d)
        (λ h.
          if_elim TurnIsDue (is_stopped_now M seen) _ _ (λ h. d)
            (λ open_run.
              if_elim TurnIsDue (skip_done st name) _ _ (λ h. d)
                (λ todo.
                  if_elim TurnIsDue (leb deadline (M.time free.env)) _ _ (λ h. d)
                    (λ early.
                      rw (active_ended-calls name st docs begun.0 begun.1)
                        (start-IsDue name st deadline seen d open_run todo early)))))

  active_loop-IsDue :
      (deadline : ℕ) (names : List Text) (st : State) (docs : List Fields) (w : World E)
      → All IsDue w.calls
      → TurnIsDue (active_loop M deadline names st docs w)
  unfolding active_loop
  active_loop-IsDue deadline [] st docs w d = d
  active_loop-IsDue deadline (name ∷ rest) st docs w d =
      go (one M deadline name st docs w) (one-IsDue deadline name st docs w d)
        (active_loop-IsDue deadline rest)
    where
      go :
          (t : Turn E)
          → TurnIsDue t
          → ((st : State) (docs : List Fields) (w : World E)
              → All IsDue w.calls
              → TurnIsDue (active_loop M deadline rest st docs w))
          → TurnIsDue (elim t [
            | next st' docs' w' ↦ active_loop M deadline rest st' docs' w'
            | empty_list docs' w' ↦ empty_list docs' w'
            | stop w' ↦ stop w'
          ])
      go (next st' docs' w') t ih = ih st' docs' w' t
      go (empty_list docs' w') t ih = t
      go (stop w') t ih = t

  with_port_docs-IsDue :
      (docs : List Fields) (t : Turn E) → TurnIsDue t → AreDue (with_port_docs docs t)
  unfolding with_port_docs
  with_port_docs-IsDue docs (next st more w) d = d
  with_port_docs-IsDue docs (empty_list more w) d = d
  with_port_docs-IsDue docs (stop w) d = d

  halted_after-IsDue : (t : Turn E) → TurnIsDue t → AreDue (halted_after t)
  unfolding halted_after
  halted_after-IsDue (next st more w) d = d
  halted_after-IsDue (empty_list more w) d = d
  halted_after-IsDue (stop w) d = d

  beside-IsDue :
      (deadline : ℕ) (vhosts : List Text) (docs : List Fields) (st : State) (t : Turn E)
      → TurnIsDue t
      → AreDue (beside M deadline vhosts docs st t)
  unfolding beside
  beside-IsDue deadline vhosts docs st (next st' port w) d =
      with_port_docs-IsDue port (active_loop M deadline vhosts st' docs w)
        (active_loop-IsDue deadline vhosts st' docs w d)
  beside-IsDue deadline vhosts docs st (empty_list port w) d =
      with_port_docs-IsDue [] (active_loop M deadline vhosts st docs w)
        (active_loop-IsDue deadline vhosts st docs w d)
  beside-IsDue deadline vhosts docs st (stop w) d =
      halted_after-IsDue (active_loop M deadline vhosts st docs w)
        (active_loop-IsDue deadline vhosts st docs w d)

  after_dns-IsDue :
      (deadline : ℕ) (rest ports vhosts : List Text) (t : Turn E)
      → TurnIsDue t
      → AreDue (after_dns M deadline rest ports vhosts t)
  unfolding after_dns
  after_dns-IsDue deadline rest [] vhosts (next st docs w) d =
      with_port_docs-IsDue [] (active_loop M deadline rest st docs w)
        (active_loop-IsDue deadline rest st docs w d)
  after_dns-IsDue deadline rest (p ∷ ports) [] (next st docs w) d =
      with_port_docs-IsDue [] (active_loop M deadline rest st docs w)
        (active_loop-IsDue deadline rest st docs w d)
  after_dns-IsDue deadline rest (p ∷ ports) (v ∷ vhosts) (next st docs w) d =
      beside-IsDue deadline (v ∷ vhosts) docs st (one M deadline p st [] w)
        (one-IsDue deadline p st [] w d)
  after_dns-IsDue deadline rest [] vhosts (empty_list docs w) d = d
  after_dns-IsDue deadline rest (p ∷ ports) [] (empty_list docs w) d = d
  after_dns-IsDue deadline rest (p ∷ ports) (v ∷ vhosts) (empty_list docs w) d = d
  after_dns-IsDue deadline rest [] vhosts (stop w) d = d
  after_dns-IsDue deadline rest (p ∷ ports) [] (stop w) d = d
  after_dns-IsDue deadline rest (p ∷ ports) (v ∷ vhosts) (stop w) d = d

  -- Each module that the loops of the two branches start, whatever runners and other processes do,
  -- is started after a check for STOP that has found none, is not done in the engine's copy of the
  -- document, and has time left in its branch.
  pub run_modules-IsDue :
      (budget : ℕ) (names : List Text) (w : World E)
      → All IsDue w.calls
      → AreDue (run_passive_modules M budget names w) × AreDue (run_active_modules M budget names w)
  unfolding run_passive_modules run_active_modules
  run_modules-IsDue budget names w d = (
    passive_loop-IsDue (M.time w.env + budget) names (state_now M w) [] w d,
    (let deadline = M.time w.env + budget in
        let rest = past_dns (cleaned names) in
        after_dns-IsDue deadline rest (filter is_port_check rest)
          (filter (λ n. not (is_port_check n)) rest)
          (active_loop M deadline (up_to_dns (cleaned names)) (state_now M w) [] w)
          (active_loop-IsDue deadline (up_to_dns (cleaned names)) (state_now M w) [] w d)),
  )

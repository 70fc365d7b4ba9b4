-- ===== src/Engine/Branches.antt =====
-- pipeline/engine.py: the module loops of the two branches.
use moirax_asm.Prelude.{
  ℕ, ◌+◌, ◌-◌, not, Option, none, some, List, [], ◌∷◌, ◌++◌, if◌then◌else◌, leb, Text, text_eq,
  codes, filter,
}
use moirax_asm.Prelude.Json.{Fields}
use moirax_asm.State.{State, failed, done, skip_done}
use moirax_asm.Engine.{
  Outcome, returned, stop_raised, no_wordlist, raised, World, Machine, Branch, finished, halted,
  Turn, next, empty_list, stop, doc_list, cleaned, is_port_check, up_to_dns, past_dns, is_dns_doc,
  note, set, is_stopped_now, meanwhile, state_now, released, start, fail, complete, marker_of,
}

unfoldable pub with_port_docs : {E : Type 0} → List Fields → Turn E → Branch E
with_port_docs port_docs (next st docs w) = finished (docs ++ port_docs) w
with_port_docs port_docs (empty_list docs w) = finished (docs ++ port_docs) w
with_port_docs port_docs (stop w) = halted w

unfoldable pub halted_after : {E : Type 0} → Turn E → Branch E
halted_after (next st docs w) = halted w
halted_after (empty_list docs w) = halted w
halted_after (stop w) = halted w

module _ {E : Type 0} (M : Machine E) where
  -- After a passive runner: whether the loop goes on, with the documents and the engine's copy of
  -- state.json.
  unfoldable pub passive_ended :
      Text → State → List Fields → World E × Outcome → Option (State × List Fields) × World E
  unfolding set fail complete is_stopped_now state_now
  passive_ended name st docs (w, returned doc) =
      let w' = meanwhile M w in
      if is_stopped_now M w'
      then (none, set M name failed w')
      else (some (state_now M (set M name done w'), docs ++ doc_list doc), complete M name w')
  passive_ended name st docs (w, stop_raised) = (none, w)
  passive_ended name st docs (w, no_wordlist reason) =
      (some (st, docs), fail M name (marker_of M (codes "passive") name reason) reason w)
  passive_ended name st docs (w, raised reason) =
      (some (st, docs), fail M name (marker_of M (codes "passive") name reason) reason w)

  -- The loop of `_run_passive_modules`; `st` is the copy of state.json that it holds.
  unfoldable pub passive_loop : ℕ → List Text → State → List Fields → World E → Branch E
  unfolding is_stopped_now released start passive_ended skip_done
  passive_loop deadline [] st docs w = finished docs w
  passive_loop deadline (name ∷ rest) st docs w =
      let unknown = passive_loop deadline rest st docs w in
      let seen = meanwhile M w in
      let saved = docs ++ doc_list (M.saved_doc name seen.env) in
      let skipped = passive_loop deadline rest st saved seen in
      let free = released M name (meanwhile M seen) in
      let left = M.time free.env in
      let went =
        passive_ended name st docs
          (start M name seen.disk (skip_done st name) (some (deadline - left)) free) in
      let on : Branch E = elim went.0 [
        | none ↦ halted went.1
        | some (st', docs') ↦ passive_loop deadline rest st' docs' went.1
      ] in
      if not (M.has_runner name)
      then unknown
      else if is_stopped_now M seen
      then halted seen
      else if skip_done st name
      then skipped
      else if leb deadline left
      then finished docs (note M (codes "passive_budget") free)
      else on

  -- The nested DNS after the vhost pass: its documents replace those of dns-resolve.
  with_nested : List Fields → Outcome → List Fields
  with_nested docs (returned (some d)) = filter (λ x. not (is_dns_doc x)) docs ++ d ∷ []
  with_nested docs out = docs

  nested_marker : Outcome → List Text
  nested_marker (returned d) = []
  nested_marker stop_raised = (codes "nested-dns:" ++ codes "operator stop") ∷ []
  nested_marker (no_wordlist reason) = (codes "nested-dns:" ++ reason) ∷ []
  nested_marker (raised reason) = (codes "nested-dns:" ++ reason) ∷ []

  unfoldable pub after_vhosts : Text → List Fields → World E → List Fields × World E
  unfolding with_nested nested_marker text_eq
  after_vhosts name docs w =
      if text_eq name (codes "ffuf")
      then (let ran = M.nested w in
          (
            with_nested docs ran.outcome,
            record w {
              env = ran.env;
              disk = ran.disk;
              partial = w.partial ++ (ran.noted ++ nested_marker ran.outcome);
            },
          ))
      else (docs, w)

  -- After an active runner.
  unfoldable pub active_ended : Text → State → List Fields → World E × Outcome → Turn E
  unfolding after_vhosts set fail complete is_stopped_now state_now
  active_ended name st docs (w, returned doc) =
      let (docs', v) = after_vhosts name docs w in
      let w' = meanwhile M v in
      if is_stopped_now M w'
      then stop (set M name failed w')
      else next (state_now M (set M name done w')) (docs' ++ doc_list doc) (complete M name w')
  active_ended name st docs (w, stop_raised) = stop w
  active_ended name st docs (w, no_wordlist reason) =
      empty_list docs (note M (codes "empty_wordlist:" ++ reason) (set M name failed w))
  active_ended name st docs (w, raised reason) =
      next st docs (fail M name (marker_of M (codes "active") name reason) reason w)

  -- `_one`, with the documents that its caller appends.
  unfoldable pub one : ℕ → Text → State → List Fields → World E → Turn E
  unfolding is_stopped_now released start active_ended skip_done
  one deadline name st docs w =
      let seen = meanwhile M w in
      let free = released M name (meanwhile M seen) in
      let left = M.time free.env in
      if not (M.has_runner name)
      then next st docs w
      else if is_stopped_now M seen
      then stop seen
      else if skip_done st name
      then next st (docs ++ doc_list (M.saved_doc name seen.env)) seen
      else if leb deadline left
      then next st docs (note M (codes "active_budget") free)
      else active_ended name st docs
          (start M name seen.disk (skip_done st name) (some (deadline - left)) free)

  unfoldable pub active_loop : ℕ → List Text → State → List Fields → World E → Turn E
  unfolding one
  active_loop deadline [] st docs w = next st docs w
  active_loop deadline (name ∷ rest) st docs w = elim (one deadline name st docs w) [
    | next st' docs' w' ↦ active_loop deadline rest st' docs' w'
    | empty_list docs' w' ↦ empty_list docs' w'
    | stop w' ↦ stop w'
  ]

  -- The port check beside the vhost passes, taken before them: it ends in any case, and its answer
  -- is read after theirs.
  unfoldable pub beside : ℕ → List Text → List Fields → State → Turn E → Branch E
  unfolding active_loop with_port_docs halted_after
  beside deadline vhosts docs st (next st' port_docs w) =
      with_port_docs port_docs (active_loop deadline vhosts st' docs w)
  beside deadline vhosts docs st (empty_list port_docs w) =
      with_port_docs [] (active_loop deadline vhosts st docs w)
  beside deadline vhosts docs st (stop w) = halted_after (active_loop deadline vhosts st docs w)

  -- After the modules up to dns-resolve.
  unfoldable pub after_dns : ℕ → List Text → List Text → List Text → Turn E → Branch E
  unfolding one beside with_port_docs
  after_dns deadline rest [] vhosts (next st docs w) =
      with_port_docs [] (active_loop deadline rest st docs w)
  after_dns deadline rest ports [] (next st docs w) =
      with_port_docs [] (active_loop deadline rest st docs w)
  after_dns deadline rest (port ∷ ports) (v ∷ vhosts) (next st docs w) =
      beside deadline (v ∷ vhosts) docs st (one deadline port st [] w)
  after_dns deadline rest ports vhosts (empty_list docs w) = finished docs w
  after_dns deadline rest ports vhosts (stop w) = halted w

  -- `_run_passive_modules` and `_run_active_modules`, from the names of tools.yaml.
  unfoldable pub run_passive_modules : ℕ → List Text → World E → Branch E
  unfolding passive_loop state_now
  run_passive_modules budget names w =
      passive_loop (M.time w.env + budget) names (state_now M w) [] w

  unfoldable pub run_active_modules : ℕ → List Text → World E → Branch E
  unfolding active_loop after_dns state_now cleaned up_to_dns past_dns text_eq
  run_active_modules budget names w =
      let deadline = M.time w.env + budget in
      let rest = past_dns (cleaned names) in
      after_dns deadline rest (filter is_port_check rest) (filter (λ n. not (is_port_check n)) rest)
        (active_loop deadline (up_to_dns (cleaned names)) (state_now M w) [] w)

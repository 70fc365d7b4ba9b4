-- ===== src/Adapter/Attempts.antt =====
-- pipeline/adapter.py, `_attempt_loop` and `invoke`: how many containers run, and what the answer
-- says of them.
use moirax_asm.Prelude.{
  ℕ, ◌+◌, ◌-◌, ◌≤◌, ◌<◌, ◌≡◌, Bool, true, false, not, ◌&&◌, Option, none, some, ◌==◌, Text,
}
use moirax_asm.Prelude.Num.{Num}
use moirax_asm.Breaker.{Settings}
use moirax_asm.Ceiling.{Ceiling}
use moirax_asm.Adapter.{
  Tool, Adapter, Request, ContainerRun, no_argv, no_run, ran, Failure, unknown_tool, unassembled,
  unrun, unread, Tried, gave, threw, InvokeAnswer, unanswered, resulted, propagated, try_once,
  attempt_loop, all_attempts,
}

-- What becomes of a container is a success, or raises.
abbrev pub succeeds : {F : Type 0} → ContainerRun F → Bool
succeeds no_argv = false
succeeds no_run = false
succeeds (ran r raises) = not raises && r.returncode == 0

abbrev pub failure_of : {F : Type 0} → ContainerRun F → Option Failure
failure_of no_argv = some unassembled
failure_of no_run = some unrun
failure_of (ran r true) = some unread
failure_of (ran r false) = none

module _ {F : Type 0} ⦃N : Num F⦄ (c : Settings F) (epsilon : F) (available : ℕ → Option ℕ)
    (mask_proxy : Text → Text) (tools : Text → Option Tool) (run : ℕ → ContainerRun F)
    (q : Request) where
  -- The last container before the count `runs` raised the failure; a tool that is not registered
  -- raises by itself.
  abbrev pub Raises : ℕ → ℕ → Failure → Type 0
  Raises before runs (unknown_tool name) = tools name ≡ none
  Raises before runs f = (before < runs) × (failure_of (run (runs - 1)) ≡ some f)

  -- A result with the code 0 is that of the last container, and an exception is that of the last
  -- container or of a tool that is not registered. There is no call without the one or the other.
  abbrev pub IsHonest : ℕ → ℕ → InvokeAnswer → Type 0
  IsHonest before runs unanswered = true ≡ false
  IsHonest before runs (resulted r) =
      r.exit_code ≡ 0 → (before < runs) × (succeeds (run (runs - 1)) ≡ true)
  IsHonest before runs (propagated f) = Raises before runs f

  -- At most n containers have run, none of them holds a share of the ceiling, and the answer is
  -- honest.
  pub record Attempted (n : ℕ) (a : Adapter F) (o : Adapter F × InvokeAnswer) : Type 0 where
    pub least : a.runs ≤ o.0.runs
    pub most : o.0.runs ≤ a.runs + n
    pub freed : o.0.ceiling.running ≡ a.ceiling.running
    pub honest : IsHonest a.runs o.0.runs o.1

  -- What one attempt says of its container.
  abbrev Says : ℕ → Tried F → Type 0
  Says k (threw (unknown_tool name)) = true ≡ false
  Says k (threw f) = failure_of (run k) ≡ some f
  Says k (gave r result) = (result.exit_code == 0) ≡ succeeds (run k)

  abbrev try : Tool → Text → ℕ → Option ℕ → Adapter F → Adapter F × Option ℕ × Tried F
  try tool module_name attempt idx a =
      try_once c epsilon available mask_proxy tools run q tool module_name attempt idx a

  abbrev loop : ℕ → Tool → Text → ℕ → Option ℕ → InvokeAnswer → Adapter F → Adapter F × InvokeAnswer
  loop n tool module_name attempt idx last a =
      attempt_loop c epsilon available mask_proxy tools run q n tool module_name attempt idx last a

  abbrev every : Tool → Text → Adapter F → Adapter F × InvokeAnswer
  every tool module_name a =
      all_attempts c epsilon available mask_proxy tools run q tool module_name a

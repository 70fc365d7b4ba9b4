-- ===== src/Adapter.antt =====
-- pipeline/adapter.py, `invoke`: the attempts at a tool, its fallback, and what they tell the
-- breaker, the proxy pool and the ceiling. The container's run is a parameter: `run i` is what
-- becomes of the i-th container, an exception included. A tool that is not in tools.yaml is `none`.
pub mod Attempts
mod Samples
use moirax_asm.Prelude.{
  ℕ, zero, suc, ◌+◌, Bool, true, false, not, ◌&&◌, ◌||◌, Option, none, some, is_none, List, [], ◌∷◌,
  ◌++◌, if◌then◌else◌, ltb, ◌==◌, Text, ends_with, codes,
}
use moirax_asm.Prelude.Num.{Num}
use moirax_asm.Prelude.Dict.{Dict}
use moirax_asm.Breaker.{World, Settings, record_event}
use moirax_asm.Breaker.Rows.{update, allows}
use moirax_asm.Rotation.{ProxyPool, hook_values_for_attempt, record_outcome}
use moirax_asm.Ceiling.{Ceiling, acquire, release}

-- What `invoke` reads of a tool in tools.yaml.
pub record Tool : Type 0 where
  pub name : Text
  pub proxied : Bool
  pub fallback : Option Text

-- What the runner gives, the clock after it, and the duration in both forms that are recorded. A
-- code below 0 stands as any other that is not 0, 124 or 130.
pub record Completed (F : Type 0) : Type 0 where
  pub returncode : ℕ
  pub duration : F
  pub ended : F
  pub seconds : ℕ
  pub stamp : Text

-- What a call of the adapter raises.
pub data Failure : Type 0 where
  unknown_tool : Text → Failure
  -- The arguments cannot be put together, the runner raises (as it does without docker), and what
  -- follows the line of the run log raises, such as the parser of the output.
  unassembled unrun unread : Failure

-- What becomes of one container: no arguments, no run, or a run, with whether what follows raises.
pub data ContainerRun (F : Type 0) : Type 0 where
  no_argv no_run : ContainerRun F
  ran : Completed F → Bool → ContainerRun F

pub record InvokeResult : Type 0 where
  pub tool : Text
  pub exit_code : ℕ
  pub used_fallback : Bool
  pub paused : Bool
  pub attempts : ℕ

-- How one attempt, and how a call ends. Only the assertion after the loop leaves it unanswered.
pub data Tried (F : Type 0) : Type 0 where
  gave : Completed F → InvokeResult → Tried F
  threw : Failure → Tried F

pub data InvokeAnswer : Type 0 where
  unanswered : InvokeAnswer
  resulted : InvokeResult → InvokeAnswer
  propagated : Failure → InvokeAnswer

-- The objects that the adapter works on. A line of the run log is the module, the tool and the
-- exit code; `slept` has the exponents of the back-off.
pub record Adapter (F : Type 0) : Type 0 where
  pub rows : Dict (World F)
  pub proxy_pool : Option ProxyPool
  pub ceiling : Ceiling F
  pub runs : ℕ
  pub log : List (Text × Text × ℕ)
  pub slept : List ℕ

-- The arguments of one call; `breaker_probe` is that of `extra`.
pub record Request : Type 0 where
  pub planned_concurrency : ℕ
  pub retries : ℕ
  pub allow_fallback : Bool
  pub breaker_probe : Bool

abbrev pub stopped_result : Text → InvokeResult
stopped_result name = record {
  tool = name;
  exit_code = 130;
  used_fallback = false;
  paused = false;
  attempts = 0;
}

abbrev pub paused_result : Text → ℕ → InvokeResult
paused_result name attempts = record {
  tool = name;
  exit_code = 1;
  used_fallback = false;
  paused = true;
  attempts = attempts;
}

module _ {F : Type 0} ⦃N : Num F⦄ (c : Settings F) (epsilon : F) (available : ℕ → Option ℕ)
    (mask_proxy : Text → Text) (tools : Text → Option Tool) (run : ℕ → ContainerRun F)
    (q : Request) where
  -- What the breaker is told of a run: a timeout or a stop by the operator is no failure, except
  -- of a probe, whose latency counts too.
  unfoldable pub tell_breaker : Text → Completed F → World F → World F
  tell_breaker tool r w =
      if q.breaker_probe || ends_with tool (codes "-canary") || ends_with tool (codes "-probe")
      then record_event c r.ended (r.returncode == 0) (some r.duration) none (r.returncode == 124) w
      else if r.returncode == 124 || r.returncode == 130
      then record_event c r.ended true none none false w
      else record_event c r.ended (r.returncode == 0) none none false w

  -- The share of the ceiling is taken before the run and given back after it, whether the runner
  -- gives a result or raises.
  unfoldable pub after_share : Ceiling F → Ceiling F
  after_share ceiling =
      let (taken, limits) = acquire epsilon available q.planned_concurrency ceiling in release taken

  abbrev pub read_or_threw : Bool → Completed F → InvokeResult → Tried F
  read_or_threw false r result = gave r result
  read_or_threw true r result = threw unread

  unfoldable pub once_of : ContainerRun F → Tool → Text → ℕ → Adapter F → Adapter F × Tried F
  unfolding after_share
  once_of no_argv tool module_name attempt a = (record a { runs = a.runs + 1 }, threw unassembled)
  once_of no_run tool module_name attempt a =
      (record a { ceiling = after_share a.ceiling; runs = a.runs + 1 }, threw unrun)
  once_of (ran r raises) tool module_name attempt a = (
    record a {
      rows = update c module_name (tell_breaker tool.name r) a.rows;
      ceiling = after_share a.ceiling;
      runs = a.runs + 1;
      log = a.log ++ (module_name, tool.name, r.returncode) ∷ [];
    },
    read_or_threw raises r (record {
      tool = tool.name;
      exit_code = r.returncode;
      used_fallback = false;
      paused = false;
      attempts = attempt;
    }),
  )

  -- `_once`
  unfoldable pub once : Tool → Text → ℕ → Adapter F → Adapter F × Tried F
  unfolding once_of
  once tool module_name attempt a = once_of (run a.runs) tool module_name attempt a

  -- The proxy for an attempt; the index -1 is `none`.
  unfoldable pub take_proxy :
      Tool → Text → ℕ → Option ℕ → Option ProxyPool → Option ProxyPool × Option ℕ
  take_proxy tool module_name attempt idx none = (none, idx)
  take_proxy tool module_name attempt idx (some p) =
      if attempt == 0 || not (is_none idx)
      then (let (p', fragment, i) =
            hook_values_for_attempt mask_proxy tool.name module_name tool.proxied (attempt + 1) p in
          (some p', i))
      else (some p, idx)

  note_health : Tool → Text → ℕ → Option ℕ → Completed F → Option ProxyPool → Option ProxyPool
  note_health tool module_name attempt idx r none = none
  note_health tool module_name attempt idx r (some p) = some (
      record_outcome mask_proxy idx (r.returncode == 0) r.seconds tool.name module_name
        (some (attempt + 1)) r.stamp p)

  -- After `_once`: the telemetry of the proxy, and the sleep before another attempt.
  unfoldable pub after_once :
      Tool → Text → ℕ → Option ℕ → Adapter F × Tried F → Adapter F × Option ℕ × Tried F
  unfolding note_health
  after_once tool module_name attempt i (b, threw f) = (b, i, threw f)
  after_once tool module_name attempt i (b, gave r result) =
      let d = record b { proxy_pool = note_health tool module_name attempt i r b.proxy_pool } in
      (
        if not (result.exit_code == 0) && ltb attempt q.retries
            then record d { slept = d.slept ++ attempt ∷ [] }
            else d,
        i,
        gave r result,
      )

  -- The body of the loop after the breaker's test, with the sleep; the answer is the index and the
  -- result.
  unfoldable pub try_once : Tool → Text → ℕ → Option ℕ → Adapter F → Adapter F × Option ℕ × Tried F
  unfolding take_proxy after_once once
  try_once tool module_name attempt idx a =
      let (pool, i) = take_proxy tool module_name attempt idx a.proxy_pool in
      after_once tool module_name attempt i
        (once tool module_name (attempt + 1) (record a { proxy_pool = pool }))

  -- The end of an attempt, with the loop that goes on after a failure.
  unfoldable pub after_attempt :
      (InvokeResult → Adapter F × InvokeAnswer) → Adapter F → Tried F → Adapter F × InvokeAnswer
  after_attempt more b (threw f) = (b, propagated f)
  after_attempt more b (gave r result) =
      let rest = more result in if result.exit_code == 0 then (b, resulted result) else rest

  -- `for attempt in range(attempts)`, with the attempts that are left; `last` is `unanswered` for
  -- None.
  unfoldable pub attempt_loop :
      ℕ → Tool → Text → ℕ → Option ℕ → InvokeAnswer → Adapter F → Adapter F × InvokeAnswer
  unfolding try_once after_attempt
  attempt_loop zero tool module_name attempt idx last a = (a, last)
  attempt_loop (suc n) tool module_name attempt idx last a =
      let (b, i, tried) = try_once tool module_name attempt idx a in
      let went =
        after_attempt
          (λ result. attempt_loop n tool module_name (attempt + 1) i (resulted result) b) b tried in
      if not (allows c a.rows module_name)
      then (a, resulted (paused_result tool.name attempt))
      else went

  abbrev pub all_attempts : Tool → Text → Adapter F → Adapter F × InvokeAnswer
  all_attempts tool module_name a =
      attempt_loop (q.retries + 1) tool module_name 0 none unanswered a

  abbrev pub by_fallback : Adapter F × InvokeAnswer → Adapter F × InvokeAnswer
  by_fallback (a, resulted result) = (a, resulted (record result { used_fallback = true }))
  by_fallback (a, other) = (a, other)

  -- The attempts at the fallback, under its own name.
  abbrev pub fallback_of : Text → Option Tool → Adapter F → Adapter F × InvokeAnswer
  fallback_of name none a = (a, propagated (unknown_tool name))
  fallback_of name (some tool) a = by_fallback (all_attempts tool tool.name a)

  -- After the attempts at the tool itself.
  unfoldable pub with_fallback : Option Text → Adapter F × InvokeAnswer → Adapter F × InvokeAnswer
  with_fallback none (a, last) = (a, last)
  with_fallback (some name) (a, unanswered) = (a, unanswered)
  with_fallback (some name) (a, propagated f) = (a, propagated f)
  with_fallback (some name) (a, resulted result) =
      if not (result.exit_code == 0) && q.allow_fallback
      then fallback_of name (tools name) a
      else (a, resulted result)

  abbrev pub of_tool : Text → Text → Option Tool → Adapter F → Adapter F × InvokeAnswer
  of_tool name module_name none a = (a, propagated (unknown_tool name))
  of_tool name module_name (some tool) a =
      with_fallback tool.fallback (all_attempts tool module_name a)

  -- `stopped` is `stop_requested()`.
  unfoldable pub invoke : Bool → Text → Text → Adapter F → Adapter F × InvokeAnswer
  unfolding attempt_loop with_fallback
  invoke stopped name module_name a =
      if stopped
      then (a, resulted (stopped_result name))
      else if not (allows c a.rows module_name)
      then (a, resulted (paused_result name 0))
      else of_tool name module_name (tools name) a

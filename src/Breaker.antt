-- ===== src/Breaker.antt =====
-- pipeline/breaker.py: the per-target circuit breaker. Times, ratios and factors are numbers of
-- `Num`; the breaker's effects on the outside (the run log, the pauses persisted in state.json and
-- the status messages) are lists in its record, in the order in which they are made.
pub mod Windows
pub mod Pausing
pub mod Rows
mod Samples
use moirax_asm.Prelude.{
  ℕ, zero, suc, ◌+◌, max, Bool, true, false, not, ◌&&◌, ◌||◌, Option, none, some, List, [], ◌∷◌,
  ◌++◌, if◌then◌else◌, Text, text_eq, is_empty, codes, is_none, mem, ltb, leb, ◌==◌, filter, count,
  length, all, any,
}
use moirax_asm.Prelude.Dict.{Dict, lookup, insert, remove, keys}
use moirax_asm.Prelude.Num.{Num, lt, is_zero}

-- `_Event`; the host is not read by the breaker.
pub record Event (F : Type 0) : Type 0 where
  pub ts : F
  pub error : Bool
  pub latency_sec : Option F
  pub host : Option Text

pub record ModuleBreaker (F : Type 0) : Type 0 where
  pub throttle_factor : F
  pub paused : Bool
  pub consecutive_bad : ℕ
  pub last_bad_window : Option ℕ
  pub last_ok_window : Option ℕ
  pub anomaly_sent : Bool
  pub events : List (Event F)
  pub baseline_latency : Option F
  pub last_latency_bad_window : Option ℕ
  pub consecutive_latency_bad : ℕ
  pub pause_reason : Option Text

-- The reasons that are written; the ratio and the averages of the texts are left out.
pub data Reason : Type 0 where
  error_ratio latency_drift : Reason
  told : Text → Reason

pub data Kind : Type 0 where
  throttle pause auto_reset : Kind

-- A line of `_log_transition`.
pub record LogLine (F : Type 0) : Type 0 where
  pub kind : Kind
  pub errors : ℕ
  pub total : ℕ
  pub window_id : ℕ
  pub reason : Reason
  pub factor : F

-- What a module's calls leave outside the breaker: its log lines, its pause in state.json, and the
-- status messages.
pub record Effects (F : Type 0) : Type 0 where
  pub log : List (LogLine F)
  pub persisted : Option Text
  pub sent : List Text

-- The six settings that `__init__` reads, and whether there is a target directory.
pub record Settings (F : Type 0) : Type 0 where
  pub error_ratio_limit : F
  pub window_sec : F
  pub bad_windows : ℕ
  pub throttle_divisor : F
  pub latency_multiplier : F
  pub has_target_dir : Bool

abbrev pub windows_reason : Text
windows_reason = codes "error ratio exceeded circuit breaker windows"

-- A module's row, with what has been done outside for the module.
abbrev pub World : Type 0 → Type 0
World F = ModuleBreaker F × Effects F

abbrev pub is_window : Option ℕ → ℕ → Bool
is_window none w = false
is_window (some v) w = v == w

abbrev pub error_count : {F : Type 0} → List (Event F) → ℕ
error_count events = count (λ e. e.error) events

abbrev next_consecutive : Option ℕ → ℕ → ℕ → ℕ
next_consecutive none w n = 1
next_consecutive (some v) w n = if w == v + 1 then n + 1 else 1

module _ {F : Type 0} ⦃N : Num F⦄ where
  -- `_ModuleBreaker()`
  unfoldable pub fresh : ModuleBreaker F
  fresh = record {
    throttle_factor = N.of_ℕ 1;
    paused = false;
    consecutive_bad = 0;
    last_bad_window = none;
    last_ok_window = none;
    anomaly_sent = false;
    events = [];
    baseline_latency = none;
    last_latency_bad_window = none;
    consecutive_latency_bad = 0;
    pause_reason = none;
  }

  log_transition : Kind → ℕ → ℕ → ℕ → Reason → F → Effects F → Effects F
  log_transition kind errors total window_id reason factor x = record x {
    log =
        x.log
        ++ record {
          kind = kind;
          errors = errors;
          total = total;
          window_id = window_id;
          reason = reason;
          factor = factor;
        }
          ∷ [];
  }

  module _ (c : Settings F) where
    abbrev pub window_of : F → ℕ
    window_of now = if is_zero c.window_sec then 0 else N.floor_div now c.window_sec

    throttle_row : ℕ → ℕ → ℕ → Reason → World F → World F
    unfolding log_transition
    throttle_row errors total window_id reason (s, x) =
        let s' = record s { throttle_factor = N.div s.throttle_factor c.throttle_divisor } in
        (s', log_transition throttle errors total window_id reason s'.throttle_factor x)

    -- `send_status` and a given `_notify` are one message to the operator.
    unfoldable pub pause_row : Text → ℕ → ℕ → ℕ → World F → World F
    unfolding log_transition
    pause_row reason errors total window_id (s, x) =
        let y = log_transition pause errors total window_id (told reason) s.throttle_factor x in
        let z = if c.has_target_dir then record y { persisted = some reason } else y in
        if s.anomaly_sent then (record s { paused = true; pause_reason = some reason }, z) else (
          record s { paused = true; pause_reason = some reason; anomaly_sent = true },
          record z { sent = z.sent ++ reason ∷ [] },
        )

    -- `ratio > self.error_ratio`
    abbrev pub over_ratio : List (Event F) → Bool
    over_ratio events =
        lt c.error_ratio_limit (N.div (N.of_ℕ (error_count events)) (N.of_ℕ (length events)))

    -- The new bad window: counted once, and throttled.
    unfoldable pub count_window : ℕ → ℕ → ℕ → World F → World F
    unfolding throttle_row
    count_window errors total window_id (s, x) =
        if is_window s.last_bad_window window_id
        then (s, x)
        else throttle_row errors total window_id error_ratio (
          record s {
            consecutive_bad = next_consecutive s.last_bad_window window_id s.consecutive_bad;
            last_bad_window = some window_id;
          },
          x,
        )

    unfoldable pub evaluate_errors : ℕ → World F → World F
    evaluate_errors window_id (s, x) =
        let errors = error_count s.events in
        let total = length s.events in
        if is_empty s.events
        then (s, x)
        else if over_ratio s.events
        then (let (s', y) = count_window errors total window_id (s, x) in
            if leb c.bad_windows s'.consecutive_bad
            then pause_row windows_reason errors total window_id (s', y)
            else (s', y))
        else (record s { consecutive_bad = 0; last_ok_window = some window_id }, x)

    -- `[ev.latency_sec for ev in events if it is there and at most the window]`
    latencies : List (Event F) → List F
    latencies [] = []
    latencies (e ∷ events) =
        let rest = latencies events in
        elim e.latency_sec [ none ↦ rest | some l ↦ if N.le l c.window_sec then l ∷ rest else rest ]

    sum_from : F → List F → F
    sum_from acc [] = acc
    sum_from acc (l ∷ ls) = sum_from (N.add acc l) ls

    drift : ℕ → F → F → World F → World F
    unfolding throttle_row
    drift window_id avg baseline (s, x) =
        if lt (N.mul baseline c.latency_multiplier) avg
        then if is_window s.last_latency_bad_window window_id
          then (s, x)
          else throttle_row (error_count s.events) (length s.events) window_id latency_drift (
            record s {
              consecutive_latency_bad = s.consecutive_latency_bad + 1;
              last_latency_bad_window = some window_id;
            },
            x,
          )
        else (record s { consecutive_latency_bad = 0 }, x)

    against_baseline : ℕ → F → Option F → World F → World F
    unfolding drift
    against_baseline window_id avg none (s, x) = (record s { baseline_latency = some avg }, x)
    against_baseline window_id avg (some b) w = drift window_id avg b w

    unfoldable pub evaluate_latency : ℕ → World F → World F
    unfolding against_baseline latencies sum_from
    evaluate_latency window_id (s, x) =
        let ls = latencies s.events in
        if is_empty ls
        then (s, x)
        else against_baseline window_id (N.div (sum_from (N.of_ℕ 0) ls) (N.of_ℕ (length ls)))
            s.baseline_latency (s, x)

    unfoldable pub record_event : F → Bool → Option F → Option Text → Bool → World F → World F
    record_event now success latency host timeout (s, x) =
        let e : Event F = record {
          ts = now;
          error = not success || timeout;
          latency_sec = latency;
          host = host;
        } in
        let kept = filter (λ v. N.le (N.sub now c.window_sec) v.ts) (s.events ++ e ∷ []) in
        if s.paused
        then (s, x)
        else evaluate_latency (window_of now)
            (evaluate_errors (window_of now) (record s { events = kept }, x))

    unfoldable pub force_pause : F → Text → World F → World F
    force_pause now reason (s, x) =
        if s.paused then (s, x) else pause_row reason 0 0 (window_of now) (s, x)

    -- The part of `reset_paused` for one module; the answer says whether it was cleared.
    unfoldable pub reset_row : F → Text → World F → World F × Bool
    unfolding log_transition
    reset_row now reason (s, x) =
        if s.paused
        then (
          (
            record s {
              paused = false;
              pause_reason = none;
              consecutive_bad = 0;
              anomaly_sent = false;
            },
            log_transition auto_reset 0 0 (window_of now) (told reason) s.throttle_factor
                (if c.has_target_dir then record x { persisted = none } else x),
          ),
          true,
        )
        else ((s, x), false)

    unfoldable pub allow : World F → Bool
    allow (s, x) = not s.paused

    unfoldable pub pause_reason_of : World F → Option Text
    pause_reason_of (s, x) =
        if s.paused
        then elim s.pause_reason [
          | none ↦ some (codes "circuit breaker paused this module")
          | some r ↦
              if is_empty r then some (codes "circuit breaker paused this module") else some r
        ]
        else none

    -- `apply_limit` for an int, which stays at 1 or more.
    unfoldable pub apply_limit : ℕ → World F → ℕ
    apply_limit value (s, x) = max 1 (N.trunc (N.mul (N.of_ℕ value) s.throttle_factor))

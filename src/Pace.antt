-- ===== src/Pace.antt =====
-- pipeline/port_pace.py: the pacer of the port sweep. A sentinel's TCP connect is a parameter, the
-- log and the breaker's forced pauses are kept in the record.
pub mod Rate
pub mod Rounds
mod Samples
use moirax_asm.Prelude.{
  ℕ, zero, suc, ◌+◌, max, Bool, true, false, not, ◌&&◌, ◌||◌, List, [], ◌∷◌, ◌++◌, if◌then◌else◌,
  Text, is_empty, leb, filter, length, take,
}
use moirax_asm.Prelude.Num.{Num, lt, min_num, max_num, is_zero}

pub record PaceState (F : Type 0) : Type 0 where
  pub pps : F
  pub bad_windows : ℕ
  pub last_canary : F
  pub last_ramp : F
  pub paused : Bool

-- The settings that the pacer reads.
pub record Settings (F : Type 0) : Type 0 where
  pub ramp_start_pps : F
  pub ramp_step_pps : F
  pub ramp_interval_sec : F
  pub canary_interval_sec : F
  pub sentinel_limit : ℕ
  pub bad_windows_limit : ℕ
  pub full_rate_cap : F

-- What `_log` writes; a bad window carries its number, the misses and the rate.
pub data LogLine : Type 0 where
  disarmed paused_line : LogLine
  bad_window : ℕ → List (Text × ℕ) → ℕ → LogLine
  canary_fine : ℕ → ℕ → LogLine

pub record Pacer (F : Type 0) : Type 0 where
  pub state : PaceState F
  pub log : List LogLine
  pub forced_pauses : ℕ

module _ {F : Type 0} ⦃N : Num F⦄ (c : Settings F) where
  unfoldable pub init : F → Pacer F
  init now = record {
    state = record {
      pps = c.ramp_start_pps;
      bad_windows = 0;
      last_canary = N.of_ℕ 0;
      last_ramp = now;
      paused = false;
    };
    log = [];
    forced_pauses = 0;
  }

  unfoldable pub current_pps : PaceState F → F → ℕ
  current_pps s cap = max 1 (N.trunc (min_num s.pps cap))

  abbrev write : LogLine → Pacer F → Pacer F
  write line p = record p { log = p.log ++ line ∷ [] }

  after_bad : Pacer F → Pacer F × Bool
  after_bad p =
      if leb c.bad_windows_limit p.state.bad_windows
      then (
        write paused_line (record p {
          state = record p.state { paused = true };
          forced_pauses = p.forced_pauses + 1;
        }),
        false,
      )
      else (p, true)

  abbrev pub ramp_due : F → PaceState F → Bool
  ramp_due now s = N.le c.ramp_interval_sec (N.sub now s.last_ramp)

  unfoldable pub ramp : F → F → PaceState F → PaceState F
  ramp now cap s =
      if ramp_due now s
      then record s { pps = min_num (N.add s.pps c.ramp_step_pps) cap; last_ramp = now }
      else s

  abbrev pub canary_due : F → PaceState F → Bool
  canary_due now s = is_zero s.last_canary || N.le c.canary_interval_sec (N.sub now s.last_canary)

  -- `tcp_open` says which sentinels answer during this window.
  module _ (tcp_open : Text × ℕ → Bool) where
    abbrev pub checked : List (Text × ℕ) → List (Text × ℕ)
    checked sentinels = take (max 1 c.sentinel_limit) sentinels

    abbrev pub misses : List (Text × ℕ) → List (Text × ℕ)
    misses sentinels = filter (λ s. not (tcp_open s)) (checked sentinels)

    unfoldable pub canary : List (Text × ℕ) → Pacer F → Pacer F × Bool
    unfolding after_bad current_pps
    canary sentinels p =
        let missed = misses sentinels in
        let s = record p.state {
          pps = max_num (N.of_ℕ 1) (N.div p.state.pps (N.of_ℕ 2));
          bad_windows = p.state.bad_windows + 1;
        } in
        if not (is_empty missed)
        then after_bad (
            write (bad_window s.bad_windows missed (current_pps s c.full_rate_cap))
              (record p { state = s }))
        else (
          write (canary_fine (length (checked sentinels)) (current_pps p.state c.full_rate_cap))
              (record p { state = record p.state { bad_windows = 0 } }),
          true,
        )

    -- `false` when the canary paused the module.
    unfoldable pub tick : F → List (Text × ℕ) → F → Pacer F → Pacer F × Bool
    tick now sentinels cap p =
        let s = ramp now cap p.state in
        let q = record p { state = record s { last_canary = now } } in
        if canary_due now s
        then if is_empty sentinels then (write disarmed q, true) else canary sentinels q
        else (record p { state = s }, not s.paused)

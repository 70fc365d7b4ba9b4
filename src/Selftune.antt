-- ===== src/Selftune.antt =====
-- pipeline/selftune.py: the multipliers of the branches' budgets. A multiplier is counted in
-- ten-thousandths, to which the code rounds it; a product is exact before it is rounded, as a float
-- is but for its last bits.
pub mod Bounds
pub mod Signals
mod Samples
use moirax_asm.Prelude.{
  ℕ, suc, ◌+◌, ◌-◌, ◌*◌, ◌/◌, ◌%◌, min, max, Bool, true, false, not, ◌&&◌, ◌||◌, Option, none, some,
  List, [], ◌∷◌, ◌++◌, if◌then◌else◌, ltb, leb, ◌==◌, Text, codes, mem, any, count, starts_with,
  length, drop, is_empty,
}

pub record Settings : Type 0 where
  pub enabled : Bool
  -- selftune_multiplier_min and _max, and the two steps.
  pub low : ℕ
  pub high : ℕ
  pub growth : ℕ
  pub decay : ℕ
  pub clean_needed : ℕ
  pub ledger_max : ℕ

-- 1.0
abbrev pub one : ℕ
one = 10000

pub data Observation : Type 0 where
  grew_passive grew_active decayed_passive decayed_active : Observation
  clean_run failures_recorded : ℕ → Observation

pub record Entry : Type 0 where
  pub run : Text
  pub observations : List Observation
  pub passive : ℕ
  pub active : ℕ
  pub changed : Bool

-- tuning.json; `none` is a file that is not there or cannot be read.
pub record Tuning : Type 0 where
  pub passive : ℕ
  pub active : ℕ
  pub clean_streak : ℕ
  pub ledger : List Entry

abbrev pub fresh_state : Tuning
fresh_state = record { passive = one; active = one; clean_streak = 0; ledger = [] }

abbrev pub load_state : Option Tuning → Tuning
load_state none = fresh_state
load_state (some t) = t

-- round(x, 4), for x in units of 1e-8: to the nearest, and to the even one of two.
unfoldable pub round_even : ℕ → ℕ
round_even n =
    let q = n / 10000 in
    let r = n % 10000 in if ltb r 5000 then q else if ltb 5000 r then q + 1 else q + q % 2

-- `_clamp`, of a value in units of 1e-8.
unfoldable pub clamp : Settings → ℕ → ℕ
unfolding round_even
clamp c x = round_even (min (c.high * 10000) (max (c.low * 10000) x))

unfoldable pub is_failure : Text → Bool
unfolding starts_with
is_failure p =
    starts_with p (codes "passive:")
    || starts_with p (codes "active:")
    || starts_with p (codes "portsweep:")
    || starts_with p (codes "owasp:")

abbrev pub read : Settings → ℕ → ℕ
read c m = clamp c (m * 10000)

abbrev pub grown : Settings → Bool → ℕ → ℕ
grown c marker m = if marker then clamp c (m * c.growth) else m

abbrev pub decayed : Settings → ℕ → ℕ
decayed c m = if ltb one m then clamp c (max (one * 10000) (m * c.decay)) else m

-- The multiplier of one branch after a run: `marker` is its own, `clean` that of neither branch.
unfoldable pub tuned : Settings → Bool → Bool → ℕ → ℕ → ℕ
unfolding clamp
tuned c marker clean streak m =
    if clean && leb c.clean_needed streak
    then decayed c (grown c marker (read c m))
    else grown c marker (read c m)

abbrev passive_marker : List Text → Bool
passive_marker partial = mem (codes "passive_budget") partial

abbrev active_marker : List Text → Bool
active_marker partial = mem (codes "active_budget") partial

unfoldable pub is_clean : List Text → Bool
unfolding mem
is_clean partial = not (passive_marker partial || active_marker partial)

-- ledger[-cap:]
unfoldable pub last_rows : ℕ → List Entry → List Entry
last_rows cap ledger = if cap == 0 then ledger else drop (length ledger - cap) ledger

abbrev observed : Bool → Observation → List Observation
observed b o = if b then o ∷ [] else []

unfoldable pub observations : Settings → List Text → ℕ → Tuning → List Observation
unfolding clamp is_clean is_failure mem
observations c partial streak t =
    observed (passive_marker partial) grew_passive
    ++ (observed (active_marker partial) grew_active
        ++ (observed (is_clean partial) (clean_run streak)
            ++ (observed
                  (is_clean partial && leb c.clean_needed streak && ltb one (read c t.passive))
                  decayed_passive
                ++ (observed
                      (is_clean partial && leb c.clean_needed streak && ltb one (read c t.active))
                      decayed_active
                    ++ observed (ltb 0 (count is_failure partial))
                        (failures_recorded (count is_failure partial))))))

-- The state of the next run, where the toggle is on.
unfoldable pub next_state : Settings → List Text → Text → Tuning → Tuning
unfolding tuned is_clean last_rows observations mem
next_state c partial stamp t =
    let streak = if is_clean partial then t.clean_streak + 1 else 0 in
    let passive = tuned c (passive_marker partial) (is_clean partial) streak t.passive in
    let active = tuned c (active_marker partial) (is_clean partial) streak t.active in
    let entry : Entry = record {
      run = if is_empty stamp then codes "adhoc" else stamp;
      observations = observations c partial streak t;
      passive = passive;
      active = active;
      changed = not (passive == read c t.passive && active == read c t.active);
    } in
    record {
      passive = passive;
      active = active;
      clean_streak = streak;
      ledger = last_rows c.ledger_max (t.ledger ++ entry ∷ []);
    }

-- What is on disk after a run.
unfoldable pub update_tuning : Settings → List Text → Text → Option Tuning → Option Tuning
unfolding next_state
update_tuning c partial stamp file =
    if c.enabled then some (next_state c partial stamp (load_state file)) else file

-- A base budget in hundredths of a second, scaled and rounded to them.
abbrev pub scaled : Settings → ℕ → ℕ → ℕ
scaled c m base = round_even (base * read c m)

unfoldable pub applied_budgets : Settings → ℕ → ℕ → Option Tuning → ℕ × ℕ
unfolding round_even clamp
applied_budgets c passive_base active_base file =
    if not c.enabled then (passive_base, active_base) else (
      scaled c (load_state file).passive passive_base,
      scaled c (load_state file).active active_base,
    )

-- ===== src/Ceiling.antt =====
-- pipeline/ceiling.py: the share of the host that a container gets. The readings of /proc/meminfo
-- are an argument: what the file says while a count of containers is tested, `none` if it has no
-- answer. Memory is in whole MB, a lock makes an operation one step.
pub mod Plan
pub mod Acquire
mod Samples
use moirax_asm.Prelude.{
  ℕ, zero, suc, ◌+◌, ◌-◌, ◌*◌, ◌/◌, min, max, Bool, true, false, not, ◌&&◌, Option, none, some,
  if◌then◌else◌, ltb, leb, codes,
}
use moirax_asm.Prelude.Json.{Value, Fields, dict, int, get}
use moirax_asm.Prelude.Num.{Num, lt, min_num, max_num}

pub record ContainerLimits (F : Type 0) : Type 0 where
  pub memory_mb : ℕ
  pub cpus : F
  pub concurrency : ℕ

pub record Ceiling (F : Type 0) : Type 0 where
  pub budget_ram_mb : ℕ
  pub budget_cpu : F
  pub cpu_floor : F
  pub ram_floor : ℕ
  pub running : ℕ

-- The settings of tools.yaml, after the defaults of `_num`, `_int` and `_flag`.
pub record Settings (F : Type 0) : Type 0 where
  pub ram_mb : ℕ
  pub ram_mb_max : ℕ
  pub cpu_cores : F
  pub cpu_cores_max : F
  pub auto : Bool
  pub cpu_reserve : F
  pub ram_reserve_mb : ℕ
  pub container_cpu_floor : F
  pub container_ram_floor_mb : ℕ

-- The overlay of dashboard/config.json.
pub record Overlay : Type 0 where
  pub cpu_cores : Option ℕ
  pub ram_mb : Option ℕ

-- An int that is positive; a bool, which Python counts as an int, is not one here.
unfoldable pub positive_int : Option Value → Option ℕ
positive_int (some (int (suc n))) = some (suc n)
positive_int v = none

-- `_dashboard_budget`, of the document that the file holds, `none` if there is none.
budget_of : Option Value → Overlay
unfolding positive_int
budget_of (some (dict raw)) = record {
  cpu_cores = positive_int (get (codes "cpu_cores") raw);
  ram_mb = positive_int (get (codes "ram_mb") raw);
}
budget_of v = record { cpu_cores = none; ram_mb = none }

unfoldable pub dashboard_budget : Option Value → Overlay
unfolding budget_of
dashboard_budget (some (dict doc)) = budget_of (get (codes "resource_budget") doc)
dashboard_budget v = record { cpu_cores = none; ram_mb = none }

-- How many containers the memory is shared by: what each gets.
unfoldable pub share : ℕ → ℕ → ℕ
share ram n = max 1 (ram / n)

abbrev pub or_ram : ℕ → Option ℕ → ℕ
or_ram ram none = ram
or_ram ram (some n) = n

abbrev pub enough : ℕ → Option ℕ → Bool
enough per none = true
enough per (some available) = leb per available

module _ {F : Type 0} ⦃N : Num F⦄ where
  fitted_ram : Settings F → ℕ → Option ℕ → ℕ
  fitted_ram p ram none = min (max ram p.container_ram_floor_mb) p.ram_mb_max
  fitted_ram p ram (some available) =
      min p.ram_mb_max (max p.container_ram_floor_mb (available - p.ram_reserve_mb))

  -- `host_cpus` is `host_cpu_count()`. The reserve may be more than what is available: the floor
  -- is not negative, so that the difference, which stops at 0, gives the same maximum.
  unfoldable pub fit_host : Settings F → ℕ → Option ℕ → ℕ → F × ℕ
  unfolding fitted_ram
  fit_host p host_cpus available ram = (
    min_num p.cpu_cores_max (max_num (N.of_ℕ 1) (N.sub (N.of_ℕ host_cpus) p.cpu_reserve)),
    fitted_ram p ram available,
  )

  abbrev pub or_cpu : F → Option ℕ → F
  or_cpu cpu none = cpu
  or_cpu cpu (some n) = N.of_ℕ n

  -- `__init__`
  unfoldable pub init : Settings F → Overlay → ℕ → Option ℕ → Ceiling F
  unfolding fit_host
  init p overlay host_cpus available =
      let ram = or_ram p.ram_mb overlay.ram_mb in
      let (cpu, fitted) =
        if p.auto
        then fit_host p host_cpus available ram
        else (or_cpu p.cpu_cores overlay.cpu_cores, ram) in
      record {
        budget_ram_mb = min fitted p.ram_mb_max;
        budget_cpu = cpu;
        cpu_floor = p.container_cpu_floor;
        ram_floor = p.container_ram_floor_mb;
        running = 0;
      }

  unfoldable pub limits_for : Ceiling F → ℕ → ContainerLimits F
  limits_for c n = record {
    memory_mb = share c.budget_ram_mb (max 1 n);
    cpus = N.div c.budget_cpu (N.of_ℕ (max 1 n));
    concurrency = max 1 n;
  }

  -- `epsilon` is 1e-12.
  module _ (epsilon : F) (available : ℕ → Option ℕ) where
    unfoldable pub fits : Ceiling F → ℕ → Bool
    fits c n =
        let per = share c.budget_ram_mb n in
        if ltb c.budget_ram_mb (n * per)
        then false
        else if ltb per c.ram_floor && ltb 1 n
        then false
        else if lt (N.add (N.div c.budget_cpu (N.of_ℕ n)) epsilon) c.cpu_floor && ltb 1 n
        then false
        else enough per (available n)

    -- while n > 1 and not self._fits(n): n -= 1
    unfoldable pub lower_to_fit : Ceiling F → ℕ → ℕ
    lower_to_fit c zero = zero
    lower_to_fit c (suc zero) = suc zero
    lower_to_fit c (suc (suc k)) =
        let rest = lower_to_fit c (suc k) in
        if not (fits c (suc (suc k))) then rest else suc (suc k)

    unfoldable pub plan : Ceiling F → ℕ → ContainerLimits F
    plan c parallel_count = limits_for c (lower_to_fit c (max 1 parallel_count))

    unfoldable pub acquire : ℕ → Ceiling F → Ceiling F × ContainerLimits F
    acquire planned c =
        let n = max 1 (c.running + 1) in
        let planned_n = lower_to_fit c (max n planned) in
        let granted = if ltb planned_n n then planned_n else n in
        (record c { running = c.running + 1 }, limits_for c (max granted 1))

  unfoldable pub release : Ceiling F → Ceiling F
  release c = if ltb 0 c.running then record c { running = c.running - 1 } else c

-- ===== src/Ceiling/Plan.antt =====
-- pipeline/ceiling.py, `plan` and `__init__`: the plan is the largest that fits the budget.
use moirax_asm.Prelude.{
  ℕ, zero, suc, ◌*◌, ◌≤◌, ◌<◌, max, ◌≡◌, refl, true, false, inl, inr, Option, none, some, ltb,
  arith, Bool-cases,
}
use moirax_asm.Prelude.Num.{Num, lt}
use native.Mathlib.Nat.{div-one}
use moirax_asm.Ceiling.{
  Ceiling, Settings, Overlay, init, fit_host, share, fits, limits_for, lower_to_fit, plan, enough,
}

module _ {F : Type 0} ⦃N : Num F⦄ where
  -- The budget for memory is never above its maximum, and if the maximum is at least the floor of a
  -- container, the budget that is fitted to the host is at least that floor.
  pub init-bounded :
      (p : Settings F) (overlay : Overlay) (host_cpus : ℕ) (available : Option ℕ)
      → ((init p overlay host_cpus available).budget_ram_mb ≤ p.ram_mb_max)
        × (p.auto ≡ true
            → p.container_ram_floor_mb ≤ p.ram_mb_max
            → p.container_ram_floor_mb ≤ (init p overlay host_cpus available).budget_ram_mb)
  unfolding init
  init-bounded p overlay host_cpus none = (omega arith, λ a h. ground arith)
  init-bounded p overlay host_cpus (some m) = (omega arith, λ a h. ground arith)

  module _ (epsilon : F) (available : ℕ → Option ℕ) (c : Ceiling F) where
    abbrev pub lowered : ℕ → ℕ
    lowered n = lower_to_fit epsilon available c n

    pub lower_to_fit_least : (n : ℕ) → 1 ≤ n → 1 ≤ lowered n
    unfolding lower_to_fit
    lower_to_fit_least zero h = absurd (omega arith)
    lower_to_fit_least (suc zero) h = omega arith
    lower_to_fit_least (suc (suc k)) h = ground (arith, lower_to_fit_least (suc k) (omega arith))

    pub lower_to_fit_most : (n : ℕ) → lowered n ≤ n
    unfolding lower_to_fit
    lower_to_fit_most zero = omega arith
    lower_to_fit_most (suc zero) = omega arith
    lower_to_fit_most (suc (suc k)) = ground (arith, lower_to_fit_most (suc k))

    lower_to_fit_fits : (n : ℕ) → 1 < lowered n → fits epsilon available c (lowered n) ≡ true
    unfolding lower_to_fit
    lower_to_fit_fits zero h = absurd (omega arith)
    lower_to_fit_fits (suc zero) h = absurd (omega arith)
    lower_to_fit_fits (suc (suc k)) h = elim (Bool-cases (fits epsilon available c (suc (suc k)))) [
      | inl e ↦ rw e (rw e refl)
      | inr e ↦ rw e (lower_to_fit_fits (suc k) (rw e at h))
    ]

    lower_to_fit_largest : (n m : ℕ) → lowered n < m → m ≤ n → fits epsilon available c m ≡ false
    unfolding lower_to_fit
    lower_to_fit_largest zero m h k = absurd (omega arith)
    lower_to_fit_largest (suc zero) m h k = absurd (omega arith)
    lower_to_fit_largest (suc (suc j)) m h k =
        elim (Bool-cases (fits epsilon available c (suc (suc j)))) [
          | inl e ↦ absurd (ground (arith, e))
          | inr e ↦ elim (Bool-cases (ltb (suc j) m)) [
            | inl top ↦ let q : m ≡ suc (suc j) = ground arith in rw q e
            | inr low ↦ lower_to_fit_largest (suc j) m (rw e at h) (ground arith)
          ]
        ]

    fits-share :
        (n : ℕ) → fits epsilon available c n ≡ true → n * share c.budget_ram_mb n ≤ c.budget_ram_mb
    unfolding fits
    fits-share n h = ground arith

    share_within :
        (n : ℕ)
        → 1 ≤ n
        → (1 < n → fits epsilon available c n ≡ true)
        → n * share c.budget_ram_mb n ≤ max 1 c.budget_ram_mb
    unfolding share
    share_within zero h f = absurd (omega arith)
    share_within (suc zero) h f = rw div-one (omega arith)
    share_within (suc (suc k)) h f = omega (arith, fits-share (suc (suc k)) (f (omega arith)))

    fits-conditions :
        (n : ℕ)
        → 1 < n
        → fits epsilon available c n ≡ true
        → (c.ram_floor ≤ share c.budget_ram_mb n)
          × (lt (N.add (N.div c.budget_cpu (N.of_ℕ n)) epsilon) c.cpu_floor ≡ false)
          × (enough (share c.budget_ram_mb n) (available n) ≡ true)
    unfolding fits
    fits-conditions n h k = ground (arith, h, k)

    -- `plan` shares the host by at least one container and at most as many as were asked for. What
    -- the containers get together is within the budget for memory. If there is more than one, each
    -- has the floor of memory and, up to epsilon, of cores, and the memory that is available is
    -- enough for one more. Each larger count up to the one asked for was tested and did not fit.
    pub plan_largest :
        (count : ℕ)
        → let l = plan epsilon available c count in
          (1 ≤ l.concurrency)
          × (l.concurrency ≤ max 1 count)
          × (l.concurrency * l.memory_mb ≤ max 1 c.budget_ram_mb)
          × (1 < l.concurrency
              → (c.ram_floor ≤ l.memory_mb)
                × (lt (N.add l.cpus epsilon) c.cpu_floor ≡ false)
                × (enough l.memory_mb (available l.concurrency) ≡ true))
          × ((m : ℕ) → l.concurrency < m → m ≤ max 1 count → fits epsilon available c m ≡ false)
    unfolding plan limits_for
    plan_largest count =
        let least = lower_to_fit_least (max 1 count) (omega arith) in
        let one : max 1 (lowered (max 1 count)) ≡ lowered (max 1 count) = omega (arith, least) in
        rw one (
          least,
          lower_to_fit_most (max 1 count),
          share_within (lowered (max 1 count)) least (lower_to_fit_fits (max 1 count)),
          λ more.
              fits-conditions (lowered (max 1 count)) more (lower_to_fit_fits (max 1 count) more),
          lower_to_fit_largest (max 1 count),
        )

  -- When the budget is fitted to a host whose memory can be read, the operator's overlay of
  -- dashboard/config.json does not change it.
  pub init_auto-overlay :
      (p : Settings F) (overlay : Overlay) (host_cpus m : ℕ)
      → p.auto ≡ true
      → init p overlay host_cpus (some m)
        ≡ init p (record { cpu_cores = none; ram_mb = none }) host_cpus (some m)
  unfolding init fit_host
  init_auto-overlay p overlay host_cpus m auto = rw auto refl

-- ===== src/Ceiling/Acquire.antt =====
-- pipeline/ceiling.py, `acquire` and `release`: what the containers that run together get.
use moirax_asm.Prelude.{ℕ, ◌+◌, ◌/◌, ◌≤◌, ◌<◌, max, ◌≡◌, refl, true, Option, arith}
use moirax_asm.Prelude.Num.{Num}
use native.Mathlib.Nat.{div-one}
use moirax_asm.Ceiling.{Ceiling, share, fits, limits_for, lower_to_fit, acquire}
use moirax_asm.Ceiling.Plan.{lower_to_fit_least}

module _ {F : Type 0} ⦃N : Num F⦄ (epsilon : F) (available : ℕ → Option ℕ) where
  -- While no container runs, the next one gets the whole budget, whatever count was planned.
  pub acquire_alone :
      (planned : ℕ) (c : Ceiling F)
      → c.running ≡ 0
      → let l = (acquire epsilon available planned c).1 in
        (l.concurrency ≡ 1) × (l.memory_mb ≡ max 1 c.budget_ram_mb)
  unfolding acquire limits_for share
  acquire_alone planned c h =
      let least = lower_to_fit_least epsilon available c (max 1 planned) (omega arith) in
      rw h (ground (arith, least, div-one c.budget_ram_mb))

  acquire-running :
      (planned : ℕ) (c : Ceiling F)
      → ((acquire epsilon available planned c).0.running ≡ c.running + 1)
        × ((acquire epsilon available planned c).0.budget_ram_mb ≡ c.budget_ram_mb)
  unfolding acquire
  acquire-running planned c = (refl, refl)

  acquire_beside_one :
      (planned : ℕ) (c : Ceiling F)
      → c.running ≡ 1
      → planned ≤ 2
      → fits epsilon available c 2 ≡ true
      → (acquire epsilon available planned c).1.memory_mb ≡ max 1 (c.budget_ram_mb / 2)
  unfolding acquire limits_for share lower_to_fit fits
  acquire_beside_one planned c h p f =
      let two : max 2 planned ≡ 2 = omega arith in rw (h, two, f) refl

  -- Let no container run, at most two be planned, and the budget be 2 MB or more. If two
  -- containers fit once the first one is acquired, the first and the second have more memory
  -- together than the budget.
  pub acquire_second_exceeds :
      (planned : ℕ) (c : Ceiling F)
      → c.running ≡ 0
      → planned ≤ 2
      → 2 ≤ c.budget_ram_mb
      → fits epsilon available (acquire epsilon available planned c).0 2 ≡ true
      → c.budget_ram_mb
        < (acquire epsilon available planned c).1.memory_mb
          + (acquire epsilon available planned (acquire epsilon available planned c).0).1.memory_mb
  acquire_second_exceeds planned c h p b f =
      let (runs, same) = acquire-running planned c in
      omega (
        arith,
        (acquire_alone planned c h).1,
        same,
        acquire_beside_one planned (acquire epsilon available planned c).0 (omega (arith, runs, h))
            p f,
      )

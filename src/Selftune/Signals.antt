-- ===== src/Selftune/Signals.antt =====
-- pipeline/selftune.py: a module's failure moves no budget, and clean runs bring a multiplier back.
use moirax_asm.Prelude.{
  ℕ, zero, suc, ◌≡◌, ◌≤◌, ◌<◌, ◌+◌, ◌-◌, ◌*◌, refl, ◌∙◌, min, max, false, not, List, [], ◌∷◌, Text,
  codes, text_eq, text_eq_iff, mem, filter, arith, if◌then◌else◌, Bool-cases, inl, inr, ltb, leb,
  ltb→lt, lt→ltb, leb→le,
}
use moirax_asm.Selftune.{
  Settings, Tuning, clamp, tuned, next_state, decayed, one, is_clean, is_failure,
}
use moirax_asm.Selftune.Bounds.{
  InRange, round_even_below, clamp_whole, next_state-InRange, clamp_base,
}

passive_no_failure : is_failure (codes "passive_budget") ≡ false
unfolding is_failure
passive_no_failure = refl

active_no_failure : is_failure (codes "active_budget") ≡ false
unfolding is_failure
active_no_failure = refl

abbrev pub signals : List Text → List Text
signals partial = filter (λ p. not (is_failure p)) partial

mem-signals :
    (m : Text) (partial : List Text)
    → is_failure m ≡ false
    → mem m (signals partial) ≡ mem m partial
unfolding mem
mem-signals m [] h = refl
mem-signals m (p ∷ partial) h = elim (Bool-cases (text_eq m p)) [
  | inl e ↦
      let q : m ≡ p = (text_eq_iff m p).0 e in
      let n : is_failure p ≡ false = rw (← q) h in rw (n) (ground (arith, mem-signals m partial h))
  | inr e ↦ ground (arith, mem-signals m partial h)
]

-- The failures of modules move no budget: without their markers the next run has the same
-- multipliers and the same streak.
pub next_state-signals :
    (c : Settings) (partial : List Text) (stamp : Text) (t : Tuning)
    → ((next_state c (signals partial) stamp t).passive ≡ (next_state c partial stamp t).passive)
      × ((next_state c (signals partial) stamp t).active ≡ (next_state c partial stamp t).active)
      × ((next_state c (signals partial) stamp t).clean_streak
          ≡ (next_state c partial stamp t).clean_streak)
unfolding next_state is_clean
next_state-signals c partial stamp t =
    let p = mem-signals (codes "passive_budget") partial passive_no_failure in
    let a = mem-signals (codes "active_budget") partial active_no_failure in
    rw (p, a) (refl, refl, refl)

-- Runs without a marker.
abbrev pub clean_runs : Settings → ℕ → Tuning → Tuning
clean_runs c zero t = t
clean_runs c (suc n) t = clean_runs c n (next_state c [] [] t)

module _ (c : Settings) (below : c.low ≤ one) (above : one ≤ c.high) (shrinks : c.decay < one) where
  product_smaller : (m : ℕ) → one < m → m * c.decay ≤ (m - 1) * 10000
  product_smaller m h =
      let a : m * c.decay ≤ m * 9999 = grind (arith, shrinks) in omega (arith, a, h)

  clamp_smaller : (m x : ℕ) → one ≤ m → x ≤ m * 10000 → clamp c x ≤ m
  unfolding clamp
  clamp_smaller m x h k =
      round_even_below m (min (c.high * 10000) (max (c.low * 10000) x)) (omega arith)

  decayed_smaller : (m : ℕ) → one < m → decayed c m ≤ m - 1
  decayed_smaller m h = rw (lt→ltb one m h) (
      clamp_smaller (m - 1) (max (one * 10000) (m * c.decay)) (omega arith)
        (omega (arith, product_smaller m h)))

  decayed_small : (m : ℕ) → m ≤ one → decayed c m ≡ m
  decayed_small m h = ground arith

  -- A decay goes towards 1.0, and not below it.
  decayed_settles : (m : ℕ) → min (decayed c m) one ≡ min m one
  decayed_settles m = elim (Bool-cases (ltb one m)) [
    | inl e ↦
        let more : one ≤ clamp c (max (one * 10000) (m * c.decay)) =
          clamp_base c (omega (arith, below, above)) (max (one * 10000) (m * c.decay)) above
            (omega arith) in
        rw e (omega (arith, more, ltb→lt one m e))
    | inr e ↦ rw e refl
  ]

  decayed_bound : (m : ℕ) → decayed c m - one ≤ m - one - 1
  decayed_bound m = elim (Bool-cases (ltb one m)) [
    | inl e ↦ omega (arith, decayed_smaller m (ltb→lt one m e))
    | inr e ↦ let h : m ≤ one = ground (arith, e) in omega (arith, decayed_small m h, h)
  ]

  -- What stands between a multiplier and 1.0: the clean runs that are still needed, and its excess.
  abbrev pub distance : Tuning → ℕ → ℕ
  distance t m = (c.clean_needed - (t.clean_streak + 1)) + (m - one)

  next_streak : (t : Tuning) → (next_state c [] [] t).clean_streak ≡ t.clean_streak + 1
  unfolding next_state is_clean mem
  next_streak t = refl

  -- The multiplier `m` of the state t becomes `n` in a clean run.
  abbrev CleanStep : Tuning → ℕ → ℕ → Type 0
  CleanStep t m n = n ≡ (if leb c.clean_needed (t.clean_streak + 1) then decayed c m else m)

  closer :
      (k : ℕ) (t : Tuning) (m n : ℕ)
      → CleanStep t m n
      → distance t m ≤ suc k
      → (distance (next_state c [] [] t) n ≤ k) × (min n one ≡ min m one)
  closer k t m n step h = elim (Bool-cases (leb c.clean_needed (t.clean_streak + 1))) [
    | inl e ↦
        let p : n ≡ decayed c m = step ∙ rw e refl in
        (omega (arith, next_streak t, p, decayed_bound m, leb→le _ _ e), rw p (decayed_settles m))
    | inr e ↦
        let p : n ≡ m = step ∙ rw e refl in
        let late : t.clean_streak + 1 < c.clean_needed = ground arith in
        (omega (arith, next_streak t, p, late), rw p refl)
  ]

  settles :
      (get : Tuning → ℕ)
      → ((t : Tuning) → InRange c (get t) → CleanStep t (get t) (get (next_state c [] [] t)))
      → ((t : Tuning) → InRange c (get (next_state c [] [] t)))
      → (n : ℕ) (t : Tuning) → InRange c (get t)
      → distance t (get t) ≤ n
      → get (clean_runs c n t) ≡ min (get t) one
  settles get step range zero t r h = omega (arith, h)
  settles get step range (suc n) t r h =
      let near = closer n t (get t) (get (next_state c [] [] t)) (step t r) h in
      settles get step range n (next_state c [] [] t) (range t) near.0 ∙ near.1

  clean_steps :
      (t : Tuning)
      → (InRange c t.passive → CleanStep t t.passive (next_state c [] [] t).passive)
        × (InRange c t.active → CleanStep t t.active (next_state c [] [] t).active)
  unfolding next_state is_clean tuned mem
  clean_steps t = (
    λ r. rw (clamp_whole c (omega arith) t.passive r) refl,
    λ r. rw (clamp_whole c (omega arith) t.active r) refl,
  )

  -- Given a range around 1.0 and a decay below it: enough runs without a marker bring each
  -- multiplier that is above 1.0 back to exactly 1.0 and leave one that is not above as it is. One
  -- run is enough for each that the streak still lacks, and one for each ten-thousandth above.
  pub clean_runs_settle :
      (n : ℕ) (t : Tuning)
      → InRange c t.passive
      → InRange c t.active
      → distance t t.passive ≤ n
      → distance t t.active ≤ n
      → ((clean_runs c n t).passive ≡ min t.passive one)
        × ((clean_runs c n t).active ≡ min t.active one)
  clean_runs_settle n t p a h k = (
    settles (λ u. u.passive) (λ u r. (clean_steps u).0 r)
        (λ u. (next_state-InRange c (omega arith) [] [] u).0) n t p h,
    settles (λ u. u.active) (λ u r. (clean_steps u).1 r)
        (λ u. (next_state-InRange c (omega arith) [] [] u).1) n t a k,
  )

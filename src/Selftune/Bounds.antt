-- ===== src/Selftune/Bounds.antt =====
-- pipeline/selftune.py: the range of the multipliers, and what moves them.
use moirax_asm.Prelude.{
  ℕ, ◌≡◌, ◌≤◌, ◌*◌, min, max, Bool, not, Option, some, List, Text, arith, if_elim, ltb, leb, ◌&&◌,
}
use moirax_asm.Selftune.{
  Settings, Tuning, round_even, clamp, tuned, next_state, update_tuning, read, grown, decayed, one,
  load_state, applied_budgets, scaled,
}

round_even_whole : (k : ℕ) → round_even (k * 10000) ≡ k
unfolding round_even
round_even_whole k = ground arith

round_even_mono : (a b : ℕ) → a ≤ b → round_even a ≤ round_even b
unfolding round_even
round_even_mono a b h = ground arith

-- A value that is a whole number below: rounding keeps the bound.
round_even_above : (k x : ℕ) → k * 10000 ≤ x → k ≤ round_even x
unfolding round_even
round_even_above k x h = ground arith

pub round_even_below : (k x : ℕ) → x ≤ k * 10000 → round_even x ≤ k
unfolding round_even
round_even_below k x h = ground arith

abbrev pub InRange : Settings → ℕ → Type 0
InRange c m = (c.low ≤ m) × (m ≤ c.high)

module _ (c : Settings) (ordered : c.low ≤ c.high) where
  clamp-InRange : (x : ℕ) → InRange c (clamp c x)
  unfolding clamp
  clamp-InRange x = (
    round_even_above c.low (min (c.high * 10000) (max (c.low * 10000) x)) (omega (arith, ordered)),
    round_even_below c.high (min (c.high * 10000) (max (c.low * 10000) x)) (omega (arith, ordered)),
  )

  -- A value of at least 1.0 stays so.
  pub clamp_base : (x : ℕ) → one ≤ c.high → one * 10000 ≤ x → one ≤ clamp c x
  unfolding clamp
  clamp_base x h k =
      round_even_above one (min (c.high * 10000) (max (c.low * 10000) x)) (omega arith)

  pub clamp_whole : (m : ℕ) → InRange c m → read c m ≡ m
  unfolding clamp
  clamp_whole m r =
      let e : min (c.high * 10000) (max (c.low * 10000) (m * 10000)) ≡ m * 10000 =
        omega (arith, r.0, r.1) in
      rw e (round_even_whole m)

  grown-InRange : (marker : Bool) (m : ℕ) → InRange c m → InRange c (grown c marker m)
  grown-InRange marker m r =
      if_elim (InRange c) marker _ _ (λ h. clamp-InRange (m * c.growth)) (λ h. r)

  decayed-InRange : (m : ℕ) → InRange c m → InRange c (decayed c m)
  decayed-InRange m r =
      if_elim (InRange c) (ltb one m) _ _ (λ h. clamp-InRange (max (one * 10000) (m * c.decay)))
        (λ h. r)

  tuned-InRange : (marker clean : Bool) (streak m : ℕ) → InRange c (tuned c marker clean streak m)
  unfolding tuned
  tuned-InRange marker clean streak m =
      let g = grown-InRange marker (read c m) (clamp-InRange (m * 10000)) in
      if_elim (InRange c) (clean && leb c.clean_needed streak) _ _
        (λ h. decayed-InRange (grown c marker (read c m)) g) (λ h. g)

  -- Given an ordered range: after a run both multipliers are in the range of the settings, whatever
  -- tuning.json held.
  pub next_state-InRange :
      (partial : List Text) (stamp : Text) (t : Tuning)
      → InRange c (next_state c partial stamp t).passive
        × InRange c (next_state c partial stamp t).active
  unfolding next_state
  next_state-InRange partial stamp t = (tuned-InRange _ _ _ _, tuned-InRange _ _ _ _)

  module _ (base : one ≤ c.high) (grows : one ≤ c.growth) where
    grown_base : (marker : Bool) (m : ℕ) → one ≤ m → one ≤ grown c marker m
    grown_base marker m h =
        if_elim (λ (n : ℕ). one ≤ n) marker _ _
          (λ k. clamp_base (m * c.growth) base (grind (arith, h, grows))) (λ k. h)

    decayed_base : (m : ℕ) → one ≤ m → one ≤ decayed c m
    decayed_base m h =
        if_elim (λ (n : ℕ). one ≤ n) (ltb one m) _ _
          (λ k. clamp_base (max (one * 10000) (m * c.decay)) base (omega arith)) (λ k. h)

    tuned_base :
        (marker clean : Bool) (streak m : ℕ) → one ≤ m → one ≤ tuned c marker clean streak m
    unfolding tuned
    tuned_base marker clean streak m h =
        let g = grown_base marker (read c m) (clamp_base (m * 10000) base (omega (arith, h))) in
        if_elim (λ (n : ℕ). one ≤ n) (clean && leb c.clean_needed streak) _ _
          (λ k. decayed_base (grown c marker (read c m)) g) (λ k. g)

    scaled_base : (m b : ℕ) → one ≤ m → b ≤ scaled c m b
    scaled_base m b h =
        round_even_above b (b * read c m)
          (grind (arith, clamp_base (m * 10000) base (omega (arith, h))))

    abbrev AtBase : Option Tuning → Type 0
    AtBase file = (one ≤ (load_state file).passive) × (one ≤ (load_state file).active)

    applied_base :
        (p a : ℕ) (file : Option Tuning)
        → AtBase file
        → (p ≤ (applied_budgets c p a file).0) × (a ≤ (applied_budgets c p a file).1)
    unfolding applied_budgets
    applied_base p a file h =
        if_elim (λ (r : ℕ × ℕ). (p ≤ r.0) × (a ≤ r.1)) (not c.enabled) _ _
          (λ k. (omega arith, omega arith))
          (λ k. (
            scaled_base (load_state file).passive p h.0,
            scaled_base (load_state file).active a h.1,
          ))

    update_base :
        (partial : List Text) (stamp : Text) (t : Tuning)
        → AtBase (some t)
        → AtBase (update_tuning c partial stamp (some t))
    unfolding update_tuning next_state
    update_base partial stamp t h =
        if_elim AtBase c.enabled _ _
          (λ k. (tuned_base _ _ _ t.passive h.0, tuned_base _ _ _ t.active h.1)) (λ k. h)

    -- Given also a range that reaches to 1.0 and a growth of at least 1.0: from multipliers of at
    -- least 1.0 the next run's budgets are not below the operator's, whatever the markers.
    pub applied_budgets-update_tuning :
        (partial : List Text) (stamp : Text) (t : Tuning) (p a : ℕ)
        → one ≤ t.passive
        → one ≤ t.active
        → (p ≤ (applied_budgets c p a (update_tuning c partial stamp (some t))).0)
          × (a ≤ (applied_budgets c p a (update_tuning c partial stamp (some t))).1)
    applied_budgets-update_tuning partial stamp t p a hp ha =
        applied_base p a (update_tuning c partial stamp (some t))
          (update_base partial stamp t (hp, ha))

-- ===== src/Rotation/Health.antt =====
-- pipeline/ip_rotation.py, `record_outcome`: what the outcomes of an entry do to later picks.
use moirax_asm.Prelude.{
  ℕ, zero, suc, ◌+◌, ◌-◌, ◌≤◌, ◌<◌, ◌≡◌, ◌≢◌, refl, ap, ◌∙◌, Bool, true, false, Option, none, some,
  List, arith, Text, length, length-drop,
}
use moirax_asm.Rotation.{
  HealthEvent, cap_events, ProxyPool, unhealthy, total, pick, record_outcome, consecutive,
  max_events,
}
use moirax_asm.Rotation.Pick.{pick-IsSound}

cap_events-bounded : (events : List HealthEvent) → length (cap_events events) ≤ max_events
unfolding cap_events
cap_events-bounded events = omega (arith, length-drop (length events - max_events) events)

-- What `record_outcome` does to the two things that `_pick` reads, at entry `i`.
module _ (mask_proxy : Text → Text) (tool module_name : Text) (attempt : Option ℕ)
    (now : Text) where
  abbrev pub outcome : ℕ → Bool → ℕ → ProxyPool → ProxyPool
  outcome i ok duration =
      record_outcome mask_proxy (some i) ok duration tool module_name attempt now

  outcome-entries :
      (p : ProxyPool) (i : ℕ) (ok : Bool) (d : ℕ) → (outcome i ok d p).entries ≡ p.entries
  unfolding record_outcome
  outcome-entries p i ok d = ground arith

  outcome-unhealthy_after :
      (p : ProxyPool) (i : ℕ) (ok : Bool) (d : ℕ)
      → (outcome i ok d p).unhealthy_after ≡ p.unhealthy_after
  unfolding record_outcome
  outcome-unhealthy_after p i ok d = ground arith

  consecutive-fail :
      (p : ProxyPool) (i d : ℕ)
      → i < total p
      → consecutive ((outcome i false d p).health i) ≡ consecutive (p.health i) + 1
  unfolding record_outcome
  consecutive-fail p i d h = ground arith

  consecutive-other :
      (p : ProxyPool) (i j : ℕ) (ok : Bool) (d : ℕ)
      → i ≢ j
      → consecutive ((outcome i ok d p).health j) ≡ consecutive (p.health j)
  unfolding record_outcome
  consecutive-other p i j ok d h = ground arith

  -- The same entry fails n times in a row.
  unfoldable pub fail_times : ℕ → ℕ → ℕ → ProxyPool → ProxyPool
  fail_times zero i d p = p
  fail_times (suc n) i d p = fail_times n i d (outcome i false d p)

  fail_times-lem :
      (n i d : ℕ) (p : ProxyPool)
      → i < total p
      → (consecutive ((fail_times n i d p).health i) ≡ consecutive (p.health i) + n)
        × (total (fail_times n i d p) ≡ total p)
        × ((fail_times n i d p).unhealthy_after ≡ p.unhealthy_after)
        × ((j : ℕ) → i ≢ j → consecutive ((fail_times n i d p).health j) ≡ consecutive (p.health j))
  unfolding fail_times
  fail_times-lem zero i d p h = (omega arith, refl, refl, λ j ne. refl)
  fail_times-lem (suc n) i d p h =
      let same : total (outcome i false d p) ≡ total p = ap length (outcome-entries p i false d) in
      let rest = fail_times-lem n i d (outcome i false d p) (omega (arith, same, h)) in
      (
        omega (arith, rest.0, consecutive-fail p i d h),
        rest.1 ∙ same,
        rest.2 ∙ outcome-unhealthy_after p i false d,
        λ j ne. rest.3 j ne ∙ consecutive-other p i j false d ne,
      )

  -- An entry with `unhealthy_after` or more failures in a row is not picked while another entry
  -- of the pool is healthy, whatever its record was before.
  pub pick-fail_times :
      (p : ProxyPool) (i j n d : ℕ)
      → i < total p
      → j < total p
      → i ≢ j
      → unhealthy p j ≡ false
      → p.unhealthy_after ≤ n
      → (pick (fail_times n i d p)).1.index ≢ i
  pick-fail_times p i j n d hi hj ne e enough same =
      let after = fail_times-lem n i d p hi in
      let other : unhealthy (fail_times n i d p) j ≡ false =
        unfold unhealthy in ground (arith, after.3 j ne, after.2) in
      let sound = pick-IsSound (fail_times n i d p) j (omega (arith, after.1)) other in
      let at_i : unhealthy (fail_times n i d p) i ≡ true =
        unfold unhealthy in ground (arith, after.0, after.2) in
      cc (sound.0.healthy, same, at_i)

  -- One success makes the entry healthy again.
  pub unhealthy-success :
      (p : ProxyPool) (i d : ℕ)
      → i < total p
      → 0 < p.unhealthy_after
      → unhealthy (outcome i true d p) i ≡ false
  unfolding record_outcome unhealthy
  unhealthy-success p i d h pos = ground arith

  -- The ring of health events never holds more than `max_events`.
  pub health_events-bounded :
      (p : ProxyPool) (idx : Option ℕ) (ok : Bool) (d : ℕ)
      → length p.health_events ≤ max_events
      → length (record_outcome mask_proxy idx ok d tool module_name attempt now p).health_events
        ≤ max_events
  unfolding record_outcome
  health_events-bounded p none ok d h = h
  health_events-bounded p (some i) ok d h = grind (arith, cap_events-bounded)

-- ===== src/Rotation/Pick.antt =====
-- pipeline/ip_rotation.py, `_pick`: which entry the next attempt takes.
use moirax_asm.Prelude.{
  ℕ, zero, suc, ◌+◌, ◌-◌, ◌%◌, ◌≤◌, ◌<◌, ◌≡◌, refl, sym, ◌∙◌, ap, inl, inr, ◌⊎◌, true, false, not,
  some, List, [], ◌∷◌, ◌++◌, map, arith, Bool-cases, length, mem_ℕ, range_from, is_empty, All,
  All-append, All-range_from, All-mem_ℕ, mem_ℕ-range_from, mem_ℕ-filter, length-filter-All,
  length-range_from, filter, below-suc, ◌==◌,
}
use mathlib.Core.Path.{◌≡⟨◌⟩◌, ◌∎}
use native.Mathlib.Nat.{mod-add-mod, add-mod-mod, add-mod_right, mod-eq_of_lt}
use moirax_asm.Rotation.{
  ProxyPool, Picked, unhealthy, scan, total, healthy_of, order_of, round_robin, take_found, pick,
}

-- The entry at distance k from the cursor, going round.
abbrev pub at_distance : ProxyPool → ℕ → ℕ
at_distance p k = (p.cursor + k) % total p

-- `i` is the first healthy entry from the cursor on, and the skipped ones are unhealthy.
pub record IsFirstHealthy (p : ProxyPool) (i : ℕ) : Type 0 where
  pub distance : ℕ
  pub in_round : distance < total p
  pub is_there : i ≡ at_distance p distance
  pub healthy : unhealthy p i ≡ false
  pub nearer : All (λ j. unhealthy p (at_distance p j) ≡ true) (range_from 0 distance)

mem-healthy_of :
    (p : ProxyPool) (j : ℕ) → j < total p → mem_ℕ j (healthy_of p) ≡ not (unhealthy p j)
unfolding healthy_of
mem-healthy_of p j h = ground (
  arith,
  mem_ℕ-filter (λ i. not (unhealthy p i)) (range_from 0 (total p)) j,
  (mem_ℕ-range_from 0 (total p) j).1,
)

at_distance-lt : (p : ProxyPool) (k : ℕ) → 0 < total p → at_distance p k < total p
at_distance-lt p k h = omega arith

-- The scan over the distances s, …, s + n - 1.
scan-range :
    (p : ProxyPool) (skipped : List ℕ) (s n : ℕ)
    → 0 < total p
    → All (λ i. unhealthy p i ≡ true) skipped
    → ((j : ℕ) → j < s → unhealthy p (at_distance p j) ≡ true)
    → ((k : ℕ) × (done : List ℕ) × (k < s + n)
        × (scan (healthy_of p) skipped (map (at_distance p) (range_from s n))
            ≡ some (at_distance p k, done))
        × (unhealthy p (at_distance p k) ≡ false)
        × ((j : ℕ) → j < k → unhealthy p (at_distance p j) ≡ true)
        × All (λ i. unhealthy p i ≡ true) done)
      ⊎ ((j : ℕ) → j < s + n → unhealthy p (at_distance p j) ≡ true)
unfolding scan
scan-range p skipped s zero pos bad before = inr (λ j h. before j (omega arith))
scan-range p skipped s (suc n) pos bad before = elim (Bool-cases (unhealthy p (at_distance p s))) [
  | inl e ↦
      let more =
        scan-range p (skipped ++ at_distance p s ∷ []) (suc s) n pos
          (All-append (λ i. unhealthy p i ≡ true) skipped _ bad (e, tt))
          (below-suc (λ j. unhealthy p (at_distance p j) ≡ true) s before e) in
      elim more [
        | inl found ↦ inl (
          found.0,
          found.1,
          omega (arith, found.2),
          ground (arith, e, mem-healthy_of p (at_distance p s) (at_distance-lt p s pos), found.3),
          found.4,
          found.5,
          found.6,
        )
        | inr allbad ↦ inr (λ j h. allbad j (omega arith))
      ]
  | inr e ↦ inl (
    s,
    skipped,
    omega arith,
    ground (arith, e, mem-healthy_of p (at_distance p s) (at_distance-lt p s pos)),
    e,
    before,
    bad,
  )
]

all_healthy :
    (p : ProxyPool)
    → length (healthy_of p) ≡ total p
    → (j : ℕ) → j < total p
    → unhealthy p j ≡ false
unfolding healthy_of
all_healthy p e j h =
    let each =
      length-filter-All (λ i. not (unhealthy p i)) (range_from 0 (total p))
        (e ∙ sym (length-range_from 0 (total p))) in
    ground (
      arith,
      All-mem_ℕ (λ i. not (unhealthy p i) ≡ true) (range_from 0 (total p)) j each
          ((mem_ℕ-range_from 0 (total p) j).1 (omega arith, omega arith)),
    )

round_trip : (c i t : ℕ) → i < t → (c + (i + t - c % t) % t) % t ≡ i
round_trip c i t h =
    (c + (i + t - c % t) % t) % t
    ≡⟨ add-mod-mod c (i + t - c % t) t ∙ sym (mod-add-mod c t (i + t - c % t)) ⟩
      (c % t + (i + t - c % t)) % t
    ≡⟨ ap (λ (n : ℕ). n % t) (omega arith) ⟩ (i + t) % t
    ≡⟨ add-mod_right i t ∙ mod-eq_of_lt h ⟩ i ∎

at_distance-onto :
    (p : ProxyPool) (i : ℕ) → i < total p → (k : ℕ) × (k < total p) × (at_distance p k ≡ i)
at_distance-onto p i h =
    ((i + total p - p.cursor % total p) % total p, omega arith, round_trip p.cursor i (total p) h)

abbrev pub IsSound : (p : ProxyPool) → ProxyPool × Picked → Type 0
IsSound p r =
    IsFirstHealthy p r.1.index
    × All (λ i. unhealthy p i ≡ true) r.1.skipped
    × (r.1.noted ≡ false)
    × (r.0 ≡ record p { cursor = r.1.index + 1 })

take_found-IsSound :
    (p : ProxyPool) (i : ℕ)
    → i < total p
    → unhealthy p i ≡ false
    → IsSound p (take_found p (scan (healthy_of p) [] (order_of p)))
unfolding take_found order_of
take_found-IsSound p i h e =
    elim (scan-range p [] 0 (total p) (omega arith) tt (λ j l. absurd (omega arith))) [
      | inl found ↦ rw (found.3) (
        record {
          distance = found.0;
          in_round = omega (arith, found.2);
          is_there = refl;
          healthy = found.4;
          nearer =
              All-range_from (λ j. unhealthy p (at_distance p j) ≡ true) 0 (found.0)
                (λ j l m. found.5 j (omega arith));
        },
        found.6,
        refl,
        refl,
      )
      | inr bad ↦
          let (k, l, q) = at_distance-onto p i h in absurd (cc (bad k (omega (arith, l)), e, q))
    ]

-- When some entry of the pool is healthy, `_pick` returns the first healthy one from the cursor
-- on, going round; each entry that it reports as skipped is unhealthy, there is no note, and of
-- the pool only the cursor changes, to the place after the entry.
pub pick-IsSound :
    (p : ProxyPool) (i : ℕ) → i < total p → unhealthy p i ≡ false → IsSound p (pick p)
unfolding pick round_robin
pick-IsSound p i h e = elim (Bool-cases (length (healthy_of p) == total p)) [
  | inl every ↦ rw every (
    record {
      distance = 0;
      in_round = omega arith;
      is_there = ap (λ (n : ℕ). n % total p) (omega arith);
      healthy = all_healthy p (ground (arith, every)) _ (omega arith);
      nearer = tt;
    },
    tt,
    refl,
    refl,
  )
  | inr some_bad ↦
      let there : is_empty (healthy_of p) ≡ false = ground (arith, mem-healthy_of p i h) in
      rw some_bad (rw there (take_found-IsSound p i h e))
]

healthy_of-none :
    (p : ProxyPool)
    → ((i : ℕ) → i < total p → unhealthy p i ≡ true)
    → (xs : List ℕ) → All (λ i. i < total p) xs
    → filter (λ i. not (unhealthy p i)) xs ≡ []
healthy_of-none p bad [] h = refl
healthy_of-none p bad (x ∷ xs) h = rw (bad x h.0) (healthy_of-none p bad xs h.1)

range_from-lt : (s n t : ℕ) → s + n ≤ t → All (λ i. i < t) (range_from s n)
range_from-lt s zero t h = tt
range_from-lt s (suc n) t h = (omega arith, range_from-lt (suc s) n t (omega arith))

-- When every entry is unhealthy the plain round goes on: the entry at the cursor is taken, with
-- the note and without skipped entries.
pub pick_all_unhealthy :
    (p : ProxyPool)
    → 0 < total p
    → ((i : ℕ) → i < total p → unhealthy p i ≡ true)
    → pick p ≡ (
      record p { cursor = p.cursor % total p + 1 },
      record { index = p.cursor % total p; skipped = []; noted = true },
    )
unfolding pick healthy_of round_robin
pick_all_unhealthy p pos bad =
    rw
      (healthy_of-none p bad (range_from 0 (total p))
        (range_from-lt 0 (total p) (total p) (omega arith)))
      (ground arith)

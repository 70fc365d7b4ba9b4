-- ===== src/Pace/Rate.antt =====
-- pipeline/port_pace.py: the bounds of the rate.
use moirax_asm.Prelude.{
  ℕ, ◌≤◌, ◌≡◌, Bool, true, not, List, Text, is_empty, max, leb, if_elim, arith,
}
use moirax_asm.Prelude.Num.{Num, IsOrdered, lt, min_num, max_num, min_num-le_right, le-max_num_left}
use moirax_asm.Pace.{
  PaceState, Settings, Pacer, current_pps, tick, ramp, ramp_due, canary, canary_due, misses,
  after_bad,
}

module _ {F : Type 0} ⦃N : Num F⦄ (c : Settings F) (o : IsOrdered N) where
  -- Given that truncation keeps the order, the rate for the sweep is at least one packet per second
  -- and at most the cap.
  pub current_pps-bounded :
      ((a b : F) → N.le a b ≡ true → N.trunc a ≤ N.trunc b)
      → (s : PaceState F) (cap : F)
      → (1 ≤ current_pps c s cap) × (current_pps c s cap ≤ max 1 (N.trunc cap))
  unfolding current_pps
  current_pps-bounded mono s cap =
      (omega arith, omega (arith, mono (min_num s.pps cap) cap (min_num-le_right o s.pps cap)))

  -- The rate is at least one and at most the cap.
  pub record InRange (cap : F) (s : PaceState F) : Type 0 where
    pub least : N.le (N.of_ℕ 1) s.pps ≡ true
    pub most : N.le s.pps cap ≡ true

  module _ (cap : F) (cap_least : N.le (N.of_ℕ 1) cap ≡ true)
      (grows : (a : F) → N.le a (N.add a c.ramp_step_pps) ≡ true)
      (halves : (a : F) → N.le (N.of_ℕ 1) a ≡ true → N.le (N.div a (N.of_ℕ 2)) a ≡ true) where
    min_num-least :
        (a b : F)
        → N.le (N.of_ℕ 1) a ≡ true
        → N.le (N.of_ℕ 1) b ≡ true
        → N.le (N.of_ℕ 1) (min_num a b) ≡ true
    min_num-least a b h k = if_elim (λ x. N.le (N.of_ℕ 1) x ≡ true) (lt b a) b a (λ e. k) (λ e. h)

    ramp-InRange : (now : F) (s : PaceState F) → InRange cap s → InRange cap (ramp c now cap s)
    unfolding ramp
    ramp-InRange now s i =
        if_elim (InRange cap) (ramp_due c now s) _ _
          (λ due. record {
            least =
                min_num-least (N.add s.pps c.ramp_step_pps) cap
                  (o.trans (N.of_ℕ 1) s.pps (N.add s.pps c.ramp_step_pps) i.least (grows s.pps))
                  cap_least;
            most = min_num-le_right o (N.add s.pps c.ramp_step_pps) cap;
          })
          (λ early. i)

    halved-InRange :
        (a : F)
        → N.le (N.of_ℕ 1) a ≡ true
        → N.le a cap ≡ true
        → N.le (max_num (N.of_ℕ 1) (N.div a (N.of_ℕ 2))) cap ≡ true
    halved-InRange a h k =
        if_elim (λ x. N.le x cap ≡ true) (lt (N.of_ℕ 1) (N.div a (N.of_ℕ 2))) _ _
          (λ e. o.trans (N.div a (N.of_ℕ 2)) a cap (halves a h) k) (λ e. cap_least)

    after_bad-InRange : (p : Pacer F) → InRange cap p.state → InRange cap (after_bad c p).0.state
    unfolding after_bad
    after_bad-InRange p i =
        if_elim (λ (r : Pacer F × Bool). InRange cap r.0.state)
          (leb c.bad_windows_limit p.state.bad_windows) _ _
          (λ e. record { least = i.least; most = i.most }) (λ e. i)

    canary-InRange :
        (tcp_open : Text × ℕ → Bool) (sentinels : List (Text × ℕ)) (p : Pacer F)
        → InRange cap p.state
        → InRange cap (canary c tcp_open sentinels p).0.state
    unfolding canary
    canary-InRange tcp_open sentinels p i =
        if_elim (λ (r : Pacer F × Bool). InRange cap r.0.state)
          (not (is_empty (misses c tcp_open sentinels))) _ _
          (λ e. after_bad-InRange _ (record {
            least = le-max_num_left o (N.of_ℕ 1) (N.div p.state.pps (N.of_ℕ 2));
            most = halved-InRange p.state.pps i.least i.most;
          }))
          (λ e. record { least = i.least; most = i.most })

    -- Given an order, a cap of at least one, a step that does not lower a rate, and a half that is
    -- no more than the whole, each tick keeps a rate that is between one and the cap between them.
    pub tick-InRange :
        (tcp_open : Text × ℕ → Bool) (now : F) (sentinels : List (Text × ℕ)) (p : Pacer F)
        → InRange cap p.state
        → InRange cap (tick c tcp_open now sentinels cap p).0.state
    unfolding tick
    tick-InRange tcp_open now sentinels p i =
        let j = ramp-InRange now p.state i in
        if_elim (λ (r : Pacer F × Bool). InRange cap r.0.state)
          (canary_due c now (ramp c now cap p.state)) _ _
          (λ due.
            if_elim (λ (r : Pacer F × Bool). InRange cap r.0.state) (is_empty sentinels) _ _
              (λ e. record { least = j.least; most = j.most })
              (λ e.
                canary-InRange tcp_open sentinels _ (record { least = j.least; most = j.most })))
          (λ early. j)

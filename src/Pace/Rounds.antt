-- ===== src/Pace/Rounds.antt =====
-- pipeline/port_pace.py, `tick`: what the rounds of the canary add up to.
use moirax_asm.Prelude.{
  ℕ, suc, ◌+◌, ◌≡◌, refl, sym, ◌∙◌, Bool, true, false, not, ◌||◌, inl, inr, List, [], ◌∷◌, ◌++◌,
  count, count-append, Text, is_empty, leb, if◌then◌else◌, if_elim, arith, Bool-cases,
}
use moirax_asm.Prelude.Num.{Num}
use moirax_asm.Pace.{
  PaceState, Settings, LogLine, Pacer, disarmed, paused_line, bad_window, canary_fine, init, tick,
  ramp, canary, canary_due, misses, after_bad,
}

-- The bad windows that follow one another at the end of a log; `n` of them came before it.
abbrev pub streak : ℕ → List LogLine → ℕ
streak n [] = n
streak n (disarmed ∷ ls) = streak n ls
streak n (paused_line ∷ ls) = streak n ls
streak n (bad_window k missed rate ∷ ls) = streak (suc n) ls
streak n (canary_fine k rate ∷ ls) = streak 0 ls

abbrev pub is_paused_line : LogLine → Bool
is_paused_line paused_line = true
is_paused_line line = false

streak-append : (n : ℕ) (ls ms : List LogLine) → streak n (ls ++ ms) ≡ streak (streak n ls) ms
streak-append n [] ms = refl
streak-append n (disarmed ∷ ls) ms = streak-append n ls ms
streak-append n (paused_line ∷ ls) ms = streak-append n ls ms
streak-append n (bad_window k missed rate ∷ ls) ms = streak-append (suc n) ls ms
streak-append n (canary_fine k rate ∷ ls) ms = streak-append 0 ls ms

count-quiet :
    {n : ℕ} (ls : List LogLine) (line : LogLine)
    → is_paused_line line ≡ false
    → n ≡ count is_paused_line ls
    → n ≡ count is_paused_line (ls ++ line ∷ [])
count-quiet ls line e h = ground (arith, count-append is_paused_line ls (line ∷ []))

-- The state says what the log says: the bad windows in a row, the pauses that the breaker was
-- asked for, and whether there was one.
pub record IsLogged {F : Type 0} (p : Pacer F) : Type 0 where
  pub bad : p.state.bad_windows ≡ streak 0 p.log
  pub pauses : p.forced_pauses ≡ count is_paused_line p.log
  pub paused : p.state.paused ≡ leb 1 p.forced_pauses

-- One call of `tick`: the clock, the sentinels, which of them answer, and the cap.
pub record Round (F : Type 0) : Type 0 where
  pub now : F
  pub sentinels : List (Text × ℕ)
  pub tcp_open : Text × ℕ → Bool
  pub cap : F

module _ {F : Type 0} ⦃N : Num F⦄ (c : Settings F) where
  after_bad-IsLogged : (p : Pacer F) → IsLogged p → IsLogged (after_bad c p).0
  unfolding after_bad
  after_bad-IsLogged p l =
      if_elim (λ (r : Pacer F × Bool). IsLogged r.0) (leb c.bad_windows_limit p.state.bad_windows) _
        _
        (λ e. record {
          bad = l.bad ∙ sym (streak-append 0 p.log (paused_line ∷ []));
          pauses = omega (arith, l.pauses, count-append is_paused_line p.log (paused_line ∷ []));
          paused = ground arith;
        })
        (λ e. l)

  canary-IsLogged :
      (tcp_open : Text × ℕ → Bool) (sentinels : List (Text × ℕ)) (p : Pacer F)
      → IsLogged p
      → IsLogged (canary c tcp_open sentinels p).0
  unfolding canary
  canary-IsLogged tcp_open sentinels p l =
      if_elim (λ (r : Pacer F × Bool). IsLogged r.0) (not (is_empty (misses c tcp_open sentinels)))
        _ _
        (λ e. after_bad-IsLogged _ (record {
          bad = omega (arith, l.bad) ∙ sym (streak-append 0 p.log (bad_window _ _ _ ∷ []));
          pauses = count-quiet p.log (bad_window _ _ _) refl l.pauses;
          paused = l.paused;
        }))
        (λ e. record {
          bad = sym (streak-append 0 p.log (canary_fine _ _ ∷ []));
          pauses = count-quiet p.log (canary_fine _ _) refl l.pauses;
          paused = l.paused;
        })

  ramp-bad_windows :
      (now cap : F) (s : PaceState F)
      → ((ramp c now cap s).bad_windows ≡ s.bad_windows) × ((ramp c now cap s).paused ≡ s.paused)
  unfolding ramp
  ramp-bad_windows now cap s = ground arith

  tick-IsLogged :
      (r : Round F) (p : Pacer F)
      → IsLogged p
      → IsLogged (tick c r.tcp_open r.now r.sentinels r.cap p).0
  unfolding tick
  tick-IsLogged r p l =
      let (b, e) = ramp-bad_windows r.now r.cap p.state in
      if_elim (λ (t : Pacer F × Bool). IsLogged t.0)
        (canary_due c r.now (ramp c r.now r.cap p.state)) _ _
        (λ due.
          if_elim (λ (t : Pacer F × Bool). IsLogged t.0) (is_empty r.sentinels) _ _
            (λ none_yet. record {
              bad = b ∙ l.bad ∙ sym (streak-append 0 p.log (disarmed ∷ []));
              pauses = count-quiet p.log disarmed refl l.pauses;
              paused = e ∙ l.paused;
            })
            (λ some_there.
              canary-IsLogged r.tcp_open r.sentinels _
                (record { bad = b ∙ l.bad; pauses = l.pauses; paused = e ∙ l.paused })))
        (λ early. record { bad = b ∙ l.bad; pauses = l.pauses; paused = e ∙ l.paused })

  abbrev pub ticks : List (Round F) → Pacer F → Pacer F
  ticks [] p = p
  ticks (r ∷ rs) p = ticks rs (tick c r.tcp_open r.now r.sentinels r.cap p).0

  ticks_from : (rs : List (Round F)) (p : Pacer F) → IsLogged p → IsLogged (ticks rs p)
  ticks_from [] p l = l
  ticks_from (r ∷ rs) p l = ticks_from rs _ (tick-IsLogged r p l)

  -- After any calls of `tick`, the pacer's state is what its log says: `bad_windows` is the number
  -- of bad canaries since the last good one, a pause was asked of the breaker once for each pause
  -- line, and the module is paused exactly if there was one.
  pub ticks-IsLogged : (now : F) (rs : List (Round F)) → IsLogged (ticks rs (init c now))
  unfolding init
  ticks-IsLogged now rs =
      ticks_from rs (init c now) (record { bad = refl; pauses = refl; paused = refl })

  after_bad_answer :
      (p : Pacer F) → (after_bad c p).1 ≡ not (leb c.bad_windows_limit p.state.bad_windows)
  unfolding after_bad
  after_bad_answer p = ground arith

  canary_answer :
      (tcp_open : Text × ℕ → Bool) (sentinels : List (Text × ℕ)) (p : Pacer F)
      → (canary c tcp_open sentinels p).1 ≡ (
          is_empty (misses c tcp_open sentinels)
          || not (leb c.bad_windows_limit (p.state.bad_windows + 1)))
  unfolding canary
  canary_answer tcp_open sentinels p = elim (Bool-cases (is_empty (misses c tcp_open sentinels))) [
    | inl e ↦ rw e refl
    | inr e ↦ rw e (after_bad_answer _)
  ]

  -- The answer of `tick` on each branch. While no canary is due it is whether the module runs. A
  -- due canary without sentinels lets the sweep go on, and one with sentinels stops it exactly if
  -- one of those checked is missed and the bad windows reach their limit, whether or not the module
  -- was paused before.
  pub tick_answer :
      (r : Round F) (p : Pacer F)
      → (tick c r.tcp_open r.now r.sentinels r.cap p).1 ≡ (
          if canary_due c r.now (ramp c r.now r.cap p.state)
          then is_empty r.sentinels
            || is_empty (misses c r.tcp_open r.sentinels)
            || not (leb c.bad_windows_limit (p.state.bad_windows + 1))
          else not p.state.paused)
  unfolding tick
  tick_answer r p =
      let (b, e) = ramp-bad_windows r.now r.cap p.state in
      elim (Bool-cases (canary_due c r.now (ramp c r.now r.cap p.state))) [
        | inr early ↦ rw (early, e) refl
        | inl due ↦ elim (Bool-cases (is_empty r.sentinels)) [
          | inl none_yet ↦ rw (due, none_yet) refl
          | inr some_there ↦ rw (due, some_there, canary_answer r.tcp_open r.sentinels _, b) refl
        ]
      ]

-- ===== src/Breaker/Pausing.antt =====
-- pipeline/breaker.py: a pause is told once, is kept in state.json, and stops the module's counters.
use moirax_asm.Prelude.{
  ℕ, ◌≡◌, any, refl, Bool, true, false, not, ◌&&◌, Option, List, [], ◌∷◌, Text, arith, if_elim,
  is_empty, count, count-append, leb, length, length-append, is_none,
}
use moirax_asm.Prelude.Num.{Num}
use moirax_asm.Breaker.{
  Kind, pause, Settings, World, fresh, pause_row, count_window, evaluate_errors, evaluate_latency,
  record_event, reset_row, force_pause, window_of, windows_reason, over_ratio, error_count, allow,
}
use moirax_asm.Breaker.Windows.{
  Call, outcome, reset, call, start, last_of, IsTold, IsCounted, call-IsCounted, start-IsCounted,
}

abbrev pub is_pause : Kind → Bool
is_pause pause = true
is_pause _ = false

abbrev pub pause_lines : {F : Type 0} → World F → ℕ
pause_lines w = count (λ l. is_pause l.kind) w.1.log

module _ {F : Type 0} ⦃N : Num F⦄ (c : Settings F) where
  -- The calls on a row, `force_pause` included.
  pub data AnyCall : Type 0 where
    plain : Call c → AnyCall
    force : F → Text → AnyCall

  abbrev pub any_call : AnyCall → World F → World F
  any_call (plain a) w = call c a w
  any_call (force now reason) w = force_pause c now reason w

  unfoldable pub any_calls : List AnyCall → World F → World F
  any_calls [] w = w
  any_calls (a ∷ rest) w = any_calls rest (any_call a w)

  pub record IsAnnounced (w : World F) : Type 0 where
    pub told : w.0.anomaly_sent ≡ w.0.paused
    pub once : length w.1.sent ≡ pause_lines w
    pub stored : not (is_none w.1.persisted) ≡ (c.has_target_dir && w.0.paused)

  pause_row-IsAnnounced :
      (reason : Text) (errors total k : ℕ) (w : World F)
      → w.0.paused ≡ false
      → IsAnnounced w
      → IsAnnounced (pause_row c reason errors total k w)
  unfolding pause_row
  pause_row-IsAnnounced reason errors total k (s, x) live h =
      grind (arith, count-append, length-append)

  count_window-IsAnnounced :
      (errors total k : ℕ) (w : World F)
      → IsAnnounced w
      → IsAnnounced (count_window c errors total k w)
  unfolding count_window
  count_window-IsAnnounced errors total k (s, x) h = grind (arith, count-append, length-append)

  evaluate_latency-IsAnnounced :
      (k : ℕ) (w : World F) → IsAnnounced w → IsAnnounced (evaluate_latency c k w)
  unfolding evaluate_latency
  evaluate_latency-IsAnnounced k (s, x) h = grind (arith, count-append, length-append)

  reset_row-IsAnnounced :
      (now : F) (reason : Text) (w : World F)
      → IsAnnounced w
      → IsAnnounced (reset_row c now reason w).0
  unfolding reset_row
  reset_row-IsAnnounced now reason (s, x) h = grind (arith, count-append, length-append)

  force_pause-IsAnnounced :
      (now : F) (reason : Text) (w : World F)
      → IsAnnounced w
      → IsAnnounced (force_pause c now reason w)
  unfolding force_pause
  force_pause-IsAnnounced now reason (s, x) h =
      if_elim IsAnnounced s.paused _ _ (λ stop. h)
        λ live. pause_row-IsAnnounced reason 0 0 (window_of c now) (s, x) live h

  count_window-live :
      (errors total k : ℕ) (w : World F)
      → w.0.paused ≡ false
      → (count_window c errors total k w).0.paused ≡ false
  unfolding count_window
  count_window-live errors total k (s, x) live = ground arith

  evaluate_errors-IsAnnounced :
      (k : ℕ) (w : World F)
      → w.0.paused ≡ false
      → IsAnnounced w
      → IsAnnounced (evaluate_errors c k w)
  unfolding evaluate_errors
  evaluate_errors-IsAnnounced k (s, x) live h =
      let more = count_window c (error_count s.events) (length s.events) k (s, x) in
      let kept = count_window-IsAnnounced (error_count s.events) (length s.events) k (s, x) h in
      if_elim IsAnnounced (is_empty s.events) _ _ (λ e. h)
        λ e.
          if_elim IsAnnounced (over_ratio c s.events) _ _
            (λ over.
              if_elim IsAnnounced (leb c.bad_windows more.0.consecutive_bad) _ _
                (λ enough.
                  pause_row-IsAnnounced windows_reason (error_count s.events) (length s.events) k
                    more (count_window-live (error_count s.events) (length s.events) k (s, x) live)
                    kept)
                (λ few. kept))
            (λ calm. record { told = h.told; once = h.once; stored = h.stored })

  any_call-IsAnnounced : (a : AnyCall) (w : World F) → IsAnnounced w → IsAnnounced (any_call a w)
  unfolding record_event
  any_call-IsAnnounced (plain (outcome now success latency host timeout)) (s, x) h =
      if_elim IsAnnounced s.paused _ _ (λ stop. h)
        λ live. evaluate_latency-IsAnnounced (window_of c now) _ (
          evaluate_errors-IsAnnounced (window_of c now) _ live
            (record { told = h.told; once = h.once; stored = h.stored }))
  any_call-IsAnnounced (plain (reset now reason)) w h = reset_row-IsAnnounced now reason w h
  any_call-IsAnnounced (force now reason) w h = force_pause-IsAnnounced now reason w h

  any_calls-keep :
      (todo : List AnyCall) (w : World F) → IsAnnounced w → IsAnnounced (any_calls todo w)
  unfolding any_calls
  any_calls-keep [] w h = h
  any_calls-keep (a ∷ rest) w h = any_calls-keep rest (any_call a w) (any_call-IsAnnounced a w h)

  start-IsAnnounced : IsAnnounced (start c)
  unfolding fresh
  start-IsAnnounced = record { told = refl; once = refl; stored = ground arith }

  -- From a row that has just been seen, through any calls, one status message has been sent for
  -- each pause in the log, the flag that guards it is up exactly while the module is paused, and
  -- state.json holds a pause of the module exactly if there is a target directory and it is paused.
  pub any_calls-IsAnnounced : (todo : List AnyCall) → IsAnnounced (any_calls todo (start c))
  any_calls-IsAnnounced todo = any_calls-keep todo (start c) start-IsAnnounced

  -- While a module is paused no outcome and no further pause changes its row or has an effect;
  -- after a reset the module is allowed again, with the throttling that it had.
  pub paused_until_reset :
      (w : World F) (now later : F) (success timeout : Bool) (latency : Option F)
      (host : Option Text) (reason : Text)
      → allow c w ≡ false
      → (record_event c now success latency host timeout w ≡ w)
        × (force_pause c now reason w ≡ w)
        × (allow c (reset_row c later reason w).0 ≡ true)
        × ((reset_row c later reason w).0.0.throttle_factor ≡ w.0.throttle_factor)
  unfolding allow record_event force_pause reset_row
  paused_until_reset (s, x) now later success timeout latency host reason h =
      let p : s.paused ≡ true = ground (arith, h) in
      (
        if_elim (λ r. r ≡ (s, x)) s.paused _ _ (λ t. refl) (λ f. absurd (cc (f, p))),
        if_elim (λ r. r ≡ (s, x)) s.paused _ _ (λ t. refl) (λ f. absurd (cc (f, p))),
        if_elim (λ (r : World F × Bool). not r.0.0.paused ≡ true) s.paused _ _ (λ t. refl)
            (λ f. absurd (cc (f, p))),
        if_elim (λ (r : World F × Bool). r.0.0.throttle_factor ≡ s.throttle_factor) s.paused _ _
            (λ t. refl) (λ f. refl),
      )

module _ {F : Type 0} ⦃N : Num F⦄ (c : Settings F) where
  abbrev pub is_force : AnyCall c → Bool
  is_force (plain a) = false
  is_force (force now reason) = true

  any_calls-IsCounted :
      (todo : List (AnyCall c)) (w : World F)
      → any is_force todo ≡ false
      → IsCounted c w
      → IsCounted c (any_calls c todo w)
  unfolding any_calls
  any_calls-IsCounted [] w calm h = h
  any_calls-IsCounted (plain a ∷ rest) w calm h =
      any_calls-IsCounted rest (call c a w) calm (call-IsCounted c a w h)
  any_calls-IsCounted (force now reason ∷ rest) w calm h = absurd (ground (arith, calm))

  -- Whatever the outcomes, latencies and resets, a module that the breaker has paused, without a
  -- call that forces a pause, has seen `bad_windows` windows that follow one another, each with a
  -- line in its log whose errors, divided by its requests, are above the limit of the settings.
  pub pause_needs_windows :
      (todo : List (AnyCall c))
      → any is_force todo ≡ false
      → (any_calls c todo (start c)).0.paused ≡ true
      → (last : ℕ) × IsTold c c.bad_windows last (any_calls c todo (start c)).1.log
  pause_needs_windows todo calm p =
      let w = any_calls-IsCounted todo (start c) calm (start-IsCounted c) in
      (
        last_of (any_calls c todo (start c)).0.last_bad_window,
        λ i b. w.counted i (omega (arith, w.exhausted p, b)),
      )

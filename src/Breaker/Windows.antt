-- ===== src/Breaker/Windows.antt =====
-- pipeline/breaker.py: the windows that a module's row counts, and their lines in the log.
use moirax_asm.Prelude.{
  any, any-append, ◌<◌, ◌+◌, ◌-◌, ◌++◌, zero, suc, some, ◌==◌, ℕ, ◌≤◌, ◌≡◌, Bool, true, false, ◌&&◌,
  Option, none, List, [], ◌∷◌, Text, arith, Bool-cases, if_elim, inl, inr, is_empty, leb, leb→le,
  length,
}
use moirax_asm.Prelude.Num.{Num, lt}
use moirax_asm.Breaker.{
  is_window, next_consecutive, Reason, error_ratio, Kind, throttle, LogLine, Settings, World, fresh,
  pause_row, count_window, evaluate_errors, evaluate_latency, record_event, reset_row, window_of,
  windows_reason, over_ratio, error_count,
}

abbrev pub is_throttle : Kind → Bool
is_throttle throttle = true
is_throttle _ = false

abbrev pub is_error_ratio : Reason → Bool
is_error_ratio error_ratio = true
is_error_ratio _ = false

abbrev pub last_of : Option ℕ → ℕ
last_of none = 0
last_of (some k) = k

module _ {F : Type 0} ⦃N : Num F⦄ (c : Settings F) where
  -- The errors are too many for the requests: their ratio is above the limit of the settings.
  abbrev pub too_many : ℕ → ℕ → Bool
  too_many errors total = lt c.error_ratio_limit (N.div (N.of_ℕ errors) (N.of_ℕ total))

  -- A log line that tells of a bad window, with the counts of the errors and of the requests.
  abbrev pub is_bad_window : LogLine F → Bool
  is_bad_window l = is_throttle l.kind && (is_error_ratio l.reason && too_many l.errors l.total)

  -- A line that tells of the bad window k.
  abbrev pub tells : ℕ → LogLine F → Bool
  tells k l = is_bad_window l && l.window_id == k

  -- The n windows that end with the last one each have their line in the log.
  abbrev pub IsTold : ℕ → ℕ → List (LogLine F) → Type 0
  IsTold n last log = (i : ℕ) → i < n → (i ≤ last) × (any (tells (last - i)) log ≡ true)

  -- Each bad window that the first log tells of is told of in the second.
  abbrev Extends : List (LogLine F) → List (LogLine F) → Type 0
  Extends log more = (j : ℕ) → any (tells j) log ≡ true → any (tells j) more ≡ true

  IsTold-Extends :
      (n last : ℕ) (log more : List (LogLine F))
      → Extends log more
      → IsTold n last log
      → IsTold n last more
  IsTold-Extends n last log more e h i b = let (low, line) = h i b in (low, e (last - i) line)

  -- The windows that are counted after a new bad window.
  next_consecutive-IsTold :
      (last : Option ℕ) (k n : ℕ) (log : List (LogLine F)) (line : LogLine F)
      → tells k line ≡ true
      → IsTold n (last_of last) log
      → IsTold (next_consecutive last k n) k (log ++ line ∷ [])
  next_consecutive-IsTold none k n log line t h i b =
      let here : i ≡ 0 = omega arith in
      rw here (omega arith, ground (arith, any-append (tells k) log (line ∷ [])))
  next_consecutive-IsTold (some v) k n log line t h zero b =
      (omega arith, ground (arith, any-append (tells k) log (line ∷ [])))
  next_consecutive-IsTold (some v) k n log line t h (suc j) b =
      let next : k ≡ v + 1 = ground arith in
      let (low, told) = h j (ground arith) in
      let same : k - suc j ≡ v - j = omega (arith, next) in
      rw same (omega (arith, next), ground (arith, any-append (tells (v - j)) log (line ∷ [])))

  -- Slow answers throttle, and neither pause nor count as bad windows.
  evaluate_latency-keeps :
      (k : ℕ) (w : World F)
      → ((evaluate_latency c k w).0.paused ≡ w.0.paused)
        × ((evaluate_latency c k w).0.consecutive_bad ≡ w.0.consecutive_bad)
        × ((evaluate_latency c k w).0.last_bad_window ≡ w.0.last_bad_window)
        × Extends w.1.log (evaluate_latency c k w).1.log
  unfolding evaluate_latency
  evaluate_latency-keeps k (s, x) = grind (arith, any-append)

  -- A row that is paused has seen its bad windows, one after the other, each with a line in the log.
  pub record IsCounted (w : World F) : Type 0 where
    pub counted : IsTold w.0.consecutive_bad (last_of w.0.last_bad_window) w.1.log
    pub exhausted : w.0.paused ≡ true → c.bad_windows ≤ w.0.consecutive_bad

  abbrev Told : World F → Type 0
  Told w = IsTold w.0.consecutive_bad (last_of w.0.last_bad_window) w.1.log

  count_window-counted :
      (errors total k : ℕ) (w : World F)
      → too_many errors total ≡ true
      → Told w
      → Told (count_window c errors total k w)
  unfolding count_window
  count_window-counted errors total k (s, x) bad h =
      if_elim Told (is_window s.last_bad_window k) _ _ (λ again. h)
        (λ new.
          next_consecutive-IsTold s.last_bad_window k s.consecutive_bad x.log _
            (ground (arith, bad)) h)

  count_window-paused :
      (errors total k : ℕ) (w : World F) → (count_window c errors total k w).0.paused ≡ w.0.paused
  unfolding count_window
  count_window-paused errors total k (s, x) = ground arith

  pause_row-keeps :
      (reason : Text) (errors total k : ℕ) (w : World F)
      → ((pause_row c reason errors total k w).0.consecutive_bad ≡ w.0.consecutive_bad)
        × ((pause_row c reason errors total k w).0.last_bad_window ≡ w.0.last_bad_window)
        × Extends w.1.log (pause_row c reason errors total k w).1.log
  unfolding pause_row
  pause_row-keeps reason errors total k (s, x) = grind (arith, any-append)

  pause_row-IsCounted :
      (reason : Text) (errors total k : ℕ) (w : World F)
      → Told w
      → c.bad_windows ≤ w.0.consecutive_bad
      → IsCounted (pause_row c reason errors total k w)
  pause_row-IsCounted reason errors total k w h enough =
      let (n, l, told) = pause_row-keeps reason errors total k w in
      record {
        counted =
            rw (n, l)
              (IsTold-Extends w.0.consecutive_bad (last_of w.0.last_bad_window) w.1.log
                (pause_row c reason errors total k w).1.log told h);
        exhausted = λ p. omega (arith, n, enough);
      }

  evaluate_errors-IsCounted :
      (k : ℕ) (w : World F) → w.0.paused ≡ false → IsCounted w → IsCounted (evaluate_errors c k w)
  unfolding evaluate_errors
  evaluate_errors-IsCounted k (s, x) live h =
      let more = count_window c (error_count s.events) (length s.events) k (s, x) in
      elim (Bool-cases (is_empty s.events)) [
        | inl none_yet ↦ rw none_yet h
        | inr some_events ↦ elim (Bool-cases (over_ratio c s.events)) [
          | inr calm ↦
              rw (some_events, calm)
                (record { counted = λ i b. absurd (omega arith); exhausted = λ p. cc })
          | inl over ↦
              let counted =
                count_window-counted (error_count s.events) (length s.events) k (s, x) over
                  h.counted in
              elim (Bool-cases (leb c.bad_windows more.0.consecutive_bad)) [
                | inl enough ↦
                    rw (some_events, over, enough)
                      (pause_row-IsCounted windows_reason (error_count s.events) (length s.events) k
                        more counted (leb→le _ _ enough))
                | inr few ↦
                    rw (some_events, over, few)
                      (record {
                        counted = counted;
                        exhausted = λ p. cc (
                          p,
                          live,
                          count_window-paused (error_count s.events) (length s.events) k (s, x),
                        );
                      })
              ]
        ]
      ]

  evaluate_latency-IsCounted :
      (k : ℕ) (w : World F) → IsCounted w → IsCounted (evaluate_latency c k w)
  evaluate_latency-IsCounted k w h =
      let (p, n, l, told) = evaluate_latency-keeps k w in
      record {
        counted =
            rw (n, l)
              (IsTold-Extends w.0.consecutive_bad (last_of w.0.last_bad_window) w.1.log
                (evaluate_latency c k w).1.log told h.counted);
        exhausted = λ q. omega (arith, n, h.exhausted (cc (p, q)));
      }

  record_event-IsCounted :
      (now : F) (success : Bool) (latency : Option F) (host : Option Text) (timeout : Bool)
      (w : World F)
      → IsCounted w
      → IsCounted (record_event c now success latency host timeout w)
  unfolding record_event
  record_event-IsCounted now success latency host timeout (s, x) h =
      if_elim IsCounted s.paused _ _ (λ stop. h)
        λ live. evaluate_latency-IsCounted (window_of c now) _ (
          evaluate_errors-IsCounted (window_of c now) _ live
            (record { counted = h.counted; exhausted = h.exhausted }))

  reset_row-IsCounted :
      (now : F) (reason : Text) (w : World F) → IsCounted w → IsCounted (reset_row c now reason w).0
  unfolding reset_row
  reset_row-IsCounted now reason (s, x) h =
      if_elim (λ (r : World F × Bool). IsCounted r.0) s.paused _ _
        (λ e. record { counted = λ i b. absurd (omega arith); exhausted = λ p. cc }) (λ e. h)

  -- The calls that the runs make on a module's row.
  pub data Call : Type 0 where
    outcome : F → Bool → Option F → Option Text → Bool → Call
    reset : F → Text → Call

  abbrev pub call : Call → World F → World F
  call (outcome now success latency host timeout) w =
      record_event c now success latency host timeout w
  call (reset now reason) w = (reset_row c now reason w).0

  pub call-IsCounted : (a : Call) (w : World F) → IsCounted w → IsCounted (call a w)
  call-IsCounted (outcome now success latency host timeout) w h =
      record_event-IsCounted now success latency host timeout w h
  call-IsCounted (reset now reason) w h = reset_row-IsCounted now reason w h

  -- The row of a module that has just been seen.
  abbrev pub start : World F
  start = (fresh, record { log = []; persisted = none; sent = [] })

  pub start-IsCounted : IsCounted start
  unfolding fresh
  start-IsCounted = record { counted = λ i b. absurd (omega arith); exhausted = λ p. cc }

-- ===== src/Scheduler/Due.antt =====
-- pipeline/scheduler.py, `validate`, `due` and `mark_run`: how often a scheduled run starts.
use moirax_asm.Prelude.{
  ℕ, zero, suc, ◌-◌, ◌*◌, ◌≤◌, ◌≡◌, refl, inl, inr, true, false, Option, none, some, List, [], ◌∷◌,
  ◌++◌, is_empty, ltb, leb, arith, Bool-cases, Text, codes, text_eq,
}
use moirax_asm.Prelude.Json.{Value, Fields, bool, int, str, get, get-put, is_truthy}
use moirax_asm.Scheduler.{
  Dates, Invalid, validate, interval_errors, enabled_errors, last_run_errors, text_of, elapsed,
  due_after, due, mark_run,
}

-- An instant that is written is not empty and is read back.
pub record IsReadable (D : Dates) : Type 0 where
  pub parse-render : (t : ℕ) → D.parse (D.render t) ≡ some t
  pub some_text : (t : ℕ) → is_empty (D.render t) ≡ false

interval_errors_int :
    (least : ℕ) (v : Option Value) (more rest : List Invalid)
    → (interval_errors least v ++ more) ++ rest ≡ []
    → (n : ℕ) × (v ≡ some (int n)) × (least ≤ n)
unfolding interval_errors
interval_errors_int least none more rest h = absurd (ground arith)
interval_errors_int least (some (int n)) more rest h = elim (Bool-cases (ltb n least)) [
  | inl small ↦ absurd (ground (arith, small))
  | inr fine ↦ (n, refl, ground arith)
]
interval_errors_int least (some v) more rest h = absurd (ground arith)

truthy_text : (t : Text) → is_empty t ≡ false → is_truthy (some (str t)) ≡ true
truthy_text [] h = absurd (ground arith)
truthy_text (a ∷ t) h = refl

module _ (D : Dates) (r : IsReadable D) where
  due_after_lem :
      (now later n : ℕ)
      → 1 ≤ n
      → due_after D later (some (int n)) (some (str (D.render now))) ≡ leb (n * 60) (later - now)
  unfolding due_after text_of elapsed
  due_after_lem now later zero h = absurd (omega arith)
  due_after_lem now later (suc n) h =
      rw (truthy_text (D.render now) (r.some_text now), r.parse-render now) refl

  -- Given that instants are read back, and a least interval of at least one minute: a valid schedule
  -- that is enabled has an interval of at least the least one, and after a run it is due again
  -- exactly when this interval has passed.
  pub due-mark_run :
      (least now : ℕ) (doc : Fields)
      → 1 ≤ least
      → validate least doc ≡ []
      → get (codes "enabled") doc ≡ some (bool true)
      → (n : ℕ) × (get (codes "interval_minutes") doc ≡ some (int n))
        × (least ≤ n)
        × ((later : ℕ) → due D later (mark_run D now doc) ≡ leb (n * 60) (later - now))
  unfolding validate due mark_run text_eq
  due-mark_run least now doc h valid on =
      let (n, e, l) =
        interval_errors_int least (get (codes "interval_minutes") doc)
          (enabled_errors (get (codes "enabled") doc))
          (last_run_errors (get (codes "last_run") doc)) valid in
      (
        n,
        e,
        l,
        λ later.
            rw
              (
                get-put (codes "last_run") (codes "enabled") (str (D.render now)) doc,
                get-put (codes "last_run") (codes "interval_minutes") (str (D.render now)) doc,
                get-put (codes "last_run") (codes "last_run") (str (D.render now)) doc,
                on,
                e,
              )
              (due_after_lem now later n (omega arith)),
      )

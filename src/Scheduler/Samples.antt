-- ===== src/Scheduler/Samples.antt =====
-- A schedule of every ten minutes, and the theorems on it.
use moirax_asm.Prelude.{
  ℕ, ◌-◌, ◌*◌, ◌≤◌, ◌≡◌, refl, true, Option, none, some, [], ◌∷◌, leb, codes, text_eq, Text, arith,
}
use moirax_asm.Prelude.Json.{Fields, null, bool, int, end, field, get}
use moirax_asm.Scheduler.{Dates, validate, due, mark_run}
use moirax_asm.Scheduler.Due.{IsReadable, due-mark_run}

abbrev first_of : Text → Option ℕ
first_of [] = none
first_of (t ∷ s) = some t

-- An instant is written as one code.
abbrev dates : Dates
dates = record { render = λ t. t ∷ []; str_of = λ v. []; parse = first_of }

dates-IsReadable : IsReadable dates
dates-IsReadable = record { parse-render = λ t. refl; some_text = λ t. refl }

abbrev schedule : Fields
schedule =
    field (codes "interval_minutes") (int 10)
      (field (codes "enabled") (bool true) (field (codes "last_run") null end))

due-mark_run_example :
    (n : ℕ) × (get (codes "interval_minutes") schedule ≡ some (int n))
    × (10 ≤ n)
    × ((later : ℕ) → due dates later (mark_run dates 5000 schedule) ≡ leb (n * 60) (later - 5000))
unfolding validate get text_eq
due-mark_run_example = due-mark_run dates dates-IsReadable 10 5000 schedule (omega arith) refl refl

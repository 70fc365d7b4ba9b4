-- ===== src/Scheduler.antt =====
-- pipeline/scheduler.py: the schedule of the watchtower. The clock is in whole seconds; the texts of
-- instants are a parameter.
pub mod Due
mod Samples
use moirax_asm.Prelude.{
  ℕ, zero, suc, ◌+◌, ◌-◌, ◌*◌, Bool, true, false, not, Option, none, some, List, [], ◌∷◌, ◌++◌,
  if◌then◌else◌, ltb, leb, Text, codes,
}
use moirax_asm.Prelude.Json.{
  Value, Fields, null, bool, int, negative, str, dict, end, field, get, put, is_truthy,
}

-- Instants as the program writes them: `strftime` of an instant, `str` of a value that is no text,
-- and `fromisoformat` after the replacement of `Z`, with its ValueError.
pub record Dates : Type 0 where
  pub render : ℕ → Text
  pub str_of : Value → Text
  pub parse : Text → Option ℕ

pub data Invalid : Type 0 where
  interval_not_int interval_too_small enabled_not_bool last_run_not_text : Invalid

unfoldable pub default_schedule : ℕ → Fields
default_schedule default_interval =
    field (codes "interval_minutes") (int default_interval)
      (field (codes "enabled") (bool false) (field (codes "last_run") null end))

-- The document of scheduler.json; `none` if there is no file or it is no JSON.
unfoldable pub load_schedule : ℕ → Option Value → Fields
load_schedule default_interval (some (dict doc)) = doc
load_schedule default_interval doc = default_schedule default_interval

interval_errors : ℕ → Option Value → List Invalid
interval_errors min_interval_min (some (int n)) =
    if ltb n min_interval_min then interval_too_small ∷ [] else []
interval_errors min_interval_min (some (negative n)) = interval_too_small ∷ []
interval_errors min_interval_min v = interval_not_int ∷ []

enabled_errors : Option Value → List Invalid
enabled_errors (some (bool b)) = []
enabled_errors v = enabled_not_bool ∷ []

last_run_errors : Option Value → List Invalid
last_run_errors none = []
last_run_errors (some null) = []
last_run_errors (some (str t)) = []
last_run_errors v = last_run_not_text ∷ []

unfoldable pub validate : ℕ → Fields → List Invalid
unfolding interval_errors enabled_errors last_run_errors
validate min_interval_min doc =
    interval_errors min_interval_min (get (codes "interval_minutes") doc)
    ++ enabled_errors (get (codes "enabled") doc)
    ++ last_run_errors (get (codes "last_run") doc)

module _ (D : Dates) where
  text_of : Option Value → Text
  text_of none = []
  text_of (some (str t)) = t
  text_of (some v) = D.str_of v

  elapsed : ℕ → ℕ → Option ℕ → Bool
  elapsed now interval none = true
  elapsed now interval (some last) = leb (interval * 60) (now - last)

  -- A bool counts as an int here: True is an interval of one minute, and False is refused.
  due_after : ℕ → Option Value → Option Value → Bool
  unfolding text_of elapsed
  due_after now (some (int (suc n))) last =
      if not (is_truthy last) then true else elapsed now (suc n) (D.parse (text_of last))
  due_after now (some (bool true)) last =
      if not (is_truthy last) then true else elapsed now 1 (D.parse (text_of last))
  due_after now v last = false

  -- The interval is positive where `elapsed` tests it, so that a clock that was set back, whose
  -- difference stops at 0 here, is not due in either.
  unfoldable pub due : ℕ → Fields → Bool
  unfolding due_after
  due now doc =
      if not (is_truthy (get (codes "enabled") doc))
      then false
      else due_after now (get (codes "interval_minutes") doc) (get (codes "last_run") doc)

  unfoldable pub mark_run : ℕ → Fields → Fields
  mark_run now doc = put (codes "last_run") (str (D.render now)) doc

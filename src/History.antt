-- ===== src/History.antt =====
-- pipeline/history.py: the log of runs, and the difference of two runs, over maps from keys to
-- facts. The equality of two facts is a parameter.
pub mod Buckets
mod Samples
use moirax_asm.Prelude.{
  ℕ, Bool, true, false, not, ◌&&◌, Option, none, some, List, [], ◌∷◌, ◌++◌, if◌then◌else◌, Text,
  text_eq, codes, filter,
}
use moirax_asm.Prelude.Dict.{Dict, lookup}

pub record Run : Type 0 where
  pub timestamp : Text
  pub status : Text
  pub counts : Dict ℕ

-- The rows of "runs"; a row whose timestamp is no text is left out of the prior ones.
unfoldable pub append_run : Run → List Run → List Run
append_run run runs = runs ++ run ∷ []

abbrev last_of : List Text → Option Text
last_of [] = none
last_of (t ∷ []) = some t
last_of (t ∷ ts) = last_of ts

abbrev pub prior : Text → List Run → List Text
prior current [] = []
prior current (r ∷ runs) =
    let rest = prior current runs in
    if text_eq r.timestamp current then rest else r.timestamp ∷ rest

unfoldable pub previous_timestamp : Text → List Run → Option Text
unfolding text_eq
previous_timestamp current runs = last_of (prior current runs)

pub record Change (V : Type 0) : Type 0 where
  pub before : V
  pub after : V

-- The buckets of one class in diff.json: the facts without their keys.
pub record Diff (V : Type 0) : Type 0 where
  pub added : List V
  pub removed : List V
  pub changed : List (Change V)

module _ {V : Type 0} where
  -- The loop over the older map, and its body, once the key is looked up in the newer.
  unfoldable pub note_old : V → Option V → Diff V → Diff V
  note_old val none d = record d { removed = d.removed ++ val ∷ [] }
  note_old val (some v) d = d

  unfoldable pub diff_old : Dict V → Dict V → Diff V → Diff V
  unfolding lookup note_old
  diff_old new [] d = d
  diff_old new ((key, val) ∷ rest) d = diff_old new rest (note_old val (lookup key new) d)

module _ {V : Type 0} (eq : V → V → Bool) where
  -- The loop over the newer map, and its body.
  unfoldable pub note_new : V → Option V → Diff V → Diff V
  note_new val none d = record d { added = d.added ++ val ∷ [] }
  note_new val (some v) d =
      if eq v val
      then d
      else record d { changed = d.changed ++ record { before = v; after = val } ∷ [] }

  unfoldable pub diff_new : Dict V → Dict V → Diff V → Diff V
  unfolding lookup note_new
  diff_new old [] d = d
  diff_new old ((key, val) ∷ rest) d = diff_new old rest (note_new val (lookup key old) d)

  -- One class of `diff_maps`.
  unfoldable pub diff_class : Dict V → Dict V → Diff V
  unfolding diff_new diff_old
  diff_class older newer =
      diff_old newer older
        (diff_new older newer (record { added = []; removed = []; changed = [] }))

  abbrev or_empty : Option (Dict V) → Dict V
  or_empty none = []
  or_empty (some d) = d

  -- `older.get(cls) or {}` and `newer.get(cls) or {}`, for each class.
  unfoldable pub diff_maps : List Text → Dict (Dict V) → Dict (Dict V) → Dict (Diff V)
  unfolding diff_class lookup
  diff_maps [] older newer = []
  diff_maps (cls ∷ classes) older newer =
      (cls, diff_class (or_empty (lookup cls older)) (or_empty (lookup cls newer)))
      ∷ diff_maps classes older newer

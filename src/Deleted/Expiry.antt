-- ===== src/Deleted/Expiry.antt =====
-- pipeline/deleted.py: the purge of one target, and of all.
use moirax_asm.Prelude.{
  ℕ, Bool, true, false, not, ◌&&◌, Option, none, some, List, [], ◌∷◌, ◌++◌, if◌then◌else◌, Text,
  codes, ltb,
}
use moirax_asm.Prelude.Json.{Value, Fields, str, end, field, get, is_truthy}
use moirax_asm.Deleted.{
  Entry, FilePath, FileTree, Library, confined, dir, follow, is_tombstoned, parse_iso,
  read_tombstone, rmtree,
}

pub data PurgeResult : Type 0 where
  not_tombstoned outside_recon keep_window : PurgeResult
  purged : FilePath → PurgeResult

-- str(v or "")
abbrev str_or_empty : Library → Option Value → Text
str_or_empty m none = []
str_or_empty m (some (str t)) = t
str_or_empty m (some v) = if is_truthy (some v) then m.show v else []

unfoldable pub due_of : Library → Fields → Option ℕ
unfolding get parse_iso
due_of m d = parse_iso m (str_or_empty m (get (codes "purge_after") d))

abbrev pub is_due : Option ℕ → ℕ → Bool
is_due none clock = true
is_due (some due) clock = not (ltb clock due)

abbrev pub purge_confined : Bool → Option FilePath → FileTree → PurgeResult × FileTree
purge_confined due none disk = (outside_recon, disk)
purge_confined false (some p) disk = (keep_window, disk)
purge_confined true (some p) disk = (purged p, rmtree p disk)

abbrev pub purge_marked : Library → Option Fields → FilePath → ℕ → FileTree → PurgeResult × FileTree
purge_marked m none target clock disk = (not_tombstoned, disk)
purge_marked m (some end) target clock disk = (not_tombstoned, disk)
purge_marked m (some (field k v d)) target clock disk =
    purge_confined (is_due (due_of m (field k v d)) clock) (confined m target) disk

unfoldable pub purge_if_expired : Library → FilePath → ℕ → FileTree → PurgeResult × FileTree
unfolding due_of rmtree
purge_if_expired m target clock disk =
    purge_marked m (read_tombstone m target disk) target clock disk

abbrev is_dir : Option Entry → Bool
is_dir (some dir) = true
is_dir e = false

abbrev pub child : Library → Text → FilePath
child m name = m.recon ++ name ∷ []

abbrev pub note_purged : Text → PurgeResult → List Text → List Text
note_purged name (purged p) names = name ∷ names
note_purged name o names = names

-- The body of the loop over `recon.iterdir()`; a child that is passed over counts as not marked.
unfoldable pub purge_child : Library → ℕ → Text → FileTree → PurgeResult × FileTree
unfolding is_tombstoned follow
purge_child m clock name disk =
    if is_dir (follow disk (m.resolve (child m name)))
      && m.is_target_name name
      && is_tombstoned m (child m name) disk
    then purge_if_expired m (child m name) clock disk
    else (not_tombstoned, disk)

unfoldable pub purge_loop : Library → ℕ → List Text → FileTree → List Text × FileTree
unfolding purge_child
purge_loop m clock [] disk = ([], disk)
purge_loop m clock (name ∷ names) disk =
    let step = purge_child m clock name disk in
    let rest = purge_loop m clock names step.1 in (note_purged name step.0 rest.0, rest.1)

-- The names of the children are those that iterdir gives.
unfoldable pub purge_expired_all : Library → ℕ → List Text → FileTree → List Text × FileTree
unfolding purge_loop follow
purge_expired_all m clock names disk =
    if is_dir (follow disk (m.resolve m.recon)) then purge_loop m clock names disk else ([], disk)

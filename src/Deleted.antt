-- ===== src/Deleted.antt =====
-- pipeline/deleted.py: targets that are deleted softly, by a marker in their directory, and the
-- removal of the directory after a window. The disk is a list of paths, the first entry of a path
-- counting, and symbolic links are a fixed map. Clocks and moments are microseconds.
pub mod Expiry
pub mod Purge
pub mod Window
mod Samples
use moirax_asm.Prelude.{
  ℕ, ◌+◌, ◌*◌, min, max, Bool, true, false, not, ◌&&◌, ◌||◌, Option, none, some, List, [], ◌∷◌,
  ◌++◌, if◌then◌else◌, Text, text_eq, codes, strip, filter, ltb, ◌==◌,
}
use moirax_asm.Prelude.Json.{
  Value, Fields, null, bool, int, negative, str, list, dict, other, end, field, get, is_truthy,
}

abbrev pub FilePath : Type 0
FilePath = List Text

pub data Entry : Type 0 where
  dir : Entry
  file : Text → Entry
  -- A file that cannot be opened or decoded.
  unreadable : Entry

abbrev pub FileTree : Type 0
FileTree = List (FilePath × Entry)

-- What `datetime.fromisoformat` gives: a moment without a time zone, or with one, in UTC.
pub data IsoTime : Type 0 where
  naive : ℕ → IsoTime
  aware : ℕ → IsoTime

-- The calls of the standard library, and the settings.
pub record Library : Type 0 where
  -- Path.resolve, `none` if it raises.
  pub resolve : FilePath → Option FilePath
  -- json.loads and json.dumps.
  pub loads : Text → Option Value
  pub dumps : Fields → Text
  pub from_iso : Text → Option IsoTime
  -- strftime with the format of the module.
  pub strftime : ℕ → Text
  -- str of a value that is no text.
  pub show : Value → Text
  -- int of a text or a float, `none` if it raises, 0 for each negative number.
  pub whole : Value → Option ℕ
  -- params.require("deleted_target_keep_days"), `none` for a missing key.
  pub setting : Option Value
  -- params.root / recon_root, and the same resolved.
  pub recon : FilePath
  pub recon_resolved : FilePath
  -- TARGET_NAME_RE.match
  pub is_target_name : Text → Bool

abbrev pub default_keep_days : ℕ
default_keep_days = 7

abbrev pub clamped : Option ℕ → ℕ
clamped none = default_keep_days
clamped (some days) = max 1 (min days 365)

-- int(v), of which each error gives the default.
abbrev pub whole_of : Library → Option Value → Option ℕ
whole_of m none = none
whole_of m (some null) = none
whole_of m (some (bool b)) = some (if b then 1 else 0)
whole_of m (some (int n)) = some n
whole_of m (some (negative n)) = some 0
whole_of m (some (str t)) = m.whole (str t)
whole_of m (some (list vs)) = none
whole_of m (some (dict d)) = none
whole_of m (some other) = m.whole other

unfoldable pub keep_days : Library → ℕ
keep_days m = clamped (whole_of m m.setting)

abbrev pub marker_path : FilePath → FilePath
marker_path target = target ++ codes ".deleted" ∷ []

-- value.replace("Z", "+00:00")
abbrev pub replace_z : Text → Text
replace_z [] = []
replace_z (c ∷ s) = let rest = replace_z s in if c == b'Z' then codes "+00:00" ++ rest else c ∷ rest

-- A moment without a time zone is read in UTC.
abbrev pub instant : Option IsoTime → Option ℕ
instant none = none
instant (some (naive t)) = some t
instant (some (aware t)) = some t

unfoldable pub parse_iso : Library → Text → Option ℕ
unfolding strip
parse_iso m value = instant (m.from_iso (replace_z (strip value)))

unfoldable pub path_eq : FilePath → FilePath → Bool
unfolding text_eq
path_eq [] [] = true
path_eq [] (y ∷ q) = false
path_eq (x ∷ p) [] = false
path_eq (x ∷ p) (y ∷ q) = text_eq x y && path_eq p q

-- os.path.commonpath([top, path]) == top, of paths that are absolute.
unfoldable pub within : FilePath → FilePath → Bool
unfolding text_eq
within [] p = true
within (x ∷ top) [] = false
within (x ∷ top) (y ∷ p) = text_eq x y && within top p

unfoldable pub entry_at : FilePath → FileTree → Option Entry
unfolding path_eq
entry_at p [] = none
entry_at p ((q, e) ∷ disk) = if path_eq q p then some e else entry_at p disk

-- The entry that a path leads to.
unfoldable pub follow : FileTree → Option FilePath → Option Entry
unfolding entry_at
follow disk none = none
follow disk (some p) = entry_at p disk

abbrev pub corrupt : Fields
corrupt =
    field (codes "deleted_at") null
      (field (codes "purge_after") null (field (codes "corrupt") (bool true) end))

abbrev pub document_of : Option Value → Fields
document_of (some (dict d)) = d
document_of v = corrupt

abbrev pub tombstone_of : Library → Option Entry → Option Fields
tombstone_of m none = none
tombstone_of m (some dir) = none
tombstone_of m (some (file t)) = some (document_of (m.loads t))
tombstone_of m (some unreadable) = some corrupt

unfoldable pub read_tombstone : Library → FilePath → FileTree → Option Fields
unfolding follow
read_tombstone m target disk = tombstone_of m (follow disk (m.resolve (marker_path target)))

abbrev pub is_file : Option Entry → Bool
is_file (some (file t)) = true
is_file (some unreadable) = true
is_file e = false

unfoldable pub is_tombstoned : Library → FilePath → FileTree → Bool
unfolding follow
is_tombstoned m target disk = is_file (follow disk (m.resolve (marker_path target)))

-- timedelta(days=days)
abbrev pub span : ℕ → ℕ
span days = days * 86400 * 1000000

unfoldable pub payload : Library → Text → ℕ → Fields
payload m target now = field (codes "schema_version") (int 1) (
    field (codes "target") (str target) (
      field (codes "deleted_at") (str (m.strftime now)) (
        field (codes "purge_after") (str (m.strftime (now + span (keep_days m))))
          (field (codes "keep_days") (int (keep_days m)) end))))

-- mkdir(parents=True, exist_ok=True); a file in the way raises.
abbrev pub made_dir : FilePath → Option Entry → FileTree → Option FileTree
made_dir p none disk = some ((p, dir) ∷ disk)
made_dir p (some dir) disk = some disk
made_dir p (some e) disk = none

abbrev pub make : FilePath → Option FileTree → Option FileTree
make p none = none
make p (some disk) = made_dir p (entry_at p disk) disk

abbrev pub mkdirs : FilePath → FilePath → Option FileTree → Option FileTree
mkdirs top [] disk = disk
mkdirs top (x ∷ p) disk = mkdirs (top ++ x ∷ []) p (make (top ++ x ∷ []) disk)

-- write_text, `none` if the marker is a directory.
abbrev pub written_text : FilePath → Text → Option Entry → FileTree → Option FileTree
written_text p t (some dir) disk = none
written_text p t e disk = some ((p, file t) ∷ disk)

abbrev pub write_text : Option FilePath → Text → Option FileTree → Option FileTree
write_text (some p) t (some disk) = written_text p t (entry_at p disk) disk
write_text p t disk = none

abbrev pub mkdir : Option FilePath → FileTree → Option FileTree
mkdir none disk = none
mkdir (some p) disk = mkdirs [] p (some disk)

-- The disk after the marker is written_text, `none` if a call raises.
unfoldable pub write_tombstone : Library → FilePath → Text → ℕ → FileTree → Option FileTree
write_tombstone m target name now disk =
    write_text (m.resolve (marker_path target)) (m.dumps (payload m name now) ++ b'\n' ∷ [])
      (mkdir (m.resolve target) disk)

-- unlink_marker
unfoldable pub unlink_marker : FilePath → FileTree → FileTree
unfolding path_eq
unlink_marker p disk = filter (λ e. not (path_eq p e.0)) disk

abbrev pub unlinked : Option FilePath → FileTree → FileTree
unlinked none disk = disk
unlinked (some p) disk = unlink_marker p disk

unfoldable pub clear_tombstone : Library → FilePath → FileTree → FileTree
clear_tombstone m target disk =
    if is_tombstoned m target disk then unlinked (m.resolve (marker_path target)) disk else disk

abbrev pub confined_in : FilePath → Option FilePath → Option FilePath
confined_in recon none = none
confined_in recon (some p) = if not (within recon p) || path_eq p recon then none else some p

unfoldable pub confined : Library → FilePath → Option FilePath
unfolding within path_eq
confined m target = confined_in m.recon_resolved (m.resolve target)

-- shutil.rmtree
unfoldable pub rmtree : FilePath → FileTree → FileTree
unfolding within
rmtree p disk = filter (λ e. not (within p e.0)) disk

-- ===== src/Deleted/Purge.antt =====
-- pipeline/deleted.py, `purge_expired_all`: what a purge takes from the disk.
use moirax_asm.Prelude.{
  ℕ, ◌≡◌, refl, sym, ap, ◌∙◌, ◌⊎◌, inl, inr, Bool, true, false, Option, none, some, List, [], ◌∷◌,
  if◌then◌else◌, Text, text_eq_iff, text_eq_refl, mem, arith, Bool-cases,
}
use moirax_asm.Prelude.Json.{Fields, end, field}
use moirax_asm.Deleted.{
  FilePath, FileTree, Library, path_eq, within, entry_at, follow, read_tombstone, tombstone_of,
  marker_path, confined, confined_in, rmtree,
}
use moirax_asm.Deleted.Expiry.{
  is_due, due_of, child, PurgeResult, not_tombstoned, outside_recon, keep_window, purged,
  purge_confined, purge_marked, purge_if_expired, purge_child, purge_loop, note_purged,
  purge_expired_all,
}

pub path_eq_sound : (p q : FilePath) → path_eq p q ≡ true → p ≡ q
unfolding path_eq
path_eq_sound [] [] h = refl
path_eq_sound [] (y ∷ q) h = ground arith
path_eq_sound (x ∷ p) [] h = ground arith
path_eq_sound (x ∷ p) (y ∷ q) h = ground (arith, h, text_eq_iff x y, path_eq_sound p q)

pub path_eq_refl : (p : FilePath) → path_eq p p ≡ true
unfolding path_eq
path_eq_refl [] = refl
path_eq_refl (x ∷ p) = ground (arith, text_eq_refl x, path_eq_refl p)

within_trans : (a b c : FilePath) → within a b ≡ true → within b c ≡ true → within a c ≡ true
unfolding within
within_trans [] b c h k = refl
within_trans (x ∷ a) [] c h k = ground arith
within_trans (x ∷ a) (y ∷ b) [] h k = ground arith
within_trans (x ∷ a) (y ∷ b) (z ∷ c) h k =
    ground (arith, h, k, text_eq_iff x y, text_eq_iff y z, text_eq_iff x z, within_trans a b c)

entry_at-rmtree :
    (p q : FilePath) (disk : FileTree)
    → entry_at p (rmtree q disk) ≡ (if within q p then none else entry_at p disk)
unfolding entry_at rmtree
entry_at-rmtree p q [] = ground arith
entry_at-rmtree p q ((r, e) ∷ disk) = elim (Bool-cases (path_eq r p)) [
  | inl same ↦
      let r≡p = path_eq_sound r p same in
      ground (arith, same, ap (within q) r≡p, entry_at-rmtree p q disk)
  | inr other ↦ ground (arith, other, entry_at-rmtree p q disk)
]

-- A target whose marker is due, that lies strictly below the root, and that holds the path.
pub record IsDoomed (m : Library) (clock : ℕ) (disk : FileTree) (name : Text) (p : FilePath)
    : Type 0 where
  pub marker : Fields
  pub top : FilePath
  pub marker-fits : read_tombstone m (child m name) disk ≡ some marker
  pub top-fits : m.resolve (child m name) ≡ some top
  pub inside : within m.recon_resolved top ≡ true
  pub strict : path_eq top m.recon_resolved ≡ false
  pub due-fits : is_due (due_of m marker) clock ≡ true
  pub holds : within top p ≡ true

-- The path has lost its entry to one of the names.
pub data IsGone (m : Library) (clock : ℕ) (disk : FileTree) (p : FilePath)
    : List Text → Type 0 where
  gone :
      {name : Text} {names : List Text}
      → mem name names ≡ true
      → IsDoomed m clock disk name p
      → IsGone m clock disk p names

-- A step leaves the disk, or takes a tree whose paths are all doomed.
data IsStep (m : Library) (clock : ℕ) (disk : FileTree) (name : Text)
    : PurgeResult × FileTree → Type 0 where
  left_not_tombstoned : IsStep m clock disk name (not_tombstoned, disk)
  left_outside : IsStep m clock disk name (outside_recon, disk)
  left_window : IsStep m clock disk name (keep_window, disk)
  took :
      {top : FilePath}
      → ((p : FilePath) → within top p ≡ true → IsDoomed m clock disk name p)
      → IsStep m clock disk name (purged top, rmtree top disk)

confined_in-inside :
    (recon : FilePath) (r : Option FilePath) (top : FilePath)
    → confined_in recon r ≡ some top
    → (r ≡ some top) × (within recon top ≡ true) × (path_eq top recon ≡ false)
confined_in-inside recon none top h = ground (arith, h)
confined_in-inside recon (some q) top h = ground (arith, h)

mem-note_purged :
    (name : Text) (o : PurgeResult) (other : Text) (names : List Text)
    → mem other names ≡ true
    → mem other (note_purged name o names) ≡ true
unfolding mem
mem-note_purged name not_tombstoned other names h = h
mem-note_purged name outside_recon other names h = h
mem-note_purged name keep_window other names h = h
mem-note_purged name (purged p) other names h = ground (arith, h)

module _ (m : Library) (clock : ℕ) where
  purge_confined-IsStep :
      (disk : FileTree) (name : Text) (d : Fields) (b : Bool) (r : Option FilePath)
      → read_tombstone m (child m name) disk ≡ some d
      → is_due (due_of m d) clock ≡ b
      → confined m (child m name) ≡ r
      → IsStep m clock disk name (purge_confined b r disk)
  unfolding confined
  purge_confined-IsStep disk name d b none h k c = left_outside
  purge_confined-IsStep disk name d false (some top) h k c = left_window
  purge_confined-IsStep disk name d true (some top) h k c =
      let (fits, inside, strict) =
        confined_in-inside m.recon_resolved (m.resolve (child m name)) top c in
      took (λ p w. record {
        marker = d;
        top = top;
        marker-fits = h;
        top-fits = fits;
        inside = inside;
        strict = strict;
        due-fits = k;
        holds = w;
      })

  purge_marked-IsStep :
      (disk : FileTree) (name : Text) (o : Option Fields)
      → read_tombstone m (child m name) disk ≡ o
      → IsStep m clock disk name (purge_marked m o (child m name) clock disk)
  purge_marked-IsStep disk name none h = left_not_tombstoned
  purge_marked-IsStep disk name (some end) h = left_not_tombstoned
  purge_marked-IsStep disk name (some (field k v d)) h =
      purge_confined-IsStep disk name (field k v d) (is_due (due_of m (field k v d)) clock)
        (confined m (child m name)) h refl refl

  if_IsStep :
      (disk : FileTree) (name : Text) (b : Bool) (x : PurgeResult × FileTree)
      → IsStep m clock disk name x
      → IsStep m clock disk name (if b then x else (not_tombstoned, disk))
  if_IsStep disk name true x h = h
  if_IsStep disk name false x h = left_not_tombstoned

  purge_child-IsStep :
      (disk : FileTree) (name : Text) → IsStep m clock disk name (purge_child m clock name disk)
  unfolding purge_child purge_if_expired
  purge_child-IsStep disk name =
      if_IsStep disk name _
        (purge_marked m (read_tombstone m (child m name) disk) (child m name) clock disk)
        (purge_marked-IsStep disk name (read_tombstone m (child m name) disk) refl)

  tombstone_back :
      (q : FilePath) (disk : FileTree) (r : Option FilePath) (d : Fields)
      → tombstone_of m (follow (rmtree q disk) r) ≡ some d
      → tombstone_of m (follow disk r) ≡ some d
  unfolding follow
  tombstone_back q disk none d h = h
  tombstone_back q disk (some p) d h = elim (Bool-cases (within q p)) [
    | inl taken ↦ absurd (ground (arith, h, entry_at-rmtree p q disk, taken))
    | inr left ↦ sym (ap (tombstone_of m) (entry_at-rmtree p q disk ∙ rw left refl)) ∙ h
  ]

  IsDoomed-back :
      (disk : FileTree) (name : Text) (x : PurgeResult × FileTree)
      → IsStep m clock disk name x
      → (other : Text) (p : FilePath) → IsDoomed m clock x.1 other p
      → IsDoomed m clock disk other p
  unfolding read_tombstone
  IsDoomed-back disk name _ left_not_tombstoned other p h = h
  IsDoomed-back disk name _ left_outside other p h = h
  IsDoomed-back disk name _ left_window other p h = h
  IsDoomed-back disk name _ (took {top} w) other p h = record {
    marker = h.marker;
    top = h.top;
    marker-fits =
        tombstone_back top disk (m.resolve (marker_path (child m other))) h.marker h.marker-fits;
    top-fits = h.top-fits;
    inside = h.inside;
    strict = h.strict;
    due-fits = h.due-fits;
    holds = h.holds;
  }

  -- A path keeps its entry, or has lost it to one of the names.
  abbrev pub Fate : FileTree → FilePath → List Text × FileTree → Type 0
  Fate disk p x =
      (entry_at p x.1 ≡ entry_at p disk) ⊎ ((entry_at p x.1 ≡ none) × IsGone m clock disk p x.0)

  IsGone-back :
      (disk : FileTree) (name : Text) (x : PurgeResult × FileTree)
      → IsStep m clock disk name x
      → (p : FilePath) (names : List Text) → IsGone m clock x.1 p names
      → IsGone m clock disk p (note_purged name x.0 names)
  IsGone-back disk name x step p names (gone {name = other} found h) =
      gone (mem-note_purged name x.0 other names found) (IsDoomed-back disk name x step other p h)

  step-Fate :
      (disk : FileTree) (name : Text) (x : PurgeResult × FileTree)
      → IsStep m clock disk name x
      → (p : FilePath) (names : List Text)
      → (entry_at p x.1 ≡ entry_at p disk)
        ⊎ ((entry_at p x.1 ≡ none) × IsGone m clock disk p (note_purged name x.0 names))
  unfolding mem
  step-Fate disk name _ left_not_tombstoned p names = inl refl
  step-Fate disk name _ left_outside p names = inl refl
  step-Fate disk name _ left_window p names = inl refl
  step-Fate disk name _ (took {top} w) p names = elim (Bool-cases (within top p)) [
    | inl taken ↦ inr (
      entry_at-rmtree p top disk ∙ rw taken refl,
      gone {name = name} (ground (arith, text_eq_refl name)) (w p taken),
    )
    | inr left ↦ inl (entry_at-rmtree p top disk ∙ rw left refl)
  ]

  fates :
      (disk : FileTree) (name : Text) (x : PurgeResult × FileTree)
      → IsStep m clock disk name x
      → (p : FilePath) (y : List Text × FileTree)
      → (entry_at p y.1 ≡ entry_at p x.1) ⊎ ((entry_at p y.1 ≡ none) × IsGone m clock x.1 p y.0)
      → Fate disk p (note_purged name x.0 y.0, y.1)
  fates disk name x step p y (inr (lost, h)) = inr (lost, IsGone-back disk name x step p y.0 h)
  fates disk name x step p y (inl same) = elim (step-Fate disk name x step p y.0) [
    | inl kept ↦ inl (same ∙ kept)
    | inr (lost, h) ↦ inr (same ∙ lost, h)
  ]

  purge_loop-Fate :
      (names : List Text) (disk : FileTree) (p : FilePath)
      → Fate disk p (purge_loop m clock names disk)
  unfolding purge_loop
  purge_loop-Fate [] disk p = inl refl
  purge_loop-Fate (name ∷ names) disk p =
      let x = purge_child m clock name disk in
      fates disk name x (purge_child-IsStep disk name) p (purge_loop m clock names x.1)
        (purge_loop-Fate names x.1 p)

  if_Fate :
      (disk : FileTree) (p : FilePath) (b : Bool) (x : List Text × FileTree)
      → Fate disk p x
      → Fate disk p (if b then x else ([], disk))
  if_Fate disk p true x h = h
  if_Fate disk p false x h = inl refl

  -- After a purge of all targets each path holds what it held, or has lost its entry to a target
  -- that the purge reports, whose marker was due before the purge, whose directory lies strictly
  -- below the root of all targets, and which holds the path.
  pub purge_expired_all-IsGone :
      (names : List Text) (disk : FileTree) (p : FilePath)
      → (entry_at p (purge_expired_all m clock names disk).1 ≡ entry_at p disk)
        ⊎ ((entry_at p (purge_expired_all m clock names disk).1 ≡ none)
            × IsGone m clock disk p (purge_expired_all m clock names disk).0)
  unfolding purge_expired_all
  purge_expired_all-IsGone names disk p =
      if_Fate disk p _ (purge_loop m clock names disk) (purge_loop-Fate names disk p)

-- ===== src/Deleted/Window.antt =====
-- pipeline/deleted.py: the window between the deletion of a target and the removal of its
-- directory, and the way back.
use moirax_asm.Prelude.{
  ℕ, ◌≡◌, refl, ap, ◌∙◌, ◌+◌, ◌*◌, ◌/◌, ◌≤◌, inl, inr, true, false, Option, none, some, [], ◌∷◌,
  ◌++◌, if◌then◌else◌, Text, arith, Bool-cases, text_eq,
}
use moirax_asm.Prelude.Json.{dict, get}
use moirax_asm.Deleted.{
  FilePath, Entry, file, FileTree, Library, span, path_eq, entry_at, follow, unlink_marker,
  keep_days, payload, parse_iso, marker_path, write_tombstone, write_text, written_text,
  clear_tombstone, read_tombstone, is_tombstoned, confined, rmtree, is_file, unlinked, tombstone_of,
}
use moirax_asm.Deleted.Expiry.{
  is_due, due_of, purge_if_expired, not_tombstoned, keep_window, purged, purge_confined,
}
use moirax_asm.Deleted.Purge.{path_eq_sound, path_eq_refl}

keep_days-InRange : (m : Library) → (1 ≤ keep_days m) × (keep_days m ≤ 365)
unfolding keep_days
keep_days-InRange m = ground arith

written_text-entry_at :
    (p : FilePath) (t : Text) (e : Option Entry) (disk after : FileTree)
    → written_text p t e disk ≡ some after
    → entry_at p after ≡ some (file t)
unfolding entry_at
written_text-entry_at p t e disk after h = ground (arith, h, path_eq_refl p)

write_text-follow :
    (r : Option FilePath) (t : Text) (d : Option FileTree) (after : FileTree)
    → write_text r t d ≡ some after
    → follow after r ≡ some (file t)
unfolding follow
write_text-follow none t d after h = ground (arith, h)
write_text-follow (some p) t none after h = ground (arith, h)
write_text-follow (some p) t (some disk) after h =
    written_text-entry_at p t (entry_at p disk) disk after h

entry_at-unlink_marker : (p : FilePath) (disk : FileTree) → entry_at p (unlink_marker p disk) ≡ none
unfolding entry_at unlink_marker
entry_at-unlink_marker p [] = refl
entry_at-unlink_marker p ((q, e) ∷ disk) = elim (Bool-cases (path_eq p q)) [
  | inl same ↦ rw same (entry_at-unlink_marker p disk)
  | inr other ↦ elim (Bool-cases (path_eq q p)) [
    | inl same ↦ absurd (ground (arith, other, path_eq_refl p, path_eq_sound q p same))
    | inr apart ↦ rw other (rw apart (entry_at-unlink_marker p disk))
  ]
]

is_due_early :
    (due clock : ℕ) → clock + 1000000 ≤ due → is_due (some (due / 1000000 * 1000000)) clock ≡ false
is_due_early due clock h = ground (arith, h)

is_due_late : (due clock : ℕ) → due ≤ clock → is_due (some (due / 1000000 * 1000000)) clock ≡ true
is_due_late due clock h = ground (arith, h)

follow-unlinked :
    (r : Option FilePath) (disk : FileTree)
    → is_file (follow (if is_file (follow disk r) then unlinked r disk else disk) r) ≡ false
unfolding follow
follow-unlinked none disk = ground arith
follow-unlinked (some p) disk = elim (Bool-cases (is_file (entry_at p disk))) [
  | inl found ↦ rw (found, entry_at-unlink_marker p disk) refl
  | inr missing ↦ rw missing missing
]

tombstone_of-none : (m : Library) (e : Option Entry) → is_file e ≡ false → tombstone_of m e ≡ none
tombstone_of-none m e h = ground (arith, h)

module _ (m : Library) where
  -- What the document of a deletion says of its removal.
  due_of-payload :
      (name : Text) (now : ℕ)
      → due_of m (payload m name now) ≡ parse_iso m (m.strftime (now + span (keep_days m)))
  unfolding due_of payload get text_eq
  due_of-payload name now = refl

  purge_written :
      (target : FilePath) (name : Text) (now clock : ℕ) (disk after : FileTree)
      → m.loads (m.dumps (payload m name now) ++ b'\n' ∷ []) ≡ some (dict (payload m name now))
      → write_tombstone m target name now disk ≡ some after
      → purge_if_expired m target clock after
        ≡ purge_confined (is_due (due_of m (payload m name now)) clock) (confined m target) after
  unfolding write_tombstone purge_if_expired read_tombstone payload
  purge_written target name now clock disk after l h =
      rw (write_text-follow (m.resolve (marker_path target)) _ _ after h, l) refl

  -- Given that json reads back the document of the deletion, that the text of a moment is read back
  -- to the second, that the target is confined, and that the marker could be written_text: a purge leaves
  -- the disk as it is until a second before the end of the days to keep, and takes the
  -- directory from that end on; these days are between 1 and 365.
  pub purge_if_expired-write_tombstone :
      (target top : FilePath) (name : Text) (now clock : ℕ) (disk after : FileTree)
      → m.loads (m.dumps (payload m name now) ++ b'\n' ∷ []) ≡ some (dict (payload m name now))
      → ((t : ℕ) → parse_iso m (m.strftime t) ≡ some (t / 1000000 * 1000000))
      → confined m target ≡ some top
      → write_tombstone m target name now disk ≡ some after
      → (clock + 1000000 ≤ now + span (keep_days m)
          → purge_if_expired m target clock after ≡ (keep_window, after))
        × (now + span (keep_days m) ≤ clock
            → purge_if_expired m target clock after ≡ (purged top, rmtree top after))
        × (1 ≤ keep_days m)
        × (keep_days m ≤ 365)
  purge_if_expired-write_tombstone target top name now clock disk after l stamps c h =
      let due = due_of-payload name now ∙ stamps (now + span (keep_days m)) in
      let run = purge_written target name now clock disk after l h in
      (
        λ early.
            run
            ∙ rw (due, c)
                (ap (λ b. purge_confined b (some top) after) (is_due_early _ clock early)),
        λ late.
            run
            ∙ rw (due, c) (ap (λ b. purge_confined b (some top) after) (is_due_late _ clock late)),
        (keep_days-InRange m).0,
        (keep_days-InRange m).1,
      )

  -- A target whose marker is cleared is safe: it counts as not marked, and no purge takes it.
  pub purge_if_expired-clear_tombstone :
      (target : FilePath) (clock : ℕ) (disk : FileTree)
      → (is_tombstoned m target (clear_tombstone m target disk) ≡ false)
        × (purge_if_expired m target clock (clear_tombstone m target disk)
            ≡ (not_tombstoned, clear_tombstone m target disk))
  unfolding clear_tombstone is_tombstoned purge_if_expired read_tombstone follow
  purge_if_expired-clear_tombstone target clock disk =
      let cleared = follow-unlinked (m.resolve (marker_path target)) disk in
      (cleared, rw (tombstone_of-none m _ cleared) refl)

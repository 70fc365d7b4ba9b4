-- ===== src/Deleted/Samples.antt =====
-- A disk with two targets, one of them deleted, and the theorems on it.
use moirax_asm.Prelude.{
  ℕ, ◌≡◌, refl, ◌⊎◌, ◌+◌, ◌-◌, ◌*◌, ◌/◌, ◌≤◌, true, Option, none, some, [], ◌∷◌, ◌++◌, Text,
  text_eq, codes, arith, strip, lstrip, rstrip,
}
use moirax_asm.Prelude.Json.{Value, dict, int, get}
use moirax_asm.Deleted.{
  FilePath, dir, file, FileTree, IsoTime, aware, Library, span, keep_days, payload, parse_iso,
  confined, write_tombstone, rmtree, entry_at, follow, path_eq, is_tombstoned, read_tombstone,
  within,
}
use moirax_asm.Deleted.Expiry.{
  purge_if_expired, keep_window, purged, purge_expired_all, purge_loop, purge_child, due_of,
}
use moirax_asm.Deleted.Purge.{IsGone, purge_expired_all-IsGone}
use moirax_asm.Deleted.Window.{purge_if_expired-write_tombstone}

-- A moment is written_text as one code point, and read back.
abbrev code_of : ℕ → Text
code_of t = (t / 1000000 + 100) ∷ []

abbrev time_of : Text → Option IsoTime
time_of [] = none
time_of (c ∷ s) = some (aware ((c - 100) * 1000000))

abbrev top : FilePath
top = codes "recon" ∷ []

abbrev machine_with : (Text → Option Value) → Library
machine_with loads = record {
  resolve = some;
  loads = loads;
  dumps = λ d. [];
  from_iso = time_of;
  strftime = code_of;
  show = λ v. [];
  whole = λ v. none;
  setting = some (int 2);
  recon = top;
  recon_resolved = top;
  is_target_name = λ name. true;
}

abbrev old : FilePath
old = codes "recon" ∷ codes "old.com" ∷ []

abbrev machine : Library
machine = machine_with (λ t. some (dict (payload (machine_with (λ t. none)) (codes "old.com") 0)))

abbrev disk : FileTree
disk =
    (top, dir)
    ∷ (old, dir)
    ∷ (old ++ codes "state.json" ∷ [], file [])
    ∷ (codes "recon" ∷ codes "new.com" ∷ [], dir)
    ∷ []

abbrev deleted : FileTree
deleted = (old ++ codes ".deleted" ∷ [], file (b'\n' ∷ [])) ∷ disk

read_back : (t : ℕ) → parse_iso machine (machine.strftime t) ≡ some (t / 1000000 * 1000000)
unfolding parse_iso strip lstrip rstrip
read_back t = ground arith

write_old : write_tombstone machine old (codes "old.com") 0 disk ≡ some deleted
unfolding write_tombstone entry_at path_eq text_eq payload keep_days
write_old = refl

loads_back :
    machine.loads (machine.dumps (payload machine (codes "old.com") 0) ++ b'\n' ∷ [])
    ≡ some (dict (payload machine (codes "old.com") 0))
unfolding payload keep_days
loads_back = refl

confined-old : confined machine old ≡ some old
unfolding confined within path_eq text_eq
confined-old = refl

-- The purge takes the deleted target once its days are over, and only that.
purge_late :
    purge_expired_all machine (span 2) (codes "old.com" ∷ codes "new.com" ∷ []) deleted
    ≡ (codes "old.com" ∷ [], (top, dir) ∷ (codes "recon" ∷ codes "new.com" ∷ [], dir) ∷ [])
unfolding purge_expired_all purge_loop purge_child follow entry_at path_eq text_eq is_tombstoned
    purge_if_expired read_tombstone due_of get parse_iso strip lstrip rstrip rmtree within confined
    payload keep_days
purge_late = refl

purge_early : purge_expired_all machine (span 1) (codes "old.com" ∷ []) deleted ≡ ([], deleted)
unfolding purge_expired_all purge_loop purge_child follow entry_at path_eq text_eq is_tombstoned
    purge_if_expired read_tombstone due_of get parse_iso strip lstrip rstrip rmtree within confined
    payload keep_days
purge_early = refl

purge_expired_all-IsGone_example :
    (entry_at old (purge_expired_all machine (span 2) (codes "old.com" ∷ []) deleted).1
      ≡ entry_at old deleted)
    ⊎ ((entry_at old (purge_expired_all machine (span 2) (codes "old.com" ∷ []) deleted).1 ≡ none)
        × IsGone machine
            (span 2)
            deleted
            old
            (purge_expired_all machine (span 2) (codes "old.com" ∷ []) deleted).0)
purge_expired_all-IsGone_example =
    purge_expired_all-IsGone machine (span 2) (codes "old.com" ∷ []) deleted old

purge_if_expired-write_tombstone_example :
    (5 + 1000000 ≤ 0 + span (keep_days machine)
      → purge_if_expired machine old 5 deleted ≡ (keep_window, deleted))
    × (0 + span (keep_days machine) ≤ 5
        → purge_if_expired machine old 5 deleted ≡ (purged old, rmtree old deleted))
    × (1 ≤ keep_days machine)
    × (keep_days machine ≤ 365)
purge_if_expired-write_tombstone_example =
    purge_if_expired-write_tombstone machine old old (codes "old.com") 0 5 disk deleted loads_back
      read_back confined-old write_old

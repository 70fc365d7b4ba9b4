-- ===== src/History/Buckets.antt =====
-- pipeline/history.py, `diff_maps`: what the buckets of a difference hold.
use moirax_asm.Prelude.{
  ℕ, ◌+◌, ◌≡◌, refl, ap, ◌∙◌, Bool, false, not, ◌&&◌, Option, none, some, [], ◌∷◌, if◌then◌else◌,
  Text, is_none, arith, Bool-cases, inl, inr, count, count-append,
}
use moirax_asm.Prelude.Dict.{Dict, lookup}
use moirax_asm.History.{Change, Diff, diff_new, note_new, note_old, diff_old, diff_class}

-- The number of the entries of a map whose key and fact pass a test.
abbrev pub entries {ℓ} : {A : Type ℓ} → (Text → A → Bool) → Dict A → ℕ
entries p [] = 0
entries p ((k, a) ∷ d) = let rest = entries p d in if p k a then rest + 1 else rest

module _ {V : Type 0} (eq : V → V → Bool) where
  -- A test of the change from an older fact, if there is one and it differs.
  abbrev pub is_change : (Change V → Bool) → Option V → V → Bool
  is_change q none w = false
  is_change q (some v) w = not (eq v w) && q (record { before = v; after = w })

  note_new-counts :
      (p : V → Bool) (q : Change V → Bool) (w : V) (o : Option V) (d : Diff V)
      → (count p (note_new eq w o d).added
          ≡ (if is_none o && p w then count p d.added + 1 else count p d.added))
        × (count q (note_new eq w o d).changed
            ≡ (if is_change q o w then count q d.changed + 1 else count q d.changed))
        × ((note_new eq w o d).removed ≡ d.removed)
  unfolding note_new
  note_new-counts p q w none d = (ground (arith, count-append p d.added (w ∷ [])), refl, refl)
  note_new-counts p q w (some v) d =
      let c : Change V = record { before = v; after = w } in
      elim (Bool-cases (eq v w)) [
        | inl same ↦ rw same (refl, refl, refl)
        | inr other ↦ rw other (refl, ground (arith, count-append q d.changed (c ∷ [])), refl)
      ]

  diff_new-counts :
      (p : V → Bool) (q : Change V → Bool) (old new : Dict V) (d : Diff V)
      → (count p (diff_new eq old new d).added
          ≡ count p d.added + entries (λ k w. is_none (lookup k old) && p w) new)
        × (count q (diff_new eq old new d).changed
            ≡ count q d.changed + entries (λ k w. is_change q (lookup k old) w) new)
        × ((diff_new eq old new d).removed ≡ d.removed)
  unfolding diff_new
  diff_new-counts p q old [] d = (omega arith, omega arith, refl)
  diff_new-counts p q old ((k, w) ∷ new) d =
      let (a, c, r) = note_new-counts p q w (lookup k old) d in
      let (a', c', r') = diff_new-counts p q old new (note_new eq w (lookup k old) d) in
      (ground (arith, a, a'), ground (arith, c, c'), r' ∙ r)

  note_old-counts :
      (p : V → Bool) (v : V) (o : Option V) (d : Diff V)
      → ((note_old v o d).added ≡ d.added)
        × ((note_old v o d).changed ≡ d.changed)
        × (count p (note_old v o d).removed
            ≡ (if is_none o && p v then count p d.removed + 1 else count p d.removed))
  unfolding note_old
  note_old-counts p v none d = (refl, refl, ground (arith, count-append p d.removed (v ∷ [])))
  note_old-counts p v (some w) d = (refl, refl, refl)

  diff_old-counts :
      (p : V → Bool) (new old : Dict V) (d : Diff V)
      → ((diff_old new old d).added ≡ d.added)
        × ((diff_old new old d).changed ≡ d.changed)
        × (count p (diff_old new old d).removed
            ≡ count p d.removed + entries (λ k v. is_none (lookup k new) && p v) old)
  unfolding diff_old
  diff_old-counts p new [] d = (refl, refl, omega arith)
  diff_old-counts p new ((k, v) ∷ old) d =
      let (a, c, r) = note_old-counts p v (lookup k new) d in
      let (a', c', r') = diff_old-counts p new old (note_old v (lookup k new) d) in
      (a' ∙ a, c' ∙ c, ground (arith, r, r'))

  -- The buckets of a class hold, in some order and as often as the maps do: as added, the facts of
  -- the newer map whose key the older one lacks; as removed, those of the older map whose key the
  -- newer one lacks; as changed, the two facts of each key that both have with facts that differ.
  -- For any test, as many of each bucket pass as entries of the maps of this kind.
  pub diff_class-counts :
      (p : V → Bool) (q : Change V → Bool) (older newer : Dict V)
      → (count p (diff_class eq older newer).added
          ≡ entries (λ k w. is_none (lookup k older) && p w) newer)
        × (count p (diff_class eq older newer).removed
            ≡ entries (λ k v. is_none (lookup k newer) && p v) older)
        × (count q (diff_class eq older newer).changed
            ≡ entries (λ k w. is_change q (lookup k older) w) newer)
  unfolding diff_class
  diff_class-counts p q older newer =
      let empty : Diff V = record { added = []; removed = []; changed = [] } in
      let (a, c, r) = diff_new-counts p q older newer empty in
      let (a', c', r') = diff_old-counts p newer older (diff_new eq older newer empty) in
      (
        omega (arith, a, ap (count p) a'),
        omega (arith, r', ap (count p) r),
        omega (arith, c, ap (count q) c'),
      )

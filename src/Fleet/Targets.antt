-- ===== src/Fleet/Targets.antt =====
-- pipeline/fleet.py, `fleet_targets`: what a request for explicit targets gives.
use moirax_asm.Prelude.{
  ◌≡◌, refl, true, false, not, ◌&&◌, inl, inr, List, [], ◌∷◌, ◌++◌, All, All-append, if_elim, arith,
  Bool-cases, Text, text_eq, distinct, distinct-append, mem, is_empty, strip, lower, split, codes,
}
use moirax_asm.Fleet.{
  Members, refused, members, is_target, sanitize_fleet_target, add_targets, some_members,
  fleet_targets,
}

sanitize-is_target :
    (raw : Text)
    → is_empty (sanitize_fleet_target raw) ≡ false
    → is_target (sanitize_fleet_target raw) ≡ true
unfolding sanitize_fleet_target
sanitize-is_target raw h = elim (Bool-cases (is_target (strip raw))) [
  | inl e ↦ rw e e
  | inr e ↦ absurd (ground (arith, e))
]

-- Distinct names, each of the form of a target.
pub record AreTargets (ts : List Text) : Type 0 where
  pub once : distinct ts ≡ true
  pub valid : All (λ t. is_target t ≡ true) ts

add_targets-AreTargets :
    (seen raws : List Text) → AreTargets seen → AreTargets (add_targets seen raws)
unfolding add_targets
add_targets-AreTargets seen [] a = a
add_targets-AreTargets seen (raw ∷ rest) a =
    if_elim AreTargets
      (not (is_empty (sanitize_fleet_target raw)) && not (mem (sanitize_fleet_target raw) seen)) _ _
      (λ e. add_targets-AreTargets (seen ++ sanitize_fleet_target raw ∷ []) rest (record {
        once = distinct-append seen (sanitize_fleet_target raw) a.once (ground arith);
        valid =
            All-append (λ t. is_target t ≡ true) seen (sanitize_fleet_target raw ∷ []) a.valid
              (sanitize-is_target raw (ground arith), tt);
      }))
      (λ e. add_targets-AreTargets seen rest a)

-- What holds of the members that a request gives.
abbrev pub IsVetted : Members → Type 0
IsVetted (refused e) = Unit
IsVetted (members ts) = AreTargets ts × (is_empty ts ≡ false)

some_members-IsVetted : (ts : List Text) → AreTargets ts → IsVetted (some_members ts)
unfolding some_members
some_members-IsVetted [] a = tt
some_members-IsVetted (t ∷ ts) a = (a, refl)

-- A request that is not `all` gives at least one member or is refused; each member has the form of
-- a target, and none stands twice.
pub fleet_targets-IsVetted :
    (registry : List Text) (requested : Text)
    → text_eq (lower (strip requested)) (codes "all") ≡ false
    → IsVetted (fleet_targets registry requested)
unfolding fleet_targets
fleet_targets-IsVetted registry requested h =
    if_elim IsVetted (is_empty (strip requested)) _ _ (λ e. tt)
      (λ e. rw h (
        some_members-IsVetted (add_targets [] (split b',' (strip requested))) (
          add_targets-AreTargets [] (split b',' (strip requested))
            (record { once = refl; valid = tt }))))

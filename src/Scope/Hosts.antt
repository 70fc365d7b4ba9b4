-- ===== src/Scope/Hosts.antt =====
-- pipeline/scope.py, `_host_match` and `_validate_host`: which host names are in scope.
use moirax_asm.Prelude.{
  ◌≡◌, refl, sym, ap, ◌∙◌, ◌↔◌, inl, inr, true, false, not, ◌&&◌, ◌∷◌, ◌++◌, Text, text_eq,
  text_eq_iff, codes, drop, starts_with, starts_with_sound, ends_with_sound, ends_with-append,
  arith, Bool-cases,
}
use moirax_asm.Scope.{NetLib, ScopeGate, host_match, host_matches_any, validate_host}

abbrev pub star : Text → Text
star base = b'*' ∷ b'.' ∷ base

-- The hosts that an entry of scope.yaml stands for: itself, or for `*.base` the base and every
-- name below it, a whole label at a time.
pub data Covers (pattern host : Text) : Type 0 where
  exact : starts_with pattern (codes "*.") ≡ false → host ≡ pattern → Covers pattern host
  apex : pattern ≡ star host → Covers pattern host
  below :
      (labels base : Text)
      → pattern ≡ star base
      → host ≡ labels ++ b'.' ∷ base
      → Covers pattern host

star_of :
    (pattern : Text) → starts_with pattern (codes "*.") ≡ true → pattern ≡ star (drop 2 pattern)
star_of pattern h = let (u, e) = starts_with_sound pattern (codes "*.") h in rw e refl

starts_with-star : (base : Text) → starts_with (star base) (codes "*.") ≡ true
unfolding starts_with
starts_with-star base = refl

host_match_sound : (host pattern : Text) → host_match host pattern ≡ true → Covers pattern host
unfolding host_match
host_match_sound host pattern h = elim (Bool-cases (starts_with pattern (codes "*."))) [
  | inr plain ↦ exact plain (ground (arith, plain, text_eq_iff host pattern))
  | inl starred ↦ elim (Bool-cases (text_eq host (drop 2 pattern))) [
    | inl e ↦
        apex (star_of pattern starred ∙ ap star (sym ((text_eq_iff host (drop 2 pattern)).0 e)))
    | inr e ↦
        let (labels, q) =
          ends_with_sound host (b'.' ∷ drop 2 pattern) (ground (arith, starred, e)) in
        below labels (drop 2 pattern) (star_of pattern starred) q
  ]
]

host_match_complete : (host pattern : Text) → Covers pattern host → host_match host pattern ≡ true
unfolding host_match
host_match_complete host pattern (exact plain e) = rw plain ((text_eq_iff host pattern).1 e)
host_match_complete host pattern (apex e) =
    rw e (rw (starts_with-star host, (text_eq_iff host host).1 refl) refl)
host_match_complete host pattern (below labels base e q) =
    rw e (rw (starts_with-star base) (rw q (ground (arith, ends_with-append labels (b'.' ∷ base)))))

-- A host matches an entry exactly if the entry covers it: a name that only ends in the same
-- characters is not covered.
pub host_match_iff : (host pattern : Text) → (host_match host pattern ≡ true) ↔ Covers pattern host
host_match_iff host pattern = (host_match_sound host pattern, host_match_complete host pattern)

module _ {Ip Net : Type 0} (L : NetLib Ip Net) (g : ScopeGate Net) where
  -- A host is accepted exactly if it matches the includes and not the excludes; the cloud suffixes
  -- change only the reason of a refusal.
  pub validate_host_accepts :
      (host : Text)
      → (validate_host L g host).0
        ≡ (host_matches_any L host g.includes && not (host_matches_any L host g.excludes))
  unfolding validate_host
  validate_host_accepts host = ground arith

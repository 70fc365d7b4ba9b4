-- ===== src/Prelude/Dict.antt =====
-- Python's `dict` keyed by texts: entries in insertion order, a write to a present key in place.
use mathlib.Core.Path.{◌≡◌, refl}
use mathlib.Core.Bool.{Bool, true, ◌&&◌}
use mathlib.Core.Logic.{inl, inr}
use moirax_asm.Prelude.Lists.{filter}
use mathlib.Core.List.{List, [], ◌∷◌}
use mathlib.Core.Option.{Option, none, some}
use native.Mathlib.Omega.{arith}
use moirax_asm.Prelude.Tests.{is_none, Bool-cases, if◌then◌else◌}
use moirax_asm.Prelude.Strings.{Text, text_eq, text_eq_iff}

abbrev pub Dict {ℓ} : Type ℓ → Type ℓ
Dict V = List (Text × V)

module _ {ℓ} {V : Type ℓ} where
  -- d.get(k)
  unfoldable pub lookup : Text → Dict V → Option V
  lookup k [] = none
  lookup k ((j, v) ∷ d) = if text_eq j k then some v else lookup k d

  -- d[k] = v
  unfoldable pub insert : Text → V → Dict V → Dict V
  insert k v [] = (k, v) ∷ []
  insert k v ((j, w) ∷ d) =
      let rest = insert k v d in if text_eq j k then (j, v) ∷ d else (j, w) ∷ rest

  -- d.pop(k, None)
  unfoldable pub remove : Text → Dict V → Dict V
  remove k [] = []
  remove k ((j, w) ∷ d) = let rest = remove k d in if text_eq j k then rest else (j, w) ∷ rest

  abbrev pub keys : Dict V → List Text
  keys [] = []
  keys ((j, w) ∷ d) = j ∷ keys d

  pub lookup-insert :
      (k j : Text) (v : V) (d : Dict V)
      → lookup j (insert k v d) ≡ (if text_eq k j then some v else lookup j d)
  unfolding lookup insert
  lookup-insert k j v [] = refl
  lookup-insert k j v ((i, w) ∷ d) =
      ground (arith, text_eq_iff k j, text_eq_iff i k, text_eq_iff i j, lookup-insert k j v d)

  pub lookup-remove :
      (k j : Text) (d : Dict V) → lookup j (remove k d) ≡ (if text_eq k j then none else lookup j d)
  unfolding lookup remove
  lookup-remove k j [] = ground arith
  lookup-remove k j ((i, w) ∷ d) =
      ground (arith, text_eq_iff k j, text_eq_iff i k, text_eq_iff i j, lookup-remove k j d)

pub ruleset dict_laws = (lookup-insert, lookup-remove)

module _ {ℓ} {V : Type ℓ} where
  -- No key twice.
  abbrev pub unique : Dict V → Bool
  unique [] = true
  unique ((k, v) ∷ d) = is_none (lookup k d) && unique d

  pub unique-insert :
      (k : Text) (v : V) (d : Dict V) → unique d ≡ true → unique (insert k v d) ≡ true
  unfolding lookup insert
  unique-insert k v [] h = refl
  unique-insert k v ((j, w) ∷ d) h =
      ground (arith, text_eq_iff j k, text_eq_iff k j, unique-insert k v d, lookup-insert k j v d)

  pub unique-remove : (k : Text) (d : Dict V) → unique d ≡ true → unique (remove k d) ≡ true
  unfolding lookup remove
  unique-remove k [] h = refl
  unique-remove k ((j, w) ∷ d) h =
      ground (arith, text_eq_iff k j, unique-remove k d, lookup-remove k j d)

  -- What a deletion of the rows whose value fails a test leaves of a lookup.
  abbrev pub kept : (V → Bool) → Option V → Option V
  kept p none = none
  kept p (some v) = if p v then some v else none

  lookup-filter-none :
      (p : V → Bool) (k : Text) (d : Dict V)
      → lookup k d ≡ none
      → lookup k (filter (λ row. p row.1) d) ≡ none
  unfolding lookup
  lookup-filter-none p k [] h = refl
  lookup-filter-none p k ((j, w) ∷ d) h = ground (arith, lookup-filter-none p k d)

  pub lookup-filter :
      (p : V → Bool) (k : Text) (d : Dict V)
      → unique d ≡ true
      → lookup k (filter (λ row. p row.1) d) ≡ kept p (lookup k d)
  unfolding lookup
  lookup-filter p k [] h = refl
  lookup-filter p k ((j, w) ∷ d) h = elim (Bool-cases (text_eq j k)) [
    | inl e ↦ ground (arith, e, text_eq_iff j k, lookup-filter-none p k d)
    | inr e ↦ ground (arith, e, lookup-filter p k d)
  ]

  pub unique-filter :
      (p : V → Bool) (d : Dict V) → unique d ≡ true → unique (filter (λ row. p row.1) d) ≡ true
  unique-filter p [] h = refl
  unique-filter p ((j, w) ∷ d) h = ground (arith, unique-filter p d, lookup-filter-none p j d)

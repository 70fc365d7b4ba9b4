-- ===== src/Searches/Isolation.antt =====
-- pipeline/search_forge.py: which engine is picked, and the engines that are isolated.
use moirax_asm.Prelude.{
  ℕ, suc, ◌≡◌, ◌≢◌, refl, ◌+◌, Bool, true, false, ◌&&◌, ◌||◌, Option, none, some, List, [], ◌∷◌,
  if◌then◌else◌, arith, get_elem?, leb, Text,
}
use moirax_asm.Searches.{
  SearchEngine, Settings, Forge, is_active_engine, is_cooldown, is_isolated, reprobe, reprobe_all,
  active_from, healthy_engines, first_of, pick_engine, Answer, answered_by,
}

-- An engine may be asked now.
abbrev pub is_usable : ℕ → SearchEngine → Bool
is_usable now e = is_active_engine e.status || (is_cooldown e.status && leb e.cooldown_until now)

abbrev pub map_suc : Option ℕ → Option ℕ
map_suc none = none
map_suc (some n) = some (suc n)

-- The first position of an engine that passes a test.
abbrev pub position : (SearchEngine → Bool) → List SearchEngine → Option ℕ
position p [] = none
position p (e ∷ engines) = let rest = position p engines in if p e then some 0 else map_suc rest

abbrev shift : ℕ → Option ℕ → Option ℕ
shift n none = none
shift n (some k) = some (n + k)

is_active_engine-reprobe :
    (now : ℕ) (e : SearchEngine) → is_active_engine (reprobe now e).status ≡ is_usable now e
unfolding reprobe
is_active_engine-reprobe now e = ground arith

first_of-active_from :
    (now n : ℕ) (engines : List SearchEngine)
    → first_of (active_from n (reprobe_all now engines))
      ≡ shift n (position (is_usable now) engines)
unfolding active_from reprobe_all
first_of-active_from now n [] = refl
first_of-active_from now n (e ∷ engines) =
    ground (arith, is_active_engine-reprobe now e, first_of-active_from now (suc n) engines)

-- The engine that is picked is the first one, in the order of the pool, that is active or whose
-- cooldown is over; none is picked exactly if there is no such engine.
pub pick_engine-position :
    (now : ℕ) (forge : Forge) → (pick_engine now forge).0 ≡ position (is_usable now) forge.engines
unfolding pick_engine healthy_engines
pick_engine-position now forge = ground (arith, first_of-active_from now 0 forge.engines)

abbrev probed : ℕ → Option SearchEngine → Option SearchEngine
probed now none = none
probed now (some e) = some (reprobe now e)

abbrev from : (SearchEngine → Bool) → Option SearchEngine → Bool
from p none = false
from p (some e) = p e

abbrev from_engine : Answer → ℕ
from_engine (answered_by hosts i) = i
from_engine a = 0

module _ (c : Settings) (i : ℕ) (e : SearchEngine) (gone : is_isolated e.status ≡ true) where
  abbrev IsThere : Forge → Type 0
  IsThere forge = get_elem? forge.engines i ≡ some e

  -- The engine has not been asked: it stands as it did, and the answer is from another.
  abbrev IsUnasked : Answer × Forge → Type 0
  IsUnasked y = IsThere y.1 × ((hosts : List Text) → y.0 ≢ answered_by hosts i)

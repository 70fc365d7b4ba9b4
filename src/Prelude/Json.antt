-- ===== src/Prelude/Json.antt =====
-- The values of JSON and YAML documents. `other` is a value of a type that the program only
-- refuses, such as a float.
use Prim.Native.Nat.{ℕ, zero}
use native.Mathlib.Omega.{arith}
use mathlib.Core.Path.{◌≡◌, refl}
use mathlib.Core.Bool.{Bool, true, false}
use mathlib.Core.List.{List, [], ◌∷◌}
use mathlib.Core.Option.{Option, none, some}
use moirax_asm.Prelude.Tests.{if◌then◌else◌}
use moirax_asm.Prelude.Strings.{Text, text_eq, text_eq_iff}

mutual
  pub data Value : Type 0 where
    null : Value
    bool : Bool → Value
    int : ℕ → Value
    negative : ℕ → Value
    str : Text → Value
    list : Items → Value
    dict : Fields → Value
    other : Value

  pub data Items : Type 0 where
    nil : Items
    cons : Value → Items → Items

  pub data Fields : Type 0 where
    end : Fields
    field : Text → Value → Fields → Fields

-- d.get(key)
unfoldable pub get : Text → Fields → Option Value
get key end = none
get key (field name v rest) = if text_eq name key then some v else get key rest

abbrev pub items_of : Items → List Value
items_of nil = []
items_of (cons v vs) = v ∷ items_of vs

-- d[key] = v
unfoldable pub put : Text → Value → Fields → Fields
put key v end = field key v end
put key v (field name w rest) =
    let more = put key v rest in if text_eq name key then field name v rest else field name w more

-- bool(d.get(key))
abbrev pub is_truthy : Option Value → Bool
is_truthy none = false
is_truthy (some null) = false
is_truthy (some (bool b)) = b
is_truthy (some (int zero)) = false
is_truthy (some (str [])) = false
is_truthy (some (list nil)) = false
is_truthy (some (dict end)) = false
is_truthy (some v) = true

pub get-put :
    (key j : Text) (v : Value) (d : Fields)
    → get j (put key v d) ≡ (if text_eq key j then some v else get j d)
unfolding get put
get-put key j v end = refl
get-put key j v (field name w rest) =
    ground
      (arith, text_eq_iff key j, text_eq_iff name key, text_eq_iff name j, get-put key j v rest)

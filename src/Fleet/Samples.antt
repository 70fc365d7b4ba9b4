-- ===== src/Fleet/Samples.antt =====
-- A fleet of two members, and the theorems on it.
use moirax_asm.Prelude.{◌≡◌, refl, true, false, [], ◌∷◌, none}
use moirax_asm.Fleet.{GlobalSlots, start, end, free_slot, acquire}
use moirax_asm.Fleet.Slots.{all_below, steps, steps-all_below}

abbrev two_slots : GlobalSlots
two_slots = record { files = []; limit = 2; token = none }

abbrev no_slot : GlobalSlots
no_slot = record { files = 1 ∷ 0 ∷ []; limit = 2; token = none }

steps-all_below_example :
    all_below 2 (steps (start ∷ start ∷ end ∷ start ∷ []) two_slots).files ≡ true
steps-all_below_example = steps-all_below (start ∷ start ∷ end ∷ start ∷ []) two_slots refl

refused : (acquire no_slot).1 ≡ false
unfolding acquire free_slot
refused = refl

first : (acquire two_slots).1 ≡ true
unfolding acquire free_slot
first = refl

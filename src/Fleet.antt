-- ===== src/Fleet.antt =====
-- pipeline/fleet.py: the members of a fleet, their slots, and the verdict on the whole. A slot
-- `slot-000i` is the number i; its file is on the disk that all threads and processes share.
pub mod Targets
pub mod Slots
mod Samples
use moirax_asm.Prelude.{
  ℕ, zero, suc, ◌+◌, min, max, Bool, true, false, not, ◌&&◌, ◌||◌, Option, none, some, List, [],
  ◌∷◌, ◌++◌, all, filter, length, if◌then◌else◌, ltb, leb, ◌==◌, mem_ℕ, Text, text_eq, mem,
  is_empty, is_lower, is_digit, strip, lower, split, codes,
}

pub data FleetError : Type 0 where
  no_targets no_valid_targets : FleetError

pub data Members : Type 0 where
  refused : FleetError → Members
  members : List Text → Members

abbrev is_first : ℕ → Bool
is_first c = is_lower c || is_digit c

-- [a-z0-9][a-z0-9.-]{2,253}
unfoldable pub is_target : Text → Bool
is_target [] = false
is_target (c ∷ s) =
    is_first c
    && all (λ d. is_first d || d == b'.' || d == b'-') s
    && leb 2 (length s)
    && leb (length s) 253

unfoldable pub sanitize_fleet_target : Text → Text
unfolding is_target
sanitize_fleet_target raw = if not (is_target (strip raw)) then [] else strip raw

-- The loop over the parts of the request.
unfoldable pub add_targets : List Text → List Text → List Text
add_targets seen [] = seen
add_targets seen (raw ∷ rest) =
    let t = sanitize_fleet_target raw in
    let with_it = add_targets (seen ++ t ∷ []) rest in
    let without = add_targets seen rest in
    if not (is_empty t) && not (mem t seen) then with_it else without

some_members : List Text → Members
some_members [] = refused no_valid_targets
some_members (t ∷ ts) = members (t ∷ ts)

-- `registry` is the sorted list of the targets that have a profile.
unfoldable pub fleet_targets : List Text → Text → Members
unfolding some_members
fleet_targets registry requested =
    let req = strip requested in
    if is_empty req
    then refused no_targets
    else if text_eq (lower req) (codes "all")
    then members registry
    else some_members (add_targets [] (split b',' req))

-- The setting, or `none` if it is missing. A negative setting and 0 both give 1.
unfoldable pub max_concurrency : Option ℕ → ℕ
max_concurrency none = 3
max_concurrency (some n) = max 1 (min 8 n)

-- `concurrency or max_concurrency(params)`, within the count of targets.
unfoldable pub worker_limit : Option ℕ → Option ℕ → ℕ → ℕ
worker_limit (some (suc n)) setting targets = max 1 (min (suc n) targets)
worker_limit c setting targets = max 1 (min (max_concurrency setting) targets)

-- One `GlobalSlots` object and the slot files; the members of a fleet share the object.
pub record GlobalSlots : Type 0 where
  pub files : List ℕ
  pub limit : ℕ
  pub token : Option ℕ

unfoldable pub new_slots : List ℕ → ℕ → GlobalSlots
new_slots files limit = record { files = files; limit = max 1 limit; token = none }

-- The first number, from `i` on, of `n` whose file can be created.
unfoldable pub free_slot : List ℕ → ℕ → ℕ → Option ℕ
free_slot files i zero = none
free_slot files i (suc n) =
    let rest = free_slot files (suc i) n in if mem_ℕ i files then rest else some i

take_slot : GlobalSlots → Option ℕ → GlobalSlots × Bool
take_slot s none = (s, false)
take_slot s (some i) = (record s { files = i ∷ s.files; token = some i }, true)

unfoldable pub acquire : GlobalSlots → GlobalSlots × Bool
unfolding take_slot
acquire s = take_slot s (free_slot s.files 0 s.limit)

unlink : GlobalSlots → Option ℕ → GlobalSlots
unlink s none = s
unlink s (some i) = record s { files = filter (λ j. not (j == i)) s.files; token = none }

unfoldable pub release : GlobalSlots → GlobalSlots
unfolding unlink
release s = unlink s s.token

-- What becomes of a member that has a slot.
pub data Outcome : Type 0 where
  exited : ℕ → Outcome
  timed_out : Outcome
  failed : Outcome

unfoldable pub exit_code_of : Bool → Outcome → ℕ
exit_code_of false o = 4
exit_code_of true (exited n) = n
exit_code_of true timed_out = 4
exit_code_of true failed = 1

-- The steps of the threads of one fleet: a member starts, or one that has a slot ends.
pub data Step : Type 0 where
  start : Step
  end : Step

unfoldable pub step : Step → GlobalSlots → GlobalSlots
step start s = (acquire s).0
step end s = release s

unfoldable pub clean : List ℕ → Bool
clean exit_codes = all (λ e. e == 0 || e == 3) exit_codes

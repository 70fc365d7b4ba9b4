-- ===== src/Searches.antt =====
-- pipeline/search_forge.py: the pool of search engines, and `_execute_dork` of
-- pipeline/modules/passive_recon.py, the loop that uses it. Moments are read from the world and
-- counted in one unit; the jitter of a backoff is added to it.
pub mod Isolation
mod Samples
use moirax_asm.Prelude.{
  ℕ, zero, suc, ◌+◌, ◌-◌, ◌*◌, ◌%◌, ◌^◌, min, Bool, true, false, not, ◌&&◌, ◌||◌, Option, none,
  some, List, [], ◌∷◌, ◌++◌, if◌then◌else◌, Text, text_eq, length, filter, count, get_elem?, get_or,
  leb, ltb, ◌==◌,
}

pub data EngineStatus : Type 0 where
  active cooldown isolated : EngineStatus

pub record SearchEngine : Type 0 where
  pub name : Text
  pub keys : List Text
  pub status : EngineStatus
  pub cooldown_until : ℕ
  pub cooldown_level : ℕ
  -- When a request was made, and whether it went well.
  pub events : List (ℕ × Bool)
  pub key_idx : ℕ
  pub requests : ℕ

-- self.stats, and self.rerouted
pub record PoolStats : Type 0 where
  pub engines_used : ℕ
  pub cooldowns : ℕ
  pub isolations : ℕ
  pub rerouted : ℕ

-- isolate_error_ratio is a fraction.
pub record Settings : Type 0 where
  pub cooldown_base : ℕ
  pub cooldown_max : ℕ
  pub isolate_window : ℕ
  pub ratio_num : ℕ
  pub ratio_den : ℕ

pub record Forge : Type 0 where
  pub engines : List SearchEngine
  pub stats : PoolStats

abbrev pub is_active_engine : EngineStatus → Bool
is_active_engine active = true
is_active_engine s = false

abbrev pub is_cooldown : EngineStatus → Bool
is_cooldown cooldown = true
is_cooldown s = false

abbrev pub is_isolated : EngineStatus → Bool
is_isolated isolated = true
is_isolated s = false

-- The loop of `healthy`: what it does to the engines, and the positions that it gives.
unfoldable pub reprobe : ℕ → SearchEngine → SearchEngine
reprobe now e =
    if is_cooldown e.status && leb e.cooldown_until now then record e { status = active } else e

unfoldable pub reprobe_all : ℕ → List SearchEngine → List SearchEngine
unfolding reprobe
reprobe_all now [] = []
reprobe_all now (e ∷ engines) = reprobe now e ∷ reprobe_all now engines

unfoldable pub active_from : ℕ → List SearchEngine → List ℕ
active_from n [] = []
active_from n (e ∷ engines) =
    let rest = active_from (suc n) engines in if is_active_engine e.status then n ∷ rest else rest

unfoldable pub healthy_engines : ℕ → Forge → List ℕ × Forge
unfolding reprobe_all active_from
healthy_engines now forge =
    let engines = reprobe_all now forge.engines in
    (active_from 0 engines, record forge { engines = engines })

abbrev pub first_of : List ℕ → Option ℕ
first_of [] = none
first_of (i ∷ is) = some i

unfoldable pub pick_engine : ℕ → Forge → Option ℕ × Forge
unfolding healthy_engines
pick_engine now forge = (first_of (healthy_engines now forge).0, (healthy_engines now forge).1)

abbrev key_at : List Text → ℕ → Text
key_at [] n = []
key_at (k ∷ keys) n = get_or (k ∷ keys) (n % length (k ∷ keys)) []

-- key_idx after the key is taken.
abbrev turned : List Text → ℕ → ℕ
turned [] n = n
turned (k ∷ keys) n = n + 1

unfoldable pub next_key : SearchEngine → Text × SearchEngine
next_key e = (key_at e.keys e.key_idx, record e { key_idx = turned e.keys e.key_idx })

-- What an engine answered_by: the HTTP status, whether the answer is a captcha, and its hosts.
pub record Reply : Type 0 where
  pub code : ℕ
  pub captcha : Bool
  pub hosts : List Text

abbrev pub is_block : ℕ → Bool
is_block code = code == 429 || code == 403

-- One round of the loop as the world decides it: the budget is over before or after the wait
-- for the engine, or a reply comes. The moments are those of the picks and of the record.
pub data Round : Type 0 where
  over : ℕ → Round
  late : ℕ → Round
  reply : (picked recorded repicked jitter : ℕ) → Reply → Round

abbrev pub picked_at : Round → ℕ
picked_at (over t) = t
picked_at (late t) = t
picked_at (reply picked recorded repicked jitter r) = picked

pub data Answer : Type 0 where
  pool_exhausted budget : Answer
  -- The hosts, and the position of the engine.
  answered_by : List Text → ℕ → Answer

abbrev in_range : ℕ → Bool
in_range code = leb 200 code && ltb code 400

abbrev pub is_blocked : Reply → Bool
is_blocked r = is_block r.code || r.captcha

abbrev pub is_good : Reply → Bool
is_good r = in_range r.code && not (is_blocked r)

-- `forge.rerouted += 1`, if another engine than the one that failed is picked.
abbrev reroute : ℕ → Option ℕ × Forge → Forge
reroute i (none, forge) = forge
reroute i (some j, forge) =
    if i == j
    then forge
    else record forge { stats = record forge.stats { rerouted = forge.stats.rerouted + 1 } }

abbrev used_first : ℕ → PoolStats → PoolStats
used_first requests s = if requests == 1 then record s { engines_used = s.engines_used + 1 } else s

-- A change of the engine at a position, and of the statistics.
unfoldable pub change_at :
    (SearchEngine × PoolStats → SearchEngine × PoolStats)
    → ℕ
    → List SearchEngine
    → PoolStats
    → List SearchEngine × PoolStats
change_at f i [] s = ([], s)
change_at f zero (e ∷ engines) s = let x = f (e, s) in (x.0 ∷ engines, x.1)
change_at f (suc i) (e ∷ engines) s = let x = change_at f i engines s in (e ∷ x.0, x.1)

abbrev pub on : (SearchEngine × PoolStats → SearchEngine × PoolStats) → ℕ → Forge → Forge
on f i forge =
    let x = change_at f i forge.engines forge.stats in record forge { engines = x.0; stats = x.1 }

abbrev pub turn : SearchEngine × PoolStats → SearchEngine × PoolStats
turn (e, s) = ((next_key e).1, s)

unfoldable pub take_key : ℕ → Forge → Forge
unfolding next_key change_at
take_key i forge = on turn i forge

module _ (c : Settings) where
  abbrev pub backoff : ℕ → ℕ
  backoff level = min (c.cooldown_base * 2 ^ (level - 1)) c.cooldown_max

  -- The parts of `record`: the events in the window, the cooldown, and the isolation.
  abbrev with_event : ℕ → Bool → SearchEngine → SearchEngine
  with_event now ok e = record e {
    requests = e.requests + 1;
    events = filter (λ v. leb (now - v.0) c.isolate_window) e.events ++ (now, ok) ∷ [];
  }

  abbrev cooled : ℕ → ℕ → SearchEngine → SearchEngine
  cooled now jitter e = record e {
    cooldown_level = e.cooldown_level + 1;
    status = cooldown;
    cooldown_until = now + (backoff (e.cooldown_level + 1) + jitter);
  }

  abbrev pub is_over : List (ℕ × Bool) → Bool
  is_over events =
      leb 2 (length events)
      && ltb (c.ratio_num * length events) (count (λ v. not v.1) events * c.ratio_den)

  abbrev isolating : SearchEngine → Bool
  isolating e = is_over e.events && not (is_isolated e.status)

  abbrev isolate : SearchEngine × PoolStats → SearchEngine × PoolStats
  isolate (e, s) =
      if isolating e
      then (record e { status = isolated }, record s { isolations = s.isolations + 1 })
      else (e, s)

  abbrev failed_reply : ℕ → ℕ → ℕ → SearchEngine × PoolStats → SearchEngine × PoolStats
  failed_reply now code jitter (e, s) = isolate (
      if is_block code
      then (cooled now jitter e, record s { cooldowns = s.cooldowns + 1 })
      else (e, s))

  unfoldable pub record_reply :
      ℕ → Bool → ℕ → ℕ → SearchEngine × PoolStats → SearchEngine × PoolStats
  record_reply now ok code jitter (e, s) =
      let next : SearchEngine × PoolStats = (with_event now ok e, used_first (e.requests + 1) s) in
      if ok then next else failed_reply now code jitter next

  unfoldable pub record_at : ℕ → Bool → ℕ → ℕ → ℕ → Forge → Forge
  unfolding record_reply change_at
  record_at now ok code jitter i forge = on (record_reply now ok code jitter) i forge

  -- A round, the rounds after it, and the pick_engine that it starts with.
  unfoldable pub attempt_round :
      Round → (Forge → Answer × Forge) → Option ℕ × Forge → Answer × Forge
  unfolding record_at take_key pick_engine
  attempt_round r again (none, forge) = (pool_exhausted, forge)
  attempt_round (over t) again (some i, forge) = (budget, forge)
  attempt_round (late t) again (some i, forge) = (budget, take_key i forge)
  attempt_round (reply picked recorded repicked jitter r) again (some i, forge) =
      let seen = record_at recorded (is_good r) r.code jitter i (take_key i forge) in
      let rest = again (reroute i (pick_engine repicked seen)) in
      if is_good r then (answered_by r.hosts i, seen) else rest

  -- The loop of `_execute_dork`; a list of rounds that ends without an answer is cut off by the
  -- budget.
  unfoldable pub execute_dork : List Round → Forge → Answer × Forge
  unfolding attempt_round pick_engine
  execute_dork [] forge = (budget, forge)
  execute_dork (r ∷ rounds) forge =
      attempt_round r (execute_dork rounds) (pick_engine (picked_at r) forge)

-- ===== src/Searches/Samples.antt =====
-- A pool of two engines, of which the first fails twice and is isolated.
use moirax_asm.Prelude.{ℕ, ◌≡◌, refl, Bool, true, false, [], ◌∷◌, Text, codes}
use moirax_asm.Searches.{
  EngineStatus, active, isolated, SearchEngine, PoolStats, Settings, Forge, pick_engine, next_key,
  healthy_engines, reprobe, reprobe_all, active_from, change_at, record_at, record_reply, take_key,
  Round, reply, answered_by, attempt_round, execute_dork,
}
use moirax_asm.Searches.Isolation.{pick_engine-position, position, is_usable}

abbrev settings : Settings
settings = record {
  cooldown_base = 2;
  cooldown_max = 300;
  isolate_window = 60;
  ratio_num = 1;
  ratio_den = 5;
}

abbrev engine : Text → EngineStatus → SearchEngine
engine name status = record {
  name = name;
  keys = codes "k" ∷ [];
  status = status;
  cooldown_until = 0;
  cooldown_level = 0;
  events = [];
  key_idx = 0;
  requests = 0;
}

abbrev no_stats : PoolStats
no_stats = record { engines_used = 0; cooldowns = 0; isolations = 0; rerouted = 0 }

abbrev pool : EngineStatus → Forge
pool status = record {
  engines = engine (codes "a") status ∷ engine (codes "b") active ∷ [];
  stats = no_stats;
}

abbrev round : ℕ → ℕ → Bool → Round
round now code captcha = reply now now now 0 (record { code = code; captcha = captcha; hosts = [] })

-- A captcha with the status 200 leaves the engine in the pool, and it is asked again at once; the
-- second one isolates it.
captcha_twice :
    (execute_dork settings
      (round 1 200 true ∷ round 2 200 true ∷ round 3 200 false ∷ [])
      (pool active)).0
    ≡ answered_by [] 1
unfolding execute_dork attempt_round record_at record_reply take_key change_at next_key pick_engine
    healthy_engines reprobe reprobe_all active_from
captcha_twice = refl

-- A refusal with the status 429 hands the search to the next engine.
refused_once :
    (execute_dork settings (round 1 429 false ∷ round 2 200 false ∷ []) (pool active)).0
    ≡ answered_by [] 1
unfolding execute_dork attempt_round record_at record_reply take_key change_at next_key pick_engine
    healthy_engines reprobe reprobe_all active_from
refused_once = refl

pick_engine-position_example :
    (pick_engine 5 (pool isolated)).0
    ≡ position (is_usable 5) (engine (codes "a") isolated ∷ engine (codes "b") active ∷ [])
pick_engine-position_example = pick_engine-position 5 (pool isolated)

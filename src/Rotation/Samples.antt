-- ===== src/Rotation/Samples.antt =====
-- A pool of three entries, and the theorems on it.
use moirax_asm.Prelude.{
  ℕ, ◌≡◌, refl, true, false, Option, none, some, [], ◌∷◌, arith, Text, codes, zero, suc, split,
  strip, mem, text_eq, lower,
}
use moirax_asm.Rotation.{Url, Stats, ProxyPool, unhealthy, pick}
use moirax_asm.Rotation.Pick.{IsSound, pick-IsSound}
use moirax_asm.Rotation.Entries.{ParsedPool, parse_pool}

abbrev failing : ℕ → Option Stats
failing n = some (record {
  oks = 0;
  fails = n;
  consecutive_fail = n;
  last_ok = false;
  last_tool = [];
  updated_at = [];
})

abbrev pool_with : (ℕ → Option Stats) → ProxyPool
pool_with health = record {
  entries = codes "http://a" ∷ codes "http://b" ∷ codes "http://c" ∷ [];
  cursor = 4;
  rows = [];
  unhealthy_after = 3;
  health = health;
  health_events = [];
  has_health_dir = true;
  flushed = 0;
}

-- Entry 1, at the cursor, has failed three times.
abbrev second_down : ProxyPool
second_down = pool_with λ i. elim i [ suc zero ↦ failing 3 | _ ↦ none ]

abbrev all_down : ProxyPool
all_down = pool_with λ i. failing 5

pick-second_down : (pick second_down).1.index ≡ 2
unfolding pick unhealthy
pick-second_down = refl

pick-IsSound_example : IsSound second_down (pick second_down)
pick-IsSound_example = pick-IsSound second_down 2 (omega arith) (unfold unhealthy in refl)

-- Each text is read as an http URL with credentials.
abbrev url_of : Text → Option Url
url_of t = some (record { scheme = codes "http"; netloc = codes "bob:hunter2@10.0.0.1:8080" })

parse_pool_run :
    parse_pool url_of (some (codes "http://a, http://b,http://a"))
    ≡ ParsedPool.pool (codes "http://a" ∷ codes "http://b" ∷ [])
unfolding parse_pool split strip mem text_eq lower
parse_pool_run = refl

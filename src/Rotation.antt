-- ===== src/Rotation.antt =====
-- pipeline/ip_rotation.py: the proxy pool, its ledger and the health of its entries.
pub mod Pick
pub mod Health
pub mod Entries
mod Samples
use moirax_asm.Prelude.{
  ℕ, zero, suc, ◌+◌, ◌-◌, ◌*◌, ◌/◌, ◌%◌, ◌≤◌, ◌<◌, max, ◌≡◌, refl, Bool, true, false, not, ◌&&◌,
  ◌||◌, Option, none, some, List, [], ◌∷◌, ◌++◌, map, arith, ltb, leb, ◌==◌, if◌then◌else◌, length,
  get_or, drop, filter, mem_ℕ, range_from, Text, is_empty, codes,
}

-- What the program reads of `urllib.parse.urlparse(url)`; `none` is its ValueError.
pub record Url : Type 0 where
  pub scheme : Text
  pub netloc : Text

-- One row of `stats`: a pool entry's outcomes.
pub record Stats : Type 0 where
  pub oks : ℕ
  pub fails : ℕ
  pub consecutive_fail : ℕ
  pub last_ok : Bool
  pub last_tool : Text
  pub updated_at : Text

-- One ledger row of `assign`; `proxy_index` is `none` for -1, the direct route.
pub record LedgerRow : Type 0 where
  pub tool : Text
  pub module_name : Text
  pub proxy_index : Option ℕ
  pub proxy : Text
  pub health_skipped : List ℕ
  pub all_unhealthy : Bool
  pub attempt : Option ℕ

pub record HealthEvent : Type 0 where
  pub proxy : Text
  pub tool : Text
  pub module_name : Text
  pub attempt : Option ℕ
  pub succeeded : Bool
  pub duration_sec : ℕ
  pub ts : Text

-- `health` is the dict of stats by index; `flushed` counts the writes of the health file.
pub record ProxyPool : Type 0 where
  pub entries : List Text
  pub cursor : ℕ
  pub rows : List LedgerRow
  pub unhealthy_after : ℕ
  pub health : ℕ → Option Stats
  pub health_events : List HealthEvent
  pub has_health_dir : Bool
  pub flushed : ℕ

abbrev pub max_events : ℕ
max_events = 500

-- `__init__`; an empty list is its ValueError.
unfoldable pub init : List Text → ℕ → Option ProxyPool
init [] after = none
init (e ∷ es) after = some (record {
  entries = e ∷ es;
  cursor = 0;
  rows = [];
  unhealthy_after = max 1 after;
  health = λ i. none;
  health_events = [];
  has_health_dir = false;
  flushed = 0;
})

abbrev pub consecutive : Option Stats → ℕ
consecutive none = 0
consecutive (some s) = s.consecutive_fail

unfoldable pub unhealthy : ProxyPool → ℕ → Bool
unhealthy p i = leb p.unhealthy_after (consecutive (p.health i))

-- What `_pick` returns, with the cursor that it leaves.
pub record Picked : Type 0 where
  pub index : ℕ
  pub skipped : List ℕ
  pub noted : Bool

-- `for i in order: if i in healthy: return i, skipped; skipped.append(i)`
unfoldable pub scan : List ℕ → List ℕ → List ℕ → Option (ℕ × List ℕ)
scan healthy skipped [] = none
scan healthy skipped (i ∷ order) =
    let rest = scan healthy (skipped ++ i ∷ []) order in
    if mem_ℕ i healthy then some (i, skipped) else rest

abbrev pub total : ProxyPool → ℕ
total p = length p.entries

unfoldable pub healthy_of : ProxyPool → List ℕ
unfolding unhealthy
healthy_of p = filter (λ i. not (unhealthy p i)) (range_from 0 (total p))

unfoldable pub order_of : ProxyPool → List ℕ
order_of p = map (λ k. (p.cursor + k) % total p) (range_from 0 (total p))

round_robin : ProxyPool → Bool → ProxyPool × Picked
round_robin p noted =
    let idx = p.cursor % total p in
    (record p { cursor = idx + 1 }, record { index = idx; skipped = []; noted = noted })

take_found : ProxyPool → Option (ℕ × List ℕ) → ProxyPool × Picked
unfolding round_robin
take_found p none = round_robin p true
take_found p (some (i, skipped)) =
    (record p { cursor = i + 1 }, record { index = i; skipped = skipped; noted = false })

unfoldable pub pick : ProxyPool → ProxyPool × Picked
unfolding healthy_of order_of round_robin take_found scan
pick p =
    if length (healthy_of p) == total p
    then round_robin p false
    else if is_empty (healthy_of p)
    then round_robin p true
    else take_found p (scan (healthy_of p) [] (order_of p))

abbrev or_fresh : Option Stats → Stats
or_fresh (some s) = s
or_fresh none = record {
  oks = 0;
  fails = 0;
  consecutive_fail = 0;
  last_ok = false;
  last_tool = [];
  updated_at = [];
}

abbrev note_outcome : Bool → Stats → Stats
note_outcome true s = record s { oks = s.oks + 1; consecutive_fail = 0 }
note_outcome false s = record s { fails = s.fails + 1; consecutive_fail = s.consecutive_fail + 1 }

flush_health : ProxyPool → ProxyPool
flush_health p = if p.has_health_dir then record p { flushed = p.flushed + 1 } else p

-- `del self.health_events[:-self.MAX_EVENTS]`
unfoldable pub cap_events : List HealthEvent → List HealthEvent
cap_events events = drop (length events - max_events) events

-- `mask_proxy` renders an entry with its credentials hidden; here it is a parameter.
module _ (mask_proxy : Text → Text) where
  -- The url and the index; `none` is the index -1.
  unfoldable pub assign : Text → Text → Bool → Option ℕ → ProxyPool → ProxyPool × Text × Option ℕ
  unfolding pick
  assign tool module_name false attempt p = (
    record p {
      rows =
          p.rows
          ++ record {
            tool = tool;
            module_name = module_name;
            proxy_index = none;
            proxy = codes "direct (tool has no proxy hook)";
            health_skipped = [];
            all_unhealthy = false;
            attempt = attempt;
          }
            ∷ [];
    },
    [],
    none,
  )
  assign tool module_name true attempt p =
      let (p', picked) = pick p in
      let url = get_or p.entries picked.index [] in
      (
        record p' {
          rows =
              p'.rows
              ++ record {
                tool = tool;
                module_name = module_name;
                proxy_index = some picked.index;
                proxy = mask_proxy url;
                health_skipped = picked.skipped;
                all_unhealthy = picked.noted;
                attempt = attempt;
              }
                ∷ [];
        },
        url,
        some picked.index,
      )

  -- `now` is the stamp of `_utc_now()`; the index -1 is `none`.
  unfoldable pub record_outcome :
      Option ℕ → Bool → ℕ → Text → Text → Option ℕ → Text → ProxyPool → ProxyPool
  unfolding flush_health
  record_outcome none ok duration tool module_name attempt now p = p
  record_outcome (some idx) ok duration tool module_name attempt now p =
      if leb (total p) idx
      then p
      else let stats = record (note_outcome ok (or_fresh (p.health idx))) {
        last_ok = ok;
        last_tool = tool;
        updated_at = now;
      } in
        let events =
          p.health_events
          ++ record {
            proxy = mask_proxy (get_or p.entries idx []);
            tool = tool;
            module_name = module_name;
            attempt = attempt;
            succeeded = ok;
            duration_sec = duration;
            ts = now;
          }
            ∷ [] in
        flush_health (record p {
          health = λ i. if i == idx then some stats else p.health i;
          health_events = cap_events events;
        })

  -- `hook_values_for_attempt`; the fragment `{"proxy_url": url}` is `some url`.
  unfoldable pub hook_values_for_attempt :
      Text → Text → Bool → ℕ → ProxyPool → ProxyPool × Option Text × Option ℕ
  unfolding assign
  hook_values_for_attempt tool module_name proxied attempt p =
      let (p', url, idx) = assign tool module_name proxied (some attempt) p in
      (p', if is_empty url then none else some url, idx)

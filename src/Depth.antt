-- ===== src/Depth.antt =====
-- pipeline/recon_depth.py: the depths of the nested DNS and vhost searches, the share of the rate
-- of each job, and the parents that a search goes on from. Settings are as their readers give them,
-- and a depth below 0, which the code writes as -1, is `none`.
pub mod Shares
pub mod Parents
mod Samples
use moirax_asm.Prelude.{
  ℕ, zero, suc, ◌+◌, ◌-◌, ◌/◌, min, max, Bool, true, false, not, ◌&&◌, ◌||◌, Option, none, some,
  List, [], ◌∷◌, ◌++◌, map, filter, any, length, take, count, if◌then◌else◌, ltb, leb, ◌==◌, Text,
  text_eq, mem, is_empty, norm, strip, lower, ends_with, contains, codes,
}
use moirax_asm.Prelude.Dict.{Dict, lookup, keys}
use moirax_asm.Hosts.{normalize_fqdn, drop_last}

-- A setting that is missing, an empty text or no number; `int(raw)` of the others.
pub data Setting : Type 0 where
  missing : Setting
  not_a_number : Setting
  number : ℕ → Setting

-- What a reader makes of a primary setting, its fallback and the floor.
depth_of : ℕ → Setting → ℕ
depth_of lo (number n) = n
depth_of lo s = lo

unfoldable pub clamp_depth : ℕ → ℕ → Setting → Setting → ℕ
unfolding depth_of
clamp_depth lo hi missing fallback = max lo (min (depth_of lo fallback) hi)
clamp_depth lo hi primary fallback = max lo (min (depth_of lo primary) hi)

-- The fallback of `recon_depth` is `ffuf_depth`, and `ffuf_depth` has none.
unfoldable pub clamp_recon_depth : ℕ → ℕ → Setting → Setting → ℕ
clamp_recon_depth lo hi recon_depth ffuf_depth = clamp_depth lo hi recon_depth ffuf_depth

unfoldable pub clamp_ffuf_depth : ℕ → ℕ → Setting → ℕ
clamp_ffuf_depth lo hi ffuf_depth = clamp_depth lo hi ffuf_depth missing

int_or : ℕ → Setting → ℕ
int_or default (number n) = n
int_or default s = default

-- The settings `_min`, `_max` and the count itself.
unfoldable pub clamp_dnsx_parallel_parents : Setting → Setting → Setting → ℕ
unfolding int_or
clamp_dnsx_parallel_parents least most wanted =
    let lo = max 1 (int_or 1 least) in
    let hi = max lo (int_or 8 most) in max lo (min hi (int_or lo wanted))

-- `want` is the clamped count of parents.
unfoldable pub dnsx_parent_worker_count : ℕ → ℕ → ℕ → ℕ
dnsx_parent_worker_count want parent_count current_qps =
    max 1 (min want (min (max 1 parent_count) (max 1 current_qps)))

unfoldable pub dnsx_job_qps : ℕ → ℕ → ℕ
dnsx_job_qps current_qps workers = max 1 (current_qps / max 1 workers)

unfoldable pub child_depth : Text → Text → Option ℕ
unfolding norm
child_depth host apex =
    let h = norm host in
    let a = norm apex in
    let rel = drop_last (length a + 1) h in
    if is_empty h || is_empty a
    then none
    else if text_eq h a
    then some 0
    else if not (ends_with h (b'.' ∷ a))
    then none
    else if is_empty rel || contains rel (codes "..")
    then none
    else some (count (λ c. c == b'.') rel + 1)

-- A row of the resolved hosts: its addresses without empty ones, and whether it says unresolved.
pub record HostRow : Type 0 where
  pub ips : List Text
  pub unresolved : Bool

abbrev pub is_depth : ℕ → Option ℕ → Bool
is_depth n none = false
is_depth n (some m) = m == n

abbrev capped : ℕ → List Text → List Text
capped cap out = if not (cap == 0) && ltb cap (length out) then take cap out else out

is_parent : Text → ℕ → List Text → Text × HostRow → Bool
is_parent apex want wild (host, row) =
    is_depth want (child_depth host apex)
    && not (is_empty row.ips)
    && not (any (λ ip. mem ip wild) row.ips)

-- `resolved` is sorted by the host, `wild` the set of the wildcard addresses.
unfoldable pub recursion_parents : Dict HostRow → Text → ℕ → List Text → ℕ → List Text
unfolding is_parent
recursion_parents resolved apex level wild cap =
    if leb level 1
    then apex ∷ []
    else capped cap (keys (filter (is_parent apex (level - 1) wild) resolved))

-- normalize_fqdn(raw) or (raw or "").strip().lower().rstrip(".")
or_norm : Text → Option Text → Text
unfolding norm
or_norm raw none = norm raw
or_norm raw (some host) = host

unfoldable pub token_of : Text → Text
unfolding or_norm
token_of raw = or_norm raw (normalize_fqdn raw)

abbrev pub is_between : ℕ → Option ℕ → Bool
is_between depth none = false
is_between depth (some extra) = leb 1 extra && ltb extra depth

unfoldable pub add_token : List Text → Text → List Text
add_token out host =
    let token = token_of host in
    if not (is_empty token) && not (mem token out) then out ++ token ∷ [] else out

unfoldable pub add_bases : Text → ℕ → List Text → List Text → List Text
add_bases apex depth out [] = out
add_bases apex depth out (raw ∷ names) =
    let token = token_of raw in
    let with_it = add_bases apex depth (add_token out token) names in
    let without = add_bases apex depth out names in
    if is_between depth (child_depth token apex) then with_it else without

unfoldable pub vhost_bases : Text → List Text → ℕ → List Text
vhost_bases apex names depth =
    let apex_n = token_of apex in
    if is_empty apex_n || ltb depth 1
    then []
    else add_bases apex_n depth (add_token [] apex_n) names

is_dead : Option HostRow → Bool
is_dead none = false
is_dead (some row) = row.unresolved && is_empty row.ips

unfoldable pub add_driven :
    Text → ℕ → Dict HostRow → List Text → List Text → List Text → List Text → List Text
unfolding is_dead
add_driven apex depth resolved skip wild out [] = out
add_driven apex depth resolved skip wild out (raw ∷ names) =
    let host = token_of raw in
    let without = add_driven apex depth resolved skip wild out names in
    let with_it = add_driven apex depth resolved skip wild (out ++ host ∷ []) names in
    if is_empty host || mem host out || mem host skip || mem host wild
    then without
    else if not (is_between depth (child_depth host apex))
    then without
    else if is_dead (lookup host resolved)
    then without
    else with_it

-- normalize_fqdn(x) or str(x).strip().lower()
or_lower : Text → Option Text → Text
or_lower raw none = lower (strip raw)
or_lower raw (some host) = host

abbrev named : List Text → List Text
named ts = map (λ t. or_lower t (normalize_fqdn t)) ts

unfoldable pub vhost_driven_parents :
    Text → ℕ → Dict HostRow → List Text → List Text → List Text → ℕ → List Text
unfolding or_lower
vhost_driven_parents apex depth resolved extra_names already wildcard_names cap = capped cap (
    add_driven (token_of apex) depth resolved (token_of apex ∷ named already) (named wildcard_names)
      [] (extra_names ++ keys resolved))

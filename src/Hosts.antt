-- ===== src/Hosts.antt =====
-- pipeline/hostsutil.py: host names, the seeds of a scope, and which resolved hosts are kept. The
-- readers of `ipaddress` are those of the gate.
pub mod Keep
pub mod Seeds
pub mod Wildcards
mod Samples
use moirax_asm.Prelude.{
  ℕ, zero, suc, ◌+◌, ◌-◌, Bool, true, false, not, ◌&&◌, ◌||◌, Option, none, some, is_none, List, [],
  ◌∷◌, ◌++◌, filter, all, any, length, take, drop, if◌then◌else◌, leb, ◌==◌, mem_ℕ, Text, text_eq,
  mem, is_empty, is_upper, norm, strip, lower, lstrip, rstrip, is_dot, split, starts_with,
  ends_with, contains, codes,
}
use moirax_asm.Prelude.Names.{is_label, is_dotted_name, matches_asn_re}
use moirax_asm.Scope.{NetLib, ScopeGate, Reason, validate_candidate}

-- `_LABEL` and `_FQDN` are the patterns of scope.py for small letters: the token is in lower case.
unfoldable pub normalize_label : Text → Option Text
unfolding norm
normalize_label raw =
    let token = norm raw in
    if starts_with token (codes "#") || is_empty token
    then none
    else if mem_ℕ b'.' token
    then none
    else if not (is_label token)
    then none
    else some token

unfoldable pub normalize_fqdn : Text → Option Text
unfolding norm
normalize_fqdn raw =
    let host = norm raw in if is_empty host || not (is_dotted_name host) then none else some host

-- s[:-n] for n above 0.
abbrev pub drop_last : ℕ → Text → Text
drop_last n s = take (length s - n) s

first_part : List Text → Text
first_part [] = []
first_part (p ∷ ps) = p

-- The loop over the parts; a set beside the list holds the same labels.
add_label : List Text → Option Text → List Text
add_label found none = found
add_label found (some label) =
    if not (is_empty label) && not (mem label found) then found ++ label ∷ [] else found

unfoldable pub add_labels : List Text → List Text → List Text
unfolding add_label
add_labels found [] = found
add_labels found (part ∷ parts) = add_labels (add_label found (normalize_label part)) parts

unfoldable pub labels_from_host : Text → Text → List Text
unfolding norm first_part
labels_from_host host seed =
    let host_n = norm host in
    let seed_n = norm seed in
    if text_eq host_n seed_n
    then []
    else add_labels [] (
        split b'.' (
          if ends_with host_n (b'.' ∷ seed_n)
          then drop_last (length seed_n + 1) host_n
          else first_part (split b'.' host_n)))

module _ {Ip Net : Type 0} (L : NetLib Ip Net) (g : ScopeGate Net) where
  -- An include that is skipped: nothing, an AS number, a network or an address.
  abbrev pub is_skipped : Text → Bool
  is_skipped token =
      is_empty token
      || matches_asn_re token
      || not (is_none (L.ip_network token))
      || not (is_none (L.ip_address token))

  abbrev pub base_of : Text → Text
  base_of token = if starts_with token (codes "*.") then drop 2 token else token

  unfoldable pub add_seeds : List Text → List Text → List Text
  unfolding norm
  add_seeds seeds [] = seeds
  add_seeds seeds (item ∷ items) =
      let token = norm item in
      let skip = add_seeds seeds items in
      let more = add_seeds (seeds ++ base_of token ∷ []) items in
      if is_skipped token
      then skip
      else if not (is_empty (base_of token)) && not (mem (base_of token) seeds)
      then more
      else skip

  abbrev pub is_above : Text → Text → Bool
  is_above wanted seed = text_eq seed wanted || ends_with wanted (b'.' ∷ seed)

  -- The verdict on a target that no seed is above.
  unfoldable pub only_wanted : Text → Option (Bool × Reason) → Option (List Text)
  only_wanted wanted none = none
  only_wanted wanted (some (true, reason)) =
      some (if not (is_empty wanted) then wanted ∷ [] else [])
  only_wanted wanted (some (false, reason)) = some []

  -- `fuel` is that of `validate_candidate`.
  unfoldable pub wildcard_seeds : ℕ → Option Text → Option (List Text)
  unfolding only_wanted norm
  wildcard_seeds fuel none = some (add_seeds [] g.includes)
  wildcard_seeds fuel (some target) =
      let seeds = add_seeds [] g.includes in
      let wanted = norm target in
      let matched = filter (is_above wanted) seeds in
      if is_empty target
      then some seeds
      else if not (is_empty matched)
      then some matched
      else only_wanted wanted (validate_candidate L g fuel wanted)

abbrev filled : List Text → List Text
filled ts = filter (λ t. not (is_empty t)) ts

unfoldable pub is_wildcard_only : List Text → List Text → Bool
is_wildcard_only ips wildcard_ips =
    let wild = filled wildcard_ips in
    let have = filled ips in
    if is_empty have || is_empty wild then false else all (λ ip. mem ip wild) have

-- The sources that are kept whatever they resolve to.
abbrev pub is_kept_source : Option Text → Bool
is_kept_source none = false
is_kept_source (some s) =
    text_eq s (codes "known") || text_eq s (codes "passive") || text_eq s (codes "ffuf")

unfoldable pub keep_resolved_host :
    Text → List Text → List Text → Text → Option Text → List Text → Bool
unfolding norm
keep_resolved_host host ips wildcard_ips apex source independent =
    let h = norm host in
    let a = norm apex in
    if is_empty h
    then false
    else if not (is_empty a) && text_eq h a
    then true
    else if is_kept_source source
    then true
    else if mem h independent
    then true
    else if is_empty (filled ips)
    then false
    else not (is_wildcard_only ips wildcard_ips)

-- What `asset_discovery_source` and `keep_asset_row` read of a row; empty texts are missing values.
pub record AssetRow : Type 0 where
  pub host : Text
  pub ips : List Text
  pub ip : Text
  pub sources : List Text
  pub source : Text

abbrev pub independent_sources : List Text
independent_sources =
    codes "crtsh"
    ∷ codes "subfinder"
    ∷ codes "amass"
    ∷ codes "findomain"
    ∷ codes "assetfinder"
    ∷ codes "assetfinder-related"
    ∷ codes "passive"
    ∷ codes "passive-recon"
    ∷ codes "waybackurls"
    ∷ codes "gau"
    ∷ codes "chaos"
    ∷ codes "ffuf"
    ∷ codes "httpx"
    ∷ codes "known"
    ∷ []

abbrev is_independent : Text → Bool
is_independent raw =
    not (is_empty raw)
    && (mem (lower (strip raw)) independent_sources
        || starts_with (lower (strip raw)) (codes "psv"))

unfoldable pub asset_discovery_source : AssetRow → Text
asset_discovery_source row =
    if any is_independent row.sources
    then codes "known"
    else if not (is_empty row.source)
    then row.source
    else codes "brute"

unfoldable pub row_ips : AssetRow → List Text
row_ips row =
    if not (is_empty row.ips)
    then filled row.ips
    else if not (is_empty row.ip)
    then row.ip ∷ []
    else []

unfoldable pub keep_asset_row : AssetRow → List Text → Text → Bool
unfolding norm
keep_asset_row row wildcard_ips apex =
    keep_resolved_host (norm row.host) (row_ips row) wildcard_ips apex
      (some (asset_discovery_source row)) []

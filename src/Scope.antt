-- ===== src/Scope.antt =====
-- pipeline/scope.py: the authorization gate. `ipaddress` and `urllib.parse` are parameters.
pub mod Hosts
pub mod Addresses
pub mod Candidates
pub mod Document
mod Samples
use moirax_asm.Prelude.{
  ℕ, zero, suc, Bool, true, false, not, ◌&&◌, ◌||◌, Option, none, some, List, [], ◌∷◌, ◌++◌, map,
  if◌then◌else◌, Text, text_eq, is_empty, codes, is_none, mem, drop, any, strip, lower, lstrip,
  rstrip, is_dot, starts_with, ends_with, contains, ◌≡◌,
}
use moirax_asm.Prelude.Names.{matches_asn_re}

-- What the gate uses of the standard library: `ip_address(text)` and `ip_network(text,
-- strict=False)` with their ValueError, `ip_network(address)`, the test that an address is of a
-- network's version and in it, and `urlparse(text).hostname`: `none` is
-- its ValueError, and `some none` where there is no host.
pub record NetLib (Ip Net : Type 0) : Type 0 where
  pub ip_address : Text → Option Ip
  pub ip_network : Text → Option Net
  pub network_of : Ip → Net
  pub is_in : Ip → Net → Bool
  pub hostname : Text → Option (Option Text)

pub data Reason : Type 0 where
  empty_candidate url_has_no_host excluded_ip in_scope_ip ip_not_included no_ip_includes : Reason
  excluded_host in_scope_host host_not_included : Reason
  not_listed : Text → Reason
  cloud_wildcard : Text → Reason

pub record ScopeGate (Net : Type 0) : Type 0 where
  pub includes : List Text
  pub excludes : List Text
  pub include_networks : List Net
  pub exclude_networks : List Net
  pub rfc1918 : List Net
  pub loopback : List Net
  pub link_local : List Net
  pub cloud_suffixes : List Text

-- A rejected candidate in the log file.
pub record Rejection : Type 0 where
  pub candidate : Text
  pub reason : Reason

unfoldable pub cloud_suffix : Text → List Text → Option Text
cloud_suffix host [] = none
cloud_suffix host (suffix ∷ rest) =
    let more = cloud_suffix host rest in
    if text_eq host suffix || ends_with host (b'.' ∷ suffix) then some suffix else more

unfoldable pub host_match : Text → Text → Bool
host_match host pattern =
    if starts_with pattern (codes "*.")
    then text_eq host (drop 2 pattern) || ends_with host (b'.' ∷ drop 2 pattern)
    else text_eq host pattern

module _ {Ip Net : Type 0} (L : NetLib Ip Net) where
  unfoldable pub networks_from : List Text → List Net
  networks_from [] = []
  networks_from (item ∷ rest) =
      let more = networks_from rest in
      elim (L.ip_network item) [
        | some net ↦ net ∷ more
        | none ↦ elim (L.ip_address item) [ some ip ↦ L.network_of ip ∷ more | none ↦ more ]
      ]

  unfoldable pub in_any : Ip → List Net → Bool
  in_any ip [] = false
  in_any ip (net ∷ nets) = if L.is_in ip net then true else in_any ip nets

  -- An entry is compared as a host unless it is an AS number, a network or an address.
  abbrev names_host : Text → Bool
  names_host token =
      not (matches_asn_re token) && is_none (L.ip_network token) && is_none (L.ip_address token)

  abbrev token_of : Text → Text
  token_of entry = rstrip is_dot (lower (strip entry))

  matches_entry : Text → Text → Bool
  matches_entry host entry = names_host (token_of entry) && host_match host (token_of entry)

  unfoldable pub host_matches_any : Text → List Text → Bool
  unfolding matches_entry
  host_matches_any host entries = any (matches_entry (rstrip is_dot (lower host))) entries

  module _ (g : ScopeGate Net) where
    private_reason : Ip → List (List Net × Text) → Option Text
    private_reason ip [] = none
    private_reason ip ((nets, label) ∷ rest) =
        if in_any ip nets && not (in_any ip g.include_networks)
        then some label
        else private_reason ip rest

    -- After the private ranges.
    public_verdict : Ip → Bool × Reason
    public_verdict ip =
        if not (is_empty g.include_networks) && in_any ip g.include_networks
        then (true, in_scope_ip)
        else if not (is_empty g.include_networks)
        then (false, ip_not_included)
        else (false, no_ip_includes)

    unfoldable pub validate_ip : Ip → Bool × Reason
    unfolding private_reason public_verdict
    validate_ip ip =
        if in_any ip g.exclude_networks
        then (false, excluded_ip)
        else elim (private_reason ip (
            (g.rfc1918, codes "RFC1918")
            ∷ (g.loopback, codes "loopback")
            ∷ (g.link_local, codes "link-local")
            ∷ [])) [ some label ↦ (false, not_listed label) | none ↦ public_verdict ip ]

    cloud_verdict : Text → Option Text → Bool × Reason
    cloud_verdict host none =
        if host_matches_any host g.includes
        then (true, in_scope_host)
        else (false, host_not_included)
    cloud_verdict host (some hit) =
        if not (host_matches_any host g.includes)
        then (false, cloud_wildcard hit)
        else (true, in_scope_host)

    unfoldable pub validate_host : Text → Bool × Reason
    unfolding cloud_verdict
    validate_host host =
        if host_matches_any host g.excludes
        then (false, excluded_host)
        else cloud_verdict host (cloud_suffix host g.cloud_suffixes)

    -- `none` is the ValueError of urlparse, which is not caught. A URL's host is validated in turn,
    -- which takes fuel; fuel that runs out is `none` too, but 2 is enough, since a host is no URL.
    unfoldable pub validate_candidate : ℕ → Text → Option (Bool × Reason)
    validate_candidate zero candidate = none
    validate_candidate (suc fuel) candidate =
        let value = strip candidate in
        if is_empty value
        then some (false, empty_candidate)
        else if contains value (codes "://")
        then elim (L.hostname value) [
          | none ↦ none
          | some none ↦ some (false, url_has_no_host)
          | some (some host) ↦
              if is_empty host then some (false, url_has_no_host) else validate_candidate fuel host
        ]
        else elim (L.ip_address value) [
          | some ip ↦ some (validate_ip ip)
          | none ↦ some (validate_host (rstrip is_dot (lower value)))
        ]

    -- The answer, and the log with the rejection.
    abbrev answer : Text → List Rejection → Option (Bool × Reason) → Option (Bool × List Rejection)
    answer candidate log none = none
    answer candidate log (some (true, reason)) = some (true, log)
    answer candidate log (some (false, reason)) =
        some (false, log ++ record { candidate = candidate; reason = reason } ∷ [])

    unfoldable pub enforce : ℕ → Text → List Rejection → Option (Bool × List Rejection)
    enforce fuel candidate log = answer candidate log (validate_candidate fuel candidate)

  -- `__init__`, over the entries of the document, the networks of the settings and the suffixes.
  unfoldable pub gate_of :
      List Text → List Text → List Net → List Net → List Net → List Text → ScopeGate Net
  unfolding networks_from
  gate_of includes excludes rfc1918 loopback link_local suffixes = record {
    includes = map strip includes;
    excludes = map strip excludes;
    include_networks = networks_from (map strip includes);
    exclude_networks = networks_from (map strip excludes);
    rfc1918 = rfc1918;
    loopback = loopback;
    link_local = link_local;
    cloud_suffixes = map (λ s. lstrip is_dot (lower s)) suffixes;
  }

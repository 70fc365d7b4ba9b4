-- ===== src/Hosts/Samples.antt =====
-- Hosts of a small scope, and the theorems on them.
use moirax_asm.Prelude.{
  ◌≡◌, refl, false, contains, if◌then◌else◌, arith, Bool-cases, inl, inr, not, ◌&&◌, ◌||◌, none,
  some, List, [], ◌∷◌, any, Text, text_eq, mem, is_empty, norm, strip, lower, lstrip, rstrip,
  starts_with, ends_with, codes,
}
use moirax_asm.Prelude.Names.{matches_asn_re}
use moirax_asm.Scope.{
  NetLib, ScopeGate, validate_candidate, validate_host, host_matches_any, cloud_suffix, host_match,
}
use moirax_asm.Hosts.{keep_resolved_host, is_kept_source, wildcard_seeds, add_seeds, only_wanted}
use moirax_asm.Hosts.Wildcards.{AreSeedsFor, wildcard_seeds-AreSeedsFor}
use moirax_asm.Hosts.Keep.{is_own, keep_resolved_host_lem}

abbrev wild : List Text
wild = codes "10.0.0.9" ∷ []

keep_resolved_host_lem_example :
    keep_resolved_host (codes "x.a.com") (codes "10.0.0.9" ∷ []) wild (codes "a.com") none [] ≡ (
      not (is_empty (norm (codes "x.a.com")))
      && (text_eq (norm (codes "x.a.com")) (norm (codes "a.com"))
          || is_kept_source none
          || mem (norm (codes "x.a.com")) []
          || any (is_own wild) (codes "10.0.0.9" ∷ [])))
keep_resolved_host_lem_example =
    keep_resolved_host_lem (codes "x.a.com") (codes "10.0.0.9" ∷ []) wild (codes "a.com") none []

-- No text is an address.
abbrev no_addresses : NetLib Text Text
no_addresses = record {
  ip_address = λ t. none;
  ip_network = λ t. none;
  network_of = λ ip. ip;
  is_in = λ ip net. false;
  hostname = λ t. if contains t (codes "[") then none else some none;
}

abbrev gate : ScopeGate Text
gate = record {
  includes = codes "*.a.com" ∷ codes "b.com" ∷ [];
  excludes = [];
  include_networks = [];
  exclude_networks = [];
  rfc1918 = [];
  loopback = [];
  link_local = [];
  cloud_suffixes = [];
}

seeds_of_x : wildcard_seeds no_addresses gate 9 (some (codes "x.a.com")) ≡ some (codes "a.com" ∷ [])
unfolding wildcard_seeds add_seeds norm strip lower lstrip rstrip starts_with ends_with text_eq mem
    matches_asn_re
seeds_of_x = refl

-- A target outside the scope, which the gate refuses.
seeds_of_c : wildcard_seeds no_addresses gate 2 (some (codes "c.com")) ≡ some []
unfolding wildcard_seeds add_seeds norm strip lower lstrip rstrip starts_with ends_with text_eq mem
    matches_asn_re validate_candidate validate_host host_matches_any cloud_suffix contains
    only_wanted host_match
seeds_of_c = refl

no_hosts :
    (url host : Text)
    → no_addresses.hostname url ≡ some (some host)
    → contains (strip host) (codes "://") ≡ false
no_hosts url host e = elim (Bool-cases (contains url (codes "["))) [
  | inl broken ↦ absurd (ground (arith, e, broken))
  | inr plain ↦ absurd (ground (arith, e, plain))
]

wildcard_seeds-AreSeedsFor_example :
    AreSeedsFor no_addresses gate
      (norm (codes "x.a.com"))
      (wildcard_seeds no_addresses gate 2 (some (codes "x.a.com")))
wildcard_seeds-AreSeedsFor_example =
    wildcard_seeds-AreSeedsFor no_addresses gate no_hosts (codes "x.a.com") refl

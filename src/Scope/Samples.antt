-- ===== src/Scope/Samples.antt =====
-- A gate over two entries, with stand-ins for the standard library, and the theorems on it.
use moirax_asm.Prelude.{
  ◌≡◌, ◌↔◌, false, strip, contains, Bool-cases, inl, inr, true, Option, none, some, [], ◌∷◌, Text,
  text_eq, drop, is_digit, if◌then◌else◌, codes, arith,
}
use moirax_asm.Prelude.Json.{Value, str, list, dict, nil, cons, end, field}
use moirax_asm.Scope.{NetLib, ScopeGate, host_match, enforce}
use moirax_asm.Scope.Hosts.{Covers, host_match_iff}
use moirax_asm.Scope.Candidates.{enforce_total, IsAnswered}
use moirax_asm.Scope.Document.{IsVetted, load, load-IsVetted}

-- An address is a text that starts with a digit, a network is its first characters.
abbrev address : Text → Option Text
address [] = none
address (c ∷ s) = if is_digit c then some (c ∷ s) else none

-- A host that is a URL again is no host.
abbrev no_url : Text → Option (Option Text)
no_url host = if contains (strip host) (codes "://") then some none else some (some host)

-- The text after `http://`; an error for a text of no character.
abbrev host_part : Text → Option (Option Text)
host_part [] = none
host_part (c ∷ s) = no_url (drop 6 s)

abbrev lib : NetLib Text Text
lib = record {
  ip_address = address;
  ip_network = address;
  network_of = λ ip. ip;
  is_in = λ ip net. text_eq ip net;
  hostname = host_part;
}

no_url-plain :
    (h host : Text) → no_url h ≡ some (some host) → contains (strip host) (codes "://") ≡ false
no_url-plain h host e = elim (Bool-cases (contains (strip h) (codes "://"))) [
  | inl url ↦ absurd (ground (arith, e, url))
  | inr plain ↦ let q : h ≡ host = ground (arith, e, plain) in rw (← q) plain
]

host_part-plain :
    (url host : Text)
    → host_part url ≡ some (some host)
    → contains (strip host) (codes "://") ≡ false
host_part-plain [] host e = absurd (ground (arith, e))
host_part-plain (c ∷ s) host e = no_url-plain (drop 6 s) host e

abbrev sample_gate : ScopeGate Text
sample_gate = record {
  includes = codes "*.a.com" ∷ codes "10.0.0.1" ∷ [];
  excludes = codes "b.a.com" ∷ [];
  include_networks = codes "10.0.0.1" ∷ [];
  exclude_networks = [];
  rfc1918 = codes "10.0.0.1" ∷ codes "10.0.0.2" ∷ [];
  loopback = [];
  link_local = [];
  cloud_suffixes = codes "cloud.com" ∷ [];
}

host_match_iff_example :
    (host_match (codes "x.a.com") (codes "*.a.com") ≡ true)
    ↔ Covers (codes "*.a.com") (codes "x.a.com")
host_match_iff_example = host_match_iff (codes "x.a.com") (codes "*.a.com")

enforce_total_example :
    IsAnswered lib sample_gate
      (codes "http://x.a.com")
      []
      (enforce lib sample_gate 2 (codes "http://x.a.com") [])
enforce_total_example = enforce_total lib sample_gate host_part-plain 0 (codes "http://x.a.com") []

-- The document with one include.
abbrev document : Value
document = dict (
    field (codes "engagement")
      (dict (
        field (codes "name") (str (codes "e"))
          (field (codes "authorization_date") (str (codes "2026-01-01")) end)))
      (field (codes "includes") (list (cons (str (codes "*.a.com")) nil)) end))

load-IsVetted_example :
    IsVetted lib [] [] [] [] (load lib [] [] [] [] (λ raw. some document) (some (codes "yaml")))
load-IsVetted_example = load-IsVetted lib [] [] [] [] (λ raw. some document) (some (codes "yaml"))

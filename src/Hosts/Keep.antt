-- ===== src/Hosts/Keep.antt =====
-- pipeline/hostsutil.py, `keep_resolved_host` and `keep_asset_row`: which hosts a scan keeps.
use moirax_asm.Prelude.{
  any-append, ◌≡◌, refl, ap, inl, inr, Bool, true, false, not, ◌&&◌, ◌||◌, Option, List, [], ◌∷◌,
  ◌++◌, all, any, Text, text_eq, mem, is_empty, norm, arith, Bool-cases,
}
use moirax_asm.Hosts.{filled, is_wildcard_only, keep_resolved_host, is_kept_source}

-- An address that is not empty and not a wildcard address.
abbrev pub is_own : List Text → Text → Bool
is_own wildcard_ips ip = not (is_empty ip) && not (mem ip wildcard_ips)

mem-filled : (ip : Text) (ts : List Text) → is_empty ip ≡ false → mem ip (filled ts) ≡ mem ip ts
unfolding mem text_eq
mem-filled ip [] h = refl
mem-filled [] (t ∷ ts) h = absurd (ground arith)
mem-filled (c ∷ ip) ([] ∷ ts) h = mem-filled (c ∷ ip) ts h
mem-filled (c ∷ ip) ((d ∷ t) ∷ ts) h =
    ap (λ (b : Bool). text_eq (c ∷ ip) (d ∷ t) || b) (mem-filled (c ∷ ip) ts h)

own-filled :
    (wild ips : List Text)
    → any (is_own wild) ips ≡ not (all (λ ip. mem ip (filled wild)) (filled ips))
own-filled wild [] = refl
own-filled wild ([] ∷ ips) = own-filled wild ips
own-filled wild ((c ∷ ip) ∷ ips) =
    ground (arith, own-filled wild ips, mem-filled (c ∷ ip) wild refl)

no_wild-own :
    (wild ips : List Text)
    → is_empty (filled wild) ≡ true
    → any (is_own wild) ips ≡ not (is_empty (filled ips))
unfolding mem
no_wild-own wild [] h = refl
no_wild-own wild ([] ∷ ips) h = no_wild-own wild ips h
no_wild-own wild ((c ∷ ip) ∷ ips) h =
    ground (arith, mem-filled (c ∷ ip) wild refl, nothing_in (filled wild) (c ∷ ip) h)
  where
    nothing_in : (ts : List Text) (t : Text) → is_empty ts ≡ true → mem t ts ≡ false
    nothing_in [] t e = refl
    nothing_in (u ∷ ts) t e = absurd (ground arith)

resolved_own :
    (wild ips : List Text)
    → (not (is_empty (filled ips)) && not (is_wildcard_only ips wild)) ≡ any (is_own wild) ips
unfolding is_wildcard_only
resolved_own wild ips = elim (Bool-cases (is_empty (filled wild))) [
  | inl e ↦ rw e (ground (arith, no_wild-own wild ips e))
  | inr e ↦ rw (e, own-filled wild ips) (ground (arith, nothing_kept (filled ips)))
]
  where
    nothing_kept :
        (ts : List Text) → is_empty ts ≡ true → all (λ ip. mem ip (filled wild)) ts ≡ true
    nothing_kept [] e = refl
    nothing_kept (t ∷ ts) e = absurd (ground arith)

apex_named : (h a : Text) → is_empty h ≡ false → (not (is_empty a) && text_eq h a) ≡ text_eq h a
unfolding text_eq
apex_named [] a e = absurd (ground arith)
apex_named (c ∷ h) [] e = refl
apex_named (c ∷ h) (d ∷ a) e = refl

-- A host is kept exactly if it has a name and is the apex, has a source that is kept, was found
-- independently, or has an address of its own: one that is no wildcard address.
pub keep_resolved_host_lem :
    (host : Text) (ips wildcard_ips : List Text) (apex : Text) (source : Option Text)
    (independent : List Text)
    → keep_resolved_host host ips wildcard_ips apex source independent ≡ (
        not (is_empty (norm host))
        && (text_eq (norm host) (norm apex)
            || is_kept_source source
            || mem (norm host) independent
            || any (is_own wildcard_ips) ips))
unfolding keep_resolved_host
keep_resolved_host_lem host ips wildcard_ips apex source independent =
    ground (arith, resolved_own wildcard_ips ips, apex_named (norm host) (norm apex))

-- A host that is kept for its addresses is kept when it resolves to more of them.
pub keep_resolved_host-append :
    (host : Text) (ips more wildcard_ips : List Text) (apex : Text) (source : Option Text)
    (independent : List Text)
    → keep_resolved_host host ips wildcard_ips apex source independent ≡ true
    → keep_resolved_host host (ips ++ more) wildcard_ips apex source independent ≡ true
keep_resolved_host-append host ips more wildcard_ips apex source independent h = ground (
  arith,
  keep_resolved_host_lem host ips wildcard_ips apex source independent,
  keep_resolved_host_lem host (ips ++ more) wildcard_ips apex source independent,
  any-append (is_own wildcard_ips) ips more,
)

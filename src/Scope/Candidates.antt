-- ===== src/Scope/Candidates.antt =====
-- pipeline/scope.py, `validate_candidate` and `enforce`.
use moirax_asm.Prelude.{
  ℕ, suc, ◌≡◌, ◌⊎◌, refl, not, ◌&&◌, is_none, Option, none, Bool, true, false, some, List, [], ◌∷◌,
  ◌++◌, is_empty, arith, Bool-cases, Option-cases, inl, inr, Text, strip, lower, rstrip, is_dot,
  contains, codes, if◌then◌else◌,
}
use mathlib.Core.List.{append-nil}
use moirax_asm.Scope.{
  answer, empty_candidate, url_has_no_host, NetLib, ScopeGate, Reason, Rejection,
  validate_candidate, validate_ip, validate_host, enforce,
}

module _ {Ip Net : Type 0} (L : NetLib Ip Net) (g : ScopeGate Net) where
  -- urlparse raises its ValueError on the candidate, which is read as a URL.
  abbrev pub raises : Text → Bool
  raises candidate =
      not (is_empty (strip candidate))
      && (contains (strip candidate) (codes "://") && is_none (L.hostname (strip candidate)))

  -- The verdict on a candidate that is not a URL.
  plain_total :
      (fuel : ℕ) (candidate : Text)
      → contains (strip candidate) (codes "://") ≡ false
      → (v : Bool × Reason) × (validate_candidate L g (suc fuel) candidate ≡ some v)
  unfolding validate_candidate
  plain_total fuel candidate plain = elim (Bool-cases (is_empty (strip candidate))) [
    | inl blank ↦ ((false, empty_candidate), rw blank refl)
    | inr text ↦ elim (Option-cases (L.ip_address (strip candidate))) [
      | inl no_ip ↦ (
        validate_host L g (rstrip is_dot (lower (strip candidate))),
        rw (text, plain, no_ip) refl,
      )
      | inr (ip, e) ↦ (validate_ip L g ip, rw (text, plain, e) refl)
    ]
  ]

  -- The outcome of `enforce`: urlparse raised, or the answer, with the log.
  abbrev pub IsAnswered : Text → List Rejection → Option (Bool × List Rejection) → Type 0
  IsAnswered candidate log o =
      ((raises candidate ≡ true) × (o ≡ none))
      ⊎ ((raises candidate ≡ false)
          × (allowed : Bool) × (reason : Reason) × (o
              ≡ some (
                allowed,
                log
                    ++ (if allowed
                        then []
                        else record { candidate = candidate; reason = reason } ∷ []),
              )))

  answered :
      (candidate : Text) (log : List Rejection) (v : Bool × Reason)
      → (allowed : Bool) × (reason : Reason) × (answer L g candidate log (some v)
          ≡ some (
            allowed,
            log ++ (if allowed then [] else record { candidate = candidate; reason = reason } ∷ []),
          ))
  answered candidate log (true, reason) = (true, reason, rw append-nil refl)
  answered candidate log (false, reason) = (false, reason, refl)

  answered_by :
      (candidate : Text) (log : List Rejection) (o : Option (Bool × Reason)) (v : Bool × Reason)
      → o ≡ some v
      → raises candidate ≡ false
      → IsAnswered candidate log (answer L g candidate log o)
  answered_by candidate log o v e calm =
      let (allowed, reason, q) = answered candidate log v in inr (calm, allowed, reason, rw e q)

  url_total :
      ((url host : Text)
        → L.hostname url ≡ some (some host)
        → contains (strip host) (codes "://") ≡ false)
      → (fuel : ℕ) (candidate : Text) → is_empty (strip candidate) ≡ false
      → contains (strip candidate) (codes "://") ≡ true
      → (o : Option (Option Text)) → L.hostname (strip candidate) ≡ o
      → ((raises candidate ≡ true) × (validate_candidate L g (suc (suc fuel)) candidate ≡ none))
        ⊎ ((raises candidate ≡ false)
            × (v : Bool × Reason) × (validate_candidate L g (suc (suc fuel)) candidate ≡ some v))
  unfolding validate_candidate
  url_total no_url fuel candidate text url none e =
      inl (rw (text, url, e) refl, rw (text, url, e) refl)
  url_total no_url fuel candidate text url (some none) e =
      inr (rw (text, url, e) refl, (false, url_has_no_host), rw (text, url, e) refl)
  url_total no_url fuel candidate text url (some (some host)) e =
      let (v, q) = plain_total fuel host (no_url (strip candidate) host e) in
      elim (Bool-cases (is_empty host)) [
        | inl gone ↦
            inr (rw (text, url, e) refl, (false, url_has_no_host), rw (text, url, e, gone) refl)
        | inr there ↦ inr (rw (text, url, e) refl, v, rw (text, url, e, there) q)
      ]

  pub validate_candidate_total :
      ((url host : Text)
        → L.hostname url ≡ some (some host)
        → contains (strip host) (codes "://") ≡ false)
      → (fuel : ℕ) (candidate : Text)
      → ((raises candidate ≡ true) × (validate_candidate L g (suc (suc fuel)) candidate ≡ none))
        ⊎ ((raises candidate ≡ false)
            × (v : Bool × Reason) × (validate_candidate L g (suc (suc fuel)) candidate ≡ some v))
  unfolding validate_candidate
  validate_candidate_total no_url fuel candidate = elim (Bool-cases (is_empty (strip candidate))) [
    | inl blank ↦ inr (rw blank refl, (false, empty_candidate), rw blank refl)
    | inr text ↦ elim (Bool-cases (contains (strip candidate) (codes "://"))) [
      | inr plain ↦
          let (v, q) = plain_total (suc fuel) candidate plain in inr (rw (text, plain) refl, v, q)
      | inl url ↦ url_total no_url fuel candidate text url (L.hostname (strip candidate)) refl
    ]
  ]

  -- Given that the host of a URL holds no `://`, and fuel of 2 or more: `enforce` raises exactly if
  -- the candidate is a URL on which urlparse raises. Otherwise it answers, and it adds to the log
  -- one rejection when it refuses and nothing when it allows.
  pub enforce_total :
      ((url host : Text)
        → L.hostname url ≡ some (some host)
        → contains (strip host) (codes "://") ≡ false)
      → (fuel : ℕ) (candidate : Text) (log : List Rejection)
      → IsAnswered candidate log (enforce L g (suc (suc fuel)) candidate log)
  unfolding enforce
  enforce_total no_url fuel candidate log = elim (validate_candidate_total no_url fuel candidate) [
    | inl (raised, e) ↦ inl (raised, rw e refl)
    | inr (calm, v, e) ↦ answered_by candidate log _ v e calm
  ]

  -- The verdict on a candidate; an error of urlparse counts as a refusal.
  abbrev or_refused : Option (Bool × Reason) → Bool × Reason
  or_refused none = (false, url_has_no_host)
  or_refused (some v) = v

  pub verdict : Text → Bool × Reason
  verdict candidate = or_refused (validate_candidate L g 2 candidate)

  accepted :
      (candidate : Text) (log : List Rejection) (o : Option (Bool × Reason))
      → (or_refused o).0 ≡ true
      → answer L g candidate log o ≡ some (true, log)
  accepted candidate log none h = absurd (ground (arith, h))
  accepted candidate log (some (true, reason)) h = refl
  accepted candidate log (some (false, reason)) h = cc

  pub enforce-verdict :
      (candidate : Text) (log : List Rejection)
      → (verdict candidate).0 ≡ true
      → enforce L g 2 candidate log ≡ some (true, log)
  unfolding enforce verdict
  enforce-verdict candidate log h = accepted candidate log (validate_candidate L g 2 candidate) h

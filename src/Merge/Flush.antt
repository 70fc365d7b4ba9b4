-- ===== src/Merge/Flush.antt =====
-- pipeline/merge.py, `_flush_merged`: where each host of a merge ends.
use moirax_asm.Prelude.{
  ℕ, ◌≡◌, refl, ◌+◌, ◌≤◌, Bool, true, false, not, ◌&&◌, Option, none, some, List, [], ◌∷◌,
  if◌then◌else◌, Text, text_eq, text_eq_iff, Bool-cases, Option-cases, inl, inr, arith, mem,
  is_empty, count, count-append, all, is_none,
}
use moirax_asm.Prelude.Dict.{Dict, lookup, unique}
use moirax_asm.Scope.{Reason, Rejection}
use moirax_asm.Merge.{Row, Buckets}
use moirax_asm.Merge.Output.{
  Asset, Quarantined, Merged, quarantine_reason, sorted, insert_sorted, asset_of, flush_row,
  flush_rows, flush_merged, nothing_merged, ip_hosts, place, ip_rejections,
}

-- All the addresses of a host are catch-all addresses, and it has some.
abbrev pub only_wildcards : List Text → List Text → Bool
only_wildcards wildcards ips = not (is_empty ips) && all (λ ip. mem ip wildcards) ips

all_in_none : (ips : List Text) → is_empty ips ≡ false → all (λ ip. mem ip []) ips ≡ false
unfolding mem
all_in_none [] h = absurd (ground arith)
all_in_none (ip ∷ ips) h = refl

abbrev is_some {ℓ} : {A : Type ℓ} → Option A → Bool
is_some o = not (is_none o)

quarantine_reason_iff :
    (ips wildcards : List Text) (shared : Dict (List Text)) (w c : Text)
    → is_some (quarantine_reason ips wildcards shared w c) ≡ only_wildcards wildcards ips
unfolding quarantine_reason
quarantine_reason_iff ips [] shared w c = ground (arith, all_in_none ips)
quarantine_reason_iff ips (x ∷ xs) shared w c = ground arith

count-insert_sorted {ℓ} :
    {A : Type ℓ} (key : A → Text) (p : A → Bool) (x : A) (xs : List A)
    → count p (insert_sorted key x xs) ≡ count p (x ∷ xs)
unfolding insert_sorted
count-insert_sorted key p x [] = refl
count-insert_sorted key p x (y ∷ ys) = ground (arith, count-insert_sorted key p x ys)

count-sorted {ℓ} :
    {A : Type ℓ} (key : A → Text) (p : A → Bool) (xs : List A)
    → count p (sorted key xs) ≡ count p xs
unfolding sorted
count-sorted key p [] = refl
count-sorted key p (x ∷ xs) =
    ground (arith, count-insert_sorted key p x (sorted key xs), count-sorted key p xs)

-- How often a test holds of a lookup: never or once.
abbrev pub once_if {ℓ} : {V : Type ℓ} → (V → Bool) → Option V → ℕ
once_if p none = 0
once_if p (some v) = if p v then 1 else 0

count_missing {ℓ} :
    {V : Type ℓ} (h : Text) (p : V → Bool) (d : Dict V)
    → lookup h d ≡ none
    → count (λ r. text_eq r.0 h && p r.1) d ≡ 0
unfolding lookup
count_missing h p [] e = refl
count_missing h p ((k, v) ∷ d) e = ground (arith, count_missing h p d)

count-unique {ℓ} :
    {V : Type ℓ} (h : Text) (p : V → Bool) (d : Dict V)
    → unique d ≡ true
    → count (λ r. text_eq r.0 h && p r.1) d ≡ once_if p (lookup h d)
unfolding lookup
count-unique h p [] u = refl
count-unique h p ((k, v) ∷ d) u = elim (Bool-cases (text_eq k h)) [
  | inl e ↦ ground (arith, e, text_eq_iff k h, count_missing h p d, count-unique h p d)
  | inr e ↦ ground (arith, e, count-unique h p d)
]

-- How often the host stands in the assets and in the quarantine.
abbrev pub asset_count : Text → List Asset → ℕ
asset_count h assets = count (λ a. text_eq a.host h) assets

abbrev pub quarantine_count : Text → List Quarantined → ℕ
quarantine_count h rows = count (λ q. text_eq q.host h) rows

-- How often the log holds a rejection of the text.
abbrev pub log_count : Text → List Rejection → ℕ
log_count h log = count (λ r. text_eq r.candidate h) log

module _ (validate : Text → Bool × Reason) where
  abbrev pub becomes_asset : List Text → Text → Row → Bool
  becomes_asset wildcards h row = (validate h).0 && not (only_wildcards wildcards row.ips)

  abbrev pub becomes_quarantined : List Text → Text → Row → Bool
  becomes_quarantined wildcards h row = (validate h).0 && only_wildcards wildcards row.ips

  abbrev pub is_refused : Text → Row → Bool
  is_refused h row = not (validate h).0

module _ (validate : Text → Bool × Reason) (w c : Text) (wildcards : List Text) where
  flush_row_assets :
      (shared : Dict (List Text)) (host : Text) (row : Row) (out : Merged) (h : Text)
      → asset_count h (flush_row validate w c wildcards shared host row out).assets ≡ (
          if text_eq host h && becomes_asset validate wildcards h row
          then asset_count h out.assets + 1
          else asset_count h out.assets)
  unfolding flush_row place asset_of
  flush_row_assets shared host row out h = ground (
    arith,
    text_eq_iff host h,
    quarantine_reason_iff row.ips wildcards shared w c,
    count-append (λ (a : Asset). text_eq a.host h) out.assets (asset_of validate host row ∷ []),
  )

  flush_row_quarantine :
      (shared : Dict (List Text)) (host : Text) (row : Row) (out : Merged) (h : Text)
      → quarantine_count h (flush_row validate w c wildcards shared host row out).quarantine ≡ (
          if text_eq host h && becomes_quarantined validate wildcards h row
          then quarantine_count h out.quarantine + 1
          else quarantine_count h out.quarantine)
  unfolding flush_row place
  flush_row_quarantine shared host row out h =
      elim (Option-cases (quarantine_reason row.ips wildcards shared w c)) [
        | inl e ↦
            ground
              (arith, e, text_eq_iff host h, quarantine_reason_iff row.ips wildcards shared w c)
        | inr (r, e) ↦ ground (
          arith,
          e,
          text_eq_iff host h,
          quarantine_reason_iff row.ips wildcards shared w c,
          count-append (λ (a : Quarantined). text_eq a.host h) out.quarantine
              (record { host = host; ips = row.ips; reason = r } ∷ []),
        )
      ]

  flush_rows_assets :
      (shared : Dict (List Text)) (rows : Buckets) (out : Merged) (h : Text)
      → asset_count h (flush_rows validate w c wildcards shared rows out).assets
        ≡ asset_count h out.assets
          + count (λ r. text_eq r.0 h && becomes_asset validate wildcards h r.1) rows
  unfolding flush_rows
  flush_rows_assets shared [] out h = omega arith
  flush_rows_assets shared ((host, row) ∷ rest) out h = ground (
    arith,
    flush_rows_assets shared rest (flush_row validate w c wildcards shared host row out) h,
    flush_row_assets shared host row out h,
  )

  flush_rows_quarantine :
      (shared : Dict (List Text)) (rows : Buckets) (out : Merged) (h : Text)
      → quarantine_count h (flush_rows validate w c wildcards shared rows out).quarantine
        ≡ quarantine_count h out.quarantine
          + count (λ r. text_eq r.0 h && becomes_quarantined validate wildcards h r.1) rows
  unfolding flush_rows
  flush_rows_quarantine shared [] out h = omega arith
  flush_rows_quarantine shared ((host, row) ∷ rest) out h = ground (
    arith,
    flush_rows_quarantine shared rest (flush_row validate w c wildcards shared host row out) h,
    flush_row_quarantine shared host row out h,
  )

  flush_row_log :
      (shared : Dict (List Text)) (host : Text) (row : Row) (out : Merged) (h : Text)
      → (if text_eq host h && is_refused validate h row
          then log_count h out.log + 1
          else log_count h out.log)
        ≤ log_count h (flush_row validate w c wildcards shared host row out).log
  unfolding flush_row place
  flush_row_log shared host row out h =
      elim (Option-cases (quarantine_reason row.ips wildcards shared w c)) [
        | inl e ↦ ground (
          arith,
          e,
          text_eq_iff host h,
          count-append (λ (r : Rejection). text_eq r.candidate h) out.log
              (ip_rejections validate row.ips),
          count-append (λ (r : Rejection). text_eq r.candidate h) out.log
              (record { candidate = host; reason = (validate host).1 } ∷ []),
        )
        | inr (r, e) ↦ ground (
          arith,
          e,
          text_eq_iff host h,
          count-append (λ (r : Rejection). text_eq r.candidate h) out.log
              (record { candidate = host; reason = (validate host).1 } ∷ []),
        )
      ]

  flush_rows_log :
      (shared : Dict (List Text)) (rows : Buckets) (out : Merged) (h : Text)
      → log_count h out.log + count (λ r. text_eq r.0 h && is_refused validate h r.1) rows
        ≤ log_count h (flush_rows validate w c wildcards shared rows out).log
  unfolding flush_rows
  flush_rows_log shared [] out h = omega arith
  flush_rows_log shared ((host, row) ∷ rest) out h = ground (
    arith,
    flush_rows_log shared rest (flush_row validate w c wildcards shared host row out) h,
    flush_row_log shared host row out h,
  )

  -- Given buckets with no host twice: a host that the gate accepts stands once in the assets or
  -- once in the quarantine, the latter exactly if it has addresses and all are catch-all addresses;
  -- a host that the gate refuses or that has no row stands in neither, and the log holds a
  -- rejection of each refused one.
  pub flush_merged_places :
      (b : Buckets) (h : Text)
      → unique b ≡ true
      → (asset_count h (flush_merged validate w c b wildcards).assets
          ≡ once_if (becomes_asset validate wildcards h) (lookup h b))
        × (quarantine_count h (flush_merged validate w c b wildcards).quarantine
            ≡ once_if (becomes_quarantined validate wildcards h) (lookup h b))
        × (once_if (is_refused validate h) (lookup h b)
            ≤ log_count h (flush_merged validate w c b wildcards).log)
  unfolding flush_merged
  flush_merged_places b h u =
      let s : Buckets = sorted (λ r. r.0) b in
      let shared = ip_hosts b [] in
      (
        omega (
          arith,
          flush_rows_assets shared s nothing_merged h,
          count-sorted (λ (r : Text × Row). r.0)
              (λ r. text_eq r.0 h && becomes_asset validate wildcards h r.1) b,
          count-unique h (becomes_asset validate wildcards h) b u,
        ),
        omega (
          arith,
          flush_rows_quarantine shared s nothing_merged h,
          count-sorted (λ (r : Text × Row). r.0)
              (λ r. text_eq r.0 h && becomes_quarantined validate wildcards h r.1) b,
          count-unique h (becomes_quarantined validate wildcards h) b u,
        ),
        omega (
          arith,
          flush_rows_log shared s nothing_merged h,
          count-sorted (λ (r : Text × Row). r.0) (λ r. text_eq r.0 h && is_refused validate h r.1)
              b,
          count-unique h (is_refused validate h) b u,
        ),
      )

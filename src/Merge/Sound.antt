-- ===== src/Merge/Sound.antt =====
-- pipeline/merge.py, `merge_branches`: every asset is in scope, and is alive if it has an address.
use moirax_asm.Prelude.{
  ◌≡◌, Bool, true, false, some, List, [], ◌∷◌, Text, Bool-cases, Option-cases, inl, inr, arith,
  is_empty, All, All-append, filter,
}
use moirax_asm.Prelude.Dict.{Dict}
use moirax_asm.Prelude.Json.{bool}
use moirax_asm.Scope.{Reason, Rejection, NetLib, ScopeGate, enforce}
use moirax_asm.Scope.Candidates.{verdict, enforce-verdict}
use moirax_asm.Merge.{Row, Buckets}
use moirax_asm.Merge.Output.{
  Asset, Merged, keeps_ip, asset_of, place, quarantine_reason, flush_row, flush_rows, flush_merged,
  nothing_merged, sorted, ip_hosts,
}

module _ (validate : Text → Bool × Reason) where
  -- What the gate and the catch-all rule promise of an asset.
  pub record IsSound (a : Asset) : Type 0 where
    pub in_scope : (validate a.host).0 ≡ true
    pub ips_kept : All (λ ip. keeps_ip validate ip ≡ true) a.ips
    pub live : is_empty a.ips ≡ false → a.alive ≡ bool true

  filter_kept :
      (ips : List Text) → All (λ ip. keeps_ip validate ip ≡ true) (filter (keeps_ip validate) ips)
  filter_kept [] = tt
  filter_kept (ip ∷ ips) = elim (Bool-cases (keeps_ip validate ip)) [
    | inl e ↦ rw e (e, filter_kept ips)
    | inr e ↦ rw e (filter_kept ips)
  ]

  asset_of-IsSound :
      (host : Text) (row : Row) → (validate host).0 ≡ true → IsSound (asset_of validate host row)
  unfolding asset_of
  asset_of-IsSound host row h = record {
    in_scope = h;
    ips_kept = filter_kept row.ips;
    live = λ e. ground (arith, e);
  }

module _ (validate : Text → Bool × Reason) (w c : Text) where
  flush_row-IsSound :
      (wildcards : List Text) (shared : Dict (List Text)) (host : Text) (row : Row) (out : Merged)
      → All (IsSound validate) out.assets
      → All (IsSound validate) (flush_row validate w c wildcards shared host row out).assets
  unfolding flush_row place
  flush_row-IsSound wildcards shared host row out s = elim (Bool-cases (validate host).0) [
    | inr e ↦ rw e s
    | inl e ↦ elim (Option-cases (quarantine_reason row.ips wildcards shared w c)) [
      | inl q ↦
          rw (e, q)
            (All-append (IsSound validate) out.assets _ s
              (asset_of-IsSound validate host row e, tt))
      | inr (r, q) ↦ rw (e, q) s
    ]
  ]

  flush_rows-IsSound :
      (wildcards : List Text) (shared : Dict (List Text)) (rows : Buckets) (out : Merged)
      → All (IsSound validate) out.assets
      → All (IsSound validate) (flush_rows validate w c wildcards shared rows out).assets
  unfolding flush_rows
  flush_rows-IsSound wildcards shared [] out s = s
  flush_rows-IsSound wildcards shared ((host, row) ∷ rest) out s =
      flush_rows-IsSound wildcards shared rest _ (flush_row-IsSound wildcards shared host row out s)

  -- Each asset that a merge writes has a host that the gate accepts, holds no address that the gate
  -- refuses but for those that are merely not listed, and is alive if it holds one.
  pub flush_merged-IsSound :
      (b : Buckets) (wildcards : List Text)
      → All (IsSound validate) (flush_merged validate w c b wildcards).assets
  unfolding flush_merged
  flush_merged-IsSound b wildcards =
      flush_rows-IsSound wildcards (ip_hosts b []) (sorted (λ r. r.0) b) nothing_merged tt

All_map {ℓ} :
    {A : Type ℓ} (P Q : A → Type 0) (xs : List A) → ((x : A) → P x → Q x) → All P xs → All Q xs
All_map P Q [] f h = tt
All_map P Q (x ∷ xs) f h = (f x h.0, All_map P Q xs f h.1)

module _ {Ip Net : Type 0} (L : NetLib Ip Net) (g : ScopeGate Net) where
  -- With the scope gate's verdicts, `enforce` lets the host of each asset of a merge through and
  -- logs nothing.
  pub flush_merged-enforce :
      (w c : Text) (b : Buckets) (wildcards : List Text) (log : List Rejection)
      → All
          (λ a. enforce L g 2 a.host log ≡ some (true, log))
          (flush_merged (verdict L g) w c b wildcards).assets
  flush_merged-enforce w c b wildcards log =
      All_map (IsSound (verdict L g)) _ _ (λ a s. enforce-verdict L g a.host log s.in_scope)
        (flush_merged-IsSound (verdict L g) w c b wildcards)

-- ===== src/Merge/Kept.antt =====
-- pipeline/merge.py, `merge_branches`: no genuine host is lost.
use moirax_asm.Prelude.{
  ◌≡◌, refl, Bool, true, false, ◌||◌, some, List, [], ◌∷◌, ◌++◌, >>=-eq-some, Text, Option-cases,
  inl, inr, arith, mem, text_eq_iff, is_empty, all,
}
use moirax_asm.Prelude.Dict.{lookup, unique, unique-insert}
use moirax_asm.Prelude.Json.{Value, Fields}
use moirax_asm.Scope.{Reason}
use moirax_asm.Merge.{
  Buckets, attr_passive, attr_active, iter_assets, ingest_row, ingest_rows, ingest, ingest_all,
  buckets_of, tool_of,
}
use moirax_asm.Merge.Rows.{ingest_row_lem}
use moirax_asm.Merge.Addresses.{given_in, buckets_of_gathers}
use moirax_asm.Merge.Output.{Merged, wildcard_ips, flush_merged, merge_branches}
use moirax_asm.Merge.Flush.{asset_count, flush_merged_places}

module _ (show : Value → Text) where
  ingest_rows-unique :
      (branch tool : Text) (rows : List (Text × Fields)) (b : Buckets) {b' : Buckets}
      → ingest_rows show branch tool rows b ≡ some b'
      → unique b ≡ true
      → unique b' ≡ true
  unfolding ingest_rows
  ingest_rows-unique branch tool [] b e u = ground arith
  ingest_rows-unique branch tool ((host, meta) ∷ rest) b e u =
      let (c, p, q) = >>=-eq-some (ingest_row show branch tool host meta b) _ e in
      let (l, r) = ingest_row_lem show branch tool host meta b p in
      ingest_rows-unique branch tool rest c q (rw (← r) (unique-insert host _ b u))

  ingest_all-unique :
      (branch : Text) (docs : List Fields) (b : Buckets) {b' : Buckets}
      → ingest_all show branch docs b ≡ some b'
      → unique b ≡ true
      → unique b' ≡ true
  unfolding ingest_all ingest
  ingest_all-unique branch [] b e u = ground arith
  ingest_all-unique branch (doc ∷ docs) b e u =
      let (c, p, q) = >>=-eq-some (ingest show branch doc b) _ e in
      ingest_all-unique branch docs c q
        (ingest_rows-unique branch (tool_of show branch doc) (iter_assets doc) b p u)

  pub buckets_of-unique :
      (passive_docs active_docs : List Fields) {b : Buckets}
      → buckets_of show passive_docs active_docs ≡ some b
      → unique b ≡ true
  unfolding buckets_of
  buckets_of-unique passive_docs active_docs e =
      let (c, p, q) = >>=-eq-some (ingest_all show attr_passive passive_docs []) _ e in
      ingest_all-unique attr_active active_docs c q
        (ingest_all-unique attr_passive passive_docs [] p refl)

genuine :
    (ip : Text) (wildcards ips : List Text)
    → mem ip ips ≡ true
    → mem ip wildcards ≡ false
    → all (λ j. mem j wildcards) ips ≡ false
unfolding mem
genuine ip wildcards [] m n = absurd (ground arith)
genuine ip wildcards (j ∷ js) m n = ground (arith, text_eq_iff ip j, genuine ip wildcards js)

module _ (validate : Text → Bool × Reason) (w c : Text) (show : Value → Text) where
  -- Given that a merge of documents answers, and a catch-all list that lacks an address: a host in
  -- scope to which a document of either branch gives the address stands once in the assets, whatever
  -- else it resolves to.
  pub merge_branches_keeps :
      (passive_docs active_docs : List Fields) (h ip : Text) (wildcards : List Text) {m : Merged}
      → merge_branches validate w c show passive_docs active_docs ≡ some m
      → wildcard_ips (passive_docs ++ active_docs) ≡ some wildcards
      → (given_in show h ip passive_docs || given_in show h ip active_docs) ≡ true
      → is_empty ip ≡ false
      → mem ip wildcards ≡ false
      → (validate h).0 ≡ true
      → asset_count h m.assets ≡ 1
  unfolding merge_branches mem
  merge_branches_keeps passive_docs active_docs h ip wildcards {m} e k g n t v =
      let (ws, p, q) = >>=-eq-some (wildcard_ips (passive_docs ++ active_docs)) _ e in
      let (b, r, s) = >>=-eq-some (buckets_of show passive_docs active_docs) _ q in
      let same : ws ≡ wildcards = ground (arith, p, k) in
      let out : flush_merged validate w c b ws ≡ m = ground (arith, s) in
      let places = flush_merged_places validate w c ws b h (buckets_of-unique show _ _ r) in
      let has = (buckets_of_gathers show passive_docs active_docs h r).0 ip n in
      elim (Option-cases (lookup h b)) [
        | inl none_there ↦ absurd (ground (arith, has, none_there, g))
        | inr (row, there) ↦
            let held : mem ip row.ips ≡ true = ground (arith, has, there, g) in
            let gen = genuine ip ws row.ips held (rw same t) in
            rw (← out) (ground (arith, places.0, there, v, gen))
      ]

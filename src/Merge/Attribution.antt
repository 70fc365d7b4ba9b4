-- ===== src/Merge/Attribution.antt =====
-- pipeline/merge.py, `_ingest`: the attribution of a host.
use moirax_asm.Prelude.{
  ◌≡◌, refl, ap, ◌∙◌, Bool, true, false, ◌||◌, Option, none, some, List, [], ◌∷◌, if◌then◌else◌,
  >>=-eq-some, Text, text_eq, text_eq_iff, any, arith,
}
use moirax_asm.Prelude.Dict.{lookup}
use moirax_asm.Prelude.Json.{Value, Fields}
use moirax_asm.Merge.{
  Row, Buckets, attr_passive, attr_active, attr_both, iter_assets, row_for, merge_row, ingest_row,
  ingest_rows, ingest, ingest_all, buckets_of, new_row, tool_of,
}
use moirax_asm.Merge.Rows.{lookup-ingest_row}

-- Whether one of the rows of a document names the host.
abbrev pub names : Text → List (Text × Fields) → Bool
names h rows = any (λ r. text_eq r.0 h) rows

abbrev pub named_in : Text → List Fields → Bool
named_in h docs = any (λ doc. names h (iter_assets doc)) docs

abbrev pub attribution_in : Option Row → Option Text
attribution_in none = none
attribution_in (some row) = some row.attribution

-- What a branch that names the host leaves of its attribution.
abbrev mark : Text → Option Text → Option Text
mark branch none = some branch
mark branch (some a) = some (if text_eq a branch then a else attr_both)

abbrev after : Bool → Text → Option Text → Option Text
after b branch o = if b then mark branch o else o

after_twice :
    (b c : Bool) (branch : Text) (o : Option Text)
    → after c branch (after b branch o) ≡ after (b || c) branch o
after_twice true true branch none = ground (arith, text_eq_iff branch branch)
after_twice true true branch (some a) =
    ground (arith, text_eq_iff a branch, text_eq_iff attr_both branch)
after_twice true false branch o = refl
after_twice false c branch o = refl

module _ (show : Value → Text) where
  ingest_row_attribution :
      (branch tool host : Text) (meta : Fields) (b : Buckets) (h : Text) {b' : Buckets}
      → ingest_row show branch tool host meta b ≡ some b'
      → attribution_in (lookup h b') ≡ after (text_eq host h) branch (attribution_in (lookup h b))
  unfolding row_for merge_row new_row
  ingest_row_attribution branch tool host meta b h e =
      let (l, q) = lookup-ingest_row show branch tool host meta b h e in
      ground (arith, q, text_eq_iff host h)

  ingest_rows_attribution :
      (branch tool : Text) (rows : List (Text × Fields)) (b : Buckets) (h : Text) {b' : Buckets}
      → ingest_rows show branch tool rows b ≡ some b'
      → attribution_in (lookup h b') ≡ after (names h rows) branch (attribution_in (lookup h b))
  unfolding ingest_rows
  ingest_rows_attribution branch tool [] b h e = ground arith
  ingest_rows_attribution branch tool ((host, meta) ∷ rest) b h e =
      let (c, p, q) = >>=-eq-some (ingest_row show branch tool host meta b) _ e in
      ingest_rows_attribution branch tool rest c h q
      ∙ ap (after (names h rest) branch) (ingest_row_attribution branch tool host meta b h p)
      ∙ after_twice (text_eq host h) (names h rest) branch (attribution_in (lookup h b))

  ingest_all_attribution :
      (branch : Text) (docs : List Fields) (b : Buckets) (h : Text) {b' : Buckets}
      → ingest_all show branch docs b ≡ some b'
      → attribution_in (lookup h b') ≡ after (named_in h docs) branch (attribution_in (lookup h b))
  unfolding ingest_all ingest
  ingest_all_attribution branch [] b h e = ground arith
  ingest_all_attribution branch (doc ∷ docs) b h e =
      let (c, p, q) = >>=-eq-some (ingest show branch doc b) _ e in
      ingest_all_attribution branch docs c h q
      ∙ ap (after (named_in h docs) branch)
          (ingest_rows_attribution branch (tool_of show branch doc) (iter_assets doc) b h p)
      ∙ after_twice (names h (iter_assets doc)) (named_in h docs) branch
          (attribution_in (lookup h b))

  -- A merge has a row for a host exactly if a document names it, and its attribution is of both
  -- branches exactly if documents of both name it.
  pub buckets_of_attribution :
      (passive_docs active_docs : List Fields) (h : Text) {b : Buckets}
      → buckets_of show passive_docs active_docs ≡ some b
      → attribution_in (lookup h b) ≡ (
          if named_in h passive_docs
          then some (if named_in h active_docs then attr_both else attr_passive)
          else if named_in h active_docs
          then some attr_active
          else none)
  unfolding buckets_of lookup text_eq
  buckets_of_attribution passive_docs active_docs h e =
      let (c, p, q) = >>=-eq-some (ingest_all show attr_passive passive_docs []) _ e in
      ground (
        arith,
        ingest_all_attribution attr_passive passive_docs [] h p,
        ingest_all_attribution attr_active active_docs c h q,
      )

-- ===== src/Merge/Rows.antt =====
-- pipeline/merge.py, `_ingest`: what reading one row of a document does to the buckets.
use moirax_asm.Prelude.{
  ◌≡◌, sym, ap, ◌∙◌, some, List, >>=-eq-some, Text, text_eq, codes, if◌then◌else◌,
}
use moirax_asm.Prelude.Dict.{lookup, insert, lookup-insert}
use moirax_asm.Prelude.Json.{Value, Fields}
use moirax_asm.Merge.{Buckets, row_for, merge_row, items_under, ingest_row}

module _ (show : Value → Text) where
  -- The lists that a row of a document holds, once they are read.
  pub record Lists (meta : Fields) : Type 0 where
    pub sources : List Value
    pub ips : List Value
    pub tags : List Value
    pub tech : List Value
    pub ips_read : items_under show (codes "ips") meta ≡ some ips

  pub ingest_row_lem :
      (branch tool host : Text) (meta : Fields) (b : Buckets) {b' : Buckets}
      → ingest_row show branch tool host meta b ≡ some b'
      → (l : Lists meta) × (insert host
            (merge_row show tool meta l.sources l.ips l.tags l.tech
              (row_for branch (lookup host b)))
            b
          ≡ b')
  unfolding ingest_row
  ingest_row_lem branch tool host meta b e =
      let (sources, p, e1) = >>=-eq-some (items_under show (codes "sources") meta) _ e in
      let (ips, q, e2) = >>=-eq-some (items_under show (codes "ips") meta) _ e1 in
      let (tags, r, e3) = >>=-eq-some (items_under show (codes "tags") meta) _ e2 in
      let (tech, s, e4) = >>=-eq-some (items_under show (codes "tech") meta) _ e3 in
      (record { sources = sources; ips = ips; tags = tags; tech = tech; ips_read = q }, cc e4)

  pub lookup-ingest_row :
      (branch tool host : Text) (meta : Fields) (b : Buckets) (h : Text) {b' : Buckets}
      → ingest_row show branch tool host meta b ≡ some b'
      → (l : Lists meta) × (lookup h b' ≡ (
          if text_eq host h
          then some (
              merge_row show tool meta l.sources l.ips l.tags l.tech
                (row_for branch (lookup host b)))
          else lookup h b))
  lookup-ingest_row branch tool host meta b h e =
      let (l, q) = ingest_row_lem branch tool host meta b e in
      (l, ap (lookup h) (sym q) ∙ lookup-insert host h _ b)

-- ===== src/Merge/Addresses.antt =====
-- pipeline/merge.py, `_ingest`: the addresses of a host, without repetition.
use moirax_asm.Prelude.{
  ◌≡◌, refl, Bool, true, false, ◌&&◌, ◌||◌, Option, none, some, List, [], ◌∷◌, >>=-eq-some, Text,
  text_eq, text_eq_iff, codes, any, arith, mem, mem-append, distinct, distinct-append, is_empty,
}
use moirax_asm.Prelude.Dict.{lookup}
use moirax_asm.Prelude.Json.{Value, Fields}
use moirax_asm.Merge.{
  Row, Buckets, attr_passive, attr_active, iter_assets, row_for, merge_row, items_under, append_new,
  add_all, ingest_row, ingest_rows, ingest, ingest_all, buckets_of, new_row, tool_of, texts_of,
}
use moirax_asm.Merge.Rows.{lookup-ingest_row}

add_all-append_new :
    (x : Text) (s xs : List Text)
    → is_empty x ≡ false
    → mem x (add_all append_new s xs) ≡ (mem x s || mem x xs)
unfolding add_all append_new mem
add_all-append_new x s [] h = ground arith
add_all-append_new x s (y ∷ ys) h = ground (
  arith,
  add_all-append_new x (append_new s y) ys h,
  mem-append x s y,
  text_eq_iff x y,
  text_eq_iff y x,
)

add_all-append_new-distinct :
    (s xs : List Text) → distinct s ≡ true → distinct (add_all append_new s xs) ≡ true
unfolding add_all append_new
add_all-append_new-distinct s [] h = h
add_all-append_new-distinct s (y ∷ ys) h =
    add_all-append_new-distinct (append_new s y) ys (ground (arith, distinct-append s y))

abbrev pub ips_in : Option Row → List Text
ips_in none = []
ips_in (some row) = row.ips

abbrev texts_read : (Value → Text) → Option (List Value) → List Text
texts_read show none = []
texts_read show (some vs) = texts_of show vs

module _ (show : Value → Text) where
  -- Whether one of the rows gives the host the address.
  abbrev pub gives : Text → Text → List (Text × Fields) → Bool
  gives h ip rows =
      any (λ r. text_eq r.0 h && mem ip (texts_read show (items_under show (codes "ips") r.1))) rows

  abbrev pub given_in : Text → Text → List Fields → Bool
  given_in h ip docs = any (λ doc. gives h ip (iter_assets doc)) docs

  -- The buckets of a step hold the addresses that they held and those that its rows give.
  record Gathers (h : Text) (b b' : Buckets) (given : Text → Bool) : Type 0 where
    union :
        (ip : Text)
        → is_empty ip ≡ false
        → mem ip (ips_in (lookup h b')) ≡ (mem ip (ips_in (lookup h b)) || given ip)
    once : distinct (ips_in (lookup h b)) ≡ true → distinct (ips_in (lookup h b')) ≡ true

  Gathers-none : (h : Text) (b b' : Buckets) → some b ≡ some b' → Gathers h b b' (λ ip. false)
  Gathers-none h b b' e =
      let q : b ≡ b' = ground arith in
      record { union = λ ip n. rw q (ground arith); once = λ d. rw (← q) d }

  Gathers-both :
      (h : Text) (b c d : Buckets) (f g : Text → Bool)
      → Gathers h b c f
      → Gathers h c d g
      → Gathers h b d (λ ip. f ip || g ip)
  Gathers-both h b c d f g p q = record {
    union = λ ip n. ground (arith, p.union ip n, q.union ip n);
    once = λ s. q.once (p.once s);
  }

  ingest_row-Gathers :
      (branch tool host : Text) (meta : Fields) (b : Buckets) (h : Text) {b' : Buckets}
      → ingest_row show branch tool host meta b ≡ some b'
      → Gathers h b b'
          (λ ip. text_eq host h && mem ip (texts_read show (items_under show (codes "ips") meta)))
  unfolding row_for merge_row new_row
  ingest_row-Gathers branch tool host meta b h e =
      let (l, q) = lookup-ingest_row show branch tool host meta b h e in
      record {
        union = λ ip n. ground (
          arith,
          q,
          l.ips_read,
          text_eq_iff host h,
          add_all-append_new ip (row_for branch (lookup host b)).ips (texts_of show l.ips) n,
        );
        once = λ d. ground (
          arith,
          q,
          text_eq_iff host h,
          add_all-append_new-distinct (row_for branch (lookup host b)).ips (texts_of show l.ips),
        );
      }

  ingest_rows-Gathers :
      (branch tool : Text) (rows : List (Text × Fields)) (b : Buckets) (h : Text) {b' : Buckets}
      → ingest_rows show branch tool rows b ≡ some b'
      → Gathers h b b' (λ ip. gives h ip rows)
  unfolding ingest_rows
  ingest_rows-Gathers branch tool [] b h e = Gathers-none h b _ e
  ingest_rows-Gathers branch tool ((host, meta) ∷ rest) b h e =
      let (c, p, q) = >>=-eq-some (ingest_row show branch tool host meta b) _ e in
      Gathers-both h b c _ _ _ (ingest_row-Gathers branch tool host meta b h p)
        (ingest_rows-Gathers branch tool rest c h q)

  ingest_all-Gathers :
      (branch : Text) (docs : List Fields) (b : Buckets) (h : Text) {b' : Buckets}
      → ingest_all show branch docs b ≡ some b'
      → Gathers h b b' (λ ip. given_in h ip docs)
  unfolding ingest_all ingest
  ingest_all-Gathers branch [] b h e = Gathers-none h b _ e
  ingest_all-Gathers branch (doc ∷ docs) b h e =
      let (c, p, q) = >>=-eq-some (ingest show branch doc b) _ e in
      Gathers-both h b c _ _ _
        (ingest_rows-Gathers branch (tool_of show branch doc) (iter_assets doc) b h p)
        (ingest_all-Gathers branch docs c h q)

  -- The addresses of a host's row are those that the documents of either branch give the host, but
  -- for the empty text, and no address stands there twice.
  pub buckets_of_gathers :
      (passive_docs active_docs : List Fields) (h : Text) {b : Buckets}
      → buckets_of show passive_docs active_docs ≡ some b
      → ((ip : Text)
          → is_empty ip ≡ false
          → mem ip (ips_in (lookup h b))
            ≡ (given_in h ip passive_docs || given_in h ip active_docs))
        × (distinct (ips_in (lookup h b)) ≡ true)
  unfolding buckets_of lookup mem
  buckets_of_gathers passive_docs active_docs h e =
      let (c, p, q) = >>=-eq-some (ingest_all show attr_passive passive_docs []) _ e in
      let g =
        Gathers-both h [] c _ _ _ (ingest_all-Gathers attr_passive passive_docs [] h p)
          (ingest_all-Gathers attr_active active_docs c h q) in
      (g.union, g.once refl)

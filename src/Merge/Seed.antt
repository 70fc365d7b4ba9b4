-- ===== src/Merge/Seed.antt =====
-- pipeline/merge.py: the entries of assets.json, and `_seed_from_assets`, which reads them back.
use moirax_asm.Prelude.{
  Bool, true, not, Option, none, some, List, [], ◌∷◌, if◌then◌else◌, ◌>>=◌, Text, codes, is_empty,
  filter,
}
use moirax_asm.Prelude.Dict.{insert}
use moirax_asm.Prelude.Json.{
  Value, Items, Fields, bool, str, list, dict, nil, cons, end, field, get, is_truthy,
}
use moirax_asm.Merge.{
  Row, Buckets, attr_active, each, or_null, is_null, add, add_all, norm_host, items_under, text_of,
  texts_of, ingest,
}
use moirax_asm.Scope.{Reason}
use moirax_asm.Merge.Output.{Asset, Merged, wildcard_ips, flush_merged}

abbrev pub to_items : List Text → Items
to_items [] = nil
to_items (x ∷ xs) = cons (str x) (to_items xs)

-- `if given: asset[key] = value`
unfoldable pub entry_if : Bool → Text → Value → Fields → Fields
entry_if given key value rest = if given then field key value rest else rest

-- The entry of an asset in assets.json.
unfoldable pub dict_of_asset : Asset → Fields
unfolding entry_if
dict_of_asset a = field (codes "host") (str a.host) (
    field (codes "ips") (list (to_items a.ips)) (
      field (codes "alive") a.alive (
        field (codes "attribution") (str a.attribution) (
          field (codes "sources") (list (to_items a.sources)) (
            entry_if (not (is_empty a.tags)) (codes "tags") (list (to_items a.tags)) (
              entry_if a.misconfig_suspect (codes "misconfig_suspect") (bool true) (
                entry_if (not (is_null a.http_status)) (codes "http_status") a.http_status (
                  entry_if (not (is_null a.length_of_body)) (codes "length") a.length_of_body (
                    entry_if (not (is_empty a.tech)) (codes "tech") (list (to_items a.tech))
                      (entry_if (is_truthy (some a.title)) (codes "title") a.title end))))))))))

module _ (show : Value → Text) where
  -- str(value or default)
  abbrev pub text_or : Text → Option Value → Text
  text_or default none = default
  text_or default (some v) = if is_truthy (some v) then text_of show v else default

  unfoldable pub seed_row : Fields → Option Row
  unfolding items_under each add add_all
  seed_row asset = do
    sources ← items_under show (codes "sources") asset
    ips ← items_under show (codes "ips") asset
    tags ← items_under show (codes "tags") asset
    tech ← items_under show (codes "tech") asset
    some record {
      attribution = text_or attr_active (get (codes "attribution") asset);
      sources = add_all add [] (texts_of show sources);
      ips = texts_of show (filter (λ v. is_truthy (some v)) ips);
      alive = or_null (get (codes "alive") asset);
      tags = add_all add [] (texts_of show tags);
      misconfig_suspect = is_truthy (get (codes "misconfig_suspect") asset);
      http_status = or_null (get (codes "http_status") asset);
      length_of_body = or_null (get (codes "length") asset);
      tech = texts_of show (filter (λ v. is_truthy (some v)) tech);
      title = or_null (get (codes "title") asset);
    }

  -- The body of the loop over the assets.
  unfoldable pub seed_asset : Option Text → Fields → Buckets → Option Buckets
  unfolding seed_row insert
  seed_asset none asset buckets = some buckets
  seed_asset (some host) asset buckets = do row ← seed_row asset; some (insert host row buckets)

  unfoldable pub seed_rows : List Value → Buckets → Option Buckets
  unfolding norm_host seed_asset
  seed_rows [] buckets = some buckets
  seed_rows (dict asset ∷ rest) buckets = do
    after ← seed_asset (norm_host (get (codes "host") asset)) asset buckets
    seed_rows rest after
  seed_rows (v ∷ rest) buckets = seed_rows rest buckets

  unfoldable pub seed_from_assets : Fields → Option Buckets
  unfolding seed_rows each
  seed_from_assets existing = do assets ← each (get (codes "assets") existing); seed_rows assets []

  -- `if existing:`
  abbrev seeded : Option Fields → Option Buckets
  seeded (some (field k v d)) = seed_from_assets (field k v d)
  seeded d = some []

  abbrev with_doc : Option Fields → Fields → List Fields
  with_doc (some (field k v d)) doc = field k v d ∷ doc ∷ []
  with_doc d doc = doc ∷ []

  unfoldable pub append_active_doc :
      (Text → Bool × Reason) → Text → Text → Option Fields → Fields → Option Merged
  unfolding wildcard_ips flush_merged ingest
  append_active_doc validate wildcard_reason catchall_reason existing doc = do
    before ← seeded existing
    wildcards ← wildcard_ips (with_doc existing doc)
    buckets ← ingest show attr_active doc before
    some (flush_merged validate wildcard_reason catchall_reason buckets wildcards)

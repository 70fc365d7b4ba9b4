-- ===== src/Merge/Samples.antt =====
-- A passive and an active document that name one host, and the theorems on their merge.
use moirax_asm.Prelude.{
  ◌≡◌, ◌≤◌, refl, Bool, true, false, ◌||◌, Option, none, some, List, [], ◌∷◌, ◌++◌, Text, text_eq,
  norm, codes, mem, is_empty, distinct, All, if◌then◌else◌,
}
use moirax_asm.Prelude.Dict.{lookup, unique}
use moirax_asm.Prelude.Json.{Value, Fields, get, null, bool, str, list, dict, nil, cons, end, field}
use moirax_asm.Scope.{Reason, in_scope_host}
use moirax_asm.Merge.{
  Row, Buckets, attr_both, attr_passive, attr_active, buckets_of, ingest, ingest_row, norm_host,
  iter_assets, items_under, each,
}
use moirax_asm.Merge.Attribution.{attribution_in, named_in, buckets_of_attribution}
use moirax_asm.Merge.Addresses.{ips_in, given_in, buckets_of_gathers}
use moirax_asm.Merge.Output.{
  looks_ip, Asset, Merged, flush_merged, merge_branches, wildcard_ips, nothing_merged,
}
use moirax_asm.Merge.Flush.{
  asset_count, quarantine_count, log_count, once_if, becomes_asset, becomes_quarantined, is_refused,
  flush_merged_places,
}
use moirax_asm.Merge.Kept.{merge_branches_keeps}
use moirax_asm.Merge.Sound.{IsSound, flush_merged-IsSound}
use moirax_asm.Merge.Seed.{seed_rows}
use moirax_asm.Merge.Reread.{IsWritten, entries, rows_of, seed_rows-dict_of_asset}

abbrev host : Text
host = codes "a.com"

abbrev genuine_ip : Text
genuine_ip = codes "1.1.1.1"

abbrev wild_ip : Text
wild_ip = codes "9.9.9.9"

abbrev row : Text → Text → Fields
row name ip = field (codes "host") (str name) (field (codes "ips") (list (cons (str ip) nil)) end)

abbrev rows : Text → Text → Text → Fields
rows key name ip = field key (list (cons (dict (row name ip)) nil)) end

abbrev passive_docs : List Fields
passive_docs = rows (codes "candidates") (codes "A.com.") genuine_ip ∷ []

abbrev active_docs : List Fields
active_docs =
    field (codes "wildcard_ips") (list (cons (str wild_ip) nil))
      (rows (codes "resolved") host wild_ip)
    ∷ []

abbrev show : Value → Text
show v = []

abbrev accept : Text → Bool × Reason
accept t = (true, in_scope_host)

abbrev buckets_in : Option Buckets → Buckets
buckets_in none = []
buckets_in (some b) = b

abbrev merged_in : Option Merged → Merged
merged_in none = nothing_merged
merged_in (some m) = m

abbrev buckets : Buckets
buckets = buckets_in (buckets_of show passive_docs active_docs)

abbrev merged : Merged
merged = merged_in (merge_branches accept [] [] show passive_docs active_docs)

buckets_of_docs : buckets_of show passive_docs active_docs ≡ some buckets
unfolding buckets_of ingest get text_eq norm_host norm ingest_row
buckets_of_docs = refl

merge_of_docs : merge_branches accept [] [] show passive_docs active_docs ≡ some merged
unfolding merge_branches get text_eq ingest norm_host norm ingest_row
merge_of_docs = refl

buckets_of_attribution_example : attribution_in (lookup host buckets) ≡ (
    if named_in host passive_docs
    then some (if named_in host active_docs then attr_both else attr_passive)
    else if named_in host active_docs
    then some attr_active
    else none)
buckets_of_attribution_example =
    buckets_of_attribution show passive_docs active_docs host buckets_of_docs

buckets_of_gathers_example :
    ((ip : Text)
      → is_empty ip ≡ false
      → mem ip (ips_in (lookup host buckets))
        ≡ (given_in show host ip passive_docs || given_in show host ip active_docs))
    × (distinct (ips_in (lookup host buckets)) ≡ true)
buckets_of_gathers_example = buckets_of_gathers show passive_docs active_docs host buckets_of_docs

wildcards_of_docs : wildcard_ips (passive_docs ++ active_docs) ≡ some (wild_ip ∷ [])
unfolding wildcard_ips get text_eq looks_ip
wildcards_of_docs = refl

given_genuine :
    (given_in show host genuine_ip passive_docs || given_in show host genuine_ip active_docs) ≡ true
unfolding iter_assets get text_eq norm_host norm items_under each mem
given_genuine = refl

not_wild : mem genuine_ip (wild_ip ∷ []) ≡ false
unfolding mem text_eq
not_wild = refl

merge_branches_keeps_example : asset_count host merged.assets ≡ 1
merge_branches_keeps_example =
    merge_branches_keeps accept [] [] show passive_docs active_docs host genuine_ip (wild_ip ∷ [])
      merge_of_docs wildcards_of_docs given_genuine refl not_wild refl

-- One row whose only address is a catch-all address.
abbrev catchall_row : Row
catchall_row = record {
  attribution = attr_active;
  sources = codes "dns-resolve" ∷ [];
  ips = wild_ip ∷ [];
  alive = null;
  tags = [];
  misconfig_suspect = false;
  http_status = null;
  length_of_body = null;
  tech = [];
  title = null;
}

abbrev one_bucket : Buckets
one_bucket = (host, catchall_row) ∷ []

abbrev out : Merged
out = flush_merged accept [] [] one_bucket (wild_ip ∷ [])

unique_bucket : unique one_bucket ≡ true
unfolding lookup
unique_bucket = refl

flush_merged_places_example :
    (asset_count host out.assets
      ≡ once_if (becomes_asset accept (wild_ip ∷ []) host) (lookup host one_bucket))
    × (quarantine_count host out.quarantine
        ≡ once_if (becomes_quarantined accept (wild_ip ∷ []) host) (lookup host one_bucket))
    × (once_if (is_refused accept host) (lookup host one_bucket) ≤ log_count host out.log)
flush_merged_places_example =
    flush_merged_places accept [] [] (wild_ip ∷ []) one_bucket host unique_bucket

flush_merged-IsSound_example : All (IsSound accept) out.assets
flush_merged-IsSound_example = flush_merged-IsSound accept [] [] one_bucket (wild_ip ∷ [])

abbrev asset : Asset
asset = record {
  host = host;
  ips = genuine_ip ∷ [];
  alive = bool true;
  attribution = attr_both;
  sources = codes "crtsh" ∷ codes "dns-resolve" ∷ [];
  tags = [];
  misconfig_suspect = false;
  http_status = null;
  length_of_body = null;
  tech = [];
  title = null;
}

asset-IsWritten : IsWritten asset
unfolding norm mem text_eq
asset-IsWritten = record {
  host_norm = refl;
  host_there = refl;
  attribution_there = refl;
  ips_there = refl;
  tech_there = refl;
  sources_once = refl;
  tags_once = refl;
  title_shown = λ h. refl;
}

seed_rows-dict_of_asset_example :
    seed_rows show (entries (asset ∷ [])) [] ≡ some (rows_of (asset ∷ []) [])
seed_rows-dict_of_asset_example = seed_rows-dict_of_asset show (asset ∷ []) [] (asset-IsWritten, tt)

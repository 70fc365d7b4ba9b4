-- ===== src/Merge/Output.antt =====
-- pipeline/merge.py: the catch-all addresses, the quarantine, and the assets that a merge writes.
-- The verdict of the scope gate on a candidate is a parameter, which Scope fills.
use moirax_asm.Prelude.{
  ℕ, ◌+◌, ◌-◌, ◌*◌, Bool, true, false, not, ◌&&◌, ◌||◌, Option, none, some, List, [], ◌∷◌, ◌++◌,
  if◌then◌else◌, ◌>>=◌, leb, ltb, ◌==◌, Text, text_eq, is_empty, codes, mem, mem_ℕ, all, any,
  filter, length, split, is_digit,
}
use moirax_asm.Prelude.Dict.{Dict, lookup, insert}
use moirax_asm.Prelude.Json.{Value, Fields, null, bool, str, dict, get, is_truthy}
use moirax_asm.Scope.{Reason, no_ip_includes, ip_not_included, Rejection}
use moirax_asm.Merge.{Row, Buckets, each, list_items, buckets_of}

-- int(p), for a text of digits
abbrev int_of : ℕ → Text → ℕ
int_of acc [] = acc
int_of acc (c ∷ s) = int_of (acc * 10 + (c - b'0')) s

abbrev is_octet : Text → Bool
is_octet p = not (is_empty p) && all is_digit p && leb (int_of 0 p) 255

unfoldable pub looks_ip : Text → Bool
unfolding split
looks_ip value =
    if length (split b'.' value) == 4 then all is_octet (split b'.' value) else mem_ℕ b':' value

-- `if isinstance(value, str) and _looks_ip(value): ips.add(value)`
abbrev ip_text : Option Value → List Text
ip_text (some (str s)) = if looks_ip s then s ∷ [] else []
ip_text v = []

ip_texts : List Value → List Text
ip_texts [] = []
ip_texts (v ∷ vs) = ip_text (some v) ++ ip_texts vs

suspect_ips : List Value → List Text
suspect_ips [] = []
suspect_ips (dict item ∷ vs) =
    ip_text (get (codes "ip") item) ++ (ip_text (get (codes "wildcard_ip") item) ++ suspect_ips vs)
suspect_ips (v ∷ vs) = ip_text (some v) ++ suspect_ips vs

abbrev is_wildcard_source : Option Value → Bool
is_wildcard_source (some (str s)) = text_eq s (codes "wildcard")
is_wildcard_source v = false

probe_row : Fields → Option (List Text)
unfolding ip_texts each
probe_row row =
    if is_wildcard_source (get (codes "source") row)
    then (each (get (codes "ips") row) >>= λ ips. some (ip_texts ips))
    else some []

probe_ips : List Value → Option (List Text)
unfolding probe_row
probe_ips [] = some []
probe_ips (dict row ∷ rest) = do found ← probe_row row; more ← probe_ips rest; some (found ++ more)
probe_ips (v ∷ rest) = probe_ips rest

unfoldable pub wildcard_ips : List Fields → Option (List Text)
unfolding ip_texts suspect_ips probe_ips each
wildcard_ips [] = some []
wildcard_ips (doc ∷ docs) = do
  items ← each (get (codes "wildcard_ips") doc)
  probed ← probe_ips (list_items (get (codes "resolved") doc))
  more ← wildcard_ips docs
  some (
      ip_texts items
      ++ (suspect_ips (list_items (get (codes "wildcard_suspects") doc)) ++ (probed ++ more)))

-- ip_hosts.setdefault(ip, []).append(host)
abbrev pub hosts_of : Option (List Text) → List Text
hosts_of none = []
hosts_of (some hosts) = hosts

note_host : Text → List Text → Dict (List Text) → Dict (List Text)
unfolding lookup insert
note_host host [] d = d
note_host host (ip ∷ ips) d = note_host host ips (insert ip (hosts_of (lookup ip d) ++ host ∷ []) d)

unfoldable pub ip_hosts : Buckets → Dict (List Text) → Dict (List Text)
unfolding note_host
ip_hosts [] d = d
ip_hosts ((host, row) ∷ rest) d = ip_hosts rest (note_host host row.ips d)

unfoldable pub quarantine_reason :
    List Text → List Text → Dict (List Text) → Text → Text → Option Text
quarantine_reason ips wildcards shared wildcard_reason catchall_reason =
    if is_empty ips || is_empty wildcards
    then none
    else if not (all (λ ip. mem ip wildcards) ips)
    then none
    else if any (λ ip. ltb 1 (length (hosts_of (lookup ip shared)))) ips
    then some catchall_reason
    else some wildcard_reason

-- s < t, by code points
unfoldable pub text_lt : Text → Text → Bool
text_lt s [] = false
text_lt [] (b ∷ t) = true
text_lt (a ∷ s) (b ∷ t) = ltb a b || (a == b && text_lt s t)

-- sorted(...), by a key
unfoldable pub insert_sorted {ℓ} : {A : Type ℓ} → (A → Text) → A → List A → List A
insert_sorted key x [] = x ∷ []
insert_sorted key x (y ∷ ys) =
    let rest = insert_sorted key x ys in if text_lt (key y) (key x) then y ∷ rest else x ∷ (y ∷ ys)

unfoldable pub sorted {ℓ} : {A : Type ℓ} → (A → Text) → List A → List A
unfolding insert_sorted text_lt
sorted key [] = []
sorted key (x ∷ xs) = insert_sorted key x (sorted key xs)

-- An entry of "assets". A null status, length or title, a false mark and an empty list are the keys
-- that the entry leaves out.
pub record Asset : Type 0 where
  pub host : Text
  pub ips : List Text
  pub alive : Value
  pub attribution : Text
  pub sources : List Text
  pub tags : List Text
  pub misconfig_suspect : Bool
  pub http_status : Value
  pub length_of_body : Value
  pub tech : List Text
  pub title : Value

pub record Quarantined : Type 0 where
  pub host : Text
  pub ips : List Text
  pub reason : Text

-- What a merge writes: assets.json, and the log of the rejections.
pub record Merged : Type 0 where
  pub assets : List Asset
  pub quarantine : List Quarantined
  pub log : List Rejection

-- The reasons for which an address is kept with a host that is in scope.
abbrev pub is_unlisted : Reason → Bool
is_unlisted no_ip_includes = true
is_unlisted ip_not_included = true
is_unlisted r = false

abbrev pub nothing_merged : Merged
nothing_merged = record { assets = []; quarantine = []; log = [] }

module _ (validate : Text → Bool × Reason) where
  unfoldable pub keeps_ip : Text → Bool
  keeps_ip ip = (validate ip).0 || is_unlisted (validate ip).1

  unfoldable pub ip_rejections : List Text → List Rejection
  unfolding keeps_ip
  ip_rejections [] = []
  ip_rejections (ip ∷ ips) =
      let more = ip_rejections ips in
      if keeps_ip ip then more else record { candidate = ip; reason = (validate ip).1 } ∷ more

  unfoldable pub asset_of : Text → Row → Asset
  unfolding keeps_ip sorted
  asset_of host row =
      let kept = filter keeps_ip row.ips in
      record {
        host = host;
        ips = kept;
        alive = if not (is_empty kept) then bool true else row.alive;
        attribution = row.attribution;
        sources = sorted (λ s. s) row.sources;
        tags = sorted (λ s. s) row.tags;
        misconfig_suspect = row.misconfig_suspect;
        http_status = row.http_status;
        length_of_body = row.length_of_body;
        tech = row.tech;
        title = if is_truthy (some row.title) then row.title else null;
      }

  unfoldable pub place : Text → Row → Option Text → Merged → Merged
  unfolding asset_of ip_rejections
  place host row (some reason) out = record out {
    quarantine = out.quarantine ++ record { host = host; ips = row.ips; reason = reason } ∷ [];
  }
  place host row none out = record out {
    assets = out.assets ++ asset_of host row ∷ [];
    log = out.log ++ ip_rejections row.ips;
  }

  module _ (wildcard_reason catchall_reason : Text) where
    -- The body of the loop over the hosts.
    unfoldable pub flush_row : List Text → Dict (List Text) → Text → Row → Merged → Merged
    unfolding place quarantine_reason
    flush_row wildcards shared host row out =
        if not (validate host).0
        then record out {
          log = out.log ++ record { candidate = host; reason = (validate host).1 } ∷ [];
        }
        else place host row
            (quarantine_reason row.ips wildcards shared wildcard_reason catchall_reason) out

    unfoldable pub flush_rows : List Text → Dict (List Text) → Buckets → Merged → Merged
    flush_rows wildcards shared [] out = out
    flush_rows wildcards shared ((host, row) ∷ rest) out =
        flush_rows wildcards shared rest (flush_row wildcards shared host row out)

    unfoldable pub flush_merged : Buckets → List Text → Merged
    unfolding flush_rows sorted ip_hosts
    flush_merged buckets wildcards =
        flush_rows wildcards (ip_hosts buckets []) (sorted (λ r. r.0) buckets) nothing_merged

    module _ (show : Value → Text) where
      unfoldable pub merge_branches : List Fields → List Fields → Option Merged
      unfolding wildcard_ips buckets_of flush_merged
      merge_branches passive_docs active_docs = do
        wildcards ← wildcard_ips (passive_docs ++ active_docs)
        buckets ← buckets_of show passive_docs active_docs
        some (flush_merged buckets wildcards)

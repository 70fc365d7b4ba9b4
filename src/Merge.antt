-- ===== src/Merge.antt =====
-- pipeline/merge.py: the rows of the hosts, and the reading of a module's document into them.
-- `str(value)` of a value that is no text is a parameter; a loop over a value that has no items is
-- the TypeError of the program, `none`.
pub mod Rows
pub mod Attribution
pub mod Addresses
pub mod Output
pub mod Flush
pub mod Kept
pub mod Sound
pub mod Seed
pub mod Reread
mod Samples
use moirax_asm.Prelude.{
  ℕ, Bool, true, false, not, ◌&&◌, ◌||◌, Option, none, some, List, [], ◌∷◌, ◌++◌, if◌then◌else◌,
  ◌>>=◌, Text, text_eq, is_empty, codes, mem, norm, strip,
}
use moirax_asm.Prelude.Dict.{Dict, lookup, insert}
use moirax_asm.Prelude.Json.{
  Value, Items, Fields, null, bool, int, str, list, dict, nil, end, field, get, is_truthy, items_of,
}

-- A row of `buckets`; sets are lists without repetition.
pub record Row : Type 0 where
  pub attribution : Text
  pub sources : List Text
  pub ips : List Text
  pub alive : Value
  pub tags : List Text
  pub misconfig_suspect : Bool
  pub http_status : Value
  pub length_of_body : Value
  pub tech : List Text
  pub title : Value

abbrev pub Buckets : Type 0
Buckets = Dict Row

abbrev pub attr_passive : Text
attr_passive = codes "passive"

abbrev pub attr_active : Text
attr_active = codes "active"

abbrev pub attr_both : Text
attr_both = codes "both"

-- The characters of a text, as a loop over it gives them.
abbrev pub chars : Text → List Value
chars [] = []
chars (c ∷ s) = str (c ∷ []) ∷ chars s

abbrev pub keys_of : Fields → List Value
keys_of end = []
keys_of (field k v d) = str k ∷ keys_of d

-- for item in value
abbrev pub iterate : Value → Option (List Value)
iterate (list vs) = some (items_of vs)
iterate (str s) = some (chars s)
iterate (dict d) = some (keys_of d)
iterate v = none

-- for item in d.get(key) or []
unfoldable pub each : Option Value → Option (List Value)
each none = some []
each (some v) = if is_truthy (some v) then iterate v else some []

-- d.get(key), with None for a missing key
abbrev pub or_null : Option Value → Value
or_null none = null
or_null (some v) = v

abbrev pub is_null : Value → Bool
is_null null = true
is_null v = false

-- s.add(x)
unfoldable pub add : List Text → Text → List Text
add s x = if mem x s then s else s ++ x ∷ []

-- `if x and x not in xs: xs.append(x)`
unfoldable pub append_new : List Text → Text → List Text
append_new xs x = if is_empty x then xs else if mem x xs then xs else xs ++ x ∷ []

unfoldable pub add_all : (List Text → Text → List Text) → List Text → List Text → List Text
add_all put s [] = s
add_all put s (x ∷ xs) = add_all put (put s x) xs

unfoldable pub norm_host : Option Value → Option Text
norm_host (some (str s)) = if is_empty (norm s) then none else some (norm s)
norm_host v = none

-- a or b
abbrev pub or_else : Option Value → Option Value → Option Value
or_else a b = if is_truthy a then a else b

-- The rows of one list of a document, with the hosts that they name.
unfoldable pub named_rows : (Fields → Option Value) → List Value → List (Text × Fields)
named_rows host_of [] = []
named_rows host_of (dict row ∷ rest) =
    let more = named_rows host_of rest in
    elim (norm_host (host_of row)) [ some host ↦ (host, row) ∷ more | none ↦ more ]
named_rows host_of (v ∷ rest) = named_rows host_of rest

-- `if isinstance(value, list)`
abbrev pub list_items : Option Value → List Value
list_items (some (list vs)) = items_of vs
list_items v = []

unfoldable pub iter_assets : Fields → List (Text × Fields)
unfolding named_rows
iter_assets doc =
    named_rows (λ row. or_else (get (codes "host") row) (get (codes "fqdn") row))
      (list_items (get (codes "candidates") doc))
    ++ (named_rows (λ row. or_else (get (codes "fqdn") row) (get (codes "host") row))
          (list_items (get (codes "hosts") doc))
        ++ (named_rows (λ row. get (codes "host") row) (list_items (get (codes "resolved") doc))
            ++ named_rows (λ row. get (codes "vhost") row) (list_items (get (codes "vhosts") doc))))

unfoldable pub new_row : Text → Row
new_row branch = record {
  attribution = branch;
  sources = [];
  ips = [];
  alive = null;
  tags = [];
  misconfig_suspect = false;
  http_status = null;
  length_of_body = null;
  tech = [];
  title = null;
}

-- `buckets.get(host)`, with the attribution that the branch leaves.
unfoldable pub row_for : Text → Option Row → Row
unfolding new_row
row_for branch none = new_row branch
row_for branch (some row) =
    if not (text_eq row.attribution branch) then record row { attribution = attr_both } else row

abbrev pub alive_after : Value → Value → Value
alive_after (bool true) old = bool true
alive_after (bool false) null = bool false
alive_after v old = old

abbrev is_true : Option Value → Bool
is_true (some (bool b)) = b
is_true v = false

-- `if new is not None: old = new`
abbrev replace_if_given : Value → Value → Value
replace_if_given new old = if is_null new then old else new

module _ (show : Value → Text) where
  -- str(value)
  abbrev pub text_of : Value → Text
  text_of (str s) = s
  text_of v = show v

  abbrev pub texts_of : List Value → List Text
  texts_of [] = []
  texts_of (v ∷ vs) = text_of v ∷ texts_of vs

  abbrev pub stripped_texts : List Value → List Text
  stripped_texts [] = []
  stripped_texts (v ∷ vs) = strip (text_of v) ∷ stripped_texts vs

  -- The items of `meta` under a key.
  unfoldable pub items_under : Text → Fields → Option (List Value)
  items_under key meta = each (get key meta)

  abbrev tool_of : Text → Fields → Text
  tool_of branch doc =
      if is_truthy (get (codes "module") doc)
      then text_of (or_null (get (codes "module") doc))
      else branch

  abbrev title_after : Fields → Value → Value
  title_after meta old =
      if is_truthy (get (codes "title") meta) && not (is_truthy (some old))
      then str (text_of (or_null (get (codes "title") meta)))
      else old

  -- The body of the loop over the hosts, once the lists of `meta` are read.
  unfoldable pub merge_row :
      Text → Fields → List Value → List Value → List Value → List Value → Row → Row
  unfolding add append_new add_all
  merge_row tool meta sources ips tags tech row = record {
    attribution = row.attribution;
    sources = add_all add (add row.sources tool) (texts_of sources);
    ips = add_all append_new row.ips (texts_of ips);
    alive = alive_after (or_null (get (codes "alive") meta)) row.alive;
    tags = add_all add row.tags (texts_of tags);
    misconfig_suspect = row.misconfig_suspect || is_true (get (codes "misconfig_suspect") meta);
    http_status = replace_if_given (or_null (get (codes "http_status") meta)) row.http_status;
    length_of_body = replace_if_given (or_null (get (codes "length") meta)) row.length_of_body;
    tech = add_all append_new row.tech (stripped_texts tech);
    title = title_after meta row.title;
  }

  unfoldable pub ingest_row : Text → Text → Text → Fields → Buckets → Option Buckets
  unfolding merge_row row_for items_under each
  ingest_row branch tool host meta buckets = do
    sources ← items_under (codes "sources") meta
    ips ← items_under (codes "ips") meta
    tags ← items_under (codes "tags") meta
    tech ← items_under (codes "tech") meta
    let row = row_for branch (lookup host buckets)
    some (insert host (merge_row tool meta sources ips tags tech row) buckets)

  unfoldable pub ingest_rows : Text → Text → List (Text × Fields) → Buckets → Option Buckets
  ingest_rows branch tool [] buckets = some buckets
  ingest_rows branch tool ((host, meta) ∷ rest) buckets = do
    after ← ingest_row branch tool host meta buckets
    ingest_rows branch tool rest after

  unfoldable pub ingest : Text → Fields → Buckets → Option Buckets
  unfolding iter_assets ingest_rows
  ingest branch doc buckets = ingest_rows branch (tool_of branch doc) (iter_assets doc) buckets

  unfoldable pub ingest_all : Text → List Fields → Buckets → Option Buckets
  ingest_all branch [] buckets = some buckets
  ingest_all branch (doc ∷ docs) buckets = do
    after ← ingest branch doc buckets
    ingest_all branch docs after

  -- The buckets of `merge_branches`.
  unfoldable pub buckets_of : List Fields → List Fields → Option Buckets
  unfolding ingest_all
  buckets_of passive_docs active_docs = do
    passive ← ingest_all attr_passive passive_docs []
    ingest_all attr_active active_docs passive

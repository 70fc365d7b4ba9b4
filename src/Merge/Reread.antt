-- ===== src/Merge/Reread.antt =====
-- pipeline/merge.py: a merge reads back the assets that the one before it wrote.
use moirax_asm.Prelude.{
  ◌≡◌, refl, sym, ap, ◌∙◌, Bool, true, false, not, none, some, List, [], ◌∷◌, ◌++◌, if◌then◌else◌,
  Text, text_eq, text_eq_iff, codes, mem, mem-append, norm, is_empty, filter, All, all, distinct,
  Bool-cases, inl, inr, arith, map,
}
use mathlib.Core.List.{append_assoc, append-nil}
use moirax_asm.Prelude.Dict.{insert}
use moirax_asm.Prelude.Json.{Value, Fields, null, bool, str, list, dict, get, is_truthy, items_of}
use moirax_asm.Merge.{
  attr_active, is_null, or_null, Row, Buckets, each, add, add_all, norm_host, items_under, texts_of,
}
use moirax_asm.Merge.Output.{Asset}
use moirax_asm.Merge.Seed.{
  to_items, entry_if, dict_of_asset, seed_row, seed_asset, seed_rows, text_or,
}

items_of-to_items : (xs : List Text) → items_of (to_items xs) ≡ map str xs
items_of-to_items [] = refl
items_of-to_items (x ∷ xs) = ap (λ (vs : List Value). str x ∷ vs) (items_of-to_items xs)

each-to_items : (xs : List Text) → each (some (list (to_items xs))) ≡ some (map str xs)
unfolding each
each-to_items [] = refl
each-to_items (x ∷ xs) = ap (λ (vs : List Value). some (str x ∷ vs)) (items_of-to_items xs)

texts_of-map_str : (show : Value → Text) (xs : List Text) → texts_of show (map str xs) ≡ xs
texts_of-map_str show [] = refl
texts_of-map_str show (x ∷ xs) = ap (λ (ts : List Text). x ∷ ts) (texts_of-map_str show xs)

abbrev truthy : Value → Bool
truthy v = is_truthy (some v)

filter-map_str :
    (xs : List Text)
    → all (λ x. not (is_empty x)) xs ≡ true
    → filter truthy (map str xs) ≡ map str xs
filter-map_str [] h = refl
filter-map_str ([] ∷ xs) h = cc
filter-map_str ((c ∷ x) ∷ xs) h = ap (λ (vs : List Value). str (c ∷ x) ∷ vs) (filter-map_str xs h)

abbrev fresh : List Text → List Text → Bool
fresh acc xs = all (λ x. not (mem x acc)) xs

fresh-append :
    (acc : List Text) (x : Text) (xs : List Text)
    → fresh acc xs ≡ true
    → mem x xs ≡ false
    → fresh (acc ++ x ∷ []) xs ≡ true
unfolding mem
fresh-append acc x [] f m = refl
fresh-append acc x (y ∷ ys) f m =
    ground (arith, fresh-append acc x ys, mem-append y acc x, text_eq_iff y x, text_eq_iff x y)

fresh_none : (xs : List Text) → fresh [] xs ≡ true
unfolding mem
fresh_none [] = refl
fresh_none (x ∷ xs) = fresh_none xs

add_all_fresh :
    (acc xs : List Text) → distinct xs ≡ true → fresh acc xs ≡ true → add_all add acc xs ≡ acc ++ xs
unfolding add_all add
add_all_fresh acc [] d f = sym (append-nil acc)
add_all_fresh acc (x ∷ xs) d f =
    let m : mem x acc ≡ false = ground arith in
    rw m (
      add_all_fresh (acc ++ x ∷ []) xs (ground arith)
        (fresh-append acc x xs (ground arith) (ground arith))
      ∙ append_assoc acc (x ∷ []) xs)

get-entry_if :
    (j : Text) (given : Bool) (key : Text) (v : Value) (rest : Fields)
    → get j (entry_if given key v rest)
      ≡ (if text_eq key j then (if given then some v else get j rest) else get j rest)
unfolding get entry_if
get-entry_if j given key v rest = ground arith

-- What a merge writes of an asset: names in the form of `norm_host`, lists of texts that are not
-- empty, sets without repetition, and no title but one to show.
pub record IsWritten (a : Asset) : Type 0 where
  pub host_norm : norm a.host ≡ a.host
  pub host_there : is_empty a.host ≡ false
  pub attribution_there : is_empty a.attribution ≡ false
  pub ips_there : all (λ x. not (is_empty x)) a.ips ≡ true
  pub tech_there : all (λ x. not (is_empty x)) a.tech ≡ true
  pub sources_once : distinct a.sources ≡ true
  pub tags_once : distinct a.tags ≡ true
  pub title_shown : is_truthy (some a.title) ≡ false → a.title ≡ null

-- The row that an asset stands for.
abbrev pub row_of : Asset → Row
row_of a = record {
  attribution = a.attribution;
  sources = a.sources;
  ips = a.ips;
  alive = a.alive;
  tags = a.tags;
  misconfig_suspect = a.misconfig_suspect;
  http_status = a.http_status;
  length_of_body = a.length_of_body;
  tech = a.tech;
  title = a.title;
}

module _ (a : Asset) where
  get_tags :
      get (codes "tags") (dict_of_asset a)
      ≡ (if not (is_empty a.tags) then some (list (to_items a.tags)) else none)
  unfolding get dict_of_asset text_eq
  get_tags = simp (get-entry_if)

  get_tech :
      get (codes "tech") (dict_of_asset a)
      ≡ (if not (is_empty a.tech) then some (list (to_items a.tech)) else none)
  unfolding get dict_of_asset text_eq
  get_tech = simp (get-entry_if)

  get_suspect :
      get (codes "misconfig_suspect") (dict_of_asset a)
      ≡ (if a.misconfig_suspect then some (bool true) else none)
  unfolding get dict_of_asset text_eq
  get_suspect = simp (get-entry_if)

  get_status :
      get (codes "http_status") (dict_of_asset a)
      ≡ (if not (is_null a.http_status) then some (a.http_status) else none)
  unfolding get dict_of_asset text_eq
  get_status = simp (get-entry_if)

  get_length :
      get (codes "length") (dict_of_asset a)
      ≡ (if not (is_null a.length_of_body) then some (a.length_of_body) else none)
  unfolding get dict_of_asset text_eq
  get_length = simp (get-entry_if)

  get_title :
      get (codes "title") (dict_of_asset a)
      ≡ (if is_truthy (some a.title) then some (a.title) else none)
  unfolding get dict_of_asset text_eq
  get_title = simp (get-entry_if)

each_if_there :
    (xs : List Text)
    → each (if not (is_empty xs) then some (list (to_items xs)) else none) ≡ some (map str xs)
unfolding each
each_if_there [] = refl
each_if_there (x ∷ xs) = each-to_items (x ∷ xs)

or_null_if_there : (v : Value) → or_null (if not (is_null v) then some v else none) ≡ v
or_null_if_there null = refl
or_null_if_there v = refl

set_of : (xs : List Text) → distinct xs ≡ true → add_all add [] xs ≡ xs
set_of xs d = add_all_fresh [] xs d (fresh_none xs)

text_or_there :
    (show : Value → Text) (default s : Text)
    → is_empty s ≡ false
    → text_or show default (some (str s)) ≡ s
text_or_there show default [] h = cc
text_or_there show default (c ∷ s) h = refl

suspect_there : (b : Bool) → is_truthy (if b then some (bool true) else none) ≡ b
suspect_there true = refl
suspect_there false = refl

title_there :
    (v : Value)
    → (is_truthy (some v) ≡ false → v ≡ null)
    → or_null (if is_truthy (some v) then some v else none) ≡ v
title_there v h = elim (Bool-cases (is_truthy (some v))) [
  | inl e ↦ rw e refl
  | inr e ↦ rw e (sym (h e))
]

module _ (show : Value → Text) (a : Asset) (w : IsWritten a) where
  seed_row-dict_of_asset : seed_row show (dict_of_asset a) ≡ some (row_of a)
  unfolding seed_row items_under get dict_of_asset text_eq
  seed_row-dict_of_asset =
      rw
        (
          each-to_items a.sources,
          each-to_items a.ips,
          get_tags a,
          each_if_there a.tags,
          get_tech a,
          each_if_there a.tech,
          get_suspect a,
          suspect_there a.misconfig_suspect,
          get_status a,
          or_null_if_there a.http_status,
          get_length a,
          or_null_if_there a.length_of_body,
          get_title a,
          title_there a.title w.title_shown,
          filter-map_str a.ips w.ips_there,
          filter-map_str a.tech w.tech_there,
          texts_of-map_str show a.sources,
          texts_of-map_str show a.tags,
          texts_of-map_str show a.ips,
          texts_of-map_str show a.tech,
          set_of a.sources w.sources_once,
          set_of a.tags w.tags_once,
          text_or_there show attr_active a.attribution w.attribution_there,
        )
        refl

abbrev pub entries : List Asset → List Value
entries [] = []
entries (a ∷ rest) = dict (dict_of_asset a) ∷ entries rest

-- The buckets with a row for each asset.
abbrev pub rows_of : List Asset → Buckets → Buckets
rows_of [] b = b
rows_of (a ∷ rest) b = rows_of rest (insert a.host (row_of a) b)

host_of_entry :
    (a : Asset) → IsWritten a → norm_host (get (codes "host") (dict_of_asset a)) ≡ some a.host
unfolding get dict_of_asset text_eq norm_host
host_of_entry a w = rw w.host_norm (ground (arith, w.host_there))

seed_entry :
    (show : Value → Text) (a : Asset) (b : Buckets)
    → IsWritten a
    → seed_asset show (norm_host (get (codes "host") (dict_of_asset a))) (dict_of_asset a) b
      ≡ some (insert a.host (row_of a) b)
unfolding seed_asset
seed_entry show a b w = rw (host_of_entry a w, seed_row-dict_of_asset show a w) refl

-- Given assets in the form that a merge writes: reading their entries back gives each host the row
-- that its asset stands for, whatever keys the entry leaves out.
pub seed_rows-dict_of_asset :
    (show : Value → Text) (assets : List Asset) (b : Buckets)
    → All IsWritten assets
    → seed_rows show (entries assets) b ≡ some (rows_of assets b)
unfolding seed_rows
seed_rows-dict_of_asset show [] b w = refl
seed_rows-dict_of_asset show (a ∷ rest) b w =
    rw (seed_entry show a b w.0)
      (seed_rows-dict_of_asset show rest (insert a.host (row_of a) b) w.1)

-- ===== src/CustomLists/Learned.antt =====
-- pipeline/custom_lists.py: the hosts that a run has proven, and the labels that it learns of them.
use moirax_asm.Prelude.{
  ℕ, ◌+◌, Bool, false, not, ◌&&◌, ◌||◌, Option, none, some, List, [], ◌∷◌, ◌++◌, take, ◌-◌, map,
  if◌then◌else◌, Text, text_eq, codes, mem, is_empty, is_dot, length, strip, lower, norm, lstrip,
  rstrip, ends_with, filter,
}
use moirax_asm.Prelude.Dict.{lookup, insert}
use moirax_asm.Prelude.Json.{Value, Fields, bool, str, list, dict, get, is_truthy, items_of}
use moirax_asm.CustomLists.{
  Lists, Entry, learned_key, matches_line_re, splitlines, join_lines, ensure_learned_list,
  learned_path,
}

unfoldable pub label_of : Text → Text → Option Text
unfolding lower strip rstrip lstrip text_eq ends_with matches_line_re
label_of raw target =
    let host = rstrip is_dot (lstrip is_dot (strip (lower raw))) in
    let prefix = take (length host - (length target + 1)) host in
    if text_eq host target
    then none
    else if not (ends_with host (b'.' ∷ target))
    then none
    else if is_empty prefix || not (matches_line_re prefix)
    then none
    else some prefix

-- `_add`
unfoldable pub add_host : Text → List Text → List Text
unfolding norm mem
add_host host valid =
    if is_empty (norm host) || mem (norm host) valid then valid else valid ++ norm host ∷ []

abbrev list_of : Option Value → List Value
list_of (some (list vs)) = items_of vs
list_of v = []

abbrev is_true : Option Value → Bool
is_true (some (bool b)) = b
is_true v = false

abbrev or_else : Option Value → Option Value → Option Value
or_else a b = if is_truthy a then a else b

module _ (show : Value → Text) where
  -- str(value or "")
  abbrev text_or_empty : Option Value → Text
  text_or_empty none = []
  text_or_empty (some (str s)) = s
  text_or_empty (some v) = if is_truthy (some v) then show v else []

  abbrev host_text : Option Value → Text
  unfolding lower strip
  host_text v = lower (strip (text_or_empty v))

  abbrev is_resolved : Fields → Bool
  unfolding get text_eq lower strip
  is_resolved row =
      not (is_empty (host_text (get (codes "host") row)))
      && is_truthy (get (codes "ips") row)
      && not (
          text_eq
            (if is_truthy (get (codes "resolution_status") row)
              then text_or_empty (get (codes "resolution_status") row)
              else codes "resolved")
            (codes "unresolved"))

  -- The rows of dns-resolve: the hosts that they resolve, and those that are added.
  resolved_rows : List Value → List Text → List Text
  unfolding is_resolved get
  resolved_rows [] ok = ok
  resolved_rows (dict row ∷ rest) ok =
      resolved_rows rest
        (if is_resolved row then ok ++ host_text (get (codes "host") row) ∷ [] else ok)
  resolved_rows (v ∷ rest) ok = resolved_rows rest ok

  -- A loop over rows: the host of a row, and whether the row proves it.
  unfoldable pub proven_rows :
      (Fields → Text) → (Fields → Text → Bool) → List Value → List Text → List Text
  unfolding add_host
  proven_rows host_of proves [] valid = valid
  proven_rows host_of proves (dict row ∷ rest) valid = proven_rows host_of proves rest (
      if not (is_empty (host_of row)) && proves row (host_of row)
      then add_host (host_of row) valid
      else valid)
  proven_rows host_of proves (v ∷ rest) valid = proven_rows host_of proves rest valid

  -- The documents of dns-resolve, the passive recon, ffuf, ffuf-4 and the merge; a missing one is
  -- empty.
  unfoldable pub valid_discovered_hosts : Fields → Fields → Fields → Fields → Fields → List Text
  unfolding resolved_rows proven_rows is_resolved get mem lower strip text_eq
  valid_discovered_hosts dnsr passive ffuf ffuf4 assets =
      let host = λ (row : Fields). host_text (get (codes "host") row) in
      let vhost = λ (row : Fields). host_text (get (codes "vhost") row) in
      let fqdn =
        λ (row : Fields). host_text (or_else (get (codes "fqdn") row) (get (codes "host") row)) in
      let resolved = resolved_rows (list_of (get (codes "resolved") dnsr)) [] in
      let alive =
        λ (row : Fields) (h : Text). is_true (get (codes "alive") row) || mem h resolved in
      let alive_vhost = λ (row : Fields) (h : Text).
        is_true (get (codes "alive") row)
        || is_true (get (codes "misconfig_suspect") row)
        || mem h resolved in
      let asset = λ (row : Fields) (h : Text).
        is_truthy (get (codes "ips") row) || is_true (get (codes "alive") row) in
      let a =
        proven_rows host (λ row h. is_resolved row) (list_of (get (codes "resolved") dnsr)) [] in
      let b = proven_rows host alive (list_of (get (codes "candidates") passive)) a in
      let c = proven_rows fqdn alive (list_of (get (codes "hosts") ffuf)) b in
      let d = proven_rows vhost alive_vhost (list_of (get (codes "vhosts") ffuf)) c in
      let e = proven_rows vhost alive_vhost (list_of (get (codes "vhosts") ffuf4)) d in
      proven_rows host asset (list_of (get (codes "assets") assets)) e

-- `allowed` is the gate's verdict, or the test of the suffix where there is no gate.
abbrev pub in_target : Text → Text → Bool
in_target target host = text_eq host target || ends_with host (b'.' ∷ target)

abbrev add_label : Option Text → List Text → List Text
add_label none labels = labels
add_label (some label) labels = if mem label labels then labels else labels ++ label ∷ []

unfoldable pub labels_from : (Text → Bool) → Text → List Text → List Text → List Text
unfolding label_of mem
labels_from allowed target [] labels = labels
labels_from allowed target (host ∷ hosts) labels =
    labels_from allowed target hosts
      (if allowed host then add_label (label_of host target) labels else labels)

abbrev path_in : Option Entry → Text
path_in none = learned_path
path_in (some e) = e.path

abbrev text_in : Option Text → Text
text_in none = []
text_in (some t) = t

-- The lines of a file.
unfoldable pub entries_in : Option Text → List Text
unfolding splitlines strip
entries_in file = filter (λ l. not (is_empty l)) (map strip (splitlines (text_in file)))

abbrev pub with_entries : ℕ → Option Entry → Lists → Lists
with_entries n none l = l
with_entries n (some e) l = record l {
  index = insert learned_key (record e { entries = n }) l.index;
}

-- The path of the learned list, once it is registered.
unfoldable pub path_of_learned : Lists → Text
unfolding ensure_learned_list lookup
path_of_learned l = path_in (lookup learned_key (ensure_learned_list l).index)

-- The file is written only if there are labels to add.
unfoldable pub write_learned : Text → List Text → List Text → Lists → Lists
unfolding join_lines insert
write_learned path existing added l =
    if is_empty added
    then l
    else record l { files = insert path (join_lines (existing ++ added)) l.files }

unfoldable pub ingest_learned_labels : (Text → Bool) → List Text → Text → Lists → Lists
unfolding ensure_learned_list labels_from entries_in lookup mem path_of_learned write_learned
ingest_learned_labels allowed hosts target l =
    let r = ensure_learned_list l in
    let path = path_of_learned l in
    let existing = entries_in (lookup path r.files) in
    let added = filter (λ x. not (mem x existing)) (labels_from allowed target hosts []) in
    let written = write_learned path existing added r in
    with_entries (length existing + length added) (lookup learned_key written.index) written

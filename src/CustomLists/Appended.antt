-- ===== src/CustomLists/Appended.antt =====
-- pipeline/custom_lists.py: the learned list is only appended to, and the one name by which an
-- operator's list takes its place.
use moirax_asm.Prelude.{
  ℕ, ◌≡◌, refl, sym, ap, ◌∙◌, Bool, true, false, not, ◌&&◌, Option, none, some, List, [], ◌∷◌, ◌++◌,
  reverse, map, Text, text_eq, text_eq_iff, is_none, leb, length, codes, mem, is_empty, strip,
  lstrip, rstrip, is_space, filter, all, arith, reverse_cons,
}
use mathlib.Core.List.{append-nil, reverse-append, reverse-reverse}
use moirax_asm.Prelude.Dict.{Dict, lookup, insert, remove, lookup-insert, lookup-remove}
use moirax_asm.CustomLists.{
  Lists, Entry, made, refused, after_made, learned_kept, bad_name, empty_list, too_large,
  secret_found, no_entries, ensure, decoded, max_bytes, normalize_lines, learned_key, learned_path,
  is_break, is_line_char, lines_from, splitlines, join_lines, add_custom_list, remove_custom_list,
  matches_name_re, file_of, ensure_learned_list,
}
use moirax_asm.CustomLists.Learned.{
  entries_in, ingest_learned_labels, path_of_learned, labels_from, with_entries, write_learned,
}

-- A line of LINE_RE.
abbrev pub is_entry : Text → Bool
is_entry l = not (is_empty l) && all is_line_char l

lines_from_line :
    (cur l rest : Text)
    → all (λ c. not (is_break c)) l ≡ true
    → lines_from cur (l ++ 10 ∷ rest) ≡ (reverse cur ++ l) ∷ lines_from [] rest
unfolding lines_from
lines_from_line cur [] rest h =
    ap (λ (v : Text). v ∷ lines_from [] rest) (sym (append-nil (reverse cur)))
lines_from_line cur (c ∷ l) rest h =
    let e : is_break c ≡ false = ground arith in
    rw e (
      lines_from_line (c ∷ cur) l rest (ground arith)
      ∙ ap (λ (v : Text). v ∷ lines_from [] rest) (reverse_cons c cur l))

unbroken : (l : Text) → all is_line_char l ≡ true → all (λ c. not (is_break c)) l ≡ true
unbroken [] h = refl
unbroken (c ∷ l) h = ground (arith, unbroken l)

splitlines-join_lines : (ls : List Text) → all is_entry ls ≡ true → splitlines (join_lines ls) ≡ ls
unfolding splitlines join_lines lines_from
splitlines-join_lines [] h = refl
splitlines-join_lines (l ∷ ls) h =
    lines_from_line [] l (join_lines ls) (unbroken l (ground arith))
    ∙ ap (λ (v : List Text). l ∷ v) (splitlines-join_lines ls (ground arith))

lstrip_id : (p : ℕ → Bool) (s : Text) → all (λ c. not (p c)) s ≡ true → lstrip p s ≡ s
unfolding lstrip
lstrip_id p [] h = refl
lstrip_id p (c ∷ s) h = ground arith

all-append {ℓ} :
    {A : Type ℓ} (p : A → Bool) (xs ys : List A) → all p (xs ++ ys) ≡ (all p xs && all p ys)
all-append p [] ys = refl
all-append p (x ∷ xs) ys = ground (arith, all-append p xs ys)

all-reverse {ℓ} : {A : Type ℓ} (p : A → Bool) (xs : List A) → all p (reverse xs) ≡ all p xs
all-reverse p [] = refl
all-reverse p (x ∷ xs) =
    ap (all p) (reverse-append (x ∷ []) xs)
    ∙ all-append p (reverse xs) (x ∷ [])
    ∙ ground (arith, all-reverse p xs)

unspaced : (l : Text) → all is_line_char l ≡ true → all (λ c. not (is_space c)) l ≡ true
unspaced [] h = refl
unspaced (c ∷ l) h = ground (arith, unspaced l)

strip_id : (s : Text) → all (λ c. not (is_space c)) s ≡ true → strip s ≡ s
unfolding strip rstrip
strip_id s h =
    let e : lstrip is_space s ≡ s = lstrip_id is_space s h in
    rw e (
      let r : lstrip is_space (reverse s) ≡ reverse s =
        lstrip_id is_space (reverse s) (all-reverse (λ c. not (is_space c)) s ∙ h) in
      rw r (reverse-reverse s))

kept_entries :
    (ls : List Text) → all is_entry ls ≡ true → filter (λ l. not (is_empty l)) (map strip ls) ≡ ls
kept_entries [] h = refl
kept_entries (l ∷ ls) h =
    let e : strip l ≡ l = strip_id l (unspaced l (ground arith)) in
    rw e (ground (arith, kept_entries ls))

-- The lines of a list that is written are read back.
entries_in-join_lines :
    (ls : List Text) → all is_entry ls ≡ true → entries_in (some (join_lines ls)) ≡ ls
unfolding entries_in
entries_in-join_lines ls h = rw (splitlines-join_lines ls h) (kept_entries ls h)

-- What the learned list holds.
abbrev pub learned_in : Text → Lists → List Text
learned_in path l = entries_in (lookup path l.files)

abbrev pub new_labels : (Text → Bool) → Text → List Text → List Text → List Text
new_labels allowed target hosts existing =
    filter (λ x. not (mem x existing)) (labels_from allowed target hosts [])

files-with_entries : (n : ℕ) (e : Option Entry) (l : Lists) → (with_entries n e l).files ≡ l.files
files-with_entries n none l = refl
files-with_entries n (some e) l = refl

all-filter_plain :
    (p q : Text → Bool) (xs : List Text) → all p xs ≡ true → all p (filter q xs) ≡ true
all-filter_plain p q [] h = refl
all-filter_plain p q (x ∷ xs) h = ground (arith, all-filter_plain p q xs)

learned_in-write_learned :
    (path : Text) (added : List Text) (l : Lists)
    → all is_entry (learned_in path l ++ added) ≡ true
    → learned_in path (write_learned path (learned_in path l) added l) ≡ learned_in path l ++ added
unfolding write_learned
learned_in-write_learned path [] l h = sym (append-nil (learned_in path l))
learned_in-write_learned path (a ∷ added) l h =
    ap entries_in (
      lookup-insert path path (join_lines (learned_in path l ++ a ∷ added)) l.files
      ∙ ground (arith, text_eq_iff path path))
    ∙ entries_in-join_lines (learned_in path l ++ a ∷ added) h

-- Given a learned list and labels of LINE_RE's characters: a run appends to the list its labels that
-- the list does not hold, in their order, and changes no entry of it.
pub ingest_learned_labels-appends :
    (allowed : Text → Bool) (hosts : List Text) (target : Text) (l : Lists)
    → let path = path_of_learned l in
      let existing = learned_in path (ensure_learned_list l) in
      all is_entry existing ≡ true
      → all is_entry (labels_from allowed target hosts []) ≡ true
      → learned_in path (ingest_learned_labels allowed hosts target l)
        ≡ existing ++ new_labels allowed target hosts existing
unfolding ingest_learned_labels
ingest_learned_labels-appends allowed hosts target l h k =
    let path = path_of_learned l in
    let r = ensure_learned_list l in
    let existing = learned_in path r in
    let added = new_labels allowed target hosts existing in
    let entries : all is_entry (existing ++ added) ≡ true =
      all-append is_entry existing added
      ∙ ground (
        arith,
        h,
        all-filter_plain is_entry (λ x. not (mem x existing)) (labels_from allowed target hosts [])
            k,
      ) in
    ap (λ (files : Dict Text). entries_in (lookup path files))
      (files-with_entries _ _ (write_learned path existing added r))
    ∙ learned_in-write_learned path added r entries

-- What an addition leaves: the row of the list, and its file with the lines that were read.
record IsAdded (decode : List ℕ → Option Text) (name : Text) (bytes : List ℕ) (l' : Lists)
    : Type 0 where
  text : Text
  lines : List Text
  decodes : decode bytes ≡ some text
  normalizes : normalize_lines text ≡ made lines
  registered : is_none (lookup name l'.index) ≡ false
  written : lookup (file_of name) l'.files ≡ some (join_lines lines)

decoded-made : (o : Option Text) {text : Text} → decoded o ≡ made text → o ≡ some text
decoded-made none e = ground (arith, e)
decoded-made (some t) e = ground (arith, e)

add_custom_list-IsAdded :
    (has_secret : Text → Bool) (decode : List ℕ → Option Text) (name : Text) (bytes : List ℕ)
    (origin : Text) (l : Lists) {l' : Lists}
    → add_custom_list has_secret decode name bytes origin l ≡ made l'
    → IsAdded decode name bytes l'
unfolding add_custom_list
add_custom_list-IsAdded has_secret decode name bytes origin l {l'} e =
    let (a1, p1, e1) = after_made _ (ensure (matches_name_re name) bad_name) _ e in
    let (a2, p2, e2) = after_made _ (ensure (not (is_empty bytes)) empty_list) _ e1 in
    let (a3, p3, e3) = after_made _ (ensure (leb (length bytes) max_bytes) too_large) _ e2 in
    let (text, p4, e4) = after_made _ (decoded (decode bytes)) _ e3 in
    let (a5, p5, e5) = after_made _ (ensure (not (has_secret text)) secret_found) _ e4 in
    let (lines, p6, e6) = after_made _ (normalize_lines text) _ e5 in
    let (a7, p7, e7) = after_made _ (ensure (not (is_empty lines)) no_entries) _ e6 in
    let entry : Entry = record {
      path = file_of name;
      entries = length lines;
      shape = codes "custom";
      origin = origin;
    } in
    let q : insert name entry l.index ≡ l'.index = ground (arith, e7) in
    let w : insert (file_of name) (join_lines lines) l.files ≡ l'.files = ground (arith, e7) in
    record {
      text = text;
      lines = lines;
      decodes = decoded-made (decode bytes) p4;
      normalizes = p6;
      registered =
          rw (← q) (ground (arith, lookup-insert name name entry l.index, text_eq_iff name name));
      written = rw (← w) (
          ground (
            arith,
            lookup-insert (file_of name) (file_of name) (join_lines lines) l.files,
            text_eq_iff (file_of name) (file_of name),
          ));
    }

-- An operator's list of the name `platform-learned` replaces the content of the learned list's file
-- by the lines that are read from the operator's bytes, and its removal deletes this file, although
-- the removal of the learned list is refused.
pub remove_custom_list-erases :
    (has_secret : Text → Bool) (decode : List ℕ → Option Text) (bytes : List ℕ) (origin : Text)
    (l : Lists) {l' : Lists}
    → add_custom_list has_secret decode (codes "platform-learned") bytes origin l ≡ made l'
    → ((text : Text) × (lines : List Text) × (decode bytes ≡ some text)
        × (normalize_lines text ≡ made lines)
        × (lookup learned_path l'.files ≡ some (join_lines lines)))
      × ((l'' : Lists) × (remove_custom_list (codes "platform-learned") l' ≡ made l'')
          × (lookup learned_path l''.files ≡ none)
          × (remove_custom_list learned_key l' ≡ refused learned_kept))
unfolding remove_custom_list text_eq
remove_custom_list-erases has_secret decode bytes origin l {l'} e =
    let there =
      add_custom_list-IsAdded has_secret decode (codes "platform-learned") bytes origin l e in
    (
      (there.text, there.lines, there.decodes, there.normalizes, there.written),
      (
        record {
          files = remove learned_path l'.files;
          index = remove (codes "platform-learned") l'.index;
        },
        rw there.registered refl,
        lookup-remove learned_path learned_path l'.files
            ∙ ground (arith, text_eq_iff learned_path learned_path),
        refl,
      ),
    )

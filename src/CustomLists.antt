-- ===== src/CustomLists.antt =====
-- pipeline/custom_lists.py: the operator's word lists, and the list that the platform learns. The
-- files are a dictionary from paths to texts. The scan for secrets and the
-- decoding of UTF-8 are parameters.
pub mod Learned
pub mod Appended
mod Samples
use moirax_asm.Prelude.{
  ℕ, suc, ◌≡◌, refl, ◌+◌, ◌*◌, Bool, true, false, not, ◌&&◌, ◌||◌, Option, none, some, List, [],
  ◌∷◌, ◌++◌, reverse, if◌then◌else◌, leb, ltb, ◌==◌, Text, text_eq, codes, mem, is_empty, is_lower,
  is_upper, is_digit, all, length, strip, starts_with, is_none, filter,
}
use moirax_asm.Prelude.Dict.{Dict, lookup, insert, remove}

abbrev pub learned_key : Text
learned_key = codes "platform_learned"

abbrev pub learned_path : Text
learned_path = codes "wordlists/custom/platform-learned.txt"

-- `$` at the end of a regular expression also matches before a last line feed.
abbrev pub up_to_end : (Text → Bool) → Text → Bool
up_to_end p [] = p []
up_to_end p (c ∷ s) =
    p (c ∷ s) || elim (reverse (c ∷ s)) [ [] ↦ false | d ∷ t ↦ d == 10 && p (reverse t) ]

abbrev is_name_start : ℕ → Bool
is_name_start c = is_lower c || is_digit c

abbrev is_name : Text → Bool
is_name [] = false
is_name (c ∷ s) =
    is_name_start c
    && all (λ d. is_name_start d || d == b'_' || d == b'-') s
    && leb 2 (length s)
    && leb (length s) 40

-- NAME_RE
unfoldable pub matches_name_re : Text → Bool
matches_name_re s = up_to_end is_name s

abbrev pub is_line_char : ℕ → Bool
is_line_char c = is_lower c || is_upper c || is_digit c || c == b'.' || c == b'_' || c == b'-'

-- LINE_RE
unfoldable pub matches_line_re : Text → Bool
matches_line_re s = up_to_end (λ t. not (is_empty t) && all is_line_char t) s

-- The line breaks of `splitlines`.
abbrev pub is_break : ℕ → Bool
is_break c = leb 10 c && leb c 13 || leb 28 c && leb c 30 || c == 133 || c == 8232 || c == 8233

unfoldable pub lines_from : Text → Text → List Text
lines_from [] [] = []
lines_from (d ∷ cur) [] = reverse (d ∷ cur) ∷ []
lines_from cur (c ∷ s) =
    let cut = lines_from [] s in
    let on = lines_from (c ∷ cur) s in if is_break c then reverse cur ∷ cut else on

-- s.splitlines(), but for the empty line that a break of two characters gives here.
unfoldable pub splitlines : Text → List Text
unfolding lines_from
splitlines s = lines_from [] s

-- "\n".join(lines) + "\n"
unfoldable pub join_lines : List Text → Text
join_lines [] = []
join_lines (l ∷ ls) = l ++ 10 ∷ join_lines ls

pub data Refusal : Type 0 where
  bad_line bad_name empty_list too_large not_text secret_found no_entries : Refusal
  learned_kept unknown_list : Refusal

-- What an operation on the lists gives, or the error that it raises.
pub data Attempt (A : Type 0) : Type 0 where
  refused : Refusal → Attempt A
  made : A → Attempt A

module _ {A B : Type 0} (next : A → Attempt B) where
  abbrev pub after : Attempt A → Attempt B
  after (refused why) = refused why
  after (made a) = next a

  pub after_made :
      (first : Attempt A) (b : B)
      → after first ≡ made b
      → (a : A) × (first ≡ made a) × (next a ≡ made b)
  after_made (made a) b h = (a, refl, h)
  after_made (refused why) b h = cc

infixl 5 ◌>>=◌
abbrev pub ◌>>=◌ : {A B : Type 0} → Attempt A → (A → Attempt B) → Attempt B
first >>= next = after next first

-- The loop of `normalize_lines`; `out` is also what has been seen.
normalize_from : List Text → List Text → Attempt (List Text)
unfolding strip matches_line_re mem starts_with
normalize_from out [] = made out
normalize_from out (raw ∷ rest) =
    let line = strip raw in
    let skip = normalize_from out rest in
    let keep = normalize_from (out ++ line ∷ []) rest in
    if is_empty line || starts_with line (codes "#")
    then skip
    else if ltb 200 (length line) || not (matches_line_re line)
    then refused bad_line
    else if mem line out
    then skip
    else keep

unfoldable pub normalize_lines : Text → Attempt (List Text)
unfolding normalize_from splitlines
normalize_lines text = normalize_from [] (splitlines text)

pub record Entry : Type 0 where
  pub path : Text
  pub entries : ℕ
  pub shape : Text
  pub origin : Text

-- The directory wordlists/custom with its index.
pub record Lists : Type 0 where
  pub files : Dict Text
  pub index : Dict Entry

abbrev pub file_of : Text → Text
file_of name = codes "wordlists/custom/" ++ (name ++ codes ".txt")

abbrev pub max_bytes : ℕ
max_bytes = 50 * 1024 * 1024

abbrev pub decoded : Option Text → Attempt Text
decoded none = refused not_text
decoded (some text) = made text

abbrev pub ensure : Bool → Refusal → Attempt (Unit {0})
ensure true r = made tt
ensure false r = refused r

module _ (has_secret : Text → Bool) (decode : List ℕ → Option Text) where
  unfoldable pub add_custom_list : Text → List ℕ → Text → Lists → Attempt Lists
  unfolding matches_name_re normalize_lines join_lines insert
  add_custom_list name bytes origin l = do
    ok_name ← ensure (matches_name_re name) bad_name
    not_empty ← ensure (not (is_empty bytes)) empty_list
    not_large ← ensure (leb (length bytes) max_bytes) too_large
    text ← decoded (decode bytes)
    no_secret ← ensure (not (has_secret text)) secret_found
    lines ← normalize_lines text
    some_lines ← ensure (not (is_empty lines)) no_entries
    made record {
      files = insert (file_of name) (join_lines lines) l.files;
      index =
          insert name
            (record {
              path = file_of name;
              entries = length lines;
              shape = codes "custom";
              origin = origin;
            })
            l.index;
    }

unfoldable pub remove_custom_list : Text → Lists → Attempt Lists
unfolding text_eq matches_name_re lookup remove
remove_custom_list name l =
    if text_eq name learned_key
    then refused learned_kept
    else if not (matches_name_re name)
    then refused bad_name
    else if is_none (lookup name l.index)
    then refused unknown_list
    else made record { files = remove (file_of name) l.files; index = remove name l.index }

-- The lists, with the learned one registered.
unfoldable pub ensure_learned_list : Lists → Lists
unfolding lookup insert
ensure_learned_list l = if not (is_none (lookup learned_key l.index)) then l else record {
  files = if is_none (lookup learned_path l.files) then insert learned_path [] l.files else l.files;
  index =
      insert learned_key
        (record {
          path = learned_path;
          entries = 0;
          shape = codes "hostname";
          origin = codes "platform";
        })
        l.index;
}

-- ===== src/CustomLists/Samples.antt =====
-- One learned label, and the theorems on it.
use moirax_asm.Prelude.{
  ◌≡◌, refl, Bool, true, false, none, some, List, [], ◌∷◌, ◌++◌, Text, text_eq, norm, codes, all,
  mem, ends_with,
}
use moirax_asm.Prelude.Dict.{lookup, insert}
use moirax_asm.CustomLists.{
  join_lines, normalize_lines, Lists, Attempt, made, refused, learned_kept, learned_key,
  learned_path, add_custom_list, remove_custom_list, ensure_learned_list, matches_name_re,
  matches_line_re, splitlines,
}
use moirax_asm.CustomLists.Learned.{
  ingest_learned_labels, path_of_learned, labels_from, label_of, entries_in,
}
use moirax_asm.CustomLists.Appended.{
  is_entry, learned_in, new_labels, ingest_learned_labels-appends, remove_custom_list-erases,
}

abbrev nothing : Lists
nothing = record { files = []; index = [] }

abbrev hosts : List Text
hosts = codes "www.a.com" ∷ codes "a.com" ∷ []

abbrev target : Text
target = codes "a.com"

abbrev allow : Text → Bool
allow h = true

existing_entries :
    all is_entry (learned_in (path_of_learned nothing) (ensure_learned_list nothing)) ≡ true
unfolding path_of_learned ensure_learned_list lookup insert entries_in splitlines text_eq
existing_entries = refl

label_entries : all is_entry (labels_from allow target hosts []) ≡ true
unfolding labels_from label_of text_eq ends_with mem matches_line_re norm
label_entries = refl

ingest_learned_labels-appends_example :
    learned_in (path_of_learned nothing) (ingest_learned_labels allow hosts target nothing)
    ≡ learned_in (path_of_learned nothing) (ensure_learned_list nothing)
      ++ new_labels allow target hosts
          (learned_in (path_of_learned nothing) (ensure_learned_list nothing))
ingest_learned_labels-appends_example =
    ingest_learned_labels-appends allow hosts target nothing existing_entries label_entries

abbrev lists_in : Attempt Lists → Lists
lists_in (made l) = l
lists_in (refused r) = nothing

abbrev added : Attempt Lists
added =
    add_custom_list (λ t. false) (λ b. some b) (codes "platform-learned") (codes "www")
      (codes "operator") nothing

add_platform_learned : added ≡ made (lists_in added)
unfolding add_custom_list matches_name_re normalize_lines mem norm
add_platform_learned = refl

remove_custom_list-erases_example :
    ((text : Text) × (lines : List Text) × (some (codes "www") ≡ some text)
      × (normalize_lines text ≡ made lines)
      × (lookup learned_path (lists_in added).files ≡ some (join_lines lines)))
    × ((l'' : Lists) × (remove_custom_list (codes "platform-learned") (lists_in added) ≡ made l'')
        × (lookup learned_path l''.files ≡ none)
        × (remove_custom_list learned_key (lists_in added) ≡ refused learned_kept))
remove_custom_list-erases_example =
    remove_custom_list-erases (λ t. false) (λ b. some b) (codes "www") (codes "operator") nothing
      add_platform_learned

-- ===== src/Hosts/Seeds.antt =====
-- pipeline/hostsutil.py: the labels of a host and the domains of a scope, as lists without repetition.
use moirax_asm.Prelude.{
  ◌≡◌, refl, true, false, not, ◌&&◌, Option, none, some, List, [], ◌∷◌, ◌++◌, All, All-append,
  if_elim, Text, text_eq, mem, distinct, distinct-append, is_empty, norm, arith,
}
use moirax_asm.Prelude.Names.{is_label}
use moirax_asm.Scope.{NetLib, ScopeGate}
use moirax_asm.Hosts.{
  normalize_label, add_label, add_labels, labels_from_host, add_seeds, base_of, is_skipped,
}

-- Distinct labels, each of a host name's form.
pub record AreLabels (ts : List Text) : Type 0 where
  pub once : distinct ts ≡ true
  pub labels : All (λ t. is_label t ≡ true) ts

normalize_label-is_label :
    (raw label : Text) → normalize_label raw ≡ some label → is_label label ≡ true
unfolding normalize_label
normalize_label-is_label raw label h = ground arith

add_label-AreLabels :
    (found : List Text) (part : Text) (o : Option Text)
    → normalize_label part ≡ o
    → AreLabels found
    → AreLabels (add_label found o)
unfolding add_label
add_label-AreLabels found part none e a = a
add_label-AreLabels found part (some label) e a =
    if_elim AreLabels (not (is_empty label) && not (mem label found)) _ _
      (λ fresh. record {
        once = distinct-append found label a.once (ground arith);
        labels =
            All-append (λ t. is_label t ≡ true) found (label ∷ []) a.labels
              (normalize_label-is_label part label e, tt);
      })
      (λ known. a)

add_labels-AreLabels :
    (found parts : List Text) → AreLabels found → AreLabels (add_labels found parts)
unfolding add_labels
add_labels-AreLabels found [] a = a
add_labels-AreLabels found (part ∷ parts) a =
    add_labels-AreLabels (add_label found (normalize_label part)) parts
      (add_label-AreLabels found part (normalize_label part) refl a)

-- The labels of a host are distinct and each has a label's form.
pub labels_from_host-AreLabels : (host seed : Text) → AreLabels (labels_from_host host seed)
unfolding labels_from_host
labels_from_host-AreLabels host seed =
    let nothing : AreLabels [] = record { once = refl; labels = tt } in
    if_elim AreLabels (text_eq (norm host) (norm seed)) _ _ (λ e. nothing)
      (λ e. add_labels-AreLabels [] _ nothing)

module _ {Ip Net : Type 0} (L : NetLib Ip Net) (g : ScopeGate Net) where
  -- Distinct names that are not empty.
  pub record AreSeeds (ts : List Text) : Type 0 where
    pub once : distinct ts ≡ true
    pub filled : All (λ t. is_empty t ≡ false) ts

  add_seeds-AreSeeds :
      (seeds items : List Text) → AreSeeds seeds → AreSeeds (add_seeds L g seeds items)
  unfolding add_seeds
  add_seeds-AreSeeds seeds [] a = a
  add_seeds-AreSeeds seeds (item ∷ items) a =
      let skip = add_seeds-AreSeeds seeds items a in
      let base = base_of L g (norm item) in
      if_elim AreSeeds (is_skipped L g (norm item)) _ _ (λ e. skip)
        (λ e.
          if_elim AreSeeds (not (is_empty base) && not (mem base seeds)) _ _
            (λ fresh. add_seeds-AreSeeds (seeds ++ base ∷ []) items (record {
              once = distinct-append seeds base a.once (ground arith);
              filled =
                  All-append (λ t. is_empty t ≡ false) seeds (base ∷ []) a.filled
                    (ground arith, tt);
            }))
            (λ known. skip))

-- ===== src/Scope/Document.antt =====
-- pipeline/scope.py, `ScopeGate.load` and `_validate_document`: the document that makes a gate.
use moirax_asm.Prelude.{
  ◌≡◌, refl, Bool, true, false, not, Option, none, some, List, [], ◌∷◌, ◌++◌, map, is_empty, arith,
  if_elim, Text, drop, strip, lower, rstrip, is_dot, starts_with, codes, if◌then◌else◌, All,
  is_none,
}
use moirax_asm.Prelude.Json.{Value, Fields, null, str, list, dict, nil, cons, get, items_of}
use moirax_asm.Prelude.Names.{matches_asn_re, matches_host_re}
use moirax_asm.Scope.{NetLib, ScopeGate, gate_of}

pub data ScopeError : Type 0 where
  missing empty invalid_yaml not_a_mapping no_engagement no_name no_date : ScopeError
  bad_includes bad_excludes empty_entry : ScopeError
  unrecognized : Text → ScopeError

abbrev is_filled : Option Value → Bool
is_filled (some (str t)) = not (is_empty (strip t))
is_filled _ = false

pub data Loaded (Net : Type 0) : Type 0 where
  refused : ScopeError → Loaded Net
  gate : ScopeGate Net → Loaded Net

-- `str(item)` of the entries; after the validation each is a string.
texts_of : List Value → List Text
texts_of [] = []
texts_of (str t ∷ vs) = t ∷ texts_of vs
texts_of (v ∷ vs) = [] ∷ texts_of vs

-- `document.get(key) or []`
texts_at : Option Value → List Text
unfolding texts_of
texts_at (some (list vs)) = texts_of (items_of vs)
texts_at v = []

texts_of-nonempty : (v : Value) (vs : List Value) → is_empty (map strip (texts_of (v ∷ vs))) ≡ false
unfolding texts_of
texts_of-nonempty (str t) vs = refl
texts_of-nonempty v vs = refl

module _ {Ip Net : Type 0} (L : NetLib Ip Net) where
  unfoldable pub looks_like_scope_entry : Text → Bool
  looks_like_scope_entry value =
      let host = rstrip is_dot (lower value) in
      if matches_asn_re value
      then true
      else if not (is_none (L.ip_address value))
      then true
      else if not (is_none (L.ip_network value))
      then true
      else if starts_with host (codes "*.")
      then matches_host_re (drop 2 host)
      else matches_host_re host

  -- The loop over `includes + excludes`.
  check_entries : List Value → Option ScopeError
  check_entries [] = none
  check_entries (str t ∷ vs) =
      let rest = check_entries vs in
      if is_empty (strip t)
      then some empty_entry
      else if not (looks_like_scope_entry (strip t))
      then some (unrecognized t)
      else rest
  check_entries (v ∷ vs) = some empty_entry

  -- `document.get("excludes", [])`, with None for an empty list.
  excludes_of : Option Value → Option (List Value)
  excludes_of none = some []
  excludes_of (some null) = some []
  excludes_of (some (list vs)) = some (items_of vs)
  excludes_of (some v) = none

  check_lists : Option Value → Option Value → Option ScopeError
  unfolding check_entries excludes_of
  check_lists (some (list (cons v vs))) excludes = elim (excludes_of excludes) [
    | none ↦ some bad_excludes
    | some es ↦ check_entries (items_of (cons v vs) ++ es)
  ]
  check_lists includes excludes = some bad_includes

  check_engagement : Fields → Option Value → Option ScopeError
  unfolding check_lists
  check_engagement document (some (dict engagement)) =
      if not (is_filled (get (codes "name") engagement))
      then some no_name
      else if not (is_filled (get (codes "authorization_date") engagement))
      then some no_date
      else check_lists (get (codes "includes") document) (get (codes "excludes") document)
  check_engagement document v = some no_engagement

  -- `none` when the document is accepted.
  unfoldable pub validate_document : Fields → Option ScopeError
  unfolding check_engagement
  validate_document document = check_engagement document (get (codes "engagement") document)

  module _ (rfc1918 loopback link_local : List Net) (suffixes : List Text) where
    gate_after : Option ScopeError → Fields → Loaded Net
    gate_after (some e) document = refused e
    gate_after none document = gate (
        gate_of L (texts_at (get (codes "includes") document))
          (texts_at (get (codes "excludes") document)) rfc1918 loopback link_local suffixes)

    load_document : Option Value → Loaded Net
    unfolding gate_after
    load_document none = refused invalid_yaml
    load_document (some (dict document)) = gate_after (validate_document document) document
    load_document (some v) = refused not_a_mapping

    -- `load`: the file's text, or `none` if there is no file, and YAML's reader of it.
    unfoldable pub load : (Text → Option Value) → Option Text → Loaded Net
    unfolding load_document texts_at
    load parse none = refused missing
    load parse (some raw) =
        if is_empty (strip raw) then refused empty else load_document (parse raw)

    -- An entry of a gate is not empty, and is an AS number, an address, a network or a host name
    -- that may begin with `*.`.
    abbrev pub IsEntry : Text → Type 0
    IsEntry e = (is_empty e ≡ false) × (looks_like_scope_entry e ≡ true)

    check_entries_sound :
        (vs : List Value) → check_entries vs ≡ none → All IsEntry (map strip (texts_of vs))
    unfolding check_entries texts_of
    check_entries_sound [] h = tt
    check_entries_sound (str t ∷ vs) h =
        ((ground arith, ground arith), check_entries_sound vs (ground arith))
    check_entries_sound (v ∷ vs) h = absurd (ground arith)

    check_entries-append :
        (xs ys : List Value)
        → check_entries (xs ++ ys) ≡ none
        → (check_entries xs ≡ none) × (check_entries ys ≡ none)
    unfolding check_entries
    check_entries-append [] ys h = (refl, h)
    check_entries-append (str t ∷ xs) ys h = ground (arith, check_entries-append xs ys)
    check_entries-append (v ∷ xs) ys h = absurd (ground arith)

    abbrev AreEntries : Option Value → Type 0
    AreEntries v = All IsEntry (map strip (texts_at v))

    check_lists_sound :
        (inc exc : Option Value)
        → check_lists inc exc ≡ none
        → AreEntries inc × AreEntries exc × (is_empty (map strip (texts_at inc)) ≡ false)
    unfolding check_lists texts_at
    check_lists_sound (some (list (cons v vs))) none h = (
      check_entries_sound (items_of (cons v vs))
          (check_entries-append (items_of (cons v vs)) [] h).0,
      tt,
      texts_of-nonempty v (items_of vs),
    )
    check_lists_sound (some (list (cons v vs))) (some null) h = (
      check_entries_sound (items_of (cons v vs))
          (check_entries-append (items_of (cons v vs)) [] h).0,
      tt,
      texts_of-nonempty v (items_of vs),
    )
    check_lists_sound (some (list (cons v vs))) (some (list es)) h =
        let (a, b) = check_entries-append (items_of (cons v vs)) (items_of es) h in
        (
          check_entries_sound (items_of (cons v vs)) a,
          check_entries_sound (items_of es) b,
          texts_of-nonempty v (items_of vs),
        )
    check_lists_sound (some (list (cons v vs))) (some e) h = absurd (ground arith)
    check_lists_sound (some (list nil)) exc h = absurd (ground arith)
    check_lists_sound inc exc h = absurd (ground arith)

    -- What holds of a gate made from a document.
    abbrev pub IsVetted : Loaded Net → Type 0
    IsVetted (refused e) = Unit
    IsVetted (gate g) =
        All IsEntry g.includes × All IsEntry g.excludes × (is_empty g.includes ≡ false)

    check_engagement_sound :
        (document : Fields) (engagement : Option Value)
        → check_engagement document engagement ≡ none
        → check_lists (get (codes "includes") document) (get (codes "excludes") document) ≡ none
    unfolding check_engagement
    check_engagement_sound document (some (dict e)) h = ground arith
    check_engagement_sound document v h = absurd (ground arith)

    gate_after-IsVetted :
        (document : Fields) (r : Option ScopeError)
        → validate_document document ≡ r
        → IsVetted (gate_after r document)
    unfolding gate_after gate_of validate_document
    gate_after-IsVetted document (some e) h = tt
    gate_after-IsVetted document none h =
        check_lists_sound (get (codes "includes") document) (get (codes "excludes") document)
          (check_engagement_sound document (get (codes "engagement") document) h)

    load_document-IsVetted : (v : Option Value) → IsVetted (load_document v)
    unfolding load_document
    load_document-IsVetted none = tt
    load_document-IsVetted (some (dict document)) =
        gate_after-IsVetted document (validate_document document) refl
    load_document-IsVetted (some v) = tt

    -- A gate that `load` makes has at least one include, and each of its includes and excludes is
    -- an entry that the gate understands.
    pub load-IsVetted :
        (parse : Text → Option Value) (file : Option Text) → IsVetted (load parse file)
    unfolding load
    load-IsVetted parse none = tt
    load-IsVetted parse (some raw) =
        if_elim IsVetted (is_empty (strip raw)) _ _ (λ e. tt)
          (λ e. load_document-IsVetted (parse raw))

-- ===== src/Hosts/Wildcards.antt =====
-- pipeline/hostsutil.py, `wildcard_seeds`: which names are the seeds for a target.
use moirax_asm.Prelude.{
  ◌≡◌, refl, sym, ap, ◌∙◌, ◌↔◌, ◌⊎◌, inl, inr, Bool, true, false, not, ◌&&◌, ◌||◌, Option, none,
  some, List, [], ◌∷◌, ◌++◌, filter, any, if◌then◌else◌, Text, text_eq, text_eq_iff, mem,
  mem-append, is_empty, norm, arith, Bool-cases, codes, strip, contains, ends_with_sound,
  ends_with-append,
}
use moirax_asm.Scope.{NetLib, ScopeGate, Reason, validate_candidate}
use moirax_asm.Scope.Candidates.{raises, validate_candidate_total}
use moirax_asm.Hosts.{add_seeds, base_of, is_skipped, is_above, only_wanted, wildcard_seeds}

-- The seed is the target, or stands above it in the tree of domains: the target has more labels
-- before it.
pub data IsAbove (wanted seed : Text) : Type 0 where
  same : seed ≡ wanted → IsAbove wanted seed
  above : (labels : Text) → wanted ≡ labels ++ b'.' ∷ seed → IsAbove wanted seed

mem-filter : (p : Text → Bool) (x : Text) (xs : List Text) → mem x (filter p xs) ≡ (mem x xs && p x)
unfolding mem
mem-filter p x [] = refl
mem-filter p x (y ∷ xs) = elim (Bool-cases (text_eq x y)) [
  | inl e ↦ let q : x ≡ y = (text_eq_iff x y).0 e in ground (arith, e, ap p q, mem-filter p x xs)
  | inr e ↦ ground (arith, e, mem-filter p x xs)
]

module _ {Ip Net : Type 0} (L : NetLib Ip Net) (g : ScopeGate Net) where
  is_above_sound : (wanted seed : Text) → is_above L g wanted seed ≡ true → IsAbove wanted seed
  is_above_sound wanted seed h = elim (Bool-cases (text_eq seed wanted)) [
    | inl e ↦ same ((text_eq_iff seed wanted).0 e)
    | inr e ↦
        let (labels, q) = ends_with_sound wanted (b'.' ∷ seed) (ground (arith, h, e)) in
        above labels q
  ]

  is_above_complete : (wanted seed : Text) → IsAbove wanted seed → is_above L g wanted seed ≡ true
  is_above_complete wanted seed (same e) = ground (arith, (text_eq_iff seed wanted).1 e)
  is_above_complete wanted seed (above labels e) =
      rw e (ground (arith, ends_with-append labels (b'.' ∷ seed)))

  -- The entry of the scope names a domain, which is the name.
  abbrev pub is_base : Text → Text → Bool
  is_base s item =
      not (is_skipped L g (norm item))
      && (not (is_empty (base_of L g (norm item))) && text_eq s (base_of L g (norm item)))

  mem-add_seeds :
      (s : Text) (seeds items : List Text)
      → mem s (add_seeds L g seeds items) ≡ (mem s seeds || any (is_base s) items)
  unfolding add_seeds mem
  mem-add_seeds s seeds [] = ground arith
  mem-add_seeds s seeds (item ∷ items) =
      let base = base_of L g (norm item) in
      ground (
        arith,
        mem-add_seeds s seeds items,
        mem-add_seeds s (seeds ++ base ∷ []) items,
        mem-append s seeds base,
        text_eq_iff s base,
      )

  -- A seed for a target: a domain that the scope names, at or above the target; or the target
  -- alone, if the scope names no such domain and the gate allows the target.
  pub data IsSeed (wanted s : Text) : Type 0 where
    of_scope : any (is_base s) g.includes ≡ true → IsAbove wanted s → IsSeed wanted s
    alone :
        s ≡ wanted
        → is_empty wanted ≡ false
        → ((t : Text) → any (is_base t) g.includes ≡ true → IsAbove wanted t → true ≡ false)
        → (reason : Reason) → validate_candidate L g 2 wanted ≡ some (true, reason)
        → IsSeed wanted s

  abbrev matched : Text → List Text
  matched wanted = filter (is_above L g wanted) (add_seeds L g [] g.includes)

  mem-matched :
      (wanted s : Text)
      → mem s (matched wanted) ≡ (any (is_base s) g.includes && is_above L g wanted s)
  unfolding mem
  mem-matched wanted s =
      mem-filter (is_above L g wanted) s (add_seeds L g [] g.includes)
      ∙ ground (arith, mem-add_seeds s [] g.includes)

  matched-IsSeed : (wanted s : Text) → mem s (matched wanted) ≡ true → IsSeed wanted s
  matched-IsSeed wanted s h =
      of_scope (ground (arith, h, mem-matched wanted s))
        (is_above_sound wanted s (ground (arith, h, mem-matched wanted s)))

  -- The names of the list are exactly the seeds.
  abbrev pub AreExactly : Text → List Text → Type 0
  AreExactly wanted seeds = (s : Text) → (mem s seeds ≡ true) ↔ IsSeed wanted s

  of_scope-matched :
      (wanted t : Text)
      → any (is_base t) g.includes ≡ true
      → IsAbove wanted t
      → mem t (matched wanted) ≡ true
  of_scope-matched wanted t b a =
      ground (arith, mem-matched wanted t, b, is_above_complete wanted t a)

  none_matched :
      (wanted t : Text)
      → matched wanted ≡ []
      → any (is_base t) g.includes ≡ true
      → IsAbove wanted t
      → true ≡ false
  unfolding mem
  none_matched wanted t e b a = sym (of_scope-matched wanted t b a) ∙ ap (mem t) e

  first_matched :
      (wanted x : Text) (xs : List Text) → matched wanted ≡ x ∷ xs → mem x (matched wanted) ≡ true
  unfolding mem
  first_matched wanted x xs e = ap (mem x) e ∙ ground (arith, (text_eq_iff x x).1 refl)

  matched_complete :
      (wanted s x : Text) (xs : List Text)
      → matched wanted ≡ x ∷ xs
      → IsSeed wanted s
      → mem s (matched wanted) ≡ true
  matched_complete wanted s x xs e (of_scope b a) = of_scope-matched wanted s b a
  matched_complete wanted s x xs e (alone q there none_above reason v) =
      let found = mem-matched wanted x in
      let there_is = first_matched wanted x xs e in
      absurd (
        ground (
          arith,
          none_above x (ground (arith, found, there_is))
              (is_above_sound wanted x (ground (arith, found, there_is))),
        ))

  -- No name is a seed, as the gate refuses the target or the target is empty.
  refused_complete :
      (wanted s : Text)
      → matched wanted ≡ []
      → ((r : Reason)
          → is_empty wanted ≡ false
          → validate_candidate L g 2 wanted ≡ some (true, r)
          → false ≡ true)
      → IsSeed wanted s
      → false ≡ true
  refused_complete wanted s e no_way (of_scope b a) = sym (none_matched wanted s e b a)
  refused_complete wanted s e no_way (alone q there none_above reason v) = no_way reason there v

  allowed-AreExactly :
      (wanted : Text) (r : Reason)
      → matched wanted ≡ []
      → is_empty wanted ≡ false
      → validate_candidate L g 2 wanted ≡ some (true, r)
      → AreExactly wanted (wanted ∷ [])
  unfolding mem
  allowed-AreExactly wanted r e there v s = (
    λ h. alone (ground (arith, h, text_eq_iff s wanted)) there (λ t. none_matched wanted t e) r v,
    back,
  )
    where
      back : IsSeed wanted s → (text_eq s wanted || false) ≡ true
      back (of_scope b a) = absurd (ground (arith, none_matched wanted s e b a))
      back (alone q there' none_above reason v') = ground (arith, (text_eq_iff s wanted).1 q)

  only_wanted-AreExactly :
      (wanted : Text) (v : Bool × Reason)
      → matched wanted ≡ []
      → validate_candidate L g 2 wanted ≡ some v
      → (seeds : List Text) × (only_wanted L g wanted (some v) ≡ some seeds)
        × AreExactly wanted seeds
  unfolding only_wanted mem
  only_wanted-AreExactly wanted (false, r) e v =
      ([], refl, λ s. (λ h. cc, refused_complete wanted s e (λ r' there v'. ground (arith, v, v'))))
  only_wanted-AreExactly wanted (true, r) e v = elim (Bool-cases (is_empty wanted)) [
    | inl blank ↦ (
      [],
      rw blank refl,
      λ s. (λ h. cc, refused_complete wanted s e (λ r' there v'. ground (arith, blank, there))),
    )
    | inr there ↦ (wanted ∷ [], rw there refl, allowed-AreExactly wanted r e there v)
  ]

  -- What the seeds for a target are: none, since urlparse raises on the target, or a list.
  abbrev pub AreSeedsFor : Text → Option (List Text) → Type 0
  AreSeedsFor wanted o =
      ((raises L g wanted ≡ true) × (o ≡ none))
      ⊎ ((seeds : List Text) × (o ≡ some seeds) × AreExactly wanted seeds)

  from_matched :
      ((url host : Text)
        → L.hostname url ≡ some (some host)
        → contains (strip host) (codes "://") ≡ false)
      → (wanted : Text) (found : List Text) → matched wanted ≡ found
      → AreSeedsFor wanted (
          if not (is_empty found)
          then some found
          else only_wanted L g wanted (validate_candidate L g 2 wanted))
  unfolding only_wanted
  from_matched no_url wanted (x ∷ xs) e =
      let exact : AreExactly wanted (matched wanted) =
        λ s. (matched-IsSeed wanted s, matched_complete wanted s x xs e) in
      inr (x ∷ xs, refl, rw e at exact)
  from_matched no_url wanted [] e = elim (validate_candidate_total L g no_url 0 wanted) [
    | inl (raised, v) ↦ inl (raised, rw v refl)
    | inr (calm, verdict, v) ↦
        let (seeds, q, exact) = only_wanted-AreExactly wanted verdict e v in
        inr (seeds, rw v q, exact)
  ]

  -- Given that the host of a URL holds no `://`: for a target that is not empty, `wildcard_seeds`
  -- gives no list only where urlparse raises on the target. Its list holds exactly the domains of
  -- the scope that are the target or have more labels before them in it, whole labels at a time;
  -- if there is no such domain, the target alone if the gate allows it, and otherwise nothing.
  pub wildcard_seeds-AreSeedsFor :
      ((url host : Text)
        → L.hostname url ≡ some (some host)
        → contains (strip host) (codes "://") ≡ false)
      → (target : Text) → is_empty target ≡ false
      → AreSeedsFor (norm target) (wildcard_seeds L g 2 (some target))
  unfolding wildcard_seeds
  wildcard_seeds-AreSeedsFor no_url target there =
      rw there (from_matched no_url (norm target) (matched (norm target)) refl)

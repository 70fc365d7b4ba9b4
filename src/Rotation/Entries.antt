-- ===== src/Rotation/Entries.antt =====
-- pipeline/ip_rotation.py, `mask_proxy` and `parse_pool`: what the pool accepts and what it shows.
use moirax_asm.Prelude.{
  ℕ, ◌≡◌, refl, true, false, Option, none, some, List, [], ◌∷◌, ◌++◌, arith, Text, map, codes,
  strip, split, lower, is_empty, mem, Bool-cases, inl, inr, ◌==◌, if◌then◌else◌, All, All-append,
  not, mem_ℕ, text_eq, text_eq_iff, Option-cases, ◌||◌,
}
use moirax_asm.Rotation.{Url}

-- `s.split(c, 1)[0]`: what stands before the first `c`, or all of `s`.
before_first : ℕ → Text → Text
before_first c [] = []
before_first c (a ∷ s) = let rest = a ∷ before_first c s in if a == c then [] else rest

-- `s.rpartition(c)` for an `s` that holds `c`: what stands before and after the last one.
rpartition : ℕ → Text → Option (Text × Text)
rpartition c [] = none
rpartition c (a ∷ s) = elim (rpartition c s) [
  | some (l, r) ↦ some (a ∷ l, r)
  | none ↦ if a == c then some ([], s) else none
]

abbrev hide : Option (Text × Text) → Text → Text
unfolding before_first
hide none netloc = netloc
hide (some (userinfo, hostport)) netloc = before_first b':' userinfo ++ codes ":***@" ++ hostport

mask_url : Option Url → Text
unfolding rpartition before_first
mask_url none = codes "***"
mask_url (some u) =
    if is_empty u.scheme || is_empty u.netloc
    then codes "***"
    else u.scheme ++ codes "://" ++ hide (rpartition b'@' u.netloc) u.netloc

abbrev pub allowed_schemes : List Text
allowed_schemes = codes "http" ∷ codes "https" ∷ codes "socks5" ∷ []

pub data ParsedPool : Type 0 where
  pool : List Text → ParsedPool
  bad_scheme : Text → Text → ParsedPool
  bad_url : ParsedPool

before_first-append : (c : ℕ) (u w : Text) → mem_ℕ c u ≡ false → before_first c (u ++ c ∷ w) ≡ u
unfolding before_first
before_first-append c [] w h = ground arith
before_first-append c (a ∷ u) w h = ground (arith, before_first-append c u w)

is_empty-append : (l : Text) (a : ℕ) (r : Text) → is_empty (l ++ a ∷ r) ≡ false
is_empty-append [] a r = refl
is_empty-append (b ∷ l) a r = refl

rpartition-none : (c : ℕ) (r : Text) → mem_ℕ c r ≡ false → rpartition c r ≡ none
unfolding rpartition
rpartition-none c [] h = refl
rpartition-none c (a ∷ r) h = ground (arith, rpartition-none c r)

rpartition-append :
    (c : ℕ) (l r : Text) → mem_ℕ c r ≡ false → rpartition c (l ++ c ∷ r) ≡ some (l, r)
unfolding rpartition
rpartition-append c [] r h = rw (rpartition-none c r h) (ground arith)
rpartition-append c (a ∷ l) r h = rw (rpartition-append c l r h) refl

-- `urlparse` is that of urllib; `none` is its ValueError.
module _ (urlparse : Text → Option Url) where
  unfoldable pub mask_proxy : Text → Text
  unfolding mask_url
  mask_proxy url = mask_url (urlparse (strip url))

  -- The loop of `parse_pool` over the stripped parts, with the pool so far.
  unfoldable pub collect : List Text → List Text → ParsedPool
  unfolding mask_proxy
  collect seen [] = pool seen
  collect seen (part ∷ parts) =
      let skip = collect seen parts in
      let more = collect (seen ++ part ∷ []) parts in
      if is_empty part then skip else elim (urlparse part) [
        | none ↦ bad_url
        | some u ↦
            if not (mem (lower u.scheme) allowed_schemes)
            then bad_scheme (mask_proxy part) (lower u.scheme)
            else if mem part seen
            then skip
            else more
      ]

  -- A list is stripped item by item; a string is cut at its commas first.
  unfoldable pub parse_pool_list : List Text → ParsedPool
  unfolding collect
  parse_pool_list items = collect [] (map strip items)

  unfoldable pub parse_pool : Option Text → ParsedPool
  unfolding collect
  parse_pool none = pool []
  parse_pool (some raw) = collect [] (map strip (split b',' raw))

  -- An entry that the program may use: its scheme is one of the three.
  abbrev pub IsAllowed : Text → Type 0
  IsAllowed part =
      (u : Url) × (urlparse part ≡ some u) × (mem (lower u.scheme) allowed_schemes ≡ true)

  abbrev pub IsDistinct : List Text → Type 0
  IsDistinct [] = Unit
  IsDistinct (x ∷ xs) = (mem x xs ≡ false) × IsDistinct xs

  abbrev pub IsGood : ParsedPool → Type 0
  IsGood (pool entries) = All IsAllowed entries × IsDistinct entries
  IsGood _ = Unit

  mem-append_one :
      (x p : Text) (xs : List Text)
      → mem x xs ≡ false
      → text_eq p x ≡ false
      → mem x (xs ++ p ∷ []) ≡ false
  unfolding mem
  mem-append_one x p [] h e = ground (arith, text_eq_iff p x, text_eq_iff x p)
  mem-append_one x p (y ∷ ys) h e = ground (arith, mem-append_one x p ys)

  IsDistinct-append_one :
      (p : Text) (xs : List Text) → mem p xs ≡ false → IsDistinct xs → IsDistinct (xs ++ p ∷ [])
  unfolding mem
  IsDistinct-append_one p [] h d = (refl, tt)
  IsDistinct-append_one p (x ∷ xs) h d =
      (mem-append_one x p xs d.0 (ground arith), IsDistinct-append_one p xs (ground arith) d.1)

  collect-IsGood :
      (seen parts : List Text) → All IsAllowed seen → IsDistinct seen → IsGood (collect seen parts)
  unfolding collect
  collect-IsGood seen [] a d = (a, d)
  collect-IsGood seen (part ∷ parts) a d = elim (Bool-cases (is_empty part)) [
    | inl blank ↦ rw blank (collect-IsGood seen parts a d)
    | inr text ↦ elim (Option-cases (urlparse part)) [
      | inl bad ↦ rw (text, bad) tt
      | inr (u, good) ↦ elim (Bool-cases (mem (lower u.scheme) allowed_schemes)) [
        | inr other ↦ rw (text, good, other) tt
        | inl fits ↦ elim (Bool-cases (mem part seen)) [
          | inl old ↦ rw (text, good, fits, old) (collect-IsGood seen parts a d)
          | inr new ↦
              rw (text, good, fits, new)
                (collect-IsGood (seen ++ part ∷ []) parts
                  (All-append IsAllowed seen (part ∷ []) a ((u, good, fits), tt))
                  (IsDistinct-append_one part seen new d))
        ]
      ]
    ]
  ]

  -- A pool that `parse_pool` accepts holds no entry twice, and each of its entries is a URL whose
  -- scheme, in lower case, is http, https or socks5.
  pub parse_pool-IsGood : (raw : Option Text) → IsGood (parse_pool raw)
  unfolding parse_pool
  parse_pool-IsGood none = (tt, tt)
  parse_pool-IsGood (some raw) = collect-IsGood [] (map strip (split b',' raw)) tt tt

  -- The rendering of a URL with credentials does not depend on the password.
  pub mask_proxy_hides :
      (url scheme user password hostport : Text)
      → urlparse (strip url)
        ≡ some (record { scheme = scheme; netloc = user ++ b':' ∷ password ++ b'@' ∷ hostport })
      → is_empty scheme ≡ false
      → mem_ℕ b':' user ≡ false
      → mem_ℕ b'@' hostport ≡ false
      → mask_proxy url ≡ scheme ++ codes "://" ++ (user ++ codes ":***@" ++ hostport)
  unfolding mask_proxy
  mask_proxy_hides url scheme user password hostport parsed s u h =
      rw
        (
          parsed,
          s,
          is_empty-append (user ++ b':' ∷ password) b'@' hostport,
          rpartition-append b'@' (user ++ b':' ∷ password) hostport h,
          before_first-append b':' user password u,
        )
        refl

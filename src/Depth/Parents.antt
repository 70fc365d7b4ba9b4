-- ===== src/Depth/Parents.antt =====
-- pipeline/recon_depth.py: which hosts a search goes on from.
use moirax_asm.Prelude.{
  ℕ, zero, suc, ◌-◌, ◌≤◌, ◌<◌, ◌≡◌, refl, ◌⊎◌, inl, inr, true, false, not, ◌&&◌, ◌||◌, List, [],
  ◌∷◌, ◌++◌, filter, length, length-take, take, All, All-append, if_elim, ltb, leb, ◌==◌, Text, mem,
  distinct, distinct-append, is_empty, arith,
}
use moirax_asm.Prelude.Dict.{Dict, lookup, keys}
use moirax_asm.Depth.{
  HostRow, child_depth, is_depth, is_between, capped, is_parent, recursion_parents, token_of,
  add_token, add_bases, vhost_bases, add_driven, is_dead, named, vhost_driven_parents,
}

All-take {ℓ κ} : {A : Type ℓ} (P : A → Type κ) (n : ℕ) (xs : List A) → All P xs → All P (take n xs)
All-take P zero xs h = tt
All-take P (suc n) [] h = tt
All-take P (suc n) (x ∷ xs) h = (h.0, All-take P n xs h.1)

All-capped {κ} : (P : Text → Type κ) (cap : ℕ) (ts : List Text) → All P ts → All P (capped cap ts)
All-capped P cap ts h =
    if_elim (All P) (not (cap == 0) && ltb cap (length ts)) (take cap ts) ts
      (λ e. All-take P cap ts h) (λ e. h)

capped-length : (cap : ℕ) (ts : List Text) → 1 ≤ cap → length (capped cap ts) ≤ cap
capped-length cap ts h = ground (arith, length-take cap ts)

-- A parent at a level: a host of the depth below it.
abbrev pub IsAt : Text → ℕ → Text → Type 0
IsAt apex n host = is_depth n (child_depth host apex) ≡ true

parents-IsAt :
    (apex : Text) (n : ℕ) (wild : List Text) (resolved : Dict HostRow)
    → All (IsAt apex n) (keys (filter (is_parent apex n wild) resolved))
unfolding is_parent
parents-IsAt apex n wild [] = tt
parents-IsAt apex n wild ((host, row) ∷ resolved) =
    if_elim (λ (d : Dict HostRow). All (IsAt apex n) (keys d)) (is_parent apex n wild (host, row)) _
      _ (λ e. (ground arith, parents-IsAt apex n wild resolved))
      (λ e. parents-IsAt apex n wild resolved)

-- Below the first level, each parent has the depth just below the level, and a cap that is set
-- bounds their number.
pub recursion_parents-IsAt :
    (resolved : Dict HostRow) (apex : Text) (level : ℕ) (wild : List Text) (cap : ℕ)
    → 1 < level
    → All (IsAt apex (level - 1)) (recursion_parents resolved apex level wild cap)
      × (1 ≤ cap → length (recursion_parents resolved apex level wild cap) ≤ cap)
unfolding recursion_parents
recursion_parents-IsAt resolved apex level wild cap h =
    let deep : leb level 1 ≡ false = ground arith in
    let out = keys (filter (is_parent apex (level - 1) wild) resolved) in
    rw deep (
      All-capped (IsAt apex (level - 1)) cap out (parents-IsAt apex (level - 1) wild resolved),
      capped-length cap out,
    )

-- What holds of a list of vhost bases: each is the apex or the token of a name that is between the
-- apex and the depth, none is empty, and none stands twice.
pub record AreBases (apex : Text) (depth : ℕ) (out : List Text) : Type 0 where
  pub once : distinct out ≡ true
  pub filled : All (λ t. is_empty t ≡ false) out
  pub origin :
      All
        (λ t.
          (t ≡ token_of apex)
          ⊎ ((u : Text) × (t ≡ token_of u) × (is_between depth (child_depth u apex) ≡ true)))
        out

add_token-AreBases :
    (apex : Text) (depth : ℕ) (out : List Text) (host : Text)
    → (host ≡ apex) ⊎ (is_between depth (child_depth host apex) ≡ true)
    → AreBases apex depth out
    → AreBases apex depth (add_token out host)
unfolding add_token
add_token-AreBases apex depth out host from a =
    if_elim (AreBases apex depth) (not (is_empty (token_of host)) && not (mem (token_of host) out))
      _ _
      (λ e. record {
        once = distinct-append out (token_of host) a.once (ground arith);
        filled =
            All-append (λ t. is_empty t ≡ false) out (token_of host ∷ []) a.filled
              (ground arith, tt);
        origin = All-append _ out (token_of host ∷ []) a.origin (source from, tt);
      })
      (λ e. a)
  where
    source :
        (host ≡ apex) ⊎ (is_between depth (child_depth host apex) ≡ true)
        → (token_of host ≡ token_of apex)
          ⊎ ((u : Text) × (token_of host ≡ token_of u)
              × (is_between depth (child_depth u apex) ≡ true))
    source (inl e) = inl (rw e refl)
    source (inr e) = inr (host, refl, e)

add_bases-AreBases :
    (apex : Text) (depth : ℕ) (out names : List Text)
    → AreBases apex depth out
    → AreBases apex depth (add_bases apex depth out names)
unfolding add_bases
add_bases-AreBases apex depth out [] a = a
add_bases-AreBases apex depth out (raw ∷ names) a =
    if_elim (AreBases apex depth) (is_between depth (child_depth (token_of raw) apex)) _ _
      (λ e.
        add_bases-AreBases apex depth (add_token out (token_of raw)) names
          (add_token-AreBases apex depth out (token_of raw) (inr e) a))
      (λ e. add_bases-AreBases apex depth out names a)

-- The bases of the vhost search are distinct names that are not empty, each the apex or a name
-- that is at least one label below it and less than the depth.
pub vhost_bases-AreBases :
    (apex : Text) (names : List Text) (depth : ℕ)
    → AreBases (token_of apex) depth (vhost_bases apex names depth)
unfolding vhost_bases
vhost_bases-AreBases apex names depth =
    let none_yet : AreBases (token_of apex) depth [] = record {
      once = refl;
      filled = tt;
      origin = tt;
    } in
    if_elim (AreBases (token_of apex) depth) (is_empty (token_of apex) || ltb depth 1) _ _
      (λ e. none_yet)
      (λ e.
        add_bases-AreBases (token_of apex) depth (add_token [] (token_of apex)) names
          (add_token-AreBases (token_of apex) depth [] (token_of apex) (inl refl) none_yet))

-- What holds of the parents that the vhost names add.
abbrev pub IsDriven : Text → ℕ → List Text → List Text → Text → Type 0
IsDriven apex depth skip wild t =
    (is_between depth (child_depth t apex) ≡ true) × (mem t skip ≡ false) × (mem t wild ≡ false)

pub record AreDriven (apex : Text) (depth : ℕ) (skip wild out : List Text) : Type 0 where
  pub once : distinct out ≡ true
  pub driven : All (IsDriven apex depth skip wild) out

mem-take : (n : ℕ) (t : Text) (ts : List Text) → mem t ts ≡ false → mem t (take n ts) ≡ false
unfolding mem
mem-take zero t ts h = refl
mem-take (suc n) t [] h = refl
mem-take (suc n) t (u ∷ ts) h = ground (arith, mem-take n t ts)

distinct-take : (n : ℕ) (ts : List Text) → distinct ts ≡ true → distinct (take n ts) ≡ true
distinct-take zero ts h = refl
distinct-take (suc n) [] h = refl
distinct-take (suc n) (t ∷ ts) h = ground (arith, distinct-take n ts, mem-take n t ts)

module _ (apex : Text) (depth : ℕ) (resolved : Dict HostRow) (skip wild : List Text) where
  add_driven-AreDriven :
      (out names : List Text)
      → AreDriven apex depth skip wild out
      → AreDriven apex depth skip wild (add_driven apex depth resolved skip wild out names)
  unfolding add_driven
  add_driven-AreDriven out [] a = a
  add_driven-AreDriven out (raw ∷ names) a =
      let host = token_of raw in
      let without = add_driven-AreDriven out names a in
      if_elim (AreDriven apex depth skip wild)
        (is_empty host || mem host out || mem host skip || mem host wild) _ _ (λ e. without)
        (λ fresh.
          if_elim (AreDriven apex depth skip wild) (not (is_between depth (child_depth host apex)))
            _ _ (λ e. without)
            (λ deep.
              if_elim (AreDriven apex depth skip wild) (is_dead (lookup host resolved)) _ _
                (λ e. without)
                (λ e. add_driven-AreDriven (out ++ host ∷ []) names (record {
                  once = distinct-append out host a.once (ground arith);
                  driven =
                      All-append (IsDriven apex depth skip wild) out (host ∷ []) a.driven
                        ((ground arith, ground arith, ground arith), tt);
                }))))

-- The parents that the vhost names add are distinct, at least one label below the apex and less
-- than the depth, and neither the apex, nor searched already, nor wildcard names, each in its
-- normal form; a cap that is set bounds their number.
pub vhost_driven_parents-AreDriven :
    (apex : Text) (depth : ℕ) (resolved : Dict HostRow)
    (extra_names already wildcard_names : List Text) (cap : ℕ)
    → let out = vhost_driven_parents apex depth resolved extra_names already wildcard_names cap in
      AreDriven (token_of apex) depth (token_of apex ∷ named already) (named wildcard_names) out
      × (1 ≤ cap → length out ≤ cap)
unfolding vhost_driven_parents
vhost_driven_parents-AreDriven apex depth resolved extra_names already wildcard_names cap =
    let a =
      add_driven-AreDriven (token_of apex) depth resolved (token_of apex ∷ named already)
        (named wildcard_names) [] (extra_names ++ keys resolved)
        (record { once = refl; driven = tt }) in
    (capped-AreDriven a, capped-length cap _)
  where
    capped-AreDriven :
        {skip wild out : List Text}
        → AreDriven (token_of apex) depth skip wild out
        → AreDriven (token_of apex) depth skip wild (capped cap out)
    capped-AreDriven {skip} {wild} {out} a =
        if_elim (AreDriven (token_of apex) depth skip wild) (not (cap == 0) && ltb cap (length out))
          (take cap out) out
          (λ e. record {
            once = distinct-take cap out a.once;
            driven = All-take (IsDriven (token_of apex) depth skip wild) cap out a.driven;
          })
          (λ e. a)

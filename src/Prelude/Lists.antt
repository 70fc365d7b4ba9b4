-- ===== src/Prelude/Lists.antt =====
-- Lists measured by native numbers, and the loops over them that the program writes.
use Prim.Native.Nat.{ℕ, zero, suc, ◌+◌, ◌-◌, ◌≤◌, ◌<◌, min}
use mathlib.Core.Path.{◌≡◌, refl, ap, ◌∙◌}
use mathlib.Core.Bool.{Bool, true, false, ◌&&◌, ◌||◌}
use mathlib.Core.Logic.{◌↔◌, inl, inr}
use mathlib.Core.List.{List, [], ◌∷◌, ◌++◌, reverse, reverse-append}
use mathlib.Core.Option.{Option, none, some}
use native.Mathlib.Omega.{arith}
use moirax_asm.Prelude.Tests.{◌==◌, Bool-cases, if◌then◌else◌}

module _ {ℓ} {A : Type ℓ} where
  abbrev pub length : List A → ℕ
  length [] = 0
  length (x ∷ xs) = suc (length xs)

  abbrev pub get_elem? : List A → ℕ → Option A
  get_elem? [] i = none
  get_elem? (x ∷ xs) zero = some x
  get_elem? (x ∷ xs) (suc i) = get_elem? xs i

  abbrev pub get_or : List A → ℕ → A → A
  get_or [] i d = d
  get_or (x ∷ xs) zero d = x
  get_or (x ∷ xs) (suc i) d = get_or xs i d

  abbrev pub take : ℕ → List A → List A
  take zero xs = []
  take (suc n) [] = []
  take (suc n) (x ∷ xs) = x ∷ take n xs

  abbrev pub drop : ℕ → List A → List A
  drop zero xs = xs
  drop (suc n) [] = []
  drop (suc n) (x ∷ xs) = drop n xs

  -- The comprehension `[x for x in xs if p(x)]`, `all(...)`, `any(...)`, `sum(1 for ... if ...)`.
  abbrev pub filter : (A → Bool) → List A → List A
  filter p [] = []
  filter p (x ∷ xs) = let rest = filter p xs in if p x then x ∷ rest else rest

  abbrev pub all : (A → Bool) → List A → Bool
  all p [] = true
  all p (x ∷ xs) = p x && all p xs

  abbrev pub any : (A → Bool) → List A → Bool
  any p [] = false
  any p (x ∷ xs) = p x || any p xs

  abbrev pub count : (A → Bool) → List A → ℕ
  count p [] = 0
  count p (x ∷ xs) = let rest = count p xs in if p x then suc rest else rest

  -- A property of each item, by recursion, so that it computes to a tuple.
  abbrev pub All {κ} : (A → Type κ) → List A → Type κ
  All P [] = Unit
  All P (x ∷ xs) = P x × All P xs

module _ {ℓ} {A : Type ℓ} where
  pub length-append : (xs ys : List A) → length (xs ++ ys) ≡ length xs + length ys
  length-append [] ys = omega arith
  length-append (x ∷ xs) ys = omega (arith, length-append xs ys)

  pub length-drop : (n : ℕ) (xs : List A) → length (drop n xs) ≡ length xs - n
  length-drop zero xs = omega arith
  length-drop (suc n) [] = omega arith
  length-drop (suc n) (x ∷ xs) = omega (arith, length-drop n xs)

  pub length-take : (n : ℕ) (xs : List A) → length (take n xs) ≡ min n (length xs)
  length-take zero xs = omega arith
  length-take (suc n) [] = omega arith
  length-take (suc n) (x ∷ xs) = omega (arith, length-take n xs)

  pub length-filter : (p : A → Bool) (xs : List A) → length (filter p xs) ≤ length xs
  length-filter p [] = omega arith
  length-filter p (x ∷ xs) = ground (arith, length-filter p xs)

  pub All-append {κ} : (P : A → Type κ) (xs ys : List A) → All P xs → All P ys → All P (xs ++ ys)
  All-append P [] ys hx hy = hy
  All-append P (x ∷ xs) ys hx hy = (hx.0, All-append P xs ys hx.1 hy)

  pub All-filter {κ} :
      (P : A → Type κ) (p : A → Bool) (xs : List A) → All P xs → All P (filter p xs)
  All-filter P p [] h = h
  All-filter P p (x ∷ xs) h = keep (p x) (All-filter P p xs h.1)
    where
      keep : (b : Bool) → All P (filter p xs) → All P (if b then x ∷ filter p xs else filter p xs)
      keep true r = (h.0, r)
      keep false r = r

abbrev pub mem_ℕ : ℕ → List ℕ → Bool
mem_ℕ x [] = false
mem_ℕ x (y ∷ ys) = x == y || mem_ℕ x ys

-- `range(start, start + n)`.
abbrev pub range_from : ℕ → ℕ → List ℕ
range_from start zero = []
range_from start (suc n) = start ∷ range_from (suc start) n

pub mem_ℕ-range_from : (s n j : ℕ) → (mem_ℕ j (range_from s n) ≡ true) ↔ ((s ≤ j) × (j < s + n))
mem_ℕ-range_from s zero j = (λ h. ground arith, λ h. ground arith)
mem_ℕ-range_from s (suc n) j = (
  λ h. ground (arith, (mem_ℕ-range_from (suc s) n j).0),
  λ h. ground (arith, (mem_ℕ-range_from (suc s) n j).1),
)

pub mem_ℕ-filter :
    (p : ℕ → Bool) (xs : List ℕ) (j : ℕ) → mem_ℕ j (filter p xs) ≡ (mem_ℕ j xs && p j)
mem_ℕ-filter p [] j = refl
mem_ℕ-filter p (x ∷ xs) j = elim (Bool-cases (j == x)) [
  | inl e ↦ let q : j ≡ x = ground arith in rw q (ground (arith, mem_ℕ-filter p xs x))
  | inr e ↦ ground (arith, mem_ℕ-filter p xs j)
]

pub length-filter-All {ℓ} :
    {A : Type ℓ} (p : A → Bool) (xs : List A)
    → length (filter p xs) ≡ length xs
    → All (λ x. p x ≡ true) xs
length-filter-All p [] h = tt
length-filter-All p (x ∷ xs) h = elim (Bool-cases (p x)) [
  | inl e ↦ (e, length-filter-All p xs (ground (arith, e)))
  | inr e ↦ absurd (ground (arith, e, length-filter p xs))
]

pub length-range_from : (s n : ℕ) → length (range_from s n) ≡ n
length-range_from s zero = refl
length-range_from s (suc n) = ap suc (length-range_from (suc s) n)

pub All-mem_ℕ : (P : ℕ → Type 0) (xs : List ℕ) (j : ℕ) → All P xs → mem_ℕ j xs ≡ true → P j
All-mem_ℕ P [] j h m = absurd (ground arith)
All-mem_ℕ P (x ∷ xs) j h m = elim (Bool-cases (j == x)) [
  | inl e ↦ let q : j ≡ x = ground arith in rw q h.0
  | inr e ↦ All-mem_ℕ P xs j h.1 (ground arith)
]

pub below-suc : (P : ℕ → Type 0) (s : ℕ) → ((j : ℕ) → j < s → P j) → P s → (j : ℕ) → j < suc s → P j
below-suc P s before here j h = elim (Bool-cases (j == s)) [
  | inl e ↦ let q : j ≡ s = ground arith in rw q here
  | inr e ↦ before j (ground arith)
]

pub count-append {ℓ} :
    {A : Type ℓ} (p : A → Bool) (xs ys : List A) → count p (xs ++ ys) ≡ count p xs + count p ys
count-append p [] ys = omega arith
count-append p (x ∷ xs) ys = ground (arith, count-append p xs ys)

pub All-range_from :
    (P : ℕ → Type 0) (s n : ℕ) → ((j : ℕ) → s ≤ j → j < s + n → P j) → All P (range_from s n)
All-range_from P s zero h = tt
All-range_from P s (suc n) h = (
  h s (omega arith) (omega arith),
  All-range_from P (suc s) n (λ j l m. h j (omega arith) (omega arith)),
)

pub length-reverse {ℓ} : {A : Type ℓ} (xs : List A) → length (reverse xs) ≡ length xs
length-reverse [] = refl
length-reverse (x ∷ xs) =
    ap length (reverse-append (x ∷ []) xs)
    ∙ length-append (reverse xs) (x ∷ [])
    ∙ omega (arith, length-reverse xs)

pub any-append {ℓ} :
    {A : Type ℓ} (p : A → Bool) (xs ys : List A) → any p (xs ++ ys) ≡ (any p xs || any p ys)
any-append p [] ys = refl
any-append p (x ∷ xs) ys = ground (arith, any-append p xs ys)

-- ===== src/Prelude/Strings.antt =====
-- Texts as lists of code points, and the methods of `str` that the program calls on them. Case
-- and white space are those of ASCII.
use Prim.Native.Nat.{ℕ, ◌+◌, ◌≤◌}
use Prim.Native.Char.{code}
use Prim.Native.String.{String}
use mathlib.Core.Path.{◌≡◌, refl, ap, ◌∙◌}
use mathlib.Core.Logic.{◌↔◌, inl, inr}
use mathlib.Core.Bool.{Bool, true, false, not, ◌&&◌, ◌||◌}
use mathlib.Core.List.{List, [], ◌∷◌, ◌++◌, reverse, reverse-append, append_assoc, append-nil}
use native.Mathlib.Omega.{arith}
use moirax_asm.Prelude.Lists.{length, length-reverse, mem_ℕ}
use moirax_asm.Prelude.Tests.{leb, ◌==◌, Bool-cases, ==_iff, if◌then◌else◌}

abbrev pub Text : Type 0
Text = List ℕ

abbrev pub codes : String → Text
codes String.[] = []
codes (String.◌∷◌ c s) = code c ∷ codes s

unfoldable pub text_eq : Text → Text → Bool
text_eq [] [] = true
text_eq [] (b ∷ t) = false
text_eq (a ∷ s) [] = false
text_eq (a ∷ s) (b ∷ t) = a == b && text_eq s t

pub text_eq_sound : (s t : Text) → text_eq s t ≡ true → s ≡ t
unfolding text_eq
text_eq_sound [] [] h = refl
text_eq_sound [] (b ∷ t) h = ground arith
text_eq_sound (a ∷ s) [] h = ground arith
text_eq_sound (a ∷ s) (b ∷ t) h = ground (arith, text_eq_sound s t)

pub text_eq_refl : (s : Text) → text_eq s s ≡ true
unfolding text_eq
text_eq_refl [] = refl
text_eq_refl (a ∷ s) = ground (arith, text_eq_refl s)

pub text_eq_iff : (s t : Text) → (text_eq s t ≡ true) ↔ (s ≡ t)
text_eq_iff s t = (text_eq_sound s t, λ e. rw e (text_eq_refl t))

-- `x in xs` on a list or a set of texts.
unfoldable pub mem : Text → List Text → Bool
mem x [] = false
mem x (y ∷ ys) = text_eq x y || mem x ys

-- `not s`.
abbrev pub is_empty {ℓ} : {A : Type ℓ} → List A → Bool
is_empty [] = true
is_empty (a ∷ s) = false

abbrev pub is_lower : ℕ → Bool
is_lower c = leb b'a' c && leb c b'z'

abbrev pub is_upper : ℕ → Bool
is_upper c = leb b'A' c && leb c b'Z'

abbrev pub is_digit : ℕ → Bool
is_digit c = leb b'0' c && leb c b'9'

abbrev pub is_space : ℕ → Bool
is_space c = leb 9 c && leb c 13 || leb 28 c && leb c 32

unfoldable pub lower : Text → Text
lower [] = []
lower (c ∷ s) = (if is_upper c then c + 32 else c) ∷ lower s

unfoldable pub lstrip : (ℕ → Bool) → Text → Text
lstrip p [] = []
lstrip p (c ∷ s) = let rest = lstrip p s in if p c then rest else c ∷ s

unfoldable pub rstrip : (ℕ → Bool) → Text → Text
unfolding lstrip
rstrip p s = reverse (lstrip p (reverse s))

unfoldable pub strip : Text → Text
unfolding lstrip rstrip
strip s = rstrip is_space (lstrip is_space s)

abbrev pub is_dot : ℕ → Bool
is_dot c = c == b'.'

-- `value.strip().lower().rstrip(".")`, the form in which the program compares host names.
unfoldable pub norm : Text → Text
unfolding strip lower rstrip
norm s = rstrip is_dot (lower (strip s))

unfoldable pub starts_with : Text → Text → Bool
starts_with s [] = true
starts_with [] (b ∷ t) = false
starts_with (a ∷ s) (b ∷ t) = a == b && starts_with s t

-- `s.endswith(t)`: `t` is one of the tails of `s`.
unfoldable pub ends_with : Text → Text → Bool
unfolding text_eq
ends_with [] t = text_eq [] t
ends_with (a ∷ s) t = text_eq (a ∷ s) t || ends_with s t

unfoldable pub contains : Text → Text → Bool
unfolding starts_with
contains [] t = starts_with [] t
contains (a ∷ s) t = starts_with (a ∷ s) t || contains s t

-- `s.split(c)` for one character: `cur` is the piece under way, reversed.
split_from : ℕ → Text → Text → List Text
split_from c cur [] = reverse cur ∷ []
split_from c cur (a ∷ s) =
    let cut = split_from c [] s in
    let on = split_from c (a ∷ cur) s in if a == c then reverse cur ∷ cut else on

unfoldable pub split : ℕ → Text → List Text
unfolding split_from
split c s = split_from c [] s

pub starts_with_sound : (s t : Text) → starts_with s t ≡ true → (u : Text) × (s ≡ t ++ u)
unfolding starts_with
starts_with_sound s [] h = (s, refl)
starts_with_sound [] (b ∷ t) h = absurd (ground arith)
starts_with_sound (a ∷ s) (b ∷ t) h =
    let (u, e) = starts_with_sound s t (ground arith) in (u, ground arith)

pub ends_with_sound : (s t : Text) → ends_with s t ≡ true → (u : Text) × (s ≡ u ++ t)
unfolding ends_with
ends_with_sound [] t h = ([], text_eq_sound [] t h)
ends_with_sound (a ∷ s) t h = elim (Bool-cases (text_eq (a ∷ s) t)) [
  | inl e ↦ ([], text_eq_sound (a ∷ s) t e)
  | inr e ↦ let (u, p) = ends_with_sound s t (ground arith) in (a ∷ u, ap (λ (v : Text). a ∷ v) p)
]

pub ends_with-append : (u t : Text) → ends_with (u ++ t) t ≡ true
unfolding ends_with
ends_with-append [] [] = text_eq_refl []
ends_with-append [] (a ∷ t) = ground (arith, text_eq_refl (a ∷ t))
ends_with-append (a ∷ u) t = ground (arith, ends_with-append u t)

pub length-lstrip : (p : ℕ → Bool) (s : Text) → length (lstrip p s) ≤ length s
unfolding lstrip
length-lstrip p [] = omega arith
length-lstrip p (c ∷ s) = ground (arith, length-lstrip p s)

pub length-strip : (s : Text) → length (strip s) ≤ length s
unfolding strip
length-strip s = omega (
  arith,
  length-reverse (lstrip is_space (reverse (lstrip is_space s))),
  length-lstrip is_space (reverse (lstrip is_space s)),
  length-reverse (lstrip is_space s),
  length-lstrip is_space s,
)

pub reverse_cons : (a : ℕ) (cur xs : Text) → reverse (a ∷ cur) ++ xs ≡ reverse cur ++ a ∷ xs
reverse_cons a cur xs =
    ap (λ (v : Text). v ++ xs) (reverse-append (a ∷ []) cur)
    ∙ append_assoc (reverse cur) (a ∷ []) xs

split_from_lem :
    (c : ℕ) (cur xs ys : Text)
    → mem_ℕ c xs ≡ false
    → split_from c cur (xs ++ c ∷ ys) ≡ (reverse cur ++ xs) ∷ split_from c [] ys
unfolding split_from
split_from_lem c cur [] ys h = rw append-nil (ground (arith, ==_iff c c))
split_from_lem c cur (a ∷ xs) ys h =
    let ih = split_from_lem c (a ∷ cur) xs ys (ground arith) in
    let e : (a == c) ≡ false = ground arith in
    rw e (ih ∙ ap (λ (v : Text). v ∷ split_from c [] ys) (reverse_cons a cur xs))

split_from_end :
    (c : ℕ) (cur xs : Text) → mem_ℕ c xs ≡ false → split_from c cur xs ≡ (reverse cur ++ xs) ∷ []
unfolding split_from
split_from_end c cur [] h = rw append-nil refl
split_from_end c cur (a ∷ xs) h =
    let ih = split_from_end c (a ∷ cur) xs (ground arith) in
    let e : (a == c) ≡ false = ground arith in
    rw e (ih ∙ ap (λ (v : Text). v ∷ []) (reverse_cons a cur xs))

pub split_part :
    (c : ℕ) (xs ys : Text) → mem_ℕ c xs ≡ false → split c (xs ++ c ∷ ys) ≡ xs ∷ split c ys
unfolding split
split_part c xs ys h = split_from_lem c [] xs ys h

pub split_end : (c : ℕ) (xs : Text) → mem_ℕ c xs ≡ false → split c xs ≡ xs ∷ []
unfolding split
split_end c xs h = split_from_end c [] xs h

-- No text twice.
abbrev pub distinct : List Text → Bool
distinct [] = true
distinct (t ∷ ts) = not (mem t ts) && distinct ts

pub mem-append :
    (x : Text) (ts : List Text) (t : Text) → mem x (ts ++ t ∷ []) ≡ (mem x ts || text_eq x t)
unfolding mem
mem-append x [] t = ground arith
mem-append x (u ∷ ts) t = ground (arith, mem-append x ts t)

pub distinct-append :
    (ts : List Text) (t : Text)
    → distinct ts ≡ true
    → mem t ts ≡ false
    → distinct (ts ++ t ∷ []) ≡ true
unfolding mem
distinct-append [] t d m = refl
distinct-append (u ∷ ts) t d m =
    ground (arith, distinct-append ts t, mem-append u ts t, text_eq_iff u t, text_eq_iff t u)

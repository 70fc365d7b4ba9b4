-- ===== src/Prelude/Names.antt =====
-- The regular expressions for host names and AS numbers of pipeline/scope.py and
-- pipeline/hostsutil.py. Each is anchored, and is used on a text without white space at its ends.
use moirax_asm.Prelude.Tests.{leb, ◌==◌, if◌then◌else◌}
use moirax_asm.Prelude.Lists.{length, all}
use moirax_asm.Prelude.Strings.{Text, is_lower, is_upper, is_digit, split, starts_with}
use Prim.Native.Nat.{ℕ}
use mathlib.Core.Bool.{Bool, false, ◌&&◌, ◌||◌}
use mathlib.Core.List.{List, [], ◌∷◌}

abbrev is_letter : ℕ → Bool
is_letter c = is_lower c || is_upper c

abbrev is_alnum : ℕ → Bool
is_alnum c = is_letter c || is_digit c

-- [A-Za-z0-9-]{0,61}[A-Za-z0-9], the last character on its own.
ends_alnum : Text → Bool
ends_alnum [] = false
ends_alnum (c ∷ []) = is_alnum c
ends_alnum (c ∷ s) = (is_alnum c || c == b'-') && ends_alnum s

-- [A-Za-z0-9](?:[A-Za-z0-9-]{0,61}[A-Za-z0-9])?
unfoldable pub is_label : Text → Bool
unfolding ends_alnum
is_label [] = false
is_label (c ∷ []) = is_alnum c
is_label (c ∷ s) = is_alnum c && ends_alnum s && leb (length s) 62

-- [A-Za-z]{2,}
is_tld : Text → Bool
is_tld s = all is_letter s && leb 2 (length s)

-- The labels before the last part, at least one of them, and the last part.
labels_then_tld : List Text → Bool
unfolding is_label is_tld
labels_then_tld [] = false
labels_then_tld (l ∷ []) = false
labels_then_tld (l ∷ t ∷ []) = is_label l && is_tld t
labels_then_tld (l ∷ ls) = is_label l && labels_then_tld ls

-- (?:label\.)+[A-Za-z]{2,}
unfoldable pub is_dotted_name : Text → Bool
unfolding labels_then_tld split
is_dotted_name s = labels_then_tld (split b'.' s)

-- `_HOST_RE`: a dotted name, after `*.` or not.
unfoldable pub matches_host_re : Text → Bool
unfolding is_dotted_name starts_with
matches_host_re (c ∷ d ∷ s) =
    if c == b'*' && d == b'.' then is_dotted_name s else is_dotted_name (c ∷ d ∷ s)
matches_host_re s = is_dotted_name s

-- `_ASN_RE`, which ignores case.
unfoldable pub matches_asn_re : Text → Bool
matches_asn_re (a ∷ s ∷ d ∷ ds) =
    (a == b'A' || a == b'a') && (s == b'S' || s == b's') && all is_digit (d ∷ ds)
matches_asn_re s = false

-- ===== src/History/Samples.antt =====
-- Two runs, and the theorem on their difference.
use moirax_asm.Prelude.{ℕ, ◌≡◌, [], ◌∷◌, codes, ◌==◌, count, is_none, ◌&&◌, Bool}
use moirax_asm.Prelude.Dict.{Dict, lookup}
use moirax_asm.History.{diff_class}
use moirax_asm.History.Buckets.{entries, is_change, diff_class-counts}

abbrev eq : ℕ → ℕ → Bool
eq v w = v == w

abbrev older : Dict ℕ
older = (codes "a", 1) ∷ (codes "b", 2) ∷ []

abbrev newer : Dict ℕ
newer = (codes "b", 3) ∷ (codes "c", 4) ∷ []

diff_class-counts_example :
    (count (λ v. v == 4) (diff_class eq older newer).added
      ≡ entries (λ k w. is_none (lookup k older) && w == 4) newer)
    × (count (λ v. v == 4) (diff_class eq older newer).removed
        ≡ entries (λ k v. is_none (lookup k newer) && v == 4) older)
    × (count (λ c. c.before == 2) (diff_class eq older newer).changed
        ≡ entries (λ k w. is_change eq (λ c. c.before == 2) (lookup k older) w) newer)
diff_class-counts_example = diff_class-counts eq (λ v. v == 4) (λ c. c.before == 2) older newer

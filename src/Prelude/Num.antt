-- ===== src/Prelude/Num.antt =====
-- The floating-point numbers that the program computes with: a type and its operations. What a
-- proof needs of them is a hypothesis, `IsOrdered`, which finite floats meet.
use Prim.Native.Nat.{ℕ, ◌+◌, ◌-◌, ◌*◌, ◌/◌}
use mathlib.Core.Path.{◌≡◌}
use mathlib.Core.Bool.{Bool, true, false, not}
use native.Mathlib.Omega.{arith}
use moirax_asm.Prelude.Tests.{leb, ◌==◌, if◌then◌else◌}

pub record Num (F : Type 0) : Type 0 where
  pub of_ℕ : ℕ → F
  pub add : F → F → F
  pub sub : F → F → F
  pub mul : F → F → F
  pub div : F → F → F
  -- a <= b, and a == b
  pub le : F → F → Bool
  pub eq : F → F → Bool
  -- int(a), for a that is not negative
  pub trunc : F → ℕ
  -- int(a // b), for a that is not negative and b that is positive
  pub floor_div : F → F → ℕ

module _ {F : Type 0} ⦃N : Num F⦄ where
  -- a < b
  abbrev pub lt : F → F → Bool
  lt a b = not (N.le b a)

  -- min(a, b) keeps a unless b is smaller; max(a, b) keeps a unless b is larger.
  abbrev pub min_num : F → F → F
  min_num a b = if lt b a then b else a

  abbrev pub max_num : F → F → F
  max_num a b = if lt a b then b else a

  abbrev pub is_zero : F → Bool
  is_zero a = N.eq a (N.of_ℕ 0)

-- The comparison of finite floats is a total preorder.
pub record IsOrdered {F : Type 0} (N : Num F) : Type 0 where
  pub total : (a b : F) → N.le a b ≡ false → N.le b a ≡ true
  pub trans : (a b c : F) → N.le a b ≡ true → N.le b c ≡ true → N.le a c ≡ true

module _ {F : Type 0} ⦃N : Num F⦄ (o : IsOrdered N) where
  pub le_num_refl : (a : F) → N.le a a ≡ true
  le_num_refl a = ground (arith, o.total a a)

  pub min_num-le_right : (a b : F) → N.le (min_num a b) b ≡ true
  min_num-le_right a b = ground (arith, le_num_refl b, o.total a b)

  pub le-max_num_left : (a b : F) → N.le a (max_num a b) ≡ true
  le-max_num_left a b = ground (arith, le_num_refl a, o.total b a)

-- Thousandths: an instance on which the definitions run.
instance abbrev pub milli : Num ℕ
milli = record {
  of_ℕ = λ n. 1000 * n;
  add = λ a b. a + b;
  sub = λ a b. a - b;
  mul = λ a b. a * b / 1000;
  div = λ a b. a * 1000 / b;
  le = λ a b. leb a b;
  eq = λ a b. a == b;
  trunc = λ a. a / 1000;
  floor_div = λ a b. a / b;
}

pub milli-IsOrdered : IsOrdered milli
milli-IsOrdered = record { total = λ a b h. ground arith; trans = λ a b c h k. ground arith }

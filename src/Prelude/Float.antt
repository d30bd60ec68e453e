-- ===== src/Prelude/Float.antt =====
-- The C++ `float`, which is not part of the program: a type with its operations, taken as a
-- parameter. `IsOrdered` holds of the floats that are not NaN.
use wenet_android.Prelude.{◌≡◌, Bool, true, false, ◌⊎◌, arith}
use wenet_android.Prelude.Int.{ℤ, pos, negsuc, ◌+ℤ◌, ◌-ℤ◌, ◌*ℤ◌, ltb_ℤ}

pub record Float : Type 1 where
  pub F : Type 0
  pub of_int : ℤ → F
  pub lowest : F  -- -std::numeric_limits<float>::max()
  pub add : F → F → F
  pub sub : F → F → F
  pub mul : F → F → F
  pub div : F → F → F
  pub neg : F → F
  pub exp : F → F
  pub log : F → F
  pub lt : F → F → Bool

-- `a < b` is a strict weak order: what the standard asks of the orders given to `std::sort`.
pub record IsOrdered (f : Float) : Type 0 where
  pub lt_irrefl : (a : f.F) → f.lt a a ≡ false
  pub lt_trans : (a b c : f.F) → f.lt a b ≡ true → f.lt b c ≡ true → f.lt a c ≡ true
  pub lt_split : (a b c : f.F) → f.lt a c ≡ true → (f.lt a b ≡ true) ⊎ (f.lt b c ≡ true)

-- Whole numbers in place of floats: enough to run the definitions on an input.
abbrev pub whole : Float
whole = record {
  F = ℤ;
  of_int = λ n. n;
  lowest = negsuc 999_999;
  add = ◌+ℤ◌;
  sub = ◌-ℤ◌;
  mul = ◌*ℤ◌;
  div = λ a b. a;
  neg = λ a. pos 0 -ℤ a;
  exp = λ a. a;
  log = λ a. a;
  lt = ltb_ℤ;
}

pub whole-IsOrdered : IsOrdered whole
whole-IsOrdered = record {
  lt_irrefl = λ a. ground arith;
  lt_trans = λ a b c h k. ground arith;
  lt_split = λ a b c h. ground arith;
}

-- ===== src/Base/Int.antt =====
-- Signed integers, and Go's float64: a finite value counts units of 2^-1074, which every float64
-- is a whole number of, so that comparison is exact.
use Prim.Native.Nat.{ℕ}
use mathlib.Core.Bool.{Bool, true, false, ◌||◌}
use price_scount.Base.Tests.{ltb, ◌==◌}

-- `negsuc n` is -(n + 1).
pub data ℤ : Type 0 where
  pos : ℕ → ℤ
  negsuc : ℕ → ℤ

pub data Float64 : Type 0 where
  nan pos_inf neg_inf : Float64
  finite : ℤ → Float64

abbrev pub int_lt : ℤ → ℤ → Bool
int_lt (pos a) (pos b) = ltb a b
int_lt (pos a) (negsuc b) = false
int_lt (negsuc a) (pos b) = true
int_lt (negsuc a) (negsuc b) = ltb b a

abbrev pub int_eq : ℤ → ℤ → Bool
int_eq (pos a) (pos b) = a == b
int_eq (pos a) (negsuc b) = false
int_eq (negsuc a) (pos b) = false
int_eq (negsuc a) (negsuc b) = a == b

-- Go's `a < b`, `a == b` and `a <= b`: NaN is unordered and unequal to all.
abbrev pub float_lt : Float64 → Float64 → Bool
float_lt nan b = false
float_lt a nan = false
float_lt (finite a) (finite b) = int_lt a b
float_lt pos_inf b = false
float_lt neg_inf neg_inf = false
float_lt neg_inf b = true
float_lt (finite a) pos_inf = true
float_lt (finite a) neg_inf = false

abbrev pub float_eq : Float64 → Float64 → Bool
float_eq (finite a) (finite b) = int_eq a b
float_eq pos_inf pos_inf = true
float_eq neg_inf neg_inf = true
float_eq _ _ = false

abbrev pub float_le : Float64 → Float64 → Bool
float_le a b = float_lt a b || float_eq a b

abbrev pub float_zero : Float64
float_zero = finite (pos 0)

-- math.IsNaN and math.IsInf.
abbrev pub is_nan : Float64 → Bool
is_nan nan = true
is_nan _ = false

abbrev pub is_inf : Float64 → Bool
is_inf pos_inf = true
is_inf neg_inf = true
is_inf _ = false
